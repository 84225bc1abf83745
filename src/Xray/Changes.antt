-- ===== src/Xray/Changes.antt =====
-- _xray_rpf_set and _xray_rpf_remove: pure changes of the configuration.
use Prim.Native.Char.{code}
use openmptcprouter_vps.Config.{get_or}
use openmptcprouter_vps.Exec.{Result, ok, raised, value_error}
use openmptcprouter_vps.Prelude.{
  Bool, List, String, String_discrete, [], any, contains, false, filter, fmt, if◌then◌else◌, none,
  not, some, str, true, ℕ, ◌&&◌, ◌++◌, ◌==ℕ◌, ◌==◌, ◌∷◌,
}
use openmptcprouter_vps.Xray.Data.{Client, Inbound, Rule, XrayData, plain_tcp, tls_tcp}

unfoldable pub public_tag : String → ℕ → String
public_tag username port = fmt ("omr-rpf-" ∷ username ∷ "-tcp-" ∷ str port ∷ [])

unfoldable pub reverse_tag : String → String
reverse_tag username = fmt ("omr-rpf-reverse-" ∷ username ∷ [])

abbrev pub rpf_listener : String
rpf_listener = "omr-rpf-reverse-listen"

abbrev pub rpf_port : ℕ
rpf_port = 65444

-- i.get('tag') == tag
unfoldable pub has_tag : String → Inbound → Bool
has_tag tag i = elim i.tag [ none ↦ false | some t ↦ t == tag ]

unfoldable pub has_port : ℕ → Inbound → Bool
has_port port i = elim i.port [ none ↦ false | some p ↦ p ==ℕ port ]

-- c.get('email') == username
unfoldable pub is_client_of : String → Client → Bool
is_client_of username c = elim c.email [ none ↦ false | some e ↦ e == username ]

abbrev reverse_client : String → String → Client
reverse_client username client_uuid = record {
  id = some client_uuid;
  email = some username;
  reverse = some (reverse_tag username);
}

abbrev pub no_inbound : Inbound
no_inbound = record {
  tag = none;
  listen = none;
  port = none;
  protocol = none;
  decryption = none;
  clients = none;
  allowed_network = none;
  port_map = none;
  stream = none;
}

-- listener.update(…), with the user's client replaced.
unfoldable pub updated_listener : String → String → Inbound → Inbound
updated_listener username client_uuid i = record i {
  listen = some "0.0.0.0";
  port = some rpf_port;
  protocol = some "vless";
  stream = some tls_tcp;
  decryption = some "none";
  clients = some (
      filter (λ c. not (is_client_of username c)) (get_or i.clients [])
      ++ reverse_client username client_uuid ∷ []);
}

-- The first listener is updated in its place, or a new one added at the end.
unfoldable pub with_listener : String → String → List Inbound → List Inbound
with_listener username client_uuid [] =
    updated_listener username client_uuid (record no_inbound { tag = some rpf_listener }) ∷ []
with_listener username client_uuid (i ∷ inbounds) =
    if has_tag rpf_listener i
    then updated_listener username client_uuid i ∷ inbounds
    else i ∷ with_listener username client_uuid inbounds

unfoldable pub tunnel_inbound : String → ℕ → String → ℕ → Inbound
tunnel_inbound username port destip destport = record no_inbound {
  tag = some (public_tag username port);
  listen = some "0.0.0.0";
  port = some port;
  protocol = some "tunnel";
  allowed_network = some "tcp";
  port_map = some ((str port, fmt (destip ∷ ":" ∷ str destport ∷ [])) ∷ []);
  stream = some plain_tcp;
}

-- tag in r.get('inboundTag', [])
unfoldable pub takes_tag : String → Rule → Bool
takes_tag tag r = contains String_discrete tag r.inbound_tag

abbrev pub inbounds_of : XrayData → List Inbound
inbounds_of d = get_or d.inbounds []

abbrev pub rules_of : XrayData → List Rule
rules_of d = get_or d.rules []

-- inbound.get('tag') != tag and inbound.get('port') == port
unfoldable pub is_taken : String → ℕ → List Inbound → Bool
is_taken tag port inbounds = any (λ i. not (has_tag tag i) && has_port port i) inbounds

unfoldable pub xray_rpf_set : XrayData → String → ℕ → String → ℕ → String → Result XrayData
xray_rpf_set d username port destip destport client_uuid =
    let tag = public_tag username port in
    if is_taken tag port (inbounds_of d)
    then raised value_error
    else ok (record d {
      inbounds = some (
          filter (λ i. not (has_tag tag i)) (with_listener username client_uuid (inbounds_of d))
          ++ tunnel_inbound username port destip destport ∷ []);
      rules = some (
          filter (λ r. not (takes_tag tag r)) (rules_of d)
          ++ record { inbound_tag = tag ∷ []; outbound_tag = some (reverse_tag username) } ∷ []);
    })

-- s.startswith(p)
unfoldable pub starts_with : String → String → Bool
starts_with String.[] s = true
starts_with (String.◌∷◌ d p) String.[] = false
starts_with (String.◌∷◌ d p) (String.◌∷◌ c s) =
    let rest = starts_with p s in code c ==ℕ code d && rest

-- A public port of the user, by the start of its tag.
unfoldable pub is_public_of : String → Inbound → Bool
is_public_of username i = elim i.tag [
  | none ↦ false
  | some t ↦ starts_with (fmt ("omr-rpf-" ∷ username ∷ "-tcp-" ∷ [])) t
]

-- A listener without the user's client, or nothing if no client is left.
unfoldable pub drop_client : String → List Inbound → List Inbound
drop_client username [] = []
drop_client username (i ∷ inbounds) =
    let rest = drop_client username inbounds in
    if has_tag rpf_listener i
    then (let clients = filter (λ c. not (is_client_of username c)) (get_or i.clients []) in
        elim clients [ [] ↦ rest | c ∷ cs ↦ record i { clients = some (c ∷ cs) } ∷ rest ])
    else i ∷ rest

-- The new configuration, and whether there was such a port.
unfoldable pub xray_rpf_remove : XrayData → String → ℕ → XrayData × Bool
xray_rpf_remove d username port =
    let tag = public_tag username port in
    let inbounds = filter (λ i. not (has_tag tag i)) (inbounds_of d) in
    (
      record d {
        inbounds = some (
            if any (is_public_of username) inbounds
            then inbounds
            else drop_client username inbounds);
        rules = some (filter (λ r. not (takes_tag tag r)) (rules_of d));
      },
      any (has_tag tag) (inbounds_of d),
    )
