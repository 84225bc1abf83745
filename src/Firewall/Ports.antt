-- ===== src/Firewall/Ports.antt =====
-- _nft_sync_ports, _fw_port_key, _fw_port_add and _fw_port_del.
use openmptcprouter_vps.Config.{FwEntry, FwEntry_discrete, UserData, get_or, is_truthy}
use openmptcprouter_vps.Dict.{lookup}
use openmptcprouter_vps.Exec.{Exec, lift, pure, ◌>>=◌, ◌>>◌}
use openmptcprouter_vps.Firewall.Nft.{nft_flush_chain}
use openmptcprouter_vps.Firewall.Rules.{render_bulk_redirect, render_fw_ports}
use openmptcprouter_vps.Host.{Host, World}
use openmptcprouter_vps.Host.Store.{load_config, read_omr_config, users_of}
use openmptcprouter_vps.Prelude.{
  Bool, List, Option, String, String_discrete, [], contains, false, filter, holds, if◌then◌else◌,
  none, not, refl, some, true, ℕ, ℕ_discrete, ◌&&◌, ◌++◌, ◌==◌, ◌||◌, ◌↔◌, ◌∷◌, ◌≡◌,
}
use openmptcprouter_vps.Users.Changes.{fw_ports_to, modif_config_user}

unfoldable pub nft_sync_ports : Host → Exec World Bool
nft_sync_ports host = do
  c ← read_omr_config
  if is_truthy c
      then (do
        rules ← lift (render_fw_ports c)
        bulk ← lift (render_bulk_redirect c)
        accepted ← nft_flush_chain host "user_accept" rules.0
        if accepted then nft_flush_chain host "user_dnat" (bulk ++ rules.1) else pure false)
      else pure false

-- The tuple by which two entries are the same port.
pub record FwKey : Type 0 where
  pub name : Option String
  pub port : String
  pub proto : Option String
  pub fwtype : Option String
  pub family : Option ℕ
  pub source_dip : String
  pub dest_ip : String

unfoldable pub FwKey_discrete : Discrete FwKey
unfolding String_discrete ℕ_discrete
FwKey_discrete = hlevel (String_discrete, ℕ_discrete)

unfoldable pub same_key : FwKey → FwKey → Bool
unfolding FwKey_discrete
same_key a b = holds (FwKey_discrete a b)

pub same_key_iff : (a b : FwKey) → (same_key a b ≡ true) ↔ (a ≡ b)
unfolding same_key
same_key_iff a b = elim (FwKey_discrete a b) as (λ d. (holds d ≡ true) ↔ (a ≡ b)) [
  | yes p ↦ (λ _. p, λ _. refl)
  | no n ↦ (λ h. cc, λ p. absurd (n p))
]

unfoldable pub FwEntries_discrete : Discrete (List FwEntry)
unfolding FwEntry_discrete
FwEntries_discrete = hlevel FwEntry_discrete

unfoldable pub fw_port_key : FwEntry → FwKey
fw_port_key e = record {
  name = e.name;
  port = get_or e.port "None";
  proto = e.proto;
  fwtype = e.fwtype;
  family = e.family;
  source_dip = get_or e.source_dip "";
  dest_ip = get_or e.dest_ip "";
}

-- The arguments of _fw_port_add; _fw_port_del has all but the last two.
pub record FwPort : Type 0 where
  pub port : String
  pub proto : String
  pub name : String
  pub fwtype : String
  pub family : ℕ
  pub source_dip : String
  pub dest_ip : String

abbrev pub key_of : FwPort → FwKey
key_of p = record {
  name = some p.name;
  port = p.port;
  proto = some p.proto;
  fwtype = some p.fwtype;
  family = some p.family;
  source_dip = p.source_dip;
  dest_ip = p.dest_ip;
}

abbrev pub entry_of : FwPort → String → String → FwEntry
entry_of p vpn comment = record {
  name = some p.name;
  port = some p.port;
  proto = some p.proto;
  fwtype = some p.fwtype;
  family = some p.family;
  source_dip = some p.source_dip;
  dest_ip = some p.dest_ip;
  vpn = some vpn;
  comment = some comment;
}

abbrev pub is_supported_type : String → Bool
is_supported_type t = t == "ACCEPT" || t == "DNAT"

-- p.get('fwtype') in ('ACCEPT', 'DNAT')
unfoldable pub is_supported : FwEntry → Bool
is_supported e = elim e.fwtype [ none ↦ false | some t ↦ is_supported_type t ]

unfoldable pub has_other_key : FwKey → FwEntry → Bool
has_other_key k e = not (same_key (fw_port_key e) k)

-- entry in ports and supported == ports
unfoldable pub is_settled : FwEntry → List FwEntry → Bool
is_settled entry ports =
    contains FwEntry_discrete entry ports
    && holds (FwEntries_discrete (filter is_supported ports) ports)

-- The list after an entry is added: nothing changes if it is there and the list needs no pruning.
unfoldable pub ports_added : FwKey → FwEntry → List FwEntry → List FwEntry
ports_added k entry ports =
    if is_settled entry ports
    then ports
    else filter (has_other_key k) (filter is_supported ports) ++ entry ∷ []

-- [p for p in ports if _fw_port_key(p) != key and p.get('fwtype') in ('ACCEPT', 'DNAT')]
unfoldable pub ports_removed : FwKey → List FwEntry → List FwEntry
ports_removed k ports = filter (λ p. has_other_key k p && is_supported p) ports

-- modif_config_user(username, {'fw_ports': ports}); _nft_sync_ports()
unfoldable pub save_ports : Host → String → List FwEntry → Exec World Unit
unfolding ◌>>=◌
save_ports host username ports = do
  modif_config_user username (fw_ports_to ports ∷ [])
  nft_sync_ports host
  pure tt

abbrev pub stored_ports : UserData → List FwEntry
stored_ports u = get_or u.fw_ports []

unfoldable pub fw_port_add : Host → String → FwPort → String → String → Exec World Unit
fw_port_add host username p vpn comment = if not (is_supported_type p.fwtype) then pure tt else do
  data' ← load_config
  users ← users_of data'
  elim (lookup username users) [
    | none ↦ pure tt
    | some u ↦
        let ports = stored_ports u in
        let supported = filter is_supported ports in
        let entry = entry_of p vpn comment in
        if is_settled entry ports
        then pure tt
        else save_ports host username (filter (has_other_key (key_of p)) supported ++ entry ∷ [])
  ]

unfoldable pub fw_port_del : Host → String → FwPort → Exec World Unit
fw_port_del host username p = do
  data' ← load_config
  users ← users_of data'
  elim (lookup username users) [
    | none ↦ pure tt
    | some u ↦
        let ports = stored_ports u in
        let new_ports = ports_removed (key_of p) ports in
        if holds (FwEntries_discrete new_ports ports)
        then pure tt
        else save_ports host username new_ports
  ]
