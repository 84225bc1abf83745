-- ===== src/V2ray/Ports.antt =====
-- v2ray_add_port and v2ray_del_port: what they read and write of v2ray-server.json. Other keys are
-- passed on.
use openmptcprouter_vps.Exec.{
  Exec, PyError, Result, bind, index_error, key_error, ok, raised, value_error,
}
use openmptcprouter_vps.Prelude.{
  Bool, List, Option, String, String_discrete, [], false, fmt, holds, if◌then◌else◌, none, some,
  true, ℕ, ℕ_discrete, ℤ, ◌&&◌, ◌++◌, ◌+◌, ◌==◌, ◌||◌, ◌∷◌,
}
use openmptcprouter_vps.V2ray.Numbers.{parse_int}
use openmptcprouter_vps.Xray.Write.{dumped}

pub record V2rayInbound : Type 0 where
  pub tag : Option String
  pub port : Option ℤ
  pub protocol : Option String
  pub network : Option String
  pub target_port : Option ℤ
  pub address : Option String

-- A rule's `inboundTag`, a text or a list of texts.
pub data InboundTag : Type 0 where
  text : String → InboundTag
  texts : List String → InboundTag

pub record V2rayRule : Type 0 where
  pub inbound_tag : Option InboundTag
  pub outbound_tag : Option String

-- `rules` is data['routing']['rules'].
pub record V2rayData : Type 0 where
  pub inbounds : Option (List V2rayInbound)
  pub rules : Option (List V2rayRule)

-- The file: missing, not JSON, or JSON with the fact whether json.dump with indent=4 laid it out.
pub data V2rayFile : Type 0 where
  absent not_json : V2rayFile
  json : V2rayData → Bool → V2rayFile

pub record V2rayState : Type 0 where
  pub file : V2rayFile
  pub restarts : ℕ

unfoldable pub V2rayData_discrete : Discrete V2rayData
unfolding String_discrete ℕ_discrete
V2rayData_discrete = hlevel (String_discrete, ℕ_discrete)

-- The request's fields; `username` is the user's.
pub record Redirect : Type 0 where
  pub username : String
  pub port : String
  pub proto : String
  pub destip : String
  pub destport : String

-- The tag up to the port.
unfoldable pub short_tag : Redirect → String
short_tag r = fmt (r.username ∷ "_redir_" ∷ r.proto ∷ "_" ∷ r.port ∷ [])

unfoldable pub full_tag : Redirect → String
full_tag r = fmt (short_tag r ∷ "_to_" ∷ r.destip ∷ ":" ∷ r.destport ∷ [])

-- The tag that v2ray_del_port looks for.
unfoldable pub removed_tag : Redirect → String
removed_tag r = if r.destip == "" then short_tag r else full_tag r

-- d[k], with the exception of a missing value.
abbrev pub or_raise {ℓ} : {A : Type ℓ} → PyError → Option A → Result A
or_raise e none = raised e
or_raise e (some a) = ok a

-- inbounds['tag'] == tag for some inbound, with the KeyError of one without a tag.
unfoldable pub exists_tag : String → List V2rayInbound → Result Bool
exists_tag tag [] = ok false
exists_tag tag (i ∷ l) =
    bind (or_raise key_error i.tag) (λ t. bind (exists_tag tag l) (λ b. ok (t == tag || b)))

-- Each inbound with the tag removes the first that equals it, so in the end all with the tag are gone.
unfoldable pub drop_inbounds : String → List V2rayInbound → Result (List V2rayInbound)
drop_inbounds tag [] = ok []
drop_inbounds tag (i ∷ l) =
    bind (or_raise key_error i.tag)
      (λ t. bind (drop_inbounds tag l) (λ rest. ok (if t == tag then rest else i ∷ rest)))

-- The first element: of a text, the text of its first character.
unfoldable pub first_of : InboundTag → Result String
first_of (text String.[]) = raised index_error
first_of (text (String.◌∷◌ c s)) = ok (String.◌∷◌ c "")
first_of (texts []) = raised index_error
first_of (texts (t ∷ ts)) = ok t

-- routing['inboundTag'][0]
unfoldable pub first_tag : V2rayRule → Result String
first_tag r = bind (or_raise key_error r.inbound_tag) first_of

unfoldable pub drop_rules : String → List V2rayRule → Result (List V2rayRule)
unfolding first_tag
drop_rules tag [] = ok []
drop_rules tag (r ∷ l) =
    bind (first_tag r)
      (λ t. bind (drop_rules tag l) (λ rest. ok (if t == tag then rest else r ∷ rest)))

-- The inbound that is added.
unfoldable pub door : Redirect → ℤ → ℤ → V2rayInbound
door r port destport = record {
  tag = some (full_tag r);
  port = some port;
  protocol = some "dokodemo-door";
  network = some r.proto;
  target_port = some destport;
  address = some r.destip;
}

unfoldable pub door_rule : Redirect → V2rayRule
door_rule r = record { inbound_tag = some (texts (full_tag r ∷ [])); outbound_tag = some "OMRLan" }

unfoldable pub added : Redirect → V2rayData → Result V2rayData
added r d = bind (or_raise key_error d.inbounds) (λ l. bind (exists_tag (full_tag r) l) (λ exist.
    if exist
    then ok d
    else bind (or_raise value_error (parse_int r.port)) (λ port.
      bind (or_raise value_error (parse_int r.destport)) (λ destport.
        bind (or_raise key_error d.rules) (λ rules. ok (record {
          inbounds = some (l ++ door r port destport ∷ []);
          rules = some (rules ++ door_rule r ∷ []);
        }))))))

unfoldable pub removed : Redirect → V2rayData → Result V2rayData
removed r d = bind (or_raise key_error d.inbounds) (λ l.
    bind (drop_inbounds (removed_tag r) l) (λ kept. bind (or_raise key_error d.rules) (λ rules.
      bind (drop_rules (removed_tag r) rules)
        (λ kept_rules. ok (record { inbounds = some kept; rules = some kept_rules })))))

-- After the change of the data `d` of a file: `dumped` is how it was laid out.
unfoldable pub write_back : V2rayData → Bool → Result V2rayData → Exec V2rayState Unit
write_back d dumped (raised e) s = (raised e, s)
write_back d dumped (ok after) s = (
  ok tt,
  record {
    file = json after true;
    restarts = if dumped && holds (V2rayData_discrete after d) then s.restarts else s.restarts + 1;
  },
)

unfoldable pub change_file : (V2rayData → Result V2rayData) → V2rayFile → Exec V2rayState Unit
change_file change absent s = (ok tt, s)
change_file change not_json s = (raised value_error, s)
change_file change (json d dumped) s = write_back d dumped (change d) s

-- The file is read, changed and written, and V2Ray is restarted if the file's bytes are other ones. An
-- exception before the write leaves the file.
unfoldable pub changed : (V2rayData → Result V2rayData) → Exec V2rayState Unit
changed change s = change_file change s.file s

unfoldable pub v2ray_add_port : Redirect → Exec V2rayState Unit
v2ray_add_port r = changed (added r)

unfoldable pub v2ray_del_port : Redirect → Exec V2rayState Unit
v2ray_del_port r = changed (removed r)

-- The functions for XRay have the same text, over xray-server.json and its service.
unfoldable pub xray_add_port : Redirect → Exec V2rayState Unit
xray_add_port r = changed (added r)

unfoldable pub xray_del_port : Redirect → Exec V2rayState Unit
xray_del_port r = changed (removed r)
