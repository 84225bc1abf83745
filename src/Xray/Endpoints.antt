-- ===== src/Xray/Endpoints.antt =====
-- /xrayrpfredirect and /xrayrpfunredirect.
use Prim.Native.Char.{code}
use openmptcprouter_vps.Config.{get_or, new_user, users_or_empty}
use openmptcprouter_vps.Dict.{lookup}
use openmptcprouter_vps.Exec.{Exec, gets, ok, pure, raised, ◌>>=◌, ◌>>◌}
use openmptcprouter_vps.Firewall.Ports.{FwPort, fw_port_add, fw_port_del}
use openmptcprouter_vps.Host.{Host, World}
use openmptcprouter_vps.Host.Reply.{Reply, User, reply, unless_read_only}
use openmptcprouter_vps.Host.Store.{read_omr_config}
use openmptcprouter_vps.Prelude.{
  Bool, List, Option, String, [], fmt, if◌then◌else◌, leb, none, not, some, str, true, ℕ, ◌&&◌, ◌*◌,
  ◌+◌, ◌-◌, ◌==◌, ◌∷◌,
}
use openmptcprouter_vps.Xray.Changes.{
  has_tag, inbounds_of, is_client_of, xray_rpf_remove, xray_rpf_set,
}
use openmptcprouter_vps.Xray.Data.{Client, Inbound, XrayData, XrayText}
use openmptcprouter_vps.Xray.Write.{failed_with, finished, xray_rpf_write}

-- int(text) of a text of digits (str.isdigit; digits other than 0 to 9 are not modelled).
digits : String → ℕ → Option ℕ
digits String.[] n = some n
digits (String.◌∷◌ c s) n =
    let rest = digits s (n * 10 + (code c - 48)) in
    if leb 48 (code c) && leb (code c) 57 then rest else none

unfoldable pub parse_port : String → Option ℕ
unfolding digits
parse_port s = if s == "" then none else digits s 0

-- The request of /xrayrpfredirect; its name is not used.
pub record XrayParams : Type 0 where
  pub port : String
  pub proto : String
  pub destip : String
  pub destport : String

-- (port, target, target port), or the reason of the ValueError.
pub data Checked : Type 0 where
  checked : ℕ → String → ℕ → Checked
  rejected : String → Checked

abbrev check_target : Host → String → ℕ → ℕ → Checked
check_target host destip public_port target_port = elim (host.ip_address destip) [
  | none ↦ rejected "Destination must be an IPv4 address"
  | some (is_v4, target) ↦
      if is_v4
      then checked public_port target target_port
      else rejected "Destination must be an IPv4 address"
]

unfoldable pub xray_rpf_parameters : Host → XrayParams → Checked
unfolding parse_port
xray_rpf_parameters host p =
    if not (p.proto == "tcp")
    then rejected "XRay reverse supports one TCP port per rule"
    else elim (parse_port p.port) [
      | none ↦ rejected "XRay reverse supports one TCP port per rule"
      | some public_port ↦ elim (parse_port p.destport) [
        | none ↦ rejected "XRay reverse supports one TCP port per rule"
        | some target_port ↦
            if leb 1 public_port
              && leb public_port 64999
              && leb 1 target_port
              && leb target_port 65535
            then check_target host p.destip public_port target_port
            else rejected "Port out of range"
      ]
    ]

-- The id of the user's first own client of the first omrin-tunnel inbound, or ''.
abbrev is_own : String → Client → Bool
is_own username c = is_client_of username c && elim c.reverse [ none ↦ true | some r ↦ r == "" ]

first_id : String → List Client → String
first_id username [] = ""
first_id username (c ∷ cs) = if is_own username c then get_or c.id "" else first_id username cs

tunnel_id : String → List Inbound → String
unfolding first_id
tunnel_id username [] = ""
tunnel_id username (i ∷ inbounds) =
    if has_tag "omrin-tunnel" i
    then first_id username (get_or i.clients [])
    else tunnel_id username inbounds

unfoldable pub xray_rpf_client_uuid : Host → String → XrayData → Exec World String
unfolding tunnel_id
xray_rpf_client_uuid host username d = do
  c ← read_omr_config
  let key = get_or (get_or (lookup username (users_or_empty c)) new_user).xray_key ""
  let uuid_value = if key == "" then tunnel_id username (inbounds_of d) else key
  pure (get_or (host.uuid uuid_value) "")

-- The firewall entry of a public port; shorewall_add_port's defaults are filled in.
abbrev pub rpf_port_entry : ℕ → FwPort
rpf_port_entry port = record {
  port = str port;
  proto = "tcp";
  name = fmt ("router " ∷ str port ∷ []);
  fwtype = "ACCEPT";
  family = 4;
  source_dip = "";
  dest_ip = "";
}

-- The write, and the firewall change that follows if it worked.
unfoldable pub write_then : Host → XrayData → XrayText → Exec World Unit → Exec World Reply
write_then host d before change = do
  outcome ← xray_rpf_write host d before
  elim outcome [
    | failed_with reason ↦ pure (reply "error" reason)
    | finished reason ↦ (do change; pure (reply "done" reason))
  ]

-- The file as it was read at the start.
unfoldable pub with_xray : (XrayText → Exec World Reply) → Exec World Reply
with_xray f = do
  text ← gets (λ w. w.xray)
  elim text [ none ↦ pure (reply "warning" "XRay not installed") | some before ↦ f before ]

-- The rest of xray_rpf_add_port, with the parameters checked and the user's id found.
unfoldable pub add_checked : Host → String → XrayText → ℕ → String → ℕ → String → Exec World Reply
add_checked host username before port target target_port client_uuid =
    if client_uuid == ""
    then pure (reply "error" "XRay user UUID not found")
    else elim (xray_rpf_set before.content username port target target_port client_uuid) [
      | raised e ↦ pure (reply "error" (fmt ("XRay port " ∷ str port ∷ " is already in use" ∷ [])))
      | ok d ↦ write_then host d before (
          fw_port_add host username (rpf_port_entry port) "default"
            (fmt (" --- XRay RPF to " ∷ target ∷ ":" ∷ str target_port ∷ [])))
    ]

unfoldable pub xray_rpf_add_port : Host → String → XrayParams → XrayText → Exec World Reply
xray_rpf_add_port host username p before = elim (xray_rpf_parameters host p) [
  | rejected reason ↦ pure (reply "error" reason)
  | checked port target target_port ↦ (do
    client_uuid ← xray_rpf_client_uuid host username before.content
    add_checked host username before port target target_port client_uuid)
]

-- The public port of a removal.
unfoldable pub removal_port : XrayParams → Option ℕ
removal_port p = if not (p.proto == "tcp") then none else elim (parse_port p.port) [
  | none ↦ none
  | some n ↦ if leb 1 n && leb n 64999 then some n else none
]

unfoldable pub xray_rpf_del_port : Host → String → XrayParams → XrayText → Exec World Reply
xray_rpf_del_port host username p before = elim (removal_port p) [
  | none ↦ pure (reply "error" "Invalid XRay RPF TCP port")
  | some port ↦
      let (d, was_there) = xray_rpf_remove before.content username port in
      if was_there
      then write_then host d before (fw_port_del host username (rpf_port_entry port))
      else pure (reply "done" "no changes")
]

unfoldable pub xray_rpf_redirect : Host → User → XrayParams → Exec World Reply
xray_rpf_redirect host current_user p =
    unless_read_only current_user (with_xray (xray_rpf_add_port host current_user.username p))

unfoldable pub xray_rpf_unredirect : Host → User → XrayParams → Exec World Reply
xray_rpf_unredirect host current_user p =
    unless_read_only current_user (with_xray (xray_rpf_del_port host current_user.username p))
