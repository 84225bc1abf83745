-- ===== src/Vxlan/Endpoints.antt =====
-- /vxlan, /vxlan_user and /vxlan_vnis.
use openmptcprouter_vps.Config.{UserData, get_or, has_entries, int, users_or_empty}
use openmptcprouter_vps.Dict.{lookup}
use openmptcprouter_vps.Exec.{Exec, pure, ◌>>=◌, ◌>>◌}
use openmptcprouter_vps.Host.{Host, World}
use openmptcprouter_vps.Host.Reply.{Reply, User, need_admin, read_only_user, reply}
use openmptcprouter_vps.Host.Store.{read_omr_config}
use openmptcprouter_vps.Prelude.{
  Bool, List, Option, String, [], false, if◌then◌else◌, is_some, leb, negsuc, none, not, pos, some,
  true, ℕ, ℤ, ◌&&◌, ◌==◌, ◌||◌, ◌∷◌,
}
use openmptcprouter_vps.Users.Changes.{modif_config_user, vxlan_to}
use openmptcprouter_vps.Vxlan.Assignments.{vxlan_conflicts}
use openmptcprouter_vps.Vxlan.Settings.{
  Overrides, VxlanConfig, get_vxlan_config, is_mode, merge_vxlan_config, stored_of,
}
use openmptcprouter_vps.Vxlan.Units.{write_vxlan_conf}

-- What the endpoints answer: a refusal, the two kinds of a conflict with the names of the other users,
-- the new settings, or each user's id and settings.
pub data VxlanReply : Type 0 where
  refused : Reply → VxlanReply
  hard_conflict : ℕ → ℕ → List String → VxlanReply
  shared_vni : ℕ → List String → VxlanReply
  applied : VxlanConfig → VxlanReply
  vnis : List (String × ℕ × VxlanConfig) → VxlanReply

-- The models of the two requests; their range checks are below.
pub record VxlanRequest : Type 0 where
  pub enable : Bool
  pub mode : Option String
  pub vni : Option ℕ
  pub port : Option ℕ
  pub localip : Option String
  pub remoteip : Option String
  pub localip6 : Option String
  pub remoteip6 : Option String
  pub mtu : Option ℕ

pub record VxlanUser : Type 0 where
  pub username : String
  pub vni : Option ℕ
  pub port : Option ℕ
  pub mode : Option String
  pub enable : Option Bool
  pub force : Bool

-- _vni_range and _port_range, which the web framework checks before the endpoint runs.
unfoldable pub vni_range : Option ℤ → Bool
vni_range none = true
vni_range (some (pos n)) = leb n 16777215
vni_range (some (negsuc n)) = false

unfoldable pub port_range : Option ℤ → Bool
port_range none = true
port_range (some (pos n)) = leb 1 n && leb n 65535
port_range (some (negsuc n)) = false

-- value or None, of a text
abbrev non_empty : Option String → Option String
non_empty none = none
non_empty (some s) = if s == "" then none else some s

-- vxlanconfig.mode if vxlanconfig.mode in ('l2', 'l3') else None
abbrev known_mode : Option String → Option String
known_mode none = none
known_mode (some mode) = if is_mode mode then some mode else none

abbrev pub request_overrides : VxlanRequest → Overrides
request_overrides r = record {
  enabled = some r.enable;
  mode = known_mode r.mode;
  vni = r.vni;
  port = r.port;
  localip = non_empty r.localip;
  remoteip = non_empty r.remoteip;
  localip6 = non_empty r.localip6;
  remoteip6 = non_empty r.remoteip6;
  mtu = r.mtu;
}

-- The write that both endpoints end with.
unfoldable pub apply_vxlan : Host → String → ℕ → VxlanConfig → Exec World VxlanReply
apply_vxlan host username userid c = do
  modif_config_user username (vxlan_to (stored_of c) ∷ [])
  write_vxlan_conf host username userid
  now ← get_vxlan_config host username userid
  pure (applied now)

unfoldable pub vxlan : Host → User → VxlanRequest → Exec World VxlanReply
vxlan host current_user request =
    if current_user.permissions == "ro"
    then pure (refused read_only_user)
    else let userid = get_or current_user.userid 0 in
      if is_some request.vni && not (current_user.permissions == "admin")
      then pure (refused (reply "permission" "VNI is admin-assigned, ask your administrator"))
      else do
        c ← merge_vxlan_config host current_user.username userid (request_overrides request)
        if c.enabled
            then (do
              (same_port, other_port) ← vxlan_conflicts host current_user.username c.vni c.port
              if has_entries same_port
                  then pure (hard_conflict c.vni c.port same_port)
                  else apply_vxlan host current_user.username userid c)
            else apply_vxlan host current_user.username userid c

abbrev pub user_overrides : VxlanUser → Overrides
user_overrides p = record {
  enabled = p.enable;
  mode = p.mode;
  vni = p.vni;
  port = p.port;
  localip = none;
  remoteip = none;
  localip6 = none;
  remoteip6 = none;
  mtu = none;
}

-- params.mode is not None and params.mode not in ('l2', 'l3')
abbrev pub bad_mode : Option String → Bool
bad_mode none = false
bad_mode (some mode) = not (is_mode mode)

-- Whether the request is refused for a user with the same id and port, and for one with the same id.
abbrev pub is_hard : VxlanUser → VxlanConfig → List String → Bool
is_hard p c same_port = has_entries same_port && (is_some p.vni || is_some p.port || c.enabled)

abbrev pub is_soft : VxlanUser → List String → Bool
is_soft p other_port = has_entries other_port && is_some p.vni && not p.force

unfoldable pub assign_ids : Host → VxlanUser → ℕ → Exec World VxlanReply
assign_ids host p userid = do
  c ← merge_vxlan_config host p.username userid (user_overrides p)
  (same_port, other_port) ← vxlan_conflicts host p.username c.vni c.port
  if is_hard p c same_port
      then pure (hard_conflict c.vni c.port same_port)
      else if is_soft p other_port
      then pure (shared_vni c.vni other_port)
      else apply_vxlan host p.username userid c

unfoldable pub vxlan_user_set_config : Host → User → VxlanUser → Exec World VxlanReply
vxlan_user_set_config host current_user p =
    if not (current_user.permissions == "admin") then pure (refused need_admin) else do
      c ← read_omr_config
      elim (lookup p.username (users_or_empty c)) [
        | none ↦ pure (refused (reply "error" "User not found"))
        | some u ↦ elim u.userid [
          | none ↦ pure (refused (reply "error" "User has no userid"))
          | some id ↦
              if bad_mode p.mode
              then pure (refused (reply "error" "mode must be l2 or l3"))
              else assign_ids host p (int id)
        ]
      ]

unfoldable pub list_vnis :
    Host → List (String × UserData) → Exec World (List (String × ℕ × VxlanConfig))
list_vnis host [] = pure []
list_vnis host ((name, u) ∷ users) = elim u.userid [
  | none ↦ list_vnis host users
  | some id ↦ (do
    c ← get_vxlan_config host name (int id)
    rest ← list_vnis host users
    pure ((name, int id, c) ∷ rest))
]

unfoldable pub vxlan_vnis : Host → User → Exec World VxlanReply
vxlan_vnis host current_user =
    if not (current_user.permissions == "admin") then pure (refused need_admin) else do
      c ← read_omr_config
      elim c.users [
        | none ↦ pure (refused (reply "error" "Config file not readable"))
        | some users ↦ (do entries ← list_vnis host users; pure (vnis entries))
      ]
