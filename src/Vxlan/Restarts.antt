-- ===== src/Vxlan/Restarts.antt =====
-- When write_vxlan_conf restarts a unit.
use openmptcprouter_vps.Config.{Config, UserData, get_or, parsed}
use openmptcprouter_vps.Dict.{has_key, insert-insert, lookup, lookup-insert_self, lookup-remove}
use openmptcprouter_vps.Exec.{ok, ◌>>=◌}
use openmptcprouter_vps.Host.{Host, World}
use openmptcprouter_vps.Host.Store.{load_config, users_of}
use openmptcprouter_vps.Prelude.{
  List, String, ap, arith, holds_self, if◌then◌else◌, not, some, ℕ, ◌==◌, ◌||◌, ◌∙◌, ◌≡◌,
}
use openmptcprouter_vps.Vxlan.Requests.{drop_unit-config}
use openmptcprouter_vps.Vxlan.Settings.{get_vxlan_config, no_vxlan, user_or_empty, vxlan_config}
use openmptcprouter_vps.Vxlan.Units.{
  Texts_discrete, drop_unit, put_unit, vxlan_file, vxlan_lines, write_vxlan_conf,
}

put_unit_idem :
    (userid : ℕ) (lines : List String) (w : World)
    → put_unit userid lines (put_unit userid lines w) ≡ put_unit userid lines w
unfolding put_unit
put_unit_idem userid lines w = ground (
  arith,
  lookup-insert_self (vxlan_file userid) lines w.vxlan_files,
  insert-insert (vxlan_file userid) lines lines w.vxlan_files,
  holds_self (Texts_discrete lines lines),
)

drop_unit_idem :
    (userid : ℕ) (w : World) → drop_unit userid (drop_unit userid w) ≡ drop_unit userid w
unfolding drop_unit has_key
drop_unit_idem userid w =
    ground (arith, lookup-remove (vxlan_file userid) (vxlan_file userid) w.vxlan_files)

-- What write_vxlan_conf does on a readable file.
abbrev unit_change : Host → UserData → ℕ → World → World
unit_change host u userid w =
    let cfg = vxlan_config host (get_or u.vxlan no_vxlan) userid in
    let local = get_or u.vpnlocalip "" in
    let remote = get_or u.vpnremoteip "" in
    if not cfg.enabled
    then drop_unit userid w
    else if local == "" || remote == ""
    then w
    else put_unit userid (vxlan_lines cfg local remote) w

write_vxlan_conf-runs :
    (host : Host) (a : String) (userid : ℕ) (w : World) {c : Config}
    {users : List (String × UserData)}
    → w.config ≡ parsed c
    → c.users ≡ some users
    → write_vxlan_conf host a userid w
      ≡ (ok tt, unit_change host (user_or_empty (lookup a users)) userid w)
unfolding write_vxlan_conf get_vxlan_config load_config users_of ◌>>=◌
write_vxlan_conf-runs host a userid w reads has_users = ground arith

unit_change-config :
    (host : Host) (u : UserData) (userid : ℕ) (w : World)
    → (unit_change host u userid w).config ≡ w.config
unfolding put_unit
unit_change-config host u userid w = ground (arith, drop_unit-config userid w)

unit_change_idem :
    (host : Host) (u : UserData) (userid : ℕ) (w : World)
    → unit_change host u userid (unit_change host u userid w) ≡ unit_change host u userid w
unit_change_idem host u userid w =
    let cfg = vxlan_config host (get_or u.vxlan no_vxlan) userid in
    let lines = vxlan_lines cfg (get_or u.vpnlocalip "") (get_or u.vpnremoteip "") in
    ground (arith, drop_unit_idem userid w, put_unit_idem userid lines w)

-- On valid JSON with users, a second write_vxlan_conf for the same user changes nothing: the unit is
-- neither restarted nor stopped again.
pub write_vxlan_conf_idem :
    (host : Host) (a : String) (userid : ℕ) (w : World) {c : Config}
    {users : List (String × UserData)}
    → w.config ≡ parsed c
    → c.users ≡ some users
    → write_vxlan_conf host a userid (write_vxlan_conf host a userid w).1
      ≡ (ok tt, (write_vxlan_conf host a userid w).1)
write_vxlan_conf_idem host a userid w reads has_users =
    let u = user_or_empty (lookup a _) in
    rw (write_vxlan_conf-runs host a userid w reads has_users) (
      write_vxlan_conf-runs host a userid (unit_change host u userid w)
        (unit_change-config host u userid w ∙ reads) has_users
      ∙ ap (λ z. (ok tt, z)) (unit_change_idem host u userid w))
