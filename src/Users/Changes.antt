-- ===== src/Users/Changes.antt =====
-- set_global_param and modif_config_user.
use openmptcprouter_vps.Config.{
  Config, Config_discrete, FwEntry, Param, Param_discrete, UserData, VxlanStored, is_truthy,
}
use openmptcprouter_vps.Dict.{insert, lookup}
use openmptcprouter_vps.Exec.{Exec, key_error, pure, require, ◌>>=◌, ◌>>◌}
use openmptcprouter_vps.Host.{World}
use openmptcprouter_vps.Host.Store.{
  backup_config, dump_config, load_config, read_omr_config, users_of,
}
use openmptcprouter_vps.Prelude.{List, String, [], holds, if◌then◌else◌, none, some, ◌∷◌}

-- One key of the dict given to `update`.
pub data Change : Type 0 where
  fw_ports_to : List FwEntry → Change
  vxlan_to : VxlanStored → Change
  password_to disabled_to vpn_to proxy_to : String → Change
  note_to : List String → Change

unfoldable pub apply_change : UserData → Change → UserData
apply_change u (fw_ports_to l) = record u { fw_ports = some l }
apply_change u (vxlan_to v) = record u { vxlan = some v }
apply_change u (password_to s) = record u { user_password = some s }
apply_change u (disabled_to s) = record u { disabled = some s }
apply_change u (vpn_to s) = record u { vpn = some s }
apply_change u (proxy_to s) = record u { proxy = some s }
apply_change u (note_to l) = record u { note = some l }

-- d.update(changes)
unfoldable pub update : UserData → List Change → UserData
unfolding apply_change
update u [] = u
update u (c ∷ cs) = update (apply_change u c) cs

-- The write that both functions end with, made only if something changes.
pub save_if_changed : Config → Config → Exec World Unit
save_if_changed before after =
    if holds (Config_discrete before after) then pure tt else (do backup_config; dump_config after)

unfoldable pub modif_config_user : String → List Change → Exec World Unit
unfolding save_if_changed
modif_config_user user changes = do
  content ← load_config
  users ← users_of content
  udata ← require key_error (lookup user users)
  save_if_changed content
      (record content { users = some (insert user (update udata changes) users) })

-- data[key] = value, a backup and the write, if the value is not there yet.
unfoldable pub set_param : Config → String → Param → Exec World Unit
set_param c key value = do
  backup_config
  dump_config (record c { globals = insert key value c.globals })

unfoldable pub set_global_param : String → Param → Exec World Unit
set_global_param key value = do
  c ← read_omr_config
  if is_truthy c
      then (elim (lookup key c.globals) [
        | none ↦ set_param c key value
        | some old ↦ if holds (Param_discrete old value) then pure tt else set_param c key value
      ])
      else pure tt
