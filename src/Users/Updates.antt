-- ===== src/Users/Updates.antt =====
-- What modif_config_user does to the file and to the keys of its user.
use mathlib.Core.Option
use openmptcprouter_vps.Config.{Config, UserData, parsed}
use openmptcprouter_vps.Dict.{insert, lookup, lookup-insert}
use openmptcprouter_vps.Exec.{key_error, ok, raised, ◌>>=◌}
use openmptcprouter_vps.Host.{World}
use openmptcprouter_vps.Host.Store.{backup_config, dump_config, load_config, users_of}
use openmptcprouter_vps.Prelude.{
  List, Option, String, String_discrete, [], ap, arith, if◌then◌else◌, none, refl, some, ◌==◌, ◌∙◌,
  ◌∷◌, ◌≡◌,
}
use openmptcprouter_vps.Users.Changes.{
  Change, apply_change, disabled_to, fw_ports_to, modif_config_user, note_to, password_to, proxy_to,
  update, vpn_to, vxlan_to,
}

-- The configuration with one user's data replaced.
abbrev pub with_user : String → UserData → List (String × UserData) → Config → Config
with_user name u users c = record c { users = some (insert name u users) }

module _ (user : String) (changes : List Change) (w : World) {c : Config}
    {users : List (String × UserData)} {u : UserData} (reads : w.config ≡ parsed c)
    (has_users : c.users ≡ some users) (known_user : lookup user users ≡ some u) where
  -- On valid JSON that holds the user, modif_config_user succeeds, the file then holds the updated user
  -- and everything else as before, and nft is not run.
  pub modif_config_user_writes :
      ((modif_config_user user changes w).0 ≡ ok tt)
      × ((modif_config_user user changes w).1.config
          ≡ parsed (with_user user (update u changes) users c))
      × ((modif_config_user user changes w).1.nft_log ≡ w.nft_log)
  unfolding ◌>>=◌ modif_config_user load_config users_of backup_config dump_config
  modif_config_user_writes = ground arith

-- A user that is not there is a KeyError, and nothing is written.
pub modif_config_user_unknown :
    (user : String) (changes : List Change) (w : World) {c : Config}
    {users : List (String × UserData)}
    → w.config ≡ parsed c
    → c.users ≡ some users
    → lookup user users ≡ none
    → modif_config_user user changes w ≡ (raised key_error, w)
unfolding ◌>>=◌ modif_config_user load_config users_of
modif_config_user_unknown user changes w reads has_users unknown = ground arith

-- The key of a change in the user's dict.
abbrev change_key : Change → String
change_key (fw_ports_to l) = "fw_ports"
change_key (vxlan_to v) = "vxlan"
change_key (password_to s) = "user_password"
change_key (disabled_to s) = "disabled"
change_key (vpn_to s) = "vpn"
change_key (proxy_to s) = "proxy"
change_key (note_to l) = "note"

-- The values of these keys, each as the change that sets it.
abbrev entries : UserData → List (String × Option Change)
entries u =
    ("fw_ports", Option.map fw_ports_to u.fw_ports)
    ∷ ("vxlan", Option.map vxlan_to u.vxlan)
    ∷ ("user_password", Option.map password_to u.user_password)
    ∷ ("disabled", Option.map disabled_to u.disabled)
    ∷ ("vpn", Option.map vpn_to u.vpn)
    ∷ ("proxy", Option.map proxy_to u.proxy)
    ∷ ("note", Option.map note_to u.note)
    ∷ []

-- A user's data without these keys.
abbrev bare : UserData → UserData
bare u = record u {
  fw_ports = none;
  vxlan = none;
  user_password = none;
  disabled = none;
  vpn = none;
  proxy = none;
  note = none;
}

-- The last change of a key.
unfoldable pub last_change : String → List Change → Option Change
last_change key [] = none
last_change key (c ∷ cs) = elim (last_change key cs) [
  | some d ↦ some d
  | none ↦ if change_key c == key then some c else none
]

-- The new data has the last change of each key that is changed, and all else from the old data.
abbrev pub IsUpdated : List Change → UserData → UserData → Type 0
IsUpdated changes before after =
    (bare after ≡ bare before)
    × ((key : String)
        → lookup key (entries after) ≡ elim (last_change key changes) [
          | some d ↦ some (some d)
          | none ↦ lookup key (entries before)
        ])

entries-apply_change :
    (u : UserData) (c : Change)
    → entries (apply_change u c) ≡ insert (change_key c) (some c) (entries u)
unfolding apply_change insert String_discrete
entries-apply_change u (fw_ports_to l) = refl
entries-apply_change u (vxlan_to v) = refl
entries-apply_change u (password_to s) = refl
entries-apply_change u (disabled_to s) = refl
entries-apply_change u (vpn_to s) = refl
entries-apply_change u (proxy_to s) = refl
entries-apply_change u (note_to l) = refl

bare-apply_change : (u : UserData) (c : Change) → bare (apply_change u c) ≡ bare u
unfolding apply_change
bare-apply_change u (fw_ports_to l) = refl
bare-apply_change u (vxlan_to v) = refl
bare-apply_change u (password_to s) = refl
bare-apply_change u (disabled_to s) = refl
bare-apply_change u (vpn_to s) = refl
bare-apply_change u (proxy_to s) = refl
bare-apply_change u (note_to l) = refl

lookup-entries :
    (key : String) (u : UserData) (c : Change)
    → lookup key (entries (apply_change u c))
      ≡ (if change_key c == key then some (some c) else lookup key (entries u))
lookup-entries key u c =
    ap (lookup key) (entries-apply_change u c)
    ∙ lookup-insert (change_key c) key (some c) (entries u)

update-IsUpdated : (changes : List Change) (u : UserData) → IsUpdated changes u (update u changes)
unfolding update last_change
update-IsUpdated [] u = (refl, λ key. refl)
update-IsUpdated (c ∷ cs) u =
    let (rest, reads) = update-IsUpdated cs (apply_change u c) in
    (rest ∙ bare-apply_change u c, λ key. reads key ∙ ground (arith, lookup-entries key u c))

-- On valid JSON that holds the user, modif_config_user succeeds: the file then has new data for the user,
-- in which each key that is changed has its last change and every other key its old value, and everything
-- else as before, and nft is not run.
pub modif_config_user-IsUpdated :
    (user : String) (changes : List Change) (w : World) {c : Config}
    {users : List (String × UserData)} {u : UserData}
    → w.config ≡ parsed c
    → c.users ≡ some users
    → lookup user users ≡ some u
    → ((modif_config_user user changes w).0 ≡ ok tt)
      × ((modif_config_user user changes w).1.config
          ≡ parsed (with_user user (update u changes) users c))
      × IsUpdated changes u (update u changes)
      × ((modif_config_user user changes w).1.nft_log ≡ w.nft_log)
modif_config_user-IsUpdated user changes w {u = u} reads has_users known_user =
    let (done, written, quiet) =
      modif_config_user_writes user changes w reads has_users known_user in
    (done, written, update-IsUpdated changes u, quiet)
