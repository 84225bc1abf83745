-- ===== src/Accounts/Revocation.antt =====
-- /modify_user with `disabled`: tokens that were given out stop to work.
use openmptcprouter_vps.Accounts.Access.{current_of}
use openmptcprouter_vps.Accounts.Admin.{ModifyUser, changes_of, modify_user}
use openmptcprouter_vps.Accounts.Auth.{
  Libraries, disabled_flag, get_current_user, get_user, inactive_user, user_in_db, user_of_name,
}
use openmptcprouter_vps.Config.{Config, UserData, has_entries, parsed}
use openmptcprouter_vps.Dict.{has_key, lookup, lookup-insert_self}
use openmptcprouter_vps.Exec.{raised, ◌>>=◌}
use openmptcprouter_vps.Host.{World}
use openmptcprouter_vps.Host.Reply.{User}
use openmptcprouter_vps.Host.Store.{load_config, users_of}
use openmptcprouter_vps.Prelude.{List, String, ap, arith, is_some, refl, some, true, ◌∙◌, ◌≡◌}
use openmptcprouter_vps.Users.Changes.{update}
use openmptcprouter_vps.Users.Updates.{modif_config_user_writes, with_user}

update-disabled :
    (u : UserData) (p : ModifyUser)
    → p.disabled ≡ some true
    → (update u (changes_of p)).disabled ≡ some "true"
unfolding update changes_of
update-disabled u p h = ground arith

update-password :
    (u : UserData) (p : ModifyUser) {password : String}
    → u.user_password ≡ some password
    → is_some (update u (changes_of p)).user_password ≡ true
unfolding update changes_of
update-password u p h = ground arith

has_changes : (p : ModifyUser) → p.disabled ≡ some true → has_entries (changes_of p) ≡ true
unfolding changes_of
has_changes p h = ground arith

-- What user_of_name says of a disabled user.
user_of_name_disabled :
    (libs : Libraries) (username : String) (w : World) {c : Config} {db : List (String × UserData)}
    {u : UserData}
    → w.config ≡ parsed c
    → c.users ≡ some db
    → lookup username db ≡ some u
    → is_some u.user_password ≡ true
    → u.disabled ≡ some "true"
    → libs.to_bool "true" ≡ some true
    → (user_of_name libs username w).0 ≡ raised inactive_user
unfolding user_of_name get_user user_in_db disabled_flag load_config ◌>>=◌
user_of_name_disabled libs username w reads has_users known password off reading = ground arith

module _ (libs : Libraries) (admin : User) (p : ModifyUser) (w : World) {c : Config}
    {db : List (String × UserData)} {u : UserData} (reads : w.config ≡ parsed c)
    (has_users : c.users ≡ some db) (known : lookup p.username db ≡ some u)
    (may : admin.permissions ≡ "admin") where
  modify_user-config :
      has_entries (changes_of p) ≡ true
      → (modify_user admin p w).1.config
        ≡ parsed (with_user p.username (update u (changes_of p)) db c)
  unfolding modify_user load_config users_of has_key ◌>>=◌
  modify_user-config some_change =
      let (done, stored, log) =
        modif_config_user_writes p.username (changes_of p) w reads has_users known in
      ground (arith, done, stored)

  -- On valid JSON that holds the user with a password: after an admin's /modify_user with `disabled`, any
  -- token of that user's name is refused with "Inactive user", whenever it was given out. (pydantic is
  -- taken to read the text true as true.)
  pub modify_user_revokes :
      {password : String} (token : String)
      → p.disabled ≡ some true
      → u.user_password ≡ some password
      → libs.to_bool "true" ≡ some true
      → libs.decode token ≡ some (some p.username)
      → (get_current_user libs token (modify_user admin p w).1).0 ≡ raised inactive_user
  modify_user_revokes token off password reading good =
      let u' = update u (changes_of p) in
      let w' = (modify_user admin p w).1 in
      ap (λ r. r.0) (current_of libs token p.username w' good)
      ∙ user_of_name_disabled libs p.username w' {c = with_user p.username u' db c}
          (modify_user-config (has_changes p off)) refl (lookup-insert_self p.username u' db)
          (update-password u p password) (update-disabled u p off) reading
