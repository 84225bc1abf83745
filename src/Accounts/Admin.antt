-- ===== src/Accounts/Admin.antt =====
-- /modify_user, /add_user_note, /serialenforce, /list_users and /get-number-of-users.
use openmptcprouter_vps.Config.{UserData, flag}
use openmptcprouter_vps.Dict.{has_key}
use openmptcprouter_vps.Exec.{Exec, pure, ◌>>=◌, ◌>>◌}
use openmptcprouter_vps.Host.{World}
use openmptcprouter_vps.Host.Reply.{Reply, User, admin_only, need_admin, reply}
use openmptcprouter_vps.Host.Store.{load_config, users_of}
use openmptcprouter_vps.Prelude.{
  Bool, List, Option, String, [], if◌then◌else◌, inl, inr, length, negsuc, none, not, pos, some,
  suc, zero, ℤ, ◌++◌, ◌==◌, ◌∷◌, ◌⊎◌,
}
use openmptcprouter_vps.Users.Changes.{
  Change, disabled_to, modif_config_user, note_to, password_to, proxy_to, set_global_param, vpn_to,
}

pub record ModifyUser : Type 0 where
  pub username : String
  pub user_password : Option String
  pub disabled : Option Bool
  pub vpn : Option String
  pub proxy : Option String

-- A change for a parameter that is given.
abbrev pub given : {A : Type 0} → (A → Change) → Option A → List Change
given change none = []
given change (some a) = change a ∷ []

unfoldable pub changes_of : ModifyUser → List Change
changes_of p =
    given password_to p.user_password
    ++ given (λ b. disabled_to (if b then "true" else "false")) p.disabled
    ++ given vpn_to p.vpn
    ++ given proxy_to p.proxy

unfoldable pub modify_user : User → ModifyUser → Exec World Reply
modify_user current_user p = admin_only current_user (do
  content ← load_config
  users ← users_of content
  if not (has_key p.username users)
      then pure (reply "error" "User doesnt exist")
      else elim (changes_of p) [
        | [] ↦ pure (reply "error" "No changes provided")
        | c ∷ cs ↦ (do modif_config_user p.username (c ∷ cs); pure (reply "done" "user modified"))
      ])

unfoldable pub add_user_note : User → String → List String → Exec World Reply
add_user_note current_user username note =
    admin_only current_user
      (do modif_config_user username (note_to note ∷ []); pure (reply "done" "Note added"))

unfoldable pub serialenforce : User → Bool → Exec World Reply
serialenforce current_user enable =
    admin_only current_user
      (do set_global_param "serial_enforce" (flag enable); pure (reply "done" ""))

-- Both list endpoints: a refusal, or the answer.
unfoldable pub list_users : User → Exec World (Reply ⊎ List (String × UserData))
list_users current_user =
    if current_user.permissions == "admin"
    then (do content ← load_config; users ← users_of content; pure (inr users))
    else pure (inl need_admin)

-- len(users) - 1 is -1 if there is no user.
unfoldable pub get_number_of_users : User → Exec World (Reply ⊎ ℤ)
get_number_of_users current_user =
    if current_user.permissions == "admin"
    then (do
      content ← load_config
      users ← users_of content
      pure (inr (elim (length users) [ zero ↦ negsuc 0 | suc n ↦ pos n ])))
    else pure (inl need_admin)
