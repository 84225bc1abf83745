-- ===== src/Accounts/Access.antt =====
-- Who gets in: a token comes from the right password, and a token of an enabled user works.
use openmptcprouter_vps.Accounts.Auth.{
  Libraries, UserInDb, authenticate_user, get_current_user, get_user, login_for_access_token,
  user_in_db, user_of_name, verify_password,
}
use openmptcprouter_vps.Config.{Config, UserData, parsed}
use openmptcprouter_vps.Dict.{lookup}
use openmptcprouter_vps.Exec.{PyError, Result-cases, ok, raised, ◌>>=◌}
use openmptcprouter_vps.Host.{World}
use openmptcprouter_vps.Host.Reply.{User}
use openmptcprouter_vps.Host.Store.{load_config, stored_users, users_of}
use openmptcprouter_vps.Prelude.{
  List, Option-cases, String, ap, arith, false, inl, inr, none, refl, some, ◌∙◌, ◌≡◌, ◌⊎◌,
}

-- An enabled user of the file, as the service sees it.
pub record IsEnabled (libs : Libraries) (w : World) (username : String) (a : UserInDb)
    : Type 0 where
  pub data_of : UserData
  pub known : lookup username (stored_users w) ≡ some data_of
  pub read : user_in_db libs username data_of ≡ ok a
  pub enabled : a.disabled ≡ false

-- A token of a name is read as that name.
pub current_of :
    (libs : Libraries) (token username : String) (w : World)
    → libs.decode token ≡ some (some username)
    → get_current_user libs token w ≡ user_of_name libs username w
unfolding get_current_user
current_of libs token username w good = rw (get_current_user, good) refl

module _ (libs : Libraries) (w : World) {c : Config} {db : List (String × UserData)}
    (reads : w.config ≡ parsed c) (has_users : c.users ≡ some db) where
  account_cases :
      (username : String)
      → (lookup username db ≡ none)
        ⊎ ((u : UserData) × (lookup username db ≡ some u)
            × (((e : PyError) × (user_in_db libs username u ≡ raised e))
                ⊎ ((a : UserInDb) × (user_in_db libs username u ≡ ok a))))
  account_cases username = elim (Option-cases (lookup username db)) [
    | inl absent ↦ inl absent
    | inr (u, known) ↦ inr (u, known, Result-cases (user_in_db libs username u))
  ]

  IsEnabled-of :
      (username : String) (u : UserData) (a : UserInDb)
      → lookup username db ≡ some u
      → user_in_db libs username u ≡ ok a
      → a.disabled ≡ false
      → IsEnabled libs w username a
  IsEnabled-of username u a known read enabled = record {
    data_of = u;
    known = rw (stored_users, reads, has_users) known;
    read = read;
    enabled = enabled;
  }

  login_sound :
      (username password : String) {token : String}
      → (login_for_access_token libs username password w).0 ≡ ok token
      → (a : UserInDb) × IsEnabled libs w username a
        × (a.user_password ≡ password)
        × (token ≡ libs.encode username)
  unfolding login_for_access_token authenticate_user get_user verify_password load_config users_of
      ◌>>=◌
  login_sound username password h = elim (account_cases username) [
    | inl absent ↦ absurd (ground (arith, absent))
    | inr (u, known, inl (e, broken)) ↦ absurd (ground (arith, known, broken))
    | inr (u, known, inr (a, read)) ↦ (
      a,
      IsEnabled-of username u a known read (ground (arith, known, read)),
      ground (arith, known, read),
      ground (arith, known, read),
    )
  ]

  -- A user that is enabled is let in by its name.
  user_of_name-IsEnabled :
      (username : String) (a : UserInDb)
      → IsEnabled libs w username a
      → user_of_name libs username w ≡ (ok a.user, w)
  unfolding user_of_name get_user load_config ◌>>=◌
  user_of_name-IsEnabled username a e =
      let known = rw (stored_users, reads, has_users) at e.known in
      ground (arith, e.read, e.enabled, known)

  -- On valid JSON with users: if /token gives a token, the name is an enabled user of the file with that
  -- password, and while the file stays as it is and the token is good for its name, a request with the
  -- token is made as that user.
  pub login_grants :
      (username password : String) {token : String}
      → libs.decode (libs.encode username) ≡ some (some username)
      → (login_for_access_token libs username password w).0 ≡ ok token
      → (a : UserInDb) × IsEnabled libs w username a
        × (a.user_password ≡ password)
        × (get_current_user libs token w ≡ (ok a.user, w))
  login_grants username password {token} signed h =
      let (a, e, right, same) = login_sound username password h in
      (
        a,
        e,
        right,
        current_of libs token username w (ap libs.decode same ∙ signed)
            ∙ user_of_name-IsEnabled username a e,
      )

  -- On valid JSON with users: a request that a token makes as some user is made as an enabled user of the
  -- file, the one whose name the token gives.
  pub get_current_user_sound :
      (token : String) {user : User}
      → (get_current_user libs token w).0 ≡ ok user
      → (username : String) × (a : UserInDb) × (libs.decode token ≡ some (some username))
        × IsEnabled libs w username a
        × (user ≡ a.user)
  unfolding get_current_user user_of_name get_user load_config ◌>>=◌
  get_current_user_sound token h = elim (Option-cases (libs.decode token)) [
    | inl bad ↦ absurd (ground (arith, bad))
    | inr (sub, good) ↦ elim (Option-cases sub) [
      | inl nobody ↦ absurd (ground (arith, good, nobody))
      | inr (username, named) ↦ elim (account_cases username) [
        | inl absent ↦ absurd (ground (arith, good, named, absent))
        | inr (u, known, inl (e, broken)) ↦ absurd (ground (arith, good, named, known, broken))
        | inr (u, known, inr (a, read)) ↦ (
          username,
          a,
          good ∙ ap (λ s. some s) named,
          IsEnabled-of username u a known read (ground (arith, good, named, known, read)),
          ground (arith, good, named, known, read),
        )
      ]
    ]
  ]
