-- ===== src/Tests/AccountTests.antt =====
-- The theorems on accounts, for a user with a password.
use openmptcprouter_vps.Accounts.Access.{IsEnabled, get_current_user_sound, login_grants}
use openmptcprouter_vps.Accounts.Admin.{ModifyUser, modify_user}
use openmptcprouter_vps.Accounts.Auth.{
  Libraries, UserInDb, authenticate_user, bad_login, disabled_flag, get_current_user, get_user,
  inactive_user, is_ascii, login_for_access_token, user_in_db, user_of_name, verify_password,
}
use openmptcprouter_vps.Accounts.Ids.{new_account, new_userid, new_userid_fresh}
use openmptcprouter_vps.Accounts.Revocation.{modify_user_revokes}
use openmptcprouter_vps.Config.{Config, UserData, numeral, parsed}
use openmptcprouter_vps.Dict.{lookup}
use openmptcprouter_vps.Exec.{ok, raised, ◌>>=◌}
use openmptcprouter_vps.Host.{World, blank_world}
use openmptcprouter_vps.Host.Reply.{User}
use openmptcprouter_vps.Host.Store.{load_config, users_of}
use openmptcprouter_vps.Prelude.{
  List, String, String_discrete, [], ap, none, refl, some, true, ◌==◌, ◌∷◌, ◌≡◌, ◌≢◌, ◌≤◌,
}
use openmptcprouter_vps.Tests.Data.{admin}

-- Tokens that are the names themselves.
abbrev libs : Libraries
libs = record {
  encode = λ name. name;
  decode = λ token. some (some token);
  to_bool = λ s. some (s == "true");
}

abbrev carol : UserData
carol = new_account "rw" "s3cret" 4 []

abbrev carol_users : List (String × UserData)
carol_users = ("carol", carol) ∷ []

abbrev carol_config : Config
carol_config = record { users = some carol_users; globals = [] }

abbrev carol_world : World
carol_world = record blank_world { config = parsed carol_config }

known_carol : lookup "carol" carol_users ≡ some carol
unfolding lookup String_discrete
known_carol = refl

logged_in : (login_for_access_token libs "carol" "s3cret" carol_world).0 ≡ ok "carol"
unfolding login_for_access_token authenticate_user get_user user_in_db disabled_flag verify_password
    is_ascii load_config users_of lookup ◌>>=◌ new_account String_discrete
logged_in = refl

wrong_password : (login_for_access_token libs "carol" "secret" carol_world).0 ≡ raised bad_login
unfolding login_for_access_token authenticate_user get_user user_in_db disabled_flag verify_password
    is_ascii load_config users_of lookup ◌>>=◌ new_account String_discrete
wrong_password = refl

login_grants_example :
    (a : UserInDb) × IsEnabled libs carol_world "carol" a
    × (a.user_password ≡ "s3cret")
    × (get_current_user libs "carol" carol_world ≡ (ok a.user, carol_world))
login_grants_example = login_grants libs carol_world refl refl "carol" "s3cret" refl logged_in

abbrev carol_seen : User
carol_seen = record { username = "carol"; permissions = "rw"; userid = some 4 }

let_in : (get_current_user libs "carol" carol_world).0 ≡ ok carol_seen
unfolding get_current_user user_of_name get_user user_in_db disabled_flag load_config lookup ◌>>=◌
    new_account String_discrete
let_in = refl

get_current_user_sound_example :
    (username : String) × (a : UserInDb) × (libs.decode "carol" ≡ some (some username))
    × IsEnabled libs carol_world username a
    × (carol_seen ≡ a.user)
get_current_user_sound_example = get_current_user_sound libs carol_world refl refl "carol" let_in

abbrev disable_carol : ModifyUser
disable_carol = record {
  username = "carol";
  user_password = none;
  disabled = some true;
  vpn = none;
  proxy = none;
}

true_is_true : ("true" == "true") ≡ true
unfolding String_discrete
true_is_true = refl

carol_password : carol.user_password ≡ some "s3cret"
unfolding new_account
carol_password = refl

modify_user_revokes_example :
    (get_current_user libs "carol" (modify_user admin disable_carol carol_world).1).0
    ≡ raised inactive_user
modify_user_revokes_example =
    modify_user_revokes libs admin disable_carol carol_world {c = carol_config} refl refl
      known_carol refl "carol" refl carol_password (ap (λ b. some b) true_is_true) refl

carol_id : carol.userid ≡ some (numeral 4)
unfolding new_account
carol_id = refl

new_userid_fresh_example :
    (4 ≢ new_userid carol_users (some 0)) × (3 ≤ new_userid carol_users (some 0))
new_userid_fresh_example = new_userid_fresh carol_users (some 0) "carol" refl known_carol carol_id
