-- ===== src/Tests/UserTests.antt =====
-- The users' theorems at the file of Data.
use openmptcprouter_vps.Config.{Config, Param_discrete, UserData, flag, parsed}
use openmptcprouter_vps.Dict.{insert, lookup}
use openmptcprouter_vps.Exec.{ok}
use openmptcprouter_vps.Host.{World, blank_world}
use openmptcprouter_vps.Host.Store.{readable}
use openmptcprouter_vps.Prelude.{
  List, String, String_discrete, [], map, refl, some, true, ◌==◌, ◌∷◌, ◌≡◌,
}
use openmptcprouter_vps.Tests.Data.{bob, config, router, users, world}
use openmptcprouter_vps.Users.Changes.{
  Change, modif_config_user, proxy_to, set_global_param, update, vpn_to,
}
use openmptcprouter_vps.Users.Identity.{check_username_serial, is_enforced}
use openmptcprouter_vps.Users.Params.{set_global_param_writes, with_param}
use openmptcprouter_vps.Users.Serial.{
  check_in_turn, check_username_serial_bound, check_username_serial_step, serial_step, strangers,
  with_errors,
}
use openmptcprouter_vps.Users.Updates.{IsUpdated, modif_config_user-IsUpdated, with_user}

abbrev bound_router : UserData
bound_router = record router { serial = some "A1"; serial_error = some 2 }

abbrev bound_users : List (String × UserData)
bound_users = ("openmptcprouter", bound_router) ∷ []

abbrev enforced_config : Config
enforced_config = record { users = some bound_users; globals = ("serial_enforce", flag true) ∷ [] }

abbrev enforced_world : World
enforced_world = record blank_world { config = parsed enforced_config }

known_bound : lookup "openmptcprouter" bound_users ≡ some bound_router
unfolding lookup String_discrete
known_bound = refl

enforcing : is_enforced enforced_config ≡ true
unfolding lookup String_discrete Param_discrete
enforcing = refl

check_username_serial_step_example :
    ((check_username_serial "openmptcprouter" "B2" enforced_world).0
      ≡ ok (serial_step "B2" bound_router).1)
    × (readable (check_username_serial "openmptcprouter" "B2" enforced_world).1.config
        ≡ some (record enforced_config {
          users = some (insert "openmptcprouter" (serial_step "B2" bound_router).0 bound_users);
        }))
check_username_serial_step_example =
    check_username_serial_step "openmptcprouter" "B2" enforced_world refl refl known_bound enforcing

check_username_serial_bound_example :
    ((check_in_turn "openmptcprouter" ("A1" ∷ "B2" ∷ []) enforced_world).0
      ≡ map (λ s. ok ("A1" == s)) ("A1" ∷ "B2" ∷ []))
    × (readable (check_in_turn "openmptcprouter" ("A1" ∷ "B2" ∷ []) enforced_world).1.config
        ≡ some (record enforced_config {
          users = some (
              insert "openmptcprouter"
                (with_errors (strangers "A1" ("A1" ∷ "B2" ∷ [])) bound_router)
                bound_users);
        }))
check_username_serial_bound_example =
    check_username_serial_bound "openmptcprouter" "A1" ("A1" ∷ "B2" ∷ []) enforced_world refl refl
      known_bound enforcing refl

set_global_param_writes_example :
    ((set_global_param "sipalg" (flag true) world).0 ≡ ok tt)
    × (readable (set_global_param "sipalg" (flag true) world).1.config
        ≡ some (with_param "sipalg" (flag true) config))
set_global_param_writes_example = set_global_param_writes "sipalg" (flag true) world refl refl

known_bob : lookup "bob" users ≡ some bob
unfolding lookup String_discrete
known_bob = refl

abbrev vpn_twice : List Change
vpn_twice = vpn_to "openvpn" ∷ proxy_to "v2ray" ∷ vpn_to "wireguard" ∷ []

modif_config_user-IsUpdated_example :
    ((modif_config_user "bob" vpn_twice world).0 ≡ ok tt)
    × ((modif_config_user "bob" vpn_twice world).1.config
        ≡ parsed (with_user "bob" (update bob vpn_twice) users config))
    × IsUpdated vpn_twice bob (update bob vpn_twice)
    × ((modif_config_user "bob" vpn_twice world).1.nft_log ≡ world.nft_log)
modif_config_user-IsUpdated_example =
    modif_config_user-IsUpdated "bob" vpn_twice world refl refl known_bob
