-- ===== src/Users/Identity.antt =====
-- get_username_from_userid, get_userid_from_username and check_username_serial.
use openmptcprouter_vps.Config.{Config, Param_discrete, UserData, flag, int, is_truthy}
use openmptcprouter_vps.Dict.{insert, lookup}
use openmptcprouter_vps.Exec.{Exec, key_error, pure, require, ◌>>=◌, ◌>>◌}
use openmptcprouter_vps.Host.{World}
use openmptcprouter_vps.Host.Store.{backup_config, dump_config, read_omr_config, users_of}
use openmptcprouter_vps.Prelude.{
  Bool, List, Option, String, [], false, holds, if◌then◌else◌, none, not, some, true, ℕ, ◌+◌, ◌==ℕ◌,
  ◌==◌, ◌∷◌,
}

-- What the two look-ups return: the value, or a dict with an `error` text.
pub data Answer {ℓ} (A : Type ℓ) : Type ℓ where
  found : A → Answer A
  failed : String → Answer A

unfoldable pub first_with_userid : ℕ → List (String × UserData) → String
first_with_userid userid [] = ""
first_with_userid userid ((name, u) ∷ rest) = elim u.userid [
  | none ↦ first_with_userid userid rest
  | some id ↦ if int id ==ℕ userid then name else first_with_userid userid rest
]

unfoldable pub get_username_from_userid : ℕ → Exec World (Answer String)
unfolding first_with_userid
get_username_from_userid userid = if userid ==ℕ 0 then pure (found "openmptcprouter") else do
  data' ← read_omr_config
  if is_truthy data'
      then (do users ← users_of data'; pure (found (first_with_userid userid users)))
      else pure (failed "Config file not readable")

unfoldable pub get_userid_from_username : String → Exec World (Answer ℕ)
get_userid_from_username username = if username == "openmptcprouter" then pure (found 0) else do
  data' ← read_omr_config
  if is_truthy data'
      then (do
        users ← users_of data'
        elim (lookup username users) [
          | none ↦ pure (failed "Unknown user")
          | some u ↦ (do id ← require key_error u.userid; pure (found (int id)))
        ])
      else pure (failed "Config file not readable")

-- `data['users'][0][username] = udata` and the write.
unfoldable pub save_user : Config → List (String × UserData) → String → UserData → Exec World Unit
save_user c users username u = dump_config (record c { users = some (insert username u users) })

abbrev pub bump : Option ℕ → ℕ
bump none = 1
bump (some n) = n + 1

check_serial : Config → List (String × UserData) → String → String → UserData → Exec World Bool
unfolding save_user
check_serial c users username serial u = elim u.serial [
  | none ↦ (do save_user c users username (record u { serial = some serial }); pure true)
  | some known ↦ if known == serial then pure true else do
    backup_config
    save_user c users username (record u { serial_error = some (bump u.serial_error) })
    pure false
]

-- 'serial_enforce' not in data or data['serial_enforce'] is False
abbrev pub is_enforced : Config → Bool
is_enforced c = elim (lookup "serial_enforce" c.globals) [
  | none ↦ false
  | some p ↦ not (holds (Param_discrete p (flag false)))
]

unfoldable pub check_username_serial : String → String → Exec World Bool
unfolding check_serial
check_username_serial username serial = do
  c ← read_omr_config
  if is_truthy c
      then (if is_enforced c
          then (do
            users ← users_of c
            u ← require key_error (lookup username users)
            check_serial c users username serial u)
          else pure true)
      else pure false
