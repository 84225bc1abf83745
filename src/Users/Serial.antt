-- ===== src/Users/Serial.antt =====
-- What the serial number check does to its user, in one check and in many.
use openmptcprouter_vps.Config.{Config, UserData}
use openmptcprouter_vps.Dict.{insert, insert-insert, insert-lookup, lookup, lookup-insert_self}
use openmptcprouter_vps.Exec.{Result, ok, ◌>>=◌}
use openmptcprouter_vps.Host.{World}
use openmptcprouter_vps.Host.Store.{backup_config, dump_config, read_omr_config, readable, users_of}
use openmptcprouter_vps.Prelude.{
  Bool, Bool-cases, List, Option, Option-cases, String, [], ap, arith, false, if◌then◌else◌, inl,
  inr, map, none, refl, some, suc, sym, true, zero, ℕ, ◌+◌, ◌==◌, ◌∙◌, ◌∷◌, ◌≡◌,
}
use openmptcprouter_vps.Users.Identity.{bump, check_username_serial, is_enforced}

-- What a check is to do to the user's data, and its answer.
abbrev pub serial_step : String → UserData → UserData × Bool
serial_step serial u = elim u.serial [
  | none ↦ (record u { serial = some serial }, true)
  | some known ↦
      if known == serial
      then (u, true)
      else (record u { serial_error = some (bump u.serial_error) }, false)
]

module _ (username serial : String) (w : World) {c : Config} {users : List (String × UserData)}
    {u : UserData} (reads : readable w.config ≡ some c) (has_users : c.users ≡ some users)
    (known_user : lookup username users ≡ some u) where
  -- With enforcement on and the user in the readable file, check_username_serial gives the answer of
  -- serial_step (the first serial number is bound, a bound one passes, any other is counted and
  -- refused), and the file then holds the user's next state and everything else as before.
  pub check_username_serial_step :
      is_enforced c ≡ true
      → ((check_username_serial username serial w).0 ≡ ok (serial_step serial u).1)
        × (readable (check_username_serial username serial w).1.config
            ≡ some (record c { users = some (insert username (serial_step serial u).0 users) }))
  unfolding ◌>>=◌ check_username_serial read_omr_config backup_config dump_config users_of
  check_username_serial_step enforced = ground (arith, insert-lookup username u users)

  -- With enforcement off, every serial number passes and nothing is written.
  pub check_username_serial_off :
      is_enforced c ≡ false → check_username_serial username serial w ≡ (ok true, w)
  unfolding ◌>>=◌ check_username_serial read_omr_config
  check_username_serial_off off = ground arith

-- The checks of a list of serial numbers, one after the other, with their answers.
unfoldable pub check_in_turn : String → List String → World → List (Result Bool) × World
check_in_turn username [] w = ([], w)
check_in_turn username (s ∷ ss) w =
    let checked = check_username_serial username s w in
    let rest = check_in_turn username ss checked.1 in (checked.0 ∷ rest.0, rest.1)

-- The number of serial numbers other than the known one.
unfoldable pub strangers : String → List String → ℕ
strangers known [] = 0
strangers known (s ∷ ss) = if known == s then strangers known ss else suc (strangers known ss)

-- The error counter after a number of errors; without one it stays as it is, missing or not.
abbrev counted : Option ℕ → ℕ → Option ℕ
counted before zero = before
counted none (suc n) = some (suc n)
counted (some m) (suc n) = some (m + suc n)

-- The data of a user after a number of errors.
abbrev pub with_errors : ℕ → UserData → UserData
with_errors n u = record u { serial_error = counted u.serial_error n }

serial_step-known :
    (known s : String) (u : UserData)
    → u.serial ≡ some known
    → serial_step s u ≡ (with_errors (strangers known (s ∷ [])) u, known == s)
unfolding strangers
serial_step-known known s u bound = elim (Bool-cases (known == s)) [
  | inl same ↦ rw (bound, same) refl
  | inr other ↦ elim (Option-cases u.serial_error) [
    | inl unset ↦ rw (bound, other, unset) refl
    | inr (n, set) ↦ rw (bound, other, set) refl
  ]
]

counted_one : (before : Option ℕ) (n : ℕ) → counted (counted before 1) n ≡ counted before (suc n)
counted_one none zero = refl
counted_one none (suc n) = ap some (omega arith)
counted_one (some m) zero = refl
counted_one (some m) (suc n) = ap some (omega arith)

with_errors_add :
    (known s : String) (ss : List String) (u : UserData)
    → with_errors (strangers known ss) (with_errors (strangers known (s ∷ [])) u)
      ≡ with_errors (strangers known (s ∷ ss)) u
unfolding strangers
with_errors_add known s ss u = elim (Bool-cases (known == s)) [
  | inl same ↦ rw same refl
  | inr other ↦
      rw other
        (ap (λ o. record u { serial_error = o }) (counted_one u.serial_error (strangers known ss)))
]

-- With enforcement on and a serial number bound to the user of the readable file: however many checks
-- follow, with whatever serial numbers, a check answers yes exactly if it names the bound number, which
-- stays bound, and in the end the file differs only in the user's error counter, which has grown by the
-- number of the other checks.
pub check_username_serial_bound :
    (username known : String) (ss : List String) (w : World) {c : Config}
    {users : List (String × UserData)} {u : UserData}
    → readable w.config ≡ some c
    → c.users ≡ some users
    → lookup username users ≡ some u
    → is_enforced c ≡ true
    → u.serial ≡ some known
    → ((check_in_turn username ss w).0 ≡ map (λ s. ok (known == s)) ss)
      × (readable (check_in_turn username ss w).1.config
          ≡ some (record c {
            users = some (insert username (with_errors (strangers known ss) u) users);
          }))
unfolding check_in_turn strangers
check_username_serial_bound username known [] w {c} {users} {u} reads has_users known_user enforced
      bound =
    (
      refl,
      reads
          ∙ ap some (
              ap (λ o. record c { users = o })
                (has_users ∙ ap some (sym (insert-lookup username u users known_user)))),
    )
check_username_serial_bound username known (s ∷ ss) w {c} {users} {u} reads has_users known_user
      enforced bound =
    let (answer, after) =
      check_username_serial_step username s w reads has_users known_user enforced in
    let same = serial_step-known known s u bound in
    let u1 = with_errors (strangers known (s ∷ [])) u in
    let w1 = (check_username_serial username s w).1 in
    let (answers, final) =
      check_username_serial_bound username known ss w1 {users = insert username u1 users}
        (after
          ∙ ap
              (λ (o : UserData × Bool).
                some (record c { users = some (insert username o.0 users) }))
              same)
        refl (lookup-insert_self username u1 users) enforced bound in
    (
      ap (λ a. a ∷ (check_in_turn username ss w1).0)
            (answer ∙ ap (λ (o : UserData × Bool). ok o.1) same)
          ∙ ap (λ l. ok (known == s) ∷ l) answers,
      final
          ∙ ap (λ l. some (record c { users = some l }))
              (insert-insert username _ u1 users
                ∙ ap (λ v. insert username v users) (with_errors_add known s ss u)),
    )
