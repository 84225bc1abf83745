-- ===== src/Accounts/Ids.antt =====
-- The user id that /add_user gives.
use openmptcprouter_vps.Config.{UserData, UserId, get_or, int, new_user, numeral}
use openmptcprouter_vps.Dict.{lookup}
use openmptcprouter_vps.Prelude.{
  Bool-cases, List, Option, String, [], ap, arith, if◌then◌else◌, inl, inr, ltb, none, some,
  some_inj, subst, suc, zero, ℕ, ◌+◌, ◌==◌, ◌∙◌, ◌∷◌, ◌≡◌, ◌≢◌, ◌≤◌,
}

-- if int(userid) > n: n = int(userid)
abbrev raised_to : Option UserId → ℕ → ℕ
raised_to none n = n
raised_to (some id) n = if ltb n (int id) then int id else n

-- The largest id that is above the given number, or that number.
unfoldable pub highest_userid : List (String × UserData) → ℕ → ℕ
highest_userid [] userid = userid
highest_userid ((name, u) ∷ users) userid = highest_userid users (raised_to u.userid userid)

-- The id of a new user: the one that is asked for, unless it is missing or 0.
unfoldable pub new_userid : List (String × UserData) → Option ℕ → ℕ
new_userid users none = highest_userid users 2 + 1
new_userid users (some zero) = highest_userid users 2 + 1
new_userid users (some (suc n)) = suc n

-- The record that /add_user stores, before the ports and services are added.
unfoldable pub new_account : String → String → ℕ → List String → UserData
new_account permission user_key userid public_ips = record new_user {
  permissions = some permission;
  user_password = some user_key;
  disabled = some "false";
  userid = some (numeral userid);
  public_ips = some public_ips;
}

-- An id, if there is one, is at most n.
abbrev pub IdBelow : ℕ → Option UserId → Type 0
IdBelow n none = Unit
IdBelow n (some id) = int id ≤ n

-- Every id of the list is at most n.
abbrev pub IdsBelow : ℕ → List (String × UserData) → Type 0
IdsBelow n [] = Unit
IdsBelow n ((name, u) ∷ users) = IdBelow n u.userid × IdsBelow n users

raised_to-le : (o : Option UserId) (n : ℕ) → n ≤ raised_to o n
raised_to-le none n = omega arith
raised_to-le (some id) n = ground arith

highest_userid-le : (users : List (String × UserData)) (n : ℕ) → n ≤ highest_userid users n
unfolding highest_userid
highest_userid-le [] n = omega arith
highest_userid-le ((name, u) ∷ users) n =
    omega (arith, raised_to-le u.userid n, highest_userid-le users (raised_to u.userid n))

id_below : (o : Option UserId) (n m : ℕ) → raised_to o n ≤ m → IdBelow m o
id_below none n m h = tt
id_below (some id) n m h = ground arith

highest_userid-IdsBelow :
    (users : List (String × UserData)) (n : ℕ) → IdsBelow (highest_userid users n) users
unfolding highest_userid
highest_userid-IdsBelow [] n = tt
highest_userid-IdsBelow ((name, u) ∷ users) n =
    let next = raised_to u.userid n in
    (
      id_below u.userid n (highest_userid users next) (highest_userid-le users next),
      highest_userid-IdsBelow users next,
    )

-- A user that is in the list has an id below the bound.
IdsBelow-lookup :
    (n : ℕ) (users : List (String × UserData)) (name : String) {u : UserData} {id : UserId}
    → IdsBelow n users
    → lookup name users ≡ some u
    → u.userid ≡ some id
    → int id ≤ n
unfolding lookup
IdsBelow-lookup n [] name below known has_id = absurd (ground arith)
IdsBelow-lookup n ((j, v) ∷ users) name {u} {id} (first, below) known has_id =
    elim (Bool-cases (j == name)) [
      | inl here ↦
          let same = some_inj (rw here at known) in
          subst (IdBelow n) (ap (λ (z : UserData). z.userid) same ∙ has_id) first
      | inr there ↦ IdsBelow-lookup n users name below (rw there at known) has_id
    ]

-- One above the highest id is the id of no user, and at least 3.
highest_userid_fresh :
    (users : List (String × UserData)) (name : String) {u : UserData} {id : UserId}
    → lookup name users ≡ some u
    → u.userid ≡ some id
    → (int id ≢ highest_userid users 2 + 1) × (3 ≤ highest_userid users 2 + 1)
highest_userid_fresh users name {u} {id} known has_id =
    let below =
      IdsBelow-lookup (highest_userid users 2) users name {u = u} {id = id}
        (highest_userid-IdsBelow users 2) known has_id in
    let low = highest_userid-le users 2 in (ground arith, ground arith)

-- Let a user of the file have an id. If /add_user is given no id, or the id 0, then it chooses an id that
-- is at least 3 and not the one of that user.
pub new_userid_fresh :
    (users : List (String × UserData)) (asked : Option ℕ) (name : String) {u : UserData}
    {id : UserId}
    → get_or asked 0 ≡ 0
    → lookup name users ≡ some u
    → u.userid ≡ some id
    → (int id ≢ new_userid users asked) × (3 ≤ new_userid users asked)
unfolding new_userid
new_userid_fresh users none name {u} {id} unasked known has_id =
    highest_userid_fresh users name known has_id
new_userid_fresh users (some zero) name {u} {id} unasked known has_id =
    highest_userid_fresh users name known has_id
new_userid_fresh users (some (suc n)) name {u} {id} unasked known has_id = absurd (omega arith)
