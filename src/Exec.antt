-- ===== src/Exec.antt =====
-- Python functions that read and write the host and may raise. What was written before an exception
-- stays written, so the state comes back beside the exception too.
pub mod Keeps
pub mod Ends
pub mod Yields
use openmptcprouter_vps.Prelude.{Option, String, inl, inr, none, refl, some, ℕ, ◌≡◌, ◌⊎◌}

-- The exceptions that the program's own statements raise, by class. `os_error` stands also for those
-- that are caught together with it.
pub data PyError : Type 0 where
  file_not_found key_error value_error type_error index_error os_error : PyError
  overflow_error attribute_error : PyError
  http_exception : ℕ → String → PyError

pub data Result {ℓ} (A : Type ℓ) : Type ℓ where
  ok : A → Result A
  raised : PyError → Result A

abbrev pub Exec {ℓ} : Type ℓ → Type ℓ → Type ℓ
Exec State A = State → Result A × State

module _ {ℓ} {State A : Type ℓ} where
  pub pure : A → Exec State A
  pure a w = (ok a, w)

  pub raise : PyError → Exec State A
  raise e w = (raised e, w)

  -- The state, read by a function.
  pub gets : (State → A) → Exec State A
  gets f w = (ok (f w), w)

  -- A pure function's result.
  pub lift : Result A → Exec State A
  lift r w = (r, w)

  -- A value that may be missing: `d[k]` raises.
  pub require : PyError → Option A → Exec State A
  require e none w = (raised e, w)
  require e (some a) w = (ok a, w)

module _ {State : Type 0} where
  pub modify : (State → State) → Exec State (Unit {0})
  modify f w = (ok tt, f w)

module _ {ℓ} {State A B : Type ℓ} where
  abbrev pub continue : Result A → (A → Exec State B) → Exec State B
  continue (ok a) f w = f a w
  continue (raised e) f w = (raised e, w)

  infixl 10 ◌>>=◌ ◌>>◌
  -- Opening this opens the other actions too.
  unfoldable pub ◌>>=◌ : Exec State A → (A → Exec State B) → Exec State B
  unfolding pure raise gets lift require modify
  ◌>>=◌ m f w = let (r, after) = m w in continue r f after

  abbrev pub ◌>>◌ : Exec State A → Exec State B → Exec State B
  m >> n = m >>= λ _. n

abbrev pub bind {ℓ} : {A B : Type ℓ} → Result A → (A → Result B) → Result B
bind (ok a) f = f a
bind (raised e) f = raised e

pub ok_inj {ℓ} : {A : Type ℓ} {a b : A} → ok a ≡ ok b → a ≡ b
ok_inj e = cc

-- To split on a result and keep the equation.
pub Result-cases {ℓ} :
    {A : Type ℓ} (r : Result A) → ((e : PyError) × (r ≡ raised e)) ⊎ ((a : A) × (r ≡ ok a))
Result-cases (ok a) = inr (a, refl)
Result-cases (raised e) = inl (e, refl)
