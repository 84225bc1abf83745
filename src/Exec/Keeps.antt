-- ===== src/Exec/Keeps.antt =====
-- Invariants of actions, one rule for each way to build an action.
use openmptcprouter_vps.Exec.{
  Exec, PyError, Result, continue, gets, lift, ok, pure, raise, raised, require, ◌>>=◌,
}
use openmptcprouter_vps.Prelude.{Bool, Option, false, if◌then◌else◌, none, some, true}

-- `m` keeps `P`, whether it returns or raises.
pub record Keeps {ℓ} {State A : Type ℓ} (P : State → Type ℓ) (m : Exec State A) : Type ℓ where
  pub at : (w : State) → P w → P (m w).1

module _ {ℓ} {State A : Type ℓ} {P : State → Type ℓ} where
  pub Keeps-pure : (a : A) → Keeps P (pure a)
  unfolding ◌>>=◌
  Keeps-pure a = record { at = λ w before. before }

  pub Keeps-raise : (e : PyError) → Keeps P (raise {A = A} e)
  unfolding ◌>>=◌
  Keeps-raise e = record { at = λ w before. before }

  pub Keeps-gets : (f : State → A) → Keeps P (gets f)
  unfolding ◌>>=◌
  Keeps-gets f = record { at = λ w before. before }

  pub Keeps-lift : (r : Result A) → Keeps P (lift r)
  unfolding ◌>>=◌
  Keeps-lift r = record { at = λ w before. before }

  pub Keeps-require : (e : PyError) (o : Option A) → Keeps P (require e o)
  unfolding ◌>>=◌
  Keeps-require e none = record { at = λ w before. before }
  Keeps-require e (some a) = record { at = λ w before. before }

  pub Keeps-if :
      (b : Bool) {m n : Exec State A} → Keeps P m → Keeps P n → Keeps P (if b then m else n)
  Keeps-if true km kn = km
  Keeps-if false km kn = kn

module _ {ℓ} {State A B : Type ℓ} {P : State → Type ℓ} where
  Keeps-continue :
      (r : Result A) (f : A → Exec State B)
      → ((a : A) → Keeps P (f a))
      → (w : State) → P w
      → P (continue r f w).1
  Keeps-continue (ok a) f kf w before = (kf a).at w before
  Keeps-continue (raised e) f kf w before = before

  pub Keeps-bind :
      {m : Exec State A} {f : A → Exec State B}
      → Keeps P m
      → ((a : A) → Keeps P (f a))
      → Keeps P (m >>= f)
  unfolding ◌>>=◌
  Keeps-bind {m} {f} km kf = record {
    at = λ w before. Keeps-continue (m w).0 f kf (m w).1 (km.at w before);
  }

pub ruleset keeps_rules =
    (Keeps-pure, Keeps-raise, Keeps-gets, Keeps-lift, Keeps-require, Keeps-if, Keeps-bind)
