-- ===== src/Exec/Ends.antt =====
-- How an action ends: it returns and `Q` holds, or it raises an OSError and `E` holds.
use openmptcprouter_vps.Exec.{Exec, Result, continue, gets, lift, ok, os_error, pure, raised, ◌>>=◌}
use openmptcprouter_vps.Prelude.{◌≡◌}

pub data Ends {State A : Type 0} (Q : A → State → Type 0) (E : State → Type 0)
    : Result A × State → Type 0 where
  returns : (a : A) (w : State) → Q a w → Ends Q E (ok a, w)
  raises : (w : State) → E w → Ends Q E (raised os_error, w)

module _ {State A B : Type 0} {P : A → State → Type 0} {Q : B → State → Type 0}
    {E : State → Type 0} where
  Ends-continue :
      (f : A → Exec State B) (out : Result A × State)
      → Ends P E out
      → ((a : A) (w : State) → P a w → Ends Q E (f a w))
      → Ends Q E (continue out.0 f out.1)
  Ends-continue f _ (returns a w p) next = next a w p
  Ends-continue f _ (raises w e) next = raises w e

  pub Ends-bind :
      (m : Exec State A) (f : A → Exec State B) (w : State)
      → Ends P E (m w)
      → ((a : A) (w' : State) → P a w' → Ends Q E (f a w'))
      → Ends Q E ((m >>= f) w)
  unfolding ◌>>=◌
  Ends-bind m f w first next = Ends-continue f (m w) first next

module _ {State A : Type 0} {P Q : A → State → Type 0} {E : State → Type 0} where
  pub Ends-weaken :
      (out : Result A × State) → Ends P E out → ((a : A) (w : State) → P a w → Q a w) → Ends Q E out
  Ends-weaken _ (returns a w p) weaker = returns a w (weaker a w p)
  Ends-weaken _ (raises w e) weaker = raises w e

module _ {State A : Type 0} {Q : A → State → Type 0} {E : State → Type 0} where
  pub Ends-pure : (a : A) (w : State) → Q a w → Ends Q E (pure a w)
  unfolding ◌>>=◌
  Ends-pure a w q = returns a w q

  pub Ends-gets : (f : State → A) (w : State) → Q (f w) w → Ends Q E (gets f w)
  unfolding ◌>>=◌
  Ends-gets f w q = returns (f w) w q

  pub Ends-lift : (r : Result A) (w : State) (a : A) → r ≡ ok a → Q a w → Ends Q E (lift r w)
  unfolding ◌>>=◌
  Ends-lift r w a e q = rw e (returns a w q)

  pub Ends-lift_raised :
      (r : Result A) (w : State) → r ≡ raised os_error → E w → Ends Q E (lift r w)
  unfolding ◌>>=◌
  Ends-lift_raised r w e x = rw e (raises w x)
