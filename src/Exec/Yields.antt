-- ===== src/Exec/Yields.antt =====
-- Actions that keep an invariant of the state and, if they return, give a value with a property.
-- What a function that may raise gives, if it gives something.
use openmptcprouter_vps.Exec.{
  Exec, PyError, Result, bind, continue, gets, lift, modify, ok, ok_inj, pure, raise, raised, ◌>>=◌,
}
use openmptcprouter_vps.Prelude.{Bool, false, if◌then◌else◌, refl, subst, true, ◌≡◌}

pub record Gives {A : Type 0} (P : A → Type 0) (r : Result A) : Type 0 where
  pub result : (a : A) → r ≡ ok a → P a

module _ {A : Type 0} {P : A → Type 0} where
  pub Gives-ok : (a : A) → P a → Gives P (ok a)
  Gives-ok a p = record { result = λ b e. subst P (ok_inj e) p }

  pub Gives-raised : (e : PyError) → Gives P (raised e)
  Gives-raised e = record { result = λ b h. cc }

-- Nothing is asked of the result.
abbrev pub anything : {A : Type 0} {r : Result A} → Gives (λ _. Unit {0}) r
anything = record { result = λ a e. tt }

pub Gives-bind :
    {A B : Type 0} {P : A → Type 0} {Q : B → Type 0} (r : Result A) (f : A → Result B)
    → Gives P r
    → ((a : A) → P a → Gives Q (f a))
    → Gives Q (bind r f)
Gives-bind (ok a) f g next = next a (g.result a refl)
Gives-bind (raised e) f g next = Gives-raised e

pub record Yields {State A : Type 0} (I : State → Type 0) (P : A → Type 0) (m : Exec State A)
    : Type 0 where
  pub state : (w : State) → I w → I (m w).1
  pub value : (w : State) → I w → Gives P (m w).0

module _ {State : Type 0} {I : State → Type 0} where
  pub Yields-modify :
      (f : State → State) → ((w : State) → I w → I (f w)) → Yields I (λ _. Unit {0}) (modify f)
  unfolding ◌>>=◌
  Yields-modify f kept = record { state = kept; value = λ w i. anything }

module _ {State A : Type 0} {I : State → Type 0} {P : A → Type 0} where
  pub Yields-pure : (a : A) → P a → Yields I P (pure a)
  unfolding ◌>>=◌
  Yields-pure a p = record { state = λ w i. i; value = λ w i. Gives-ok a p }

  pub Yields-raise : (e : PyError) → Yields I P (raise e)
  unfolding ◌>>=◌
  Yields-raise e = record { state = λ w i. i; value = λ w i. Gives-raised e }

  pub Yields-gets : (f : State → A) → ((w : State) → I w → P (f w)) → Yields I P (gets f)
  unfolding ◌>>=◌
  Yields-gets f read = record { state = λ w i. i; value = λ w i. Gives-ok (f w) (read w i) }

  pub Yields-lift : (r : Result A) → Gives P r → Yields I P (lift r)
  unfolding ◌>>=◌
  Yields-lift r g = record { state = λ w i. i; value = λ w i. g }

  pub Yields-if :
      (b : Bool) {m n : Exec State A}
      → Yields I P m
      → Yields I P n
      → Yields I P (if b then m else n)
  Yields-if true ym yn = ym
  Yields-if false ym yn = yn

module _ {State A B : Type 0} {I : State → Type 0} {P : A → Type 0} {Q : B → Type 0} where
  Yields-continue :
      (r : Result A) (f : A → Exec State B) (w : State)
      → Gives P r
      → I w
      → ((a : A) → P a → Yields I Q (f a))
      → (I (continue r f w).1) × Gives Q (continue r f w).0
  Yields-continue (ok a) f w g i next =
      ((next a (g.result a refl)).state w i, (next a (g.result a refl)).value w i)
  Yields-continue (raised e) f w g i next = (i, Gives-raised e)

  pub Yields-bind :
      {m : Exec State A} {f : A → Exec State B}
      → Yields I P m
      → ((a : A) → P a → Yields I Q (f a))
      → Yields I Q (m >>= f)
  unfolding ◌>>=◌
  Yields-bind {m = m} {f = f} ym next = record {
    state = λ w i. (Yields-continue (m w).0 f (m w).1 (ym.value w i) (ym.state w i) next).0;
    value = λ w i. (Yields-continue (m w).0 f (m w).1 (ym.value w i) (ym.state w i) next).1;
  }
