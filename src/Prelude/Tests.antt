-- ===== src/Prelude/Tests.antt =====
-- Boolean tests on numbers, texts and other types with a decision, and the conditional.
use Prim.Native.Nat.{ℕ, compare, Ordering}
use Prim.Native.String.{String}
use mathlib.Core.Bool.{Bool, true, false, ◌&&◌}
use mathlib.Core.Logic.{◌⊎◌, inl, inr}
use mathlib.Core.Option.{Option, none, some}
use mathlib.Core.Path.{◌≡◌, refl}
use native.Mathlib.Omega.{arith}
use text.Mathlib.Text.{◌==◌ as text_eq}
use text.Mathlib.TextEquality.{eq_iff}

abbrev pub ltb : ℕ → ℕ → Bool
ltb a b = elim (compare a b) [ Ordering.lt ↦ true | _ ↦ false ]

abbrev pub leb : ℕ → ℕ → Bool
leb a b = elim (compare a b) [ Ordering.gt ↦ false | _ ↦ true ]

infix 1 if◌then◌else◌
abbrev pub if◌then◌else◌ {ℓ} : {A : Type ℓ} → Bool → A → A → A
if true then x else y = x
if false then x else y = y

-- A decision read as a Boolean.
abbrev pub holds {ℓ} : {P : Type ℓ} → Dec P → Bool
holds (yes p) = true
holds (no p) = false

Bool-decision : (s t : String) (b : Bool) → text_eq s t ≡ b → Dec (s ≡ t)
Bool-decision s t true e = yes ((eq_iff s t).0 e)
Bool-decision s t false e = no (λ p. ground (arith, (eq_iff s t).1 p))

unfoldable pub String_discrete : Discrete String
unfolding Bool-decision
String_discrete s t = Bool-decision s t (text_eq s t) refl

infix 50 ◌==◌ ◌==ℕ◌
abbrev pub ◌==◌ : String → String → Bool
s == t = holds (String_discrete s t)

abbrev pub ◌==ℕ◌ : ℕ → ℕ → Bool
a ==ℕ b = elim (compare a b) [ Ordering.eq ↦ true | _ ↦ false ]

-- To split on a computed value and keep the equation.
pub Bool-cases : (b : Bool) → (b ≡ true) ⊎ (b ≡ false)
Bool-cases true = inl refl
Bool-cases false = inr refl

pub Option-cases {ℓ} : {A : Type ℓ} (o : Option A) → (o ≡ none) ⊎ ((a : A) × (o ≡ some a))
Option-cases none = inl refl
Option-cases (some a) = inr (a, refl)

-- What a test that passed shows.
pub of_holds {ℓ} : {P : Type ℓ} (d : Dec P) → holds d ≡ true → P
of_holds (yes p) h = p
of_holds (no n) h = cc

pub and_parts : (a b : Bool) → (a && b) ≡ true → (a ≡ true) × (b ≡ true)
and_parts a b h = ground arith

pub ne_of_test : (s t : String) → (s == t) ≡ false → s ≡ t → ⊥
ne_of_test s t h e =
    elim (String_discrete s t) as (λ d. holds d ≡ false → ⊥) [ yes p ↦ λ h. cc | no n ↦ λ h. n e ] h

abbrev pub is_some {ℓ} : {A : Type ℓ} → Option A → Bool
is_some none = false
is_some (some a) = true

pub some_inj {ℓ} : {A : Type ℓ} {a b : A} → some a ≡ some b → a ≡ b
some_inj e = cc

pub holds_self {ℓ} : {A : Type ℓ} {a : A} (d : Dec (a ≡ a)) → holds d ≡ true
holds_self (yes p) = refl
holds_self (no n) = absurd (n refl)
