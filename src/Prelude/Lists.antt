-- ===== src/Prelude/Lists.antt =====
-- Lists filtered and searched by Boolean tests, as Python's comprehensions, `any` and `in` do.
use Prim.Native.Nat.{ℕ, suc}
use mathlib.Core.Bool.{Bool, true, false, ◌&&◌, ◌||◌}
use mathlib.Core.List.{List, [], ◌∷◌, ◌++◌}
use mathlib.Core.Logic.{◌⊎◌, inl, inr}
use mathlib.Core.Path.{◌≡◌, refl, sym}
use native.Mathlib.Omega.{arith}
use openmptcprouter_vps.Prelude.Tests.{if◌then◌else◌, holds}

module _ {ℓ} {A : Type ℓ} where
  abbrev pub length : List A → ℕ
  length [] = 0
  length (x ∷ xs) = suc (length xs)

  -- [x for x in xs if p(x)]
  unfoldable pub filter : (A → Bool) → List A → List A
  filter p [] = []
  filter p (x ∷ xs) = if p x then x ∷ filter p xs else filter p xs

  -- any(p(x) for x in xs)
  unfoldable pub any : (A → Bool) → List A → Bool
  any p [] = false
  any p (x ∷ xs) = p x || any p xs

  unfoldable pub all : (A → Bool) → List A → Bool
  all p [] = true
  all p (x ∷ xs) = p x && all p xs

  -- x in xs
  unfoldable pub contains : Discrete A → A → List A → Bool
  contains dec x [] = false
  contains dec x (y ∷ ys) = if holds (dec y x) then true else contains dec x ys

module _ {A : Type 0} where
  abbrev pub Member : A → List A → Type 0
  Member x [] = ⊥
  Member x (y ∷ ys) = (x ≡ y) ⊎ Member x ys

module _ {ℓ κ} {A : Type ℓ} where
  abbrev pub All : (A → Type κ) → List A → Type κ
  All P [] = Unit
  All P (x ∷ xs) = P x × All P xs

module _ {ℓ} {A : Type ℓ} (p : A → Bool) where
  pub filter-append : (xs ys : List A) → filter p (xs ++ ys) ≡ filter p xs ++ filter p ys
  unfolding filter
  filter-append [] ys = refl
  filter-append (x ∷ xs) ys = ground (arith, filter-append xs ys)

  pub filter_idem : (xs : List A) → filter p (filter p xs) ≡ filter p xs
  unfolding filter
  filter_idem [] = refl
  filter_idem (x ∷ xs) = ground (arith, filter_idem xs)

  -- What is filtered satisfies the test.
  pub all-filter : (xs : List A) → all p (filter p xs) ≡ true
  unfolding filter all
  all-filter [] = refl
  all-filter (x ∷ xs) = ground (arith, all-filter xs)

  pub filter_of_all : (xs : List A) → all p xs ≡ true → filter p xs ≡ xs
  unfolding filter all
  filter_of_all [] h = refl
  filter_of_all (x ∷ xs) h = ground (arith, filter_of_all xs)

  pub all-append : (xs ys : List A) → all p (xs ++ ys) ≡ (all p xs && all p ys)
  unfolding all
  all-append [] ys = refl
  all-append (x ∷ xs) ys = ground (arith, all-append xs ys)

module _ {ℓ} {A : Type ℓ} (p q : A → Bool) where
  pub filter_comm : (xs : List A) → filter p (filter q xs) ≡ filter q (filter p xs)
  unfolding filter
  filter_comm [] = refl
  filter_comm (x ∷ xs) = ground (arith, filter_comm xs)

  pub filter-filter : (xs : List A) → filter p (filter q xs) ≡ filter (λ x. p x && q x) xs
  unfolding filter
  filter-filter [] = refl
  filter-filter (x ∷ xs) = ground (arith, filter-filter xs)

module _ {ℓ} {A : Type ℓ} (dec : Discrete A) where
  pub contains-append_last : (x : A) (xs : List A) → contains dec x (xs ++ x ∷ []) ≡ true
  unfolding contains
  contains-append_last x [] = ground arith
  contains-append_last x (y ∷ ys) = ground (arith, contains-append_last x ys)

module _ {A : Type 0} (dec : Discrete A) where
  pub Member-of_contains : (x : A) (xs : List A) → contains dec x xs ≡ true → Member x xs
  unfolding contains
  Member-of_contains x [] h = cc
  Member-of_contains x (y ∷ ys) h = elim (dec y x) [
    | yes e ↦ inl (sym e)
    | no n ↦ inr (Member-of_contains x ys (ground arith))
  ]

  pub contains_of_Member : (x : A) (xs : List A) → Member x xs → contains dec x xs ≡ true
  unfolding contains
  contains_of_Member x [] m = absurd m
  contains_of_Member x (y ∷ ys) (inl e) = ground arith
  contains_of_Member x (y ∷ ys) (inr m) = ground (arith, contains_of_Member x ys m)
