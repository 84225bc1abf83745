-- ===== src/Dscp/Sorting.antt =====
-- sorted(…) of the remote ids.
use openmptcprouter_vps.Dscp.Weights.{insert_sorted, sorted}
use openmptcprouter_vps.Prelude.{
  Bool-cases, List, [], ap, arith, if◌then◌else◌, inl, inr, leb, refl, ℕ, ◌+◌, ◌==ℕ◌, ◌∙◌, ◌∷◌, ◌≡◌,
  ◌≤◌,
}

abbrev pub IsSorted : List ℕ → Type 0
IsSorted [] = Unit
IsSorted (x ∷ []) = Unit
IsSorted (x ∷ y ∷ ys) = (x ≤ y) × IsSorted (y ∷ ys)

abbrev pub count : ℕ → List ℕ → ℕ
count a [] = 0
count a (x ∷ xs) = (if x ==ℕ a then 1 else 0) + count a xs

abbrev AtLeast : ℕ → List ℕ → Type 0
AtLeast a [] = Unit
AtLeast a (x ∷ xs) = a ≤ x

insert_sorted-AtLeast : (a x : ℕ) (l : List ℕ) → a ≤ x → AtLeast a l → AtLeast a (insert_sorted x l)
unfolding insert_sorted
insert_sorted-AtLeast a x [] h k = h
insert_sorted-AtLeast a x (y ∷ ys) h k = elim (Bool-cases (leb x y)) [
  | inl p ↦ rw p h
  | inr n ↦ rw n k
]

cons-IsSorted : (a : ℕ) (l : List ℕ) → AtLeast a l → IsSorted l → IsSorted (a ∷ l)
cons-IsSorted a [] h s = tt
cons-IsSorted a (x ∷ l) h s = (h, s)

AtLeast-of_cons : (a : ℕ) (l : List ℕ) → IsSorted (a ∷ l) → AtLeast a l
AtLeast-of_cons a [] s = tt
AtLeast-of_cons a (x ∷ l) s = s.0

tail-IsSorted : (a : ℕ) (l : List ℕ) → IsSorted (a ∷ l) → IsSorted l
tail-IsSorted a [] s = tt
tail-IsSorted a (x ∷ l) s = s.1

insert_sorted-IsSorted : (x : ℕ) (l : List ℕ) → IsSorted l → IsSorted (insert_sorted x l)
unfolding insert_sorted
insert_sorted-IsSorted x [] s = tt
insert_sorted-IsSorted x (y ∷ ys) s = elim (Bool-cases (leb x y)) [
  | inl p ↦ rw p (ground arith, s)
  | inr n ↦ rw n (
      cons-IsSorted y (insert_sorted x ys)
        (insert_sorted-AtLeast y x ys (ground arith) (AtLeast-of_cons y ys s))
        (insert_sorted-IsSorted x ys (tail-IsSorted y ys s)))
]

count-insert_sorted : (a x : ℕ) (l : List ℕ) → count a (insert_sorted x l) ≡ count a (x ∷ l)
unfolding insert_sorted
count-insert_sorted a x [] = refl
count-insert_sorted a x (y ∷ ys) = ground (arith, count-insert_sorted a x ys)

-- What mptcp_weight writes to its state file is in order and has each number as often as the list.
pub sorted_lem : (l : List ℕ) → IsSorted (sorted l) × ((a : ℕ) → count a (sorted l) ≡ count a l)
unfolding sorted
sorted_lem [] = (tt, λ a. refl)
sorted_lem (x ∷ l) =
    let (s, c) = sorted_lem l in
    (
      insert_sorted-IsSorted x (sorted l) s,
      λ a. count-insert_sorted a x (sorted l) ∙ ap (λ n. (if x ==ℕ a then 1 else 0) + n) (c a),
    )
