-- ===== src/Dict.antt =====
-- Python's `dict` with string keys: an association list in insertion order. Assigning to a key that
-- is there keeps its place, a new key goes to the end.
use openmptcprouter_vps.Prelude.{
  Bool, List, Option, String, [], arith, false, if◌then◌else◌, map, none, refl, some, true, ◌++◌,
  ◌==◌, ◌∷◌, ◌≡◌, ◌≢◌,
}

module _ {ℓ} {Value : Type ℓ} where
  -- d.get(k)
  unfoldable pub lookup : String → List (String × Value) → Option Value
  lookup key [] = none
  lookup key ((other, value) ∷ rest) = if other == key then some value else lookup key rest

  -- d[k] = v
  unfoldable pub insert : String → Value → List (String × Value) → List (String × Value)
  insert key value [] = (key, value) ∷ []
  insert key value ((other, w) ∷ rest) =
      if other == key then (other, value) ∷ rest else (other, w) ∷ insert key value rest

  -- d.pop(k, None), del d[k]
  unfoldable pub remove : String → List (String × Value) → List (String × Value)
  remove key [] = []
  remove key ((other, value) ∷ rest) =
      if other == key then remove key rest else (other, value) ∷ remove key rest

  -- k in d
  unfoldable pub has_key : String → List (String × Value) → Bool
  unfolding lookup
  has_key key rest = elim (lookup key rest) [ none ↦ false | some value ↦ true ]

  -- list(d)
  abbrev pub keys : List (String × Value) → List String
  keys = map (λ e. e.0)

  pub lookup-insert :
      (key other : String) (value : Value) (rest : List (String × Value))
      → lookup other (insert key value rest)
        ≡ (if key == other then some value else lookup other rest)
  unfolding lookup insert
  lookup-insert key other value [] = refl
  lookup-insert key other value ((i, w) ∷ rest) = ground (arith, lookup-insert key other value rest)

  pub lookup-insert_self :
      (key : String) (value : Value) (rest : List (String × Value))
      → lookup key (insert key value rest) ≡ some value
  lookup-insert_self key value rest = rw lookup-insert (ground arith)

  pub lookup-insert_ne :
      (key other : String) (value : Value) (rest : List (String × Value))
      → key ≢ other
      → lookup other (insert key value rest) ≡ lookup other rest
  lookup-insert_ne key other value rest h = rw lookup-insert (ground arith)

  pub lookup-remove :
      (key other : String) (rest : List (String × Value))
      → lookup other (remove key rest) ≡ (if key == other then none else lookup other rest)
  unfolding lookup remove
  lookup-remove key other [] = ground arith
  lookup-remove key other ((i, w) ∷ rest) = ground (arith, lookup-remove key other rest)

  -- Writing back the value that is there changes nothing.
  pub insert-lookup :
      (key : String) (value : Value) (rest : List (String × Value))
      → lookup key rest ≡ some value
      → insert key value rest ≡ rest
  unfolding lookup insert
  insert-lookup key value [] h = cc
  insert-lookup key value ((other, w) ∷ rest) h = ground (arith, insert-lookup key value rest)

  pub insert-insert :
      (key : String) (value w : Value) (rest : List (String × Value))
      → insert key value (insert key w rest) ≡ insert key value rest
  unfolding insert
  insert-insert key value w [] = ground arith
  insert-insert key value w ((other, u) ∷ rest) = ground (arith, insert-insert key value w rest)

  -- Assigning to a key that is there keeps the keys and their order.
  pub keys-insert :
      (key : String) (value w : Value) (rest : List (String × Value))
      → lookup key rest ≡ some w
      → keys (insert key value rest) ≡ keys rest
  unfolding lookup insert
  keys-insert key value w [] h = cc
  keys-insert key value w ((other, u) ∷ rest) h = ground (arith, keys-insert key value w rest)

  -- A key that is not there is added behind the others.
  pub insert_new :
      (key : String) (value : Value) (rest : List (String × Value))
      → lookup key rest ≡ none
      → insert key value rest ≡ rest ++ (key, value) ∷ []
  unfolding lookup insert
  insert_new key value [] h = refl
  insert_new key value ((other, u) ∷ rest) h = ground (arith, insert_new key value rest)

  pub remove_absent :
      (key : String) (rest : List (String × Value))
      → lookup key rest ≡ none
      → remove key rest ≡ rest
  unfolding lookup remove
  remove_absent key [] h = refl
  remove_absent key ((other, u) ∷ rest) h = ground (arith, remove_absent key rest)
