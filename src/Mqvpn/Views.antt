-- ===== src/Mqvpn/Views.antt =====
-- The policy as one map from paths and fields to values.
use openmptcprouter_vps.Mqvpn.Policy.{
  Field, PathPolicy, dscp_mask, is_bare, is_path, policy_clear, policy_set, put_value, same_field,
  value_of, weight,
}
use openmptcprouter_vps.Prelude.{
  Bool, Bool-cases, List, Option, String, [], arith, false, if◌then◌else◌, inl, inr, none, refl,
  some, true, ℕ, ◌&&◌, ◌==◌, ◌||◌, ◌∷◌, ◌≡◌,
}

-- The value of a field on a path.
unfoldable pub field_at : Field → String → String → List PathPolicy → Option ℕ
field_at field username iface [] = none
field_at field username iface (e ∷ policy) =
    if is_path username iface e then value_of field e else field_at field username iface policy

unfoldable pub has_path : String → String → List PathPolicy → Bool
has_path username iface [] = false
has_path username iface (e ∷ policy) = is_path username iface e || has_path username iface policy

-- A path has one entry at most.
abbrev pub HasDistinctPaths : List PathPolicy → Type 0
HasDistinctPaths [] = Unit
HasDistinctPaths (e ∷ policy) =
    ((username iface : String)
      → is_path username iface e ≡ true
      → has_path username iface policy ≡ false)
    × HasDistinctPaths policy

-- A new entry for a path.
abbrev pub fresh : String → String → PathPolicy
fresh u i = record { user = some u; iface = some i; path_weight = none; path_mask = none }

pub is_path-fresh : (u i v j : String) → is_path v j (fresh u i) ≡ ((u == v) && (i == j))
unfolding is_path
is_path-fresh u i v j = refl

value_of-fresh : (g : Field) (u i : String) → value_of g (fresh u i) ≡ none
value_of-fresh weight u i = refl
value_of-fresh dscp_mask u i = refl

abbrev pub same_path : Field → String → String → Field → String → String → Bool
same_path f u i g v j = same_field f g && (u == v) && (i == j)

module _ (f : Field) (u i : String) where
  field_at-no_path :
      (policy : List PathPolicy) → has_path u i policy ≡ false → field_at f u i policy ≡ none
  unfolding has_path field_at
  field_at-no_path [] h = refl
  field_at-no_path (e ∷ policy) h = ground (arith, field_at-no_path policy)

pub is_path_same :
    (u i v j : String) (e : PathPolicy)
    → is_path u i e ≡ true
    → is_path v j e ≡ ((u == v) && (i == j))
unfolding is_path
is_path_same u i v j e h = ground arith

value_of-put_value :
    (f g : Field) (o : Option ℕ) (e : PathPolicy)
    → value_of g (put_value f o e) ≡ (if same_field f g then o else value_of g e)
value_of-put_value weight weight o e = refl
value_of-put_value weight dscp_mask o e = refl
value_of-put_value dscp_mask weight o e = refl
value_of-put_value dscp_mask dscp_mask o e = refl

pub is_path-put_value :
    (f : Field) (o : Option ℕ) (u i : String) (e : PathPolicy)
    → is_path u i (put_value f o e) ≡ is_path u i e
unfolding is_path
is_path-put_value weight o u i e = refl
is_path-put_value dscp_mask o u i e = refl

bare_value : (f : Field) (e : PathPolicy) → is_bare e ≡ true → value_of f e ≡ none
bare_value weight e h = ground arith
bare_value dscp_mask e h = ground arith

module _ (f : Field) (u i : String) (g : Field) (v j : String) where
  pub field_at-policy_set :
      (value : ℕ) (policy : List PathPolicy)
      → field_at g v j (policy_set policy u i f value)
        ≡ (if same_path f u i g v j then some value else field_at g v j policy)
  unfolding field_at policy_set
  field_at-policy_set value [] = ground (
    arith,
    is_path-put_value f (some value) v j (fresh u i),
    is_path-fresh u i v j,
    value_of-put_value f g (some value) (fresh u i),
    value_of-fresh g u i,
  )
  field_at-policy_set value (e ∷ policy) = ground (
    arith,
    field_at-policy_set value policy,
    is_path_same u i v j e,
    is_path-put_value f (some value) v j e,
    value_of-put_value f g (some value) e,
  )

  pub field_at-policy_clear :
      (policy : List PathPolicy)
      → HasDistinctPaths policy
      → field_at g v j (policy_clear policy u i f)
        ≡ (if same_path f u i g v j then none else field_at g v j policy)
  unfolding field_at policy_clear
  field_at-policy_clear [] d = ground arith
  field_at-policy_clear (e ∷ policy) (apart, d) = elim (Bool-cases (is_path u i e)) [
    | inl here ↦
        let alone = apart u i here in
        ground (
          arith,
          here,
          is_path_same u i v j e here,
          is_path-put_value f none v j e,
          value_of-put_value f g none e,
          bare_value g (put_value f none e),
          field_at-no_path g v j policy,
          alone,
        )
    | inr there ↦ ground (arith, there, is_path_same v j u i e, field_at-policy_clear policy d)
  ]
