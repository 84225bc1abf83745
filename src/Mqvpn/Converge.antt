-- ===== src/Mqvpn/Converge.antt =====
-- The policy after a sync: what was asked for, and nothing else of that user and field.
use openmptcprouter_vps.Mqvpn.Policy.{
  Field, PathPolicy, is_bare, is_path, policy_clear, policy_set, put_value,
}
use openmptcprouter_vps.Mqvpn.Views.{
  HasDistinctPaths, fresh, has_path, is_path-fresh, is_path-put_value,
}
use openmptcprouter_vps.Prelude.{
  Bool-cases, List, String, [], arith, false, inl, inr, none, refl, some, sym, true, ℕ, ◌&&◌, ◌==◌,
  ◌∙◌, ◌∷◌, ◌≡◌,
}

has_path-policy_set :
    (u i : String) (f : Field) (value : ℕ) (v j : String) (policy : List PathPolicy)
    → has_path v j policy ≡ false
    → ((u == v) && (i == j)) ≡ false
    → has_path v j (policy_set policy u i f value) ≡ false
unfolding has_path policy_set
has_path-policy_set u i f value v j [] h ne =
    ground (arith, is_path-put_value f (some value) v j (fresh u i), is_path-fresh u i v j)
has_path-policy_set u i f value v j (e ∷ policy) h ne =
    ground
      (arith, is_path-put_value f (some value) v j e, has_path-policy_set u i f value v j policy)

has_path-policy_clear :
    (u i : String) (f : Field) (v j : String) (policy : List PathPolicy)
    → has_path v j policy ≡ false
    → has_path v j (policy_clear policy u i f) ≡ false
unfolding has_path policy_clear
has_path-policy_clear u i f v j [] h = refl
has_path-policy_clear u i f v j (e ∷ policy) h =
    ground (arith, is_path-put_value f none v j e, has_path-policy_clear u i f v j policy)

-- Entries of the given path and of another one.
other_path :
    (u i v j : String) (e : PathPolicy)
    → is_path u i e ≡ false
    → is_path v j e ≡ true
    → ((u == v) && (i == j)) ≡ false
unfolding is_path
other_path u i v j e not_here there = ground arith

pub policy_set-HasDistinctPaths :
    (u i : String) (f : Field) (value : ℕ) (policy : List PathPolicy)
    → HasDistinctPaths policy
    → HasDistinctPaths (policy_set policy u i f value)
unfolding policy_set has_path
policy_set-HasDistinctPaths u i f value [] d = (λ v j h. refl, tt)
policy_set-HasDistinctPaths u i f value (e ∷ policy) (apart, d) =
    elim (Bool-cases (is_path u i e)) [
      | inl here ↦
          rw here ((λ v j h. apart v j (sym (is_path-put_value f (some value) v j e) ∙ h)), d)
      | inr there ↦ rw there (
        (λ v j h.
            has_path-policy_set u i f value v j policy (apart v j h)
              (other_path u i v j e there h)),
        policy_set-HasDistinctPaths u i f value policy d,
      )
    ]

pub policy_clear-HasDistinctPaths :
    (u i : String) (f : Field) (policy : List PathPolicy)
    → HasDistinctPaths policy
    → HasDistinctPaths (policy_clear policy u i f)
unfolding policy_clear has_path
policy_clear-HasDistinctPaths u i f [] d = tt
policy_clear-HasDistinctPaths u i f (e ∷ policy) (apart, d) = elim (Bool-cases (is_path u i e)) [
  | inl here ↦ elim (Bool-cases (is_bare (put_value f none e))) [
    | inl bare ↦ rw (here, bare) d
    | inr full ↦
        rw (here, full) ((λ v j h. apart v j (sym (is_path-put_value f none v j e) ∙ h)), d)
  ]
  | inr there ↦ rw there (
    (λ v j h. has_path-policy_clear u i f v j policy (apart v j h)),
    policy_clear-HasDistinctPaths u i f policy d,
  )
]
