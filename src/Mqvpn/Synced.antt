-- ===== src/Mqvpn/Synced.antt =====
-- What a sync leaves for a user: exactly what was asked for.
use openmptcprouter_vps.Dict.{has_key, lookup}
use openmptcprouter_vps.Mqvpn.Converge.{policy_clear-HasDistinctPaths, policy_set-HasDistinctPaths}
use openmptcprouter_vps.Mqvpn.Policy.{
  Field, PathPolicy, dscp_mask, iface_with, ifaces_with, is_path, policy_clear, policy_set,
  same_field, value_of, weight,
}
use openmptcprouter_vps.Mqvpn.Sync.{clear_all, converged, set_all, stale_ifaces}
use openmptcprouter_vps.Mqvpn.Views.{
  HasDistinctPaths, field_at, field_at-policy_clear, field_at-policy_set,
}
use openmptcprouter_vps.Prelude.{
  Bool, Bool-cases, List, String, String_discrete, [], arith, contains, false, filter,
  if◌then◌else◌, inl, inr, is_some, none, not, refl, some, true, ℕ, ◌&&◌, ◌==◌, ◌∷◌, ◌≡◌,
}

-- A dict has each key once.
abbrev pub IsDict : List (String × ℕ) → Type 0
IsDict [] = Unit
IsDict ((key, value) ∷ rest) = (has_key key rest ≡ false) × IsDict rest

contains-filter :
    (q : String → Bool) (i : String) (l : List String)
    → contains String_discrete i (filter q l) ≡ (contains String_discrete i l && q i)
unfolding contains filter
contains-filter q i [] = refl
contains-filter q i (x ∷ l) = ground (arith, contains-filter q i l)

same_field_self : (f : Field) → same_field f f ≡ true
same_field_self weight = refl
same_field_self dscp_mask = refl

module _ (u : String) (f : Field) where
  clear_all-HasDistinctPaths :
      (ifaces : List String) (policy : List PathPolicy)
      → HasDistinctPaths policy
      → HasDistinctPaths (clear_all u f ifaces policy)
  unfolding clear_all
  clear_all-HasDistinctPaths [] policy d = d
  clear_all-HasDistinctPaths (i ∷ ifaces) policy d =
      clear_all-HasDistinctPaths ifaces (policy_clear policy u i f)
        (policy_clear-HasDistinctPaths u i f policy d)

  set_all-HasDistinctPaths :
      (desired : List (String × ℕ)) (policy : List PathPolicy)
      → HasDistinctPaths policy
      → HasDistinctPaths (set_all u f desired policy)
  unfolding set_all
  set_all-HasDistinctPaths [] policy d = d
  set_all-HasDistinctPaths ((i, x) ∷ desired) policy d =
      set_all-HasDistinctPaths desired (policy_set policy u i f x)
        (policy_set-HasDistinctPaths u i f x policy d)

  field_at-clear_all :
      (g : Field) (v j : String) (ifaces : List String) (policy : List PathPolicy)
      → HasDistinctPaths policy
      → field_at g v j (clear_all u f ifaces policy) ≡ (
          if same_field f g && (u == v) && contains String_discrete j ifaces
          then none
          else field_at g v j policy)
  unfolding clear_all contains
  field_at-clear_all g v j [] policy d = ground arith
  field_at-clear_all g v j (i ∷ ifaces) policy d = ground (
    arith,
    field_at-policy_clear f u i g v j policy d,
    field_at-clear_all g v j ifaces (policy_clear policy u i f)
        (policy_clear-HasDistinctPaths u i f policy d),
  )

  field_at-set_all :
      (g : Field) (v j : String) (desired : List (String × ℕ)) (policy : List PathPolicy)
      → IsDict desired
      → field_at g v j (set_all u f desired policy) ≡ (
          if same_field f g && (u == v) && has_key j desired
          then lookup j desired
          else field_at g v j policy)
  unfolding set_all lookup has_key
  field_at-set_all g v j [] policy d = ground arith
  field_at-set_all g v j ((i, x) ∷ desired) policy (new, d) = ground (
    arith,
    field_at-policy_set f u i g v j x policy,
    field_at-set_all g v j desired (policy_set policy u i f x) d,
  )

  iface_with-is_path :
      (i : String) (e : PathPolicy)
      → is_path u i e ≡ true
      → is_some (value_of f e) ≡ true
      → iface_with u f e ≡ some i
  unfolding is_path iface_with
  iface_with-is_path i e here present = ground arith

  -- An interface with the field is listed, whether the first entry has it or the rest.
  ifaces_with_complete :
      (i : String) (policy : List PathPolicy)
      → (i == "") ≡ false
      → is_some (field_at f u i policy) ≡ true
      → contains String_discrete i (ifaces_with policy u f) ≡ true
  unfolding ifaces_with field_at contains
  ifaces_with_complete i [] ne h = cc
  ifaces_with_complete i (e ∷ policy) ne h = elim (Bool-cases (is_path u i e)) [
    | inl here ↦ ground (arith, iface_with-is_path i e here (rw here at h))
    | inr there ↦ ground (arith, ifaces_with_complete i policy ne (rw there at h))
  ]

  -- The policy that a sync saves: still one entry a path, the desired values of the user's field, and
  -- every other value as before.
  pub converged-values :
      (desired : List (String × ℕ)) (policy : List PathPolicy)
      → IsDict desired
      → HasDistinctPaths policy
      → HasDistinctPaths (converged policy u f desired)
        × ((i : String)
            → (i == "") ≡ false
            → field_at f u i (converged policy u f desired) ≡ lookup i desired)
        × ((g : Field) (v j : String)
            → (same_field f g && (u == v)) ≡ false
            → field_at g v j (converged policy u f desired) ≡ field_at g v j policy)
  unfolding converged stale_ifaces has_key
  converged-values desired policy dict d =
      let stale = filter (λ i. not (has_key i desired)) (ifaces_with policy u f) in
      let cleared = clear_all u f stale policy in
      (
        set_all-HasDistinctPaths desired cleared (clear_all-HasDistinctPaths stale policy d),
        λ i ne. ground (
          arith,
          field_at-set_all f u i desired cleared dict,
          field_at-clear_all f u i stale policy d,
          contains-filter (λ i. not (has_key i desired)) i (ifaces_with policy u f),
          ifaces_with_complete i policy ne,
          same_field_self f,
        ),
        λ g v j other. ground (
          arith,
          field_at-set_all g v j desired cleared dict,
          field_at-clear_all g v j stale policy d,
        ),
      )
