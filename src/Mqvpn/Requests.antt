-- ===== src/Mqvpn/Requests.antt =====
-- /mqvpn_weight and /mqvpn_dscp, whatever MQVPN answers on its socket.
use openmptcprouter_vps.Config.{get_or}
use openmptcprouter_vps.Dict.{has_key, insert, lookup, lookup-insert}
use openmptcprouter_vps.Exec.{ok, ◌>>=◌}
use openmptcprouter_vps.Host.Reply.{User}
use openmptcprouter_vps.Mqvpn.Masks.{MqvpnDscpPin, desired_masks, mask_of, mqvpn_dscp}
use openmptcprouter_vps.Mqvpn.Policy.{Field, PathPolicy, dscp_mask, same_field, weight}
use openmptcprouter_vps.Mqvpn.Sync.{
  MqvpnApi, MqvpnState, MqvpnWeightPin, PathCall, Policy_discrete, converged, desired_path_weights,
  in_word, is_iface, mqvpn_weight, policy_in, push_all, save_policy, stale_ifaces, sync_paths,
  warning_of,
}
use openmptcprouter_vps.Mqvpn.Synced.{IsDict, converged-values}
use openmptcprouter_vps.Mqvpn.Views.{HasDistinctPaths, field_at}
use openmptcprouter_vps.Prelude.{
  Bool-cases, List, Option-cases, String, [], ap, arith, false, holds, inl, inr, is_some, map, none,
  of_holds, refl, some, some_inj, subst, true, ℕ, ◌&&◌, ◌++◌, ◌==◌, ◌∙◌, ◌∷◌, ◌≡◌, ◌≢◌,
}

-- Requests on the socket raise nothing and leave the file alone.
push_all-runs :
    (api : MqvpnApi) (f : Field) (u : String) (paths : List (String × ℕ)) (w : MqvpnState)
    → (warnings : List String) × (after : MqvpnState) × (push_all api f u paths w
        ≡ (ok warnings, after))
      × (after.server ≡ w.server)
unfolding push_all ◌>>=◌
push_all-runs api f u [] w = ([], w, refl, refl)
push_all-runs api f u ((i, x) ∷ paths) w =
    let call : PathCall = record { field = f; user = u; iface = i; value = x } in
    let (warnings, after, runs, same) =
      push_all-runs api f u paths (record w { calls = call ∷ w.calls }) in
    (warning_of i (api w.calls call) ++ warnings, after, rw runs refl, same)

save_policy-policy_in :
    (before after : List PathPolicy) (w : MqvpnState)
    → policy_in w ≡ before
    → policy_in (save_policy before after w) ≡ after
unfolding save_policy
save_policy-policy_in before after w h = elim (Bool-cases (holds (Policy_discrete before after))) [
  | inl same ↦ rw same (h ∙ of_holds (Policy_discrete before after) same)
  | inr new ↦ rw new refl
]

-- Pushing to the socket leaves the file alone, so a sync saves the converged policy.
sync_paths-policy_in :
    (api : MqvpnApi) (f : Field) (u : String) (desired : List (String × ℕ)) (w : MqvpnState)
    → policy_in (sync_paths api f u desired w).1 ≡ converged (policy_in w) u f desired
unfolding sync_paths ◌>>=◌
sync_paths-policy_in api f u desired w =
    let policy = policy_in w in
    let cleared = map (λ iface. (iface, 0)) (stale_ifaces policy u f desired) in
    let (warnings, w1, runs, same) = push_all-runs api f u cleared w in
    let (warnings', w2, runs', same') = push_all-runs api f u desired w1 in
    let saved =
      save_policy-policy_in policy (converged policy u f desired) w2
        (ap (λ s. get_or (get_or s none) []) (same' ∙ same)) in
    rw (runs, runs') saved

insert-IsDict : (i : String) (x : ℕ) (l : List (String × ℕ)) → IsDict l → IsDict (insert i x l)
unfolding insert has_key
insert-IsDict i x [] d = (refl, tt)
insert-IsDict i x ((j, y) ∷ l) (new, d) = elim (Bool-cases (j == i)) [
  | inl same ↦ rw same (new, d)
  | inr other ↦ rw other (ground (arith, lookup-insert i j x l), insert-IsDict i x l d)
]

desired_path_weights-IsDict :
    (pins : List MqvpnWeightPin) (m : List (String × ℕ)) {desired : List (String × ℕ)}
    → IsDict m
    → desired_path_weights pins m ≡ some desired
    → IsDict desired
unfolding desired_path_weights
desired_path_weights-IsDict [] m d h = subst IsDict (some_inj h) d
desired_path_weights-IsDict (pin ∷ pins) m d h = elim (Bool-cases (is_iface pin.iface)) [
  | inl good ↦ elim (Option-cases (in_word pin.weight_value)) [
    | inl bad ↦ absurd (ground arith)
    | inr (x, fits) ↦
        desired_path_weights-IsDict pins (insert pin.iface x m) (insert-IsDict pin.iface x m d)
          (rw (good, fits) at h)
  ]
  | inr bad ↦ absurd (ground arith)
]

desired_masks-IsDict :
    (pins : List MqvpnDscpPin) (m : List (String × ℕ)) {desired : List (String × ℕ)}
    → IsDict m
    → desired_masks pins m ≡ some desired
    → IsDict desired
unfolding desired_masks
desired_masks-IsDict [] m d h = subst IsDict (some_inj h) d
desired_masks-IsDict (pin ∷ pins) m d h = elim (Bool-cases (is_iface pin.iface)) [
  | inl good ↦ elim (Option-cases (mask_of pin.dscp 0)) [
    | inl bad ↦ absurd (ground arith)
    | inr (x, known) ↦
        desired_masks-IsDict pins (insert pin.iface x m) (insert-IsDict pin.iface x m d)
          (rw (good, known) at h)
  ]
  | inr bad ↦ absurd (ground arith)
]

-- The user's values of a field are the desired ones, every other value is the old one, and a path still
-- has one entry.
abbrev pub IsSynced :
    Field → String → List (String × ℕ) → List PathPolicy → List PathPolicy → Type 0
IsSynced f u desired before after =
    HasDistinctPaths after
    × ((i : String) → (i == "") ≡ false → field_at f u i after ≡ lookup i desired)
    × ((g : Field) (v j : String)
        → (same_field f g && (u == v)) ≡ false
        → field_at g v j after ≡ field_at g v j before)

module _ (api : MqvpnApi) (user : User) (w : MqvpnState) (may : user.permissions ≢ "ro")
    (installed : is_some w.server ≡ true) (distinct : HasDistinctPaths (policy_in w)) where
  -- For a user who may write, an installed server whose policy has one entry a path at most, and pins
  -- that all validate: after /mqvpn_weight the user's interfaces have exactly the weights of the
  -- request, weights that it leaves out are gone, and DSCP masks and other users' values are as before.
  pub mqvpn_weight-IsSynced :
      (pins : List MqvpnWeightPin) {desired : List (String × ℕ)}
      → desired_path_weights pins [] ≡ some desired
      → IsSynced weight user.username desired
          (policy_in w)
          (policy_in (mqvpn_weight api user pins w).1)
  unfolding mqvpn_weight ◌>>=◌
  mqvpn_weight-IsSynced pins {desired} accepted =
      let same : (mqvpn_weight api user pins w).1
          ≡ (sync_paths api weight user.username desired w).1 =
        ground (arith, accepted) in
      rw (same, sync_paths-policy_in api weight user.username desired w)
        (converged-values user.username weight desired (policy_in w)
          (desired_path_weights-IsDict pins [] tt accepted) distinct)

  -- For a user who may write, an installed server whose policy has one entry a path at most, and pins
  -- that all validate: after /mqvpn_dscp the user's interfaces have exactly the masks that desired_masks
  -- gives, other masks of the user are gone, and weights and other users' values are as before.
  pub mqvpn_dscp-IsSynced :
      (pins : List MqvpnDscpPin) {desired : List (String × ℕ)}
      → desired_masks pins [] ≡ some desired
      → IsSynced dscp_mask user.username desired
          (policy_in w)
          (policy_in (mqvpn_dscp api user pins w).1)
  unfolding mqvpn_dscp ◌>>=◌
  mqvpn_dscp-IsSynced pins {desired} accepted =
      let same : (mqvpn_dscp api user pins w).1
          ≡ (sync_paths api dscp_mask user.username desired w).1 =
        ground (arith, accepted) in
      rw (same, sync_paths-policy_in api dscp_mask user.username desired w)
        (converged-values user.username dscp_mask desired (policy_in w)
          (desired_masks-IsDict pins [] tt accepted) distinct)
