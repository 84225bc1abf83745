-- ===== src/Xray/Sockets.antt =====
-- One socket for each public port.
use openmptcprouter_vps.Exec.{ok, ok_inj}
use openmptcprouter_vps.Prelude.{
  Bool, Bool-cases, List, String, String_discrete, [], any, arith, contains, false, filter,
  holds_self, inl, inr, not, refl, some, true, ℕ, ◌++◌, ◌==ℕ◌, ◌∷◌, ◌≡◌, ◌≤◌,
}
use openmptcprouter_vps.Xray.Changes.{
  has_port, has_tag, inbounds_of, is_taken, no_inbound, public_tag, reverse_tag, rpf_listener,
  rpf_port, rules_of, takes_tag, tunnel_inbound, updated_listener, with_listener, xray_rpf_set,
}
use openmptcprouter_vps.Xray.Data.{Inbound, Rule, XrayData}

-- Behind a list without a match, one element that matches is the only one.
filter_last :
    {A : Type 0} (q : A → Bool) (l : List A) (x : A)
    → filter q l ≡ []
    → q x ≡ true
    → filter q (l ++ x ∷ []) ≡ x ∷ []
unfolding filter
filter_last q [] x h e = rw e refl
filter_last q (y ∷ l) x h e = ground (arith, filter_last q l x)

module _ (username : String) (port : ℕ) where
  -- The inbounds that are kept, with the given port.
  abbrev kept_at : List Inbound → List Inbound
  kept_at l = filter (has_port port) (filter (λ i. not (has_tag (public_tag username port) i)) l)

  not_taken-kept_at :
      (l : List Inbound) → is_taken (public_tag username port) port l ≡ false → kept_at l ≡ []
  unfolding is_taken any filter
  not_taken-kept_at [] h = refl
  not_taken-kept_at (i ∷ l) h = ground (arith, not_taken-kept_at l)

  updated_listener-has_port :
      (client_uuid : String) (i : Inbound)
      → has_port port (updated_listener username client_uuid i) ≡ (rpf_port ==ℕ port)
  unfolding has_port updated_listener
  updated_listener-has_port client_uuid i = refl

  with_listener-kept_at :
      (client_uuid : String) (l : List Inbound)
      → port ≤ 64999
      → kept_at l ≡ []
      → kept_at (with_listener username client_uuid l) ≡ []
  unfolding with_listener filter
  with_listener-kept_at client_uuid [] small h =
      ground (
        arith,
        updated_listener-has_port client_uuid (record no_inbound { tag = some rpf_listener }),
      )
  with_listener-kept_at client_uuid (i ∷ l) small h =
      ground
        (arith, updated_listener-has_port client_uuid i, with_listener-kept_at client_uuid l small)

  tunnel-has_port :
      (destip : String) (destport : ℕ)
      → has_port port (tunnel_inbound username port destip destport) ≡ true
  unfolding has_port tunnel_inbound
  tunnel-has_port destip destport = ground arith

  -- The rule of a public port.
  abbrev pub rule_of : Rule
  rule_of = record {
    inbound_tag = public_tag username port ∷ [];
    outbound_tag = some (reverse_tag username);
  }

  pub takes_own : takes_tag (public_tag username port) rule_of ≡ true
  unfolding takes_tag contains
  takes_own =
      ground
        (arith, holds_self (String_discrete (public_tag username port) (public_tag username port)))

  takes_filter :
      (l : List Rule)
      → filter
          (takes_tag (public_tag username port))
          (filter (λ r. not (takes_tag (public_tag username port) r)) l)
        ≡ []
  unfolding filter
  takes_filter [] = refl
  takes_filter (r ∷ l) = ground (arith, takes_filter l)

  -- If _xray_rpf_set succeeds for a public port up to 64999, exactly one inbound has that port, the new
  -- tunnel to the given target, and exactly one rule takes its traffic, to the user's reverse entry.
  pub xray_rpf_set_sockets :
      (d : XrayData) {d' : XrayData} (destip : String) (destport : ℕ) (client_uuid : String)
      → port ≤ 64999
      → xray_rpf_set d username port destip destport client_uuid ≡ ok d'
      → (filter (has_port port) (inbounds_of d')
          ≡ tunnel_inbound username port destip destport ∷ [])
        × (filter (takes_tag (public_tag username port)) (rules_of d')
            ≡ record {
              inbound_tag = public_tag username port ∷ [];
              outbound_tag = some (reverse_tag username);
            }
              ∷ [])
  unfolding xray_rpf_set filter
  xray_rpf_set_sockets d destip destport client_uuid small done =
      elim (Bool-cases (is_taken (public_tag username port) port (inbounds_of d))) [
        | inl taken ↦ absurd (ground (arith, done))
        | inr free ↦
            let kept =
              with_listener-kept_at client_uuid (inbounds_of d) small
                (not_taken-kept_at (inbounds_of d) free) in
            let made = ok_inj (rw free at done) in
            rw (← made) (
              filter_last (has_port port) _ (tunnel_inbound username port destip destport) kept
                  (tunnel-has_port destip destport),
              filter_last (takes_tag (public_tag username port)) _ rule_of
                  (takes_filter (rules_of d)) takes_own,
            )
      ]
