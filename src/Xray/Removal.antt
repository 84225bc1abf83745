-- ===== src/Xray/Removal.antt =====
-- _xray_rpf_remove after _xray_rpf_set.
use openmptcprouter_vps.Exec.{ok, ok_inj}
use openmptcprouter_vps.Prelude.{
  Bool, Bool-cases, List, String, String_discrete, [], any, arith, false, filter, holds_self, inl,
  inr, not, refl, true, ℕ, ◌++◌, ◌∷◌, ◌≡◌,
}
use openmptcprouter_vps.Xray.Changes.{
  drop_client, has_tag, inbounds_of, is_taken, public_tag, rules_of, takes_tag, tunnel_inbound,
  with_listener, xray_rpf_remove, xray_rpf_set,
}
use openmptcprouter_vps.Xray.Data.{Inbound, XrayData}
use openmptcprouter_vps.Xray.Sockets.{rule_of, takes_own}

any-filter-not :
    {A : Type 0} (q : A → Bool) (l : List A) → any q (filter (λ x. not (q x)) l) ≡ false
unfolding any filter
any-filter-not q [] = refl
any-filter-not q (x ∷ l) = ground (arith, any-filter-not q l)

any_last :
    {A : Type 0} (q : A → Bool) (l : List A) (x : A) → q x ≡ true → any q (l ++ x ∷ []) ≡ true
unfolding any
any_last q [] x h = ground arith
any_last q (y ∷ l) x h = ground (arith, any_last q l x)

filter_out_last :
    {A : Type 0} (q : A → Bool) (l : List A) (x : A)
    → any q l ≡ false
    → q x ≡ true
    → filter (λ y. not (q y)) (filter (λ y. not (q y)) l ++ x ∷ []) ≡ l
unfolding filter any
filter_out_last q [] x h e = rw e refl
filter_out_last q (y ∷ l) x h e = ground (arith, filter_out_last q l x)

drop_client-has_tag :
    (username tag : String) (l : List Inbound)
    → any (has_tag tag) l ≡ false
    → any (has_tag tag) (drop_client username l) ≡ false
unfolding any drop_client has_tag
drop_client-has_tag username tag [] h = refl
drop_client-has_tag username tag (i ∷ l) h = ground (arith, drop_client-has_tag username tag l)

tunnel-has_tag :
    (username : String) (port : ℕ) (destip : String) (destport : ℕ)
    → has_tag (public_tag username port) (tunnel_inbound username port destip destport) ≡ true
unfolding has_tag tunnel_inbound
tunnel-has_tag username port destip destport =
    holds_self (String_discrete (public_tag username port) (public_tag username port))

-- On a configuration without a rule for the public port, a removal after a successful _xray_rpf_set finds
-- the port, gives back the routing rules that were there at first, and leaves no inbound with its tag.
pub xray_rpf_remove-set :
    (d : XrayData) {d' : XrayData} (username : String) (port : ℕ) (destip : String) (destport : ℕ)
    (client_uuid : String)
    → any (takes_tag (public_tag username port)) (rules_of d) ≡ false
    → xray_rpf_set d username port destip destport client_uuid ≡ ok d'
    → ((xray_rpf_remove d' username port).1 ≡ true)
      × (rules_of (xray_rpf_remove d' username port).0 ≡ rules_of d)
      × (any (has_tag (public_tag username port)) (inbounds_of (xray_rpf_remove d' username port).0)
          ≡ false)
unfolding xray_rpf_set xray_rpf_remove
xray_rpf_remove-set d username port destip destport client_uuid fresh_tag done =
    elim (Bool-cases (is_taken (public_tag username port) port (inbounds_of d))) [
      | inl taken ↦ absurd (ground (arith, done))
      | inr free ↦
          let tag = public_tag username port in
          let made = ok_inj (rw free at done) in
          let l =
            filter (λ i. not (has_tag tag i)) (with_listener username client_uuid (inbounds_of d))
            ++ tunnel_inbound username port destip destport ∷ [] in
          let gone = any-filter-not (has_tag tag) l in
          rw (← made) (
            any_last (has_tag tag) _ (tunnel_inbound username port destip destport)
                (tunnel-has_tag username port destip destport),
            filter_out_last (takes_tag tag) (rules_of d) (rule_of username port) fresh_tag
                (takes_own username port),
            ground (
              arith,
              gone,
              drop_client-has_tag username tag (filter (λ i. not (has_tag tag i)) l),
            ),
          )
    ]
