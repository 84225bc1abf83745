-- ===== src/Proxies/Roundtrip.antt =====
-- xray_add_user and then xray_del_user.
use openmptcprouter_vps.Exec.{
  Exec, Result, Result-cases, continue, key_error, ok, ok_inj, pure, raised, ◌>>=◌,
}
use openmptcprouter_vps.Prelude.{
  Bool, List, String_discrete, ap, if◌then◌else◌, inl, inr, refl, some, some_inj, sym, true, ◌∙◌,
  ◌≡◌,
}
use openmptcprouter_vps.Proxies.Calls.{
  change_all, change_config-outcome, changed_data, on_inbounds-Acts, outcome_of, tell_adds-Acts,
  tell_replaces-Acts, with_calls,
}
use openmptcprouter_vps.Proxies.Data.{ApiCall, Proxy, ProxyData, holding}
use openmptcprouter_vps.Proxies.Removal.{all-back, bind-eq-ok, or_raise-eq-ok}
use openmptcprouter_vps.Proxies.Routes.{route_by, xray_add_user}
use openmptcprouter_vps.Proxies.Users.{
  Identity, append_user, if_installed, on_inbounds, remove_user_of, tell_adds, tell_replaces, visit,
  xray_del_user,
}
use openmptcprouter_vps.V2ray.Ports.{added, or_raise, removed}

holding_inj : {d e : ProxyData} {a b : Bool} → holding d a ≡ holding e b → d ≡ e
holding_inj h = cc

if_installed-run :
    (m : Exec Proxy Unit) (p : Proxy) → p.is_installed ≡ true → if_installed m p ≡ m p
unfolding if_installed ◌>>=◌
if_installed-run m p h = ap (λ b. (if b then m else pure tt) p) h

module _ (u : Identity) where
  abbrev without : ProxyData → Result ProxyData
  without d = changed_data true (λ s. remove_user_of s u.name) d

  abbrev with_user : ProxyData → Result ProxyData
  with_user d = changed_data true (λ s. append_user s u) d

  data-back :
      (d : ProxyData)
      → without d ≡ ok d
      → (d' : ProxyData) × (with_user d ≡ ok d') × (without d' ≡ ok d)
  unfolding changed_data
  data-back d h =
      let (l, hl, h1) = bind-eq-ok (or_raise key_error d.inbounds) _ h in
      let (k, hk, h2) = bind-eq-ok (change_all true (λ s. remove_user_of s u.name) l) _ h1 in
      let present = or_raise-eq-ok key_error d.inbounds hl in
      let same = some_inj (ap (λ e. e.inbounds) (ok_inj h2) ∙ present) in
      let (k', added, removed) = all-back u l (hk ∙ ap ok same) in
      (
        record d { inbounds = some k' },
        simp (present, added),
        simp removed (ap (λ o. ok (record d { inbounds = o })) (sym present)),
      )

  del_outcome :
      (d : ProxyData) (b : Bool) (p : Proxy)
      → p.is_installed ≡ true
      → p.file ≡ holding d b
      → (calls : List ApiCall) × (xray_del_user u.name p
          ≡ outcome_of (without d) (with_calls p calls))
  unfolding xray_del_user
  del_outcome d b p installed h =
      let (calls, q) =
        change_config-outcome
          (on_inbounds (visit true (λ s. remove_user_of s u.name) tell_replaces)) (without d) d b p
          (on_inbounds-Acts true (λ s. remove_user_of s u.name) _ tell_replaces-Acts d) h in
      (calls, if_installed-run _ p installed ∙ q)

  -- Nothing is routed for an empty address.
  unrouted :
      (r : Result ProxyData) (p : Proxy)
      → continue (outcome_of r p).0 (λ _. route_by u.name "") (outcome_of r p).1 ≡ outcome_of r p
  unfolding route_by String_discrete ◌>>=◌
  unrouted (ok d) p = refl
  unrouted (raised e) p = refl

  add_outcome :
      (d : ProxyData) (b : Bool) (p : Proxy)
      → p.is_installed ≡ true
      → p.file ≡ holding d b
      → (calls : List ApiCall) × (xray_add_user u "" p
          ≡ outcome_of (with_user d) (with_calls p calls))
  unfolding xray_add_user ◌>>=◌
  add_outcome d b p installed h =
      let (calls, q) =
        change_config-outcome (on_inbounds (visit true (λ s. append_user s u) tell_adds))
          (with_user d) d b p (on_inbounds-Acts true (λ s. append_user s u) _ tell_adds-Acts d) h in
      (
        calls,
        if_installed-run _ p installed
            ∙ ap (λ o. continue o.0 (λ _. route_by u.name "") o.1) q
            ∙ unrouted (with_user d) (with_calls p calls),
      )

  -- A removal that leaves the data as they are finds nobody of that name.
  without_nobody :
      (d : ProxyData) (b : Bool) (p : Proxy)
      → p.is_installed ≡ true
      → p.file ≡ holding d b
      → (xray_del_user u.name p).0 ≡ ok tt
      → (xray_del_user u.name p).1.file ≡ holding d true
      → without d ≡ ok d
  without_nobody d b p installed h returned same =
      let (calls, q) = del_outcome d b p installed h in
      elim (Result-cases (without d)) [
        | inl (e, r) ↦ cc (q, ap (λ x. outcome_of x (with_calls p calls)) r, returned)
        | inr (d1, r) ↦
            let out = q ∙ ap (λ x. outcome_of x (with_calls p calls)) r in
            r ∙ ap ok (holding_inj (sym (ap (λ o. o.1.file) out) ∙ same))
      ]

  -- If XRay is installed, its file holds data that xray_del_user leaves as they are, so that nobody has
  -- this name, and nothing is routed for the user: adding the user and then removing it raises nothing
  -- and gives the file's data back.
  pub xray_del_user-add_user :
      (d : ProxyData) (b : Bool) (p : Proxy)
      → p.is_installed ≡ true
      → p.file ≡ holding d b
      → (xray_del_user u.name p).0 ≡ ok tt
      → (xray_del_user u.name p).1.file ≡ holding d true
      → ((xray_add_user u "" p).0 ≡ ok tt)
        × ((xray_del_user u.name (xray_add_user u "" p).1).0 ≡ ok tt)
        × ((xray_del_user u.name (xray_add_user u "" p).1).1.file ≡ holding d true)
  xray_del_user-add_user d b p installed h returned same =
      let (d', added, removed) = data-back d (without_nobody d b p installed h returned same) in
      let (calls, q) = add_outcome d b p installed h in
      let out = q ∙ ap (λ x. outcome_of x (with_calls p calls)) added in
      let after = (xray_add_user u "" p).1 in
      let (more, q2) =
        del_outcome d' true after (ap (λ o. o.1.is_installed) out ∙ installed)
          (ap (λ o. o.1.file) out) in
      let out2 = q2 ∙ ap (λ x. outcome_of x (with_calls after more)) removed in
      (ap (λ o. o.0) out, ap (λ o. o.0) out2, ap (λ o. o.1.file) out2)
