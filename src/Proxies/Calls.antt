-- ===== src/Proxies/Calls.antt =====
-- What the functions for the users make of the file, without the calls of the running program.
use openmptcprouter_vps.Exec.{
  Exec, Result, bind, continue, key_error, lift, ok, pure, raised, require, ◌>>=◌, ◌>>◌,
}
use openmptcprouter_vps.Prelude.{
  Bool, List, Option, String, [], ap, false, none, refl, some, true, ◌∙◌, ◌∷◌, ◌≡◌,
}
use openmptcprouter_vps.Proxies.Data.{
  ApiCall, Proxy, ProxyData, ProxyInbound, adds, change_config, drops, holding, log_call,
  put_config, with_file,
}
use openmptcprouter_vps.Proxies.Users.{
  Slot, on_inbounds, slot_of, tell_adds, tell_replaces, visit, visit_all, visit_slot,
}
use openmptcprouter_vps.V2ray.Ports.{or_raise}

abbrev pub with_calls : Proxy → List ApiCall → Proxy
with_calls p calls = record p { calls = calls }

module _ (has_shadowsocks : Bool) (change : Slot → ProxyInbound → Result ProxyInbound) where
  unfoldable pub in_slot : Option Slot → ProxyInbound → Result ProxyInbound
  in_slot none i = ok i
  in_slot (some slot) i = change slot i

  unfoldable pub change_inbound : ProxyInbound → Result ProxyInbound
  change_inbound i =
      bind (or_raise key_error i.tag) (λ tag. in_slot (slot_of has_shadowsocks tag) i)

  unfoldable pub change_all : List ProxyInbound → Result (List ProxyInbound)
  change_all [] = ok []
  change_all (i ∷ rest) =
      bind (change_inbound i) (λ j. bind (change_all rest) (λ others. ok (j ∷ others)))

  unfoldable pub changed_data : ProxyData → Result ProxyData
  changed_data d =
      bind (or_raise key_error d.inbounds)
        (λ l. bind (change_all l) (λ k. ok (record d { inbounds = some k })))

-- The action calls the running program at most, and has the result `r`.
pub record Acts {A : Type 0} (m : Exec Proxy A) (r : Result A) : Type 0 where
  pub acts : (p : Proxy) → (calls : List ApiCall) × (m p ≡ (r, with_calls p calls))

module _ {A : Type 0} where
  Acts-pure : (a : A) → Acts (pure a) (ok a)
  unfolding ◌>>=◌
  Acts-pure a = record { acts = λ p. (p.calls, refl) }

  Acts-lift : (r : Result A) → Acts (lift r) r
  unfolding ◌>>=◌
  Acts-lift r = record { acts = λ p. (p.calls, refl) }

  Acts-require : (o : Option A) → Acts (require key_error o) (or_raise key_error o)
  unfolding ◌>>=◌
  Acts-require none = record { acts = λ p. (p.calls, refl) }
  Acts-require (some a) = record { acts = λ p. (p.calls, refl) }

module _ {A B : Type 0} where
  Acts-continue :
      (r : Result A) (f : A → Exec Proxy B) (g : A → Result B) (p : Proxy) (calls : List ApiCall)
      → ((a : A) → Acts (f a) (g a))
      → (after : List ApiCall) × (continue r f (with_calls p calls)
          ≡ (bind r g, with_calls p after))
  Acts-continue (ok a) f g p calls next = (next a).acts (with_calls p calls)
  Acts-continue (raised e) f g p calls next = (calls, refl)

  Acts-bind :
      {m : Exec Proxy A} {r : Result A} {f : A → Exec Proxy B} {g : A → Result B}
      → Acts m r
      → ((a : A) → Acts (f a) (g a))
      → Acts (m >>= f) (bind r g)
  unfolding ◌>>=◌
  Acts-bind {r = r} {f = f} {g = g} am next = record {
    acts = λ p.
        let (calls, h) = am.acts p in
        let (after, q) = Acts-continue r f g p calls next in
        (after, ap (λ o. continue o.0 f o.1) h ∙ q);
  }

pub tell_adds-Acts : (tag : String) (i : ProxyInbound) → Acts (tell_adds tag i) (ok tt)
unfolding tell_adds log_call ◌>>=◌
tell_adds-Acts tag i = record { acts = λ p. (adds i ∷ p.calls, refl) }

pub tell_replaces-Acts : (tag : String) (i : ProxyInbound) → Acts (tell_replaces tag i) (ok tt)
unfolding tell_replaces log_call ◌>>=◌
tell_replaces-Acts tag i = record { acts = λ p. (adds i ∷ drops tag ∷ p.calls, refl) }

module _ (has_shadowsocks : Bool) (change : Slot → ProxyInbound → Result ProxyInbound)
    (tell : String → ProxyInbound → Exec Proxy Unit)
    (tells : (tag : String) (i : ProxyInbound) → Acts (tell tag i) (ok tt)) where
  -- `bind r ok` is `r`.
  told_after :
      (tag : String) (r : Result ProxyInbound) → Acts (lift r >>= λ j. tell tag j >> pure j) r
  told_after tag (raised e) =
      Acts-bind {g = ok} (Acts-lift (raised e))
        (λ j. Acts-bind {g = λ _. ok j} (tells tag j) (λ _. Acts-pure j))
  told_after tag (ok j) =
      Acts-bind {g = ok} (Acts-lift (ok j))
        (λ k. Acts-bind {g = λ _. ok k} (tells tag k) (λ _. Acts-pure k))

  visit_slot-Acts :
      (tag : String) (i : ProxyInbound) (slot : Option Slot)
      → Acts (visit_slot change tell tag i slot) (in_slot has_shadowsocks change slot i)
  unfolding visit_slot in_slot
  visit_slot-Acts tag i none = Acts-pure i
  visit_slot-Acts tag i (some slot) = told_after tag (change slot i)

  visit-Acts :
      (i : ProxyInbound)
      → Acts (visit has_shadowsocks change tell i) (change_inbound has_shadowsocks change i)
  unfolding visit change_inbound
  visit-Acts i =
      Acts-bind (Acts-require i.tag) (λ tag. visit_slot-Acts tag i (slot_of has_shadowsocks tag))

  visit_all-Acts :
      (l : List ProxyInbound)
      → Acts (visit_all (visit has_shadowsocks change tell) l) (change_all has_shadowsocks change l)
  unfolding visit_all change_all
  visit_all-Acts [] = Acts-pure []
  visit_all-Acts (i ∷ rest) =
      Acts-bind (visit-Acts i)
        (λ j. Acts-bind (visit_all-Acts rest) (λ others. Acts-pure (j ∷ others)))

  pub on_inbounds-Acts :
      (d : ProxyData)
      → Acts
          (on_inbounds (visit has_shadowsocks change tell) d)
          (changed_data has_shadowsocks change d)
  unfolding on_inbounds changed_data
  on_inbounds-Acts d =
      Acts-bind (Acts-require d.inbounds) (λ l. Acts-bind (visit_all-Acts l) (λ k. Acts-pure _))

-- The outcome of a change of the file that is not followed by a restart.
abbrev pub outcome_of : Result ProxyData → Proxy → Result (Unit {0}) × Proxy
outcome_of (ok d) p = (ok tt, record p { file = holding d true })
outcome_of (raised e) p = (raised e, p)

put-outcome : (r : Result ProxyData) (p : Proxy) → continue r (put_config false) p ≡ outcome_of r p
unfolding put_config ◌>>=◌
put-outcome (ok d) p = refl
put-outcome (raised e) p = refl

-- Without a restart, a function on the file's data has the outcome of the pure one, but for the calls.
pub change_config-outcome :
    (change : ProxyData → Exec Proxy ProxyData) (r : Result ProxyData) (d : ProxyData) (b : Bool)
    (p : Proxy)
    → Acts (change d) r
    → p.file ≡ holding d b
    → (calls : List ApiCall) × (change_config change false p ≡ outcome_of r (with_calls p calls))
unfolding change_config with_file ◌>>=◌
change_config-outcome change r d b p act h =
    let (calls, q) = act.acts p in
    (
      calls,
      ap (λ f. with_file change false f p) h
          ∙ ap (λ o. continue o.0 (put_config false) o.1) q
          ∙ put-outcome r (with_calls p calls),
    )
