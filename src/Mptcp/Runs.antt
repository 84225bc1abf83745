-- ===== src/Mptcp/Runs.antt =====
-- Runs over several lists of settings, and what the whole of them leaves in force.
use openmptcprouter_vps.Dict.{keys}
use openmptcprouter_vps.Exec.{◌>>=◌}
use openmptcprouter_vps.Exec.Ends.{Ends, Ends-bind, Ends-weaken, returns}
use openmptcprouter_vps.Mptcp.Apply.{Attempt, all_values, apply_aggressiveness, apply_all}
use openmptcprouter_vps.Mptcp.Applying.{
  Applied, InForce, IsDistinct, Applied-nil, apply_parameters-Ends, apply_sysctls-Ends,
}
use openmptcprouter_vps.Mptcp.Kernel.{Kernel, Settings}
use openmptcprouter_vps.Mptcp.Names.{is_in}
use openmptcprouter_vps.Mptcp.Request.{cc_key}
use openmptcprouter_vps.Mptcp.Restoring.{HasOlds}
use openmptcprouter_vps.Mptcp.Tracking.{Tracked}
use openmptcprouter_vps.Prelude.{
  List, Option, String, [], arith, contains, false, map, none, refl, some, str, ℕ, ◌++◌, ◌∙◌, ◌∷◌,
  ◌≡◌,
}

-- What the aggressiveness sets.
abbrev pub parameter_values : Option ℕ → List String → List (String × String)
parameter_values none parameters = []
parameter_values (some n) parameters = map (λ key. (key, str n)) parameters

-- All that the transaction sets, in order.
abbrev pub all_settings :
    List (String × String) → String → Option ℕ → List String → List (String × String)
all_settings values control aggressiveness parameters =
    values ++ (parameter_values aggressiveness parameters ++ (cc_key, control) ∷ [])

absent_right :
    (key : String) (xs ys : List (String × String))
    → is_in key (keys (xs ++ ys)) ≡ false
    → is_in key (keys ys) ≡ false
unfolding contains
absent_right key [] ys h = h
absent_right key (x ∷ xs) ys h = ground (arith, h, absent_right key xs ys)

absent_left :
    (key : String) (xs ys : List (String × String))
    → is_in key (keys (xs ++ ys)) ≡ false
    → is_in key (keys xs) ≡ false
unfolding contains
absent_left key [] ys h = refl
absent_left key (x ∷ xs) ys h = ground (arith, h, absent_left key xs ys)

IsDistinct-right :
    (xs ys : List (String × String)) → IsDistinct (keys (xs ++ ys)) → IsDistinct (keys ys)
IsDistinct-right [] ys h = h
IsDistinct-right (x ∷ xs) ys h = IsDistinct-right xs ys h.1

IsDistinct-left :
    (xs ys : List (String × String)) → IsDistinct (keys (xs ++ ys)) → IsDistinct (keys xs)
IsDistinct-left [] ys h = tt
IsDistinct-left (x ∷ xs) ys h = (absent_left x.0 xs ys h.0, IsDistinct-left xs ys h.1)

-- A later run over other keys leaves the values in force.
InForce-later :
    (xs ys : List (String × String)) {b c : Attempt}
    → IsDistinct (keys (xs ++ ys))
    → Applied ys b c
    → InForce xs b.settings
    → InForce xs c.settings
InForce-later [] ys h p f = tt
InForce-later (x ∷ xs) ys h p f =
    (p.others x.0 (absent_right x.0 xs ys h.0) ∙ f.0, InForce-later xs ys h.1 p f.1)

InForce-append :
    (xs ys : List (String × String)) (s : Settings)
    → InForce xs s
    → InForce ys s
    → InForce (xs ++ ys) s
InForce-append [] ys s f g = g
InForce-append (x ∷ xs) ys s f g = (f.0, InForce-append xs ys s f.1 g)

Applied-append :
    (xs ys : List (String × String)) {a b c : Attempt}
    → Applied xs a b
    → Applied ys b c
    → Applied (xs ++ ys) a c
Applied-append xs ys {a} {b} {c} p q = record {
  old_values = q.old_values ∙ p.old_values;
  others = λ other h.
      q.others other (absent_right other xs ys h) ∙ p.others other (absent_left other xs ys h);
  in_force = λ d.
      InForce-append xs ys c.settings
        (InForce-later xs ys d q (p.in_force (IsDistinct-left xs ys d)))
        (q.in_force (IsDistinct-right xs ys d));
  conf = q.conf ∙ p.conf;
  nanbbr_conf = q.nanbbr_conf ∙ p.nanbbr_conf;
  old_conf = q.old_conf ∙ p.old_conf;
  old_nanbbr = q.old_nanbbr ∙ p.old_nanbbr;
}

pub HasOlds-left :
    (xs ys : List (String × String)) (olds : List (String × String))
    → HasOlds (keys (xs ++ ys)) olds
    → HasOlds (keys xs) olds
HasOlds-left [] ys olds h = tt
HasOlds-left (x ∷ xs) ys olds h = (h.0, HasOlds-left xs ys olds h.1)

pub HasOlds-right :
    (xs ys : List (String × String)) (olds : List (String × String))
    → HasOlds (keys (xs ++ ys)) olds
    → HasOlds (keys ys) olds
HasOlds-right [] ys olds h = h
HasOlds-right (x ∷ xs) ys olds h = HasOlds-right xs ys olds h.1

module _ (kernel : Kernel) (s : Settings) where
  apply_aggressiveness-Ends :
      (aggressiveness : Option ℕ) (parameters : List String) (a : Attempt)
      → Tracked s a
      → HasOlds parameters a.old_values
      → Ends
          (λ _ b. Tracked s b × Applied (parameter_values aggressiveness parameters) a b)
          (Tracked s)
          (apply_aggressiveness kernel aggressiveness parameters a)
  unfolding apply_aggressiveness ◌>>=◌
  apply_aggressiveness-Ends none parameters a t h = returns tt a (t, Applied-nil a)
  apply_aggressiveness-Ends (some n) parameters a t h =
      apply_parameters-Ends kernel s (str n) parameters a t h

  pub apply_all-Ends :
      (values : List (String × String)) (control : String) (aggressiveness : Option ℕ)
      (parameters : List String) (a : Attempt)
      → Tracked s a
      → HasOlds (keys (all_values values control)) a.old_values
      → HasOlds parameters a.old_values
      → Ends
          (λ _ b. Tracked s b × Applied (all_settings values control aggressiveness parameters) a b)
          (Tracked s)
          (apply_all kernel values control aggressiveness parameters a)
  unfolding apply_all
  apply_all-Ends values control aggressiveness parameters a t h g =
      let last = (cc_key, control) ∷ [] in
      Ends-bind _ _ _ (apply_sysctls-Ends kernel s values a t (HasOlds-left values last _ h))
        (λ _ b p.
          Ends-bind _ _ _
            (apply_aggressiveness-Ends aggressiveness parameters b p.0 (rw p.1.old_values g))
            (λ _ c q.
              Ends-weaken _
                (apply_sysctls-Ends kernel s last c q.0
                  (rw (q.1.old_values, p.1.old_values) (HasOlds-right values last _ h)))
                (λ _ e r. (
                  r.0,
                  Applied-append values _ p.1
                      (Applied-append (parameter_values aggressiveness parameters) last q.1 r.1),
                ))))
