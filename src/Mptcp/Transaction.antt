-- ===== src/Mptcp/Transaction.antt =====
-- The transaction as a whole: it returns with everything done, or it raises an error that it catches, with
-- the old values of all that it began.
use openmptcprouter_vps.Dict.{keys, lookup}
use openmptcprouter_vps.Exec.{ok, os_error, pure, raised, ◌>>=◌, ◌>>◌}
use openmptcprouter_vps.Exec.Ends.{
  Ends, Ends-bind, Ends-gets, Ends-lift, Ends-lift_raised, Ends-pure, Ends-weaken, returns,
}
use openmptcprouter_vps.Mptcp.Apply.{
  Attempt, all_values, apply_all, attempt, decoded, new_conf, read_all, started,
  write_aggressiveness, write_conf,
}
use openmptcprouter_vps.Mptcp.Applying.{InForce, IsDistinct}
use openmptcprouter_vps.Mptcp.Files.{SameSettings, write_conf-Ends, write_nanbbr-Ends}
use openmptcprouter_vps.Mptcp.Kernel.{ConfFile, Kernel, Settings, conf_text, no_conf, undecodable}
use openmptcprouter_vps.Mptcp.Reading.{Grows, read_files-Ends, read_old-Ends}
use openmptcprouter_vps.Mptcp.Request.{nanbbr_config_content}
use openmptcprouter_vps.Mptcp.Restoring.{HasOlds}
use openmptcprouter_vps.Mptcp.Runs.{all_settings, apply_all-Ends}
use openmptcprouter_vps.Mptcp.Tracking.{Fresh, HasFiles, Tracked, Tracked-of_Fresh, started-Fresh}
use openmptcprouter_vps.Prelude.{
  List, Option, String, [], ap, inl, inr, none, refl, some, sym, ℕ, ◌∙◌, ◌∷◌, ◌≡◌, ◌⊎◌,
}

-- Everything is read.
pub record IsRead (s : Settings) (ks parameters : List String) (a : Attempt) : Type 0 where
  pub fresh : Fresh s a
  pub files : HasFiles s a
  pub has_keys : HasOlds ks a.old_values
  pub has_parameters : HasOlds parameters a.old_values

HasOlds-Grows :
    (ks : List String) (a b : Attempt)
    → Grows a b
    → HasOlds ks a.old_values
    → HasOlds ks b.old_values
HasOlds-Grows [] a b g h = tt
HasOlds-Grows (k ∷ ks) a b g h = (g k h.0, HasOlds-Grows ks a b g h.1)

module _ (kernel : Kernel) (s : Settings) where
  pub read_all-Ends :
      (ks parameters : List String)
      → Ends
          (λ _ b. IsRead s ks parameters b)
          (Tracked s)
          (read_all kernel ks parameters (started s))
  unfolding read_all
  read_all-Ends ks parameters =
      Ends-bind _ _ _ (read_files-Ends kernel s (started s) (started-Fresh s)) (λ _ a p.
        Ends-bind _ _ _ (read_old-Ends kernel s ks a p.0 p.1) (λ _ b q.
          Ends-weaken _ (read_old-Ends kernel s parameters b q.0 q.1) (λ _ c r. record {
            fresh = r.0;
            files = r.1;
            has_keys = HasOlds-Grows ks b c r.3 q.2;
            has_parameters = r.2;
          })))

-- What a transaction that returns has done, from `s` to `h`: `old` and `new` are the texts of the file.
pub record Carried (values : List (String × String)) (control : String) (aggressiveness : Option ℕ)
    (parameters : List String) (s : Settings) (old new : String) (h : Settings) : Type 0 where
  pub was : s.conf ≡ conf_text old
  pub is_new : new ≡ new_conf old (all_values values control)
  pub conf : h.conf ≡ conf_text new
  pub nanbbr :
      h.nanbbr_conf
      ≡ elim aggressiveness [ none ↦ s.nanbbr_conf | some n ↦ some (nanbbr_config_content n) ]
  pub in_force :
      IsDistinct (keys (all_settings values control aggressiveness parameters))
      → InForce (all_settings values control aggressiveness parameters) h

pub InForce-same :
    (xs : List (String × String)) (h k : Settings)
    → k.values ≡ h.values
    → InForce xs h
    → InForce xs k
InForce-same [] h k e f = tt
InForce-same (x ∷ xs) h k e f = (ap (lookup x.0) e ∙ f.0, InForce-same xs h k e f.1)

decoded_cases :
    (c : ConfFile)
    → ((old : String) × (c ≡ conf_text old) × (decoded c ≡ ok old)) ⊎ (decoded c ≡ raised os_error)
unfolding decoded
decoded_cases no_conf = inr refl
decoded_cases undecodable = inr refl
decoded_cases (conf_text old) = inl (old, refl, refl)

module _ (kernel : Kernel) (s : Settings) where
  write_aggressiveness-Ends :
      (aggressiveness : Option ℕ) (a : Attempt)
      → Tracked s a
      → a.old_nanbbr ≡ s.nanbbr_conf
      → a.settings.nanbbr_conf ≡ s.nanbbr_conf
      → Ends
          (λ _ b.
            Tracked s b
            × SameSettings a b
            × (b.settings.conf ≡ a.settings.conf)
            × (b.settings.nanbbr_conf ≡ elim aggressiveness [
              | none ↦ s.nanbbr_conf
              | some n ↦ some (nanbbr_config_content n)
            ]))
          (Tracked s)
          (write_aggressiveness kernel aggressiveness a)
  unfolding write_aggressiveness ◌>>=◌
  write_aggressiveness-Ends none a t o was =
      returns tt a (t, record { values = refl; old_conf = refl }, refl, was)
  write_aggressiveness-Ends (some n) a t o was =
      Ends-weaken _ (write_nanbbr-Ends kernel s (nanbbr_config_content n) a t o was)
        (λ _ b p. (p.0, p.1, p.3, p.2))

  -- From the point where the file's text is known.
  carry-Ends :
      (values : List (String × String)) (control : String) (aggressiveness : Option ℕ)
      (parameters : List String) (old : String) (a : Attempt)
      → IsRead s (keys (all_values values control)) parameters a
      → s.conf ≡ conf_text old
      → Ends {A = String × String}
          (λ r b. Carried values control aggressiveness parameters s r.0 r.1 b.settings)
          (Tracked s)
          ((do
            apply_all kernel values control aggressiveness parameters
            write_aggressiveness kernel aggressiveness
            write_conf kernel old (new_conf old (all_values values control))
            pure (old, new_conf old (all_values values control)))
            a)
  carry-Ends values control aggressiveness parameters old a r was =
      let f = r.fresh in
      Ends-bind _ _ _
        (apply_all-Ends kernel s values control aggressiveness parameters a (Tracked-of_Fresh f)
          r.has_keys r.has_parameters)
        (λ _ b p.
          Ends-bind _ _ _
            (write_aggressiveness-Ends aggressiveness b p.0 (p.1.old_nanbbr ∙ r.files.old_nanbbr)
              (p.1.nanbbr_conf ∙ f.nanbbr_conf))
            (λ _ c q.
              Ends-bind _ _ _
                (write_conf-Ends kernel s old (new_conf old (all_values values control)) c q.0
                  (q.1.old_conf ∙ p.1.old_conf ∙ r.files.old_conf) (q.2 ∙ p.1.conf ∙ f.conf ∙ was))
                (λ _ e w. Ends-pure _ e (record {
                  was = was;
                  is_new = refl;
                  conf = w.2;
                  nanbbr = w.3 ∙ q.3;
                  in_force = λ distinct.
                      InForce-same (all_settings values control aggressiveness parameters)
                        b.settings e.settings (w.1.values ∙ q.1.values) (p.1.in_force distinct);
                }))))

  pub attempt-Ends :
      (values : List (String × String)) (control : String) (aggressiveness : Option ℕ)
      (parameters : List String)
      → Ends {A = String × String}
          (λ r b. Carried values control aggressiveness parameters s r.0 r.1 b.settings)
          (Tracked s)
          (attempt kernel values control aggressiveness parameters (started s))
  unfolding attempt
  attempt-Ends values control aggressiveness parameters =
      Ends-bind _ _ _ (read_all-Ends kernel s (keys (all_values values control)) parameters)
        (λ _ a r.
          Ends-bind {P = λ bytes b. (bytes ≡ a.old_conf) × (b ≡ a)} _ _ _
            (Ends-gets _ a (refl, refl))
            (λ bytes b p.
              rw (p.0, p.1)
                (elim (decoded_cases a.old_conf) [
                  | inr broken ↦
                      Ends-bind {P = λ old c. ⊥} _ _ _
                        (Ends-lift_raised _ a broken (Tracked-of_Fresh r.fresh))
                        (λ old c q. absurd q)
                  | inl (old, is_text, e) ↦
                      Ends-bind {P = λ x c. (x ≡ old) × (c ≡ a)} _ _ _
                        (Ends-lift _ a old e (refl, refl))
                        (λ x c q.
                          rw (q.0, q.1)
                            (carry-Ends values control aggressiveness parameters old a r
                              (sym r.files.old_conf ∙ is_text)))
                ])))
