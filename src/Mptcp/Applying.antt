-- ===== src/Mptcp/Applying.antt =====
-- The second part of the transaction writes the settings, one after the other.
use openmptcprouter_vps.Dict.{keys, lookup}
use openmptcprouter_vps.Exec.{Result, ◌>>=◌}
use openmptcprouter_vps.Exec.Ends.{Ends, Ends-weaken, raises, returns}
use openmptcprouter_vps.Mptcp.Apply.{Attempt, apply_parameters, apply_sysctls, on_host}
use openmptcprouter_vps.Mptcp.Changes.{Changed, change_setting-Changed}
use openmptcprouter_vps.Mptcp.Kernel.{Kernel, Settings, change_setting}
use openmptcprouter_vps.Mptcp.Names.{is_in}
use openmptcprouter_vps.Mptcp.Restoring.{HasOlds}
use openmptcprouter_vps.Mptcp.Tracking.{Tracked}
use openmptcprouter_vps.Prelude.{
  All, Bool-cases, List, String, String_discrete, [], arith, contains, false, inl, inr, is_some,
  map, of_holds, refl, some, true, ◌==◌, ◌||◌, ◌∙◌, ◌∷◌, ◌≡◌,
}

-- An action that begins a setting notes it first.
begun_sysctl-Tracked :
    {s : Settings} {a : Attempt} (key : String)
    → Tracked s a
    → is_some (lookup key a.old_values) ≡ true
    → Tracked s (record a { applied_sysctls = key ∷ a.applied_sysctls })
unfolding contains
begun_sysctl-Tracked {s} {a} key t h = record {
  unbegun = λ other p q. t.unbegun other (ground (arith, p)) q;
  olds = t.olds;
  has_sysctls = (h, t.has_sysctls);
  has_parameters = t.has_parameters;
  conf = t.conf;
  nanbbr_conf = t.nanbbr_conf;
}

begun_parameter-Tracked :
    {s : Settings} {a : Attempt} (key : String)
    → Tracked s a
    → is_some (lookup key a.old_values) ≡ true
    → Tracked s (record a { applied_parameters = key ∷ a.applied_parameters })
unfolding contains
begun_parameter-Tracked {s} {a} key t h = record {
  unbegun = λ other p q. t.unbegun other p (ground (arith, q));
  olds = t.olds;
  has_sysctls = t.has_sysctls;
  has_parameters = (h, t.has_parameters);
  conf = t.conf;
  nanbbr_conf = t.nanbbr_conf;
}

-- A change of a setting that is noted.
Changed-Tracked :
    {s : Settings} {a : Attempt} {key value : String} {out : Result (Unit {0}) × Settings}
    → Tracked s a
    → (is_in key a.applied_sysctls || is_in key a.applied_parameters) ≡ true
    → Changed key value a.settings out
    → Tracked s (record a { settings = out.1 })
Changed-Tracked {s} {a} {key} {value} {out} t noted c = record {
  unbegun = λ other p q.
      let apart : (key == other) ≡ false = elim (Bool-cases (key == other)) [
        | inr n ↦ n
        | inl y ↦ absurd (ground (arith, noted, p, q, of_holds (String_discrete key other) y))
      ] in
      c.others other apart ∙ t.unbegun other p q;
  olds = t.olds;
  has_sysctls = t.has_sysctls;
  has_parameters = t.has_parameters;
  conf = ground (arith, t.conf, c.conf);
  nanbbr_conf = ground (arith, t.nanbbr_conf, c.nanbbr_conf);
}

-- No key stands twice.
abbrev pub IsDistinct : List String → Type 0
IsDistinct [] = Unit
IsDistinct (key ∷ ks) = (is_in key ks ≡ false) × IsDistinct ks

-- The settings have the values.
abbrev pub InForce : List (String × String) → Settings → Type 0
InForce values s = All (λ e. lookup e.0 s.values ≡ some e.1) values

-- What a run over `values` does from `a` to `b`.
pub record Applied (values : List (String × String)) (a b : Attempt) : Type 0 where
  pub old_values : b.old_values ≡ a.old_values
  pub others :
      (other : String)
      → is_in other (keys values) ≡ false
      → lookup other b.settings.values ≡ lookup other a.settings.values
  pub in_force : IsDistinct (keys values) → InForce values b.settings
  pub conf : b.settings.conf ≡ a.settings.conf
  pub nanbbr_conf : b.settings.nanbbr_conf ≡ a.settings.nanbbr_conf
  pub old_conf : b.old_conf ≡ a.old_conf
  pub old_nanbbr : b.old_nanbbr ≡ a.old_nanbbr

pub Applied-nil : (a : Attempt) → Applied [] a a
Applied-nil a = record {
  old_values = refl;
  others = λ other p. refl;
  in_force = λ distinct. tt;
  conf = refl;
  nanbbr_conf = refl;
  old_conf = refl;
  old_nanbbr = refl;
}

-- A first change, and a run over the rest.
Applied-cons :
    {key value : String} {values : List (String × String)} {a b : Attempt}
    {out : Result (Unit {0}) × Settings} (a1 : Attempt)
    → Changed key value a.settings out
    → lookup key out.1.values ≡ some value
    → a1.settings ≡ out.1
    → a1.old_values ≡ a.old_values
    → a1.old_conf ≡ a.old_conf
    → a1.old_nanbbr ≡ a.old_nanbbr
    → Applied values a1 b
    → Applied ((key, value) ∷ values) a b
unfolding contains
Applied-cons {key} {value} {values} {a} {b} {out} a1 c here e olds conf nanbbr more = record {
  old_values = more.old_values ∙ olds;
  others = λ other p.
      let rest = more.others other (ground (arith, p)) in
      let first = c.others other (ground (arith, p)) in ground (arith, rest, first, e);
  in_force =
      λ distinct. (ground (arith, more.others key distinct.0, here, e), more.in_force distinct.1);
  conf = ground (arith, more.conf, c.conf, e);
  nanbbr_conf = ground (arith, more.nanbbr_conf, c.nanbbr_conf, e);
  old_conf = more.old_conf ∙ conf;
  old_nanbbr = more.old_nanbbr ∙ nanbbr;
}

module _ (kernel : Kernel) (s : Settings) where
  pub apply_sysctls-Ends :
      (values : List (String × String)) (a : Attempt)
      → Tracked s a
      → HasOlds (keys values) a.old_values
      → Ends (λ _ b. Tracked s b × Applied values a b) (Tracked s) (apply_sysctls kernel values a)
  unfolding apply_sysctls on_host contains ◌>>=◌
  apply_sysctls-Ends [] a t h = returns tt a (t, Applied-nil a)
  apply_sysctls-Ends ((key, value) ∷ values) a t h =
      let a0 : Attempt = record a { applied_sysctls = key ∷ a.applied_sysctls } in
      let out = change_setting kernel key value a.settings in
      let c = change_setting-Changed kernel key value a.settings in
      let a1 : Attempt = record a0 { settings = out.1 } in
      let t1 = Changed-Tracked {a = a0} (begun_sysctl-Tracked key t h.0) (ground arith) c in
      elim c.outcome [
        | inr broken ↦ rw broken (raises a1 t1)
        | inl (done, here) ↦ rw done (
            Ends-weaken _ (apply_sysctls-Ends values a1 t1 h.1)
              (λ _ b p. (p.0, Applied-cons a1 c here refl refl refl refl p.1)))
      ]

  -- The parameters all get the same value.
  pub apply_parameters-Ends :
      (value : String) (parameters : List String) (a : Attempt)
      → Tracked s a
      → HasOlds parameters a.old_values
      → Ends
          (λ _ b. Tracked s b × Applied (map (λ key. (key, value)) parameters) a b)
          (Tracked s)
          (apply_parameters kernel value parameters a)
  unfolding apply_parameters on_host contains ◌>>=◌
  apply_parameters-Ends value [] a t h = returns tt a (t, Applied-nil a)
  apply_parameters-Ends value (key ∷ parameters) a t h =
      let a0 : Attempt = record a { applied_parameters = key ∷ a.applied_parameters } in
      let out = change_setting kernel key value a.settings in
      let c = change_setting-Changed kernel key value a.settings in
      let a1 : Attempt = record a0 { settings = out.1 } in
      let noted : (is_in key a0.applied_sysctls || is_in key a0.applied_parameters) ≡ true =
        ground arith in
      let t1 = Changed-Tracked {a = a0} (begun_parameter-Tracked key t h.0) noted c in
      elim c.outcome [
        | inr broken ↦ rw broken (raises a1 t1)
        | inl (done, here) ↦ rw done (
            Ends-weaken _ (apply_parameters-Ends value parameters a1 t1 h.1)
              (λ _ b p. (p.0, Applied-cons a1 c here refl refl refl refl p.1)))
      ]
