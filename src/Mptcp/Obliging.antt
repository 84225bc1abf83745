-- ===== src/Mptcp/Obliging.antt =====
-- The transaction on a kernel that takes every value and on a file system that works.
use openmptcprouter_vps.Dict.{insert, keys, lookup, lookup-insert, lookup-insert_self}
use openmptcprouter_vps.Exec.{ok, ◌>>=◌}
use openmptcprouter_vps.Exec.Ends.{Ends, returns}
use openmptcprouter_vps.Mptcp.Apply.{
  Attempt, apply_parameters, apply_sysctls, has_content, on_host, read_old, write_conf,
  write_nanbbr,
}
use openmptcprouter_vps.Mptcp.Kernel.{
  Kernel, Settings, called, change_setting, conf_path, conf_text, in_place, nanbbr_path,
  read_setting, replace_conf, replace_nanbbr, write_setting,
}
use openmptcprouter_vps.Mptcp.Restoring.{HasOlds}
use openmptcprouter_vps.Prelude.{
  Bool-cases, List, Option-cases, String, String_discrete, [], arith, holds_self, inl, inr, is_some,
  some, true, ℕ, ◌+◌, ◌==◌, ◌∷◌, ◌≡◌,
}

-- Every read works, a setting holds what was written, and a file is replaced.
pub record IsObliging (kernel : Kernel) : Type 0 where
  pub reads : (n : ℕ) (key : String) → kernel.reads n key ≡ true
  pub stores : (n : ℕ) (key value : String) → kernel.stores n key value ≡ some value
  pub replaces : (n : ℕ) (path : String) → kernel.replaces n path ≡ in_place

-- Every setting of `s` is still there, and the text of the file was read.
pub record Live (s : Settings) (old : String) (a : Attempt) : Type 0 where
  pub there :
      (key : String)
      → is_some (lookup key s.values) ≡ true
      → is_some (lookup key a.settings.values) ≡ true
  pub old_conf : a.old_conf ≡ conf_text old

-- No error.
abbrev pub Never : Attempt → Type 0
Never a = ⊥

module _ (kernel : Kernel) (o : IsObliging kernel) where
  read_setting_works :
      (key : String) (h : Settings)
      → is_some (lookup key h.values) ≡ true
      → (value : String) × (read_setting kernel key h ≡ (ok value, called h))
  unfolding read_setting
  read_setting_works key h there = elim (Option-cases (lookup key h.values)) [
    | inl gone ↦ absurd (ground (arith, there, gone))
    | inr (value, e) ↦ (value, ground (arith, e, o.reads h.calls key))
  ]

  change_setting_works :
      (key value : String) (h : Settings)
      → is_some (lookup key h.values) ≡ true
      → change_setting kernel key value h
        ≡ (ok tt, record h { calls = h.calls + 1 + 1; values = insert key value h.values })
  unfolding change_setting write_setting read_setting ◌>>=◌
  change_setting_works key value h there = elim (Option-cases (lookup key h.values)) [
    | inl gone ↦ absurd (ground (arith, there, gone))
    | inr (old, e) ↦ ground (
      arith,
      e,
      o.stores h.calls key value,
      o.reads (h.calls + 1) key,
      lookup-insert_self key value h.values,
      holds_self (String_discrete value value),
    )
  ]

  module _ (s : Settings) (old : String) where
    pub read_old_works :
        (ks : List String) (a : Attempt)
        → Live s old a
        → HasOlds ks s.values
        → Ends (λ _ b. Live s old b) Never (read_old kernel ks a)
    unfolding read_old on_host ◌>>=◌
    read_old_works [] a l h = returns tt a l
    read_old_works (key ∷ ks) a l h =
        let (value, e) = read_setting_works key a.settings (l.there key h.0) in
        rw e (read_old_works ks _ (record { there = l.there; old_conf = l.old_conf }) h.1)

    -- Writing a setting removes none.
    changed-Live :
        (key value : String) (calls : ℕ) (sysctls parameters : List String) (a : Attempt)
        → Live s old a
        → Live s old (record a {
          settings = record a.settings {
            calls = calls;
            values = insert key value a.settings.values;
          };
          applied_sysctls = sysctls;
          applied_parameters = parameters;
        })
    changed-Live key value calls sysctls parameters a l = record {
      there = λ k h. ground (arith, l.there k h, lookup-insert key k value a.settings.values);
      old_conf = l.old_conf;
    }

    pub apply_sysctls_works :
        (values : List (String × String)) (a : Attempt)
        → Live s old a
        → HasOlds (keys values) s.values
        → Ends (λ _ b. Live s old b) Never (apply_sysctls kernel values a)
    unfolding apply_sysctls on_host ◌>>=◌
    apply_sysctls_works [] a l h = returns tt a l
    apply_sysctls_works ((key, value) ∷ values) a l h =
        rw (change_setting_works key value a.settings (l.there key h.0))
          (apply_sysctls_works values _ (changed-Live key value _ _ _ a l) h.1)

    pub apply_parameters_works :
        (value : String) (parameters : List String) (a : Attempt)
        → Live s old a
        → HasOlds parameters s.values
        → Ends (λ _ b. Live s old b) Never (apply_parameters kernel value parameters a)
    unfolding apply_parameters on_host ◌>>=◌
    apply_parameters_works value [] a l h = returns tt a l
    apply_parameters_works value (key ∷ parameters) a l h =
        rw (change_setting_works key value a.settings (l.there key h.0))
          (apply_parameters_works value parameters _ (changed-Live key value _ _ _ a l) h.1)

    pub write_nanbbr_works :
        (content : String) (a : Attempt)
        → Ends (λ _ b. Unit {0}) Never (write_nanbbr kernel content a)
    unfolding write_nanbbr replace_nanbbr on_host ◌>>=◌
    write_nanbbr_works content a = elim (Bool-cases (has_content a.old_nanbbr content)) [
      | inl same ↦ rw same (returns tt a tt)
      | inr other ↦ rw (other, o.replaces a.settings.calls nanbbr_path) (returns tt _ tt)
    ]

    pub write_conf_works :
        (was content : String) (a : Attempt)
        → Ends (λ _ b. Unit {0}) Never (write_conf kernel was content a)
    unfolding write_conf replace_conf on_host ◌>>=◌
    write_conf_works was content a = elim (Bool-cases (was == content)) [
      | inl same ↦ rw same (returns tt a tt)
      | inr other ↦ rw (other, o.replaces a.settings.calls conf_path) (returns tt _ tt)
    ]
