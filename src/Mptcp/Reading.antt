-- ===== src/Mptcp/Reading.antt =====
-- The first part of the transaction reads everything that it may have to put back.
use openmptcprouter_vps.Dict.{insert, lookup, lookup-insert, lookup-insert_self}
use openmptcprouter_vps.Exec.{ok, os_error, raised, ◌>>=◌}
use openmptcprouter_vps.Exec.Ends.{Ends, Ends-weaken, raises, returns}
use openmptcprouter_vps.Mptcp.Apply.{Attempt, on_host, read_conf, read_files, read_nanbbr, read_old}
use openmptcprouter_vps.Mptcp.Kernel.{
  ConfFile, Kernel, Settings, called, conf_path, conf_text, nanbbr_path, no_conf, undecodable,
}
use openmptcprouter_vps.Mptcp.Restoring.{HasOlds}
use openmptcprouter_vps.Mptcp.Tracking.{
  Fresh, HasFiles, Tracked, Tracked-of_Fresh, read_setting_cases,
}
use openmptcprouter_vps.Prelude.{
  Bool-cases, List, Option, String, [], ap, arith, inl, inr, is_some, refl, some, sym, true, ℕ, ◌∙◌,
  ◌∷◌, ◌≡◌, ◌⊎◌,
}

-- A value that is read becomes an old value.
recorded-Fresh :
    {s : Settings} {a : Attempt} (key value : String)
    → Fresh s a
    → lookup key a.settings.values ≡ some value
    → Fresh s
        (record a { settings = called a.settings; old_values = insert key value a.old_values })
recorded-Fresh {s} {a} key value f there = record {
  values = f.values;
  conf = f.conf;
  nanbbr_conf = f.nanbbr_conf;
  no_sysctls = f.no_sysctls;
  no_parameters = f.no_parameters;
  keeps_conf = f.keeps_conf;
  keeps_nanbbr = f.keeps_nanbbr;
  olds = λ other old o.
      let known : lookup key s.values ≡ some value = ap (lookup key) (sym f.values) ∙ there in
      ground (arith, o, known, lookup-insert key other value a.old_values, f.olds other old);
}

-- Calls that change nothing, whatever is noted of the files.
called-Fresh :
    {s : Settings} {a : Attempt} (calls : ℕ) (conf : ConfFile) (nanbbr : Option String)
    → Fresh s a
    → Fresh s (record a {
      settings = record a.settings { calls = calls };
      old_conf = conf;
      old_nanbbr = nanbbr;
    })
called-Fresh calls conf nanbbr f = record {
  values = f.values;
  conf = f.conf;
  nanbbr_conf = f.nanbbr_conf;
  no_sysctls = f.no_sysctls;
  no_parameters = f.no_parameters;
  keeps_conf = f.keeps_conf;
  keeps_nanbbr = f.keeps_nanbbr;
  olds = f.olds;
}

HasOlds-insert :
    (ks : List String) (key value : String) (olds : List (String × String))
    → HasOlds ks olds
    → HasOlds ks (insert key value olds)
HasOlds-insert [] key value olds h = tt
HasOlds-insert (k ∷ ks) key value olds h =
    (ground (arith, lookup-insert key k value olds, h.0), HasOlds-insert ks key value olds h.1)

-- What has an old value keeps having one.
abbrev pub Grows : Attempt → Attempt → Type 0
Grows a b =
    (key : String)
    → is_some (lookup key a.old_values) ≡ true
    → is_some (lookup key b.old_values) ≡ true

read_conf_cases :
    (kernel : Kernel) (s : Settings)
    → (read_conf kernel s ≡ (ok s.conf, called s))
      ⊎ (read_conf kernel s ≡ (raised os_error, called s))
unfolding read_conf
read_conf_cases kernel s = elim (Bool-cases (kernel.reads s.calls conf_path)) [
  | inr broken ↦ inr (ground (arith, broken))
  | inl works ↦
      elim s.conf
          as (λ c.
            s.conf ≡ c
            → (read_conf kernel s ≡ (ok s.conf, called s))
              ⊎ (read_conf kernel s ≡ (raised os_error, called s))) [
                | no_conf ↦ λ e. inr (ground (arith, works, e))
                | undecodable ↦ λ e. inl (ground (arith, works, e))
                | conf_text t ↦ λ e. inl (ground (arith, works, e))
              ]
        refl
]

read_nanbbr_cases :
    (kernel : Kernel) (s : Settings)
    → (read_nanbbr kernel s ≡ (ok s.nanbbr_conf, called s))
      ⊎ (read_nanbbr kernel s ≡ (raised os_error, called s))
unfolding read_nanbbr
read_nanbbr_cases kernel s = elim (Bool-cases (kernel.reads s.calls nanbbr_path)) [
  | inr broken ↦ inr (ground (arith, broken))
  | inl works ↦ inl (ground (arith, works))
]

module _ (kernel : Kernel) (s : Settings) where
  pub read_old-Ends :
      (ks : List String) (a : Attempt)
      → Fresh s a
      → HasFiles s a
      → Ends
          (λ _ b. Fresh s b × HasFiles s b × HasOlds ks b.old_values × Grows a b)
          (Tracked s)
          (read_old kernel ks a)
  unfolding read_old on_host ◌>>=◌
  read_old-Ends [] a f files = returns tt a (f, files, tt, λ key h. h)
  read_old-Ends (key ∷ ks) a f files = elim (read_setting_cases kernel key a.settings) [
    | inr broken ↦ rw broken (raises _ (Tracked-of_Fresh (called-Fresh _ _ _ f)))
    | inl (value, there, e) ↦
        let b : Attempt = record a {
          settings = called a.settings;
          old_values = insert key value a.old_values;
        } in
        let fb = recorded-Fresh key value f there in
        let more =
          read_old-Ends ks b fb
            (record { old_conf = files.old_conf; old_nanbbr = files.old_nanbbr }) in
        rw e (
          Ends-weaken _ more (λ _ c p. (
            p.0,
            p.1,
            (p.3 key (ground (arith, lookup-insert_self key value a.old_values)), p.2),
            λ k h. p.3 k (ground (arith, h, lookup-insert key k value a.old_values)),
          )))
  ]

  -- Both files: afterwards the attempt knows their contents.
  pub read_files-Ends :
      (a : Attempt)
      → Fresh s a
      → Ends (λ _ b. Fresh s b × HasFiles s b) (Tracked s) (read_files kernel a)
  unfolding read_files on_host ◌>>=◌
  read_files-Ends a f = elim (read_conf_cases kernel a.settings) [
    | inr broken ↦ rw broken (raises _ (Tracked-of_Fresh (called-Fresh _ _ _ f)))
    | inl e ↦ rw e (elim (read_nanbbr_cases kernel (called a.settings)) [
      | inr broken ↦ rw broken (raises _ (Tracked-of_Fresh (called-Fresh _ _ _ f)))
      | inl r ↦ rw r (
          returns tt _
            (called-Fresh _ _ _ f, record { old_conf = f.conf; old_nanbbr = f.nanbbr_conf }))
    ])
  ]
