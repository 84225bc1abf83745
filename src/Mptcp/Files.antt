-- ===== src/Mptcp/Files.antt =====
-- The last part of the transaction replaces the two files.
use openmptcprouter_vps.Exec.{ok, os_error, raised, ◌>>=◌}
use openmptcprouter_vps.Exec.Ends.{Ends, raises, returns}
use openmptcprouter_vps.Mptcp.Apply.{Attempt, has_content, on_host, write_conf, write_nanbbr}
use openmptcprouter_vps.Mptcp.Kernel.{
  ConfFile, Kernel, Replaced, Settings, after_replace, called, conf_path, conf_text, failed_after,
  failed_before, in_place, nanbbr_path, replace_conf, replace_nanbbr,
}
use openmptcprouter_vps.Mptcp.Tracking.{Tracked}
use openmptcprouter_vps.Prelude.{
  Bool-cases, Option, String, String_discrete, ap, inl, inr, none, of_holds, refl, some, sym, true,
  ℕ, ◌==◌, ◌∙◌, ◌≡◌, ◌⊎◌,
}

-- A replacement works, or it raises with the file replaced or not.
after_replace_cases :
    (how : Replaced) (new s : Settings)
    → (after_replace how new s ≡ (ok tt, new))
      ⊎ (after_replace how new s ≡ (raised os_error, new))
      ⊎ (after_replace how new s ≡ (raised os_error, called s))
after_replace_cases in_place new s = inl refl
after_replace_cases failed_before new s = inr (inr refl)
after_replace_cases failed_after new s = inr (inl refl)

-- Once the old content is at hand, the file may change.
begun_conf-Tracked :
    {s : Settings} {a : Attempt} (conf : ConfFile) (calls : ℕ)
    → Tracked s a
    → a.old_conf ≡ s.conf
    → Tracked s (record a {
      restores_conf = true;
      settings = record a.settings { conf = conf; calls = calls };
    })
begun_conf-Tracked conf calls t old = record {
  unbegun = t.unbegun;
  olds = t.olds;
  has_sysctls = t.has_sysctls;
  has_parameters = t.has_parameters;
  conf = old;
  nanbbr_conf = t.nanbbr_conf;
}

begun_nanbbr-Tracked :
    {s : Settings} {a : Attempt} (content : Option String) (calls : ℕ)
    → Tracked s a
    → a.old_nanbbr ≡ s.nanbbr_conf
    → Tracked s (record a {
      restores_nanbbr = true;
      settings = record a.settings { nanbbr_conf = content; calls = calls };
    })
begun_nanbbr-Tracked content calls t old = record {
  unbegun = t.unbegun;
  olds = t.olds;
  has_sysctls = t.has_sysctls;
  has_parameters = t.has_parameters;
  conf = t.conf;
  nanbbr_conf = old;
}

has_content_iff :
    (old : Option String) (content : String) → has_content old content ≡ true → old ≡ some content
unfolding has_content
has_content_iff none content h = cc
has_content_iff (some old) content h = ap some (of_holds (String_discrete old content) h)

-- What the step on one of the files leaves alone.
pub record SameSettings (a b : Attempt) : Type 0 where
  pub values : b.settings.values ≡ a.settings.values
  pub old_conf : b.old_conf ≡ a.old_conf

module _ (kernel : Kernel) (s : Settings) where
  pub write_conf-Ends :
      (old content : String) (a : Attempt)
      → Tracked s a
      → a.old_conf ≡ s.conf
      → a.settings.conf ≡ conf_text old
      → Ends
          (λ _ b.
            Tracked s b
            × SameSettings a b
            × (b.settings.conf ≡ conf_text content)
            × (b.settings.nanbbr_conf ≡ a.settings.nanbbr_conf))
          (Tracked s)
          (write_conf kernel old content a)
  unfolding write_conf replace_conf on_host ◌>>=◌
  write_conf-Ends old content a t o was = elim (Bool-cases (old == content)) [
    | inl same ↦ rw same (
        returns tt a (
          t,
          record { values = refl; old_conf = refl },
          was ∙ ap conf_text (of_holds (String_discrete old content) same),
          refl,
        ))
    | inr other ↦
        let h = a.settings in
        let new : Settings = record (called h) { conf = conf_text content } in
        rw other (elim (after_replace_cases (kernel.replaces h.calls conf_path) new h) [
          | inl e ↦ rw e (
              returns tt _ (
                begun_conf-Tracked (conf_text content) _ t o,
                record { values = refl; old_conf = refl },
                refl,
                refl,
              ))
          | inr (inl e) ↦ rw e (raises _ (begun_conf-Tracked (conf_text content) _ t o))
          | inr (inr e) ↦ rw e (raises _ (begun_conf-Tracked h.conf _ t o))
        ])
  ]

  pub write_nanbbr-Ends :
      (content : String) (a : Attempt)
      → Tracked s a
      → a.old_nanbbr ≡ s.nanbbr_conf
      → a.settings.nanbbr_conf ≡ s.nanbbr_conf
      → Ends
          (λ _ b.
            Tracked s b
            × SameSettings a b
            × (b.settings.nanbbr_conf ≡ some content)
            × (b.settings.conf ≡ a.settings.conf))
          (Tracked s)
          (write_nanbbr kernel content a)
  unfolding write_nanbbr replace_nanbbr on_host ◌>>=◌
  write_nanbbr-Ends content a t o was = elim (Bool-cases (has_content a.old_nanbbr content)) [
    | inl same ↦ rw same (
        returns tt a (
          t,
          record { values = refl; old_conf = refl },
          was ∙ sym o ∙ has_content_iff a.old_nanbbr content same,
          refl,
        ))
    | inr other ↦
        let h = a.settings in
        let new : Settings = record (called h) { nanbbr_conf = some content } in
        rw other (elim (after_replace_cases (kernel.replaces h.calls nanbbr_path) new h) [
          | inl e ↦ rw e (
              returns tt _ (
                begun_nanbbr-Tracked (some content) _ t o,
                record { values = refl; old_conf = refl },
                refl,
                refl,
              ))
          | inr (inl e) ↦ rw e (raises _ (begun_nanbbr-Tracked (some content) _ t o))
          | inr (inr e) ↦ rw e (raises _ (begun_nanbbr-Tracked h.nanbbr_conf _ t o))
        ])
  ]
