-- ===== src/Mptcp/FilesBack.antt =====
-- What the rollback does to the two files.
use openmptcprouter_vps.Exec.{Exec, Result, ok, pure, ◌>>=◌}
use openmptcprouter_vps.Mptcp.Apply.{Attempt, on_host}
use openmptcprouter_vps.Mptcp.Kernel.{
  Kernel, Replaced, Settings, after_replace, called, conf_path, failed_after, failed_before, fails,
  in_place, nanbbr_path, remove_nanbbr, replace_conf, replace_nanbbr,
}
use openmptcprouter_vps.Mptcp.Rollback.{put_nanbbr, restore_conf, restore_nanbbr}
use openmptcprouter_vps.Prelude.{
  Bool, Option, String, ap, arith, false, if◌then◌else◌, inl, inr, none, refl, some, subst, sym,
  true, ◌∙◌, ◌≡◌, ◌⊎◌,
}

-- `fails` of a call that only replaces a file.
fails_replace_cases :
    (how : Replaced) (new h : Settings)
    → ((wrong : Bool) × (k : Settings) × (fails (after_replace how new) h ≡ (ok wrong, k))
        × (wrong ≡ false → k ≡ new)
        × ((k ≡ new) ⊎ (k ≡ called h)))
unfolding fails
fails_replace_cases in_place new h = (false, new, refl, λ e. refl, inl refl)
fails_replace_cases failed_before new h = (true, called h, refl, λ e. cc, inr refl)
fails_replace_cases failed_after new h = (true, new, refl, λ e. cc, inl refl)

-- Each restore of a file leaves the settings' values and the other file, and without an error the file has
-- its old content if it was begun.
pub record ConfBack (a : Attempt) (out : Result Bool × Attempt) : Type 0 where
  pub wrong : Bool
  pub returned : out.0 ≡ ok wrong
  pub values : out.1.settings.values ≡ a.settings.values
  pub nanbbr_conf : out.1.settings.nanbbr_conf ≡ a.settings.nanbbr_conf
  pub old_nanbbr : out.1.old_nanbbr ≡ a.old_nanbbr
  pub restores_nanbbr : out.1.restores_nanbbr ≡ a.restores_nanbbr
  pub back :
      wrong ≡ false
      → out.1.settings.conf ≡ (if a.restores_conf then a.old_conf else a.settings.conf)

pub record NanbbrBack (a : Attempt) (out : Result Bool × Attempt) : Type 0 where
  pub wrong : Bool
  pub returned : out.0 ≡ ok wrong
  pub values : out.1.settings.values ≡ a.settings.values
  pub conf : out.1.settings.conf ≡ a.settings.conf
  pub back :
      wrong ≡ false
      → out.1.settings.nanbbr_conf
        ≡ (if a.restores_nanbbr then a.old_nanbbr else a.settings.nanbbr_conf)

conf_back :
    (kernel : Kernel) (a : Attempt) (b : Bool)
    → a.restores_conf ≡ b
    → ConfBack a ((if b then on_host (fails (replace_conf kernel a.old_conf)) else pure false) a)
unfolding replace_conf on_host ◌>>=◌ fails
conf_back kernel a false e = record {
  wrong = false;
  returned = refl;
  values = refl;
  nanbbr_conf = refl;
  old_nanbbr = refl;
  restores_nanbbr = refl;
  back = λ w. ground (arith, e);
}
conf_back kernel a true e =
    let h = a.settings in
    let new : Settings = record (called h) { conf = a.old_conf } in
    let (wrong, k, done, right, either) =
      fails_replace_cases (kernel.replaces h.calls conf_path) new h in
    let values : k.values ≡ h.values = elim either [
      | inl p ↦ ap (λ s. s.values) p
      | inr p ↦ ap (λ s. s.values) p
    ] in
    let nanbbr : k.nanbbr_conf ≡ h.nanbbr_conf = elim either [
      | inl p ↦ ap (λ s. s.nanbbr_conf) p
      | inr p ↦ ap (λ s. s.nanbbr_conf) p
    ] in
    rw done (record {
      wrong = wrong;
      returned = refl;
      values = values;
      nanbbr_conf = nanbbr;
      old_nanbbr = refl;
      restores_nanbbr = refl;
      back = λ w. ap (λ s. s.conf) (right w) ∙ ground (arith, e);
    })

pub restore_conf-ConfBack : (kernel : Kernel) (a : Attempt) → ConfBack a (restore_conf kernel a)
unfolding restore_conf ◌>>=◌
restore_conf-ConfBack kernel a = conf_back kernel a a.restores_conf refl

-- Both ways to put nanbbr-var.json back end as a replacement does.
fails_put_cases :
    (kernel : Kernel) (content : Option String) (h : Settings)
    → let new : Settings = record (called h) { nanbbr_conf = content } in
      (wrong : Bool) × (k : Settings) × (fails (put_nanbbr kernel content) h ≡ (ok wrong, k))
      × (wrong ≡ false → k ≡ new)
      × ((k ≡ new) ⊎ (k ≡ called h))
unfolding put_nanbbr replace_nanbbr remove_nanbbr fails
fails_put_cases kernel none h =
    fails_replace_cases (kernel.replaces h.calls nanbbr_path)
      (record (called h) { nanbbr_conf = none }) h
fails_put_cases kernel (some content) h =
    fails_replace_cases (kernel.replaces h.calls nanbbr_path)
      (record (called h) { nanbbr_conf = some content }) h

on_host_of :
    {A : Type 0} (m : Exec Settings A) (a : Attempt) (r : Result A) (k : Settings)
    → m a.settings ≡ (r, k)
    → on_host m a ≡ (r, record a { settings = k })
unfolding on_host
on_host_of m a r k e = ap (λ o. (o.0, record a { settings = o.1 })) e

nanbbr_back :
    (kernel : Kernel) (a : Attempt) (b : Bool)
    → a.restores_nanbbr ≡ b
    → NanbbrBack a ((if b then on_host (fails (put_nanbbr kernel a.old_nanbbr)) else pure false) a)
unfolding ◌>>=◌
nanbbr_back kernel a false e = record {
  wrong = false;
  returned = refl;
  values = refl;
  conf = refl;
  back = λ w. ground (arith, e);
}
nanbbr_back kernel a true e =
    let h = a.settings in
    let new : Settings = record (called h) { nanbbr_conf = a.old_nanbbr } in
    let (wrong, k, done, right, either) = fails_put_cases kernel a.old_nanbbr h in
    let values : k.values ≡ h.values = elim either [
      | inl p ↦ ap (λ s. s.values) p
      | inr p ↦ ap (λ s. s.values) p
    ] in
    let conf : k.conf ≡ h.conf = elim either [
      | inl p ↦ ap (λ s. s.conf) p
      | inr p ↦ ap (λ s. s.conf) p
    ] in
    subst (NanbbrBack a) (sym (on_host_of _ a (ok wrong) k done)) (record {
      wrong = wrong;
      returned = refl;
      values = values;
      conf = conf;
      back = λ w. ap (λ s. s.nanbbr_conf) (right w) ∙ ground (arith, e);
    })

pub restore_nanbbr-NanbbrBack :
    (kernel : Kernel) (a : Attempt) → NanbbrBack a (restore_nanbbr kernel a)
unfolding restore_nanbbr ◌>>=◌
restore_nanbbr-NanbbrBack kernel a = nanbbr_back kernel a a.restores_nanbbr refl
