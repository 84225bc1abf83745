-- ===== src/Metrics/Settling.antt =====
-- The two parts of _auto_set_enabled: the write of the file, and the settings that are put into the cache.
use openmptcprouter_vps.Exec.{PyError, Result, Result-cases, ok, ok_inj, pure, raised, ◌>>=◌}
use openmptcprouter_vps.Metrics.Json.{Json, content}
use openmptcprouter_vps.Metrics.Learning.{
  Learner, Platform, auto_cfg, auto_cfg_ttl, cached_or_reread, reread, sanitised,
}
use openmptcprouter_vps.Metrics.Settings.{AutoCfg, Block, auto_block}
use openmptcprouter_vps.Metrics.Toggle.{put_file, replace_file, settle}
use openmptcprouter_vps.Prelude.{
  Bool, Option, ap, false, if◌then◌else◌, inl, inr, ltb, none, refl, some, sym, true, ℕ, ◌+◌, ◌-◌,
  ◌∙◌, ◌≡◌,
}

module _ {Deep : Type 0} (platform : Platform) where
  -- What replace_file does: it writes, or the file stays.
  pub data Replaces (root : Option (Json (Block Deep))) (e : Learner Deep)
      : Result Bool × Learner Deep → Type 0 where
    file_written :
        (new : Json (Block Deep)) (n : ℕ)
        → root ≡ some new
        → Replaces root e (ok true, record e { file = content new; attempts = n })
    left_unwritten : (n : ℕ) → Replaces root e (ok false, record e { attempts = n })

  pub replace_file-Replaces :
      (root : Option (Json (Block Deep))) (e : Learner Deep)
      → Replaces root e (replace_file platform root e)
  unfolding replace_file put_file ◌>>=◌
  replace_file-Replaces none e = left_unwritten e.attempts
  replace_file-Replaces (some new) e =
      elim (platform.saves e.attempts)
        as (λ b. Replaces (some new) e (
          (if b then put_file platform new else pure false)
            (record e { attempts = e.attempts + 1 }))) [
              | true ↦ file_written new (e.attempts + 1) refl
              | false ↦ left_unwritten (e.attempts + 1)
            ]

  -- After the toggle.
  pub settled : Learner Deep → AutoCfg → ℕ → Learner Deep
  settled e cfg later = record e { cache = some cfg; cached_at = later }

  read_again :
      (t : ℕ) (e : Learner Deep) → (reread platform t e).0 ≡ sanitised platform (auto_block e.file)
  unfolding reread ◌>>=◌
  read_again t e = elim (Result-cases (sanitised platform (auto_block e.file))) [
    | inl (x, h) ↦ simp h
    | inr (cfg, h) ↦ simp h
  ]

  read_if :
      (b : Bool) (cfg : AutoCfg) (t : ℕ) (e : Learner Deep)
      → ((if b then pure cfg else reread platform t) e).0
        ≡ (if b then ok cfg else sanitised platform (auto_block e.file))
  unfolding ◌>>=◌
  read_if true cfg t e = refl
  read_if false cfg t e = read_again t e

  pub auto_cfg-settled :
      (e : Learner Deep) (cfg : AutoCfg) (t later : ℕ)
      → (auto_cfg platform false t (settled e cfg later)).0
        ≡ (if ltb (t - later) auto_cfg_ttl then ok cfg else sanitised platform (auto_block e.file))
  unfolding auto_cfg cached_or_reread ◌>>=◌ settled
  auto_cfg-settled e cfg t later = read_if _ cfg t (settled e cfg later)

  settle-ok :
      (e : Learner Deep) (enabled p : Bool) (now later : ℕ) (cfg : AutoCfg)
      → sanitised platform (auto_block e.file) ≡ ok cfg
      → settle platform enabled now later p e
        ≡ (ok p, settled e (record cfg { enabled = enabled }) later)
  unfolding settle auto_cfg reread ◌>>=◌ settled
  settle-ok e enabled p now later cfg h = simp h

  settle-raised :
      (e : Learner Deep) (enabled p : Bool) (now later : ℕ) (x : PyError)
      → sanitised platform (auto_block e.file) ≡ raised x
      → settle platform enabled now later p e ≡ (raised x, e)
  unfolding settle auto_cfg reread ◌>>=◌
  settle-raised e enabled p now later x h = simp h

  -- What is known when the settings could be read.
  pub settle_cases :
      (e : Learner Deep) (enabled p : Bool) (now later : ℕ) (persisted : Bool) (e' : Learner Deep)
      → settle platform enabled now later p e ≡ (ok persisted, e')
      → (cfg : AutoCfg) × (sanitised platform (auto_block e.file) ≡ ok cfg)
        × (p ≡ persisted)
        × (settled e (record cfg { enabled = enabled }) later ≡ e')
  settle_cases e enabled p now later persisted e' q =
      elim (Result-cases (sanitised platform (auto_block e.file))) [
        | inl (x, h) ↦ cc (settle-raised e enabled p now later x h)
        | inr (cfg, h) ↦
            let same = sym (settle-ok e enabled p now later cfg h) ∙ q in
            (cfg, h, ok_inj (ap (λ o. o.0) same), ap (λ o. o.1) same)
      ]
