-- ===== src/Metrics/Lasting.antt =====
-- How long _auto_set_enabled lasts, with and without the write of the admin file.
use openmptcprouter_vps.Exec.{Result, continue, ok, raised, ◌>>=◌}
use openmptcprouter_vps.Metrics.Json.{Json, content}
use openmptcprouter_vps.Metrics.Learning.{Learner, Platform, auto_cfg, auto_cfg_ttl, sanitised}
use openmptcprouter_vps.Metrics.Saying.{sanitised-Says, with_enabled-Says}
use openmptcprouter_vps.Metrics.Settings.{AutoCfg, Block, auto_block}
use openmptcprouter_vps.Metrics.Settling.{
  Replaces, auto_cfg-settled, file_written, left_unwritten, replace_file-Replaces, settle_cases,
  settled,
}
use openmptcprouter_vps.Metrics.Toggle.{auto_set_enabled, settle, with_enabled}
use openmptcprouter_vps.Prelude.{
  Bool, Bool-cases, false, if◌then◌else◌, inl, inr, ltb, refl, some, subst, sym, true, ℕ, ◌-◌, ◌||◌,
  ◌≡◌,
}

abbrev pub enabled_of : Result AutoCfg → Result Bool
enabled_of (ok cfg) = ok cfg.enabled
enabled_of (raised e) = raised e

module _ {Deep : Type 0} (platform : Platform) where
  -- The settings that are read after the toggle: they have the given value if it was persisted or a minute
  -- has not passed, and else they are what the file says.
  record Lasts (e : Learner Deep) (enabled persisted in_time : Bool) (answer : Result AutoCfg)
      : Type 0 where
    cfg : AutoCfg
    answers : answer ≡ ok cfg
    given : (persisted || in_time) ≡ true → cfg.enabled ≡ enabled
    stored : (persisted || in_time) ≡ false → sanitised platform (auto_block e.file) ≡ ok cfg

  Lasts-equation :
      (e : Learner Deep) (enabled persisted in_time : Bool) (answer : Result AutoCfg)
      → Lasts e enabled persisted in_time answer
      → enabled_of answer ≡ (
          if persisted || in_time
          then ok enabled
          else enabled_of (sanitised platform (auto_block e.file)))
  Lasts-equation e enabled persisted in_time answer l = elim (Bool-cases (persisted || in_time)) [
    | inl b ↦ simp (l.answers, b, l.given b)
    | inr b ↦ simp (l.answers, b, l.stored b)
  ]

  written-Lasts :
      (e : Learner Deep) (enabled b : Bool) (cfg : AutoCfg) (new : Json (Block Deep))
      → with_enabled enabled e.file ≡ some new
      → sanitised platform (auto_block (content new)) ≡ ok cfg
      → Lasts e enabled true b (
          if b
          then ok (record cfg { enabled = enabled })
          else sanitised platform (auto_block (content new)))
  written-Lasts e enabled true cfg new root h = record {
    cfg = record cfg { enabled = enabled };
    answers = refl;
    given = λ _. refl;
    stored = λ q. cc;
  }
  written-Lasts e enabled false cfg new root h = record {
    cfg = cfg;
    answers = h;
    given = λ _.
        (sanitised-Says enabled platform _ (with_enabled-Says enabled e.file new root)).result cfg
          h;
    stored = λ q. cc;
  }

  kept-Lasts :
      (e : Learner Deep) (enabled b : Bool) (cfg : AutoCfg)
      → sanitised platform (auto_block e.file) ≡ ok cfg
      → Lasts e enabled false b (
          if b
          then ok (record cfg { enabled = enabled })
          else sanitised platform (auto_block e.file))
  kept-Lasts e enabled true cfg h = record {
    cfg = record cfg { enabled = enabled };
    answers = refl;
    given = λ _. refl;
    stored = λ q. cc;
  }
  kept-Lasts e enabled false cfg h = record {
    cfg = cfg;
    answers = h;
    given = λ q. cc;
    stored = λ _. h;
  }

  module _ (e : Learner Deep) (enabled : Bool) (now later t : ℕ) (persisted : Bool)
      (e' : Learner Deep) where
    settled-Lasts :
        (e1 : Learner Deep) (p : Bool) (cfg : AutoCfg)
        → p ≡ persisted
        → settled platform e1 (record cfg { enabled = enabled }) later ≡ e'
        → Lasts e enabled p (ltb (t - later) auto_cfg_ttl) (
            if ltb (t - later) auto_cfg_ttl
            then ok (record cfg { enabled = enabled })
            else sanitised platform (auto_block e1.file))
        → Lasts e enabled persisted (ltb (t - later) auto_cfg_ttl) (auto_cfg platform false t e').0
    settled-Lasts e1 p cfg same_p same l =
        subst (λ w. Lasts e enabled persisted in_time (auto_cfg platform false t w).0) same
          (subst (Lasts e enabled persisted in_time) (sym (auto_cfg-settled platform e1 _ t later))
            (subst
              (λ r. Lasts e enabled r in_time (
                if in_time
                then ok (record cfg { enabled = enabled })
                else sanitised platform (auto_block e1.file)))
              same_p l))
      where
        in_time : Bool
        in_time = ltb (t - later) auto_cfg_ttl

    Replaces-Lasts :
        (out : Result Bool × Learner Deep)
        → Replaces platform (with_enabled enabled e.file) e out
        → continue out.0 (settle platform enabled now later) out.1 ≡ (ok persisted, e')
        → Lasts e enabled persisted (ltb (t - later) auto_cfg_ttl) (auto_cfg platform false t e').0
    Replaces-Lasts _ (file_written new n root) q =
        let (cfg, h, p, same) = settle_cases platform _ enabled true now later persisted e' q in
        settled-Lasts _ true cfg p same (written-Lasts e enabled _ cfg new root h)
    Replaces-Lasts _ (left_unwritten n) q =
        let (cfg, h, p, same) = settle_cases platform _ enabled false now later persisted e' q in
        settled-Lasts _ false cfg p same (kept-Lasts e enabled _ cfg h)

    -- If _auto_set_enabled returns, then at any later time `t`, while nobody else changes the file or the
    -- cache, the settings that _auto_cfg answers have the value that was set, if it was persisted or less
    -- than 60 s have passed. Otherwise they have that of the admin file as it was: a toggle that could
    -- not be written is forgotten after a minute.
    pub toggle_lasts :
        auto_set_enabled platform enabled now later e ≡ (ok persisted, e')
        → enabled_of (auto_cfg platform false t e').0 ≡ (
            if persisted || ltb (t - later) auto_cfg_ttl
            then ok enabled
            else enabled_of (sanitised platform (auto_block e.file)))
    unfolding auto_set_enabled ◌>>=◌
    toggle_lasts q =
        Lasts-equation e enabled persisted _ _
          (Replaces-Lasts _ (replace_file-Replaces platform (with_enabled enabled e.file) e) q)
