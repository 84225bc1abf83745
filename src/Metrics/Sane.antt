-- ===== src/Metrics/Sane.antt =====
-- The states that the online learning can reach, and the settings that they hold.
use openmptcprouter_vps.Exec.{Result-cases, pure}
use openmptcprouter_vps.Exec.Yields.{
  Gives, Yields, Yields-bind, Yields-gets, Yields-if, Yields-lift, Yields-modify, Yields-pure,
}
use openmptcprouter_vps.Metrics.Json.{Json}
use openmptcprouter_vps.Metrics.Learning.{
  Learner, Platform, asleep, auto_cfg, cached_or_reread, reread, starting,
}
use openmptcprouter_vps.Metrics.Ranges.{InRange, sanitised-InRange}
use openmptcprouter_vps.Metrics.Settings.{AutoCfg, Block}
use openmptcprouter_vps.Metrics.Toggle.{
  auto_set_enabled, begin_iteration, create_task, put_file, put_task, replace_file, settle,
  start_auto_learning,
}
use openmptcprouter_vps.Prelude.{
  Bool, Option, false, if◌then◌else◌, inl, inr, none, refl, some, some_inj, subst, true, ℕ, ◌≡◌,
}

-- The settings of the cache, and those of the task's sleep, are in their ranges.
pub record IsSane {Deep : Type 0} (e : Learner Deep) : Type 0 where
  pub cached : (cfg : AutoCfg) → e.cache ≡ some cfg → InRange cfg
  pub slept : (cfg : AutoCfg) → e.task ≡ asleep cfg → InRange cfg

module _ {Deep : Type 0} (platform : Platform) where
  reread-InRange : (now : ℕ) → Yields (IsSane {Deep = Deep}) InRange (reread platform now)
  unfolding reread
  reread-InRange now = Yields-bind {P = λ _. Unit {0}} (Yields-gets _ (λ w i. tt)) (λ file _.
      Yields-bind (Yields-lift _ (sanitised-InRange platform _)) (λ cfg r.
        Yields-bind
          (Yields-modify _
            (λ w i. record { cached = λ c e. subst InRange (some_inj e) r; slept = i.slept }))
          (λ _ _. Yields-pure cfg r)))

  cached_or_reread-InRange :
      (now : ℕ) (cached : Option AutoCfg) (at : ℕ)
      → ((cfg : AutoCfg) → cached ≡ some cfg → InRange cfg)
      → Yields (IsSane {Deep = Deep}) InRange (cached_or_reread platform now cached at)
  unfolding cached_or_reread
  cached_or_reread-InRange now none at r = reread-InRange now
  cached_or_reread-InRange now (some cfg) at r =
      Yields-if _ (Yields-pure cfg (r cfg refl)) (reread-InRange now)

  pub auto_cfg-InRange :
      (force : Bool) (now : ℕ) → Yields (IsSane {Deep = Deep}) InRange (auto_cfg platform force now)
  unfolding auto_cfg
  auto_cfg-InRange force now =
      Yields-bind
        (Yields-gets {P = λ cached. (cfg : AutoCfg) → cached ≡ some cfg → InRange cfg} _
          (λ w i. i.cached))
        (λ cached r.
          Yields-bind {P = λ _. Unit {0}} (Yields-gets _ (λ w i. tt))
            (λ at _. Yields-if _ (reread-InRange now) (cached_or_reread-InRange now cached at r)))

  replace_file-IsSane :
      (root : Option (Json (Block Deep)))
      → Yields (IsSane {Deep = Deep}) (λ _. Unit {0}) (replace_file platform root)
  unfolding replace_file put_file
  replace_file-IsSane none = Yields-pure false tt
  replace_file-IsSane (some root) =
      Yields-bind {P = λ _. Unit {0}} (Yields-gets _ (λ w i. tt)) (λ n _.
        Yields-bind (Yields-modify _ (λ w i. record { cached = i.cached; slept = i.slept })) (λ _ _.
          Yields-if _
            (Yields-bind (Yields-modify _ (λ w i. record { cached = i.cached; slept = i.slept }))
              (λ _ _. Yields-pure true tt))
            (Yields-pure false tt)))

  pub auto_set_enabled-IsSane :
      (enabled : Bool) (now later : ℕ)
      → Yields (IsSane {Deep = Deep}) (λ _. Unit {0}) (auto_set_enabled platform enabled now later)
  unfolding auto_set_enabled settle
  auto_set_enabled-IsSane enabled now later =
      Yields-bind {P = λ _. Unit {0}} (Yields-gets _ (λ w i. tt)) (λ file _.
        Yields-bind (replace_file-IsSane _) (λ persisted _.
          Yields-bind (auto_cfg-InRange true now) (λ cfg r.
            Yields-bind
              (Yields-modify _ (λ w i. record {
                cached = λ c e. subst InRange (some_inj e) (toggled cfg r);
                slept = i.slept;
              }))
              (λ _ _. Yields-pure persisted tt))))
    where
      toggled : (cfg : AutoCfg) → InRange cfg → InRange (record cfg { enabled = enabled })
      toggled cfg r = record {
        interval = r.interval;
        learning_rate = r.learning_rate;
        window = r.window;
        min_points = r.min_points;
        sharpen = r.sharpen;
        exploration = r.exploration;
        exploration_scale = r.exploration_scale;
        min_available_mb = r.min_available_mb;
      }

  put_task-IsSane :
      (b : Bool)
      → Yields
          (IsSane {Deep = Deep})
          (λ _. Unit {0})
          (if b then put_task platform starting else pure false)
  unfolding put_task
  put_task-IsSane b =
      Yields-if b
        (Yields-bind (Yields-modify _ (λ w i. record { cached = i.cached; slept = λ c e. cc }))
          (λ _ _. Yields-pure true tt))
        (Yields-pure false tt)

  pub start_auto_learning-IsSane :
      (now : ℕ) → Yields (IsSane {Deep = Deep}) (λ _. Unit {0}) (start_auto_learning platform now)
  unfolding start_auto_learning create_task
  start_auto_learning-IsSane now =
      Yields-bind {P = λ _. Unit {0}} (Yields-gets _ (λ w i. tt)) (λ task _.
        Yields-if _ (Yields-pure false tt) (
          Yields-if _ (Yields-pure true tt)
            (Yields-bind (auto_cfg-InRange true now) (λ cfg _. put_task-IsSane _))))

  pub begin_iteration-IsSane :
      (now : ℕ) (e : Learner Deep) → IsSane e → IsSane (begin_iteration platform now e)
  unfolding begin_iteration
  begin_iteration-IsSane now e i = elim (Result-cases (auto_cfg platform false now e).0) [
    | inl (x, h) ↦ rw h (record { cached = after.cached; slept = λ c q. cc })
    | inr (cfg, h) ↦ rw h (record {
      cached = after.cached;
      slept = λ c q. subst InRange (asleep_inj q) (gives.result cfg h);
    })
  ]
    where
      after : IsSane (auto_cfg platform false now e).1
      after = (auto_cfg-InRange false now).state e i

      gives : Gives InRange (auto_cfg platform false now e).0
      gives = (auto_cfg-InRange false now).value e i

      asleep_inj : {a b : AutoCfg} → asleep a ≡ asleep b → a ≡ b
      asleep_inj q = cc
