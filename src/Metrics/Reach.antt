-- ===== src/Metrics/Reach.antt =====
-- The states that the online learning can reach, whatever is written into the admin file meanwhile.
use openmptcprouter_vps.Exec.{◌>>=◌}
use openmptcprouter_vps.Exec.Yields.{
  Yields, Yields-bind, Yields-gets, Yields-if, Yields-pure, Yields-raise,
}
use openmptcprouter_vps.Host.Reply.{User}
use openmptcprouter_vps.Metrics.Learning.{
  Learner, Platform, Task, asleep, auto_cfg, ended, no_task, starting,
}
use openmptcprouter_vps.Metrics.Ranges.{InRange}
use openmptcprouter_vps.Metrics.Sane.{
  IsSane, auto_cfg-InRange, auto_set_enabled-IsSane, begin_iteration-IsSane,
  start_auto_learning-IsSane,
}
use openmptcprouter_vps.Metrics.Settings.{AdminFile, AutoCfg}
use openmptcprouter_vps.Metrics.Toggle.{
  auto_status, loop_step, proceed, set_auto_learning, start_auto_learning, stop_auto_learning,
}
use openmptcprouter_vps.Prelude.{
  Bool, Option, and_parts, ap, false, if◌then◌else◌, none, refl, some, some_inj, subst, true, ℕ,
  ◌≡◌,
}

-- The learner when the module is loaded.
abbrev pub loaded : {Deep : Type 0} → AdminFile Deep → Learner Deep
loaded file = record { file = file; cache = none; cached_at = 0; task = no_task; attempts = 0 }

pub data Reaches {Deep : Type 0} (platform : Platform) : Learner Deep → Type 0 where
  loads : (file : AdminFile Deep) → Reaches platform (loaded file)
  edits :
      (e : Learner Deep) (file : AdminFile Deep)
      → Reaches platform e
      → Reaches platform (record e { file = file })
  asks :
      (e : Learner Deep) (force : Bool) (now : ℕ)
      → Reaches platform e
      → Reaches platform (auto_cfg platform force now e).1
  sets :
      (e : Learner Deep) (user : User) (enabled has_history : Bool) (clock : ℕ → ℕ)
      → Reaches platform e
      → Reaches platform (set_auto_learning platform user enabled has_history clock e).1
  starts :
      (e : Learner Deep) (now : ℕ)
      → Reaches platform e
      → Reaches platform (start_auto_learning platform now e).1
  stops :
      (e : Learner Deep) → Reaches platform e → Reaches platform (stop_auto_learning platform e).1
  turns :
      (e : Learner Deep) (available : Option ℕ) (now : ℕ)
      → Reaches platform e
      → Reaches platform (loop_step platform available now e).1

chosen :
    (b : Bool) (c cfg : AutoCfg) → (if b then some c else none) ≡ some cfg → (b ≡ true) × (c ≡ cfg)
chosen true c cfg q = (refl, some_inj q)
chosen false c cfg q = cc

module _ {Deep : Type 0} (platform : Platform) where
  auto_status-InRange :
      (has_history : Bool) (now : ℕ)
      → Yields
          (IsSane {Deep = Deep})
          (λ status. InRange status.cfg)
          (auto_status platform has_history now)
  unfolding auto_status
  auto_status-InRange has_history now = Yields-bind (auto_cfg-InRange platform false now) (λ cfg r.
      Yields-bind {P = λ _. Unit {0}} (Yields-gets _ (λ w i. tt)) (λ task _. Yields-pure _ r))

  set_auto_learning-InRange :
      (user : User) (enabled has_history : Bool) (clock : ℕ → ℕ)
      → Yields
          (IsSane {Deep = Deep})
          (λ answer. InRange answer.1.cfg)
          (set_auto_learning platform user enabled has_history clock)
  unfolding set_auto_learning
  set_auto_learning-InRange user enabled has_history clock =
      Yields-if _
        (Yields-bind (auto_set_enabled-IsSane platform _ _ _) (λ persisted _.
          Yields-bind
            (Yields-if {P = λ _. Unit {0}} enabled
              (Yields-bind (start_auto_learning-IsSane platform _) (λ _ _. Yields-pure tt tt))
              (Yields-pure tt tt))
            (λ _ _. Yields-bind (auto_status-InRange has_history _) (λ status r. Yields-pure _ r))))
        (Yields-raise _)

  stop-IsSane : (e : Learner Deep) → IsSane e → IsSane (stop_auto_learning platform e).1
  unfolding stop_auto_learning ◌>>=◌
  stop-IsSane e i = record { cached = i.cached; slept = λ c q. cc }

  proceed-IsSane :
      (e : Learner Deep) (available : Option ℕ) (now : ℕ) (task : Task)
      → IsSane e
      → IsSane (proceed platform available now e task).1
  unfolding proceed
  proceed-IsSane e available now no_task i = i
  proceed-IsSane e available now ended i = i
  proceed-IsSane e available now starting i = begin_iteration-IsSane platform now e i
  proceed-IsSane e available now (asleep cfg) i = begin_iteration-IsSane platform now e i

  turn-IsSane :
      (e : Learner Deep) (available : Option ℕ) (now : ℕ)
      → IsSane e
      → IsSane (loop_step platform available now e).1
  unfolding loop_step
  turn-IsSane e available now i = proceed-IsSane e available now e.task i

  pub Reaches-IsSane : (e : Learner Deep) → Reaches platform e → IsSane e
  Reaches-IsSane _ (loads file) = record { cached = λ c q. cc; slept = λ c q. cc }
  Reaches-IsSane _ (edits e file r) = record {
    cached = (Reaches-IsSane e r).cached;
    slept = (Reaches-IsSane e r).slept;
  }
  Reaches-IsSane _ (asks e force now r) =
      (auto_cfg-InRange platform force now).state e (Reaches-IsSane e r)
  Reaches-IsSane _ (sets e user enabled has_history clock r) =
      (set_auto_learning-InRange user enabled has_history clock).state e (Reaches-IsSane e r)
  Reaches-IsSane _ (starts e now r) =
      (start_auto_learning-IsSane platform now).state e (Reaches-IsSane e r)
  Reaches-IsSane _ (stops e r) = stop-IsSane e (Reaches-IsSane e r)
  Reaches-IsSane _ (turns e available now r) = turn-IsSane e available now (Reaches-IsSane e r)

  round_of :
      (e : Learner Deep) (available : Option ℕ) (now : ℕ) (cfg : AutoCfg) (task : Task)
      → (proceed platform available now e task).0 ≡ some cfg
      → (task ≡ asleep cfg) × (cfg.enabled ≡ true)
  unfolding proceed
  round_of e available now cfg no_task q = cc
  round_of e available now cfg ended q = cc
  round_of e available now cfg starting q = cc
  round_of e available now cfg (asleep c) q =
      let (b, same) = chosen _ c cfg q in
      (ap asleep same, subst (λ d. d.enabled ≡ true) same (and_parts _ _ b).0)

  -- In every state that the service reaches from its start, by calls of the endpoint, turns of the task,
  -- starts, stops and readings in any order, and with any text written into the admin file meanwhile:
  -- the settings with which a training round runs are enabled, they are those that the task read before
  -- its sleep, and each lies in its range.
  pub round_settings :
      (e : Learner Deep) (available : Option ℕ) (now : ℕ) (cfg : AutoCfg)
      → Reaches platform e
      → (loop_step platform available now e).0 ≡ some cfg
      → (e.task ≡ asleep cfg) × (cfg.enabled ≡ true) × InRange cfg
  unfolding loop_step
  round_settings e available now cfg r q =
      let (slept, enabled) = round_of e available now cfg e.task q in
      (slept, enabled, (Reaches-IsSane e r).slept cfg slept)
