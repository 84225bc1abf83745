-- ===== src/Metrics/Toggle.antt =====
-- _auto_set_enabled, which turns the online learning on or off and writes this to the admin file, the
-- background task with one round of its loop, and the endpoints /metrics/decision/auto.
use openmptcprouter_vps.Dict.{insert}
use openmptcprouter_vps.Exec.{
  Exec, gets, http_exception, modify, ok, pure, raise, raised, ◌>>=◌, ◌>>◌,
}
use openmptcprouter_vps.Host.Reply.{User}
use openmptcprouter_vps.Metrics.Json.{
  Json, boolean, content, get_or_empty, no_file, object, unreadable,
}
use openmptcprouter_vps.Metrics.Learning.{
  Learner, Platform, Task, asleep, auto_cfg, ended, is_live, no_task, starting,
}
use openmptcprouter_vps.Metrics.Settings.{AdminFile, AutoCfg, Block}
use openmptcprouter_vps.Prelude.{
  Bool, List, Option, String, [], false, if◌then◌else◌, ltb, negsuc, none, not, pos, some, true, ℕ,
  ℤ, ◌&&◌, ◌*◌, ◌+◌, ◌==◌,
}

-- if current_user.permissions != "admin": raise HTTPException(403)
abbrev pub admin_or_403 : {S A : Type 0} → User → Exec S A → Exec S A
admin_or_403 user m =
    if user.permissions == "admin" then m else raise (http_exception 403 "Admin only")

-- The reply of _auto_status.
pub record AutoStatus : Type 0 where
  pub cfg : AutoCfg
  pub task_running : Bool
  pub torch_available : Bool
  pub history_backend : Bool

-- Is there less memory, in KiB, than the settings ask for? Unknown memory is enough.
unfoldable pub is_short : Option ℕ → ℤ → Bool
is_short none required = false
is_short (some available) (pos required) = ltb available (1024 * required)
is_short (some available) (negsuc required) = false

module _ {Deep : Type 0} where
  -- block['enabled'] = enabled; cfg_file['auto_learning'] = block. Only a dict takes a key.
  unfoldable pub with_block :
      Bool → List (String × Block Deep) → Block Deep → Option (Json (Block Deep))
  unfolding insert
  with_block enabled members (object block) =
      some (
        object (insert "auto_learning" (object (insert "enabled" (boolean enabled) block)) members))
  with_block enabled members _ = none

  unfoldable pub with_root : Bool → Json (Block Deep) → Option (Json (Block Deep))
  unfolding with_block get_or_empty
  with_root enabled (object members) =
      with_block enabled members (get_or_empty "auto_learning" members)
  with_root enabled _ = none

  -- The new content of the admin file; none stands for an exception.
  unfoldable pub with_enabled : Bool → AdminFile Deep → Option (Json (Block Deep))
  unfolding with_root
  with_enabled enabled no_file = with_root enabled (object [])
  with_enabled enabled unreadable = none
  with_enabled enabled (content root) = with_root enabled root

module _ {Deep : Type 0} (platform : Platform) where
  unfoldable pub put_file : Json (Block Deep) → Exec (Learner Deep) Bool
  put_file root = modify (λ e. record e { file = content root }) >> pure true

  -- json.dump to the .tmp file and os.replace; any exception is caught.
  unfoldable pub replace_file : Option (Json (Block Deep)) → Exec (Learner Deep) Bool
  unfolding put_file
  replace_file none = pure false
  replace_file (some root) = do
    n ← gets (λ e. e.attempts)
    modify (λ e. record e { attempts = n + 1 })
    if platform.saves n then put_file root else pure false

  -- The settings are read again, and the cache gets them with the given value.
  unfoldable pub settle : Bool → ℕ → ℕ → Bool → Exec (Learner Deep) Bool
  unfolding auto_cfg
  settle enabled now later persisted = do
    cfg ← auto_cfg platform true now
    modify (λ e. record e { cache = some (record cfg { enabled = enabled }); cached_at = later })
    pure persisted

  -- The clock is read twice: `now` by _auto_cfg, `later` for the cache.
  unfoldable pub auto_set_enabled : Bool → ℕ → ℕ → Exec (Learner Deep) Bool
  unfolding with_enabled replace_file settle
  auto_set_enabled enabled now later = do
    file ← gets (λ e. e.file)
    persisted ← replace_file (with_enabled enabled file)
    settle enabled now later persisted

  unfoldable pub put_task : Task → Exec (Learner Deep) Bool
  put_task task = modify (λ e. record e { task = task }) >> pure true

  unfoldable pub create_task : ℕ → Exec (Learner Deep) Bool
  unfolding auto_cfg put_task
  create_task now = do
    cfg ← auto_cfg platform true now
    if platform.has_loop then put_task starting else pure false

  -- The answer says whether there is a task now.
  unfoldable pub start_auto_learning : ℕ → Exec (Learner Deep) Bool
  unfolding create_task
  start_auto_learning now = do
    task ← gets (λ e. e.task)
    if not platform.torch_available
        then pure false
        else if is_live task
        then pure true
        else create_task now

  unfoldable pub stop_auto_learning : Exec (Learner Deep) Unit
  stop_auto_learning = modify (λ e. record e { task = no_task })

  -- cfg = _auto_cfg(), and the sleep begins. An exception ends the task.
  unfoldable pub begin_iteration : ℕ → Learner Deep → Learner Deep
  unfolding auto_cfg
  begin_iteration now e =
      let (outcome, after) = auto_cfg platform false now e in
      record after { task = elim outcome [ ok cfg ↦ asleep cfg | raised x ↦ ended ] }

  -- What the task does next. From a sleep it runs a round, with the settings that the sleep began with, if
  -- these are enabled and memory is not short, and then begins the next iteration. The settings of the
  -- round come back.
  unfoldable pub proceed : Option ℕ → ℕ → Learner Deep → Task → Option AutoCfg × Learner Deep
  unfolding begin_iteration is_short
  proceed available now e no_task = (none, e)
  proceed available now e ended = (none, e)
  proceed available now e starting = (none, begin_iteration now e)
  proceed available now e (asleep cfg) = (
    if cfg.enabled && not (is_short available cfg.min_available_mb) then some cfg else none,
    begin_iteration now e,
  )

  -- One turn of the task.
  unfoldable pub loop_step : Option ℕ → ℕ → Learner Deep → Option AutoCfg × Learner Deep
  unfolding proceed
  loop_step available now e = proceed available now e e.task

  unfoldable pub auto_status : Bool → ℕ → Exec (Learner Deep) AutoStatus
  unfolding auto_cfg
  auto_status has_history now = do
    cfg ← auto_cfg platform false now
    task ← gets (λ e. e.task)
    pure (record {
      cfg = cfg;
      task_running = is_live task;
      torch_available = platform.torch_available;
      history_backend = has_history;
    })

  -- POST /metrics/decision/auto; `clock n` is the n-th reading of the clock.
  unfoldable pub set_auto_learning :
      User → Bool → Bool → (ℕ → ℕ) → Exec (Learner Deep) (Bool × AutoStatus)
  unfolding auto_set_enabled start_auto_learning auto_status
  set_auto_learning user enabled has_history clock = admin_or_403 user (do
    persisted ← auto_set_enabled enabled (clock 0) (clock 1)
    if enabled then (start_auto_learning (clock 2) >> pure tt) else pure tt
    status ← auto_status has_history (clock 3)
    pure (persisted, status))

  -- GET /metrics/decision/auto
  unfoldable pub get_auto_learning : User → Bool → ℕ → Exec (Learner Deep) AutoStatus
  unfolding auto_status
  get_auto_learning user has_history now = admin_or_403 user (auto_status has_history now)
