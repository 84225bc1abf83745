-- ===== src/Metrics/Learning.antt =====
-- The settings of the online learning with their cache (_auto_cfg), the toggle (_auto_set_enabled), the
-- background task (start_auto_learning, stop_auto_learning, _auto_learn_loop) and the endpoint that
-- turns the learning on and off.
use openmptcprouter_vps.Exec.{Exec, Result, bind, gets, lift, modify, ok, pure, ◌>>=◌, ◌>>◌}
use openmptcprouter_vps.Metrics.Floats.{Float, dyadic}
use openmptcprouter_vps.Metrics.Settings.{
  AdminFile, AutoCfg, Block, auto_block, auto_defaults, bool_at, float_at, int_at,
}
use openmptcprouter_vps.Prelude.{
  Bool, Option, String, false, if◌then◌else◌, ltb, none, pos, some, true, ℕ, ◌*◌, ◌-◌, ◌^◌,
}

-- What the code does not decide: float() of a text, whether torch is installed, whether there is an
-- event loop, and whether the n-th attempt to replace the admin file works.
pub record Platform : Type 0 where
  pub float_text : String → Option Float
  pub torch_available : Bool
  pub has_loop : Bool
  pub saves : ℕ → Bool

-- `_auto_task`: None, before the first round of its loop, in the loop's sleep with the settings that the
-- round began with, or done.
pub data Task : Type 0 where
  no_task starting ended : Task
  asleep : AutoCfg → Task

-- `cache` and `cached_at` are `_auto_cfg_cache`. `attempts` counts the attempts to replace the file.
pub record Learner (Deep : Type 0) : Type 0 where
  pub file : AdminFile Deep
  pub cache : Option AutoCfg
  pub cached_at : ℕ
  pub task : Task
  pub attempts : ℕ

-- A time is a number of ticks of 2 ^ -22 s, the distance of the doubles next to the present time, so
-- that the difference of two is exact. If the clock was put back, the difference here is 0 and the one
-- in the source negative: both are below the limit.
abbrev pub seconds : ℕ → ℕ
seconds n = n * 2 ^ 22

abbrev pub auto_cfg_ttl : ℕ
auto_cfg_ttl = seconds 60

-- _auto_task is not None and not _auto_task.done()
abbrev pub is_live : Task → Bool
is_live no_task = false
is_live ended = false
is_live _ = true

-- One statement after another: an exception ends both.
unfoldable pub and_then : {A B : Type 0} → Result A → (A → Result B) → Result B
and_then r f = bind r f

module _ {Deep : Type 0} (platform : Platform) where
  -- cfg = {…}: the values in the order of the source, the bounds in floats the doubles nearest to 1e-6,
  -- 0.05 and 0.01.
  unfoldable pub sanitised : Block Deep → Result AutoCfg
  unfolding auto_defaults bool_at int_at float_at dyadic
  sanitised raw = and_then (bool_at raw "enabled" d.enabled) (λ enabled.
      and_then (int_at raw "interval" (pos 60) (pos 86400) d.interval) (λ interval.
        and_then
          (float_at t raw "learning_rate" (dyadic 4722366482869645 72) (dyadic 3602879701896397 56)
            d.learning_rate)
          (λ learning_rate. and_then (int_at raw "window" (pos 120) (pos 86400) d.window) (λ window.
            and_then (int_at raw "min_points" (pos 2) (pos 1000) d.min_points) (λ min_points.
              and_then (float_at t raw "sharpen" (dyadic 1 0) (dyadic 16 0) d.sharpen) (λ sharpen.
                and_then (float_at t raw "exploration" (dyadic 0 0) (dyadic 1 1) d.exploration)
                  (λ exploration.
                    and_then
                      (float_at t raw "exploration_scale" (dyadic 5764607523034235 59) (dyadic 1 0)
                        d.exploration_scale)
                      (λ exploration_scale.
                        and_then
                          (int_at raw "min_available_mb" (pos 0) (pos 1000000) d.min_available_mb)
                          (λ memory. ok (record {
                            enabled = enabled;
                            interval = interval;
                            learning_rate = learning_rate;
                            window = window;
                            min_points = min_points;
                            sharpen = sharpen;
                            exploration = exploration;
                            exploration_scale = exploration_scale;
                            min_available_mb = memory;
                          }))))))))))
    where
      d : AutoCfg
      d = auto_defaults

      t : String → Option Float
      t = platform.float_text

  -- The config file is read again, and the cache is set.
  unfoldable pub reread : ℕ → Exec (Learner Deep) AutoCfg
  reread now = do
    file ← gets (λ e. e.file)
    cfg ← lift (sanitised (auto_block file))
    modify (λ e. record e { cache = some cfg; cached_at = now })
    pure cfg

  unfoldable pub cached_or_reread : ℕ → Option AutoCfg → ℕ → Exec (Learner Deep) AutoCfg
  unfolding reread
  cached_or_reread now none cached_at = reread now
  cached_or_reread now (some cfg) cached_at =
      if ltb (now - cached_at) auto_cfg_ttl then pure cfg else reread now

  -- _auto_cfg at the time `now`
  unfoldable pub auto_cfg : Bool → ℕ → Exec (Learner Deep) AutoCfg
  unfolding reread cached_or_reread
  auto_cfg force now = do
    cached ← gets (λ e. e.cache)
    cached_at ← gets (λ e. e.cached_at)
    if force then reread now else cached_or_reread now cached cached_at
