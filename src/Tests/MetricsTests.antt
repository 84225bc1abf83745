-- ===== src/Tests/MetricsTests.antt =====
-- The metrics at concrete inputs: a learner with an empty admin file, and a store with two users.
use openmptcprouter_vps.Dict.{insert, lookup}
use openmptcprouter_vps.Exec.{ok, ◌>>=◌}
use openmptcprouter_vps.Host.Reply.{User}
use openmptcprouter_vps.Metrics.Floats.{Float, dyadic, nan, plus_infinity}
use openmptcprouter_vps.Metrics.Json.{content, get_or_empty, no_file, object}
use openmptcprouter_vps.Metrics.Lasting.{enabled_of, toggle_lasts}
use openmptcprouter_vps.Metrics.Learning.{
  Learner, Platform, and_then, asleep, auto_cfg, cached_or_reread, reread, sanitised, seconds,
}
use openmptcprouter_vps.Metrics.Ranges.{InRange}
use openmptcprouter_vps.Metrics.Reach.{Reaches, loaded, loads, round_settings, starts, turns}
use openmptcprouter_vps.Metrics.Settings.{auto_block, auto_defaults, bool_at, float_at, get, int_at}
use openmptcprouter_vps.Metrics.Store.{
  InterfaceMetrics, MetricsStore, chosen_user, data_of, read_all_metrics, read_user, set_metrics,
}
use openmptcprouter_vps.Metrics.Stored.{set_metrics_confined, set_metrics_stores}
use openmptcprouter_vps.Metrics.Streaks.{bad_run, completed, watch_lem}
use openmptcprouter_vps.Metrics.Toggle.{
  auto_set_enabled, begin_iteration, create_task, is_short, loop_step, proceed, put_task,
  replace_file, settle, start_auto_learning, with_block, with_enabled, with_root,
}
use openmptcprouter_vps.Metrics.Watchdog.{Engine, Torch, is_good, watch}
use openmptcprouter_vps.Prelude.{
  List, String_discrete, [], false, ne_of_test, none, refl, some, true, ℕ, ◌∷◌, ◌≡◌,
}
use openmptcprouter_vps.Tests.Data.{admin}

-- Nothing can be written.
abbrev platform : Platform
platform = record {
  float_text = λ text. none;
  torch_available = true;
  has_loop = true;
  saves = λ n. false;
}

abbrev sleeping : Learner Unit
sleeping = (loop_step platform none 0 (start_auto_learning platform 0 (loaded no_file)).1).1

sleeping-Reaches : Reaches platform sleeping
sleeping-Reaches = turns _ none 0 (starts _ 0 (loads no_file))

sleeping_runs : (loop_step platform none 1 sleeping).0 ≡ some auto_defaults
unfolding loop_step begin_iteration start_auto_learning auto_cfg cached_or_reread reread sanitised
    and_then bool_at int_at float_at get auto_block auto_defaults lookup dyadic create_task put_task
    proceed is_short ◌>>=◌
sleeping_runs = refl

round_settings_example :
    (sleeping.task ≡ asleep auto_defaults) × (auto_defaults.enabled ≡ true) × InRange auto_defaults
round_settings_example =
    round_settings platform sleeping none 1 auto_defaults sleeping-Reaches sleeping_runs

-- The learner after it was told to stop, which cannot be written.
abbrev told : Learner Unit
told = (auto_set_enabled platform false 0 0 (loaded no_file)).1

told_not_persisted : auto_set_enabled platform false 0 0 (loaded no_file) ≡ (ok false, told)
unfolding auto_set_enabled with_enabled with_root with_block get_or_empty insert replace_file settle
    auto_cfg reread sanitised and_then bool_at int_at float_at get auto_block auto_defaults lookup
    dyadic ◌>>=◌
told_not_persisted = refl

-- After a minute the learning is enabled again.
toggle_lasts_example : enabled_of (auto_cfg platform false (seconds 60) told).0 ≡ ok true
unfolding sanitised and_then bool_at int_at float_at get auto_block auto_defaults lookup dyadic
toggle_lasts_example =
    toggle_lasts platform (loaded no_file) false 0 0 (seconds 60) false told told_not_persisted

abbrev torch : Torch ℕ
torch = record { has_torch = true; make_model = λ n. n; saves = λ n. true }

abbrev engine : Engine ℕ
engine = record {
  model = none;
  has_optimizer = false;
  saved_model = none;
  bad_streak = 0;
  auto_resets = 0;
  model_resets = 0;
  model_loaded_at = none;
  made = 0;
  attempts = 0;
}

-- The last loss first: four bad ones in a row, after a good one.
abbrev losses : List (ℕ × Float)
losses = (5, nan) ∷ (4, dyadic 6 0) ∷ (3, plus_infinity) ∷ (2, nan) ∷ (1, dyadic 5 0) ∷ []

watch_lem_example :
    ((watch torch losses engine).bad_streak ≡ 1)
    × ((watch torch losses engine).auto_resets ≡ 1)
    × ((watch torch losses engine).model_resets ≡ 1)
    × ((watch torch losses engine).made ≡ 1)
unfolding completed bad_run is_good
watch_lem_example = watch_lem torch engine losses refl

abbrev eth0 : InterfaceMetrics ℕ
eth0 = record { interface = "eth0"; timestamp = none; rest = 17 }

abbrev store : MetricsStore ℕ
store = record {
  file = content (object (("openmptcprouter", object (("eth0", eth0) ∷ [])) ∷ []));
  attempts = 0;
}

abbrev plain_user : User
plain_user = record { username = "bob"; permissions = "rw"; userid = some 3 }

-- A user asks to write another user's data.
set_metrics_confined_example :
    (read_user "openmptcprouter"
      (set_metrics (λ n. true) plain_user (some "openmptcprouter") eth0 100 store).1).0
    ≡ (read_user "openmptcprouter" store).0
unfolding String_discrete
set_metrics_confined_example =
    set_metrics_confined (λ n. true) plain_user (some "openmptcprouter") eth0 100 store
      "openmptcprouter" (ne_of_test "rw" "admin" refl) (ne_of_test "bob" "openmptcprouter" refl)

set_metrics_stores_example :
    ((set_metrics (λ n. true) admin none eth0 100 store).0 ≡ ok tt)
    × ((read_user (chosen_user admin none) (set_metrics (λ n. true) admin none eth0 100 store).1).0
        ≡ ok (
            object (
              insert "eth0"
                (record { interface = "eth0"; timestamp = some 100; rest = 17 })
                (("eth0", eth0) ∷ []))))
unfolding read_user read_all_metrics data_of chosen_user lookup String_discrete ◌>>=◌
set_metrics_stores_example =
    set_metrics_stores (λ n. true) admin none eth0 100 store (("eth0", eth0) ∷ []) refl refl
