-- ===== src/Metrics/Watchdog.antt =====
-- The watchdog of the online learning (_auto_watchdog), which puts a fresh model in place after three bad
-- losses in a row, and the endpoint /metrics/decision/reset, which does so on request.
use openmptcprouter_vps.Exec.{Exec, modify, pure, ◌>>◌}
use openmptcprouter_vps.Host.Reply.{User}
use openmptcprouter_vps.Metrics.Floats.{Float, dyadic, is_at_most, is_finite}
use openmptcprouter_vps.Metrics.Toggle.{admin_or_403}
use openmptcprouter_vps.Prelude.{
  Bool, List, Option, [], false, if◌then◌else◌, ltb, some, true, ℕ, ◌&&◌, ◌+◌, ◌∷◌,
}

-- torch makes the n-th fresh model, `has_torch` is _TORCH_AVAILABLE, and `saves` says whether the n-th
-- attempt to write the model's file works; a failure is only logged.
pub record Torch (Model : Type 0) : Type 0 where
  pub has_torch : Bool
  pub make_model : ℕ → Model
  pub saves : ℕ → Bool

-- The globals of the decision engine that a reset changes, and the model's file. `has_optimizer`:
-- _optimizer is not None. `made` and `attempts` count the models made and the writes tried.
pub record Engine (Model : Type 0) : Type 0 where
  pub model : Option Model
  pub has_optimizer : Bool
  pub saved_model : Option Model
  pub bad_streak : ℕ
  pub auto_resets : ℕ
  pub model_resets : ℕ
  pub model_loaded_at : Option ℕ
  pub made : ℕ
  pub attempts : ℕ

abbrev pub bad_streak_limit : ℕ
bad_streak_limit = 3

-- math.isfinite(loss) and loss <= _AUTO_MAX_LOSS
unfoldable pub is_good : Float → Bool
unfolding dyadic
is_good loss = is_finite loss && is_at_most loss (dyadic 5 0)

module _ {Model : Type 0} (torch : Torch Model) where
  -- _save_model
  unfoldable pub save_model : Model → Engine Model → Engine Model
  save_model m e = record e {
    saved_model = if torch.saves e.attempts then some m else e.saved_model;
    attempts = e.attempts + 1;
  }

  -- _make_model, a new optimizer, the file and the counter, as in both callers.
  unfoldable pub put_fresh_model : ℕ → Engine Model → Engine Model
  unfolding save_model
  put_fresh_model now e =
      let fresh = torch.make_model e.made in
      save_model fresh (record e {
        model = some fresh;
        has_optimizer = false;
        made = e.made + 1;
        model_resets = e.model_resets + 1;
        model_loaded_at = some now;
      })

  -- _auto_watchdog at the time `now`
  unfoldable pub auto_watchdog : ℕ → Float → Engine Model → Engine Model
  unfolding put_fresh_model
  auto_watchdog now loss e =
      if is_good loss
      then record e { bad_streak = 0 }
      else if ltb (e.bad_streak + 1) bad_streak_limit
      then record e { bad_streak = e.bad_streak + 1 }
      else record (put_fresh_model now e) { auto_resets = e.auto_resets + 1; bad_streak = 0 }

  -- The watchdog after each loss of a row of training steps, the first loss at the end of the list.
  unfoldable pub watch : List (ℕ × Float) → Engine Model → Engine Model
  unfolding auto_watchdog
  watch [] e = e
  watch ((now, loss) ∷ earlier) e = auto_watchdog now loss (watch earlier e)

  -- POST /metrics/decision/reset. Without torch the reply is the status 501.
  unfoldable pub reset_decision : User → ℕ → Exec (Engine Model) Bool
  unfolding put_fresh_model
  reset_decision user now =
      if torch.has_torch
      then admin_or_403 user (modify (put_fresh_model now) >> pure true)
      else pure false
