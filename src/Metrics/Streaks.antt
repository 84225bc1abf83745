-- ===== src/Metrics/Streaks.antt =====
-- The watchdog against a description by the row of losses alone.
use openmptcprouter_vps.Metrics.Floats.{Float}
use openmptcprouter_vps.Metrics.Watchdog.{
  Engine, Torch, auto_watchdog, is_good, put_fresh_model, save_model, watch,
}
use openmptcprouter_vps.Prelude.{
  List, [], arith, if◌then◌else◌, not, refl, ℕ, ◌%◌, ◌&&◌, ◌+◌, ◌==ℕ◌, ◌∷◌, ◌≡◌,
}

-- How many bad losses stand at the head, since the last good one.
unfoldable pub bad_run : List (ℕ × Float) → ℕ
bad_run [] = 0
bad_run ((now, loss) ∷ earlier) = let rest = bad_run earlier in if is_good loss then 0 else rest + 1

-- How many losses complete a multiple of three bad ones in a row.
unfoldable pub completed : List (ℕ × Float) → ℕ
unfolding bad_run
completed [] = 0
completed ((now, loss) ∷ earlier) =
    completed earlier
    + (if not (is_good loss) && (bad_run ((now, loss) ∷ earlier) % 3 ==ℕ 0) then 1 else 0)

module _ {Model : Type 0} (torch : Torch Model) (e : Engine Model) where
  -- Over any row of losses, from a state with no bad streak: the streak is the length of the run of bad
  -- losses that the row ends with, modulo 3, and the watchdog has reset the model once for each
  -- three bad losses in a row, neither earlier nor later.
  pub watch_lem :
      (losses : List (ℕ × Float))
      → e.bad_streak ≡ 0
      → ((watch torch losses e).bad_streak ≡ bad_run losses % 3)
        × ((watch torch losses e).auto_resets ≡ e.auto_resets + completed losses)
        × ((watch torch losses e).model_resets ≡ e.model_resets + completed losses)
        × ((watch torch losses e).made ≡ e.made + completed losses)
  unfolding watch bad_run completed auto_watchdog put_fresh_model save_model
  watch_lem [] h = (rw h refl, omega arith, omega arith, omega arith)
  watch_lem ((now, loss) ∷ earlier) h = ground (arith, watch_lem earlier h)
