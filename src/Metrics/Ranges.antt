-- ===== src/Metrics/Ranges.antt =====
-- The ranges that _auto_cfg keeps its settings in.
use openmptcprouter_vps.Exec.{Result, ok, raised, type_error, value_error}
use openmptcprouter_vps.Exec.Yields.{Gives, Gives-bind, Gives-ok, anything}
use openmptcprouter_vps.Metrics.Floats.{
  Float, clamp_float, clamp_int, dyadic, finite, is_at_most, less, minus_infinity, nan,
  plus_infinity,
}
use openmptcprouter_vps.Metrics.Learning.{Platform, and_then, sanitised}
use openmptcprouter_vps.Metrics.Settings.{
  AutoCfg, Block, auto_defaults, float_at, get, int_at, or_default,
}
use openmptcprouter_vps.Prelude.{
  Option, String, arith, false, negsuc, pos, refl, true, ℕ, ℤ, ◌≡◌, ◌≤◌,
}

-- lo <= x <= hi
pub record IntWithin (lo hi x : ℤ) : Type 0 where
  pub above : less x lo ≡ false
  pub below : less hi x ≡ false

-- The same of floats; a value that is no number is in no range.
pub record FloatWithin (lo hi x : Float) : Type 0 where
  pub above : is_at_most lo x ≡ true
  pub below : is_at_most x hi ≡ true

-- The range of each setting.
pub record InRange (c : AutoCfg) : Type 0 where
  pub interval : IntWithin (pos 60) (pos 86400) c.interval
  pub learning_rate :
      FloatWithin (dyadic 4722366482869645 72) (dyadic 3602879701896397 56) c.learning_rate
  pub window : IntWithin (pos 120) (pos 86400) c.window
  pub min_points : IntWithin (pos 2) (pos 1000) c.min_points
  pub sharpen : FloatWithin (dyadic 1 0) (dyadic 16 0) c.sharpen
  pub exploration : FloatWithin (dyadic 0 0) (dyadic 1 1) c.exploration
  pub exploration_scale : FloatWithin (dyadic 5764607523034235 59) (dyadic 1 0) c.exploration_scale
  pub min_available_mb : IntWithin (pos 0) (pos 1000000) c.min_available_mb

module _ {A : Type 0} {P : A → Type 0} where
  Gives-or_default :
      (default : A) (r : Result A) → P default → Gives P r → Gives P (or_default default r)
  Gives-or_default default (ok a) p g = g
  Gives-or_default default (raised type_error) p g = Gives-ok default p
  Gives-or_default default (raised value_error) p g = Gives-ok default p
  Gives-or_default default (raised e) p g = g

pub Gives-and_then :
    {A B : Type 0} {P : A → Type 0} {Q : B → Type 0} (r : Result A) (f : A → Result B)
    → Gives P r
    → ((a : A) → P a → Gives Q (f a))
    → Gives Q (and_then r f)
unfolding and_then
Gives-and_then r f g next = Gives-bind r f g next

clamp_int_within :
    (lo hi : ℕ) (x : ℤ) → lo ≤ hi → IntWithin (pos lo) (pos hi) (clamp_int (pos lo) (pos hi) x)
clamp_int_within lo hi (pos x) h = ground arith
clamp_int_within lo hi (negsuc x) h = ground arith

clamp_float_within :
    (lo hi : ℕ) (x : Float)
    → lo ≤ hi
    → FloatWithin
        (finite (pos lo))
        (finite (pos hi))
        (clamp_float (finite (pos lo)) (finite (pos hi)) x)
clamp_float_within lo hi nan h = ground arith
clamp_float_within lo hi plus_infinity h = ground arith
clamp_float_within lo hi minus_infinity h = ground arith
clamp_float_within lo hi (finite (pos x)) h = ground arith
clamp_float_within lo hi (finite (negsuc x)) h = ground arith

module _ {Deep : Type 0} (raw : Block Deep) (key : String) where
  int_at_within :
      (lo hi : ℕ) (default : ℤ)
      → lo ≤ hi
      → IntWithin (pos lo) (pos hi) default
      → Gives (IntWithin (pos lo) (pos hi)) (int_at raw key (pos lo) (pos hi) default)
  unfolding int_at
  int_at_within lo hi default h d = Gives-bind (get raw key) _ anything (λ found _.
      Gives-or_default default _ d
        (Gives-bind _ _ anything (λ z _. Gives-ok _ (clamp_int_within lo hi z h))))

  float_at_within :
      (t : String → Option Float) (lo hi : ℕ) (default : Float)
      → lo ≤ hi
      → FloatWithin (finite (pos lo)) (finite (pos hi)) default
      → Gives
          (FloatWithin (finite (pos lo)) (finite (pos hi)))
          (float_at t raw key (finite (pos lo)) (finite (pos hi)) default)
  unfolding float_at
  float_at_within t lo hi default h d = Gives-bind (get raw key) _ anything (λ found _.
      Gives-or_default default _ d
        (Gives-bind _ _ anything (λ x _. Gives-ok _ (clamp_float_within lo hi x h))))

-- The defaults lie in their ranges.
auto_defaults-InRange : InRange auto_defaults
unfolding auto_defaults dyadic
auto_defaults-InRange = record {
  interval = record { above = refl; below = refl };
  learning_rate = record { above = refl; below = refl };
  window = record { above = refl; below = refl };
  min_points = record { above = refl; below = refl };
  sharpen = record { above = refl; below = refl };
  exploration = record { above = refl; below = refl };
  exploration_scale = record { above = refl; below = refl };
  min_available_mb = record { above = refl; below = refl };
}

module _ {Deep : Type 0} (platform : Platform) (raw : Block Deep) where
  pub sanitised-InRange : Gives InRange (sanitised platform raw)
  unfolding sanitised dyadic
  sanitised-InRange = Gives-and_then _ _ anything (λ enabled _.
      Gives-and_then _ _ (int_at_within raw _ 60 86400 _ (omega arith) d.interval) (λ interval i.
        Gives-and_then _ _ (float_at_within raw _ _ _ _ _ (omega arith) d.learning_rate)
          (λ learning_rate l.
            Gives-and_then _ _ (int_at_within raw _ 120 86400 _ (omega arith) d.window) (λ window w.
              Gives-and_then _ _ (int_at_within raw _ 2 1000 _ (omega arith) d.min_points)
                (λ min_points m.
                  Gives-and_then _ _ (float_at_within raw _ _ _ _ _ (omega arith) d.sharpen)
                    (λ sharpen s.
                      Gives-and_then _ _ (float_at_within raw _ _ _ _ _ (omega arith) d.exploration)
                        (λ exploration x.
                          Gives-and_then _ _
                            (float_at_within raw _ _ _ _ _ (omega arith) d.exploration_scale)
                            (λ scale y.
                              Gives-and_then _ _
                                (int_at_within raw _ 0 1000000 _ (omega arith) d.min_available_mb)
                                (λ memory z. Gives-ok _ (record {
                                  interval = i;
                                  learning_rate = l;
                                  window = w;
                                  min_points = m;
                                  sharpen = s;
                                  exploration = x;
                                  exploration_scale = y;
                                  min_available_mb = z;
                                }))))))))))
    where
      d : InRange auto_defaults
      d = auto_defaults-InRange
