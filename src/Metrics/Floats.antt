-- ===== src/Metrics/Floats.antt =====
-- Python's floats, as far as omr_metrics.py compares and converts them. A finite double is a multiple of
-- 2 ^ -1074, the least positive one, so the integer says which; the two zeros are one.
use openmptcprouter_vps.Exec.{Result, bind, ok, overflow_error, raised, value_error}
use openmptcprouter_vps.Prelude.{
  Bool, false, if◌then◌else◌, ltb, negsuc, not, pos, refl, suc, true, zero, ℕ, ℤ, ◌%◌, ◌*◌, ◌+◌,
  ◌-◌, ◌/◌, ◌^◌, ◌≡◌,
}
use openmptcprouter_vps.V2ray.Numbers.{negated}

pub data Float : Type 0 where
  nan minus_infinity plus_infinity : Float
  finite : ℤ → Float

-- a < b on integers
abbrev pub less : ℤ → ℤ → Bool
less (pos a) (pos b) = ltb a b
less (pos a) (negsuc b) = false
less (negsuc a) (pos b) = true
less (negsuc a) (negsuc b) = ltb b a

-- a < b on floats: false if one is no number.
abbrev pub is_less : Float → Float → Bool
is_less (finite a) (finite b) = less a b
is_less minus_infinity (finite b) = true
is_less minus_infinity plus_infinity = true
is_less (finite a) plus_infinity = true
is_less _ _ = false

-- a <= b on floats
abbrev pub is_at_most : Float → Float → Bool
is_at_most nan b = false
is_at_most a nan = false
is_at_most a b = not (is_less b a)

-- math.isfinite
abbrev pub is_finite : Float → Bool
is_finite (finite a) = true
is_finite _ = false

-- The double n / 2 ^ k.
unfoldable pub dyadic : ℕ → ℕ → Float
dyadic n k = finite (pos (n * 2 ^ (1074 - k)))

-- How often `n` has to be halved for a mantissa of 53 bits. As many rounds as `n` says are enough.
excess : ℕ → ℕ → ℕ
excess zero n = 0
excess (suc fuel) n = let rest = excess fuel (n / 2) in if ltb n (2 ^ 53) then 0 else rest + 1

-- A quotient rounded by its remainder, a tie to the even number.
half_even : ℕ → ℕ → ℕ → ℕ
half_even q r step = if ltb (2 * r) step then q else if ltb step (2 * r) then q + 1 else q + q % 2

-- `n` rounded to a mantissa of 53 bits.
unfoldable pub rounded : ℕ → ℕ
unfolding excess half_even
rounded n = let step = 2 ^ excess n n in half_even (n / step) (n % step) step * step

magnitude : ℕ → Result ℕ
unfolding rounded
magnitude n =
    if ltb (rounded n) (2 ^ 1024) then ok (rounded n * 2 ^ 1074) else raised overflow_error

-- float(n) of an integer
unfoldable pub float_of_int : ℤ → Result Float
unfolding magnitude
float_of_int (pos n) = bind (magnitude n) (λ m. ok (finite (pos m)))
float_of_int (negsuc n) = bind (magnitude (n + 1)) (λ m. ok (finite (negated m)))

-- int(x) of a float: the fraction is cut off.
unfoldable pub int_of_float : Float → Result ℤ
unfolding negated
int_of_float nan = raised value_error
int_of_float minus_infinity = raised overflow_error
int_of_float plus_infinity = raised overflow_error
int_of_float (finite (pos a)) = ok (pos (a / 2 ^ 1074))
int_of_float (finite (negsuc a)) = ok (negated ((a + 1) / 2 ^ 1074))

-- max(lo, min(hi, x)) of two integers and of two floats. `min` gives the first unless the second is less, so a
-- value that is no number becomes `hi`.
abbrev pub clamp_int : ℤ → ℤ → ℤ → ℤ
clamp_int lo hi x = let y = if less x hi then x else hi in if less lo y then y else lo

abbrev pub clamp_float : Float → Float → Float → Float
clamp_float lo hi x = let y = if is_less x hi then x else hi in if is_less lo y then y else lo

rounded_tie : rounded (2 ^ 53 + 1) ≡ 2 ^ 53
unfolding rounded excess half_even
rounded_tie = refl

int_cuts : int_of_float (finite (negsuc (2 ^ 1075 + 5))) ≡ ok (negsuc 1)
unfolding int_of_float
int_cuts = refl
