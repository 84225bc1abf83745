-- ===== src/Prelude/Text.antt =====
-- Texts of numbers, `str(n)` and `hex(n)[2:]`, f-strings and `join`.
use Prim.Native.Nat.{ℕ, zero, suc, ◌+◌, ◌/◌, ◌%◌}
use Prim.Native.String.{String, ◌++◌, slice}
use mathlib.Core.List.{List, [], ◌∷◌}
use mathlib.Core.Path.{◌≡◌, refl}
use openmptcprouter_vps.Prelude.Tests.{ltb, if◌then◌else◌}

digit : ℕ → String
digit d = slice "0123456789abcdef" d (d + 1)

-- The digits of `n`, before `tail`. Each round divides by the base, so `n + 1` rounds are enough.
numeral : ℕ → ℕ → ℕ → String → String
unfolding digit
numeral base zero n tail = tail
numeral base (suc fuel) n tail =
    let rest = numeral base fuel (n / base) (digit (n % base) ++ tail) in
    if ltb n base then digit n ++ tail else rest

-- str(n)
unfoldable pub str : ℕ → String
unfolding numeral
str n = numeral 10 (n + 1) n ""

-- hex(n)[2:]
unfoldable pub hex : ℕ → String
unfolding numeral
hex n = numeral 16 (n + 1) n ""

-- f'…', its parts in a row
abbrev pub fmt : List String → String
fmt [] = ""
fmt (s ∷ ss) = s ++ fmt ss

-- sep.join(parts)
unfoldable pub join : String → List String → String
join sep [] = ""
join sep (s ∷ []) = s
join sep (s ∷ t ∷ ss) = s ++ sep ++ join sep (t ∷ ss)

-- len(s)
abbrev pub chars : String → ℕ
chars String.[] = 0
chars (String.◌∷◌ c s) = suc (chars s)

str_4789 : str 4789 ≡ "4789"
unfolding str
str_4789 = refl

hex_4095 : hex 4095 ≡ "fff"
unfolding hex
hex_4095 = refl
