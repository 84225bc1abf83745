-- ===== src/V2ray/Numbers.antt =====
-- int(text). Digits and white space outside ASCII are not modelled, nor is Python's limit on the number
-- of digits.
use mathlib.Core.Option
use Prim.Native.Char.{code}
use openmptcprouter_vps.Prelude.{
  Bool, Option, String, false, if◌then◌else◌, leb, negsuc, none, pos, refl, some, true, ℕ, ℤ, ◌&&◌,
  ◌*◌, ◌+◌, ◌-◌, ◌==ℕ◌, ◌||◌, ◌≡◌,
}

-- A character that int() takes for white space.
is_space : ℕ → Bool
is_space c = c ==ℕ 32 || leb 9 c && leb c 13 || leb 28 c && leb c 31

is_digit : ℕ → Bool
is_digit c = leb 48 c && leb c 57

is_blank : String → Bool
unfolding is_space
is_blank String.[] = true
is_blank (String.◌∷◌ c s) = is_space (code c) && is_blank s

-- The digits, with single underscores between them, and the white space behind them. `after_digit`: the
-- character before is a digit.
unsigned : Bool → String → ℕ → Option ℕ
unfolding is_space is_digit is_blank
unsigned after_digit String.[] n = if after_digit then some n else none
unsigned after_digit (String.◌∷◌ c s) n =
    let is_next = is_digit (code c) in
    let rest = unsigned is_next s (if is_next then n * 10 + (code c - 48) else n) in
    if is_next || after_digit && (code c ==ℕ 95)
    then rest
    else if after_digit && is_space (code c) && is_blank s
    then some n
    else none

unfoldable pub negated : ℕ → ℤ
negated n = if n ==ℕ 0 then pos 0 else negsuc (n - 1)

unfoldable pub parse_int : String → Option ℤ
unfolding unsigned negated is_space
parse_int String.[] = none
parse_int (String.◌∷◌ c s) =
    let rest = parse_int s in
    if is_space (code c)
    then rest
    else if code c ==ℕ 45
    then Option.map negated (unsigned false s 0)
    else if code c ==ℕ 43
    then Option.map pos (unsigned false s 0)
    else Option.map pos (unsigned false (String.◌∷◌ c s) 0)

parse_int_signed : parse_int " -1_0 " ≡ some (negsuc 9)
unfolding parse_int
parse_int_signed = refl

parse_int_two_signs : parse_int "--1" ≡ none
unfolding parse_int
parse_int_two_signs = refl
