-- ===== src/Mptcp/ConfText.antt =====
-- The text of 90-shadowsocks.conf as Python reads it: `str.splitlines(keepends=True)` and `in`.
use Prim.Native.Char.{Char, code}
use text.Mathlib.TextLemmas.{append-nil as text_append-nil, cons-append, nil-append}
use openmptcprouter_vps.Mptcp.Names.{strip_prefix}
use openmptcprouter_vps.Prelude.{
  Bool, Bool-cases, List, String, [], ap, false, fmt, if◌then◌else◌, inl, inr, is_some, leb, not,
  refl, ℕ, ◌&&◌, ◌==ℕ◌, ◌==◌, ◌||◌, ◌∙◌, ◌∷◌, ◌≡◌,
}

-- A character that ends a line.
is_break : ℕ → Bool
is_break c = leb 10 c && leb c 13 || leb 28 c && leb c 30 || c ==ℕ 133 || c ==ℕ 8232 || c ==ℕ 8233

starts_newline : String → Bool
starts_newline String.[] = false
starts_newline (String.◌∷◌ c s) = code c ==ℕ 10

-- A character before the first line.
push : Char → List String → List String
push c [] = String.◌∷◌ c "" ∷ []
push c (line ∷ lines) = String.◌∷◌ c line ∷ lines

-- s.splitlines(keepends=True); "\r\n" is one end.
unfoldable pub splitlines : String → List String
unfolding is_break starts_newline push
splitlines String.[] = []
splitlines (String.◌∷◌ c s) =
    let rest = splitlines s in
    if is_break (code c) && not (code c ==ℕ 13 && starts_newline s)
    then String.◌∷◌ c "" ∷ rest
    else push c rest

-- needle in s
unfoldable pub has_text : String → String → Bool
unfolding strip_prefix
has_text needle String.[] = needle == ""
has_text needle (String.◌∷◌ c s) =
    is_some (strip_prefix needle (String.◌∷◌ c s)) || has_text needle s

splitlines_ends : splitlines "a\r\n\nb" ≡ "a\r\n" ∷ "\n" ∷ "b" ∷ []
unfolding splitlines
splitlines_ends = refl

fmt-push : (c : Char) (lines : List String) → fmt (push c lines) ≡ String.◌∷◌ c (fmt lines)
unfolding push
fmt-push c [] = text_append-nil (String.◌∷◌ c "")
fmt-push c (line ∷ lines) = cons-append c line (fmt lines)

-- The lines are the text, cut up.
pub fmt-splitlines : (s : String) → fmt (splitlines s) ≡ s
unfolding splitlines
fmt-splitlines String.[] = refl
fmt-splitlines (String.◌∷◌ c s) =
    elim (Bool-cases (is_break (code c) && not ((code c ==ℕ 13) && starts_newline s))) [
      | inl alone ↦
          rw (alone, fmt-splitlines s) (cons-append c "" s ∙ ap (String.◌∷◌ c) (nil-append s))
      | inr inside ↦ rw inside (fmt-push c (splitlines s) ∙ ap (String.◌∷◌ c) (fmt-splitlines s))
    ]
