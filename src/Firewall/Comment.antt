-- ===== src/Firewall/Comment.antt =====
-- _nft_comment: the text of a rule's comment.
use Prim.Native.Char.{Char, code}
use openmptcprouter_vps.Prelude.{
  Bool, Bool-cases, String, arith, chars, false, if◌then◌else◌, inl, inr, not, refl, suc, true,
  zero, ℕ, ◌&&◌, ◌==ℕ◌, ◌≡◌, ◌≤◌,
}

-- text.replace('"', "'")
unquote : Char → Char
unquote c = if code c ==ℕ b'"' then "'" else c

unfoldable pub replace_quotes : String → String
unfolding unquote
replace_quotes String.[] = String.[]
replace_quotes (String.◌∷◌ c s) = String.◌∷◌ (unquote c) (replace_quotes s)

-- text[:n], in characters
unfoldable pub prefix : ℕ → String → String
prefix zero s = String.[]
prefix (suc n) String.[] = String.[]
prefix (suc n) (String.◌∷◌ c s) = String.◌∷◌ c (prefix n s)

unfoldable pub nft_comment : String → String
unfolding replace_quotes prefix
nft_comment text = prefix 128 (replace_quotes text)

abbrev pub is_quote_free : String → Bool
is_quote_free String.[] = true
is_quote_free (String.◌∷◌ c s) = not (code c ==ℕ b'"') && is_quote_free s

code-unquote : (c : Char) → (code (unquote c) ==ℕ b'"') ≡ false
unfolding unquote
code-unquote c = elim (Bool-cases (code c ==ℕ b'"')) [ inl e ↦ rw e | inr e ↦ rw e e ]

quote_free-replace : (s : String) → is_quote_free (replace_quotes s) ≡ true
unfolding replace_quotes
quote_free-replace String.[] = refl
quote_free-replace (String.◌∷◌ c s) = rw (code-unquote c, quote_free-replace s)

quote_free-prefix :
    (n : ℕ) (s : String) → is_quote_free s ≡ true → is_quote_free (prefix n s) ≡ true
unfolding prefix
quote_free-prefix zero s h = refl
quote_free-prefix (suc n) String.[] h = refl
quote_free-prefix (suc n) (String.◌∷◌ c s) h = ground (arith, quote_free-prefix n s)

chars-prefix-le : (n : ℕ) (s : String) → chars (prefix n s) ≤ n
unfolding prefix
chars-prefix-le zero s = omega arith
chars-prefix-le (suc n) String.[] = omega arith
chars-prefix-le (suc n) (String.◌∷◌ c s) = omega (arith, chars-prefix-le n s)

-- A comment never holds a double quote, which would end the quoted string of the rule, and has at
-- most 128 characters.
pub nft_comment_safe :
    (text : String) → (is_quote_free (nft_comment text) ≡ true) × (chars (nft_comment text) ≤ 128)
unfolding nft_comment
nft_comment_safe text = (
  quote_free-prefix 128 (replace_quotes text) (quote_free-replace text),
  chars-prefix-le 128 (replace_quotes text),
)

nft_comment_runs : nft_comment "say \"hi\"" ≡ "say 'hi'"
unfolding nft_comment
nft_comment_runs = refl
