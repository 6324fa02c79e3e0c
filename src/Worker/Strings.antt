-- ===== src/Worker/Strings.antt =====
-- JavaScript's strings as code points, where the Worker uses them. Lengths and cuts count UTF-16
-- units, of which a code point above U+FFFF has two.
pub mod Unquote
use odoo_cloudflare_email.Prelude.{
  ℕ, zero, suc, ◌+◌, ◌-◌, ◌/◌, ◌%◌, Bool, true, false, not, ◌&&◌, ◌||◌, Option, none, some, [], ◌∷◌,
  ◌++◌, ltb, leb, if◌then◌else◌, ◌==◌,
}
use mathlib.Core.List.{reverse}
use odoo_cloudflare_email.Text.{Text, Bytes, encode_char}

-- `s.slice(0, n)`, as it is stored in UTF-8: a surrogate that the cut leaves alone becomes U+FFFD.
unfoldable pub slice : ℕ → Text → Text
slice zero s = []
slice (suc n) [] = []
slice (suc zero) (c ∷ s) = if leb 0x10000 c then 0xfffd ∷ [] else c ∷ []
slice (suc (suc n)) (c ∷ s) = elim (leb 0x10000 c) [
  | true ↦ c ∷ slice n s
  | false ↦ c ∷ slice (suc n) s
]

-- White space and line terminators of the language.
unfoldable pub is_blank : ℕ → Bool
is_blank c =
    leb 9 c && leb c 13
    || c == 32
    || c == 0xa0
    || c == 0x1680
    || leb 0x2000 c && leb c 0x200a
    || c == 0x2028
    || c == 0x2029
    || c == 0x202f
    || c == 0x205f
    || c == 0x3000
    || c == 0xfeff

drop_blanks : Text → Text
unfolding is_blank
drop_blanks [] = []
drop_blanks (c ∷ s) = if is_blank c then drop_blanks s else c ∷ s

-- `s.trim()`.
unfoldable pub trim : Text → Text
unfolding drop_blanks
trim s = reverse (drop_blanks (reverse (drop_blanks s)))

-- `s.split(/\r?\n/, 1)[0]`.
unfoldable pub first_line : Text → Text
first_line [] = []
first_line (c ∷ []) = if c == 10 then [] else c ∷ []
first_line (c ∷ d ∷ s) =
    let rest = first_line (d ∷ s) in if c == 10 || c == 13 && d == 10 then [] else c ∷ rest

-- One hexadecimal digit, in upper case.
unfoldable pub hex_digit : ℕ → ℕ
hex_digit n = if ltb n 10 then b'0' + n else b'A' + (n - 10)

unfoldable pub percent : Bytes → Text
unfolding hex_digit
percent [] = []
percent (b ∷ s) = b'%' ∷ hex_digit (b / 16) ∷ hex_digit (b % 16) ∷ percent s

-- The characters that `asciiValue` leaves: space to `~` without `%`.
unfoldable pub is_kept : ℕ → Bool
is_kept c = leb 0x20 c && leb c 0x24 || leb 0x26 c && leb c 0x7e

abbrev pub prepend : Text → Option Text → Option Text
prepend front none = none
prepend front (some rest) = some (front ++ rest)

-- `asciiValue`. The pattern has no `u` flag, so each half of a code point above U+FFFF is given to
-- `encodeURIComponent` alone, which raises `URIError`: none.
unfoldable pub ascii_value : Text → Option Text
unfolding percent is_kept
ascii_value [] = some []
ascii_value (c ∷ s) =
    let rest = ascii_value s in
    if is_kept c
    then prepend (c ∷ []) rest
    else if ltb c 0x10000
    then prepend (percent (encode_char c)) rest
    else none
