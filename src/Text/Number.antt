-- ===== src/Text/Number.antt =====
-- Numbers in texts: `str(n)`, and `int(text)` where the text is an HTTP header's value. Such a value
-- is Latin-1, in which the decimal digits are the ASCII ones.
pub mod RoundTrip
use odoo_cloudflare_email.Prelude.{
  ℕ, zero, suc, ◌+◌, ◌*◌, ◌-◌, ◌/◌, ◌%◌, ◌≡◌, refl, [], ◌∷◌, ltb, leb, ◌==◌, if◌then◌else◌, Bool,
  true, false, ◌&&◌, Option, none, some, ℤ, pos, negsuc,
}
use odoo_cloudflare_email.Text.{Text, codes, strip}

decimal_from : ℕ → ℕ → Text → Text
decimal_from zero n out = out
decimal_from (suc fuel) n out =
    let out' = (b'0' + n % 10) ∷ out in
    elim (ltb n 10) [ true ↦ out' | false ↦ decimal_from fuel (n / 10) out' ]

-- `str(n)`: a number has fewer digits than itself plus one.
unfoldable pub decimal : ℕ → Text
unfolding decimal_from
decimal n = decimal_from (suc n) n []

is_digit : ℕ → Bool
is_digit c = leb b'0' c && leb c b'9'

-- Digits, single underscores between them; the flag says that the last character was a digit.
read : ℕ → Bool → Text → Option ℕ
read n ready [] = if ready then some n else none
read n ready (c ∷ s) = elim (is_digit c) [
  | true ↦ read (n * 10 + (c - b'0')) true s
  | false ↦ elim (c == b'_' && ready) [ true ↦ read n false s | false ↦ none ]
]

count_digits : Text → ℕ
count_digits [] = 0
count_digits (c ∷ s) = (if is_digit c then 1 else 0) + count_digits s

-- Python refuses to convert more digits than this.
abbrev pub max_str_digits : ℕ
max_str_digits = 4300

read_digits : Text → Option ℕ
unfolding read count_digits is_digit
read_digits s = if ltb max_str_digits (count_digits s) then none else read 0 false s

abbrev negate : ℕ → ℤ
negate zero = pos 0
negate (suc n) = negsuc n

negated : Option ℕ → Option ℤ
negated none = none
negated (some n) = some (negate n)

unsigned : Option ℕ → Option ℤ
unsigned none = none
unsigned (some n) = some (pos n)

signed : Text → Option ℤ
unfolding read_digits negated unsigned
signed [] = none
signed (c ∷ s) =
    if c == b'-'
    then negated (read_digits s)
    else if c == b'+'
    then unsigned (read_digits s)
    else unsigned (read_digits (c ∷ s))

-- `int(text)`; none is the `ValueError`.
unfoldable pub parse_int : Text → Option ℤ
unfolding signed
parse_int s = signed (strip s)

parse_int_tests :
    (parse_int (codes " 0042 ") ≡ some (pos 42))
    × (parse_int (codes "-1") ≡ some (negsuc 0))
    × (parse_int (codes "1_0") ≡ some (pos 10))
    × (parse_int (codes "1__0") ≡ none)
    × (parse_int (codes "") ≡ none)
    × (parse_int (codes "Wed, 21 Oct") ≡ none)
unfolding parse_int strip
parse_int_tests = (refl, refl, refl, refl, refl, refl)

decimal_tests : (decimal 0 ≡ codes "0") × (decimal 1207 ≡ codes "1207")
unfolding decimal
decimal_tests = (refl, refl)
