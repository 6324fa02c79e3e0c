-- ===== src/Text/Base64/Decode.antt =====
-- A reference decoder of base64 by RFC 4648, with padding: what a receiver makes of the text.
use odoo_cloudflare_email.Prelude.{
  ℕ, ◌+◌, ◌*◌, ◌-◌, ◌/◌, ◌%◌, ◌<◌, ◌≡◌, refl, ap, ap₂, false, Option, none, some, [], ◌∷◌, ◌&&◌,
  leb, if◌then◌else◌, All, arith, ◌==◌,
}
use odoo_cloudflare_email.Text.{Text, Bytes, codes}
use odoo_cloudflare_email.Text.Base64.{digit, encode}

-- The six bits of a digit.
unfoldable value : ℕ → Option ℕ
value c =
    if leb b'A' c && leb c b'Z'
    then some (c - b'A')
    else if leb b'a' c && leb c b'z'
    then some (c - b'a' + 26)
    else if leb b'0' c && leb c b'9'
    then some (c - b'0' + 52)
    else if c == b'+'
    then some 62
    else if c == b'/'
    then some 63
    else none

value-digit : (n : ℕ) → n < 64 → value (digit n) ≡ some n
unfolding value digit
value-digit n h = ground arith

digit-padding : (n : ℕ) → n < 64 → (digit n == b'=') ≡ false
unfolding digit
digit-padding n h = ground arith

three : Option ℕ → Option ℕ → Option ℕ → Option ℕ → Option Bytes → Option Bytes
three (some x) (some y) (some z) (some w) (some rest) =
    some ((x * 4 + y / 16) ∷ (y % 16 * 16 + z / 4) ∷ (z % 4 * 64 + w) ∷ rest)
three _ _ _ _ _ = none

two : Option ℕ → Option ℕ → Option ℕ → Option Bytes
two (some x) (some y) (some z) = some ((x * 4 + y / 16) ∷ (y % 16 * 16 + z / 4) ∷ [])
two _ _ _ = none

one : Option ℕ → Option ℕ → Option Bytes
one (some x) (some y) = some ((x * 4 + y / 16) ∷ [])
one _ _ = none

-- A group that ends in padding; nothing may follow it.
unfoldable padded : ℕ → ℕ → ℕ → Text → Option Bytes
unfolding one two value
padded a b c [] = if c == b'=' then one (value a) (value b) else two (value a) (value b) (value c)
padded a b c (d ∷ s) = none

unfoldable pub decode : Text → Option Bytes
unfolding padded three value
decode [] = some []
decode (a ∷ b ∷ c ∷ d ∷ s) =
    let rest = decode s in
    if d == b'=' then padded a b c s else three (value a) (value b) (value c) (value d) rest
decode _ = none

group_eq :
    {a b c x y z : ℕ} {s : Bytes}
    → x ≡ a
    → y ≡ b
    → z ≡ c
    → some (x ∷ y ∷ z ∷ s) ≡ some (a ∷ b ∷ c ∷ s)
group_eq p q r = rw (p, q, r) refl

-- Each byte list is found again from its text.
pub decode-encode : (s : Bytes) → All (λ b. b < 256) s → decode (encode s) ≡ some s
unfolding decode encode padded one two three
decode-encode [] p = refl
decode-encode (a ∷ []) (pa, p) =
    rw (value-digit (a / 4) (omega arith), value-digit (a % 4 * 16) (omega arith))
      (ap (λ (n : ℕ). some (n ∷ [])) (omega arith))
decode-encode (a ∷ b ∷ []) (pa, (pb, p)) =
    rw (digit-padding (b % 16 * 4) (omega arith), value-digit (a / 4) (omega arith))
      (rw (value-digit (a % 4 * 16 + b / 16) (omega arith), value-digit (b % 16 * 4) (omega arith))
        (ap₂ (λ (m n : ℕ). some (m ∷ n ∷ [])) (omega arith) (omega arith)))
decode-encode (a ∷ b ∷ c ∷ s) (pa, (pb, (pc, p))) =
    rw (digit-padding (c % 64) (omega arith), decode-encode s p, value-digit (a / 4) (omega arith))
      (rw (value-digit (a % 4 * 16 + b / 16) (omega arith), value-digit (c % 64) (omega arith))
        (rw (value-digit (b % 16 * 4 + c / 64) (omega arith))
          (group_eq (omega arith) (omega arith) (omega arith))))

decode_test : decode (codes "aGVsbG8=") ≡ some (codes "hello")
unfolding decode value
decode_test = refl
