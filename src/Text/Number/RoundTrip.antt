-- ===== src/Text/Number/RoundTrip.antt =====
-- `int(str(n))`, where the number has few enough digits.
use odoo_cloudflare_email.Prelude.{
  ℕ, zero, suc, ◌+◌, ◌*◌, ◌-◌, ◌/◌, ◌%◌, ◌≡◌, ◌≤◌, ◌<◌, refl, ◌∙◌, ap, Bool, true, false, some, [],
  ◌∷◌, ltb, All, Bool-cases, inl, inr, arith, pos, ◌==◌, le→not_ltb,
}
use odoo_cloudflare_email.Text.{Text, is_space}
use odoo_cloudflare_email.Text.Strip.{IsSolid, strip-IsSolid}
use odoo_cloudflare_email.Text.Number.{
  decimal, decimal_from, is_digit, read, count_digits, read_digits, signed, unsigned, parse_int,
  max_str_digits,
}

abbrev IsDigits : Text → Type 0
IsDigits s = All (λ c. is_digit c ≡ true) s

-- The two rounds of `decimal_from`.
decimal_from-last :
    (fuel n : ℕ) (out : Text)
    → ltb n 10 ≡ true
    → decimal_from (suc fuel) n out ≡ (b'0' + n % 10) ∷ out
unfolding decimal_from
decimal_from-last fuel n out e = rw (e, decimal_from) refl

decimal_from-next :
    (fuel n : ℕ) (out : Text)
    → ltb n 10 ≡ false
    → decimal_from (suc fuel) n out ≡ decimal_from fuel (n / 10) ((b'0' + n % 10) ∷ out)
unfolding decimal_from
decimal_from-next fuel n out e = rw (e, decimal_from) refl

last-IsDigit : (n : ℕ) → is_digit (b'0' + n % 10) ≡ true
unfolding is_digit
last-IsDigit n = ground arith

decimal_from-IsDigits :
    (fuel n : ℕ) (out : Text) → IsDigits out → IsDigits (decimal_from fuel n out)
unfolding decimal_from
decimal_from-IsDigits zero n out p = p
decimal_from-IsDigits (suc fuel) n out p = elim (Bool-cases (ltb n 10)) [
  | inl e ↦ rw (decimal_from-last fuel n out e) (last-IsDigit n, p)
  | inr e ↦
      rw (decimal_from-next fuel n out e)
        (decimal_from-IsDigits fuel (n / 10) _ (last-IsDigit n, p))
]

read-digit :
    (n c : ℕ) (ready : Bool) (s : Text)
    → is_digit c ≡ true
    → read n ready (c ∷ s) ≡ read (n * 10 + (c - b'0')) true s
unfolding read
read-digit n c ready s e = rw (e, read) refl

read_last : (n m : ℕ) (s : Text) → m ≡ n → read m true s ≡ read n true s
read_last n m s e = ap (λ k. read k true s) e

-- Digits are read back: each one goes behind those before it.
read-decimal_from :
    (fuel n : ℕ) (ready : Bool) (out : Text)
    → n < fuel
    → read 0 ready (decimal_from fuel n out) ≡ read n true out
read-decimal_from zero n ready out h = absurd (omega arith)
read-decimal_from (suc fuel) n ready out h = elim (Bool-cases (ltb n 10)) [
  | inl e ↦
      rw (decimal_from-last fuel n out e)
        (read-digit 0 (b'0' + n % 10) ready out (last-IsDigit n) ∙ read_last n _ out (ground arith))
  | inr e ↦ rw (decimal_from-next fuel n out e) (
      read-decimal_from fuel (n / 10) ready _ (ground arith)
      ∙ read-digit (n / 10) (b'0' + n % 10) true out (last-IsDigit n)
      ∙ read_last n _ out (omega arith))
]

-- A number that has at most `k + 1` digits.
Fits : ℕ → ℕ → Type 0
Fits zero n = n < 10
Fits (suc k) n = Fits k (n / 10)

count_digits_cons : (c : ℕ) (s : Text) → count_digits (c ∷ s) ≤ 1 + count_digits s
unfolding count_digits
count_digits_cons c s = ground arith

count_digits-decimal_from :
    (k fuel n : ℕ) (out : Text)
    → Fits k n
    → count_digits (decimal_from fuel n out) ≤ k + 1 + count_digits out
unfolding decimal_from Fits
count_digits-decimal_from k zero n out f = omega arith
count_digits-decimal_from zero (suc fuel) n out f =
    rw (decimal_from-last fuel n out (ground arith))
      (omega (arith, count_digits_cons (b'0' + n % 10) out))
count_digits-decimal_from (suc k) (suc fuel) n out f = elim (Bool-cases (ltb n 10)) [
  | inl e ↦
      rw (decimal_from-last fuel n out e) (omega (arith, count_digits_cons (b'0' + n % 10) out))
  | inr e ↦ rw (decimal_from-next fuel n out e) (
      omega (
        arith,
        count_digits-decimal_from k fuel (n / 10) ((b'0' + n % 10) ∷ out) f,
        count_digits_cons (b'0' + n % 10) out,
      ))
]

Fits-below : (n : ℕ) → n < 10000000000000 → Fits 12 n
unfolding Fits
Fits-below n h = omega arith

IsDigits-IsSolid : (s : Text) → IsDigits s → IsSolid s
unfolding is_digit is_space
IsDigits-IsSolid [] p = tt
IsDigits-IsSolid (c ∷ s) (pc, p) = (ground arith, IsDigits-IsSolid s p)

few_digits :
    (n : ℕ) → n < 10000000000000 → count_digits (decimal_from (suc n) n []) ≤ max_str_digits
unfolding count_digits
few_digits n h = omega (arith, count_digits-decimal_from 12 (suc n) n [] (Fits-below n h))

decimal-IsDigits : (n : ℕ) → IsDigits (decimal n)
unfolding decimal
decimal-IsDigits n = decimal_from-IsDigits (suc n) n [] tt

pub decimal-IsSolid : (n : ℕ) → IsSolid (decimal n)
decimal-IsSolid n = IsDigits-IsSolid (decimal n) (decimal-IsDigits n)

-- A text that begins with a digit has no sign.
signed_digits : (s : Text) (n : ℕ) → IsDigits s → read_digits s ≡ some n → signed s ≡ some (pos n)
unfolding signed unsigned is_digit
signed_digits [] n p e = cc
signed_digits (c ∷ s) n (pc, p) e =
    let no_minus : (c == b'-') ≡ false = ground arith in
    let no_plus : (c == b'+') ≡ false = ground arith in rw (no_minus, no_plus) (ap unsigned e)

read_digits-decimal : (n : ℕ) → n < 10000000000000 → read_digits (decimal n) ≡ some n
unfolding read_digits decimal
read_digits-decimal n h =
    let few : ltb max_str_digits (count_digits (decimal_from (suc n) n [])) ≡ false =
      le→not_ltb _ max_str_digits (few_digits n h) in
    rw few (read-decimal_from (suc n) n false [] (omega arith))

-- A number of at most 13 digits is read back from its print.
pub parse_int-decimal : (n : ℕ) → n < 10000000000000 → parse_int (decimal n) ≡ some (pos n)
unfolding parse_int
parse_int-decimal n h =
    ap signed (strip-IsSolid (decimal n) (decimal-IsSolid n))
    ∙ signed_digits (decimal n) n (decimal-IsDigits n) (read_digits-decimal n h)
