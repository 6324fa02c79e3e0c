-- ===== src/Json/Loads/Strings.antt =====
-- A string is read back.
use mathlib.Core.List.{append_assoc}
use odoo_cloudflare_email.Prelude.{
  ℕ, ◌/◌, ◌%◌, ◌<◌, ◌≡◌, refl, ap, sym, ◌∙◌, ==_iff, true, false, some, [], ◌∷◌, ◌++◌, ltb, ◌==◌,
  Bool-cases, inl, inr, arith,
}
use odoo_cloudflare_email.Text.{Text, codes}
use odoo_cloudflare_email.Json.Dumps.{hex_digit, escape_char, escape}
use odoo_cloudflare_email.Json.Loads.{plain, push, hex_value, scan_string}

hex_value-hex_digit : (n : ℕ) → n < 16 → hex_value (hex_digit n) ≡ n
unfolding hex_value hex_digit
hex_value-hex_digit n h = ground arith

-- One code stands for another that is equal.
same :
    (c k : ℕ) (s : Text)
    → (c == k) ≡ true
    → push k (scan_string plain s) ≡ push c (scan_string plain s)
same c k s e = ap (λ (n : ℕ). push n (scan_string plain s)) (sym ((==_iff c k).0 e))

escaped_control :
    (c : ℕ) (s : Text)
    → ltb c 32 ≡ true
    → scan_string plain (codes "\\u00" ++ (hex_digit (c / 16) ∷ hex_digit (c % 16) ∷ s))
      ≡ push c (scan_string plain s)
unfolding scan_string
escaped_control c s e =
    ap (λ (n : ℕ). push n (scan_string plain s))
      (rw (hex_value-hex_digit (c / 16) (ground arith), hex_value-hex_digit (c % 16) (omega arith))
        (omega arith))

plain_char :
    (c : ℕ) (s : Text)
    → (c == b'"') ≡ false
    → (c == 92) ≡ false
    → scan_string plain (c ∷ s) ≡ push c (scan_string plain s)
unfolding scan_string
plain_char c s e f = rw (e, scan_string) (rw (f, scan_string) refl)

scan_string-escape_char :
    (c : ℕ) (s : Text) → scan_string plain (escape_char c ++ s) ≡ push c (scan_string plain s)
unfolding scan_string escape_char
scan_string-escape_char c s = elim (Bool-cases (c == b'"')) [
  | inl e ↦ rw (e) (same c b'"' s e)
  | inr e0 ↦ elim (Bool-cases (c == 92)) [
    | inl e ↦ rw (e0, e) (same c 92 s e)
    | inr e1 ↦ elim (Bool-cases (c == 10)) [
      | inl e ↦ rw (e0, e1, e) (same c 10 s e)
      | inr e2 ↦ elim (Bool-cases (c == 13)) [
        | inl e ↦ rw (e0, e1, e2, e) (same c 13 s e)
        | inr e3 ↦ elim (Bool-cases (c == 9)) [
          | inl e ↦ rw (e0, e1, e2, e3, e) (same c 9 s e)
          | inr e4 ↦ elim (Bool-cases (c == 12)) [
            | inl e ↦ rw (e0, e1, e2, e3, e4, e) (same c 12 s e)
            | inr e5 ↦ elim (Bool-cases (c == 8)) [
              | inl e ↦ rw (e0, e1, e2, e3, e4, e5, e) (same c 8 s e)
              | inr e6 ↦ elim (Bool-cases (ltb c 32)) [
                | inl g ↦ rw (g, e0, e1, e2, e3, e4, e5, e6) (escaped_control c s g)
                | inr g ↦ rw (g, e0, e1, e2, e3, e4, e5, e6) (plain_char c s e0 e1)
              ]
            ]
          ]
        ]
      ]
    ]
  ]
]

pub scan_string-escape : (t s : Text) → scan_string plain (escape t ++ b'"' ∷ s) ≡ some (t, s)
unfolding escape scan_string
scan_string-escape [] s = refl
scan_string-escape (c ∷ t) s =
    rw (append_assoc (escape_char c) (escape t) (b'"' ∷ s))
      (scan_string-escape_char c (escape t ++ b'"' ∷ s) ∙ ap (push c) (scan_string-escape t s))
