-- ===== src/Json/Loads/Codes.antt =====
-- The text of a value holds code points, where its strings do.
use odoo_cloudflare_email.Prelude.{
  ℕ, ◌/◌, ◌%◌, ◌<◌, ◌≡◌, refl, Bool, true, false, [], ◌∷◌, ◌++◌, ltb, ◌==◌, all, All, All-append,
  arith, if◌then◌else◌,
}
use odoo_cloudflare_email.Text.{Text, codes}
use odoo_cloudflare_email.Json.{
  Json, null, bool, num, str, arr, obj, Items, nil, cons, Fields, end, field,
}
use odoo_cloudflare_email.Json.Dumps.{
  hex_digit, escape_char, escape, quote, dumps, dumps_items, dumps_fields,
}

-- A Python `str`: code points.
abbrev pub IsCodes : Text → Type 0
IsCodes = All (λ c. c < 1114112)

unfoldable mutual
  pub HasCodes : Json → Type 0
  HasCodes (num n) = IsCodes n.printed
  HasCodes (str s) = IsCodes s
  HasCodes (arr vs) = HaveCodes vs
  HasCodes (obj fs) = FieldsHaveCodes fs
  HasCodes _ = Unit

  pub HaveCodes : Items → Type 0
  HaveCodes nil = Unit
  HaveCodes (cons v vs) = HasCodes v × HaveCodes vs

  pub FieldsHaveCodes : Fields → Type 0
  FieldsHaveCodes end = Unit
  FieldsHaveCodes (field k v fs) = IsCodes k × (HasCodes v × FieldsHaveCodes fs)

abbrev Small : ℕ → Type 0
Small c = c < 1114112

pub ascii : (s : Text) → all (λ c. ltb c 128) s ≡ true → IsCodes s
ascii [] e = tt
ascii (c ∷ s) e = (ground arith, ascii s (ground arith))

join : (s t : Text) → IsCodes s → IsCodes t → IsCodes (s ++ t)
join s t p q = All-append Small s t p q

choice : (b : Bool) (s t : Text) → IsCodes s → IsCodes t → IsCodes (if b then s else t)
choice true s t p q = p
choice false s t p q = q

hex_digit_small : (n : ℕ) → n < 1000000 → hex_digit n < 1114112
unfolding hex_digit
hex_digit_small n h = ground arith

escape_char-IsCodes : (c : ℕ) → c < 1114112 → IsCodes (escape_char c)
unfolding escape_char
escape_char-IsCodes c h = choice (c == b'"') (codes "\\\"") _ (ascii (codes "\\\"") refl) (
    choice (c == 92) (codes "\\\\") _ (ascii (codes "\\\\") refl) (
      choice (c == 10) (codes "\\n") _ (ascii (codes "\\n") refl) (
        choice (c == 13) (codes "\\r") _ (ascii (codes "\\r") refl) (
          choice (c == 9) (codes "\\t") _ (ascii (codes "\\t") refl) (
            choice (c == 12) (codes "\\f") _ (ascii (codes "\\f") refl) (
              choice (c == 8) (codes "\\b") _ (ascii (codes "\\b") refl) (
                choice (ltb c 32) (codes "\\u00" ++ (hex_digit (c / 16) ∷ hex_digit (c % 16) ∷ []))
                  (c ∷ [])
                  (join (codes "\\u00") (hex_digit (c / 16) ∷ hex_digit (c % 16) ∷ [])
                    (ascii (codes "\\u00") refl)
                    (
                      hex_digit_small (c / 16) (omega arith),
                      (hex_digit_small (c % 16) (omega arith), tt),
                    ))
                  (h, tt))))))))

escape-IsCodes : (s : Text) → IsCodes s → IsCodes (escape s)
unfolding escape
escape-IsCodes [] p = tt
escape-IsCodes (c ∷ s) (h, p) =
    join (escape_char c) (escape s) (escape_char-IsCodes c h) (escape-IsCodes s p)

quote-IsCodes : (s : Text) → IsCodes s → IsCodes (quote s)
unfolding quote
quote-IsCodes s p =
    (omega arith, join (escape s) (b'"' ∷ []) (escape-IsCodes s p) (ascii (b'"' ∷ []) refl))

keyed-IsCodes : (k t : Text) → IsCodes k → IsCodes t → IsCodes (quote k ++ (codes ": " ++ t))
keyed-IsCodes k t p q =
    join (quote k) (codes ": " ++ t) (quote-IsCodes k p)
      (join (codes ": ") t (ascii (codes ": ") refl) q)

mutual
  unfolding dumps HasCodes

  pub dumps-IsCodes : (v : Json) → HasCodes v → IsCodes (dumps v)
  dumps-IsCodes null p = ascii (codes "null") refl
  dumps-IsCodes (bool true) p = ascii (codes "true") refl
  dumps-IsCodes (bool false) p = ascii (codes "false") refl
  dumps-IsCodes (num n) p = p
  dumps-IsCodes (str s) p = quote-IsCodes s p
  dumps-IsCodes (arr nil) p = ascii (codes "[]") refl
  dumps-IsCodes (arr (cons v vs)) (p, q) =
      (omega arith, join (dumps v) (dumps_items vs) (dumps-IsCodes v p) (items-IsCodes vs q))
  dumps-IsCodes (obj end) p = ascii (codes "{}") refl
  dumps-IsCodes (obj (field k v fs)) (pk, (p, q)) = (
    omega arith,
    keyed-IsCodes k (dumps v ++ dumps_fields fs) pk
        (join (dumps v) (dumps_fields fs) (dumps-IsCodes v p) (fields-IsCodes fs q)),
  )

  items-IsCodes : (vs : Items) → HaveCodes vs → IsCodes (dumps_items vs)
  items-IsCodes nil p = ascii (codes "]") refl
  items-IsCodes (cons v vs) (p, q) =
      join (codes ", ") (dumps v ++ dumps_items vs) (ascii (codes ", ") refl)
        (join (dumps v) (dumps_items vs) (dumps-IsCodes v p) (items-IsCodes vs q))

  fields-IsCodes : (fs : Fields) → FieldsHaveCodes fs → IsCodes (dumps_fields fs)
  fields-IsCodes end p = ascii (codes "}") refl
  fields-IsCodes (field k v fs) (pk, (p, q)) =
      join (codes ", ") (quote k ++ (codes ": " ++ (dumps v ++ dumps_fields fs)))
        (ascii (codes ", ") refl)
        (keyed-IsCodes k (dumps v ++ dumps_fields fs) pk
          (join (dumps v) (dumps_fields fs) (dumps-IsCodes v p) (fields-IsCodes fs q)))
