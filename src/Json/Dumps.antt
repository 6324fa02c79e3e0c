-- ===== src/Json/Dumps.antt =====
-- `json.dumps(payload, ensure_ascii=False)`.
use odoo_cloudflare_email.Prelude.{
  ℕ, ◌+◌, ◌-◌, ◌/◌, ◌%◌, ◌≡◌, refl, [], ◌∷◌, ◌++◌, ltb, ◌==◌, if◌then◌else◌, true, false,
}
use odoo_cloudflare_email.Text.{Text, codes}
use odoo_cloudflare_email.Json.{
  Json, null, bool, num, str, arr, obj, Items, nil, cons, Fields, end, field,
}

unfoldable pub hex_digit : ℕ → ℕ
hex_digit n = if ltb n 10 then b'0' + n else b'a' + (n - 10)

-- The quote, the backslash and the control characters are escaped.
unfoldable pub escape_char : ℕ → Text
unfolding hex_digit
escape_char c =
    if c == b'"'
    then codes "\\\""
    else if c == 92
    then codes "\\\\"
    else if c == 10
    then codes "\\n"
    else if c == 13
    then codes "\\r"
    else if c == 9
    then codes "\\t"
    else if c == 12
    then codes "\\f"
    else if c == 8
    then codes "\\b"
    else if ltb c 32
    then codes "\\u00" ++ (hex_digit (c / 16) ∷ hex_digit (c % 16) ∷ [])
    else c ∷ []

unfoldable pub escape : Text → Text
unfolding escape_char
escape [] = []
escape (c ∷ s) = escape_char c ++ escape s

unfoldable pub quote : Text → Text
unfolding escape
quote s = b'"' ∷ (escape s ++ b'"' ∷ [])

unfoldable mutual
  unfolding quote

  pub dumps : Json → Text
  dumps null = codes "null"
  dumps (bool true) = codes "true"
  dumps (bool false) = codes "false"
  dumps (num n) = n.printed
  dumps (str s) = quote s
  dumps (arr nil) = codes "[]"
  dumps (arr (cons v vs)) = b'[' ∷ (dumps v ++ dumps_items vs)
  dumps (obj end) = codes "{}"
  dumps (obj (field k v fs)) = b'{' ∷ (quote k ++ (codes ": " ++ (dumps v ++ dumps_fields fs)))

  pub dumps_items : Items → Text
  dumps_items nil = codes "]"
  dumps_items (cons v vs) = codes ", " ++ (dumps v ++ dumps_items vs)

  pub dumps_fields : Fields → Text
  dumps_fields end = codes "}"
  dumps_fields (field k v fs) =
      codes ", " ++ (quote k ++ (codes ": " ++ (dumps v ++ dumps_fields fs)))

dumps_test :
    dumps (
      obj (
        field
          (codes "a\n")
          (arr (cons null (cons (str (codes "é\"")) nil)))
          (field (codes "b") (obj end) end)))
    ≡ codes "{\"a\\n\": [null, \"é\\\"\"], \"b\": {}}"
unfolding dumps
dumps_test = refl
