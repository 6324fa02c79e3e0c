-- ===== src/Json/Loads/RoundTrip.antt =====
-- What `dumps` writes is read back.
use mathlib.Core.List.{append_assoc, append-nil}
use odoo_cloudflare_email.Prelude.{
  ℕ, zero, suc, ◌+◌, ◌*◌, ◌≤◌, ◌≡◌, refl, ap, ◌∙◌, true, false, some, [], ◌∷◌, ◌++◌, length,
  length-append, arith,
}
use odoo_cloudflare_email.Text.{Text, codes}
use odoo_cloudflare_email.Json.{
  Json, null, bool, num, str, arr, obj, Items, nil, cons, Fields, end, field,
}
use odoo_cloudflare_email.Json.Dumps.{quote, dumps, dumps_items, dumps_fields}
use odoo_cloudflare_email.Json.Loads.{
  value, next_item, more_items, more_fields, list_value, dict_value, loads, whole,
}
use odoo_cloudflare_email.Json.Loads.Steps.{
  IsNumberless, AreNumberless, HaveNumberless, skip-dumps, first_item-dumps, next_item-dumps,
  scan_string-quote, next_field-dumps, field_assoc,
}

-- The fuel that a value takes.
unfoldable mutual
  fuel : Json → ℕ
  fuel (arr nil) = 2
  fuel (arr (cons v vs)) = 3 + (fuel v + fuel_items vs)
  fuel (obj end) = 2
  fuel (obj (field k v fs)) = 4 + (fuel v + fuel_fields fs)
  fuel _ = 1

  fuel_items : Items → ℕ
  fuel_items nil = 1
  fuel_items (cons v vs) = 2 + (fuel v + fuel_items vs)

  fuel_fields : Fields → ℕ
  fuel_fields end = 1
  fuel_fields (field k v fs) = 3 + (fuel v + fuel_fields fs)

-- With enough fuel the value is read back, and what follows it is left.
mutual
  unfolding value dumps quote fuel IsNumberless

  value-dumps :
      (v : Json) (n : ℕ) (rest : Text)
      → IsNumberless v
      → fuel v ≤ n
      → value n (dumps v ++ rest) ≡ some (v, rest)
  value-dumps null zero rest p le = absurd (omega (arith, le))
  value-dumps null (suc n) rest p le = refl
  value-dumps (bool true) zero rest p le = absurd (omega (arith, le))
  value-dumps (bool true) (suc n) rest p le = refl
  value-dumps (bool false) zero rest p le = absurd (omega (arith, le))
  value-dumps (bool false) (suc n) rest p le = refl
  value-dumps (num x) n rest p le = absurd p
  value-dumps (str s) zero rest p le = absurd (omega (arith, le))
  value-dumps (str s) (suc n) rest p le = rw (scan_string-quote s rest) refl
  value-dumps (arr nil) zero rest p le = absurd (omega (arith, le))
  value-dumps (arr nil) (suc zero) rest p le = absurd (omega (arith, le))
  value-dumps (arr nil) (suc (suc n)) rest p le = refl
  value-dumps (arr (cons v vs)) zero rest p le = absurd (omega (arith, le))
  value-dumps (arr (cons v vs)) (suc zero) rest p le = absurd (omega (arith, le))
  value-dumps (arr (cons v vs)) (suc (suc zero)) rest p le = absurd (omega (arith, le))
  value-dumps (arr (cons v vs)) (suc (suc (suc n))) rest (p, q) le =
      rw (append_assoc (dumps v) (dumps_items vs) rest) (
        ap list_value (
          first_item-dumps (suc n) v (dumps_items vs ++ rest) p
          ∙ next_item-dumps n v vs (dumps_items vs ++ rest) rest
              (value-dumps v n (dumps_items vs ++ rest) p (omega (arith, le)))
              (items-dumps vs n rest q (omega (arith, le)))))
  value-dumps (obj end) zero rest p le = absurd (omega (arith, le))
  value-dumps (obj end) (suc zero) rest p le = absurd (omega (arith, le))
  value-dumps (obj end) (suc (suc n)) rest p le = refl
  value-dumps (obj (field k v fs)) zero rest p le = absurd (omega (arith, le))
  value-dumps (obj (field k v fs)) (suc zero) rest p le = absurd (omega (arith, le))
  value-dumps (obj (field k v fs)) (suc (suc zero)) rest p le = absurd (omega (arith, le))
  value-dumps (obj (field k v fs)) (suc (suc (suc zero))) rest p le = absurd (omega (arith, le))
  value-dumps (obj (field k v fs)) (suc (suc (suc (suc n)))) rest (p, q) le =
      ap (λ (l : Text). value (suc (suc (suc (suc n)))) (b'{' ∷ l))
        (field_assoc k v (dumps_fields fs) rest)
      ∙ ap dict_value (
          next_field-dumps n k v fs (dumps_fields fs ++ rest) rest p
            (value-dumps v n (dumps_fields fs ++ rest) p (omega (arith, le)))
            (fields-dumps fs n rest q (omega (arith, le))))

  items-dumps :
      (vs : Items) (n : ℕ) (rest : Text)
      → AreNumberless vs
      → fuel_items vs ≤ n
      → more_items n (dumps_items vs ++ rest) ≡ some (vs, rest)
  items-dumps nil zero rest p le = absurd (omega (arith, le))
  items-dumps nil (suc n) rest p le = refl
  items-dumps (cons v vs) zero rest p le = absurd (omega (arith, le))
  items-dumps (cons v vs) (suc zero) rest p le = absurd (omega (arith, le))
  items-dumps (cons v vs) (suc (suc n)) rest (p, q) le =
      rw (append_assoc (dumps v) (dumps_items vs) rest) (
        ap (next_item (suc n)) (skip-dumps v (dumps_items vs ++ rest) p)
        ∙ next_item-dumps n v vs (dumps_items vs ++ rest) rest
            (value-dumps v n (dumps_items vs ++ rest) p (omega (arith, le)))
            (items-dumps vs n rest q (omega (arith, le))))

  fields-dumps :
      (fs : Fields) (n : ℕ) (rest : Text)
      → HaveNumberless fs
      → fuel_fields fs ≤ n
      → more_fields n (dumps_fields fs ++ rest) ≡ some (fs, rest)
  fields-dumps end zero rest p le = absurd (omega (arith, le))
  fields-dumps end (suc n) rest p le = refl
  fields-dumps (field k v fs) zero rest p le = absurd (omega (arith, le))
  fields-dumps (field k v fs) (suc zero) rest p le = absurd (omega (arith, le))
  fields-dumps (field k v fs) (suc (suc zero)) rest p le = absurd (omega (arith, le))
  fields-dumps (field k v fs) (suc (suc (suc n))) rest (p, q) le =
      ap (λ (l : Text). more_fields (suc (suc (suc n))) (b',' ∷ b' ' ∷ l))
        (field_assoc k v (dumps_fields fs) rest)
      ∙ next_field-dumps n k v fs (dumps_fields fs ++ rest) rest p
          (value-dumps v n (dumps_fields fs ++ rest) p (omega (arith, le)))
          (fields-dumps fs n rest q (omega (arith, le)))

length-field :
    (k : Text) (v : Json) (fs : Fields)
    → 2 + (length (dumps v) + length (dumps_fields fs))
      ≤ length (quote k ++ (codes ": " ++ (dumps v ++ dumps_fields fs)))
length-field k v fs = omega (
  arith,
  length-append (quote k) (codes ": " ++ (dumps v ++ dumps_fields fs)),
  length-append (dumps v) (dumps_fields fs),
)

mutual
  unfolding dumps quote fuel IsNumberless

  fuel_le : (v : Json) → IsNumberless v → fuel v ≤ 3 * length (dumps v)
  fuel_le null p = omega arith
  fuel_le (bool true) p = omega arith
  fuel_le (bool false) p = omega arith
  fuel_le (num n) p = absurd p
  fuel_le (str s) p = omega arith
  fuel_le (arr nil) p = omega arith
  fuel_le (arr (cons v vs)) (p, q) =
      omega (arith, fuel_le v p, fuel_items_le vs q, length-append (dumps v) (dumps_items vs))
  fuel_le (obj end) p = omega arith
  fuel_le (obj (field k v fs)) (p, q) =
      omega (arith, fuel_le v p, fuel_fields_le fs q, length-field k v fs)

  fuel_items_le : (vs : Items) → AreNumberless vs → fuel_items vs ≤ 3 * length (dumps_items vs)
  fuel_items_le nil p = omega arith
  fuel_items_le (cons v vs) (p, q) =
      omega (arith, fuel_le v p, fuel_items_le vs q, length-append (dumps v) (dumps_items vs))

  fuel_fields_le : (fs : Fields) → HaveNumberless fs → fuel_fields fs ≤ 3 * length (dumps_fields fs)
  fuel_fields_le end p = omega arith
  fuel_fields_le (field k v fs) (p, q) =
      omega (arith, fuel_le v p, fuel_fields_le fs q, length-field k v fs)

-- A value without numbers is read back from its text.
pub loads-dumps : (v : Json) → IsNumberless v → loads (dumps v) ≡ some v
unfolding loads
loads-dumps v p =
    ap whole (rw append-nil at (value-dumps v (3 * length (dumps v)) [] p (fuel_le v p)))
