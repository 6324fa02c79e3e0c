-- ===== src/Json/Loads/Steps.antt =====
-- One step of the reader on what `dumps` writes.
use mathlib.Core.List.{append_assoc}
use odoo_cloudflare_email.Prelude.{
  ℕ, suc, ◌≡◌, refl, ap, ◌∙◌, true, false, some, [], ◌∷◌, ◌++◌, ◌==◌,
}
use odoo_cloudflare_email.Text.{Text, codes}
use odoo_cloudflare_email.Json.{
  Json, null, bool, num, str, arr, obj, Items, nil, cons, Fields, end, field,
}
use odoo_cloudflare_email.Json.Dumps.{escape, quote, dumps}
use odoo_cloudflare_email.Json.Loads.{
  plain, scan_string, skip, value, first_item, next_item, more_items, next_field, keyed,
  more_fields,
}
use odoo_cloudflare_email.Json.Loads.Strings.{scan_string-escape}

-- A value without numbers.
unfoldable mutual
  pub IsNumberless : Json → Type 0
  IsNumberless (num n) = ⊥
  IsNumberless (arr vs) = AreNumberless vs
  IsNumberless (obj fs) = HaveNumberless fs
  IsNumberless _ = Unit

  pub AreNumberless : Items → Type 0
  AreNumberless nil = Unit
  AreNumberless (cons v vs) = IsNumberless v × AreNumberless vs

  pub HaveNumberless : Fields → Type 0
  HaveNumberless end = Unit
  HaveNumberless (field k v fs) = IsNumberless v × HaveNumberless fs

-- How the text of a value begins.
record Begins (t : Text) : Type 0 where
  head : ℕ
  tail : Text
  split : t ≡ head ∷ tail
  no_end : (head == b']') ≡ false
  no_blank : (head == b' ') ≡ false

begins : (c : ℕ) (t : Text) → (c == b']') ≡ false → (c == b' ') ≡ false → Begins (c ∷ t)
begins c t e f = record { head = c; tail = t; split = refl; no_end = e; no_blank = f }

dumps-Begins : (v : Json) → IsNumberless v → Begins (dumps v)
unfolding dumps quote IsNumberless
dumps-Begins null p = begins _ _ refl refl
dumps-Begins (bool true) p = begins _ _ refl refl
dumps-Begins (bool false) p = begins _ _ refl refl
dumps-Begins (num n) p = absurd p
dumps-Begins (str s) p = begins _ _ refl refl
dumps-Begins (arr nil) p = begins _ _ refl refl
dumps-Begins (arr (cons v vs)) p = begins _ _ refl refl
dumps-Begins (obj end) p = begins _ _ refl refl
dumps-Begins (obj (field k v fs)) p = begins _ _ refl refl

pub skip-dumps : (v : Json) (s : Text) → IsNumberless v → skip (dumps v ++ s) ≡ dumps v ++ s
unfolding skip
skip-dumps v s p = let b = dumps-Begins v p in rw (b.split) (rw (b.no_blank, skip) refl)

pub first_item-dumps :
    (n : ℕ) (v : Json) (s : Text)
    → IsNumberless v
    → first_item (suc n) (dumps v ++ s) ≡ next_item n (dumps v ++ s)
unfolding value
first_item-dumps n v s p = let b = dumps-Begins v p in rw (b.split) (rw (b.no_end, first_item) refl)

pub next_item-dumps :
    (n : ℕ) (v : Json) (vs : Items) (t rest : Text)
    → value n (dumps v ++ t) ≡ some (v, t)
    → more_items n t ≡ some (vs, rest)
    → next_item (suc n) (dumps v ++ t) ≡ some (cons v vs, rest)
unfolding value
next_item-dumps n v vs t rest e f = rw (e, next_item) (rw (f) refl)

pub scan_string-quote :
    (k s : Text) → scan_string plain ((escape k ++ b'"' ∷ []) ++ s) ≡ some (k, s)
scan_string-quote k s = rw (append_assoc (escape k) (b'"' ∷ []) s) (scan_string-escape k s)

keyed-dumps :
    (n : ℕ) (k : Text) (v : Json) (fs : Fields) (t rest : Text)
    → IsNumberless v
    → value n (dumps v ++ t) ≡ some (v, t)
    → more_fields n t ≡ some (fs, rest)
    → keyed (suc n) k (some (b' ' ∷ (dumps v ++ t))) ≡ some (field k v fs, rest)
unfolding value
keyed-dumps n k v fs t rest p e f = rw (skip-dumps v t p, keyed) (rw (e, keyed) (rw (f) refl))

pub next_field-dumps :
    (n : ℕ) (k : Text) (v : Json) (fs : Fields) (t rest : Text)
    → IsNumberless v
    → value n (dumps v ++ t) ≡ some (v, t)
    → more_fields n t ≡ some (fs, rest)
    → next_field (suc (suc n)) (quote k ++ (codes ": " ++ (dumps v ++ t)))
      ≡ some (field k v fs, rest)
unfolding value quote
next_field-dumps n k v fs t rest p e f =
    rw (scan_string-quote k (codes ": " ++ (dumps v ++ t)), next_field)
      (keyed-dumps n k v fs t rest p e f)

pub field_assoc :
    (k : Text) (v : Json) (t rest : Text)
    → (quote k ++ (codes ": " ++ (dumps v ++ t))) ++ rest
      ≡ quote k ++ (codes ": " ++ (dumps v ++ (t ++ rest)))
field_assoc k v t rest =
    append_assoc (quote k) (codes ": " ++ (dumps v ++ t)) rest
    ∙ ap (λ (l : Text). quote k ++ (codes ": " ++ l)) (append_assoc (dumps v) t rest)
