-- ===== src/Worker/Inbox/Order.antt =====
-- `ORDER BY` and `LIMIT` over a list.
use odoo_cloudflare_email.Prelude.{
  ℕ, zero, suc, Bool, true, false, ◌&&◌, ◌||◌, List, [], ◌∷◌, ltb, if◌then◌else◌, ◌==◌, All,
  Bool-cases, inl, inr,
}
use odoo_cloudflare_email.Text.{Text}

-- The order of texts in SQLite, which compares their bytes in UTF-8.
unfoldable pub text_before : Text → Text → Bool
text_before s [] = false
text_before [] (d ∷ t) = true
text_before (c ∷ s) (d ∷ t) = ltb c d || c == d && text_before s t

module _ {ℓ} {A : Type ℓ} where
  unfoldable pub insert : (A → A → Bool) → A → List A → List A
  insert before x [] = x ∷ []
  insert before x (y ∷ ys) =
      let rest = insert before x ys in if before y x then y ∷ rest else x ∷ y ∷ ys

  unfoldable pub sort_by : (A → A → Bool) → List A → List A
  unfolding insert
  sort_by before [] = []
  sort_by before (x ∷ xs) = insert before x (sort_by before xs)

  unfoldable pub keep : (A → Bool) → List A → List A
  keep p [] = []
  keep p (x ∷ xs) = let rest = keep p xs in if p x then x ∷ rest else rest

  unfoldable pub take : ℕ → List A → List A
  take zero xs = []
  take (suc n) [] = []
  take (suc n) (x ∷ xs) = x ∷ take n xs

  module _ {κ} (Q : A → Type κ) where
    insert-All :
        (before : A → A → Bool) (x : A) (xs : List A) → Q x → All Q xs → All Q (insert before x xs)
    unfolding insert
    insert-All before x [] q qs = (q, tt)
    insert-All before x (y ∷ ys) q (qy, qs) = elim (Bool-cases (before y x)) [
      | inl e ↦ rw e (qy, insert-All before x ys q qs)
      | inr e ↦ rw e (q, (qy, qs))
    ]

    pub sort_by-All : (before : A → A → Bool) (xs : List A) → All Q xs → All Q (sort_by before xs)
    unfolding sort_by
    sort_by-All before [] q = tt
    sort_by-All before (x ∷ xs) (q, qs) =
        insert-All before x (sort_by before xs) q (sort_by-All before xs qs)

    pub take-All : (n : ℕ) (xs : List A) → All Q xs → All Q (take n xs)
    unfolding take
    take-All zero xs q = tt
    take-All (suc n) [] q = tt
    take-All (suc n) (x ∷ xs) (q, qs) = (q, take-All n xs qs)
