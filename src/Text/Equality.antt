-- ===== src/Text/Equality.antt =====
-- Equality of texts, and membership in a collection of texts (a Python set, or a dict's keys).
use odoo_cloudflare_email.Prelude.{
  ℕ, ◌+◌, ◌≡◌, refl, ◌↔◌, Bool, true, false, ◌&&◌, ◌||◌, List, [], ◌∷◌, ◌++◌, arith, ◌==◌,
  Bool-cases, indicator, inl, inr,
}

-- Code points.
abbrev pub Text : Type 0
Text = List ℕ

unfoldable pub text_eq : Text → Text → Bool
text_eq [] [] = true
text_eq (c ∷ s) (d ∷ t) = c == d && text_eq s t
text_eq _ _ = false

pub text_eq→eq : (s t : Text) → text_eq s t ≡ true → s ≡ t
unfolding text_eq
text_eq→eq [] [] h = refl
text_eq→eq [] (d ∷ t) h = cc
text_eq→eq (c ∷ s) [] h = cc
text_eq→eq (c ∷ s) (d ∷ t) h = ground (arith, text_eq→eq s t)

pub text_eq_refl : (s : Text) → text_eq s s ≡ true
unfolding text_eq
text_eq_refl [] = refl
text_eq_refl (c ∷ s) = ground (arith, text_eq_refl s)

pub text_eq_iff : (s t : Text) → (text_eq s t ≡ true) ↔ (s ≡ t)
text_eq_iff s t = (text_eq→eq s t, λ e. rw e (text_eq_refl t))

unfoldable pub contains : Text → List Text → Bool
contains k [] = false
contains k (x ∷ xs) = text_eq x k || contains k xs

unfoldable pub count : Text → List Text → ℕ
count k [] = 0
count k (x ∷ xs) = indicator (text_eq x k) + count k xs

pub contains-append :
    (k : Text) (xs ys : List Text) → contains k (xs ++ ys) ≡ (contains k xs || contains k ys)
unfolding contains
contains-append k [] ys = refl
contains-append k (x ∷ xs) ys = ground (arith, contains-append k xs ys)

pub count-append : (k : Text) (xs ys : List Text) → count k (xs ++ ys) ≡ count k xs + count k ys
unfolding count
count-append k [] ys = omega arith
count-append k (x ∷ xs) ys = omega (arith, count-append k xs ys)

-- A test for a member that is there already adds nothing.
pub contains-absorb :
    (j k : Text) (xs : List Text)
    → contains j xs ≡ true
    → contains k xs ≡ (text_eq j k || contains k xs)
contains-absorb j k xs h = elim (Bool-cases (text_eq j k)) [
  | inl same ↦ rw same (rw (← text_eq→eq j k same) h)
  | inr other ↦ rw other
]

pub count_of_absent : (k : Text) (xs : List Text) → contains k xs ≡ false → count k xs ≡ 0
unfolding count contains
count_of_absent k [] e = refl
count_of_absent k (x ∷ xs) e = ground (arith, count_of_absent k xs)
