-- ===== src/Prelude/Lists.antt =====
-- Lists measured by native numbers, and predicates on their members.
use Prim.Native.Nat.{ℕ, suc, ◌+◌}
use mathlib.Core.Path.{◌≡◌, refl, ap}
use mathlib.Core.Bool.{Bool, true, false, ◌&&◌}
use mathlib.Core.List.{List, [], ◌∷◌, ◌++◌, map}
use native.Mathlib.Omega.{arith}

module _ {ℓ} {A : Type ℓ} where
  abbrev pub length : List A → ℕ
  length [] = 0
  length (x ∷ xs) = suc (length xs)

  abbrev pub All {κ} : (A → Type κ) → List A → Type κ
  All P [] = Unit
  All P (x ∷ xs) = P x × All P xs

  abbrev pub all : (A → Bool) → List A → Bool
  all p [] = true
  all p (x ∷ xs) = p x && all p xs

  abbrev pub is_empty : List A → Bool
  is_empty [] = true
  is_empty (x ∷ xs) = false

module _ {ℓ} {A : Type ℓ} where
  pub length-append : (xs ys : List A) → length (xs ++ ys) ≡ length xs + length ys
  length-append [] ys = omega arith
  length-append (x ∷ xs) ys = omega (arith, length-append xs ys)

  pub length-map {κ} : {B : Type κ} (f : A → B) (xs : List A) → length (map f xs) ≡ length xs
  length-map f [] = refl
  length-map f (x ∷ xs) = ap suc (length-map f xs)

  pub All-append {κ} :
      (Q : A → Type κ) (front back : List A) → All Q front → All Q back → All Q (front ++ back)
  All-append Q [] back _ q = q
  All-append Q (a ∷ front) back (p, ps) q = (p, All-append Q front back ps q)

  pub All-split {κ} :
      (Q : A → Type κ) (front back : List A) → All Q (front ++ back) → All Q front × All Q back
  All-split Q [] back q = (tt, q)
  All-split Q (a ∷ front) back (p, ps) = let (qs, rs) = All-split Q front back ps in ((p, qs), rs)

  pub All-always {κ} : {Q : A → Type κ} (xs : List A) → ((a : A) → Q a) → All Q xs
  All-always [] f = tt
  All-always (a ∷ xs) f = (f a, All-always xs f)

  pub All-weaken {κ μ} :
      {Q : A → Type κ} {R : A → Type μ} (xs : List A) → ((a : A) → Q a → R a) → All Q xs → All R xs
  All-weaken [] f q = tt
  All-weaken (a ∷ xs) f (p, q) = (f a p, All-weaken xs f q)

  pub All-zip {κ μ} :
      (Q : A → Type κ) (R : A → Type μ) (xs : List A)
      → All Q xs
      → All R xs
      → All (λ a. Q a × R a) xs
  All-zip Q R [] p q = tt
  All-zip Q R (a ∷ xs) (p, ps) (q, qs) = ((p, q), All-zip Q R xs ps qs)
