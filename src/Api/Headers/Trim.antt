-- ===== src/Api/Headers/Trim.antt =====
-- The loop that drops references: what it keeps, and that it drops no more than it has to.
use odoo_cloudflare_email.Prelude.{
  ◌≡◌, refl, true, false, List, [], ◌∷◌, ◌++◌, sym, ap, ◌∙◌, Bool-cases, inl, inr, ◌⊎◌, is_empty,
}
use odoo_cloudflare_email.Text.{Text}
use odoo_cloudflare_email.Text.Dict.{Dict, put-put}
use odoo_cloudflare_email.Api.Headers.{trim, set_references, references_oversized}

set_references_twice :
    (rs ss : List Text) (d : Dict) → set_references rs (set_references ss d) ≡ set_references rs d
unfolding set_references
set_references_twice rs ss d = put-put _ _ _ d

-- Whether the headers fit with these references, or there is but one left to drop.
abbrev pub IsMinimal : List Text → List Text → Dict → Type 0
IsMinimal [] kept base = Unit
IsMinimal (r ∷ dropped) kept base =
    (references_oversized (set_references (r ∷ (dropped ++ kept)) base) ≡ true)
    × IsMinimal dropped kept base

-- The outcome of the loop on `refs`, when the other headers are `base`.
pub record IsTrimmed (refs : List Text) (base : Dict) (kept : List Text) (headers : Dict)
    : Type 0 where
  pub dropped : List Text
  pub split : refs ≡ dropped ++ kept
  pub left : is_empty refs ≡ is_empty kept
  pub written : headers ≡ set_references kept base
  pub minimal : IsMinimal dropped kept base
  pub enough : (references_oversized headers ≡ false) ⊎ ((r : Text) × (kept ≡ r ∷ []))

-- The loop keeps a suffix of the references, all but empty, and writes it; each one that it
-- dropped was at the head of references that did not fit; it stops when they fit or one is left.
pub trim-IsTrimmed :
    (r : Text) (rest : List Text) (base headers : Dict)
    → headers ≡ set_references (r ∷ rest) base
    → IsTrimmed (r ∷ rest) base (trim (r ∷ rest) headers).0 (trim (r ∷ rest) headers).1
unfolding trim
trim-IsTrimmed r [] base headers e = record {
  dropped = [];
  split = refl;
  left = refl;
  written = e;
  minimal = tt;
  enough = inr (r, refl);
}
trim-IsTrimmed r (s ∷ rest) base headers e = elim (Bool-cases (references_oversized headers)) [
  | inl big ↦
      let ih =
        trim-IsTrimmed s rest base (set_references (s ∷ rest) headers) (
          ap (set_references (s ∷ rest)) e ∙ set_references_twice (s ∷ rest) (r ∷ s ∷ rest) base) in
      rw (big, trim)
        (record {
          dropped = r ∷ ih.dropped;
          split = ap (λ (l : List Text). r ∷ l) ih.split;
          left = ih.left;
          written = ih.written;
          minimal = (
            ap (λ (l : List Text). references_oversized (set_references (r ∷ l) base))
                  (sym ih.split)
                ∙ ap references_oversized (sym e)
                ∙ big,
            ih.minimal,
          );
          enough = ih.enough;
        })
  | inr fits ↦
      rw (fits, trim)
        (record {
          dropped = [];
          split = refl;
          left = refl;
          written = e;
          minimal = tt;
          enough = inl fits;
        })
]
