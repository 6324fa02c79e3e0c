-- ===== src/Samples.antt =====
-- A concrete host and messages for the tests and examples: its texts are ASCII, and its address
-- lists are bare addresses between commas.
use mathlib.Core.List.{reverse}
use odoo_cloudflare_email.Prelude.{
  ◌≡◌, refl, true, false, List, [], ◌∷◌, map, none, arith, ◌&&◌, ◌==◌, if◌then◌else◌, is_empty,
}
use odoo_cloudflare_email.Text.{Text, strip}
use odoo_cloudflare_email.Api.Host.{Host, ascii_lower}

pub ascii_lower_idem : (s : Text) → map ascii_lower (map ascii_lower s) ≡ map ascii_lower s
ascii_lower_idem [] = refl
ascii_lower_idem (c ∷ s) = ground (arith, ascii_lower_idem s)

-- The addresses between commas; `part` is what has been read of one, last character first.
unfoldable pub split_commas : Text → Text → List (Text × Text)
split_commas part [] = if is_empty (strip part) then [] else ([], reverse (strip part)) ∷ []
split_commas part (c ∷ s) = elim (c == b',') [
  | true ↦
      if is_empty (strip part)
      then split_commas [] s
      else ([], reverse (strip part)) ∷ split_commas [] s
  | false ↦ split_commas (c ∷ part) s
]

abbrev pub ascii_host : Host
ascii_host = record {
  lower = map ascii_lower;
  lower_lower = ascii_lower_idem;
  lower_of_IsAscii = λ s _. refl;
  email_split_tuples = split_commas [];
  guess_extension = λ _. none;
  sums_to_zero = λ m n. m.is_zero && n.is_zero;
}
