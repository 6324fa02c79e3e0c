-- ===== src/Api/Host.antt =====
-- What the addon takes from outside the repository, and the Unicode tables of Python: parameters of
-- the model. `lower` is `str.lower`, `email_split_tuples` is Odoo's address parser, and
-- `guess_extension` is `mimetypes.guess_extension`, which reads the tables of the operating system.
-- `sums_to_zero` is Python's arithmetic on two numbers of a JSON text.
use odoo_cloudflare_email.Prelude.{
  ℕ, ◌+◌, ◌<◌, ◌≡◌, ◌&&◌, List, map, Bool, Option, leb, if◌then◌else◌, All,
}
use odoo_cloudflare_email.Text.{Text}
use odoo_cloudflare_email.Json.{Number}

-- `str.lower` of an ASCII character.
abbrev pub ascii_lower : ℕ → ℕ
ascii_lower c = if leb b'A' c && leb c b'Z' then c + 32 else c

abbrev pub IsAscii : Text → Type 0
IsAscii s = All (λ c. c < 128) s

pub record Host : Type 0 where
  pub lower : Text → Text
  pub lower_lower : (s : Text) → lower (lower s) ≡ lower s
  pub lower_of_IsAscii : (s : Text) → IsAscii s → lower s ≡ map ascii_lower s
  pub email_split_tuples : Text → List (Text × Text)
  pub guess_extension : Text → Option Text
  pub sums_to_zero : Number → Number → Bool
