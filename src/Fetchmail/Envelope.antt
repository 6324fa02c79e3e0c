-- ===== src/Fetchmail/Envelope.antt =====
-- The envelope of an inbound message: `_existing_header_names`, `_cloudflare_check_envelope` and
-- `_cloudflare_prepare_message`. `urllib.parse.unquote` is a parameter.
pub mod Raises
pub mod Lines
pub mod Names
use odoo_cloudflare_email.Prelude.{
  ℕ, Bool, true, false, not, ◌&&◌, ◌||◌, Option, none, some, List, [], ◌∷◌, ◌++◌, map, ltb, leb,
  if◌then◌else◌, is_empty, ◌==◌,
}
use odoo_cloudflare_email.Text.{Text, Bytes, codes, contains, strip, utf8}
use odoo_cloudflare_email.Errors.{Result, ok, err, value_error, ◌>>=◌}
use odoo_cloudflare_email.Api.Host.{ascii_lower}

-- Whether the bytes begin with `\r?\n`.
unfoldable pub at_line_end : Bytes → Bool
at_line_end (c ∷ d ∷ _) = c == 10 || c == 13 && d == 10
at_line_end (c ∷ []) = c == 10
at_line_end [] = false

-- Whether `_HEADER_BLOCK_END_RE` matches here: two line ends.
unfoldable pub at_block_end : Bytes → Bool
unfolding at_line_end
at_block_end (c ∷ d ∷ s) =
    if c == 10 then at_line_end (d ∷ s) else c == 13 && d == 10 && at_line_end s
at_block_end _ = false

-- What stands before the first match of `_HEADER_BLOCK_END_RE`, or everything.
unfoldable pub head_of : Bytes → Bytes
unfolding at_block_end
head_of [] = []
head_of (c ∷ s) = elim (at_block_end (c ∷ s)) [ true ↦ [] | false ↦ c ∷ head_of s ]

-- The characters of a header's name.
unfoldable pub is_name_char : ℕ → Bool
is_name_char c = leb 0x21 c && leb c 0x39 || leb 0x3b c && leb c 0x7e

-- What the search for names knows: it is in a name that starts its line and has been read so far, or
-- past the place where a name can be.
pub data Place : Type 0 where
  in_name : Bytes → Place
  past : Place

unfoldable pub line_start : Place
line_start = in_name []

-- `_HEADER_NAME_RE.findall`: the names at the starts of lines.
unfoldable pub names_from : Place → Bytes → List Bytes
unfolding is_name_char line_start
names_from place [] = []
names_from past (c ∷ s) = names_from (if c == 10 then line_start else past) s
names_from (in_name name) (c ∷ s) =
    if c == b':'
    then (if is_empty name then names_from past s else name ∷ names_from past s)
    else if c == 10
    then names_from line_start s
    else if is_name_char c
    then names_from (in_name (name ++ c ∷ [])) s
    else names_from past s

-- `_existing_header_names`: a name is ASCII, and decoded and lowered byte by byte.
unfoldable pub existing_header_names : Bytes → List Text
unfolding head_of names_from line_start
existing_header_names body = map (map ascii_lower) (names_from line_start (head_of body))

-- `_ENVELOPE_FORBIDDEN_RE.search`.
unfoldable pub has_control : Text → Bool
has_control [] = false
has_control (c ∷ s) = ltb c 0x20 || c == 0x7f || has_control s

-- The line that a present header makes superfluous.
unfoldable pub delivered_to_line : Option Text → List Text → List Text
delivered_to_line none present = []
delivered_to_line (some address) present =
    if not (is_empty address) && not (contains (codes "delivered-to") present)
    then (codes "Delivered-To: " ++ address) ∷ []
    else []

unfoldable pub return_path_line : Option Text → List Text → List Text
return_path_line none present = []
return_path_line (some address) present =
    if not (contains (codes "return-path") present)
    then (codes "Return-Path: <" ++ (address ++ codes ">")) ∷ []
    else []

-- The lines, each with its end.
unfoldable pub joined_lines : List Text → Text
joined_lines [] = []
joined_lines (line ∷ lines) = line ++ (codes "\r\n" ++ joined_lines lines)

-- The lines that are added to a body whose headers have the names `present`.
unfoldable pub added_lines : Option Text → Option Text → List Text → List Text
unfolding delivered_to_line return_path_line
added_lines envelope_from envelope_to present =
    delivered_to_line envelope_to present ++ return_path_line envelope_from present

-- The message from the two checked addresses on; without a line to add it is the body itself.
unfoldable pub with_envelope : Bytes → Option Text → Option Text → Bytes
unfolding added_lines joined_lines existing_header_names
with_envelope body envelope_from envelope_to =
    utf8 (joined_lines (added_lines envelope_from envelope_to (existing_header_names body))) ++ body

abbrev pub control_characters : Text → Text
control_characters name = codes "Invalid " ++ (name ++ codes " address: control characters")

module _ (unquote : Text → Text) where
  -- `_cloudflare_check_envelope`; the error's text names the header.
  unfoldable pub check_envelope : Text → Option Text → Result (Option Text)
  unfolding has_control
  check_envelope name none = ok none
  check_envelope name (some value) =
      if has_control (unquote value)
      then err (value_error (control_characters name))
      else ok (some (strip (unquote value)))

  -- `_cloudflare_prepare_message` of a body in bytes.
  unfoldable pub prepare_message : Bytes → Option Text → Option Text → Result Bytes
  unfolding check_envelope with_envelope
  prepare_message body envelope_from envelope_to = do
    sender ← check_envelope (codes "envelope-from") envelope_from
    recipient ← check_envelope (codes "envelope-to") envelope_to
    ok (with_envelope body sender recipient)
