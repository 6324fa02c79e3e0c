-- ===== src/Worker/Handoff/Prepared.antt =====
-- The webhook's preparation leaves a message alone that the Worker stored: its head has the two
-- headers, whatever the raw message is.
use mathlib.Core.List.{append_assoc}
use odoo_cloudflare_email.Prelude.{
  ◌≡◌, refl, ◌∙◌, ap, true, false, Option, none, some, List, [], ◌∷◌, ◌++◌, map, All, Bool-cases,
  inl, inr, arith,
}
use odoo_cloudflare_email.Text.{Text, Bytes, codes, contains, strip, text_eq, utf8}
use odoo_cloudflare_email.Text.Equality.{text_eq_refl}
use odoo_cloudflare_email.Errors.{ok}
use odoo_cloudflare_email.Api.Host.{ascii_lower}
use odoo_cloudflare_email.Fetchmail.Envelope.{
  at_line_end, at_block_end, head_of, line_start, past, names_from, existing_header_names,
  has_control, delivered_to_line, return_path_line, joined_lines, added_lines, with_envelope,
  check_envelope, prepare_message,
}
use odoo_cloudflare_email.Fetchmail.Envelope.Lines.{
  IsPlain, All-IsPlain, utf8-IsPlain, utf8-append, at_block_end_plain, head_of-cons,
}
use odoo_cloudflare_email.Fetchmail.Envelope.Names.{
  IsAddedLine, delivered_to, return_path, names-line, IsAddedLine-starts, IsAddedLine-IsPlain,
  closed,
}

-- A line that ends the head: an empty line follows.
head_of-last :
    (line rest : Bytes)
    → All IsPlain line
    → at_line_end rest ≡ true
    → head_of (line ++ 13 ∷ 10 ∷ rest) ≡ line
unfolding head_of at_block_end
head_of-last [] rest p e = rw (e, head_of) refl
head_of-last (c ∷ line) rest ((feed, return), p) e =
    head_of-cons c (line ++ 13 ∷ 10 ∷ rest)
      (at_block_end_plain c (line ++ 13 ∷ 10 ∷ rest) (feed, return))
    ∙ ap (λ (t : Bytes). c ∷ t) (head_of-last line rest p e)

names_from-past_last : (line : Bytes) → All IsPlain line → names_from past line ≡ []
unfolding names_from line_start
names_from-past_last [] p = refl
names_from-past_last (c ∷ line) ((feed, _), p) = ground (arith, feed, names_from-past_last line p)

last-name :
    {name line : Text}
    → IsAddedLine name line
    → map (map ascii_lower) (names_from line_start (utf8 line)) ≡ name ∷ []
unfolding utf8 names_from line_start
last-name (delivered_to address p) =
    ap (λ names. codes "delivered-to" ∷ map (map ascii_lower) names)
      (names_from-past_last (utf8 address) (utf8-IsPlain address p))
last-name (return_path address p) =
    ap (λ names. codes "return-path" ∷ map (map ascii_lower) names)
      (names_from-past_last (utf8 (address ++ codes ">"))
        (utf8-IsPlain (address ++ codes ">") (closed address p)))

-- The name of a first line is there, whatever follows.
contains-line :
    {name line : Text} (rest : Bytes)
    → IsAddedLine name line
    → contains name (existing_header_names (utf8 line ++ 13 ∷ 10 ∷ rest)) ≡ true
unfolding contains existing_header_names
contains-line {name = name} {line = line} rest l = elim (Bool-cases (at_line_end rest)) [
  | inl e ↦
      rw (head_of-last (utf8 line) rest (IsAddedLine-IsPlain l) e)
        (rw (last-name l, text_eq_refl name) refl)
  | inr e ↦ rw (names-line rest l e, text_eq_refl name) refl
]

spread :
    (line rest : Text) (raw : Bytes)
    → utf8 (line ++ (codes "\r\n" ++ rest)) ++ raw ≡ utf8 line ++ 13 ∷ 10 ∷ (utf8 rest ++ raw)
unfolding utf8
spread line rest raw =
    ap (λ (t : Bytes). t ++ raw) (utf8-append line (codes "\r\n" ++ rest))
    ∙ append_assoc (utf8 line) (utf8 (codes "\r\n" ++ rest)) raw

-- The two lines of the Worker.
abbrev pub delivered_to_of : Text → Text
delivered_to_of to = codes "Delivered-To: " ++ to

abbrev pub return_path_of : Text → Text
return_path_of from = codes "Return-Path: <" ++ (from ++ codes ">")

abbrev pub stored_of : Text → Text → Bytes → Bytes
stored_of from to raw = utf8 (joined_lines (delivered_to_of to ∷ return_path_of from ∷ [])) ++ raw

other_name :
    (names : List Text)
    → contains (codes "return-path") (codes "delivered-to" ∷ names)
      ≡ contains (codes "return-path") names
unfolding contains text_eq
other_name names = refl

stored-has_both :
    (from to : Text) (raw : Bytes)
    → has_control from ≡ false
    → has_control to ≡ false
    → (contains (codes "delivered-to") (existing_header_names (stored_of from to raw)) ≡ true)
      × (contains (codes "return-path") (existing_header_names (stored_of from to raw)) ≡ true)
unfolding joined_lines utf8
stored-has_both from to raw clean_from clean_to =
    let first = delivered_to to (All-IsPlain to clean_to) in
    let second = return_path from (All-IsPlain from clean_from) in
    let rest = utf8 (return_path_of from) ++ 13 ∷ 10 ∷ raw in
    let same : stored_of from to raw ≡ utf8 (delivered_to_of to) ++ 13 ∷ 10 ∷ rest =
      spread (delivered_to_of to) (return_path_of from ++ (codes "\r\n" ++ [])) raw
      ∙ ap (λ (t : Bytes). utf8 (delivered_to_of to) ++ 13 ∷ 10 ∷ t)
          (spread (return_path_of from) [] raw) in
    rw same (
      contains-line rest first,
      rw (names-line rest first (IsAddedLine-starts (13 ∷ 10 ∷ raw) second)) (
          rw (other_name (existing_header_names (utf8 (return_path_of from) ++ 13 ∷ 10 ∷ raw)))
            (contains-line raw second)),
    )

no_delivered_to_line :
    (o : Option Text) (present : List Text)
    → contains (codes "delivered-to") present ≡ true
    → delivered_to_line o present ≡ []
unfolding delivered_to_line
no_delivered_to_line none present e = refl
no_delivered_to_line (some []) present e = refl
no_delivered_to_line (some (c ∷ s)) present e = rw e refl

no_return_path_line :
    (o : Option Text) (present : List Text)
    → contains (codes "return-path") present ≡ true
    → return_path_line o present ≡ []
unfolding return_path_line
no_return_path_line none present e = refl
no_return_path_line (some address) present e = rw e refl

with_envelope_both :
    (body : Bytes) (sender recipient : Option Text)
    → contains (codes "delivered-to") (existing_header_names body) ≡ true
    → contains (codes "return-path") (existing_header_names body) ≡ true
    → with_envelope body sender recipient ≡ body
unfolding with_envelope added_lines joined_lines utf8
with_envelope_both body sender recipient d r =
    rw
      (
        no_delivered_to_line recipient (existing_header_names body) d,
        no_return_path_line sender (existing_header_names body) r,
      )
      refl

module _ (unquote : Text → Text) where
  check_envelope-clean :
      (name header address : Text)
      → unquote header ≡ address
      → has_control address ≡ false
      → check_envelope unquote name (some header) ≡ ok (some (strip address))
  unfolding check_envelope
  check_envelope-clean name header address same clean = rw (same, clean) refl

  -- The two headers of the request are the addresses of the message that is stored.
  pub prepare_message-stored :
      (from to from_header to_header : Text) (raw : Bytes)
      → unquote from_header ≡ from
      → unquote to_header ≡ to
      → has_control from ≡ false
      → has_control to ≡ false
      → prepare_message unquote (stored_of from to raw) (some from_header) (some to_header)
        ≡ ok (stored_of from to raw)
  unfolding prepare_message
  prepare_message-stored from to from_header to_header raw same_from same_to clean_from clean_to =
      let (d, r) = stored-has_both from to raw clean_from clean_to in
      rw
        (
          check_envelope-clean (codes "envelope-from") from_header from same_from clean_from,
          check_envelope-clean (codes "envelope-to") to_header to same_to clean_to,
        )
        (ap ok
          (with_envelope_both (stored_of from to raw) (some (strip from)) (some (strip to)) d r))
