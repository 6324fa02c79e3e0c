-- ===== src/Fetchmail/Envelope/Names.antt =====
-- Which header names the prepared message has.
use mathlib.Core.List.{append_assoc}
use odoo_cloudflare_email.Prelude.{
  ◌≡◌, refl, ◌∙◌, ap, false, not, ◌&&◌, Option, none, some, List, [], ◌∷◌, ◌++◌, map, is_empty,
  arith, All, All-append, Bool-cases, inl, inr, ◌⊎◌,
}
use odoo_cloudflare_email.Text.{Text, Bytes, codes, contains, strip, utf8}
use odoo_cloudflare_email.Errors.{ok, Result-cases}
use odoo_cloudflare_email.Api.Mime.{or_empty}
use odoo_cloudflare_email.Api.Host.{ascii_lower}
use odoo_cloudflare_email.Fetchmail.Envelope.{
  at_line_end, head_of, line_start, names_from, existing_header_names, has_control,
  delivered_to_line, return_path_line, joined_lines, added_lines, with_envelope, check_envelope,
  prepare_message,
}
use odoo_cloudflare_email.Fetchmail.Envelope.Lines.{
  IsPlain, All-IsPlain, utf8-IsPlain, utf8-append, strip-IsPlain, names_from-past, head_of-line,
}

-- The two lines, with their names in lower case.
pub data IsAddedLine : Text → Text → Type 0 where
  delivered_to :
      (address : Text)
      → All IsPlain address
      → IsAddedLine (codes "delivered-to") (codes "Delivered-To: " ++ address)
  return_path :
      (address : Text)
      → All IsPlain address
      → IsAddedLine (codes "return-path") (codes "Return-Path: <" ++ (address ++ codes ">"))

-- Lines and the names that they add.
data AreAddedLines : List Text → List Text → Type 0 where
  no_line : AreAddedLines [] []
  line_and :
      {name line : Text} {names lines : List Text}
      → IsAddedLine name line
      → AreAddedLines names lines
      → AreAddedLines (name ∷ names) (line ∷ lines)

pub closed : (address : Text) → All IsPlain address → All IsPlain (address ++ codes ">")
closed address p = All-append IsPlain address (codes ">") p (omega arith)

pub IsAddedLine-IsPlain : {name line : Text} → IsAddedLine name line → All IsPlain (utf8 line)
IsAddedLine-IsPlain (delivered_to address p) =
    utf8-IsPlain _ (All-append IsPlain (codes "Delivered-To: ") address (omega arith) p)
IsAddedLine-IsPlain (return_path address p) = utf8-IsPlain _ (
    All-append IsPlain (codes "Return-Path: <") (address ++ codes ">") (omega arith)
      (closed address p))

pub IsAddedLine-starts :
    {name line : Text} (rest : Bytes)
    → IsAddedLine name line
    → at_line_end (utf8 line ++ rest) ≡ false
unfolding utf8 at_line_end
IsAddedLine-starts rest (delivered_to address p) = refl
IsAddedLine-starts rest (return_path address p) = refl

IsAddedLine-name :
    {name line : Text} (rest : Bytes)
    → IsAddedLine name line
    → map (map ascii_lower) (names_from line_start (utf8 line ++ 13 ∷ 10 ∷ rest))
      ≡ name ∷ map (map ascii_lower) (names_from line_start rest)
unfolding utf8 names_from line_start
IsAddedLine-name rest (delivered_to address p) =
    ap (λ names. codes "delivered-to" ∷ map (map ascii_lower) names)
      (names_from-past (utf8 address) rest (utf8-IsPlain address p))
IsAddedLine-name rest (return_path address p) =
    ap (λ names. codes "return-path" ∷ map (map ascii_lower) names)
      (names_from-past (utf8 (address ++ codes ">")) rest
        (utf8-IsPlain (address ++ codes ">") (closed address p)))

pub names-line :
    {name line : Text} (rest : Bytes)
    → IsAddedLine name line
    → at_line_end rest ≡ false
    → existing_header_names (utf8 line ++ 13 ∷ 10 ∷ rest) ≡ name ∷ existing_header_names rest
unfolding existing_header_names
names-line {line = line} rest l e =
    ap (λ t. map (map ascii_lower) (names_from line_start t))
      (head_of-line (utf8 line) rest (IsAddedLine-IsPlain l) e)
    ∙ IsAddedLine-name (head_of rest) l

-- Added lines put their names in front of the names of what follows.
names-AreAddedLines :
    {names lines : List Text} (body : Bytes)
    → AreAddedLines names lines
    → at_line_end body ≡ false
    → (at_line_end (utf8 (joined_lines lines) ++ body) ≡ false)
      × (existing_header_names (utf8 (joined_lines lines) ++ body)
          ≡ names ++ existing_header_names body)
unfolding joined_lines utf8
names-AreAddedLines body no_line e = (e, refl)
names-AreAddedLines body (line_and {name = name} {line = line} {names = names} {lines = lines} l ls)
      e =
    let (starts, same) = names-AreAddedLines body ls e in
    let rest = utf8 (joined_lines lines) ++ body in
    let spread : utf8 (joined_lines (line ∷ lines)) ++ body ≡ utf8 line ++ 13 ∷ 10 ∷ rest =
      ap (λ (t : Bytes). t ++ body) (utf8-append line (codes "\r\n" ++ joined_lines lines))
      ∙ append_assoc (utf8 line) (utf8 (codes "\r\n" ++ joined_lines lines)) body in
    rw spread
      (IsAddedLine-starts (13 ∷ 10 ∷ rest) l, names-line rest l starts ∙ ap (λ n. name ∷ n) same)

-- The name of a line that is added, which is not there yet.
pub record IsNewName (present : List Text) (name : Text) : Type 0 where
  pub known : (name ≡ codes "delivered-to") ⊎ (name ≡ codes "return-path")
  pub absent : contains name present ≡ false

-- Lines whose names are new.
record AreNew (present : List Text) (lines : List Text) : Type 0 where
  names : List Text
  added : AreAddedLines names lines
  new : All (IsNewName present) names

delivered_to_line-AreNew :
    (o : Option Text) (present : List Text)
    → All IsPlain (or_empty o)
    → AreNew present (delivered_to_line o present)
unfolding delivered_to_line
delivered_to_line-AreNew none present p = record { names = []; added = no_line; new = tt }
delivered_to_line-AreNew (some address) present p =
    elim (Bool-cases (not (is_empty address) && not (contains (codes "delivered-to") present))) [
      | inl e ↦ rw e (record {
        names = codes "delivered-to" ∷ [];
        added = line_and (delivered_to address p) no_line;
        new = (record { known = inl refl; absent = ground arith }, tt);
      })
      | inr e ↦ rw e (record { names = []; added = no_line; new = tt })
    ]

return_path_line-AreNew :
    (o : Option Text) (present : List Text)
    → All IsPlain (or_empty o)
    → AreNew present (return_path_line o present)
unfolding return_path_line
return_path_line-AreNew none present p = record { names = []; added = no_line; new = tt }
return_path_line-AreNew (some address) present p =
    elim (Bool-cases (contains (codes "return-path") present)) [
      | inr e ↦ rw e (record {
        names = codes "return-path" ∷ [];
        added = line_and (return_path address p) no_line;
        new = (record { known = inr refl; absent = e }, tt);
      })
      | inl e ↦ rw e (record { names = []; added = no_line; new = tt })
    ]

AreAddedLines-append :
    {names names' lines lines' : List Text}
    → AreAddedLines names lines
    → AreAddedLines names' lines'
    → AreAddedLines (names ++ names') (lines ++ lines')
AreAddedLines-append no_line ls' = ls'
AreAddedLines-append (line_and l ls) ls' = line_and l (AreAddedLines-append ls ls')

module _ (unquote : Text → Text) where
  check_envelope-IsPlain :
      (name : Text) (value address : Option Text)
      → check_envelope unquote name value ≡ ok address
      → All IsPlain (or_empty address)
  unfolding check_envelope
  check_envelope-IsPlain name none none e = tt
  check_envelope-IsPlain name none (some address) e = cc
  check_envelope-IsPlain name (some value) address e =
      elim (Bool-cases (has_control (unquote value))) [
        | inl bad ↦ cc (rw bad at e)
        | inr good ↦
            let same : some (strip (unquote value)) ≡ address = cc (rw good at e) in
            rw (← same) (strip-IsPlain (unquote value) (All-IsPlain (unquote value) good))
      ]

  -- The two checks, and the message that is made of their results.
  prepare_message-checked :
      (body : Bytes) (envelope_from envelope_to : Option Text) (message : Bytes)
      → prepare_message unquote body envelope_from envelope_to ≡ ok message
      → (sender : Option Text) × (check_envelope unquote (codes "envelope-from") envelope_from
          ≡ ok sender)
        × ((recipient : Option Text) × (check_envelope unquote (codes "envelope-to") envelope_to
              ≡ ok recipient)
            × (message ≡ with_envelope body sender recipient))
  unfolding prepare_message
  prepare_message-checked body envelope_from envelope_to message e =
      elim (Result-cases (check_envelope unquote (codes "envelope-from") envelope_from)) [
        | inr (x, s) ↦ cc (rw s at e)
        | inl (sender, s) ↦
            elim (Result-cases (check_envelope unquote (codes "envelope-to") envelope_to)) [
              | inr (x, t) ↦ cc (rw (s, t) at e)
              | inl (recipient, t) ↦ (sender, s, (recipient, t, cc (rw (s, t) at e)))
            ]
      ]

  -- What the preparation adds in front of a body that does not begin with an empty line: header
  -- fields, each one of the two, and none that the body has. No address makes another field or ends
  -- the head of the message.
  pub prepare_message-names :
      (body : Bytes) (envelope_from envelope_to : Option Text) (message : Bytes)
      → prepare_message unquote body envelope_from envelope_to ≡ ok message
      → at_line_end body ≡ false
      → (names : List Text) × All (IsNewName (existing_header_names body)) names
        × (existing_header_names message ≡ names ++ existing_header_names body)
        × ((front : Bytes) × (message ≡ front ++ body))
  unfolding prepare_message with_envelope added_lines
  prepare_message-names body envelope_from envelope_to message e plain =
      let (sender, s, (recipient, t, same)) =
        prepare_message-checked body envelope_from envelope_to message e in
      let present = existing_header_names body in
      let d =
        delivered_to_line-AreNew recipient present
          (check_envelope-IsPlain (codes "envelope-to") envelope_to recipient t) in
      let r =
        return_path_line-AreNew sender present
          (check_envelope-IsPlain (codes "envelope-from") envelope_from sender s) in
      (
        d.names ++ r.names,
        All-append (IsNewName present) d.names r.names d.new r.new,
        rw same ((names-AreAddedLines body (AreAddedLines-append d.added r.added) plain).1),
        (_, same),
      )
