-- ===== src/Json/Loads.antt =====
-- A reference reader of JSON texts, as the receiver of a request has one. It reads texts without
-- numbers, and with blanks only behind a comma or a colon. A key that is given twice stays twice.
pub mod Strings
pub mod Codes
pub mod Steps
pub mod RoundTrip
use odoo_cloudflare_email.Prelude.{
  ℕ, zero, suc, ◌+◌, ◌-◌, ◌*◌, Bool, true, false, Option, none, some, [], ◌∷◌, ltb, leb, ◌==◌, ◌&&◌,
  if◌then◌else◌, length,
}
use odoo_cloudflare_email.Text.{Text, codes}
use odoo_cloudflare_email.Json.{
  Json, null, bool, str, arr, obj, Items, nil, cons, Fields, end, field,
}

-- Inside a string: plain text, behind a backslash, or behind some digits of `\u`.
pub data Mode : Type 0 where
  plain slash : Mode
  hex : ℕ → ℕ → Mode

unfoldable pub hex_value : ℕ → ℕ
hex_value c =
    if leb b'0' c && leb c b'9'
    then c - b'0'
    else if leb b'a' c && leb c b'f'
    then c - b'a' + 10
    else c - b'A' + 10

-- What stands for one character behind the backslash.
unfoldable pub short : ℕ → Option ℕ
short c =
    if c == b'n'
    then some 10
    else if c == b'r'
    then some 13
    else if c == b't'
    then some 9
    else if c == b'f'
    then some 12
    else if c == b'b'
    then some 8
    else if c == b'"'
    then some c
    else if c == 92
    then some c
    else if c == b'/'
    then some c
    else none

abbrev pub push : ℕ → Option (Text × Text) → Option (Text × Text)
push c none = none
push c (some (s, rest)) = some (c ∷ s, rest)

-- The text up to the closing quote, and what follows it.
unfoldable pub scan_string : Mode → Text → Option (Text × Text)
unfolding short hex_value
scan_string mode [] = none
scan_string plain (c ∷ s) = elim (c == b'"') [
  | true ↦ some ([], s)
  | false ↦ elim (c == 92) [ true ↦ scan_string slash s | false ↦ push c (scan_string plain s) ]
]
scan_string slash (c ∷ s) = elim (c == b'u') [
  | true ↦ scan_string (hex 0 0) s
  | false ↦ elim (short c) [ none ↦ none | some d ↦ push d (scan_string plain s) ]
]
scan_string (hex k a) (c ∷ s) = elim (k == 3) [
  | true ↦ push (a * 16 + hex_value c) (scan_string plain s)
  | false ↦ scan_string (hex (k + 1) (a * 16 + hex_value c)) s
]

-- The text behind a prefix.
unfoldable pub expect : Text → Text → Option Text
expect [] s = some s
expect (c ∷ cs) [] = none
expect (c ∷ cs) (d ∷ s) = if c == d then expect cs s else none

unfoldable pub skip : Text → Text
skip [] = []
skip (c ∷ s) = elim (c == b' ') [ true ↦ skip s | false ↦ c ∷ s ]

pub data Kind : Type 0 where
  a_string a_list a_dict other : Kind

unfoldable pub kind : ℕ → Kind
kind c =
    if c == b'"'
    then a_string
    else if c == b'['
    then a_list
    else if c == b'{'
    then a_dict
    else other

-- A word, and what follows it.
unfoldable pub word : Text → Option (Json × Text)
unfolding expect
word s = elim (expect (codes "null") s) [
  | some rest ↦ some (null, rest)
  | none ↦ elim (expect (codes "true") s) [
    | some rest ↦ some (bool true, rest)
    | none ↦ elim (expect (codes "false") s) [ some rest ↦ some (bool false, rest) | none ↦ none ]
  ]
]

abbrev string_value : Option (Text × Text) → Option (Json × Text)
string_value none = none
string_value (some (s, rest)) = some (str s, rest)

abbrev pub list_value : Option (Items × Text) → Option (Json × Text)
list_value none = none
list_value (some (vs, rest)) = some (arr vs, rest)

abbrev pub dict_value : Option (Fields × Text) → Option (Json × Text)
dict_value none = none
dict_value (some (fs, rest)) = some (obj fs, rest)

abbrev more_item : Json → Option (Items × Text) → Option (Items × Text)
more_item v none = none
more_item v (some (vs, rest)) = some (cons v vs, rest)

abbrev more_field : Text → Json → Option (Fields × Text) → Option (Fields × Text)
more_field k v none = none
more_field k v (some (fs, rest)) = some (field k v fs, rest)

-- Values, and the inside of lists and dicts, by fuel.
unfoldable mutual
  unfolding scan_string word kind skip expect

  pub value : ℕ → Text → Option (Json × Text)
  value zero s = none
  value (suc n) [] = none
  value (suc n) (c ∷ s) = elim (kind c) [
    | a_string ↦ string_value (scan_string plain s)
    | a_list ↦ list_value (first_item n s)
    | a_dict ↦ dict_value (first_field n s)
    | other ↦ word (c ∷ s)
  ]

  pub first_item : ℕ → Text → Option (Items × Text)
  first_item zero s = none
  first_item (suc n) [] = none
  first_item (suc n) (c ∷ s) = elim (c == b']') [
    | true ↦ some (nil, s)
    | false ↦ next_item n (c ∷ s)
  ]

  pub next_item : ℕ → Text → Option (Items × Text)
  next_item zero s = none
  next_item (suc n) s = elim (value n s) [
    | none ↦ none
    | some (v, rest) ↦ more_item v (more_items n rest)
  ]

  pub more_items : ℕ → Text → Option (Items × Text)
  more_items zero s = none
  more_items (suc n) [] = none
  more_items (suc n) (c ∷ s) = elim (c == b']') [
    | true ↦ some (nil, s)
    | false ↦ elim (c == b',') [ true ↦ next_item n (skip s) | false ↦ none ]
  ]

  pub first_field : ℕ → Text → Option (Fields × Text)
  first_field zero s = none
  first_field (suc n) [] = none
  first_field (suc n) (c ∷ s) = elim (c == b'}') [
    | true ↦ some (end, s)
    | false ↦ next_field n (c ∷ s)
  ]

  pub next_field : ℕ → Text → Option (Fields × Text)
  next_field zero s = none
  next_field (suc n) [] = none
  next_field (suc n) (c ∷ s) = elim (c == b'"') [
    | false ↦ none
    | true ↦ elim (scan_string plain s) [
      | none ↦ none
      | some (k, rest) ↦ keyed n k (expect (codes ":") rest)
    ]
  ]

  -- What follows a key.
  pub keyed : ℕ → Text → Option Text → Option (Fields × Text)
  keyed zero k s = none
  keyed (suc n) k none = none
  keyed (suc n) k (some s) = elim (value n (skip s)) [
    | none ↦ none
    | some (v, rest) ↦ more_field k v (more_fields n rest)
  ]

  pub more_fields : ℕ → Text → Option (Fields × Text)
  more_fields zero s = none
  more_fields (suc n) [] = none
  more_fields (suc n) (c ∷ s) = elim (c == b'}') [
    | true ↦ some (end, s)
    | false ↦ elim (c == b',') [ true ↦ next_field n (skip s) | false ↦ none ]
  ]

abbrev pub whole : Option (Json × Text) → Option Json
whole (some (v, [])) = some v
whole _ = none

-- A whole text; the fuel is three times its length.
unfoldable pub loads : Text → Option Json
unfolding value
loads s = whole (value (3 * length s) s)
