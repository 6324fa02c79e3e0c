-- ===== src/Worker/Strings/Unquote.antt =====
-- A reference decoder for the addresses in a request: percent escapes are bytes, and the bytes are
-- UTF-8.
use odoo_cloudflare_email.Prelude.{
  ℕ, ◌+◌, ◌-◌, ◌*◌, ◌/◌, ◌%◌, ◌≤◌, ◌<◌, ◌≡◌, refl, sym, ap, ap₂, ◌⊎◌, ◌∙◌, Bool, true, false, ◌&&◌,
  ◌||◌, Option, none, some, [], ◌∷◌, ◌++◌, ltb, leb, if◌then◌else◌, ◌==◌, All, All-append,
  Bool-cases, Option-cases, inl, inr, arith,
}
use odoo_cloudflare_email.Text.{Text, Bytes, encode_char, utf8}
use odoo_cloudflare_email.Text.Utf8.{decode_utf8, decode_utf8-utf8}
use odoo_cloudflare_email.Worker.Strings.{hex_digit, percent, is_kept, ascii_value}

abbrev hex_value : ℕ → ℕ
hex_value c = if leb c b'9' then c - b'0' else c - 55

abbrev is_hex : ℕ → Bool
is_hex c = leb b'0' c && leb c b'9' || leb b'A' c && leb c b'F'

abbrev pub IsPrintable : ℕ → Type 0
IsPrintable c = (0x20 ≤ c) × (c ≤ 0x7e)

unfoldable unescape : Text → Bytes
unescape [] = []
unescape (c ∷ []) = c ∷ []
unescape (c ∷ d ∷ []) = c ∷ d ∷ []
unescape (c ∷ d ∷ e ∷ s) = elim (c == b'%' && is_hex d && is_hex e) [
  | true ↦ (hex_value d * 16 + hex_value e) ∷ unescape s
  | false ↦ c ∷ unescape (d ∷ e ∷ s)
]

abbrev or_lost : Option Text → Text
or_lost none = 0xfffd ∷ []
or_lost (some s) = s

unfoldable pub unquote : Text → Text
unfolding unescape
unquote s = or_lost (decode_utf8 (unescape s))

unescape-kept : (c : ℕ) (s : Text) → is_kept c ≡ true → unescape (c ∷ s) ≡ c ∷ unescape s
unfolding unescape is_kept
unescape-kept c [] k = refl
unescape-kept c (d ∷ []) k = refl
unescape-kept c (d ∷ e ∷ s) k =
    let other : (c == b'%') ≡ false = ground arith in rw (other, unescape) refl

unescape-escape :
    (d e : ℕ) (s : Text)
    → is_hex d ≡ true
    → is_hex e ≡ true
    → unescape (b'%' ∷ d ∷ e ∷ s) ≡ (hex_value d * 16 + hex_value e) ∷ unescape s
unfolding unescape
unescape-escape d e s hd he = rw (hd, he, unescape) refl

hex_digit-is_hex : (n : ℕ) → n < 16 → is_hex (hex_digit n) ≡ true
unfolding hex_digit
hex_digit-is_hex n h = ground arith

hex_value-hex_digit : (n : ℕ) → n < 16 → hex_value (hex_digit n) ≡ n
unfolding hex_digit
hex_value-hex_digit n h = ground arith

unescape-percent :
    (bytes : Bytes) (s : Text)
    → All (λ b. b < 256) bytes
    → unescape (percent bytes ++ s) ≡ bytes ++ unescape s
unfolding percent
unescape-percent [] s p = refl
unescape-percent (b ∷ bytes) s (pb, p) =
    unescape-escape (hex_digit (b / 16)) (hex_digit (b % 16)) (percent bytes ++ s)
      (hex_digit-is_hex (b / 16) (omega arith)) (hex_digit-is_hex (b % 16) (omega arith))
    ∙ ap₂ (λ (n : ℕ) (t : Bytes). n ∷ t)
        (omega (
          arith,
          hex_value-hex_digit (b / 16) (omega arith),
          hex_value-hex_digit (b % 16) (omega arith),
        ))
        (unescape-percent bytes s p)

encode_char-bytes : (c : ℕ) → c < 0x10000 → All (λ b. b < 256) (encode_char c)
unfolding encode_char
encode_char-bytes c h = ground arith

encode_char-kept : (c : ℕ) → is_kept c ≡ true → encode_char c ≡ c ∷ []
unfolding encode_char is_kept
encode_char-kept c k = ground arith

kept-small : (c : ℕ) → is_kept c ≡ true → c < 1114112
unfolding is_kept
kept-small c k = ground arith

-- What `asciiValue` makes of a character and of the rest.
ascii_value-cons :
    (c : ℕ) (s header : Text)
    → ascii_value (c ∷ s) ≡ some header
    → (rest : Text) × (ascii_value s ≡ some rest)
      × (((is_kept c ≡ true) × (header ≡ c ∷ rest))
          ⊎ ((c < 0x10000) × (header ≡ percent (encode_char c) ++ rest)))
unfolding ascii_value
ascii_value-cons c s header e = elim (Option-cases (ascii_value s)) [
  | inl bad ↦ absurd (ground (arith, bad))
  | inr (rest, good) ↦ elim (Bool-cases (is_kept c)) [
    | inl kept ↦ (rest, good, inl (kept, cc (rw kept at (rw good at e))))
    | inr escaped ↦ elim (Bool-cases (ltb c 0x10000)) [
      | inl small ↦
          (rest, good, inr (ground arith, cc (rw small at (rw escaped at (rw good at e)))))
      | inr astral ↦ absurd (cc (rw astral at (rw escaped at e)))
    ]
  ]
]

empty_header : (header : Text) → ascii_value [] ≡ some header → [] ≡ header
unfolding ascii_value
empty_header header e = cc

percent-IsPrintable : (bytes : Bytes) → All (λ b. b < 256) bytes → All IsPrintable (percent bytes)
unfolding percent hex_digit
percent-IsPrintable [] p = tt
percent-IsPrintable (b ∷ bytes) (pb, p) =
    (ground arith, (ground arith, (ground arith, percent-IsPrintable bytes p)))

ascii_value-IsPrintable : (s header : Text) → ascii_value s ≡ some header → All IsPrintable header
ascii_value-IsPrintable [] header e = rw (← empty_header header e) tt
ascii_value-IsPrintable (c ∷ s) header e =
    let (rest, good, shape) = ascii_value-cons c s header e in
    let printable = ascii_value-IsPrintable s rest good in
    elim shape [
      | inl (kept, made) ↦ rw made (unfold is_kept in ground arith, printable)
      | inr (low, made) ↦ rw made (
          All-append IsPrintable (percent (encode_char c)) rest
            (percent-IsPrintable (encode_char c) (encode_char-bytes c low)) printable)
    ]

-- What is encoded has the bytes of the text.
unescape-ascii_value :
    (s header : Text)
    → ascii_value s ≡ some header
    → (unescape header ≡ utf8 s) × All (λ c. c < 1114112) s
unfolding utf8
unescape-ascii_value [] header e = (rw (← empty_header header e) (unfold unescape in refl), tt)
unescape-ascii_value (c ∷ s) header e =
    let (rest, good, shape) = ascii_value-cons c s header e in
    let (same, small) = unescape-ascii_value s rest good in
    elim shape [
      | inl (kept, made) ↦ (
        rw made (
            unescape-kept c rest kept
            ∙ ap₂ (λ (t u : Bytes). t ++ u) (sym (encode_char-kept c kept)) same),
        (kept-small c kept, small),
      )
      | inr (low, made) ↦ (
        rw made (
            unescape-percent (encode_char c) rest (encode_char-bytes c low)
            ∙ ap (λ (t : Bytes). encode_char c ++ t) same),
        (omega arith, small),
      )
    ]

-- An address that `asciiValue` encodes is read back by a decoder of percent escapes and UTF-8,
-- and its value is printable ASCII.
pub unquote-ascii_value :
    (s header : Text) → ascii_value s ≡ some header → (unquote header ≡ s) × All IsPrintable header
unfolding unquote
unquote-ascii_value s header e =
    let (same, small) = unescape-ascii_value s header e in
    (rw same (rw (decode_utf8-utf8 s small) refl), ascii_value-IsPrintable s header e)
