-- ===== src/Text/Utf8.antt =====
-- A reference decoder of UTF-8: what the receiver of a body makes of it. It takes overlong forms too.
use odoo_cloudflare_email.Prelude.{
  ℕ, zero, suc, ◌+◌, ◌-◌, ◌*◌, ◌/◌, ◌%◌, ◌<◌, ◌≡◌, refl, ap, ◌∙◌, Bool, true, false, ◌&&◌, Option,
  none, some, [], ◌∷◌, ◌++◌, ltb, leb, if◌then◌else◌, Bool-cases, inl, inr, All, arith,
}
use odoo_cloudflare_email.Text.{Text, Bytes, encode_char, utf8}

-- How many bytes a first byte announces.
pub data Lead : Type 0 where
  single two_bytes three_bytes four_bytes not_first : Lead

unfoldable lead : ℕ → Lead
lead b =
    if ltb b 128
    then single
    else if ltb b 192
    then not_first
    else if ltb b 224
    then two_bytes
    else if ltb b 240
    then three_bytes
    else if ltb b 248
    then four_bytes
    else not_first

unfoldable is_tail : ℕ → Bool
is_tail b = leb 128 b && ltb b 192

abbrev push : ℕ → Option Text → Option Text
push c none = none
push c (some s) = some (c ∷ s)

-- The reader, with how many bytes of a character are to come, and its bits so far.
unfoldable walk : ℕ → ℕ → Bytes → Option Text
unfolding lead is_tail
walk zero bits [] = some []
walk (suc k) bits [] = none
walk zero bits (b ∷ s) = elim (lead b) [
  | single ↦ push b (walk 0 0 s)
  | two_bytes ↦ walk 1 (b - 192) s
  | three_bytes ↦ walk 2 (b - 224) s
  | four_bytes ↦ walk 3 (b - 240) s
  | not_first ↦ none
]
walk (suc zero) bits (b ∷ s) = elim (is_tail b) [
  | true ↦ push (bits * 64 + (b - 128)) (walk 0 0 s)
  | false ↦ none
]
walk (suc (suc k)) bits (b ∷ s) = elim (is_tail b) [
  | true ↦ walk (suc k) (bits * 64 + (b - 128)) s
  | false ↦ none
]

unfoldable pub decode_utf8 : Bytes → Option Text
unfolding walk
decode_utf8 s = walk 0 0 s

walk-last :
    (bits n : ℕ) (s : Bytes)
    → n < 64
    → walk 1 bits ((128 + n) ∷ s) ≡ push (bits * 64 + n) (walk 0 0 s)
unfolding walk
walk-last bits n s h =
    let t : is_tail (128 + n) ≡ true = ground arith in
    rw (t, walk) (ap (λ (m : ℕ). push (bits * 64 + m) (walk 0 0 s)) (omega arith))

walk-next :
    (k bits n : ℕ) (s : Bytes)
    → n < 64
    → walk (suc (suc k)) bits ((128 + n) ∷ s) ≡ walk (suc k) (bits * 64 + n) s
unfolding walk
walk-next k bits n s h =
    let t : is_tail (128 + n) ≡ true = ground arith in
    rw (t, walk) (ap (λ (m : ℕ). walk (suc k) (bits * 64 + m) s) (omega arith))

walk-one : (c : ℕ) (s : Bytes) → c < 128 → walk 0 0 (c ∷ s) ≡ push c (walk 0 0 s)
unfolding walk
walk-one c s h = let l : lead c ≡ single = ground arith in rw (l, walk) refl

walk-two : (n : ℕ) (s : Bytes) → n < 32 → walk 0 0 ((192 + n) ∷ s) ≡ walk 1 n s
unfolding walk
walk-two n s h =
    let l : lead (192 + n) ≡ two_bytes = ground arith in
    rw (l, walk) (ap (λ (m : ℕ). walk 1 m s) (omega arith))

walk-three : (n : ℕ) (s : Bytes) → n < 16 → walk 0 0 ((224 + n) ∷ s) ≡ walk 2 n s
unfolding walk
walk-three n s h =
    let l : lead (224 + n) ≡ three_bytes = ground arith in
    rw (l, walk) (ap (λ (m : ℕ). walk 2 m s) (omega arith))

walk-four : (n : ℕ) (s : Bytes) → n < 8 → walk 0 0 ((240 + n) ∷ s) ≡ walk 3 n s
unfolding walk
walk-four n s h =
    let l : lead (240 + n) ≡ four_bytes = ground arith in
    rw (l, walk) (ap (λ (m : ℕ). walk 3 m s) (omega arith))

push_eq : {m n : ℕ} (s : Bytes) → m ≡ n → push m (walk 0 0 s) ≡ push n (walk 0 0 s)
push_eq s e = ap (λ (k : ℕ). push k (walk 0 0 s)) e

walk-encode_char :
    (c : ℕ) (s : Bytes) → c < 1114112 → walk 0 0 (encode_char c ++ s) ≡ push c (walk 0 0 s)
unfolding encode_char
walk-encode_char c s h = elim (Bool-cases (ltb c 0x80)) [
  | inl e0 ↦ rw e0 (walk-one c s (ground arith))
  | inr e0 ↦ elim (Bool-cases (ltb c 0x800)) [
    | inl e1 ↦
        rw (e0, e1)
          (walk-two (c / 64) _ (ground arith)
            ∙ walk-last (c / 64) (c % 64) s (omega arith)
            ∙ push_eq s (omega arith))
    | inr e1 ↦ elim (Bool-cases (ltb c 0x10000)) [
      | inl e2 ↦
          rw (e0, e1, e2)
            (walk-three (c / 4096) _ (ground arith)
              ∙ walk-next 0 (c / 4096) (c / 64 % 64) _ (omega arith)
              ∙ walk-last (c / 4096 * 64 + c / 64 % 64) (c % 64) s (omega arith)
              ∙ push_eq s (omega arith))
      | inr e2 ↦
          rw (e0, e1, e2)
            (walk-four (c / 262144) _ (omega arith)
              ∙ walk-next 1 (c / 262144) (c / 4096 % 64) _ (omega arith)
              ∙ walk-next 0 (c / 262144 * 64 + c / 4096 % 64) (c / 64 % 64) _ (omega arith)
              ∙ walk-last ((c / 262144 * 64 + c / 4096 % 64) * 64 + c / 64 % 64) (c % 64) s
                  (omega arith)
              ∙ push_eq s (omega arith))
    ]
  ]
]

pub decode_utf8-utf8 : (s : Text) → All (λ c. c < 1114112) s → decode_utf8 (utf8 s) ≡ some s
unfolding decode_utf8 utf8
decode_utf8-utf8 [] p = refl
decode_utf8-utf8 (c ∷ s) (h, p) = walk-encode_char c (utf8 s) h ∙ ap (push c) (decode_utf8-utf8 s p)
