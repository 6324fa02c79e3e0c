-- ===== src/Fetchmail/Envelope/Lines.antt =====
-- Bytes that stand on one line, and how the two scanners go through them.
use mathlib.Core.List.{reverse_aux, append_assoc}
use odoo_cloudflare_email.Prelude.{
  ℕ, ◌≡◌, ◌≢◌, refl, sym, ◌∙◌, ap, false, [], ◌∷◌, ◌++◌, arith, All, All-append, Bool-cases, inl,
  inr,
}
use odoo_cloudflare_email.Text.{Text, Bytes, strip, drop_spaces, is_space, utf8, encode_char}
use odoo_cloudflare_email.Fetchmail.Envelope.{
  at_line_end, at_block_end, head_of, past, line_start, names_from, has_control,
}

-- Neither a carriage return nor a line feed.
abbrev pub IsPlain : ℕ → Type 0
IsPlain c = (c ≢ 10) × (c ≢ 13)

pub All-IsPlain : (s : Text) → has_control s ≡ false → All IsPlain s
unfolding has_control
All-IsPlain [] e = tt
All-IsPlain (c ∷ s) e = ground (arith, All-IsPlain s)

encode_char-IsPlain : (c : ℕ) → IsPlain c → All IsPlain (encode_char c)
unfolding encode_char
encode_char-IsPlain c p = ground arith

pub utf8-IsPlain : (s : Text) → All IsPlain s → All IsPlain (utf8 s)
unfolding utf8
utf8-IsPlain [] p = tt
utf8-IsPlain (c ∷ s) (pc, p) =
    All-append IsPlain (encode_char c) (utf8 s) (encode_char-IsPlain c pc) (utf8-IsPlain s p)

pub utf8-append : (s t : Text) → utf8 (s ++ t) ≡ utf8 s ++ utf8 t
unfolding utf8
utf8-append [] t = refl
utf8-append (c ∷ s) t =
    ap (λ (u : Bytes). encode_char c ++ u) (utf8-append s t)
    ∙ sym (append_assoc (encode_char c) (utf8 s) (utf8 t))

drop_spaces-IsPlain : (s : Text) → All IsPlain s → All IsPlain (drop_spaces s)
unfolding drop_spaces
drop_spaces-IsPlain [] p = tt
drop_spaces-IsPlain (c ∷ s) (pc, p) = elim (Bool-cases (is_space c)) [
  | inl e ↦ rw e (drop_spaces-IsPlain s p)
  | inr e ↦ rw e (pc, p)
]

reverse_aux-IsPlain : (s t : Text) → All IsPlain s → All IsPlain t → All IsPlain (reverse_aux s t)
reverse_aux-IsPlain [] t p q = q
reverse_aux-IsPlain (c ∷ s) t (pc, p) q = reverse_aux-IsPlain s (c ∷ t) p (pc, q)

pub strip-IsPlain : (s : Text) → All IsPlain s → All IsPlain (strip s)
unfolding strip
strip-IsPlain s p =
    let reversed = λ (t : Text) (q : All IsPlain t). reverse_aux-IsPlain t [] q tt in
    let left = drop_spaces-IsPlain s p in reversed _ (drop_spaces-IsPlain _ (reversed _ left))

-- The rest of a line holds no name.
pub names_from-past :
    (line rest : Bytes)
    → All IsPlain line
    → names_from past (line ++ 13 ∷ 10 ∷ rest) ≡ names_from line_start rest
unfolding names_from line_start
names_from-past [] rest p = refl
names_from-past (c ∷ line) rest ((feed, _), p) = ground (arith, feed, names_from-past line rest p)

at_block_end_after_feed :
    (rest : Bytes) → at_line_end rest ≡ false → at_block_end (10 ∷ rest) ≡ false
unfolding at_block_end
at_block_end_after_feed [] e = refl
at_block_end_after_feed (c ∷ rest) e = e

pub at_block_end_plain : (c : ℕ) (s : Bytes) → IsPlain c → at_block_end (c ∷ s) ≡ false
unfolding at_block_end
at_block_end_plain c [] p = refl
at_block_end_plain c (d ∷ s) (feed, return) = ground arith

pub head_of-cons :
    (c : ℕ) (s : Bytes) → at_block_end (c ∷ s) ≡ false → head_of (c ∷ s) ≡ c ∷ head_of s
unfolding head_of
head_of-cons c s e = rw (e, head_of) refl

-- A line of the head stays in the head, when no empty line follows.
pub head_of-line :
    (line rest : Bytes)
    → All IsPlain line
    → at_line_end rest ≡ false
    → head_of (line ++ 13 ∷ 10 ∷ rest) ≡ line ++ 13 ∷ 10 ∷ head_of rest
unfolding at_block_end
head_of-line [] rest p e =
    head_of-cons 13 (10 ∷ rest) e
    ∙ ap (λ (t : Bytes). 13 ∷ t) (head_of-cons 10 rest (at_block_end_after_feed rest e))
head_of-line (c ∷ line) rest ((feed, return), p) e =
    head_of-cons c (line ++ 13 ∷ 10 ∷ rest)
      (at_block_end_plain c (line ++ 13 ∷ 10 ∷ rest) (feed, return))
    ∙ ap (λ (t : Bytes). c ∷ t) (head_of-line line rest p e)
