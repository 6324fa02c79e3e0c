-- ===== src/Api/MessageIds/RoundTrip.antt =====
-- Message ids joined by spaces are read back.
use mathlib.Core.List.{append_assoc, append-nil}
use odoo_cloudflare_email.Prelude.{
  ◌≡◌, ◌≢◌, refl, false, Option, none, some, List, [], ◌∷◌, ◌++◌, ◌==◌, sym, is_empty, All,
  All-append, arith, ℕ, Bool-cases, inl, inr, ap, ◌∙◌,
}
use odoo_cloudflare_email.Text.{Text, codes, join}
use odoo_cloudflare_email.Api.MessageIds.{scan, find_ids}

-- What may stand between the angle brackets.
abbrev pub IsInner : Text → Type 0
IsInner t = All (λ c. (c ≢ b'<') × (c ≢ b'>')) t

abbrev pub bracket : Text → Text
bracket t = b'<' ∷ (t ++ b'>' ∷ [])

pub record IsMessageId (id : Text) : Type 0 where
  pub inner : Text
  pub bracketed : id ≡ bracket inner
  pub plain : IsInner inner
  pub filled : is_empty inner ≡ false

is_empty-snoc : (t u : Text) (c : ℕ) → is_empty (t ++ c ∷ u) ≡ false
is_empty-snoc [] u c = refl
is_empty-snoc (d ∷ t) u c = refl

scan-inner :
    (token t s : Text)
    → IsInner t
    → is_empty (token ++ t) ≡ false
    → scan (some token) (t ++ b'>' ∷ s) ≡ bracket (token ++ t) ∷ scan none s
unfolding scan
scan-inner token [] s p f = rw append-nil (rw (rw append-nil at f) refl)
scan-inner token (c ∷ t) s (p, ps) f =
    let step = scan-inner (token ++ c ∷ []) t s ps in
    ground
      (arith, append_assoc token (c ∷ []) t, step (ap is_empty (append_assoc token (c ∷ []) t) ∙ f))

scan-id : (id s : Text) → IsMessageId id → scan none (id ++ s) ≡ id ∷ scan none s
unfolding scan
scan-id id s m = rw (m.bracketed) (rw append_assoc (scan-inner [] m.inner s m.plain m.filled))

-- Ids joined by single spaces are found again, in order.
pub find_ids-join : (ids : List Text) → All IsMessageId ids → find_ids (join (codes " ") ids) ≡ ids
unfolding find_ids join scan
find_ids-join [] m = refl
find_ids-join (id ∷ []) (m, _) = ap (scan none) (sym (append-nil id)) ∙ scan-id id [] m
find_ids-join (id ∷ jd ∷ ids) (m, ms) =
    scan-id id _ m ∙ ap (λ (l : List Text). id ∷ l) (find_ids-join (jd ∷ ids) ms)

abbrev IsOpen : Option Text → Type 0
IsOpen none = Unit
IsOpen (some token) = IsInner token

scan-IsMessageId :
    (open_token : Option Text) (s : Text) → IsOpen open_token → All IsMessageId (scan open_token s)
unfolding scan
scan-IsMessageId open_token [] p = tt
scan-IsMessageId none (c ∷ s) p = elim (Bool-cases (c == b'<')) [
  | inl same ↦ rw same (scan-IsMessageId (some []) s tt)
  | inr other ↦ rw other (scan-IsMessageId none s tt)
]
scan-IsMessageId (some token) (c ∷ s) p = elim (Bool-cases (c == b'<')) [
  | inl opens ↦ rw opens (scan-IsMessageId (some []) s tt)
  | inr other ↦ rw other (elim (Bool-cases (c == b'>')) [
    | inl closes ↦ rw closes (elim (Bool-cases (is_empty token)) [
      | inl nothing ↦ rw nothing (scan-IsMessageId none s tt)
      | inr filled ↦ rw filled (
        record { inner = token; bracketed = refl; plain = p; filled = filled },
        scan-IsMessageId none s tt,
      )
    ])
    | inr inside ↦ rw inside (
        scan-IsMessageId (some (token ++ c ∷ [])) s (
          All-append (λ (d : ℕ). (d ≢ b'<') × (d ≢ b'>')) token (c ∷ []) p
            ((ground arith, ground arith), tt)))
  ])
]

-- Every token that is found is a message id.
pub find_ids-IsMessageId : (s : Text) → All IsMessageId (find_ids s)
unfolding find_ids
find_ids-IsMessageId s = scan-IsMessageId none s tt
