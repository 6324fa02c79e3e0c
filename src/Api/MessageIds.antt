-- ===== src/Api/MessageIds.antt =====
-- `_MSGID_RE.findall`: the tokens `<…>` of a header, in order.
pub mod RoundTrip
use odoo_cloudflare_email.Prelude.{
  ◌≡◌, ◌≢◌, refl, true, false, Option, none, some, List, [], ◌∷◌, ◌++◌, ◌==◌, if◌then◌else◌,
  is_empty, All, arith, ◌||◌, ◌&&◌, not, ℕ,
}
use odoo_cloudflare_email.Text.{Text, codes, join}

-- What has been read of a token behind its `<`, or none outside a token. A `<` inside a token opens
-- a new one; an empty token is none.
unfoldable pub scan : Option Text → Text → List Text
scan open_token [] = []
scan none (c ∷ s) = scan (if c == b'<' then some [] else none) s
scan (some token) (c ∷ s) =
    if c == b'<'
    then scan (some []) s
    else if c == b'>'
    then (if is_empty token then scan none s else (b'<' ∷ token ++ b'>' ∷ []) ∷ scan none s)
    else scan (some (token ++ c ∷ [])) s

unfoldable pub find_ids : Text → List Text
unfolding scan
find_ids s = scan none s

two_ids : find_ids (codes "<a@b>, <<c> <> <d") ≡ codes "<a@b>" ∷ codes "<c>" ∷ []
unfolding find_ids
two_ids = refl
