-- ===== src/Text/Strip.antt =====
-- `strip` of a text without white space.
use mathlib.Core.List.{reverse, reverse_aux, reverse-reverse}
use odoo_cloudflare_email.Prelude.{◌≡◌, refl, false, [], ◌∷◌, All}
use odoo_cloudflare_email.Text.{Text, is_space, drop_spaces, strip}

abbrev pub IsSolid : Text → Type 0
IsSolid s = All (λ c. is_space c ≡ false) s

drop_spaces-IsSolid : (s : Text) → IsSolid s → drop_spaces s ≡ s
unfolding drop_spaces
drop_spaces-IsSolid [] p = refl
drop_spaces-IsSolid (c ∷ s) (pc, _) = rw pc refl

reverse_aux-IsSolid : (s t : Text) → IsSolid s → IsSolid t → IsSolid (reverse_aux s t)
reverse_aux-IsSolid [] t p q = q
reverse_aux-IsSolid (c ∷ s) t (pc, p) q = reverse_aux-IsSolid s (c ∷ t) p (pc, q)

pub strip-IsSolid : (s : Text) → IsSolid s → strip s ≡ s
unfolding strip
strip-IsSolid s p =
    rw (drop_spaces-IsSolid s p)
      (rw (drop_spaces-IsSolid (reverse s) (reverse_aux-IsSolid s [] p tt)) (reverse-reverse s))
