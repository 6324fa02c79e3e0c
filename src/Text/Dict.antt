-- ===== src/Text/Dict.antt =====
-- A Python dict from texts to texts: pairs in the order of insertion, each key once.
use odoo_cloudflare_email.Prelude.{
  ◌≡◌, refl, Option, none, some, List, [], ◌∷◌, ◌++◌, map, arith, if◌then◌else◌, ap, ◌⊎◌, inl, inr,
  Bool-cases,
}
use odoo_cloudflare_email.Text.Equality.{Text, text_eq, text_eq_iff}

abbrev pub Dict : Type 0
Dict = List (Text × Text)

abbrev pub dict_keys : Dict → List Text
dict_keys = map (λ e. e.0)

-- `d.get(key)`.
unfoldable pub lookup : Text → Dict → Option Text
lookup k [] = none
lookup k ((j, v) ∷ d) = if text_eq j k then some v else lookup k d

-- `d[key] = value`: an old key keeps its place.
unfoldable pub put : Text → Text → Dict → Dict
put k v [] = (k, v) ∷ []
put k v ((j, w) ∷ d) = if text_eq j k then (j, v) ∷ d else (j, w) ∷ put k v d

pub lookup-put :
    (k j v : Text) (d : Dict) → lookup j (put k v d) ≡ (if text_eq k j then some v else lookup j d)
unfolding lookup put
lookup-put k j v [] = refl
lookup-put k j v ((i, w) ∷ d) =
    ground (arith, text_eq_iff k j, text_eq_iff i k, text_eq_iff i j, lookup-put k j v d)

pub put-put : (k v w : Text) (d : Dict) → put k v (put k w d) ≡ put k v d
unfolding put
put-put k v w [] = ground (arith, text_eq_iff k k)
put-put k v w ((i, x) ∷ d) = ground (arith, text_eq_iff i k, put-put k v w d)

-- A write keeps the keys, or puts a new one behind them.
pub dict_keys-put :
    (k v : Text) (d : Dict)
    → (dict_keys (put k v d) ≡ dict_keys d)
      ⊎ ((lookup k d ≡ none) × (dict_keys (put k v d) ≡ dict_keys d ++ k ∷ []))
unfolding put lookup
dict_keys-put k v [] = inr (refl, refl)
dict_keys-put k v ((j, w) ∷ d) = elim (Bool-cases (text_eq j k)) [
  | inl same ↦ rw same (inl refl)
  | inr other ↦ elim (dict_keys-put k v d) [
    | inl kept ↦ rw other (inl (ap (λ (l : List Text). j ∷ l) kept))
    | inr (absent, extended) ↦ rw other (inr (absent, ap (λ (l : List Text). j ∷ l) extended))
  ]
]
