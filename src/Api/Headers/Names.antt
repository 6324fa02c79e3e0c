-- ===== src/Api/Headers/Names.antt =====
-- The names of the request's headers: permitted ones, each once whatever its case.
use mathlib.Core.List.{map-append}
use odoo_cloudflare_email.Prelude.{
  ◌≤◌, ◌≡◌, refl, true, false, none, some, List, [], ◌∷◌, ◌++◌, map, sym, ap, ◌∙◌, arith,
  Bool-cases, Option-cases, inl, inr, ◌⊎◌, is_empty, All, All-append,
}
use odoo_cloudflare_email.Text.{Text, codes, strip, contains, text_eq, starts_with}
use odoo_cloudflare_email.Text.Equality.{
  text_eq_refl, text_eq_iff, text_eq→eq, count, count-append, count_of_absent,
}
use odoo_cloudflare_email.Text.Dict.{Dict, dict_keys, lookup, dict_keys-put}
use odoo_cloudflare_email.Errors.{ok}
use odoo_cloudflare_email.Api.Host.{Host}
use odoo_cloudflare_email.Api.Mime.{Headers}
use odoo_cloudflare_email.Api.Headers.{
  allowed_headers, references_key, canonical_in, is_allowed, known_or, header_key, merge,
  add_header, collect, set_references, trim, threaded, passthrough_headers, all_references,
  references_oversized,
}
use odoo_cloudflare_email.Api.Headers.Limits.{check_limits-IsWithinLimits}

-- A name, in lower case, that Cloudflare takes: a listed one, or one that begins with "x-".
abbrev pub IsPermitted : Host → Text → Type 0
IsPermitted h lname =
    (contains lname (map h.lower allowed_headers) ≡ true)
    ⊎ ((rest : Text) × (lname ≡ codes "x-" ++ rest))

module _ (h : Host) where
  abbrev pub lower_keys : Dict → List Text
  lower_keys d = map h.lower (dict_keys d)

  starts_with_x :
      (s : Text) → starts_with s (codes "x-") ≡ true → (rest : Text) × (s ≡ codes "x-" ++ rest)
  unfolding starts_with
  starts_with_x [] e = cc
  starts_with_x (c ∷ []) e = ground arith
  starts_with_x (c ∷ d ∷ s) e = (s, ground arith)

  is_allowed-IsPermitted : (lname : Text) → is_allowed h lname ≡ true → IsPermitted h lname
  unfolding is_allowed
  is_allowed-IsPermitted lname e =
      elim (Bool-cases (contains lname (map h.lower allowed_headers))) [
        | inl listed ↦ inl listed
        | inr other ↦ inr (starts_with_x lname (rw other at e))
      ]

  canonical_in-lower :
      (names : List Text) (lname key : Text)
      → canonical_in h names lname ≡ some key
      → h.lower key ≡ lname
  unfolding canonical_in
  canonical_in-lower [] lname key e = cc
  canonical_in-lower (name ∷ names) lname key e =
      ground (arith, canonical_in-lower names lname key, text_eq_iff (h.lower name) lname)

  lower-known_or :
      (lname name : Text) (keys : List Text)
      → h.lower name ≡ lname
      → h.lower (known_or h lname name keys) ≡ lname
  unfolding known_or
  lower-known_or lname name [] e = e
  lower-known_or lname name (k ∷ keys) e =
      ground (arith, lower-known_or lname name keys e, text_eq_iff (h.lower k) lname)

  -- The key under which a header is kept is its name up to case.
  lower-header_key : (name : Text) (d : Dict) → h.lower (header_key h name d) ≡ h.lower name
  unfolding header_key
  lower-header_key name d = elim (Option-cases (canonical_in h allowed_headers (h.lower name))) [
    | inl other ↦ rw (other, header_key) (lower-known_or (h.lower name) name (dict_keys d) refl)
    | inr (key, e) ↦ rw (e, header_key) (canonical_in-lower allowed_headers (h.lower name) key e)
  ]

  -- A listed name is written in its canonical spelling.
  abbrev IsSpelled : Text → Type 0
  IsSpelled key =
      (canonical_in h allowed_headers (h.lower key) ≡ none)
      ⊎ (canonical_in h allowed_headers (h.lower key) ≡ some key)

  -- The invariant of the keys of the dict `headers`.
  record IsClean (keys : List Text) : Type 0 where
    permitted : All (λ key. IsPermitted h (h.lower key)) keys
    spelled : All IsSpelled keys
    distinct : (k : Text) → count k (map h.lower keys) ≤ 1

  fresh_canonical :
      (lname key : Text) (d : Dict)
      → canonical_in h allowed_headers lname ≡ some key
      → lookup key d ≡ none
      → All IsSpelled (dict_keys d)
      → contains lname (lower_keys d) ≡ false
  unfolding lookup contains
  fresh_canonical lname key [] c l s = refl
  fresh_canonical lname key ((j, v) ∷ d) c l (sj, s) =
      elim (Bool-cases (text_eq (h.lower j) lname)) [
        | inl same ↦
            let e = text_eq→eq (h.lower j) lname same in
            elim (sj) [
              | inl other ↦ absurd (cc (c, other, e))
              | inr own ↦ ground (arith, c, own, e, text_eq_iff j key)
            ]
        | inr other ↦ ground (arith, fresh_canonical lname key d c, s)
      ]

  fresh_known :
      (lname name : Text) (d : Dict)
      → lookup (known_or h lname name (dict_keys d)) d ≡ none
      → contains lname (lower_keys d) ≡ false
  unfolding lookup contains known_or
  fresh_known lname name [] l = refl
  fresh_known lname name ((j, v) ∷ d) l = ground (arith, fresh_known lname name d, text_eq_refl j)

  -- What a step of the code does to the keys: nothing, or a new one behind them.
  abbrev Grows : Text → Dict → Dict → Type 0
  Grows key d d' =
      (dict_keys d' ≡ dict_keys d)
      ⊎ ((lookup key d ≡ none) × (dict_keys d' ≡ dict_keys d ++ key ∷ []))

  grow-IsClean :
      (key : Text) (d d' : Dict)
      → IsPermitted h (h.lower key)
      → IsSpelled key
      → (lookup key d ≡ none → contains (h.lower key) (lower_keys d) ≡ false)
      → Grows key d d'
      → IsClean (dict_keys d)
      → IsClean (dict_keys d')
  unfolding count
  grow-IsClean key d d' p s fresh (inl same) i = rw same i
  grow-IsClean key d d' p s fresh (inr (absent, e)) i = rw e (record {
    permitted = All-append (λ k. IsPermitted h (h.lower k)) (dict_keys d) _ i.permitted (p, tt);
    spelled = All-append IsSpelled (dict_keys d) _ i.spelled (s, tt);
    distinct = λ k. rw map-append (
        rw count-append (
          ground (
            arith,
            i.distinct k,
            text_eq_iff (h.lower key) k,
            count_of_absent (h.lower key) (lower_keys d) (fresh absent),
          )));
  })

  merge-Grows : (key value : Text) (d : Dict) → Grows key d (merge h key value d)
  unfolding merge
  merge-Grows key value d = elim (Option-cases (lookup key d)) [
    | inl absent ↦ rw (absent, merge) (inr (refl, map-append _ _ _))
    | inr (old, e) ↦ elim (Bool-cases (is_empty value)) [
      | inl nothing ↦ rw (e, merge) (rw nothing (inl refl))
      | inr filled ↦
          rw (e, merge) (rw filled (rw e at (dict_keys-put key (old ++ (codes ", " ++ value)) d)))
    ]
  ]

  header_key-IsSpelled : (name : Text) (d : Dict) → IsSpelled (header_key h name d)
  unfolding header_key
  header_key-IsSpelled name d =
      elim (Option-cases (canonical_in h allowed_headers (h.lower name))) [
        | inl other ↦ inl (rw (lower-header_key name d) other)
        | inr (key, e) ↦ inr (rw (lower-header_key name d) (e ∙ ap some (sym (key_eq e))))
      ]
    where
      key_eq :
          {key : Text}
          → canonical_in h allowed_headers (h.lower name) ≡ some key
          → header_key h name d ≡ key
      key_eq e = rw (e, header_key)

  fresh_header_key :
      (name : Text) (d : Dict)
      → All IsSpelled (dict_keys d)
      → lookup (header_key h name d) d ≡ none
      → contains (h.lower name) (lower_keys d) ≡ false
  unfolding header_key
  fresh_header_key name d s l =
      elim (Option-cases (canonical_in h allowed_headers (h.lower name))) [
        | inl other ↦ fresh_known (h.lower name) name d (rw (other, header_key) at l)
        | inr (key, e) ↦ fresh_canonical (h.lower name) key d e (rw (e, header_key) at l) s
      ]

  add_header-IsClean :
      (d : Dict) (item : Text × Text)
      → IsClean (dict_keys d)
      → IsClean (dict_keys (add_header h d item))
  unfolding add_header
  add_header-IsClean d (name, value) i = elim (Bool-cases (is_allowed h (h.lower name))) [
    | inl allowed ↦ rw allowed (
        grow-IsClean (header_key h name d) d _
          (rw lower-header_key (is_allowed-IsPermitted (h.lower name) allowed))
          (header_key-IsSpelled name d)
          (λ l. rw lower-header_key (fresh_header_key name d i.spelled l))
          (merge-Grows (header_key h name d) (strip value) d) i)
    | inr refused ↦ rw refused i
  ]

  collect-IsClean :
      (d : Dict) (items : Headers) → IsClean (dict_keys d) → IsClean (dict_keys (collect h d items))
  unfolding collect
  collect-IsClean d [] i = i
  collect-IsClean d (item ∷ items) i =
      collect-IsClean (add_header h d item) items (add_header-IsClean d item i)

  canonical_references :
      canonical_in h allowed_headers (h.lower references_key) ≡ some references_key
  unfolding canonical_in allowed_headers text_eq
  canonical_references = rw (
    h.lower_of_IsAscii (codes "References") (omega arith),
    h.lower_of_IsAscii (codes "In-Reply-To") (omega arith),
  )

  references-IsPermitted : IsPermitted h (h.lower references_key)
  unfolding contains allowed_headers
  references-IsPermitted = inl (ground (arith, text_eq_refl (h.lower references_key)))

  set_references-IsClean :
      (ids : List Text) (d : Dict)
      → IsClean (dict_keys d)
      → IsClean (dict_keys (set_references ids d))
  unfolding set_references
  set_references-IsClean ids d i =
      grow-IsClean references_key d _ references-IsPermitted (inr canonical_references)
        (λ l. fresh_canonical _ references_key d canonical_references l i.spelled)
        (dict_keys-put references_key _ d) i

  trim-IsClean :
      (ids : List Text) (d : Dict) → IsClean (dict_keys d) → IsClean (dict_keys (trim ids d).1)
  unfolding trim
  trim-IsClean [] d i = i
  trim-IsClean (r ∷ []) d i = i
  trim-IsClean (r ∷ s ∷ rest) d i = elim (Bool-cases (references_oversized d)) [
    | inl big ↦
        rw (big, trim)
          (trim-IsClean (s ∷ rest) (set_references (s ∷ rest) d)
            (set_references-IsClean (s ∷ rest) d i))
    | inr fits ↦ rw (fits, trim) i
  ]

  threaded-IsClean : (message : Headers) → IsClean (dict_keys (threaded h message).1)
  unfolding threaded
  threaded-IsClean message =
      let d = collect h [] message in
      let i : IsClean (dict_keys d) =
        collect-IsClean [] message (record { permitted = tt; spelled = tt; distinct = none_yet }) in
      let ids = all_references h message d in
      elim (Bool-cases (is_empty ids)) [
        | inl nothing ↦ rw nothing (trim-IsClean ids d i)
        | inr filled ↦
            rw filled (trim-IsClean ids (set_references ids d) (set_references-IsClean ids d i))
      ]
    where
      none_yet : (k : Text) → count k [] ≤ 1
      none_yet k = unfold count in omega arith

  -- The names in the headers of an accepted message are ones that Cloudflare takes, and no two of
  -- them are equal in lower case.
  pub passthrough_headers-names :
      (message : Headers) (d : Dict)
      → passthrough_headers h message ≡ ok d
      → All (λ key. IsPermitted h (h.lower key)) (dict_keys d)
        × ((k : Text) → count k (lower_keys d) ≤ 1)
  unfolding passthrough_headers
  passthrough_headers-names message d e =
      let same = (check_limits-IsWithinLimits (threaded h message).1 d e).0 in
      let i : IsClean (dict_keys d) = rw (← same) (threaded-IsClean message) in
      (i.permitted, i.distinct)
