-- ===== src/Api/Content/Bodies.antt =====
-- The bodies of a message are parts of it, each of them one.
use odoo_cloudflare_email.Prelude.{
  ◌≡◌, ap, ◌⊎◌, inl, inr, true, not, ◌&&◌, Option, none, some, List, [], ◌∷◌, ◌++◌, All, All-append,
  All-split, All-always, All-weaken, All-zip, Bool-cases, Option-cases, is_empty, ==_iff,
}
use odoo_cloudflare_email.Text.{Text, codes, text_eq, starts_with}
use odoo_cloudflare_email.Api.Mime.{PartInfo, Part, single, multi, Parts, nil, cons, or_empty}
use odoo_cloudflare_email.Api.Content.{
  iter_leaves, find_body, find_bodies, all_bodies, root_bodies, started, get_body, same_id,
  is_attachment, first_bodies, head_option, is_part, has_subtype, is_body,
}

-- All parts of a tree, the multiparts too.
unfoldable mutual
  pub parts_of : Part → List PartInfo
  parts_of (single i) = i ∷ []
  parts_of (multi i ps) = i ∷ parts_of_all ps

  pub parts_of_all : Parts → List PartInfo
  parts_of_all nil = []
  parts_of_all (cons p ps) = parts_of p ++ parts_of_all ps

module _ (P : PartInfo → Type 0) where
  abbrev Sure : Option (List PartInfo) → Type 0
  Sure none = Unit
  Sure (some bodies) = All P bodies

  started-Sure :
      (start : Option Text) (parts : List (Option Text × List PartInfo))
      → All (λ q. All P q.1) parts
      → Sure (started start parts)
  unfolding started
  started-Sure start [] a = tt
  started-Sure start ((c, b) ∷ rest) (p, a) = elim (Bool-cases (same_id c start)) [
    | inl e ↦ rw e p
    | inr e ↦ rw e (started-Sure start rest a)
  ]

  first_bodies-All :
      (parts : List (Option Text × List PartInfo))
      → All (λ q. All P q.1) parts
      → All P (first_bodies parts)
  first_bodies-All [] a = tt
  first_bodies-All ((c, b) ∷ rest) (p, a) = p

  root_bodies-All :
      (start : Option Text) (parts : List (Option Text × List PartInfo))
      → All (λ q. All P q.1) parts
      → All P (root_bodies start parts)
  unfolding root_bodies
  root_bodies-All start parts a = elim (Bool-cases (is_empty (or_empty start))) [
    | inl e ↦ rw e (first_bodies-All parts a)
    | inr e ↦
        let sure = started-Sure start parts a in
        elim (Option-cases (started start parts)) [
          | inl w ↦ rw (e, w) (first_bodies-All parts a)
          | inr (b, w) ↦ rw (e, w) (rw w at sure)
        ]
  ]

  -- A body is a part of the tree.
  mutual
    unfolding find_body parts_of

    find_body-All : (subtype : Text) (p : Part) → All P (parts_of p) → All P (find_body subtype p)
    find_body-All subtype (single i) (a, _) =
        elim (Bool-cases (not (is_attachment i) && has_subtype subtype i)) [
          | inl e ↦ rw e (a, tt)
          | inr e ↦ rw e tt
        ]
    find_body-All subtype (multi i ps) (a, as') = elim (Bool-cases (is_attachment i)) [
      | inl e ↦ rw e tt
      | inr e ↦ elim (Bool-cases (has_subtype subtype i)) [
        | inl f ↦ rw (e, f) (a, tt)
        | inr f ↦ elim (Bool-cases (text_eq i.content_type (codes "multipart/related"))) [
          | inl g ↦ rw (e, f, g) (root_bodies-All i.start _ (find_bodies-All subtype ps as'))
          | inr g ↦ elim (Bool-cases (starts_with i.content_type (codes "multipart/"))) [
            | inl k ↦ rw (e, f, g, k) (all_bodies-All subtype ps as')
            | inr k ↦ rw (e, f, g, k) tt
          ]
        ]
      ]
    ]

    find_bodies-All :
        (subtype : Text) (ps : Parts)
        → All P (parts_of_all ps)
        → All (λ q. All P q.1) (find_bodies subtype ps)
    find_bodies-All subtype nil a = tt
    find_bodies-All subtype (cons p ps) a =
        let (b, c) = All-split P (parts_of p) (parts_of_all ps) a in
        (find_body-All subtype p b, find_bodies-All subtype ps c)

    all_bodies-All :
        (subtype : Text) (ps : Parts) → All P (parts_of_all ps) → All P (all_bodies subtype ps)
    all_bodies-All subtype nil a = tt
    all_bodies-All subtype (cons p ps) a =
        let (b, c) = All-split P (parts_of p) (parts_of_all ps) a in
        All-append P (find_body subtype p) (all_bodies subtype ps) (find_body-All subtype p b)
          (all_bodies-All subtype ps c)

-- No other leaf has the part's identity.
abbrev pub IsAlone : List PartInfo → PartInfo → Type 0
IsAlone leaves i = All (λ j. i.id ≡ j.id → i ≡ j) leaves

head_option-IsAlone :
    (leaves bodies : List PartInfo)
    → All (IsAlone leaves) bodies
    → All (λ j. is_part (head_option bodies) j ≡ true → head_option bodies ≡ some j) leaves
head_option-IsAlone leaves [] a = All-always leaves (λ j e. absurd (cc))
head_option-IsAlone leaves (i ∷ is) (alone, _) =
    All-weaken leaves (λ j same e. ap some (same ((==_iff i.id j.id).0 e))) alone

get_body-IsAlone :
    (subtype : Text) (message : Part)
    → All (IsAlone (iter_leaves message)) (parts_of message)
    → All
        (λ j. is_part (get_body subtype message) j ≡ true → get_body subtype message ≡ some j)
        (iter_leaves message)
unfolding get_body
get_body-IsAlone subtype message alone =
    head_option-IsAlone (iter_leaves message) (find_body subtype message)
      (find_body-All (IsAlone (iter_leaves message)) subtype message alone)

-- What the test for a body takes is one of the bodies.
pub bodies-IsAlone :
    (message : Part)
    → All (IsAlone (iter_leaves message)) (parts_of message)
    → All
        (λ i.
          is_body (get_body (codes "html") message) (get_body (codes "plain") message) i ≡ true
          → (get_body (codes "html") message ≡ some i)
            ⊎ (get_body (codes "plain") message ≡ some i))
        (iter_leaves message)
bodies-IsAlone message alone =
    All-weaken (iter_leaves message)
      (λ i both e. elim (Bool-cases (is_part (get_body (codes "html") message) i)) [
        | inl first ↦ inl (both.0 first)
        | inr other ↦ inr (both.1 (rw other at e))
      ])
      (All-zip _ _ (iter_leaves message) (get_body-IsAlone (codes "html") message alone)
        (get_body-IsAlone (codes "plain") message alone))
