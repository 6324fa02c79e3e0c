-- ===== src/Api/Content/Attached.antt =====
-- What becomes of the leaves of a message.
use odoo_cloudflare_email.Prelude.{
  ℕ, ◌+◌, ◌<◌, ◌≡◌, refl, ap₂, ◌⊎◌, inl, inr, Bool, true, false, Option, none, some, List, [], ◌∷◌,
  map, All, Bool-cases, is_empty,
}
use odoo_cloudflare_email.Text.{Bytes, codes, text_eq, strip}
use odoo_cloudflare_email.Text.Base64.Decode.{decode, decode-encode}
use odoo_cloudflare_email.Api.Host.{Host}
use odoo_cloudflare_email.Api.Mime.{PartInfo, Part, or_empty}
use odoo_cloudflare_email.Api.Content.{
  Attachment, Content, iter_leaves, get_body, part_bytes, is_body, attachment, file_name,
  collect_attachments, extract_content,
}
use odoo_cloudflare_email.Api.Content.Bodies.{IsAlone, parts_of, bodies-IsAlone}

-- The leaves that no test for a body takes.
unfoldable pub others : (PartInfo → Bool) → List PartInfo → List PartInfo
others body [] = []
others body (i ∷ is) = elim (body i) [ true ↦ others body is | false ↦ i ∷ others body is ]

-- Each byte is one.
abbrev pub IsBytes : Bytes → Type 0
IsBytes = All (λ b. b < 256)

-- An attachment has a name; one that the text refers to is shown in it.
pub record IsUsable (a : Attachment) : Type 0 where
  pub named : is_empty a.filename ≡ false
  pub placed :
      (a.disposition ≡ codes "inline")
      ⊎ ((a.content_id ≡ none) × (a.disposition ≡ codes "attachment"))

-- What the content of a message with these leaves and these bodies is.
pub record IsExtracted (leaves : List PartInfo) (html text : Option PartInfo) (c : Content)
    : Type 0 where
  pub attached :
      map (λ a. decode a.content) c.attachments
      ≡ map (λ i. some (part_bytes i)) (others (is_body html text) leaves)
  pub bodies : All (λ i. is_body html text i ≡ true → (html ≡ some i) ⊎ (text ≡ some i)) leaves
  pub usable : All IsUsable c.attachments

module _ (h : Host) where
  attachment-IsUsable : (i : PartInfo) (n : ℕ) → IsUsable (attachment h i n)
  unfolding attachment file_name
  attachment-IsUsable i n = record {
    named = elim (Bool-cases (is_empty (or_empty i.filename))) [
      | inl e ↦ rw e refl
      | inr e ↦ rw e e
    ];
    placed = elim (Bool-cases (is_empty (strip (or_empty i.content_id)))) [
      | inr e ↦ rw e (inl refl)
      | inl e ↦ rw e (elim (Bool-cases (text_eq (or_empty i.disposition) (codes "inline"))) [
        | inl f ↦ rw f (inl refl)
        | inr f ↦ rw f (inr (refl, refl))
      ])
    ];
  }

  collect-IsUsable :
      (body : PartInfo → Bool) (is : List PartInfo) (n : ℕ)
      → All IsUsable (collect_attachments h body is n)
  unfolding collect_attachments
  collect-IsUsable body [] n = tt
  collect-IsUsable body (i ∷ is) n = elim (Bool-cases (body i)) [
    | inl e ↦ rw (e, collect_attachments) (collect-IsUsable body is n)
    | inr e ↦
        rw (e, collect_attachments)
          (attachment-IsUsable i (n + 1), collect-IsUsable body is (n + 1))
  ]

  collect-decode :
      (body : PartInfo → Bool) (is : List PartInfo) (n : ℕ)
      → All (λ i. IsBytes (part_bytes i)) is
      → map (λ a. decode a.content) (collect_attachments h body is n)
        ≡ map (λ i. some (part_bytes i)) (others body is)
  unfolding collect_attachments attachment others
  collect-decode body [] n p = refl
  collect-decode body (i ∷ is) n (b, p) = elim (Bool-cases (body i)) [
    | inl e ↦ rw (e, collect_attachments, others) (collect-decode body is n p)
    | inr e ↦
        rw (e, collect_attachments, others)
          (ap₂ (λ (o : Option Bytes) l. o ∷ l) (decode-encode (part_bytes i) b)
            (collect-decode body is (n + 1) p))
  ]

  -- Every leaf of a message whose parts have identities of their own is one of the two bodies, or is
  -- an attachment: the attachments decode, in order, to the bytes of the other leaves. Each has a
  -- name, and is inline if it has a content id.
  pub extract_content-IsExtracted :
      (message : Part)
      → All (IsAlone (iter_leaves message)) (parts_of message)
      → All (λ i. IsBytes (part_bytes i)) (iter_leaves message)
      → IsExtracted
          (iter_leaves message)
          (get_body (codes "html") message)
          (get_body (codes "plain") message)
          (extract_content h message)
  unfolding extract_content
  extract_content-IsExtracted message alone bytes = record {
    attached = collect-decode _ (iter_leaves message) 0 bytes;
    bodies = bodies-IsAlone message alone;
    usable = collect-IsUsable _ (iter_leaves message) 0;
  }
