-- ===== src/Api/Content.antt =====
-- `_iter_leaves`, `_attachment` and `_extract_content`, and `EmailMessage.get_body` of Python's
-- library for a preference of one subtype.
pub mod Bodies
pub mod Attached
use odoo_cloudflare_email.Prelude.{
  ℕ, ◌+◌, Bool, true, false, not, ◌&&◌, ◌||◌, Option, none, some, List, [], ◌∷◌, ◌++◌,
  if◌then◌else◌, ◌==◌, is_empty,
}
use mathlib.Core.List.{reverse}
use odoo_cloudflare_email.Text.{Text, Bytes, codes, text_eq, strip, starts_with}
use odoo_cloudflare_email.Text.Base64
use odoo_cloudflare_email.Text.Number.{decimal}
use odoo_cloudflare_email.Api.Host.{Host}
use odoo_cloudflare_email.Api.Mime.{PartInfo, Part, single, multi, Parts, nil, cons, info, or_empty}

abbrev pub is_rfc822 : PartInfo → Bool
is_rfc822 i = text_eq i.content_type (codes "message/rfc822")

-- `_iter_leaves`.
unfoldable mutual
  pub iter_leaves : Part → List PartInfo
  iter_leaves (single i) = i ∷ []
  iter_leaves (multi i ps) = if is_rfc822 i then i ∷ [] else iter_leaves_all ps

  pub iter_leaves_all : Parts → List PartInfo
  iter_leaves_all nil = []
  iter_leaves_all (cons p ps) = iter_leaves p ++ iter_leaves_all ps

abbrev pub is_attachment : PartInfo → Bool
is_attachment i = elim i.disposition [ none ↦ false | some d ↦ text_eq d (codes "attachment") ]

abbrev pub same_id : Option Text → Option Text → Bool
same_id (some a) (some b) = text_eq a b
same_id _ _ = false

-- The candidate of a multipart/related: the part that `start` names, else the first.
unfoldable pub started : Option Text → List (Option Text × List PartInfo) → Option (List PartInfo)
started start [] = none
started start ((content_id, bodies) ∷ rest) =
    if same_id content_id start then some bodies else started start rest

abbrev pub first_bodies : List (Option Text × List PartInfo) → List PartInfo
first_bodies [] = []
first_bodies ((content_id, bodies) ∷ rest) = bodies

unfoldable pub root_bodies : Option Text → List (Option Text × List PartInfo) → List PartInfo
unfolding started
root_bodies start parts =
    if is_empty (or_empty start)
    then first_bodies parts
    else elim (started start parts) [ some bodies ↦ bodies | none ↦ first_bodies parts ]

abbrev pub has_subtype : Text → PartInfo → Bool
has_subtype subtype i = text_eq i.content_type (codes "text/" ++ subtype)

-- `_find_body` with one subtype of text to look for.
unfoldable mutual
  unfolding root_bodies

  pub find_body : Text → Part → List PartInfo
  find_body subtype (single i) =
      if not (is_attachment i) && has_subtype subtype i then i ∷ [] else []
  find_body subtype (multi i ps) =
      if is_attachment i
      then []
      else if has_subtype subtype i
      then i ∷ []
      else if text_eq i.content_type (codes "multipart/related")
      then root_bodies i.start (find_bodies subtype ps)
      else if starts_with i.content_type (codes "multipart/")
      then all_bodies subtype ps
      else []

  pub find_bodies : Text → Parts → List (Option Text × List PartInfo)
  find_bodies subtype nil = []
  find_bodies subtype (cons p ps) =
      ((info p).content_id, find_body subtype p) ∷ find_bodies subtype ps

  pub all_bodies : Text → Parts → List PartInfo
  all_bodies subtype nil = []
  all_bodies subtype (cons p ps) = find_body subtype p ++ all_bodies subtype ps

abbrev pub head_option : List PartInfo → Option PartInfo
head_option [] = none
head_option (i ∷ is) = some i

-- `message.get_body((subtype,))`.
unfoldable pub get_body : Text → Part → Option PartInfo
unfolding find_body
get_body subtype p = head_option (find_body subtype p)

pub record Attachment : Type 0 where
  pub content : Text
  pub filename : Text
  pub type : Text
  pub disposition : Text
  pub content_id : Option Text

-- `text.strip("<>")`.
drop_brackets : Text → Text
drop_brackets [] = []
drop_brackets (c ∷ s) = if c == b'<' || c == b'>' then drop_brackets s else c ∷ s

unfoldable pub strip_brackets : Text → Text
unfolding drop_brackets
strip_brackets s = reverse (drop_brackets (reverse (drop_brackets s)))

-- The decoded body; none is read as empty.
abbrev pub part_bytes : PartInfo → Bytes
part_bytes i = if is_rfc822 i then i.message_bytes else or_empty i.decoded

module _ (h : Host) where
  unfoldable pub file_name : PartInfo → ℕ → Text
  file_name i index =
      if is_empty (or_empty i.filename)
      then codes "attachment-" ++ (decimal index ++ or_empty (h.guess_extension i.content_type))
      else or_empty i.filename

  -- `_attachment`.
  unfoldable pub attachment : PartInfo → ℕ → Attachment
  unfolding file_name strip_brackets
  attachment i index =
      let content_id = strip (or_empty i.content_id) in
      record {
        content = Base64.encode (part_bytes i);
        filename = file_name i index;
        type = i.content_type;
        disposition =
            if not (is_empty content_id) || text_eq (or_empty i.disposition) (codes "inline")
            then codes "inline"
            else codes "attachment";
        content_id = if is_empty content_id then none else some (strip_brackets content_id);
      }

-- `id(part) in {id(p) for p in (html_part, text_part) if p is not None}`.
abbrev pub is_part : Option PartInfo → PartInfo → Bool
is_part none i = false
is_part (some p) i = p.id == i.id

abbrev pub is_body : Option PartInfo → Option PartInfo → PartInfo → Bool
is_body html text i = is_part html i || is_part text i

-- `text if text and text.strip() else None`.
unfoldable pub filled : Option PartInfo → Option Text
filled none = none
filled (some i) = if is_empty (strip i.content) then none else some i.content

pub record Content : Type 0 where
  pub text : Option Text
  pub html : Option Text
  pub attachments : List Attachment

module _ (h : Host) where
  -- The loop over the leaves, with the number of attachments so far.
  unfoldable pub collect_attachments : (PartInfo → Bool) → List PartInfo → ℕ → List Attachment
  unfolding attachment
  collect_attachments body [] n = []
  collect_attachments body (i ∷ is) n = elim (body i) [
    | true ↦ collect_attachments body is n
    | false ↦ attachment h i (n + 1) ∷ collect_attachments body is (n + 1)
  ]

  unfoldable pub extract_content : Part → Content
  unfolding filled collect_attachments get_body iter_leaves
  extract_content message =
      let html_part = get_body (codes "html") message in
      let text_part = get_body (codes "plain") message in
      record {
        text = filled text_part;
        html = filled html_part;
        attachments = collect_attachments (is_body html_part text_part) (iter_leaves message) 0;
      }
