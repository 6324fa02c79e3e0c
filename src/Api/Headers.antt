-- ===== src/Api/Headers.antt =====
-- The header allow-list, `_header_size` and `_passthrough_headers`.
pub mod Trim
pub mod Loop
pub mod Limits
pub mod Threading
pub mod Names
use odoo_cloudflare_email.Prelude.{
  ℕ, ◌+◌, ◌*◌, Bool, true, false, not, ◌&&◌, ◌||◌, Option, none, some, List, [], ◌∷◌, ◌++◌, map,
  ltb, if◌then◌else◌, is_empty, length,
}
use odoo_cloudflare_email.Text.{
  Text, codes, text_eq, contains, strip, join, starts_with, byte_length,
}
use odoo_cloudflare_email.Text.Dict.{Dict, dict_keys, lookup, put}
use odoo_cloudflare_email.Errors.{Result, ok, raise, headers_too_large, too_many_headers}
use odoo_cloudflare_email.Api.Host.{Host}
use odoo_cloudflare_email.Api.Mime.{Headers, header, or_empty}
use odoo_cloudflare_email.Api.MessageIds.{find_ids}

abbrev pub max_header_bytes : ℕ
max_header_bytes = 16 * 1024

abbrev pub max_header_count : ℕ
max_header_count = 20

abbrev pub max_header_value_bytes : ℕ
max_header_value_bytes = 2048

-- `_ALLOWED_HEADERS`, split to keep the lists short.
abbrev list_headers : List Text
list_headers =
    codes "List-Unsubscribe"
    ∷ codes "List-Unsubscribe-Post"
    ∷ codes "List-Id"
    ∷ codes "List-Archive"
    ∷ codes "List-Help"
    ∷ codes "List-Owner"
    ∷ codes "List-Post"
    ∷ codes "List-Subscribe"
    ∷ []

abbrev other_headers : List Text
other_headers =
    codes "Precedence"
    ∷ codes "Auto-Submitted"
    ∷ codes "Content-Language"
    ∷ codes "Keywords"
    ∷ codes "Comments"
    ∷ codes "Importance"
    ∷ codes "Priority"
    ∷ codes "Sensitivity"
    ∷ codes "Organization"
    ∷ codes "Require-Recipient-Valid-Since"
    ∷ codes "Expires"
    ∷ codes "Reply-By"
    ∷ codes "Archived-At"
    ∷ []

unfoldable pub allowed_headers : List Text
allowed_headers =
    codes "In-Reply-To"
    ∷ codes "References"
    ∷ codes "Thread-Index"
    ∷ codes "Thread-Topic"
    ∷ (list_headers ++ other_headers)

abbrev pub references_key : Text
references_key = codes "References"

module _ (h : Host) where
  -- `_CANONICAL_HEADER_NAMES.get(lname)`, over the names of a list; the list's lower-cased names are
  -- all different, so the first that fits is the only one.
  unfoldable pub canonical_in : List Text → Text → Option Text
  canonical_in [] lname = none
  canonical_in (name ∷ names) lname =
      if text_eq (h.lower name) lname then some name else canonical_in names lname

  unfoldable pub is_allowed : Text → Bool
  is_allowed lname = contains lname (map h.lower allowed_headers) || starts_with lname (codes "x-")

  -- `next((known for known in headers if known.lower() == lname), name)`.
  unfoldable pub known_or : Text → Text → List Text → Text
  known_or lname name [] = name
  known_or lname name (known ∷ rest) =
      if text_eq (h.lower known) lname then known else known_or lname name rest

  unfoldable pub header_key : Text → Dict → Text
  unfolding known_or
  header_key name headers = elim (canonical_in allowed_headers (h.lower name)) [
    | some key ↦ key
    | none ↦ known_or (h.lower name) name (dict_keys headers)
  ]

  -- The value of an allowed header, new or joined to what its key holds.
  unfoldable pub merge : Text → Text → Dict → Dict
  merge key value headers = elim (lookup key headers) [
    | none ↦ headers ++ (key, value) ∷ []
    | some old ↦ if is_empty value then headers else put key (old ++ (codes ", " ++ value)) headers
  ]

  -- One round of the loop over `message.items()`.
  unfoldable pub add_header : Dict → Text × Text → Dict
  unfolding merge header_key
  add_header headers (name, value) =
      if is_allowed (h.lower name)
      then merge (header_key name headers) (strip value) headers
      else headers

  unfoldable pub collect : Dict → Headers → Dict
  unfolding add_header
  collect headers [] = headers
  collect headers (item ∷ items) = collect (add_header headers item) items

-- `_header_size`.
unfoldable pub header_size : Dict → ℕ
header_size [] = 0
header_size ((name, value) ∷ d) = byte_length name + byte_length value + 4 + header_size d

unfoldable pub set_references : List Text → Dict → Dict
set_references references headers = put references_key (join (codes " ") references) headers

unfoldable pub references_oversized : Dict → Bool
references_oversized headers =
    ltb max_header_value_bytes (byte_length (or_empty (lookup references_key headers)))
    || ltb max_header_bytes (header_size headers)

-- The loop that drops the oldest reference: the references and the headers after it.
unfoldable pub trim : List Text → Dict → List Text × Dict
trim [] headers = ([], headers)
trim (r ∷ []) headers = (r ∷ [], headers)
trim (r ∷ s ∷ rest) headers = elim (references_oversized headers) [
  | true ↦ trim (s ∷ rest) (set_references (s ∷ rest) headers)
  | false ↦ (r ∷ s ∷ rest, headers)
]

unfoldable pub too_long : Dict → List Text
too_long [] = []
too_long ((name, value) ∷ d) =
    let rest = too_long d in
    if ltb max_header_value_bytes (byte_length value) then name ∷ rest else rest

unfoldable pub check_limits : Dict → Result Dict
check_limits headers =
    if not (is_empty (too_long headers)) || ltb max_header_bytes (header_size headers)
    then raise (headers_too_large (too_long headers))
    else if ltb max_header_count (length headers)
    then raise (too_many_headers (length headers))
    else ok headers

-- The message's own id goes behind the references, unless it is among them.
unfoldable pub with_own_id : List Text → Text → List Text
with_own_id references own_id =
    if not (is_empty own_id) && not (contains own_id references)
    then references ++ own_id ∷ []
    else references

module _ (h : Host) where
  -- The references of the message, its own id included.
  unfoldable pub all_references : Headers → Dict → List Text
  unfolding with_own_id
  all_references message headers =
      with_own_id (find_ids (or_empty (lookup references_key headers)))
        (strip (or_empty (header h (codes "Message-Id") message)))

  -- The headers, with References written anew and trimmed.
  unfoldable pub threaded : Headers → List Text × Dict
  unfolding all_references trim set_references references_oversized
  threaded message =
      let headers = collect h [] message in
      let references = all_references message headers in
      trim references (if is_empty references then headers else set_references references headers)

  unfoldable pub passthrough_headers : Headers → Result Dict
  unfolding threaded check_limits
  passthrough_headers message = check_limits (threaded message).1
