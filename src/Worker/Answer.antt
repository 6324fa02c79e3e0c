-- ===== src/Worker/Answer.antt =====
-- worker/src/inbox-do.ts: what the queue reads of Odoo's answer. `JSON.parse` is a parameter, with
-- none where it raises.
use odoo_cloudflare_email.Prelude.{ℕ, Option, none, some, [], ◌++◌, if◌then◌else◌, is_empty}
use odoo_cloudflare_email.Text.{Text, codes}
use odoo_cloudflare_email.Text.Number.{decimal}
use odoo_cloudflare_email.Json.{Json, str, num, obj, Number, get}
use odoo_cloudflare_email.Worker.Strings.{slice, trim, first_line}

-- The body is none where reading it raises.
pub record Answer : Type 0 where
  pub status : ℕ
  pub text : Option Text

-- An answer, or the text of a failure of the network or of a timeout.
pub data Fetched : Type 0 where
  answered : Answer → Fetched
  unreachable : Text → Fetched

abbrev pub max_error_chars : ℕ
max_error_chars = 200

abbrev or_blank : Option Text → Text
or_blank none = []
or_blank (some t) = t

-- The number under the key `thread_id` of an object.
unfoldable pub thread_id_in : Option Json → Option Number
thread_id_in (some (obj fields)) = elim (get (codes "thread_id") fields) [
  | num n ↦ some n
  | _ ↦ none
]
thread_id_in _ = none

-- The text under the key `error` of an object.
unfoldable pub error_in : Option Json → Option Text
error_in (some (obj fields)) = elim (get (codes "error") fields) [ str t ↦ some t | _ ↦ none ]
error_in _ = none

abbrev http_status : ℕ → Text
http_status status = codes "HTTP " ++ decimal status

module _ (parse_json : Text → Option Json) where
  -- `threadIdOf`.
  unfoldable pub thread_id_of : Answer → Option Number
  unfolding thread_id_in
  thread_id_of a = elim a.text [ none ↦ none | some text ↦ thread_id_in (parse_json text) ]

  -- `errorOf`.
  unfoldable pub error_of : Answer → Text
  unfolding error_in trim first_line slice
  error_of a =
      let text = trim (or_blank a.text) in
      elim (error_in (parse_json text)) [
        | some error ↦ slice max_error_chars (http_status a.status ++ (codes ": " ++ error))
        | none ↦ slice max_error_chars (
            if is_empty (first_line text)
            then http_status a.status
            else http_status a.status ++ (codes ": " ++ first_line text))
      ]
