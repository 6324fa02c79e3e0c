-- ===== src/Worker/Pass/Lost.antt =====
-- The one promise of the Worker: what is queued is not lost.
use odoo_cloudflare_email.Prelude.{ℕ, ◌≤◌, ◌≡◌, ◌⊎◌, Option, some}
use odoo_cloudflare_email.Text.{Text, Bytes}
use odoo_cloudflare_email.Json.{Json}
use odoo_cloudflare_email.Worker.Inbox
use odoo_cloudflare_email.Worker.Inbox.{InboxRow, Inbox, find_row}
use odoo_cloudflare_email.Worker.Pass.{Queue, Reach, here, next}
use odoo_cloudflare_email.Worker.Pass.Kept.{Spares}

-- The row of the message of `row`, whatever the attempts have made of it.
pub record IsOfMessage (row row' : InboxRow) : Type 0 where
  pub id : row'.id ≡ row.id
  pub r2_key : row'.r2_key ≡ row.r2_key
  pub envelope_from : row'.envelope_from ≡ row.envelope_from
  pub envelope_to : row'.envelope_to ≡ row.envelope_to
  pub message_id : row'.message_id ≡ row.message_id

-- The message is in the queue.
pub record IsQueued (id : Text) (row : InboxRow) (u : Queue) : Type 0 where
  pub now : InboxRow
  pub found : find_row id u.inbox.rows ≡ some now
  pub message : IsOfMessage row now

-- It is in the queue as delivered, with an answer of Odoo that accepts it.
pub record IsAccepted (id : Text) (row : InboxRow) (u : Queue) : Type 0 where
  pub queued : IsQueued id row u
  pub status : queued.now.status ≡ Inbox.delivered
  pub code : ℕ
  pub last_status : queued.now.last_status ≡ some code
  pub low : 200 ≤ code
  pub high : code ≤ 299

module _ (parse_json : Text → Option Json) (hexdigest : Bytes → Bytes → Text) (version : Text)
    (limit : ℕ) where
  -- The operator removes the id in none of the steps.
  abbrev pub LeavesAlone :
      {s t : Queue} → Text → Reach parse_json hexdigest version limit s t → Type 0
  LeavesAlone id here = Unit
  LeavesAlone id (next r st) = LeavesAlone id r × Spares parse_json hexdigest version limit id st

  -- One of the queues on this way is such.
  abbrev pub Passes :
      (Queue → Type 0) → {s t : Queue} → Reach parse_json hexdigest version limit s t → Type 0
  Passes P {t = t} here = P t
  Passes P {t = t} (next r st) = Passes P r ⊎ P t
