-- ===== src/Worker/Backoff.antt =====
-- worker/src/lib/backoff.ts: how long the Worker waits, and what an answer means.
use odoo_cloudflare_email.Prelude.{
  ℕ, ◌-◌, ◌*◌, ◌&&◌, ◌||◌, Option, none, some, List, [], ◌∷◌, length, ltb, leb, if◌then◌else◌, ◌==◌,
  zero, suc,
}

-- The verdict of one attempt. The code that reads an answer gives no `dead`.
pub data Verdict : Type 0 where
  delivered retry rejected dead : Verdict

-- `schedule[index] ?? last`.
entry_at : ℕ → ℕ → List ℕ → ℕ
entry_at last index [] = last
entry_at last zero (seconds ∷ schedule) = seconds
entry_at last (suc index) (seconds ∷ schedule) = entry_at last index schedule

last_of : ℕ → List ℕ → ℕ
last_of seconds [] = seconds
last_of seconds (next ∷ schedule) = last_of next schedule

abbrev max : ℕ → ℕ → ℕ
max a b = if ltb a b then b else a

abbrev min : ℕ → ℕ → ℕ
min a b = if ltb b a then b else a

-- `backoffMs`; none is the `RangeError` of an empty schedule.
unfoldable pub backoff_ms : List ℕ → ℕ → Option ℕ
unfolding entry_at last_of
backoff_ms [] attempt = none
backoff_ms (seconds ∷ schedule) attempt =
    let index = min (max attempt 1) (length (seconds ∷ schedule)) - 1 in
    some (entry_at (last_of seconds schedule) index (seconds ∷ schedule) * 1000)

-- `classifyStatus`.
unfoldable pub classify_status : ℕ → Verdict
classify_status status =
    if leb 200 status && ltb status 300
    then delivered
    else if status == 408 || status == 429 || leb 500 status && ltb status 600
    then retry
    else rejected
