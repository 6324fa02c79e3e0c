-- ===== src/Errors.antt =====
-- cloudflare_api.py: the exceptions. Each message that the code builds with an f-string is a
-- constructor that holds the values put into it. Python's own exceptions are constructors of
-- `Exception`; a function that may raise returns a `Result`.
use odoo_cloudflare_email.Prelude.{ℕ, Bool, Option, none, List, false, ◌≡◌, refl, ◌⊎◌, inl, inr}
use odoo_cloudflare_email.Text.{Text}
use odoo_cloudflare_email.Json.{Json, null}

-- What `_describe` puts into one line: the status, and each error's code and message.
pub record Description : Type 0 where
  pub status : ℕ
  pub details : List (Json × Json)

pub data Message : Type 0 where
  no_recipient no_from no_body : Message
  too_many_recipients : ℕ → Message
  headers_too_large : List Text → Message
  too_many_headers : ℕ → Message
  unreachable : Text → Message
  token_rejected verification_failed without_success refused : Description → Message
  token_inactive : Json → Message
  body_too_large : ℕ → Message
  no_recipient_reached : List Text → List Text → Message
  not_retried : Message → Message
  giving_up : Message → Message

-- `CloudflareEmailError`; a code of `None` is the JSON null.
pub record CloudflareEmailError : Type 0 where
  pub message : Message
  pub status : Option ℕ
  pub code : Json
  pub fatal : Bool

-- `CloudflareEmailError(message)`, the other arguments at their defaults.
abbrev pub plain : Message → CloudflareEmailError
plain m = record { message = m; status = none; code = null; fatal = false }

-- Odoo's `UserError`, its subclasses included, by its text; the record that a text names is its id or
-- its name.
pub data UserError : Type 0 where
  archived_server no_credentials missing_record : ℕ → UserError
  insecure_base_url : Text → UserError
  no_account_id no_api_token no_from_filter : Text → UserError
  connection_failed : Text → Message → UserError

pub data Exception : Type 0 where
  cloudflare : CloudflareEmailError → Exception
  user_error : UserError → Exception
  value_error : Text → Exception
  type_error key_error attribute_error : Exception

-- Whether an exception ends the batch.
abbrev pub is_fatal : Exception → Bool
is_fatal (cloudflare e) = e.fatal
is_fatal _ = false

pub data Result {ℓ} (A : Type ℓ) : Type ℓ where
  ok : A → Result A
  err : Exception → Result A

-- Raising skips what follows.
module _ {ℓ κ} {A : Type ℓ} {B : Type κ} where
  abbrev pub ◌>>=◌ : Result A → (A → Result B) → Result B
  ◌>>=◌ (err x) rest = err x
  ◌>>=◌ (ok value) rest = rest value

module _ {ℓ} {B : Type ℓ} where
  abbrev pub ◌>>◌ : Result (Unit {0}) → Result B → Result B
  ◌>>◌ first next = ◌>>=◌ first (λ _. next)

infixl 5 ◌>>=◌ ◌>>◌
abbrev pub raise {ℓ} : {A : Type ℓ} → Message → Result A
raise m = err (cloudflare (plain m))

pub Result-cases {ℓ} :
    {A : Type ℓ} (r : Result A) → ((a : A) × (r ≡ ok a)) ⊎ ((e : Exception) × (r ≡ err e))
Result-cases (ok a) = inl (a, refl)
Result-cases (err e) = inr (e, refl)

pub >>=-eq-err {ℓ κ} :
    {A : Type ℓ} {B : Type κ} (m : Result A) (f : A → Result B) {x : Exception}
    → (m >>= f) ≡ err x
    → (m ≡ err x) ⊎ ((a : A) × (m ≡ ok a) × (f a ≡ err x))
>>=-eq-err (ok a) f h = inr (a, refl, h)
>>=-eq-err (err e) f h = inl (cc)

pub ok_injective {ℓ} : {A : Type ℓ} {a b : A} → ok a ≡ ok b → a ≡ b
ok_injective e = cc
