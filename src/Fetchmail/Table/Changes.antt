-- ===== src/Fetchmail/Table/Changes.antt =====
-- What each operation does to one server's type, key and secret.
use odoo_cloudflare_email.Prelude.{
  ℕ, suc, ◌≤◌, ◌<◌, ◌≡◌, refl, ◌⊎◌, inl, inr, Bool, true, false, ◌&&◌, Option, none, some, List, [],
  ◌∷◌, is_empty, arith, Bool-cases,
}
use odoo_cloudflare_email.Text.{Text, text_eq}
use odoo_cloudflare_email.Errors.{ok}
use odoo_cloudflare_email.Api.Mime.{or_empty}
use odoo_cloudflare_email.Fetchmail.Server.{Server, cloudflare_type, done_state}
use odoo_cloudflare_email.Fetchmail.Credentials.{
  Values, is_filled, is_cloudflare, field_after, write_fields, create_values, create_server,
  credential, write_server, write_loop, write_all, write, regenerate,
}
use odoo_cloudflare_email.Fetchmail.Credentials.Kept.{credential-filled}
use odoo_cloudflare_email.Fetchmail.Confirm.{confirm, check_base_url, is_secure}
use odoo_cloudflare_email.Fetchmail.Table.{IsQuiet, IsBlank, own_key}

abbrev pub of_type : Server → Bool
of_type s = text_eq s.server_type cloudflare_type

-- A Cloudflare server has a key and a secret.
pub record HasCredentials (s : Server) : Type 0 where
  pub key : of_type s ≡ true → is_filled s.webhook_key ≡ true
  pub secret : of_type s ≡ true → is_filled s.webhook_secret ≡ true

-- The key is as it was, or was missing and is one of the tokens drawn since.
abbrev pub KeyStep : (ℕ → Text) → ℕ → Option Text → ℕ → Option Text → Type 0
KeyStep token n old n' new =
    (own_key new ≡ own_key old)
    ⊎ ((own_key old ≡ []) × ((k : ℕ) × (n ≤ k) × (k < n') × (own_key new ≡ token k ∷ [])))

pub record Change (token : ℕ → Text) (n : ℕ) (old : Option Text) (n' : ℕ) (s' : Server)
    : Type 0 where
  pub later : n ≤ n'
  pub key : KeyStep token n old n' s'.webhook_key
  pub credentials : HasCredentials s'

own_key-filled : (t : Text) → is_empty t ≡ false → own_key (some t) ≡ t ∷ []
own_key-filled t e = rw e refl

own_key-empty : (o : Option Text) → is_filled o ≡ false → own_key o ≡ []
own_key-empty o e = rw e refl

KeyStep-later :
    (token : ℕ → Text) (n m n' : ℕ) (old new : Option Text)
    → m ≤ n'
    → KeyStep token n old m new
    → KeyStep token n old n' new
KeyStep-later token n m n' old new le (inl same) = inl same
KeyStep-later token n m n' old new le (inr (missing, (k, from_n, below, drawn))) =
    inr (missing, (k, from_n, omega arith, drawn))

other_type-field_after :
    (o : Option Text) (old : Text)
    → is_cloudflare o ≡ false
    → text_eq old cloudflare_type ≡ false
    → text_eq (field_after o old) cloudflare_type ≡ false
unfolding is_cloudflare
other_type-field_after none old e f = f
other_type-field_after (some t) old e f = e

-- A server of another type needs no credentials.
other-HasCredentials : (s : Server) → of_type s ≡ false → HasCredentials s
other-HasCredentials s e = record { key = λ f. cc (e, f); secret = λ f. cc (e, f) }

-- A type that is not written, or not written to be Cloudflare.
old_type :
    (o : Option Text) (old : Text)
    → is_cloudflare o ≡ false
    → text_eq (field_after o old) cloudflare_type ≡ true
    → text_eq old cloudflare_type ≡ true
unfolding is_cloudflare
old_type none old e f = f
old_type (some t) old e f = cc (e, f)

module _ (token : ℕ → Text) (contract : Text) (filled : (k : ℕ) → is_empty (token k) ≡ false) where
  -- A credential that no value names.
  credential-some :
      (old : Option Text) (n : ℕ)
      → is_filled old ≡ true
      → credential token contract old none n ≡ (none, n)
  unfolding credential
  credential-some old n e = rw (e, credential) refl

  credential-none :
      (old : Option Text) (n : ℕ)
      → is_filled old ≡ false
      → credential token contract old none n ≡ (some (some (token n)), suc n)
  unfolding credential
  credential-none old n e = rw (e, credential) refl

  credential-KeyStep :
      (old : Option Text) (n : ℕ)
      → (n ≤ (credential token contract old none n).1)
        × KeyStep token n old
            (credential token contract old none n).1
            (field_after (credential token contract old none n).0 old)
  credential-KeyStep old n = elim (Bool-cases (is_filled old)) [
    | inl e ↦ rw (credential-some old n e) (omega arith, inl refl)
    | inr e ↦ rw (credential-none old n e) (
      omega arith,
      inr (own_key-empty old e, (n, omega arith, omega arith, own_key-filled (token n) (filled n))),
    )
  ]

  pub create_server-Change :
      (blank : Server) (v : Values) (n : ℕ)
      → IsBlank blank
      → IsQuiet v
      → Change token n none
          (create_server token contract blank v n).1
          (create_server token contract blank v n).0
  unfolding create_server create_values write_fields
  create_server-Change blank v n b q = elim (Bool-cases (is_cloudflare v.server_type)) [
    | inl e ↦ rw e (
        rw q.no_key (
          rw q.no_secret (record {
            later = omega arith;
            key = inr (refl, (n, omega arith, omega arith, own_key-filled (token n) (filled n)));
            credentials = record {
              key = λ _. rw (filled n) refl;
              secret = λ _. rw (filled (suc n)) refl;
            };
          })))
    | inr e ↦ rw e (record {
      later = omega arith;
      key = rw q.no_key (rw b.no_key (inl refl));
      credentials =
          other-HasCredentials (write_fields v blank)
            (other_type-field_after v.server_type blank.server_type e b.other_type);
    })
  ]

  write_server-Change :
      (v : Values) (s : Server) (n : ℕ)
      → IsQuiet v
      → Change token n s.webhook_key
          (write_server token contract v s n).1
          (write_server token contract v s n).0
  unfolding write_server write_fields
  write_server-Change v s n q =
      let m = (credential token contract s.webhook_key none n).1 in
      let n' = (credential token contract s.webhook_secret none m).1 in
      let (first, step) = credential-KeyStep s.webhook_key n in
      let (second, _) = credential-KeyStep s.webhook_secret m in
      rw q.no_key (
        rw q.no_secret (record {
          later = omega arith;
          key =
              KeyStep-later token n m n' s.webhook_key
                (field_after (credential token contract s.webhook_key none n).0 s.webhook_key)
                second step;
          credentials = record {
            key = λ _. credential-filled token contract s.webhook_key n filled;
            secret = λ _. credential-filled token contract s.webhook_secret m filled;
          };
        }))

  write_fields-Change :
      (v : Values) (s : Server) (n : ℕ)
      → IsQuiet v
      → is_cloudflare v.server_type ≡ false
      → HasCredentials s
      → Change token n s.webhook_key n (write_fields v s)
  unfolding write_fields
  write_fields-Change v s n q kind c = record {
    later = omega arith;
    key = rw q.no_key (inl refl);
    credentials = record {
      key = λ f. rw q.no_key (c.key (old_type v.server_type s.server_type kind f));
      secret = λ f. rw q.no_secret (c.secret (old_type v.server_type s.server_type kind f));
    };
  }

  pub write-Change :
      (v : Values) (s s' : Server) (n n' : ℕ)
      → IsQuiet v
      → HasCredentials s
      → write token contract v (s ∷ []) n ≡ (s' ∷ [], n')
      → Change token n s.webhook_key n' s'
  unfolding write write_loop write_all write_fields is_cloudflare
  write-Change v s s' n n' q c e = elim (Bool-cases (is_cloudflare v.server_type)) [
    | inl kind ↦
        let whole : ◌≡◌ {A = List Server × ℕ}
            ((write_server token contract v s n).0 ∷ [], (write_server token contract v s n).1)
            (s' ∷ [], n') =
          rw kind at e in
        let same : (write_server token contract v s n).0 ≡ s' = cc in
        let count : (write_server token contract v s n).1 ≡ n' = cc in
        rw (← same) (rw (← count) (write_server-Change v s n q))
    | inr kind ↦
        let whole : ◌≡◌ {A = List Server × ℕ} (write_fields v s ∷ [], n) (s' ∷ [], n') =
          rw kind at e in
        let same : write_fields v s ≡ s' = cc in
        let count : n ≡ n' = cc in rw (← same) (rw (← count) (write_fields-Change v s n q kind c))
  ]

  pub regenerate-Change :
      (s s' : Server) (n n' : ℕ)
      → HasCredentials s
      → regenerate token contract (s ∷ []) n ≡ (s' ∷ [], n')
      → Change token n s.webhook_key n' s'
  unfolding regenerate write write_all write_fields is_cloudflare
  regenerate-Change s s' n n' c e =
      let same : record s { webhook_secret = some (token n) } ≡ s' = cc in
      let count : suc n ≡ n' = cc in
      rw (← same) (
        rw (← count) (record {
          later = omega arith;
          key = inl refl;
          credentials = record { key = c.key; secret = λ _. rw (filled n) refl };
        }))

  confirm-state :
      (urlsplit : Text → Text × Option Text) (base_url : Option Text) (s s' : Server)
      → confirm urlsplit base_url s ≡ ok s'
      → (state : Text) × (s' ≡ record s { state = state })
  unfolding confirm check_base_url write_fields
  confirm-state urlsplit base_url s s' e =
      elim (Bool-cases (is_filled s.webhook_key && is_filled s.webhook_secret)) [
        | inr bad ↦ cc (rw bad at e)
        | inl good ↦ elim (Bool-cases (is_secure (urlsplit (or_empty base_url)))) [
          | inr bad ↦ cc (rw (good, bad) at e)
          | inl secure ↦ (done_state, cc (rw (good, secure) at e))
        ]
      ]

  pub confirm-Change :
      (urlsplit : Text → Text × Option Text) (base_url : Option Text) (s s' : Server) (n : ℕ)
      → HasCredentials s
      → confirm urlsplit base_url s ≡ ok s'
      → Change token n s.webhook_key n s'
  unfolding confirm check_base_url write_fields
  confirm-Change urlsplit base_url s s' n c e =
      let (state, same) = confirm-state urlsplit base_url s s' e in
      rw same (record {
        later = omega arith;
        key = inl refl;
        credentials = record { key = c.key; secret = c.secret };
      })
