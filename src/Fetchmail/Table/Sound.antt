-- ===== src/Fetchmail/Table/Sound.antt =====
-- Every table that the operations reach is sound: keys are unique, and Cloudflare servers have their
-- credentials.
use mathlib.Core.List.{append_assoc}
use odoo_cloudflare_email.Prelude.{
  ℕ, ◌+◌, ◌≤◌, ◌<◌, ◌≡◌, refl, sym, ◌∙◌, ap, inl, inr, false, Option, none, List, [], ◌∷◌, ◌++◌,
  All, All-append, All-split, arith, Bool-cases, is_empty, ◌==◌,
}
use odoo_cloudflare_email.Text.{Text, text_eq}
use odoo_cloudflare_email.Text.Equality.{count, count-append, text_eq→eq}
use odoo_cloudflare_email.Fetchmail.Server.{Server, write_date}
use odoo_cloudflare_email.Fetchmail.Table.{
  State, Replaced, Step, created, written, regenerated, confirmed, delivered, deleted, Reach, here,
  next, own_key, keys,
}
use odoo_cloudflare_email.Fetchmail.Table.Changes.{
  HasCredentials, KeyStep, Change, create_server-Change, write-Change, regenerate-Change,
  confirm-Change,
}

-- Each key stands once in the table, none of the tokens to come does, and no Cloudflare server lacks
-- a credential.
pub record IsSound (token : ℕ → Text) (st : State) : Type 0 where
  pub once : (x : Text) → count x (keys st.servers) ≤ 1
  pub unused : (k : ℕ) → st.drawn ≤ k → count (token k) (keys st.servers) ≡ 0
  pub credentials : All HasCredentials st.servers

pub keys-append : (before after : List Server) → keys (before ++ after) ≡ keys before ++ keys after
keys-append [] after = refl
keys-append (s ∷ before) after =
    ap (λ (l : List Text). own_key s.webhook_key ++ l) (keys-append before after)
    ∙ sym (append_assoc (own_key s.webhook_key) (keys before) (keys after))

-- The count of a key around one place of the table.
pub count-keys :
    (x : Text) (before : List Server) (s : Server) (after : List Server)
    → count x (keys (before ++ s ∷ after))
      ≡ count x (keys before) + (count x (own_key s.webhook_key) + count x (keys after))
count-keys x before s after = rw (keys-append before (s ∷ after)) (
    count-append x (keys before) (own_key s.webhook_key ++ keys after)
    ∙ ap (λ (n : ℕ). count x (keys before) + n)
        (count-append x (own_key s.webhook_key) (keys after)))

module _ (token : ℕ → Text) (injective : (i j : ℕ) → token i ≡ token j → i ≡ j) where
  other_token : (i j : ℕ) → i < j → text_eq (token i) (token j) ≡ false
  other_token i j lt = elim (Bool-cases (text_eq (token i) (token j))) [
    | inl e ↦ absurd (omega (arith, injective i j (text_eq→eq (token i) (token j) e)))
    | inr e ↦ e
  ]

  -- A key that is as it was, or was missing and is a token drawn since.
  KeyStep-once :
      (old new : Option Text) (n n' b a : ℕ) (x : Text)
      → KeyStep token n old n' new
      → b + (count x (own_key old) + a) ≤ 1
      → ((k : ℕ) → n ≤ k → token k ≡ x → b + (count x (own_key old) + a) ≡ 0)
      → b + (count x (own_key new) + a) ≤ 1
  unfolding count
  KeyStep-once old new n n' b a x (inl same) few unused = rw same few
  KeyStep-once old new n n' b a x (inr (missing, (k, from_n, below, drawn))) few unused =
      elim (Bool-cases (text_eq (token k) x)) [
        | inl e ↦
            let absent = unused k from_n (text_eq→eq (token k) x e) in
            rw drawn (rw e (omega (arith, absent)))
        | inr e ↦
            let few' : b + (0 + a) ≤ 1 = rw missing at few in rw drawn (rw e (omega (arith, few')))
      ]

  KeyStep-unused :
      (old new : Option Text) (n n' b a j : ℕ)
      → KeyStep token n old n' new
      → n' ≤ j
      → b + (count (token j) (own_key old) + a) ≡ 0
      → b + (count (token j) (own_key new) + a) ≡ 0
  unfolding count
  KeyStep-unused old new n n' b a j (inl same) le zero = rw same zero
  KeyStep-unused old new n n' b a j (inr (missing, (k, from_n, below, drawn))) le zero =
      let zero' : b + (0 + a) ≡ 0 = rw missing at zero in
      rw drawn (rw (other_token k j (omega arith)) (omega (arith, zero')))

  -- A change at one place of a sound table.
  Change-IsSound :
      (st : State) (before after : List Server) (old : Option Text) (n : ℕ) (s' : Server)
      → st.servers ≡ before ++ s' ∷ after
      → Change token n old st.drawn s'
      → ((x : Text) → count x (keys before) + (count x (own_key old) + count x (keys after)) ≤ 1)
      → ((k : ℕ)
          → n ≤ k
          → count (token k) (keys before)
              + (count (token k) (own_key old) + count (token k) (keys after))
            ≡ 0)
      → All HasCredentials before
      → All HasCredentials after
      → IsSound token st
  Change-IsSound st before after old n s' split c once unused creds creds' = record {
    once = λ x. rw split (
        rw (count-keys x before s' after) (
          KeyStep-once old s'.webhook_key n st.drawn (count x (keys before)) (count x (keys after))
            x c.key (once x) (λ k le same. rw (← same) (unused k le))));
    unused = λ k le. rw split (
        rw (count-keys (token k) before s' after) (
          KeyStep-unused old s'.webhook_key n st.drawn (count (token k) (keys before))
            (count (token k) (keys after)) k c.key le (unused k (omega (arith, c.later, le)))));
    credentials =
        rw split (All-append HasCredentials before (s' ∷ after) creds (c.credentials, creds'));
  }

  -- The same where a record is replaced.
  Replaced-IsSound :
      (t u : State) (s s' : Server)
      → IsSound token t
      → Replaced t u s s'
      → (HasCredentials s → Change token t.drawn s.webhook_key u.drawn s')
      → IsSound token u
  Replaced-IsSound t u s s' sound r change =
      let all = rw r.old at sound.credentials in
      let (creds, (own, creds')) = All-split HasCredentials r.before (s ∷ r.after) all in
      Change-IsSound u r.before r.after s.webhook_key t.drawn s' r.new (change own)
        (λ x. rw (← count-keys x r.before s r.after) (rw (← r.old) (sound.once x)))
        (λ k le. rw (← count-keys (token k) r.before s r.after) (rw (← r.old) (sound.unused k le)))
        creds creds'

-- A delivery's date changes no key and no credential.
write_date-keys :
    (id now : ℕ) (servers : List Server) → keys (write_date id now servers) ≡ keys servers
unfolding write_date
write_date-keys id now [] = refl
write_date-keys id now (s ∷ servers) = elim (Bool-cases (s.id == id)) [
  | inl e ↦
      rw e (ap (λ (l : List Text). own_key s.webhook_key ++ l) (write_date-keys id now servers))
  | inr e ↦
      rw e (ap (λ (l : List Text). own_key s.webhook_key ++ l) (write_date-keys id now servers))
]

write_date-HasCredentials :
    (id now : ℕ) (servers : List Server)
    → All HasCredentials servers
    → All HasCredentials (write_date id now servers)
unfolding write_date
write_date-HasCredentials id now [] p = tt
write_date-HasCredentials id now (s ∷ servers) (c, p) = elim (Bool-cases (s.id == id)) [
  | inl e ↦
      rw e (record { key = c.key; secret = c.secret }, write_date-HasCredentials id now servers p)
  | inr e ↦ rw e (c, write_date-HasCredentials id now servers p)
]

module _ (token : ℕ → Text) (contract : Text) (filled : (k : ℕ) → is_empty (token k) ≡ false)
    (injective : (i j : ℕ) → token i ≡ token j → i ≡ j) where
  Step-IsSound : (t u : State) → IsSound token t → Step token contract t u → IsSound token u
  unfolding count
  Step-IsSound t u sound (created blank v before after b q old new drawn) =
      let (creds, creds') = All-split HasCredentials before after (rw old at sound.credentials) in
      let joined : (x : Text)
          → count x (keys t.servers) ≡ count x (keys before) + count x (keys after) =
        λ x. rw old (rw (keys-append before after) (count-append x (keys before) (keys after))) in
      Change-IsSound token injective u before after none t.drawn _ new
        (rw drawn (create_server-Change token contract filled blank v t.drawn b q))
        (λ x. omega (arith, sound.once x, joined x))
        (λ k le. omega (arith, sound.unused k le, joined (token k))) creds creds'
  Step-IsSound t u sound (written v s s' q e r) =
      Replaced-IsSound token injective t u s s' sound r
        (λ c. write-Change token contract filled v s s' t.drawn u.drawn q c e)
  Step-IsSound t u sound (regenerated s s' e r) =
      Replaced-IsSound token injective t u s s' sound r
        (λ c. regenerate-Change token contract filled s s' t.drawn u.drawn c e)
  Step-IsSound t u sound (confirmed urlsplit base_url s s' e drawn r) =
      Replaced-IsSound token injective t u s s' sound r
        (λ c. rw drawn (confirm-Change token contract filled urlsplit base_url s s' t.drawn c e))
  Step-IsSound t u sound (delivered id now new drawn) = record {
    once = λ x. rw new (rw (write_date-keys id now t.servers) (sound.once x));
    unused =
        λ k le. rw new (rw (write_date-keys id now t.servers) (sound.unused k (rw drawn at le)));
    credentials = rw new (write_date-HasCredentials id now t.servers sound.credentials);
  }
  Step-IsSound t u sound (deleted s before after old new drawn) =
      let (creds, (_, creds')) =
        All-split HasCredentials before (s ∷ after) (rw old at sound.credentials) in
      let left : (x : Text) → count x (keys u.servers) ≤ count x (keys t.servers) = λ x.
        rw (new, old)
          (rw (keys-append before after) (
            omega
              (arith, count-append x (keys before) (keys after), count-keys x before s after))) in
      record {
        once = λ x. omega (arith, sound.once x, left x);
        unused = λ k le. omega (arith, sound.unused k (rw drawn at le), left (token k));
        credentials = rw new (All-append HasCredentials before after creds creds');
      }

  -- Every operation keeps a sound table sound, so whatever is done to a sound table: each key stands
  -- once in it, no token that is still to come does, and each Cloudflare server has a key and a
  -- secret. The generated tokens are taken to be filled and all different, and no write names a
  -- credential.
  pub Reach-IsSound : {t u : State} → IsSound token t → Reach token contract t u → IsSound token u
  Reach-IsSound {t} sound here = sound
  Reach-IsSound {t} {u} sound (next {u = v} r s) = Step-IsSound v u (Reach-IsSound sound r) s
