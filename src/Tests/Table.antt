-- ===== src/Tests/Table.antt =====
-- A table that starts empty, gets a server of the type and confirms it.
use mathlib.Core.Option
use odoo_cloudflare_email.Prelude.{
  ℕ, zero, suc, ◌≡◌, refl, ap, Bool, true, false, none, some, [], ◌∷◌, ◌++◌, length, is_empty,
  arith,
}
use odoo_cloudflare_email.Text.{Text, Bytes, codes, text_eq, utf8}
use odoo_cloudflare_email.Fetchmail.Server.{Server, cloudflare_type, done_state, find_by_key}
use odoo_cloudflare_email.Fetchmail.Server.Lookup.{IsOpen}
use odoo_cloudflare_email.Fetchmail.Credentials.{
  Values, no_values, is_cloudflare, create_server, regenerate, write_fields,
}
use odoo_cloudflare_email.Samples.{ascii_host}
use odoo_cloudflare_email.Fetchmail.Credentials.Rotation.{
  AreApart, AreRotated, regenerate-AreRotated,
}
use odoo_cloudflare_email.Fetchmail.Configuration.{cloudflare_configuration}
use odoo_cloudflare_email.Fetchmail.Confirm.{confirm}
use odoo_cloudflare_email.Fetchmail.Forms.{webhook_url, update_cron}
use odoo_cloudflare_email.Fetchmail.Forms.Polling.{any, update_cron-cloudflare}
use odoo_cloudflare_email.Fetchmail.Table.{State, Reach, here, next, created, confirmed}
use odoo_cloudflare_email.Fetchmail.Table.Sound.{IsSound, Reach-IsSound}
use odoo_cloudflare_email.Fetchmail.Table.Found.{last_segment, empty-IsSound, Reach-find_by_key}

-- Tokens that are different by their lengths.
stroke : ℕ → Text
stroke zero = b'a' ∷ []
stroke (suc n) = b'a' ∷ stroke n

length-stroke : (n : ℕ) → length (stroke n) ≡ suc n
unfolding stroke
length-stroke zero = refl
length-stroke (suc n) = ap suc (length-stroke n)

stroke_injective : (i j : ℕ) → stroke i ≡ stroke j → i ≡ j
stroke_injective i j e = omega (arith, ap length e, length-stroke i, length-stroke j)

stroke_filled : (k : ℕ) → is_empty (stroke k) ≡ false
unfolding stroke
stroke_filled zero = refl
stroke_filled (suc k) = refl

abbrev blank : Server
blank = record {
  id = 1;
  active = true;
  server_type = codes "imap";
  state = codes "draft";
  webhook_key = none;
  webhook_secret = none;
  configuration = none;
  object_model = none;
  original = false;
  attach = true;
  date = none;
}

abbrev as_cloudflare : Values
as_cloudflare = record no_values { server_type = some cloudflare_type }

abbrev draft : Server
draft = record blank {
  server_type = cloudflare_type;
  webhook_key = some (codes "a");
  webhook_secret = some (codes "aa");
  configuration = some cloudflare_configuration;
}

abbrev done : Server
done = record draft { state = done_state }

abbrev nothing : State
nothing = record { servers = []; drawn = 0 }

abbrev drafted : State
drafted = record { servers = draft ∷ []; drawn = 2 }

abbrev ready : State
ready = record { servers = done ∷ []; drawn = 2 }

run : Reach stroke cloudflare_configuration nothing ready
unfolding create_server write_fields is_cloudflare text_eq stroke confirm
run =
    next {u = drafted}
      (next here (
        created blank as_cloudflare [] [] (record { other_type = refl; no_key = refl })
          (record { no_key = refl; no_secret = refl }) refl refl refl))
      (confirmed (λ t. (codes "https", none)) none draft done refl refl
        (record { before = []; after = []; old = refl; new = refl }))

Reach-IsSound_example : IsSound stroke ready
Reach-IsSound_example =
    Reach-IsSound stroke cloudflare_configuration stroke_filled stroke_injective
      (empty-IsSound stroke 0) run

abbrev url : Text
url = codes "https://x.org/mail_cloudflare/inbound/a"

done_url : webhook_url (some (codes "https://x.org/")) done ≡ some url
unfolding webhook_url text_eq
done_url = refl

done-IsOpen : IsOpen (codes "a") done
done-IsOpen = record { owns = refl; kind = refl; confirmed = refl; active = refl }

Reach-find_by_key_example : find_by_key (last_segment url) (done ∷ []) ≡ some done
Reach-find_by_key_example =
    Reach-find_by_key stroke cloudflare_configuration stroke_filled stroke_injective 0 run
      (codes "a") [] done [] (some (codes "https://x.org/")) url refl done-IsOpen (omega arith)
      done_url

-- A cron that is its flag.
abbrev toggle : (Server → Bool) → Bool → Bool
toggle test active = any test (done ∷ [])

update_cron-cloudflare_example :
    (Option.map (λ b. b) (update_cron toggle false (some true)) ≡ some false)
    × (update_cron toggle true (some true) ≡ some true)
update_cron-cloudflare_example =
    update_cron-cloudflare (λ b. b) toggle (done ∷ []) true (λ test c. refl) (refl, tt)

configuration_test : length cloudflare_configuration ≡ 1258
unfolding cloudflare_configuration
configuration_test = refl

-- A digest that shows the secret.
abbrev shown : Bytes → Bytes → Text
shown secret message = secret ++ message

abbrev old_server : Server
old_server = record done { webhook_secret = some (codes "old") }

abbrev first : Text → ℕ
first [] = 0
first (c ∷ s) = c

utf8-stroke : (k : ℕ) → (t : Bytes) × (utf8 (stroke k) ≡ b'a' ∷ t)
unfolding stroke utf8
utf8-stroke zero = ([], refl)
utf8-stroke (suc k) = (utf8 (stroke k), refl)

utf8-old : utf8 (codes "old") ≡ codes "old"
unfolding utf8
utf8-old = refl

stroke-AreApart : (k : ℕ) → AreApart ascii_host shown (codes "old") (stroke k)
stroke-AreApart k message e =
    let (t, same) = utf8-stroke k in
    let apart : codes "old" ++ message ≡ b'a' ∷ (t ++ message) = rw same at (rw utf8-old at e) in
    absurd (omega (arith, ap first apart))

regenerated_test :
    (regenerate stroke cloudflare_configuration (old_server ∷ []) 2).0
    ≡ record old_server { webhook_secret = some (codes "aaa") } ∷ []
unfolding regenerate is_cloudflare stroke
regenerated_test = refl

regenerate-AreRotated_example :
    AreRotated ascii_host shown
      (old_server ∷ [])
      (regenerate stroke cloudflare_configuration (old_server ∷ []) 2).0
regenerate-AreRotated_example =
    regenerate-AreRotated ascii_host shown stroke cloudflare_configuration (old_server ∷ []) 2
      (λ k le. stroke-AreApart k, tt)
