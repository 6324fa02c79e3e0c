-- ===== src/Outgoing/Probe/Verified.antt =====
-- What a connection test establishes.
use odoo_cloudflare_email.Prelude.{
  ℕ, ◌+◌, ◌-◌, ◌≤◌, ◌≡◌, ◌≢◌, refl, ap, ◌⊎◌, inl, inr, Bool, true, false, List, [], ◌∷◌, ◌++◌, All,
  is_empty, length, Bool-cases, arith,
}
use odoo_cloudflare_email.Text.{Text, codes}
use odoo_cloudflare_email.Json.{Json}
use odoo_cloudflare_email.Errors.{
  Exception, cloudflare, user_error, value_error, type_error, key_error, attribute_error, Result,
  ok, err, Result-cases,
}
use odoo_cloudflare_email.Api.Response.{Outcome}
use odoo_cloudflare_email.Api.Token.{
  Get, HttpState, verify_url, open_session, close_session, http_get, judge_token, verify_token,
}
use odoo_cloudflare_email.Outgoing.{
  MailServer, max_email_size_mb, is_cloudflare, cloudflare_servers, other_servers,
}
use odoo_cloudflare_email.Outgoing.Connect.{formatted}
use odoo_cloudflare_email.Outgoing.Probe.{
  Tested, shown, show_error, with_sizes, verify_loop, test_cloudflare, test_others,
  test_smtp_connection,
}

-- The request that verifies the token of a server.
abbrev pub get_of : MailServer → Get
get_of s = record {
  url = verify_url;
  authorization = codes "Bearer " ++ formatted s.cloudflare_api_token;
}

-- The state after one more request.
abbrev pub asked : MailServer → HttpState → HttpState
asked s st = record st { gets = get_of s ∷ st.gets }

-- An error of the API that was not turned into one for the user.
abbrev pub is_raw : Exception → Bool
is_raw (cloudflare e) = true
is_raw _ = false

module _ (network : List Get → Outcome) where
  -- The servers' tokens, one after the other, each with one request whose answer is accepted.
  abbrev pub AreVerified : List MailServer → HttpState → HttpState → Type 0
  AreVerified [] st st' = st' ≡ st
  AreVerified (s ∷ servers) st st' =
      ((result : Json) × (judge_token (network (get_of s ∷ st.gets)) ≡ ok result))
      × AreVerified servers (asked s st) st'

  verify_token-asked :
      (s : MailServer) (st : HttpState)
      → verify_token network true (formatted s.cloudflare_api_token) st
        ≡ (judge_token (network (get_of s ∷ st.gets)), asked s st)
  unfolding verify_token open_session close_session http_get
  verify_token-asked s st =
      let balanced : st.open_sessions + 1 - 1 ≡ st.open_sessions = omega arith in
      ap
        (λ (n : ℕ). (
          judge_token (network (get_of s ∷ st.gets)),
          record { gets = get_of s ∷ st.gets; open_sessions = n },
        ))
        balanced

  -- What the loop over the servers has done when it ends.
  abbrev pub IsLoopEnd : List MailServer → HttpState → Result (Unit {0}) → HttpState → Type 0
  IsLoopEnd servers st (ok _) st' = AreVerified servers st st'
  IsLoopEnd servers st (err x) st' =
      (is_raw x ≡ false) × (length st'.gets ≤ length st.gets + length servers)

  shown-is_raw : (name : Text) (e : Exception) → is_raw (shown name e) ≡ false
  unfolding shown
  shown-is_raw name (cloudflare e) = refl
  shown-is_raw name (user_error e) = refl
  shown-is_raw name (value_error t) = refl
  shown-is_raw name type_error = refl
  shown-is_raw name key_error = refl
  shown-is_raw name attribute_error = refl

  IsLoopEnd-cons :
      (s : MailServer) (servers : List MailServer) (st st' : HttpState) (r : Result (Unit {0}))
      (result : Json)
      → judge_token (network (get_of s ∷ st.gets)) ≡ ok result
      → IsLoopEnd servers (asked s st) r st'
      → IsLoopEnd (s ∷ servers) st r st'
  IsLoopEnd-cons s servers st st' (ok _) result e p = ((result, e), p)
  IsLoopEnd-cons s servers st st' (err x) result e (raw, few) = (raw, omega arith)

  verify_loop-ok :
      (s : MailServer) (servers : List MailServer) (st : HttpState) (result : Json)
      → judge_token (network (get_of s ∷ st.gets)) ≡ ok result
      → verify_loop network (s ∷ servers) st ≡ verify_loop network servers (asked s st)
  unfolding verify_loop show_error
  verify_loop-ok s servers st result e =
      rw (verify_token-asked s st, verify_loop)
        (rw (e, verify_loop) (rw (verify_token-asked s st) refl))

  verify_loop-err :
      (s : MailServer) (servers : List MailServer) (st : HttpState) (x : Exception)
      → judge_token (network (get_of s ∷ st.gets)) ≡ err x
      → verify_loop network (s ∷ servers) st ≡ (err (shown s.name x), asked s st)
  unfolding verify_loop show_error
  verify_loop-err s servers st x e =
      rw (verify_token-asked s st, verify_loop)
        (rw (e, verify_loop) (rw (verify_token-asked s st) refl))

  verify_loop-IsLoopEnd :
      (servers : List MailServer) (st : HttpState)
      → IsLoopEnd servers st (verify_loop network servers st).0 (verify_loop network servers st).1
        × ((verify_loop network servers st).1.open_sessions ≡ st.open_sessions)
  verify_loop-IsLoopEnd [] st = unfold verify_loop in (refl, refl)
  verify_loop-IsLoopEnd (s ∷ servers) st =
      elim (Result-cases (judge_token (network (get_of s ∷ st.gets)))) [
        | inl (result, e) ↦ rw (verify_loop-ok s servers st result e) (
          IsLoopEnd-cons s servers st (verify_loop network servers (asked s st)).1
              (verify_loop network servers (asked s st)).0 result e
              (verify_loop-IsLoopEnd servers (asked s st)).0,
          (verify_loop-IsLoopEnd servers (asked s st)).1,
        )
        | inr (x, e) ↦
            rw (verify_loop-err s servers st x e) ((shown-is_raw s.name x, omega arith), refl)
      ]

eq_nil : (servers : List MailServer) → is_empty servers ≡ true → servers ≡ []
eq_nil [] e = refl
eq_nil (s ∷ servers) e = cc

-- Servers of Cloudflare have the size of its limit.
abbrev pub AreSized : List MailServer → Type 0
AreSized servers =
    All (λ s. (is_cloudflare s ≡ false) ⊎ (s.max_email_size ≡ max_email_size_mb)) servers

with_sizes-AreSized :
    (core_size : MailServer → ℕ) (servers : List MailServer)
    → AreSized (with_sizes true core_size servers)
unfolding with_sizes is_cloudflare
with_sizes-AreSized core_size [] = tt
with_sizes-AreSized core_size (s ∷ servers) = elim (Bool-cases (is_cloudflare s)) [
  | inl e ↦ rw e (inr refl, with_sizes-AreSized core_size servers)
  | inr e ↦ rw e (inl e, with_sizes-AreSized core_size servers)
]

module _ (network : List Get → Outcome)
    (core_test : List MailServer → Bool → Result (MailServer → ℕ)) (autodetect : Bool)
    (servers : List MailServer) where
  -- How a connection test ends.
  abbrev pub IsProbed : HttpState → Result Tested → HttpState → Type 0
  IsProbed st (ok t) st' =
      AreVerified network (cloudflare_servers servers) st st'
      × ((autodetect ≡ true) → (cloudflare_servers servers ≢ []) → AreSized t.servers)
  IsProbed st (err x) st' =
      ((is_raw x ≡ true)
        → (core_test servers autodetect ≡ err x)
          ⊎ (core_test (other_servers servers) autodetect ≡ err x))
      × (length st'.gets ≤ length st.gets + length (cloudflare_servers servers))

  test_cloudflare-IsProbed :
      (core_size : MailServer → ℕ) (st : HttpState)
      → IsProbed st
          (test_cloudflare network autodetect core_size servers st).0
          (test_cloudflare network autodetect core_size servers st).1
        × ((test_cloudflare network autodetect core_size servers st).1.open_sessions
            ≡ st.open_sessions)
  unfolding test_cloudflare
  test_cloudflare-IsProbed core_size st =
      let (ended, balanced) = verify_loop-IsLoopEnd network (cloudflare_servers servers) st in
      elim (Result-cases (verify_loop network (cloudflare_servers servers) st).0) [
        | inl (_, e) ↦ rw e (
          (rw e at ended, λ detect _. rw detect (with_sizes-AreSized core_size servers)),
          balanced,
        )
        | inr (x, e) ↦
            let (calm, few) = rw e at ended in rw e ((λ raw. cc (calm, raw), few), balanced)
      ]

  test_others-err :
      (others : List MailServer) (x : Exception)
      → test_others core_test autodetect others ≡ err x
      → core_test others autodetect ≡ err x
  unfolding test_others
  test_others-err [] x e = cc
  test_others-err (s ∷ others) x e = e

  -- A test that returns has verified the token of each Cloudflare server with one request, in order;
  -- with the detection of sizes each Cloudflare server then has the size of 5 MiB. A test that raises
  -- made at most one request for each Cloudflare server, and raises an error of the API only where
  -- core's own test raised it. Every HTTP session that it opens it closes.
  pub test_smtp_connection-IsProbed :
      (st : HttpState)
      → IsProbed st
          (test_smtp_connection network core_test autodetect servers st).0
          (test_smtp_connection network core_test autodetect servers st).1
        × ((test_smtp_connection network core_test autodetect servers st).1.open_sessions
            ≡ st.open_sessions)
  unfolding test_smtp_connection
  test_smtp_connection-IsProbed st = elim (Bool-cases (is_empty (cloudflare_servers servers))) [
    | inl all_core ↦
        let nobody = eq_nil (cloudflare_servers servers) all_core in
        elim (Result-cases (core_test servers autodetect)) [
          | inl (core_size, e) ↦
              rw all_core (rw e ((rw nobody refl, λ _ some_cf. absurd (some_cf nobody)), refl))
          | inr (x, e) ↦ rw all_core (rw e ((λ _. inl e, omega arith), refl))
        ]
    | inr some_cf ↦ elim (Result-cases (test_others core_test autodetect (other_servers servers))) [
      | inl (core_size, e) ↦
          rw some_cf (rw (e, test_smtp_connection) (test_cloudflare-IsProbed core_size st))
      | inr (x, e) ↦ rw some_cf (
          rw (e, test_smtp_connection)
            ((λ _. inr (test_others-err (other_servers servers) x e), omega arith), refl))
    ]
  ]
