-- ===== src/Api/Session/Close.antt =====
-- `quit`, `close` and the exit of the context: the connection pool is released, and an exception of
-- that is logged only. The pool and its `close` are parameters.
use odoo_cloudflare_email.Prelude.{◌≡◌, refl}
use odoo_cloudflare_email.Errors.{Result, ok, err, attribute_error}

module _ {P : Type 0} (http_close : P → Result (Unit {0}) × P) where
  unfoldable close : P → Result (Unit {0}) × P
  close pool = let (raised, pool') = http_close pool in (ok tt, pool')

  unfoldable quit : P → Result (Unit {0}) × P
  unfolding close
  quit pool = close pool

quit_test : quit (λ (n : Unit {0}). (err attribute_error, n)) tt ≡ (ok tt, tt)
unfolding quit
quit_test = refl
