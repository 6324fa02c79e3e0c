-- ===== src/Api/Headers/Loop.antt =====
-- The `while` of `_passthrough_headers` as it is written: its test and its body, over the references
-- and the headers.
use odoo_cloudflare_email.Prelude.{
  ℕ, zero, suc, ◌+◌, ◌≤◌, ◌≡◌, refl, Bool, true, false, ◌&&◌, inl, inr, List, [], ◌∷◌, ltb, length,
  Bool-cases, arith,
}
use odoo_cloudflare_email.Text.{Text}
use odoo_cloudflare_email.Text.Dict.{Dict}
use odoo_cloudflare_email.Api.Headers.{trim, set_references, references_oversized}

-- The test of the loop.
unfoldable pub goes_on : List Text → Dict → Bool
goes_on references headers = references_oversized headers && ltb 1 (length references)

-- The body: `pop(0)`, and the header written anew.
unfoldable pub drop_oldest : List Text → Dict → List Text × Dict
drop_oldest [] headers = ([], headers)
drop_oldest (r ∷ references) headers = (references, set_references references headers)

-- So many rounds, each behind a test that holds, lead from the references and the headers to others.
unfoldable pub Rounds : ℕ → List Text → Dict → List Text → Dict → Type 0
Rounds zero references headers references' headers' =
    (references ≡ references') × (headers ≡ headers')
Rounds (suc n) references headers references' headers' =
    (goes_on references headers ≡ true)
    × Rounds n (drop_oldest references headers).0 (drop_oldest references headers).1 references'
        headers'

-- The loop ends with these references and headers.
pub record Ends (references : List Text) (headers : Dict) (references' : List Text)
    (headers' : Dict) : Type 0 where
  pub rounds : ℕ
  pub run : Rounds rounds references headers references' headers'
  pub stopped : goes_on references' headers' ≡ false
  pub dropped : rounds + length references' ≡ length references
  pub longest : (k : ℕ) (rs : List Text) (d : Dict) → Rounds k references headers rs d → k ≤ rounds

-- A loop whose test fails at once.
Ends-at_once :
    (references : List Text) (headers : Dict)
    → goes_on references headers ≡ false
    → Ends references headers references headers
unfolding Rounds
Ends-at_once references headers e = record {
  rounds = 0;
  run = (refl, refl);
  stopped = e;
  dropped = omega arith;
  longest = go;
}
  where
    go : (k : ℕ) (rs : List Text) (d : Dict) → Rounds k references headers rs d → k ≤ 0
    go zero rs d p = omega arith
    go (suc k) rs d (goes, p) = cc (e, goes)

-- One round in front.
Ends-round :
    (r : Text) (references : List Text) (headers : Dict) (references' : List Text) (headers' : Dict)
    → goes_on (r ∷ references) headers ≡ true
    → Ends references (set_references references headers) references' headers'
    → Ends (r ∷ references) headers references' headers'
unfolding Rounds drop_oldest
Ends-round r references headers references' headers' goes ends = record {
  rounds = suc ends.rounds;
  run = (goes, ends.run);
  stopped = ends.stopped;
  dropped = omega (arith, ends.dropped);
  longest = go;
}
  where
    go :
        (k : ℕ) (rs : List Text) (d : Dict)
        → Rounds k (r ∷ references) headers rs d
        → k ≤ suc ends.rounds
    go zero rs d p = omega arith
    go (suc k) rs d (goes, p) = omega (arith, ends.longest k rs d p)

-- The loop always ends, whatever the references and the headers are, and with what `trim` returns:
-- the rounds that lead there are the most that any run makes, each takes one reference away, and the
-- test fails behind the last one.
pub trim-Ends :
    (references : List Text) (headers : Dict)
    → Ends references headers (trim references headers).0 (trim references headers).1
unfolding trim goes_on
trim-Ends [] headers = Ends-at_once [] headers (ground arith)
trim-Ends (r ∷ []) headers = Ends-at_once (r ∷ []) headers (ground arith)
trim-Ends (r ∷ s ∷ rest) headers = elim (Bool-cases (references_oversized headers)) [
  | inl big ↦
      rw (big, trim)
        (Ends-round r (s ∷ rest) headers _ _ (ground arith)
          (trim-Ends (s ∷ rest) (set_references (s ∷ rest) headers)))
  | inr fits ↦ rw (fits, trim) (Ends-at_once (r ∷ s ∷ rest) headers (ground arith))
]
