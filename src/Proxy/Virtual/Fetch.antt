-- ===== src/Proxy/Virtual/Fetch.antt =====
-- How the candidates of a request are tried, and which responses are left open.
use cargobay.Prelude.{
  String, ◌≡◌, ◌≢◌, refl, sym, subst, ap, true, false, Option, none, some, List, [], ◌∷◌, ◌++◌,
  arith, Error, Result, ok, err, eqb, eqb→eq, Bool-cases, Result-cases, inl, inr,
}
use cargobay.Database.Models.{RegistryConfig}
use cargobay.Proxy.Target.{Credentials}
use cargobay.Proxy.Virtual.{Response, attempt, fetch_from, fetch_first_upstream_stream}

-- An attempt that does not end the loop.
abbrev pub Fails : Result Response → Type 0
Fails (ok resp) = resp.status ≢ 200
Fails (err e) = Unit

-- the responses with an open body that an attempt leaves
abbrev pub received : Result Response → List Response
received (ok resp) = resp ∷ []
received (err e) = []

module _ (build_url : RegistryConfig → Result String)
    (send : String → Credentials → Result Response) where
  abbrev pub AllFail : List RegistryConfig → Type 0
  AllFail [] = Unit
  AllFail (cand ∷ rest) = Fails (attempt build_url send cand) × AllFail rest

  abbrev pub opened : List RegistryConfig → List Response
  opened [] = []
  opened (cand ∷ rest) = received (attempt build_url send cand) ++ opened rest

  -- What a fetch may return for the candidates, with what it closes: the first response with status
  -- 200, every response before it closed; or an error, when there is none, every response closed.
  abbrev pub IsOutcome :
      List RegistryConfig → Result (Response × RegistryConfig) → List Response → Type 0
  IsOutcome cands (ok (resp, cand)) closed =
      (before : List RegistryConfig) × (after : List RegistryConfig) × (cands
        ≡ before ++ cand ∷ after)
      × (attempt build_url send cand ≡ ok resp)
      × (resp.status ≡ 200)
      × AllFail before
      × (closed ≡ opened before)
  IsOutcome cands (err e) closed = AllFail cands × (closed ≡ opened cands)

  skipped :
      (cand : RegistryConfig) (rest : List RegistryConfig)
      (result : Result (Response × RegistryConfig)) (closed : List Response)
      {answer : Result Response}
      → attempt build_url send cand ≡ answer
      → Fails answer
      → IsOutcome rest result closed
      → IsOutcome (cand ∷ rest) result (received answer ++ closed)
  skipped cand rest (ok (resp, c)) closed {answer} h fails
        (before, after, e, asked, good, all, shut) =
      (
        cand ∷ before,
        after,
        ap (λ xs. cand ∷ xs) e,
        asked,
        good,
        (subst Fails (sym h) fails, all),
        rw (h, shut) refl,
      )
  skipped cand rest (err e) closed h fails (all, shut) =
      ((subst Fails (sym h) fails, all), rw (h, shut) refl)

  module _ (cand : RegistryConfig) (rest : List RegistryConfig) where
    step_error :
        (last : Option Error) {e : Error}
        → attempt build_url send cand ≡ err e
        → fetch_from build_url send last (cand ∷ rest) ≡ fetch_from build_url send (some e) rest
    unfolding fetch_from
    step_error none h = rw (h, fetch_from)
    step_error (some l) h = rw (h, fetch_from)

    step_good :
        (last : Option Error) {resp : Response}
        → attempt build_url send cand ≡ ok resp
        → eqb resp.status 200 ≡ true
        → fetch_from build_url send last (cand ∷ rest) ≡ (ok (resp, cand), [])
    unfolding fetch_from
    step_good none h good = rw (h, good, fetch_from)
    step_good (some l) h good = rw (h, good, fetch_from)

    step_bad :
        (last : Option Error) {resp : Response}
        → attempt build_url send cand ≡ ok resp
        → eqb resp.status 200 ≡ false
        → let later = fetch_from build_url send (some (Error.upstream cand.id resp.status)) rest in
          fetch_from build_url send last (cand ∷ rest) ≡ (later.0, resp ∷ later.1)
    unfolding fetch_from
    step_bad none h bad = rw (h, bad, fetch_from)
    step_bad (some l) h bad = rw (h, bad, fetch_from)

  fetch_from-IsOutcome :
      (last : Option Error) (cands : List RegistryConfig)
      → let (result, closed) = fetch_from build_url send last cands in IsOutcome cands result closed
  unfolding fetch_from
  fetch_from-IsOutcome none [] = (tt, refl)
  fetch_from-IsOutcome (some e) [] = (tt, refl)
  fetch_from-IsOutcome last (cand ∷ rest) = elim (Result-cases (attempt build_url send cand)) [
    | inr (e, h) ↦
        rw (step_error cand rest last h)
          (skipped cand rest _ _ h tt (fetch_from-IsOutcome (some e) rest))
    | inl (resp, h) ↦ elim (Bool-cases (eqb resp.status 200)) [
      | inl good ↦
          rw (step_good cand rest last h good)
            ([], rest, refl, h, eqb→eq resp.status 200 good, tt, refl)
      | inr bad ↦
          let last' = Error.upstream cand.id resp.status in
          rw (step_bad cand rest last h bad)
            (skipped cand rest _ _ h (λ p. ground arith) (fetch_from-IsOutcome (some last') rest))
    ]
  ]

  -- A fetch returns the first candidate's response that has status 200, every candidate before it
  -- having failed or answered with another status, or an error if there is no such candidate. Every
  -- response that it received and does not return has had its body closed, once, and the returned
  -- one is still open.
  pub fetch_first_upstream_stream-IsOutcome :
      (cands : List RegistryConfig)
      → let (result, closed) = fetch_first_upstream_stream build_url send cands in
        IsOutcome cands result closed
  unfolding fetch_first_upstream_stream
  fetch_first_upstream_stream-IsOutcome [] = (tt, refl)
  fetch_first_upstream_stream-IsOutcome (cand ∷ rest) = fetch_from-IsOutcome none (cand ∷ rest)
