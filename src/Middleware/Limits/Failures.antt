-- ===== src/Middleware/Limits/Failures.antt =====
-- What the login throttle lets through.
use cargobay.Prelude.{
  append-nil, append_assoc, ℕ, String, ◌≡◌, ◌≤◌, refl, sym, subst, ap, ◌∙◌, Bool, true, false, not,
  Option, none, some, List, [], ◌∷◌, ◌++◌, arith, leb, keep, length, Bool-cases, Option-cases, inl,
  inr, ◌==◌, eq_iff, if◌then◌else◌,
}
use cargobay.Prelude.GoMap
use cargobay.Prelude.GoMap.{get-put}
use cargobay.Middleware.Limits.{
  LoginThrottle, is_recent, normalize_ip, new_login_throttle, allow, record_failure,
}

abbrev pub times_of : Option (List ℕ) → List ℕ
times_of none = []
times_of (some times) = times

module _ (split_host : String → Option String) where
  -- A call of the throttle, at a time.
  pub data ThrottleOp : Type 0 where
    ask : ℕ → String → ThrottleOp
    fail : ℕ → String → ThrottleOp

  abbrev pub time_of : ThrottleOp → ℕ
  time_of (ask now ip) = now
  time_of (fail now ip) = now

  unfoldable pub throttle_step : ThrottleOp → LoginThrottle → LoginThrottle
  throttle_step (ask now ip) lt = (allow split_host now ip lt).0
  throttle_step (fail now ip) lt = record_failure split_host now ip lt

  unfoldable pub run_throttle : List ThrottleOp → LoginThrottle → LoginThrottle
  unfolding throttle_step
  run_throttle [] lt = lt
  run_throttle (op ∷ ops) lt = run_throttle ops (throttle_step op lt)

  -- The times of all the failures that a sequence of calls reports for an address.
  abbrev pub reported : String → List ThrottleOp → List ℕ
  reported key [] = []
  reported key (ask now ip ∷ ops) = reported key ops
  reported key (fail now ip ∷ ops) =
      if normalize_ip split_host ip == key then now ∷ reported key ops else reported key ops

  -- no call is later than a time
  abbrev pub AllBefore : ℕ → List ThrottleOp → Type 0
  AllBefore now [] = Unit
  AllBefore now (op ∷ ops) = (time_of op ≤ now) × AllBefore now ops

  abbrev pub failures : String → LoginThrottle → List ℕ
  failures key lt = times_of (GoMap.get key lt.entries)

  -- the failures in the window that ends at a time
  abbrev pub recent : ℕ → ℕ → List ℕ → List ℕ
  recent now window times = keep (is_recent now window) times

  keep-append : (p : ℕ → Bool) (xs ys : List ℕ) → keep p (xs ++ ys) ≡ keep p xs ++ keep p ys
  keep-append p [] ys = refl
  keep-append p (x ∷ xs) ys = elim (Bool-cases (p x)) [
    | inl e ↦ rw (e, keep) (ap (λ zs. x ∷ zs) (keep-append p xs ys))
    | inr e ↦ rw (e, keep) (keep-append p xs ys)
  ]

  -- what is forgotten at one time does not count at a later one
  recent-recent :
      (t now window : ℕ) (xs : List ℕ)
      → t ≤ now
      → recent now window (recent t window xs) ≡ recent now window xs
  recent-recent t now window [] le = refl
  recent-recent t now window (x ∷ xs) le = elim (Bool-cases (is_recent t window x)) [
    | inl e ↦
        rw (e, keep)
          (ap (λ zs. elim (is_recent now window x) [ true ↦ x ∷ zs | false ↦ zs ])
            (recent-recent t now window xs le))
    | inr e ↦
        let old : is_recent now window x ≡ false = ground arith in
        rw (e, old, keep) (recent-recent t now window xs le)
  ]

  recent-ask :
      (t now : ℕ) (ip key : String) (lt : LoginThrottle)
      → t ≤ now
      → recent now lt.window (failures key (allow split_host t ip lt).0)
        ≡ recent now lt.window (failures key lt)
  unfolding allow
  recent-ask t now ip key lt le =
      elim (Option-cases (GoMap.get (normalize_ip split_host ip) lt.entries)) [
        | inl e ↦ rw (e, allow) refl
        | inr (times, e) ↦ elim (Bool-cases (leb lt.limit (length (recent t lt.window times)))) [
          | inr f ↦ rw (e, f, allow) refl
          | inl f ↦
              let k = normalize_ip split_host ip in
              let valid = recent t lt.window times in
              elim (Bool-cases (k == key)) [
                | inl same ↦
                    rw (e, f, allow)
                      (rw (get-put k key valid lt.entries) (
                        rw (same, ← (eq_iff k key).0 same, e)
                          (recent-recent t now lt.window times le)))
                | inr other ↦ rw (e, f, allow) (rw (get-put k key valid lt.entries) (rw other refl))
              ]
        ]
      ]

  recent-fail :
      (t now : ℕ) (ip key : String) (lt : LoginThrottle)
      → failures key (record_failure split_host t ip lt)
        ≡ (if normalize_ip split_host ip == key then failures key lt ++ t ∷ [] else failures key lt)
  unfolding record_failure
  recent-fail t now ip key lt =
      let k = normalize_ip split_host ip in
      rw (get-put k key (failures k lt ++ t ∷ []) lt.entries) (elim (Bool-cases (k == key)) [
        | inl same ↦ rw (same, ← (eq_iff k key).0 same) refl
        | inr other ↦ rw other refl
      ])

  window-step : (op : ThrottleOp) (lt : LoginThrottle) → (throttle_step op lt).window ≡ lt.window
  unfolding throttle_step allow record_failure
  window-step (fail t ip) lt = refl
  window-step (ask t ip) lt = ground arith

  limit-step : (op : ThrottleOp) (lt : LoginThrottle) → (throttle_step op lt).limit ≡ lt.limit
  unfolding throttle_step allow record_failure
  limit-step (fail t ip) lt = refl
  limit-step (ask t ip) lt = ground arith

  recent-cons :
      (now w t : ℕ) (ts : List ℕ) → recent now w (t ∷ []) ++ recent now w ts ≡ recent now w (t ∷ ts)
  recent-cons now w t ts = elim (Bool-cases (is_recent now w t)) [
    | inl e ↦ rw (e, keep) refl
    | inr e ↦ rw (e, keep) refl
  ]

  recent-run :
      (ops : List ThrottleOp) (now w : ℕ) (key : String) (lt : LoginThrottle)
      → lt.window ≡ w
      → AllBefore now ops
      → recent now w (failures key (run_throttle ops lt))
        ≡ recent now w (failures key lt) ++ recent now w (reported key ops)
  unfolding run_throttle throttle_step
  recent-run [] now w key lt same h = sym (append-nil _)
  recent-run (ask t ip ∷ ops) now w key lt same (le, h) =
      let lt' = (allow split_host t ip lt).0 in
      let asked : recent now w (failures key lt') ≡ recent now w (failures key lt) =
        subst (λ x. recent now x (failures key lt') ≡ recent now x (failures key lt)) same
          (recent-ask t now ip key lt le) in
      recent-run ops now w key lt' (window-step (ask t ip) lt ∙ same) h
      ∙ ap (λ xs. xs ++ recent now w (reported key ops)) asked
  recent-run (fail t ip ∷ ops) now w key lt same (le, h) =
      let lt' = record_failure split_host t ip lt in
      let later = recent-run ops now w key lt' (window-step (fail t ip) lt ∙ same) h in
      elim (Bool-cases (normalize_ip split_host ip == key)) [
        | inr other ↦
            let kept : failures key lt' ≡ failures key lt =
              recent-fail t now ip key lt ∙ rw other refl in
            later ∙ rw (other, kept) refl
        | inl own ↦
            let kept : failures key lt' ≡ failures key lt ++ t ∷ [] =
              recent-fail t now ip key lt ∙ rw own refl in
            later
            ∙ ap (λ xs. recent now w xs ++ recent now w (reported key ops)) kept
            ∙ ap (λ xs. xs ++ recent now w (reported key ops))
                (keep-append (is_recent now w) (failures key lt) (t ∷ []))
            ∙ append_assoc (recent now w (failures key lt)) _ _
            ∙ ap (λ xs. recent now w (failures key lt) ++ xs)
                (recent-cons now w t (reported key ops))
            ∙ rw own refl
      ]

  limit-run : (ops : List ThrottleOp) (lt : LoginThrottle) → (run_throttle ops lt).limit ≡ lt.limit
  unfolding run_throttle
  limit-run [] lt = refl
  limit-run (op ∷ ops) lt = limit-run ops (throttle_step op lt) ∙ limit-step op lt

  window-run :
      (ops : List ThrottleOp) (lt : LoginThrottle) → (run_throttle ops lt).window ≡ lt.window
  unfolding run_throttle
  window-run [] lt = refl
  window-run (op ∷ ops) lt = window-run ops (throttle_step op lt) ∙ window-step op lt

  -- what a throttle answers to an address
  allow_lem :
      (now : ℕ) (ip : String) (lt : LoginThrottle)
      → 1 ≤ lt.limit
      → (allow split_host now ip lt).1
        ≡ not (
            leb lt.limit (length (recent now lt.window (failures (normalize_ip split_host ip) lt))))
  unfolding allow
  allow_lem now ip lt some_limit =
      elim (Option-cases (GoMap.get (normalize_ip split_host ip) lt.entries)) [
        | inl e ↦ rw (e, allow) (ground arith)
        | inr (times, e) ↦ rw (e, allow) (ground arith)
      ]

  -- After any sequence of questions and reported failures, none later than now, a new throttle with
  -- a limit of at least one lets an address through exactly if fewer failures than the limit were
  -- reported for it in the window that ends now: no failure in the window is forgotten, none outside
  -- it counts, and none of another address.
  pub allow_iff :
      (limit window : ℕ) (ops : List ThrottleOp) (now : ℕ) (ip : String)
      → 1 ≤ limit
      → AllBefore now ops
      → (allow split_host now ip (run_throttle ops (new_login_throttle limit window))).1
        ≡ not (leb limit (length (recent now window (reported (normalize_ip split_host ip) ops))))
  unfolding new_login_throttle GoMap.get
  allow_iff limit window ops now ip some_limit before =
      let lt = new_login_throttle limit window in
      let key = normalize_ip split_host ip in
      let lim = limit-run ops lt in
      let win = window-run ops lt in
      let seen = recent-run ops now window key lt refl before in
      let answered =
        allow_lem now ip (run_throttle ops lt) (subst (λ n. 1 ≤ n) (sym lim) some_limit) in
      answered
      ∙ ap
          (λ l. not (
            leb l (
              length
                (recent now (run_throttle ops lt).window (failures key (run_throttle ops lt))))))
          lim
      ∙ ap (λ w. not (leb limit (length (recent now w (failures key (run_throttle ops lt)))))) win
      ∙ ap (λ ts. not (leb limit (length ts))) seen
