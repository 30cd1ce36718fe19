-- ===== src/Retry/Outcome.antt =====
-- What `Do` of pkg/utils/retry/retry.go returns, by the first call that ends its loop.
use nydus_snapshotter.Base.{
  ℕ, zero, suc, ◌+◌, ◌-◌, ◌<◌, ◌≡◌, refl, sym, ap, ◌∙◌, ◌⊎◌, inl, inr, true, false, Bool-cases,
  Option-cases, ltb→lt, Option, none, some, arith, ltb, if◌then◌else◌, length, get_elem?,
  length-set, get_elem?-set_self,
}
use nydus_snapshotter.Retry.{
  Failure, unpack_unrecoverable, Config, Trace, Exit, failed, Returned, returned_nil, returned_last,
  returned_all, logged, noticed, loop, last_of, answer, start, do_retry,
}
use nydus_snapshotter.Retry.Loop.{Retries, Logs, IsBefore, reach, start-IsBefore, logged-Logs}

abbrev finish : Config → Exit × Trace → Returned × Trace
finish c r = (answer c r.0 r.1, r.1)

module _ (c : Config) (script : ℕ → Option Failure) where
  -- The run of `Do` is the loop's last round, entered after k failures.
  abbrev Entered : ℕ → ℕ → Type 0
  Entered k left =
      (i : ℕ) × (t : Trace) × (do_retry c script ≡ finish c (loop c script (suc left) k i t))
      × IsBefore c script k i t

  entered :
      (k : ℕ)
      → k < c.attempts
      → ((j : ℕ) → j < k → Retries c script j)
      → Entered k (c.attempts - suc k)
  unfolding do_retry
  entered k below again =
      let left : ℕ = c.attempts - suc k in
      let (i, t, same, b) =
        reach c script k left 0 0 (start c) (omega arith) (start-IsBefore c script)
          (λ j h. again j (omega arith)) in
      let total : c.attempts ≡ k + suc left = omega arith in
      let from : zero + k ≡ k = omega arith in
      (
        i,
        t,
        ap (λ m. finish c (loop c script m 0 0 (start c))) total
            ∙ ap (finish c) (same ∙ ap (λ m. loop c script (suc left) m i t) from),
        rw from at b,
      )

  -- If calls 0 .. k-1 fail in ways that may be retried and call k, within the attempts, succeeds,
  -- then `Do` returns nil after exactly k + 1 calls, with k callbacks and k sleeps between them.
  pub do_retry_succeeds :
      (k : ℕ)
      → k < c.attempts
      → ((j : ℕ) → j < k → Retries c script j)
      → script k ≡ none
      → let r = do_retry c script in
        (r.0 ≡ returned_nil)
        × (r.1.calls ≡ suc k)
        × (length r.1.notices ≡ k)
        × (length r.1.sleeps ≡ k)
  unfolding loop answer
  do_retry_succeeds k below again e =
      let (i, t, same, b) = entered k below again in
      let e' : script t.calls ≡ none = ap script b.calls_eq ∙ e in
      rw (same, e', loop) (ground (arith, b))

  -- What `Do` answers once its loop ended with `lastErrIndex` i.
  abbrev Fails : ℕ → Failure → Returned × Trace → Type 0
  Fails k f r =
      (r.0 ≡ (
        if c.last_error_only then returned_last (unpack_unrecoverable f) else returned_all r.1.log))
      × (r.1.calls ≡ suc k)
      × (length r.1.sleeps ≡ k)
      × Logs c script (suc k) r.1
      × (c.last_error_only ≡ false → length r.1.log ≡ c.attempts)

  failed-Fails :
      (k i : ℕ) (f : Failure) (t u : Trace)
      → k < c.attempts
      → script k ≡ some f
      → IsBefore c script k i t
      → (u.calls ≡ suc t.calls) × (u.sleeps ≡ t.sleeps) × (u.log ≡ (logged i f t).log)
      → Fails k f (finish c (failed i, u))
  unfolding answer logged last_of
  failed-Fails k i f t u below e b (calls, sleeps, log) =
      let kept = get_elem?-set_self t.log i (some (unpack_unrecoverable f)) in
      let logs = logged-Logs c script k i f t below e b in
      (
        ground (arith, kept, log, b.size_eq, b.index_eq),
        omega (arith, calls, b.calls_eq),
        ap length sleeps ∙ b.sleeps_eq,
        λ keep j h. ap (λ l. get_elem? l j) log ∙ logs keep j h,
        λ keep.
            ap length log
            ∙ length-set t.log i (some (unpack_unrecoverable f))
            ∙ b.size_eq
            ∙ ap (λ l. if l then 1 else c.attempts) keep,
      )

  stopped :
      (k left i : ℕ) (f : Failure) (t : Trace)
      → (c.retry_if f ≡ false) ⊎ (suc k ≡ c.attempts)
      → script t.calls ≡ some f
      → (u : Trace) × (loop c script (suc left) k i t ≡ (failed i, u))
        × ((u.calls ≡ suc t.calls) × (u.sleeps ≡ t.sleeps) × (u.log ≡ (logged i f t).log))
  unfolding loop logged noticed
  stopped k left i f t end e = elim (Bool-cases (c.retry_if f)) [
    | inl again ↦ (noticed k f (logged i f t), ground arith, (refl, refl, refl))
    | inr never ↦ (logged i f t, ground arith, (refl, refl, refl))
  ]

  -- If calls 0 .. k-1 fail in ways that may be retried, and call k fails too and either may not be
  -- retried or is the last of the attempts, then `Do` makes exactly k + 1 calls, and k sleeps. With
  -- `LastErrorOnly` it returns the error of call k, one wrapper stripped. Without, it returns a log
  -- with one entry for each attempt: the errors of calls 0 .. k in order, and nil behind them.
  pub do_retry_errors :
      (k : ℕ) (f : Failure)
      → k < c.attempts
      → ((j : ℕ) → j < k → Retries c script j)
      → script k ≡ some f
      → (c.retry_if f ≡ false) ⊎ (suc k ≡ c.attempts)
      → Fails k f (do_retry c script)
  do_retry_errors k f below again e end =
      let (i, t, same, b) = entered k below again in
      let (u, ends, kept) = stopped k (c.attempts - suc k) i f t end (ap script b.calls_eq ∙ e) in
      rw (same, ends) (failed-Fails k i f t u below e b kept)

  -- The first call among n that succeeds, if every failure may be retried.
  first_success :
      (n : ℕ)
      → ((j : ℕ) (f : Failure) → script j ≡ some f → c.retry_if f ≡ true)
      → ((k : ℕ) × (k < n) × (script k ≡ none) × ((j : ℕ) → j < k → Retries c script j))
        ⊎ ((j : ℕ) → j < n → Retries c script j)
  first_success zero again = inr (λ j h. absurd (omega arith))
  first_success (suc n) again = elim (first_success n again) [
    | inl (k, below, e, before) ↦ inl (k, omega arith, e, before)
    | inr all ↦ elim (Option-cases (script n)) [
      | inl e ↦ inl (n, omega arith, e, all)
      | inr (f, e) ↦ inr (λ j h. elim (Bool-cases (ltb j n)) [
        | inl early ↦ all j (ltb→lt j n early)
        | inr late ↦ let same : j ≡ n = ground arith in (f, ap script same ∙ e, again n f e)
      ])
    ]
  ]

  -- A run with the last error only, whose failures may all be retried, succeeds after some call k
  -- within the attempts, or makes all the attempts and returns an error.
  pub do_retry_decides :
      (n : ℕ)
      → c.attempts ≡ suc n
      → c.last_error_only ≡ true
      → ((j : ℕ) (f : Failure) → script j ≡ some f → c.retry_if f ≡ true)
      → ((k : ℕ) × (k < suc n)
          × (script k ≡ none)
          × ((do_retry c script).0 ≡ returned_nil)
          × ((do_retry c script).1.calls ≡ suc k))
        ⊎ (((j : ℕ) → j < suc n → Retries c script j)
            × ((f : Failure) × ((do_retry c script).0 ≡ returned_last f))
            × ((do_retry c script).1.calls ≡ suc n))
  do_retry_decides n size last again = elim (first_success (suc n) again) [
    | inl (k, below, e, before) ↦
        let r = do_retry_succeeds k (omega arith) before e in inl (k, below, e, r.0, r.1)
    | inr all ↦
        let (f, e, _) = all n (omega arith) in
        let r = do_retry_errors n f (omega arith) (λ j h. all j (omega arith)) e (inr (sym size)) in
        inr (
          all,
          (
            unpack_unrecoverable f,
            r.0
                ∙ ap
                    (λ b.
                      if b
                      then returned_last (unpack_unrecoverable f)
                      else returned_all (do_retry c script).1.log)
                    last,
          ),
          r.1,
        )
  ]
