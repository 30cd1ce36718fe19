-- ===== src/Retry/Delays.antt =====
-- How long `Do` of pkg/utils/retry/retry.go sleeps between its calls.
use nydus_snapshotter.Base.{
  ℕ, zero, suc, ◌≤◌, ◌<◌, ◌≡◌, true, false, Bool-cases, inl, inr, Option, List, [], ◌∷◌, ◌++◌,
  arith, All, ◌=ℕ=◌, ◌-◌, if◌then◌else◌, Option-cases,
}
use nydus_snapshotter.Retry.{
  Failure, Config, Trace, signed_ltb, sleep_time, logged, noticed, slept, loop, start, do_retry,
  default_config,
}

All-append {ℓ κ} :
    {A : Type ℓ} (P : A → Type κ) (xs : List A) (y : A) → All P xs → P y → All P (xs ++ y ∷ [])
All-append P [] y h p = (p, tt)
All-append P (x ∷ xs) y h p = (h.0, All-append P xs y h.1 p)

module _ (c : Config) (script : ℕ → Option Failure) (P : ℕ → Type 0)
    (holds : (n : ℕ) → P (sleep_time c n)) where
  loop-sleeps :
      (left n i : ℕ) (t : Trace) → All P t.sleeps → All P (loop c script left n i t).1.sleeps
  unfolding loop logged noticed slept
  loop-sleeps zero n i t h = h
  loop-sleeps (suc left) n i t h = elim (Option-cases (script t.calls)) [
    | inl e ↦ rw (e, loop) h
    | inr (f, e) ↦ elim (Bool-cases (c.retry_if f)) [
      | inr r ↦ rw (e, r, loop) h
      | inl r ↦ elim (Bool-cases (n =ℕ= (c.attempts - 1))) [
        | inl last ↦ rw (e, r, last, loop) h
        | inr more ↦
            rw (e, r, more, loop)
              (loop-sleeps left (suc n) (if c.last_error_only then i else suc n)
                (slept c n (noticed n f (logged i f t)))
                (All-append P t.sleeps (sleep_time c n) h (holds n)))
      ]
    ]
  ]

  do_retry-sleeps : All P (do_retry c script).1.sleeps
  unfolding do_retry start
  do_retry-sleeps = loop-sleeps c.attempts 0 0 (start c) tt

sleep_time_capped :
    (c : Config)
    → signed_ltb 0 c.max_delay ≡ true
    → (n : ℕ) → signed_ltb c.max_delay (sleep_time c n) ≡ false
unfolding sleep_time
sleep_time_capped c h n = ground arith

-- With a positive `MaxDelay` no sleep of a run is longer, as a signed 64-bit duration, whatever the
-- delay function computes (an overflowing back-off included) and whatever the retried function does.
pub sleeps_capped :
    (c : Config) (script : ℕ → Option Failure)
    → signed_ltb 0 c.max_delay ≡ true
    → All (λ d. signed_ltb c.max_delay d ≡ false) (do_retry c script).1.sleeps
sleeps_capped c script h =
    do_retry-sleeps c script (λ d. signed_ltb c.max_delay d ≡ false) (sleep_time_capped c h)

-- With the default options each sleep of a run is at least 100 ms and less than 200 ms, where the
-- random source draws below its bound, as `rand.Int63n` does.
pub default_sleeps :
    (random : ℕ → ℕ → ℕ) (script : ℕ → Option Failure)
    → ((n b : ℕ) → 0 < b → random n b < b)
    → All
        (λ d. (100000000 ≤ d) × (d < 200000000))
        (do_retry (default_config random) script).1.sleeps
unfolding default_config sleep_time
default_sleeps random script draws =
    do_retry-sleeps (default_config random) script _
      (λ n. let h = draws n 100000000 (omega arith) in ground (arith, h))
