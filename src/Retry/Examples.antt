-- ===== src/Retry/Examples.antt =====
-- Runs of `Do` of pkg/utils/retry/retry.go at concrete inputs.
use nydus_snapshotter.Base.{
  ℕ, zero, suc, ◌≡◌, ◌<◌, refl, true, false, Option, none, some, [], ◌∷◌, arith, not_found, inr,
  All,
}
use nydus_snapshotter.Retry.{
  Failure, plain, Config, default_config, option_attempts, option_last_error_only, option_max_delay,
  apply_options, do_retry, returned_last, signed_ltb,
}
use nydus_snapshotter.Retry.{is_recoverable, unpack_unrecoverable}
use nydus_snapshotter.Retry.Loop.{Retries}
use nydus_snapshotter.Retry.Outcome.{do_retry_succeeds, do_retry_errors}
use nydus_snapshotter.Retry.Delays.{sleeps_capped}

abbrev low : ℕ → ℕ → ℕ
low n b = 0

low-lt : (n b : ℕ) → 0 < b → low n b < b
low-lt n b h = h

-- Two attempts, the last error only, at most 50 ns of sleep.
abbrev twice : Config
unfolding default_config apply_options option_attempts option_last_error_only option_max_delay
twice =
    apply_options (option_attempts 2 ∷ option_last_error_only true ∷ option_max_delay 50 ∷ [])
      (default_config low)

-- The first call fails, every later call succeeds.
abbrev second_time : ℕ → Option Failure
second_time zero = some (plain not_found)
second_time (suc n) = none

abbrev never : ℕ → Option Failure
never n = some (plain not_found)

first_fails : (j : ℕ) → j < 1 → Retries twice second_time j
unfolding twice is_recoverable
first_fails zero h = (plain not_found, refl, refl)
first_fails (suc j) h = absurd (omega arith)

never_succeeds : (j : ℕ) → j < 1 → Retries twice never j
unfolding twice is_recoverable
never_succeeds j h = (plain not_found, refl, refl)

do_retry_succeeds_example : (do_retry twice second_time).1.calls ≡ 2
unfolding twice
do_retry_succeeds_example = (do_retry_succeeds twice second_time 1 (omega arith) first_fails refl).1

do_retry_errors_example : (do_retry twice never).0 ≡ returned_last (plain not_found)
unfolding twice unpack_unrecoverable
do_retry_errors_example =
    (do_retry_errors twice never 1 (plain not_found) (omega arith) never_succeeds refl (inr refl)).0

sleeps_capped_example : All (λ d. signed_ltb 50 d ≡ false) (do_retry twice second_time).1.sleeps
unfolding twice
sleeps_capped_example = sleeps_capped twice second_time refl
