-- ===== src/Retry.antt =====
-- pkg/utils/retry/retry.go: calling a function again until it succeeds, gives up or runs out of
-- attempts. The retried function is a script: the outcome of its k-th call, `none` for success.
-- A `time.Duration` is its 64-bit pattern.
pub mod Loop
pub mod Outcome
pub mod Delays
mod Examples
use nydus_snapshotter.Base.{
  ℕ, zero, suc, ◌+◌, ◌-◌, ◌*◌, ◌%◌, ◌^◌, Bool, true, false, not, ◌&&◌, Option, none, some, List, [],
  ◌∷◌, ◌++◌, Error, ltb, ◌=ℕ=◌, if◌then◌else◌, set, get_elem?, replicate,
}

-- An `error`; `unrecoverable` is the wrapper `unrecoverableError`.
pub data Failure : Type 0 where
  plain : Error → Failure
  unrecoverable : Failure → Failure

unfoldable pub is_recoverable : Failure → Bool
is_recoverable (plain e) = true
is_recoverable (unrecoverable f) = false

-- Strips one wrapper.
unfoldable pub unpack_unrecoverable : Failure → Failure
unpack_unrecoverable (plain e) = plain e
unpack_unrecoverable (unrecoverable f) = f

-- 64-bit arithmetic of durations, and `a < b` of the signed integers.
abbrev pub word : ℕ
word = 18446744073709551616

abbrev pub half_word : ℕ
half_word = 9223372036854775808

abbrev pub signed_ltb : ℕ → ℕ → Bool
signed_ltb a b = ltb ((a + half_word) % word) ((b + half_word) % word)

-- The fields of `Config` that a delay function reads.
pub record Settings : Type 0 where
  pub attempts : ℕ
  pub delay : ℕ
  pub max_delay : ℕ
  pub max_jitter : ℕ
  pub last_error_only : Bool

pub record Config : Type 0 where
  pub settings : Settings
  pub open settings use *
  pub retry_if : Failure → Bool
  pub delay_type : ℕ → Settings → ℕ

unfoldable pub option_last_error_only : Bool → Config → Config
option_last_error_only b c = record c { settings = record (c.settings) { last_error_only = b } }

unfoldable pub option_attempts : ℕ → Config → Config
option_attempts n c = record c { settings = record (c.settings) { attempts = n } }

unfoldable pub option_delay : ℕ → Config → Config
option_delay d c = record c { settings = record (c.settings) { delay = d } }

unfoldable pub option_max_delay : ℕ → Config → Config
option_max_delay d c = record c { settings = record (c.settings) { max_delay = d } }

-- `OnlyRetryIf`: the argument says when no retry is needed.
unfoldable pub option_only_retry_if : (Failure → Bool) → Config → Config
unfolding is_recoverable
option_only_retry_if abort c = record c {
  retry_if = λ f. if not (is_recoverable f) then false else not (abort f);
}

-- `config.delay * (1 << n)`: shifting a 64-bit one by 64 or more gives 0.
pub back_off_delay : ℕ → Settings → ℕ
back_off_delay n s = (s.delay * (if ltb n 64 then 2 ^ n else 0)) % word

unfoldable pub fixed_delay : ℕ → Settings → ℕ
fixed_delay n s = s.delay

-- `random n b` is the number that `rand.Int63n(b)` draws at the n-th retry.
unfoldable pub random_delay : (ℕ → ℕ → ℕ) → ℕ → Settings → ℕ
random_delay random n s = random n s.max_jitter

unfoldable pub combine_delay : List (ℕ → Settings → ℕ) → ℕ → Settings → ℕ
combine_delay [] n s = 0
combine_delay (d ∷ ds) n s = (d n s + combine_delay ds n s) % word

-- The options are applied to the defaults in turn.
unfoldable pub apply_options : List (Config → Config) → Config → Config
apply_options [] c = c
apply_options (o ∷ os) c = apply_options os (o c)

unfoldable pub default_config : (ℕ → ℕ → ℕ) → Config
unfolding is_recoverable combine_delay fixed_delay random_delay
default_config random = record {
  settings = record {
    attempts = 10;
    delay = 100000000;
    max_delay = 0;
    max_jitter = 100000000;
    last_error_only = false;
  };
  retry_if = is_recoverable;
  delay_type = combine_delay (fixed_delay ∷ random_delay random ∷ []);
}

-- What a run has done: calls made, the error log, the arguments of `onRetry` and of `time.Sleep`.
pub record Trace : Type 0 where
  pub calls : ℕ
  pub log : List (Option Failure)
  pub notices : List (ℕ × Failure)
  pub sleeps : List ℕ

pub sleep_time : Config → ℕ → ℕ
sleep_time c n =
    let d = c.delay_type n c.settings in
    if signed_ltb 0 c.max_delay && signed_ltb c.max_delay d then c.max_delay else d

-- The body of the loop after a failure: the log, then `onRetry` and the delay where it goes on.
pub logged : ℕ → Failure → Trace → Trace
unfolding unpack_unrecoverable
logged i f t = record t { calls = suc t.calls; log = set t.log i (some (unpack_unrecoverable f)) }

pub noticed : ℕ → Failure → Trace → Trace
noticed n f t = record t { notices = t.notices ++ (n, f) ∷ [] }

pub slept : Config → ℕ → Trace → Trace
unfolding sleep_time
slept c n t = record t { sleeps = t.sleeps ++ sleep_time c n ∷ [] }

-- How the loop is left: by `return nil`, or by its end with `lastErrIndex`.
pub data Exit : Type 0 where
  succeeded : Exit
  failed : ℕ → Exit

-- `left` is `attempts - n`.
pub loop : (c : Config) (script : ℕ → Option Failure) (left n i : ℕ) → Trace → Exit × Trace
unfolding logged noticed slept
loop c script zero n i t = (failed i, t)
loop c script (suc left) n i t = elim (script t.calls) [
  | none ↦ (succeeded, record t { calls = suc t.calls })
  | some f ↦ elim (c.retry_if f) [
    | false ↦ (failed i, logged i f t)
    | true ↦ elim (n =ℕ= (c.attempts - 1)) [
      | true ↦ (failed i, noticed n f (logged i f t))
      | false ↦
          loop c script left (suc n) (if c.last_error_only then i else suc n)
            (slept c n (noticed n f (logged i f t)))
    ]
  ]
]

-- The error that `Do` returns: one error, which may be nil, or the whole log.
pub data Returned : Type 0 where
  returned_nil : Returned
  returned_last : Failure → Returned
  returned_all : List (Option Failure) → Returned
  index_panic : Returned

pub last_of : Option (Option Failure) → Returned
last_of none = index_panic
last_of (some none) = returned_nil
last_of (some (some f)) = returned_last f

pub answer : Config → Exit → Trace → Returned
unfolding last_of
answer c succeeded t = returned_nil
answer c (failed i) t =
    if c.last_error_only then last_of (get_elem? t.log i) else returned_all t.log

pub start : Config → Trace
start c = record {
  calls = 0;
  log = replicate (if c.last_error_only then 1 else c.attempts) none;
  notices = [];
  sleeps = [];
}

-- `Do` with the configuration that its options give.
unfoldable pub do_retry : Config → (ℕ → Option Failure) → Returned × Trace
unfolding start loop answer
do_retry c script = let (x, t) = loop c script c.attempts 0 0 (start c) in (answer c x t, t)
