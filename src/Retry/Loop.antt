-- ===== src/Retry/Loop.antt =====
-- How the loop of `Do` in pkg/utils/retry/retry.go ends.
use nydus_snapshotter.Base.{
  ℕ, zero, suc, ◌+◌, ◌<◌, ◌≡◌, refl, ap, ◌∙◌, inl, inr, true, false, Bool-cases, Option, none, some,
  arith, ltb, if◌then◌else◌, length, length-append, get_elem?, length-set, length-replicate,
  get_elem?-replicate, get_elem?-set_self, get_elem?-set_ne,
}
use native.Mathlib.Nat.{add-zero, zero-add}
use nydus_snapshotter.Retry.{
  Failure, unpack_unrecoverable, Config, Trace, logged, noticed, slept, loop, start,
}

-- The k-th call fails, and the error may be retried.
abbrev pub Retries : Config → (ℕ → Option Failure) → ℕ → Type 0
Retries c script k = (f : Failure) × (script k ≡ some f) × (c.retry_if f ≡ true)

abbrev pub unpacked : Option Failure → Option Failure
unpacked none = none
unpacked (some f) = some (unpack_unrecoverable f)

-- After n failures the log holds them in order, and nothing else.
abbrev pub Logs : Config → (ℕ → Option Failure) → ℕ → Trace → Type 0
Logs c script n t =
    c.last_error_only ≡ false
    → (j : ℕ) → j < c.attempts
    → get_elem? t.log j ≡ some (if ltb j n then unpacked (script j) else none)

-- The state of the loop before call n.
pub record IsBefore (c : Config) (script : ℕ → Option Failure) (n i : ℕ) (t : Trace) : Type 0 where
  pub calls_eq : t.calls ≡ n
  pub index_eq : i ≡ (if c.last_error_only then 0 else n)
  pub sleeps_eq : length t.sleeps ≡ n
  pub notices_eq : length t.notices ≡ n
  pub size_eq : length t.log ≡ (if c.last_error_only then 1 else c.attempts)
  pub logs : Logs c script n t

module _ (c : Config) (script : ℕ → Option Failure) where
  pub logged-Logs :
      (n i : ℕ) (f : Failure) (t : Trace)
      → n < c.attempts
      → script n ≡ some f
      → IsBefore c script n i t
      → Logs c script (suc n) (logged i f t)
  unfolding logged
  logged-Logs n i f t below e b keep j h = elim (Bool-cases (ltb j n)) [
    | inl early ↦
        ground (arith, get_elem?-set_ne t.log n j (some (unpack_unrecoverable f)), b.logs keep j h)
    | inr late ↦ ground (
      arith,
      get_elem?-set_ne t.log n j (some (unpack_unrecoverable f)),
      get_elem?-set_self t.log n (some (unpack_unrecoverable f)),
      b.logs keep j h,
      ap script {x = j} {y = n},
    )
  ]

  next_index : ℕ → ℕ → ℕ
  next_index n i = if c.last_error_only then i else suc n

  -- The trace that a failure with a retry leaves.
  advanced : ℕ → ℕ → Failure → Trace → Trace
  advanced n i f t = slept c n (noticed n f (logged i f t))

  advanced-IsBefore :
      (n i : ℕ) (f : Failure) (t : Trace)
      → n < c.attempts
      → script n ≡ some f
      → IsBefore c script n i t
      → IsBefore c script (suc n) (next_index n i) (advanced n i f t)
  unfolding advanced next_index logged noticed slept
  advanced-IsBefore n i f t below e b = record {
    calls_eq = ground (arith, b.calls_eq);
    index_eq = ground (arith, b.index_eq);
    sleeps_eq = omega (arith, b.sleeps_eq, length-append {0} t.sleeps);
    notices_eq = omega (arith, b.notices_eq, length-append {0} t.notices);
    size_eq = length-set t.log i (some (unpack_unrecoverable f)) ∙ b.size_eq;
    logs = logged-Logs n i f t below e b;
  }

  loop-step :
      (left n i : ℕ) (f : Failure) (t : Trace)
      → script t.calls ≡ some f
      → c.retry_if f ≡ true
      → suc n < c.attempts
      → loop c script (suc left) n i t
        ≡ loop c script left (suc n) (next_index n i) (advanced n i f t)
  unfolding loop advanced next_index
  loop-step left n i f t e r below = ground arith

  -- As long as each call may be retried the loop comes to call n + m.
  pub reach :
      (m left n i : ℕ) (t : Trace)
      → n + (m + suc left) ≡ c.attempts
      → IsBefore c script n i t
      → ((j : ℕ) → j < n + m → Retries c script j)
      → (i' : ℕ) × (t' : Trace) × (loop c script (m + suc left) n i t
          ≡ loop c script (suc left) (n + m) i' t')
        × IsBefore c script (n + m) i' t'
  reach zero left n i t total b again = (i, t, rw (zero-add, add-zero), rw add-zero b)
  reach (suc m) left n i t total b again =
      let (f, e, r) = again n (omega arith) in
      let (i', t', same, b') =
        reach m left (suc n) (next_index n i) (advanced n i f t) (omega arith)
          (advanced-IsBefore n i f t (omega arith) e b) (λ j h. again j (omega arith)) in
      let shift : suc n + m ≡ n + suc m = omega arith in
      let more : suc m + suc left ≡ suc (m + suc left) = omega arith in
      (
        i',
        t',
        rw more (
            loop-step (m + suc left) n i f t (ap script b.calls_eq ∙ e) r (omega arith)
            ∙ same
            ∙ ap (λ k. loop c script (suc left) k i' t') shift),
        rw (← shift) b',
      )

  pub start-IsBefore : IsBefore c script 0 0 (start c)
  unfolding start
  start-IsBefore = record {
    calls_eq = refl;
    index_eq = ground arith;
    sleeps_eq = refl;
    notices_eq = refl;
    size_eq = length-replicate (if c.last_error_only then 1 else c.attempts) none;
    logs = λ keep j h. ground (arith, get_elem?-replicate {A = Option Failure} c.attempts none j);
  }
