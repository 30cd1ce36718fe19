-- ===== src/Daemon/State.antt =====
-- pkg/daemon/daemon.go: the client of a daemon, its cached state, and waiting for a state.
use nydus_snapshotter.Base.{
  ℕ, zero, suc, ◌<◌, ◌≡◌, ◌≢◌, refl, ap, sym, ◌⊎◌, inl, inr, Bool, true, false, Option, none, some,
  arith, Error, failure, Result, ok, err, if◌then◌else◌, Bool-cases,
}
use nydus_snapshotter.Daemon.{
  Daemon, DaemonState, blank, unknown, init, ready, running, died, destroyed,
}
use nydus_snapshotter.Retry.{
  Failure, plain, is_recoverable, Config, default_config, option_attempts, option_delay,
  option_last_error_only, apply_options, do_retry, Returned, returned_nil, returned_last,
}
use nydus_snapshotter.Retry.Outcome.{do_retry_decides}
use mathlib.Core.List.{[], ◌∷◌}

abbrev pub state_eq : DaemonState → DaemonState → Bool
state_eq blank blank = true
state_eq unknown unknown = true
state_eq init init = true
state_eq ready ready = true
state_eq running running = true
state_eq died died = true
state_eq destroyed destroyed = true
state_eq _ _ = false

pub state_eq→≡ : (a b : DaemonState) → state_eq a b ≡ true → a ≡ b
state_eq→≡ a b h = ground arith

pub state_eq_refl : (a : DaemonState) → state_eq a a ≡ true
state_eq_refl a = ground arith

-- What one query of nydusd meets: whether its socket can be reached, and what it answers.
pub record Probe : Type 0 where
  pub connect : Result (Unit {0})
  pub info : Result DaemonState

-- `GetClient`: a daemon without a client connects, and keeps the client.
unfoldable pub get_client : Result (Unit {0}) → Daemon → Daemon × Result (Unit {0})
get_client connect d =
    if d.has_client
    then (d, ok tt)
    else elim connect [ ok u ↦ (record d { has_client = true }, ok tt) | err e ↦ (d, err e) ]

unfoldable pub reset_client : Daemon → Daemon
reset_client d = record d { has_client = false }

unfoldable pub reset_state : Daemon → Daemon
reset_state d = record d { state = unknown }

queried : Result DaemonState → Daemon × Result (Unit {0}) → Daemon × Result DaemonState
queried info (d, err e) = (d, err e)
queried (err e) (d, ok u) = (d, err e)
queried (ok s) (d, ok u) = (record d { state = s }, ok s)

unfoldable pub get_state : Probe → Daemon → Daemon × Result DaemonState
unfolding get_client queried
get_state p d = queried p.info (get_client p.connect d)

-- `errors.Errorf("daemon %s is not %s yet")`.
abbrev pub not_yet : Error
not_yet = failure 1

judged : DaemonState → Daemon × Result DaemonState → Daemon × Option Failure
judged expected (d, err e) = (d, some (plain e))
judged expected (d, ok s) = if state_eq s expected then (d, none) else (d, some (plain not_yet))

-- The function that `WaitUntilState` retries.
unfoldable pub poll : DaemonState → Probe → Daemon → Daemon × Option Failure
unfolding judged
poll expected p d = if state_eq expected d.state then (d, none) else judged expected (get_state p d)

-- The daemon after n polls; `probes k` is what the k-th poll meets.
unfoldable pub polled : DaemonState → (ℕ → Probe) → Daemon → ℕ → Daemon
polled expected probes d zero = d
polled expected probes d (suc n) = (poll expected (probes n) (polled expected probes d n)).0

unfoldable pub wait_config : (ℕ → ℕ → ℕ) → Config
unfolding option_last_error_only option_attempts option_delay apply_options default_config
wait_config random =
    apply_options (option_last_error_only true ∷ option_attempts 20 ∷ option_delay 100000000 ∷ [])
      (default_config random)

abbrev pub wait_script : DaemonState → (ℕ → Probe) → Daemon → ℕ → Option Failure
wait_script expected probes d n = (poll expected (probes n) (polled expected probes d n)).1

-- The daemon and the error that `WaitUntilState` ends with.
unfoldable pub wait_until_state :
    (ℕ → ℕ → ℕ) → DaemonState → (ℕ → Probe) → Daemon → Daemon × Returned
wait_until_state random expected probes d =
    let r = do_retry (wait_config random) (wait_script expected probes d) in
    (polled expected probes d r.1.calls, r.0)

module _ (expected : DaemonState) (probes : ℕ → Probe) where
  judged_recoverable :
      (r : Daemon × Result DaemonState) (f : Failure)
      → (judged expected r).1 ≡ some f
      → is_recoverable f ≡ true
  unfolding judged is_recoverable
  judged_recoverable (d, ok s) f h = ground arith
  judged_recoverable (d, err e) f h = ground arith

  poll_recoverable :
      (p : Probe) (d : Daemon) (f : Failure)
      → (poll expected p d).1 ≡ some f
      → is_recoverable f ≡ true
  unfolding poll
  poll_recoverable p d f h = elim (Bool-cases (state_eq expected d.state)) [
    | inl e ↦ ground arith
    | inr e ↦ judged_recoverable (get_state p d) f (ground arith)
  ]

  get_state-cached :
      (p : Probe) (d : Daemon) (s : DaemonState)
      → (get_state p d).1 ≡ ok s
      → (get_state p d).0.state ≡ s
  unfolding get_state queried get_client
  get_state-cached p d s h = ground arith

  judged-none :
      (r : Daemon × Result DaemonState)
      → (judged expected r).1 ≡ none
      → (r.1 ≡ ok expected) × ((judged expected r).0 ≡ r.0)
  unfolding judged
  judged-none (d, ok s) h = ground (arith, state_eq→≡ s expected)
  judged-none (d, err e) h = cc

  judged-some :
      (r : Daemon × Result DaemonState) (f : Failure)
      → (judged expected r).1 ≡ some f
      → r.1 ≢ ok expected
  unfolding judged
  judged-some (d, ok s) f h e = ground (arith, state_eq_refl expected)
  judged-some (d, err e') f h e = cc

  -- A poll that ends the wait leaves the expected state cached.
  poll-state :
      (p : Probe) (d : Daemon)
      → (poll expected p d).1 ≡ none
      → (poll expected p d).0.state ≡ expected
  unfolding poll
  poll-state p d h = elim (Bool-cases (state_eq expected d.state)) [
    | inl e ↦ rw e (sym (state_eq→≡ expected d.state e))
    | inr e ↦
        let h' = rw (e, poll) at h in
        let (found, kept) = judged-none (get_state p d) h' in
        rw (e, kept) (get_state-cached p d expected found)
  ]

  poll-miss :
      (p : Probe) (d : Daemon) (f : Failure)
      → (poll expected p d).1 ≡ some f
      → (d.state ≢ expected) × ((get_state p d).1 ≢ ok expected)
  unfolding poll
  poll-miss p d f h = elim (Bool-cases (state_eq expected d.state)) [
    | inl e ↦ ground arith
    | inr e ↦ (
      λ same. ground (arith, state_eq_refl expected),
      judged-some (get_state p d) f (rw (e, poll) at h),
    )
  ]

-- `WaitUntilState` ends in one of two ways, whatever nydusd answers: it returns nil after at most
-- 20 polls, and the daemon has the expected state cached; or it returns an error after exactly 20
-- polls, none of which found the expected state cached or reported.
pub wait_until_state_lem :
    (random : ℕ → ℕ → ℕ) (expected : DaemonState) (probes : ℕ → Probe) (d : Daemon)
    → let w = wait_until_state random expected probes d in
      ((w.1 ≡ returned_nil)
        × (w.0.state ≡ expected)
        × ((k : ℕ) × (k < 20) × (w.0 ≡ polled expected probes d (suc k))))
      ⊎ (((e : Failure) × (w.1 ≡ returned_last e))
          × (w.0 ≡ polled expected probes d 20)
          × ((k : ℕ)
              → k < 20
              → ((polled expected probes d k).state ≢ expected)
                × ((get_state (probes k) (polled expected probes d k)).1 ≢ ok expected)))
unfolding wait_until_state
wait_until_state_lem random expected probes d =
    elim (do_retry_decides (wait_config random) (wait_script expected probes d) 19
      (unfold wait_config in refl) (unfold wait_config in refl)
      (λ j f e.
        unfold wait_config in
        poll_recoverable expected probes (probes j) (polled expected probes d j) f e)) [
          | inl (k, below, e, answer, calls) ↦ inl (
            answer,
            rw calls (
                unfold polled in
                poll-state expected probes (probes k) (polled expected probes d k) e),
            (k, below, ap (polled expected probes d) calls),
          )
          | inr (all, answer, calls) ↦ inr (
            answer,
            ap (polled expected probes d) calls,
            λ k below.
                let (f, e, _) = all k below in
                poll-miss expected probes (probes k) (polled expected probes d k) f e,
          )
        ]

-- A query changes the client and the cached state only.
pub get_state-states : (p : Probe) (d : Daemon) → (get_state p d).0.states ≡ d.states
unfolding get_state queried get_client
get_state-states p d = ground arith
