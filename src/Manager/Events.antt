-- ===== src/Manager/Events.antt =====
-- pkg/manager/daemon_event.go: what follows the death of a daemon. What the other components do is a
-- call; the monitor's events are those of pkg/manager/monitor.go.
use nydus_snapshotter.Base.{
  ◌≡◌, sym, ap, map, All, ◌∙◌, ◌==◌, String, false, Option, none, some, List, [], ◌∷◌, ◌++◌, Result,
  ok, if◌then◌else◌,
}
use nydus_snapshotter.Base.Dict.{Dict, lookup, values}
use nydus_snapshotter.Daemon.{Daemon, Rafs, DaemonState, unknown, init}
use nydus_snapshotter.Daemon.State.{reset_state}
use nydus_snapshotter.Manager.Cache.{get_by_daemon_id}
use nydus_snapshotter.Manager.Steps.{Step, must, may, going_on, run_steps, append_nil, append_assoc}
use nydus_snapshotter.Monitor.{DeathEvent}

pub data Call : Type 0 where
  wait_process unsubscribe send_states clear_vestige : Call
  start_daemon take_over start_service : Call
  wait_state : DaemonState → Call
  shared_mount : Rafs → Call

-- `DaemonRecoverPolicy` of config/config.go.
pub data RecoverPolicy : Type 0 where
  policy_invalid policy_none policy_restart policy_failover : RecoverPolicy

abbrev pub failover_steps : List (Step Call)
failover_steps =
    may wait_process
    ∷ may unsubscribe
    ∷ must send_states
    ∷ must start_daemon
    ∷ must (wait_state init)
    ∷ must take_over
    ∷ must start_service
    ∷ []

-- Up to the first instance that is mounted where the daemon is.
unfoldable pub remounts : (host_mountpoint : String) → List Rafs → List (Step Call)
remounts host [] = []
remounts host (r ∷ rs) =
    let rest = remounts host rs in if host == r.mountpoint then [] else may (shared_mount r) ∷ rest

abbrev pub restart_steps : (host_mountpoint : String) → List Rafs → List (Step Call)
unfolding remounts
restart_steps host rs =
    may wait_process ∷ may unsubscribe ∷ may clear_vestige ∷ must start_daemon ∷ remounts host rs

-- The host mountpoint of a daemon is that of its states.
abbrev pub recovery_steps : RecoverPolicy → Daemon → List (Step Call)
unfolding restart_steps
recovery_steps policy_restart d = restart_steps d.states.mountpoint (values d.rafs_cache)
recovery_steps policy_failover d = failover_steps
recovery_steps _ d = []

-- The daemon object without its cached state, and the calls of the goroutine that is started.
unfoldable pub recovered :
    RecoverPolicy
    → (List Call → Call → Result (Unit {0}))
    → Option Daemon
    → Option (Daemon × (List Call × Result (Unit {0})))
unfolding reset_state recovery_steps
recovered policy a none = none
recovered policy a (some d) =
    some (reset_state d, run_steps a (recovery_steps policy (reset_state d)) [])

unfoldable pub handle_death :
    RecoverPolicy
    → (List Call → Call → Result (Unit {0}))
    → Dict Daemon
    → DeathEvent
    → Option (Daemon × (List Call × Result (Unit {0})))
unfolding recovered
handle_death policy a cache ev =
    recovered policy a (get_by_daemon_id ev.daemon_id (λ d m. m) cache).1

-- Mounts that may fail are all asked for.
run_remounts :
    (a : List Call → Call → Result (Unit {0})) (host : String) (rs : List Rafs) (w : List Call)
    → All (λ r. (host == r.mountpoint) ≡ false) rs
    → run_steps a (remounts host rs) w ≡ (w ++ map shared_mount rs, ok tt)
unfolding run_steps remounts
run_remounts a host [] w h = ap (λ v. (v, ok tt)) (sym (append_nil w))
run_remounts a host (r ∷ rs) w (h, hs) =
    ap (λ b. run_steps a (if b then [] else may (shared_mount r) ∷ remounts host rs) w) h
    ∙ run_remounts a host rs (w ++ shared_mount r ∷ []) hs
    ∙ ap (λ v. (v, ok tt)) (append_assoc w (shared_mount r ∷ []) (map shared_mount rs))

get_by_daemon_id_lem :
    (id : String) (cache : Dict Daemon) (d : Daemon)
    → lookup id cache ≡ some d
    → (get_by_daemon_id id (λ d m. m) cache).1 ≡ some d
unfolding get_by_daemon_id
get_by_daemon_id_lem id cache d h =
    ap
      (λ o.
        (elim o as (λ _. Dict Daemon × Option Daemon) [
          | none ↦ (cache, none)
          | some d ↦ (cache, some d)
        ]).1)
      h

restart_run :
    (a : List Call → Call → Result (Unit {0})) (host : String) (rs : List Rafs)
    → All (λ r. (host == r.mountpoint) ≡ false) rs
    → a (wait_process ∷ unsubscribe ∷ clear_vestige ∷ []) start_daemon ≡ ok tt
    → run_steps a (restart_steps host rs) []
      ≡ (wait_process ∷ unsubscribe ∷ clear_vestige ∷ start_daemon ∷ map shared_mount rs, ok tt)
unfolding run_steps restart_steps
restart_run a host rs h e =
    ap
      (going_on a (run_steps a (remounts host rs))
        (wait_process ∷ unsubscribe ∷ clear_vestige ∷ start_daemon ∷ []))
      e
    ∙ run_remounts a host rs (wait_process ∷ unsubscribe ∷ clear_vestige ∷ start_daemon ∷ []) h

-- After the death of a cached daemon, where the policy is to restart, none of its instances is
-- mounted where the daemon itself is, and the new nydusd starts: however waiting, unsubscribing and
-- the mounts go, the daemon's cached state is forgotten, and each of its instances is asked to be
-- mounted, in the order of the cache, after the start.
pub handle_death_lem :
    (a : List Call → Call → Result (Unit {0})) (cache : Dict Daemon) (ev : DeathEvent) (d : Daemon)
    → lookup ev.daemon_id cache ≡ some d
    → All (λ r. (d.states.mountpoint == r.mountpoint) ≡ false) (values d.rafs_cache)
    → a (wait_process ∷ unsubscribe ∷ clear_vestige ∷ []) start_daemon ≡ ok tt
    → handle_death policy_restart a cache ev
      ≡ some (
        record d { state = unknown },
        (
          wait_process
              ∷ unsubscribe
              ∷ clear_vestige
              ∷ start_daemon
              ∷ map shared_mount (values d.rafs_cache),
          ok tt,
        ),
      )
unfolding handle_death recovered recovery_steps reset_state
handle_death_lem a cache ev d found h e =
    ap (recovered policy_restart a) (get_by_daemon_id_lem ev.daemon_id cache d found)
    ∙ ap (λ r. some (record d { state = unknown }, r))
        (restart_run a d.states.mountpoint (values d.rafs_cache) h e)
