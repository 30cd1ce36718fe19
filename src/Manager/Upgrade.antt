-- ===== src/Manager/Upgrade.antt =====
-- pkg/manager/daemon_event.go: `DoDaemonUpgrade`. The new daemon object changes along the calls of
-- other components, which are recorded, oldest first, and answered by the calls made before.
pub mod Follows
pub mod Order
use nydus_snapshotter.Base.{ℕ, false, String, List, [], ◌∷◌, ◌++◌, Result, ok, err}
use nydus_snapshotter.Daemon.{
  Daemon, Rafs, DaemonState, blank, init, ready, running, ConfigState, other_driver,
}
use nydus_snapshotter.Daemon.Refs.{clone_rafs_instances}
use nydus_snapshotter.Daemon.Mounts as Mounts
use nydus_snapshotter.Manager.Socket.{Name, build_next_api_socket}

pub data Call : Type 0 where
  build_command : (api_socket : String) → Call
  send_states start_process take_over unsubscribe exit_old : Call
  start_service subscribe recover_instances : Call
  wait_state : DaemonState → Call
  update_store : ConfigState → Call

-- `path.Base`, `path.Dir` and `path.Join`, the reading and writing of names, the pid of the new
-- process, and what the recovery of the instances meets (Daemon/Mounts).
pub record Upgrade : Type 0 where
  pub base : String → String
  pub dir : String → String
  pub join : String → String → String
  pub codes : String → Name
  pub text : Name → String
  pub pid : ℕ
  pub mount_answers : Mounts.Call → Result (Unit {0})
  pub fscache_domain : String
  pub fscache_id : String → String
  pub sort_by_seq : List Rafs → List Rafs
  pub root_mountpoint : String

pub record World : Type 0 where
  pub daemon : Daemon
  pub calls : List Call

abbrev pub Act : Type 0
Act = World → World × Result (Unit {0})

abbrev pub next : Act → World × Result (Unit {0}) → World × Result (Unit {0})
next k (w, ok u) = k w
next k (w, err e) = (w, err e)

infixl 5 ◌>>◌
abbrev pub ◌>>◌ : Act → Act → Act
◌>>◌ m k w = next k (m w)

abbrev pub Answers : Type 0
Answers = List Call → Call → Result (Unit {0})

-- The new daemon object, with the instances of the old one.
unfoldable pub heir : Daemon → Daemon
unfolding clone_rafs_instances
heir d = clone_rafs_instances d (record {
  states = d.states;
  rafs_cache = [];
  has_client = false;
  has_supervisor = d.has_supervisor;
  ref = 0;
  state = blank;
})

abbrev pub with_socket : String → Daemon → Daemon
with_socket socket d = record d { states = record (d.states) { api_socket = socket } }

abbrev pub with_pid : ℕ → Daemon → Daemon
with_pid pid d = record d { states = record (d.states) { process_id = pid } }

-- What a recovery works on before the first instance.
abbrev pub no_instance : Rafs
no_instance = record {
  seq = 0;
  image_id = "";
  daemon_id = "";
  fs_driver = other_driver;
  snapshot_id = "";
  snapshot_dir = "";
  underlying_files = [];
  mountpoint = "";
  annotations = [];
}

-- `RecoverRafsInstances` of the new daemon.
unfoldable pub recovery : Upgrade → Daemon → Mounts.World × Result (Unit {0})
unfolding Mounts.recover_rafs_instances
recovery u d =
    Mounts.recover_rafs_instances u.mount_answers u.fscache_domain u.fscache_id u.sort_by_seq
      u.root_mountpoint (record { daemon = d; object = no_instance; calls = [] })

module _ (u : Upgrade) (a : Answers) where
  unfoldable pub call : Call → Act
  call c w = (record w { calls = w.calls ++ c ∷ [] }, a w.calls c)

  -- `cmd.Start` and the pid that it gives.
  unfoldable pub start : Act
  unfolding call
  start w =
      next (λ w. (record w { daemon = with_pid u.pid w.daemon }, ok tt)) (call start_process w)

  unfoldable pub recover : Act
  unfolding recovery
  recover w =
      let (m, r) = recovery u w.daemon in
      (record { daemon = m.daemon; calls = w.calls ++ recover_instances ∷ [] }, r)

  unfoldable pub upgrade_to : Act
  unfolding call start recover
  upgrade_to = do
    λ w. call (build_command w.daemon.states.api_socket) w
    call send_states
    start
    call (wait_state init)
    call take_over
    call (wait_state ready)
    call unsubscribe
    call exit_old
    call start_service
    call subscribe
    call (wait_state running)
    recover
    λ w. call (update_store w.daemon.states) w

  abbrev pub new_daemon : World × Result (Unit {0}) → List Call × Result Daemon
  new_daemon (w, ok v) = (w.calls, ok w.daemon)
  new_daemon (w, err e) = (w.calls, err e)

  unfoldable pub upgrade_at : Daemon → Result Name → List Call × Result Daemon
  unfolding upgrade_to heir
  upgrade_at d (err e) = ([], err e)
  upgrade_at d (ok name) = new_daemon (
      upgrade_to (record {
        daemon = with_socket (u.join (u.dir d.states.api_socket) (u.text name)) (heir d);
        calls = [];
      }))

  unfoldable pub do_daemon_upgrade : Daemon → List Call × Result Daemon
  unfolding upgrade_at build_next_api_socket
  do_daemon_upgrade d = upgrade_at d (build_next_api_socket (u.codes (u.base d.states.api_socket)))
