-- ===== src/Daemon/Examples.antt =====
-- Daemons with and without instances.
use nydus_snapshotter.Base.{
  Result, true, if◌then◌else◌, ◌==◌, ℕ, zero, suc, ◌<◌, ◌≡◌, ◌≢◌, refl, ◌⊎◌, false, [], ◌∷◌,
  not_found, failure, ok, err, arith,
}
use nydus_snapshotter.Base.Dict.{lookup}
use nydus_snapshotter.Daemon.{Rafs, ConfigState, Daemon, fusedev, shared, blank, running}
use nydus_snapshotter.Daemon.Refs.{IsCounted}
use nydus_snapshotter.Daemon.Mounts.{Call, umount, World, umount_each}
use nydus_snapshotter.Daemon.Mounts.Umounts.{umount_each_lem}
use nydus_snapshotter.Daemon.State.{
  Probe, get_state, polled, wait_until_state, wait_until_state_lem,
}
use nydus_snapshotter.Retry.{Failure, returned_nil, returned_last}

abbrev states : ConfigState
states = record {
  id = "d1";
  process_id = 7;
  api_socket = "/run/d1/api.sock";
  daemon_mode = shared;
  fs_driver = fusedev;
  log_dir = "/log/d1";
  log_level = "info";
  log_rotation_size = 100;
  log_to_stdout = false;
  mountpoint = "/mnt";
  supervisor_path = "";
  thread_num = 4;
  failover_policy = "resend";
  config_dir = "/config/d1";
}

abbrev instance_one : Rafs
instance_one = record {
  seq = 1;
  image_id = "ghcr.io/app:1";
  daemon_id = "d1";
  fs_driver = fusedev;
  snapshot_id = "7";
  snapshot_dir = "/snapshots/7";
  underlying_files = [];
  mountpoint = "/mnt/7";
  annotations = [];
}

abbrev idle : Daemon
idle = record {
  states = states;
  rafs_cache = [];
  has_client = false;
  has_supervisor = false;
  ref = 0;
  state = blank;
}

abbrev serving : Daemon
serving = record idle { rafs_cache = ("7", instance_one) ∷ []; ref = 1 }

idle-IsCounted : IsCounted 0 idle
unfolding lookup
idle-IsCounted = record { is_map = tt; counted = refl; small = omega arith }

serving-IsCounted : IsCounted 0 serving
unfolding lookup
serving-IsCounted = record { is_map = (refl, tt); counted = refl; small = omega arith }

abbrev low : ℕ → ℕ → ℕ
low n b = 0

-- The socket appears before the second query.
abbrev late : ℕ → Probe
late zero = record { connect = err not_found; info = err not_found }
late (suc k) = record { connect = ok tt; info = ok running }

wait_until_state_lem_example :
    let w = wait_until_state low running late idle in
    ((w.1 ≡ returned_nil)
      × (w.0.state ≡ running)
      × ((k : ℕ) × (k < 20) × (w.0 ≡ polled running late idle (suc k))))
    ⊎ (((e : Failure) × (w.1 ≡ returned_last e))
        × (w.0 ≡ polled running late idle 20)
        × ((k : ℕ)
            → k < 20
            → ((polled running late idle k).state ≢ running)
              × ((get_state (late k) (polled running late idle k)).1 ≢ ok running)))
wait_until_state_lem_example = wait_until_state_lem low running late idle

abbrev instance_two : Rafs
instance_two = record instance_one { snapshot_id = "8"; mountpoint = "/mnt/8" }

-- The second instance is busy.
abbrev busy : Call → Result (Unit {0})
busy (umount id) = if id == "8" then err (failure 16) else ok tt
busy q = ok tt

abbrev connected_world : World
connected_world = record {
  daemon = record serving { has_client = true };
  object = instance_one;
  calls = [];
}

umount_each_lem_example :
    umount_each busy "" (λ id. id) (instance_one ∷ instance_two ∷ []) connected_world
    ≡ (record connected_world { calls = umount "7" ∷ umount "8" ∷ [] }, err (failure 16))
umount_each_lem_example =
    (umount_each_lem busy "" (λ id. id) (instance_one ∷ []) [] instance_two connected_world
        (failure 16) (refl, refl, refl) (refl, tt)).1
      refl
