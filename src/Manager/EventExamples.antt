-- ===== src/Manager/EventExamples.antt =====
-- A shared daemon with one instance that dies, and one that is upgraded.
use nydus_snapshotter.Base.{◌≡◌, refl, some, List, [], ◌∷◌, ◌++◌, Result, ok, err, failure, arith}
use nydus_snapshotter.Base.Dict.{lookup, values}
use nydus_snapshotter.Daemon.{Daemon, unknown}
use nydus_snapshotter.Store.Memory.{daemon_one, instance_one}
use nydus_snapshotter.Monitor.{DeathEvent}
use nydus_snapshotter.Manager.Socket.{
  api, dot_sock, api_socket, build_next_api_socket, build_next_api_socket_lem,
}
use nydus_snapshotter.Manager.Events.{
  Call, wait_process, unsubscribe, clear_vestige, start_daemon, shared_mount, policy_restart,
  handle_death, handle_death_lem,
}
use nydus_snapshotter.Manager.Upgrade as Up
use nydus_snapshotter.Manager.Upgrade.{Upgrade, do_daemon_upgrade}
use nydus_snapshotter.Manager.Upgrade.Order.{Upgrades, do_daemon_upgrade_lem}

build_next_api_socket_lem_example :
    (build_next_api_socket (api ++ dot_sock) ≡ ok (api_socket 1))
    × (build_next_api_socket (api_socket 9) ≡ ok (api_socket 10))
build_next_api_socket_lem_example = build_next_api_socket_lem 9 (omega arith)

abbrev serving : Daemon
serving = record daemon_one { rafs_cache = ("7", instance_one) ∷ []; ref = 1 }

abbrev death : DeathEvent
death = record { daemon_id = "d1"; socket = "/run/api.sock"; channel = 1 }

abbrev fine : List Call → Call → Result (Unit {0})
fine w c = ok tt

handle_death_lem_example :
    handle_death policy_restart fine (("d1", serving) ∷ []) death
    ≡ some (
      record serving { state = unknown },
      (
        wait_process ∷ unsubscribe ∷ clear_vestige ∷ start_daemon ∷ shared_mount instance_one ∷ [],
        ok tt,
      ),
    )
unfolding lookup values
handle_death_lem_example =
    handle_death_lem fine (("d1", serving) ∷ []) death serving refl (refl, tt) refl

abbrev no_take_over : List Up.Call → Up.Call → Result (Unit {0})
no_take_over w Up.take_over = err (failure 1)
no_take_over w _ = ok tt

abbrev upgrade : Upgrade
upgrade = record {
  base = λ p. p;
  dir = λ p. "/run";
  join = λ d n. n;
  codes = λ p. api ++ dot_sock;
  text = λ n. "api1.sock";
  pid = 9;
  mount_answers = λ c. ok tt;
  fscache_domain = "";
  fscache_id = λ i. i;
  sort_by_seq = λ rs. rs;
  root_mountpoint = "/mnt";
}

do_daemon_upgrade_lem_example :
    Upgrades upgrade no_take_over serving (do_daemon_upgrade upgrade no_take_over serving)
unfolding lookup
do_daemon_upgrade_lem_example =
    do_daemon_upgrade_lem upgrade no_take_over 0 serving
      (record { is_map = (refl, tt); counted = refl; small = omega arith })
