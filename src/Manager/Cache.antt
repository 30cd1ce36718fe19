-- ===== src/Manager/Cache.antt =====
-- pkg/manager/daemon_cache.go: the daemons by their id.
use nydus_snapshotter.Base.{ℕ, String, Option, none, some, List, length}
use nydus_snapshotter.Base.Dict.{Dict, lookup, insert, remove, values}
use nydus_snapshotter.Daemon.{Daemon}

-- `Add` returns the daemon that it replaces.
unfoldable pub add : Daemon → Dict Daemon → Dict Daemon × Option Daemon
add d m = (insert d.states.id d m, lookup d.states.id m)

unfoldable pub remove_locked : Daemon → Dict Daemon → Dict Daemon × Option Daemon
remove_locked d m = (remove d.states.id m, lookup d.states.id m)

-- `GetByDaemonID`, whose callback may change the cache.
unfoldable pub get_by_daemon_id :
    String → (Daemon → Dict Daemon → Dict Daemon) → Dict Daemon → Dict Daemon × Option Daemon
get_by_daemon_id id op m = elim (lookup id m) [ none ↦ (m, none) | some d ↦ (op d m, some d) ]

unfoldable pub remove_by_daemon_id : String → Dict Daemon → Dict Daemon × Option Daemon
unfolding get_by_daemon_id remove_locked
remove_by_daemon_id id = get_by_daemon_id id (λ d m. (remove_locked d m).0)

unfoldable pub update : Daemon → Dict Daemon → Dict Daemon
update d m = insert d.states.id d m

unfoldable pub list : Dict Daemon → List Daemon
list m = values m

unfoldable pub size : Dict Daemon → ℕ
size m = length m
