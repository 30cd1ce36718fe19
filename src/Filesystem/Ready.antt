-- ===== src/Filesystem/Ready.antt =====
-- pkg/filesystem/fs.go: waiting until an instance is ready, and the shared daemons that are kept.
use nydus_snapshotter.Base.{
  ◌≡◌, ap, ◌∙◌, ◌==◌, not, ◌&&◌, String, Bool, Option, none, some, List, Result, ok, err, not_found,
  if◌then◌else◌, is_some, ◌=ℕ=◌,
}
use nydus_snapshotter.Base.Dict.{Dict, lookup, insert, lookup-insert_self}
use nydus_snapshotter.Daemon.{
  Daemon, Rafs, FsDriver, fusedev, fscache, DaemonMode, none_mode, get_fs_driver,
}
use nydus_snapshotter.Daemon.Refs.{inc_ref}
use nydus_snapshotter.Daemon.Mounts.{anno_fscache_id}

-- What waiting asks of others: the daemon of an instance, whether it is shared and reaches RUNNING,
-- the files that its metrics name for a cache id, the manager, and its update of the record.
pub record Answers : Type 0 where
  pub daemon_by_rafs : Rafs → Result Daemon
  pub is_shared : Daemon → Bool
  pub wait_running : Daemon → Result (Unit {0})
  pub underlying_files : Daemon → (sid : String) → Result (List String)
  pub manager : Result (Unit {0})
  pub update_rafs_instance : Rafs → Result (Unit {0})
  pub fscache_id : String → String

-- The annotation of the instance, if it is not empty, or the digest of the snapshot's id.
abbrev pub fscache_sid : (String → String) → Rafs → Option String → String
fscache_sid compute r none = compute r.snapshot_id
fscache_sid compute r (some id) = if id == "" then compute r.snapshot_id else id

abbrev pub shared_sid : Answers → Rafs → FsDriver → String
shared_sid a r fscache = fscache_sid a.fscache_id r (lookup anno_fscache_id r.annotations)
shared_sid a r _ = r.snapshot_id

abbrev pub sid_of : Answers → Rafs → FsDriver → Daemon → String
sid_of a r serving d = if a.is_shared d then shared_sid a r serving else ""

abbrev pub Waiting : Type 0
Waiting = Dict Rafs × Result (Unit {0})

abbrev pub both : Result (Unit {0}) → Result (Unit {0}) → Result (Unit {0})
both (ok u) r = r
both (err e) r = err e

abbrev pub with_files : Rafs → List String → Rafs
with_files r files = record r { underlying_files = files }

-- The instance has the files also where the manager or its store then fails.
abbrev pub recorded : Answers → Rafs → Dict Rafs → Result (List String) → Waiting
recorded a r cache (err e) = (cache, err e)
recorded a r cache (ok files) = (
  insert r.snapshot_id (with_files r files) cache,
  both a.manager (a.update_rafs_instance (with_files r files)),
)

abbrev pub running_with :
    Answers → Rafs → FsDriver → Dict Rafs → Daemon → Result (Unit {0}) → Waiting
running_with a r serving cache d (err e) = (cache, err e)
running_with a r serving cache d (ok u) =
    recorded a r cache (a.underlying_files d (sid_of a r serving d))

abbrev pub served_by : Answers → Rafs → FsDriver → Dict Rafs → Result Daemon → Waiting
served_by a r serving cache (err e) = (cache, err e)
served_by a r serving cache (ok d) = running_with a r serving cache d (a.wait_running d)

abbrev pub waiting_for : Answers → Rafs → Dict Rafs → FsDriver → Waiting
waiting_for a r cache fscache = served_by a r fscache cache (a.daemon_by_rafs r)
waiting_for a r cache fusedev = served_by a r fusedev cache (a.daemon_by_rafs r)
waiting_for a r cache _ = (cache, ok tt)

abbrev pub without_instance : DaemonMode → Result (Unit {0})
without_instance none_mode = ok tt
without_instance _ = err not_found

abbrev pub wait_found : Answers → FsDriver → DaemonMode → Dict Rafs → Option Rafs → Waiting
wait_found a configured mode cache none = (cache, without_instance mode)
wait_found a configured mode cache (some r) = waiting_for a r cache (get_fs_driver configured r)

unfoldable pub wait_until_ready : Answers → FsDriver → DaemonMode → String → Dict Rafs → Waiting
wait_until_ready a configured mode id cache = wait_found a configured mode cache (lookup id cache)

-- The shared daemons of the filesystem layer.
pub record Shared : Type 0 where
  pub fscache_shared_daemon : Option Daemon
  pub fusedev_shared_daemon : Option Daemon

abbrev pub retained_as : Daemon → FsDriver → (at_root : Bool) → Shared → Shared
retained_as d fscache at_root s =
    if is_some s.fscache_shared_daemon
    then s
    else record s { fscache_shared_daemon = some (inc_ref d) }
retained_as d fusedev at_root s =
    if not (is_some s.fusedev_shared_daemon) && at_root
    then record s { fusedev_shared_daemon = some (inc_ref d) }
    else s
retained_as d _ at_root s = s

unfoldable pub try_retain_shared_daemon : (root_mountpoint : String) → Daemon → Shared → Shared
try_retain_shared_daemon root d s = retained_as d d.states.fs_driver (d.states.mountpoint == root) s

-- A daemon is destroyed where the layer itself is its last holder; an error keeps it.
abbrev pub unless_destroyed : Daemon → Result (Unit {0}) → Option Daemon
unless_destroyed d (ok u) = none
unless_destroyed d (err e) = some d

abbrev pub stopped :
    (has_manager : Bool) → (Daemon → Result (Unit {0})) → Option Daemon → Option Daemon
stopped has_manager destroy none = none
stopped has_manager destroy (some d) =
    if (d.ref =ℕ= 1) && has_manager then unless_destroyed d (destroy d) else some d

unfoldable pub try_stop_shared_daemon :
    (has_fusedev has_fscache : Bool) → (Daemon → Result (Unit {0})) → Shared → Shared
try_stop_shared_daemon has_fusedev has_fscache destroy s = record s {
  fusedev_shared_daemon = stopped has_fusedev destroy s.fusedev_shared_daemon;
  fscache_shared_daemon = stopped has_fscache destroy s.fscache_shared_daemon;
}

-- The hot upgrade of a live daemon at start: with a supervisor, an answer and another commit it is
-- upgraded and the new daemon is retained, with the same commit it is retained itself; where
-- something fails, or without a supervisor, nothing is retained.
unfoldable pub upgraded_to : (root_mountpoint : String) → Shared → Result Daemon → Shared
unfolding try_retain_shared_daemon
upgraded_to root s (err e) = s
upgraded_to root s (ok d) = try_retain_shared_daemon root d s

unfoldable pub hot_upgrade :
    (root_mountpoint new_commit : String)
    → Daemon
    → (commit : Result String) → (upgrade : Result Daemon) → Shared
    → Shared
unfolding try_retain_shared_daemon upgraded_to
hot_upgrade root new_commit d (err e) upgrade s = s
hot_upgrade root new_commit d (ok commit) upgrade s =
    if d.has_supervisor
    then (if new_commit == commit
        then try_retain_shared_daemon root d s
        else upgraded_to root s upgrade)
    else s

-- Where the instance's daemon reaches RUNNING and its metrics are had, the cached instance has the
-- files that they name, also if the record of the instance cannot be updated then.
pub recorded_lem :
    (a : Answers) (r : Rafs) (cache : Dict Rafs) (d : Daemon) (serving : FsDriver)
    (files : List String)
    → a.wait_running d ≡ ok tt
    → a.underlying_files d (sid_of a r serving d) ≡ ok files
    → lookup r.snapshot_id (served_by a r serving cache (ok d)).0 ≡ some (with_files r files)
recorded_lem a r cache d serving files h k =
    ap (λ x. lookup r.snapshot_id (running_with a r serving cache d x).0) h
    ∙ ap (λ x. lookup r.snapshot_id (recorded a r cache x).0) k
    ∙ lookup-insert_self r.snapshot_id (with_files r files) cache
