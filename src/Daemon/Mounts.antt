-- ===== src/Daemon/Mounts.antt =====
-- pkg/daemon/daemon.go: mounting and unmounting the instances of a shared daemon. Each step that
-- can fail (a request to nydusd, a file, a mount) is a call that the environment answers; the
-- calls made are recorded, oldest first.
pub mod Umounts
use nydus_snapshotter.Base.{
  ◌==◌, String, Bool, true, false, List, [], ◌∷◌, ◌++◌, Error, device_busy, failure, Result, ok,
  err, if◌then◌else◌,
}
use nydus_snapshotter.Base.Dict.{values, insert, lookup}
use mathlib.Core.Option.{none, some}
use nydus_snapshotter.Daemon.{
  Rafs, Daemon, FsDriver, fusedev, fscache, shared, unset_mode, add_annotation,
}

pub data Call : Type 0 where
  connect send_fd : Call
  find_bootstrap load_config dump_config mount umount bind_blob mount_erofs : String → Call
  make_dir umount_erofs : String → Call
  unbind_blob : String → String → Call

-- `object` is the instance that a mount works on, which the mount may annotate.
pub record World : Type 0 where
  pub daemon : Daemon
  pub object : Rafs
  pub calls : List Call

abbrev pub Act : Type 0 → Type 0
Act A = World → World × Result A

abbrev pub next : {A B : Type 0} → (A → Act B) → World × Result A → World × Result B
next f (w, ok a) = f a w
next f (w, err e) = (w, err e)

infixl 5 ◌>>=◌ ◌>>◌
abbrev pub ◌>>=◌ : {A B : Type 0} → Act A → (A → Act B) → Act B
◌>>=◌ m f w = next f (m w)

abbrev pub ◌>>◌ : {B : Type 0} → Act (Unit {0}) → Act B → Act B
m >> k = m >>= λ _. k

abbrev pub pure : {A : Type 0} → A → Act A
pure a w = (w, ok a)

abbrev pub fail : {A : Type 0} → Error → Act A
fail e w = (w, err e)

-- Runs `m`, then `k` whatever came of it, and keeps the result of `m`: `defer`.
abbrev pub deferring : {A : Type 0} → (World → World) → Act A → Act A
deferring k m w = let (w', r) = m w in (k w', r)

-- `m` with its error only logged.
abbrev pub ignoring : Act (Unit {0}) → World → World
ignoring m w = (m w).0

-- `IsSharedDaemon`; the other argument is the configured root mountpoint.
unfoldable pub is_shared_daemon : String → Daemon → Bool
is_shared_daemon root d = elim d.states.daemon_mode [
  | unset_mode ↦ d.states.mountpoint == root
  | shared ↦ true
  | _ ↦ false
]

-- `errors.Errorf("unsupported fs driver")`.
abbrev pub unsupported : Error
unsupported = failure 2

abbrev pub busy_is_fine : Result (Unit {0}) → Result (Unit {0})
busy_is_fine (err device_busy) = ok tt
busy_is_fine r = r

abbrev pub anno_domain_id : String
anno_domain_id = "fscache.domainid"

abbrev pub anno_fscache_id : String
anno_fscache_id = "fscache.id"

abbrev pub text_or_empty : String → Rafs → String
text_or_empty k r = elim (lookup k r.annotations) [ none ↦ "" | some v ↦ v ]

-- `answers` is the environment, `domain` the configured fscache domain, and `fscache_id` the digest
-- that pkg/utils/erofs computes of a snapshot's id.
module _ (answers : Call → Result (Unit {0})) (domain : String) (fscache_id : String → String) where
  pub request : Call → Act (Unit {0})
  request q w = (record w { calls = w.calls ++ q ∷ [] }, answers q)

  connected : Act (Unit {0})
  connected w = (record w { daemon = record (w.daemon) { has_client = true } }, ok tt)

  -- `GetClient`.
  pub client : Act (Unit {0})
  unfolding request connected
  client w = if w.daemon.has_client then (w, ok tt) else (request connect >> connected) w

  -- `SendStates`; its errors are logged.
  pub send_states : World → World
  unfolding client request
  send_states w = if w.daemon.has_supervisor then ignoring (client >> request send_fd) w else w

  pub shared_fusedev_mount : Rafs → Act (Unit {0})
  unfolding client request
  shared_fusedev_mount r = do
    client
    request (find_bootstrap r.snapshot_id)
    request (load_config r.snapshot_id)
    request (dump_config r.snapshot_id)
    request (mount r.snapshot_id)

  mount_erofs_or_busy : Rafs → Act (Unit {0})
  unfolding request
  mount_erofs_or_busy r w =
      let (w', a) = request (mount_erofs r.mountpoint) w in (w', busy_is_fine a)

  pub annotated : Rafs → Rafs
  unfolding add_annotation
  annotated r =
      add_annotation anno_fscache_id (fscache_id r.snapshot_id)
        (add_annotation anno_domain_id domain r)

  annotate : Act (Unit {0})
  unfolding annotated
  annotate w = (record w { object = annotated w.object }, ok tt)

  pub shared_erofs_mount : Rafs → Act (Unit {0})
  unfolding client request mount_erofs_or_busy annotate
  shared_erofs_mount r = do
    client
    request (make_dir r.snapshot_dir)
    request (load_config r.snapshot_id)
    request (dump_config r.snapshot_id)
    request (bind_blob r.snapshot_id)
    request (make_dir r.mountpoint)
    annotate
    mount_erofs_or_busy r

  pub mount_by : Rafs → FsDriver → Act (Unit {0})
  unfolding shared_fusedev_mount shared_erofs_mount
  mount_by r fscache = shared_erofs_mount r
  mount_by r fusedev = shared_fusedev_mount r
  mount_by r _ = fail unsupported

  -- `SharedMount`; it leaves the instance, as the mount changed it, in `object`.
  unfoldable pub shared_mount : Rafs → Act (Unit {0})
  unfolding mount_by send_states
  shared_mount r w =
      deferring send_states (mount_by r w.daemon.states.fs_driver) (record w { object = r })

  drop_bootstrap : Rafs → World → World
  unfolding request
  drop_bootstrap r = ignoring (request (unbind_blob "" (text_or_empty anno_fscache_id r)))

  pub shared_erofs_umount : Rafs → Act (Unit {0})
  unfolding client request drop_bootstrap
  shared_erofs_umount r = do
    client
    request (unbind_blob (text_or_empty anno_domain_id r) (text_or_empty anno_fscache_id r))
    request (umount_erofs r.mountpoint)
    λ w. (drop_bootstrap r w, ok tt)

  pub umount_by : Rafs → FsDriver → Act (Unit {0})
  unfolding client request shared_erofs_umount
  umount_by r fscache = shared_erofs_umount r
  umount_by r fusedev = client >> request (umount r.snapshot_id)
  umount_by r _ = fail unsupported

  -- `SharedUmount`.
  unfoldable pub shared_umount : Rafs → Act (Unit {0})
  unfolding umount_by send_states
  shared_umount r w = deferring send_states (umount_by r w.daemon.states.fs_driver) w

  unfoldable pub umount_rafs_instance : String → Rafs → Act (Unit {0})
  unfolding shared_umount
  umount_rafs_instance root r w =
      if is_shared_daemon root w.daemon then shared_umount r w else (w, ok tt)

  -- The loop stops at the first instance that cannot be unmounted.
  unfoldable pub umount_each : List Rafs → Act (Unit {0})
  unfolding shared_umount
  umount_each [] = pure tt
  umount_each (r ∷ rs) = shared_umount r >> umount_each rs

  unfoldable pub umount_rafs_instances : String → Act (Unit {0})
  unfolding umount_each
  umount_rafs_instances root w =
      if is_shared_daemon root w.daemon
      then umount_each (values w.daemon.rafs_cache) w
      else (w, ok tt)

  -- The instance that a mount worked on is the one in the daemon's cache.
  write_back : World → World
  write_back w = record w {
    daemon = record (w.daemon) {
      rafs_cache = insert w.object.snapshot_id w.object w.daemon.rafs_cache;
    };
  }

  -- An instance at the daemon's own mountpoint is mounted already.
  pub recover_each : List Rafs → Act (Unit {0})
  unfolding shared_mount write_back
  recover_each [] w = (w, ok tt)
  recover_each (r ∷ rs) w =
      let rest = recover_each rs in
      if w.daemon.states.mountpoint == r.mountpoint
      then rest w
      else (deferring write_back (shared_mount r) >> rest) w

  -- `sort_by_seq` is `sort.Slice` by `Seq`.
  unfoldable pub recover_rafs_instances : (List Rafs → List Rafs) → String → Act (Unit {0})
  unfolding recover_each
  recover_rafs_instances sort_by_seq root w =
      if is_shared_daemon root w.daemon
      then recover_each (sort_by_seq (values w.daemon.rafs_cache)) w
      else (w, ok tt)
