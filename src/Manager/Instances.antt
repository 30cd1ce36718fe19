-- ===== src/Manager/Instances.antt =====
-- pkg/manager/manager.go: `recoverRafsInstances`, over the instances that the store walks.
use nydus_snapshotter.Base.{
  ◌≡◌, sym, is_some, ap, String, Bool, true, false, Option, none, some, List, [], ◌∷◌,
  if◌then◌else◌, arith, All,
}
use mathlib.Core.Path.{subst}
use nydus_snapshotter.Base.Dict.{Dict, lookup, insert, lookup-insert, lookup-insert_self}
use nydus_snapshotter.Daemon.{
  Daemon, Rafs, FsDriver, fusedev, fscache, blockdev, nodev, proxy, no_driver, other_driver,
  fs_driver_eq, get_fs_driver,
}
use nydus_snapshotter.Daemon.Refs.{add_rafs_instance}

-- The daemons that recover, those that live, and the cache of all instances.
pub record Recovered : Type 0 where
  pub recovering : Dict Daemon
  pub live : Dict Daemon
  pub global : Dict Rafs

abbrev pub joined : Rafs → Dict Daemon → Option Daemon → Dict Daemon
joined r m none = m
joined r m (some d) = insert r.daemon_id (add_rafs_instance r d) m

-- The instance joins its daemon, wherever that is.
abbrev pub joining : Rafs → Dict Daemon → Dict Daemon
joining r m = joined r m (lookup r.daemon_id m)

abbrev pub cached : Rafs → Recovered → Recovered
cached r s = record s { global = insert r.snapshot_id r s.global }

abbrev pub served : FsDriver → Rafs → Recovered → Recovered
served fscache r s =
    cached r (record s { recovering = joining r s.recovering; live = joining r s.live })
served fusedev r s =
    cached r (record s { recovering = joining r s.recovering; live = joining r s.live })
served blockdev r s = cached r s
served _ r s = s

-- `configured` is the driver that an instance without one takes.
abbrev pub recover_instance : (configured own : FsDriver) → Rafs → Recovered → Recovered
recover_instance configured own r s =
    if fs_driver_eq (get_fs_driver configured r) own
    then served (get_fs_driver configured r) r s
    else s

unfoldable pub recover_rafs_instances :
    (configured own : FsDriver) → List Rafs → Recovered → Recovered
recover_rafs_instances configured own [] s = s
recover_rafs_instances configured own (r ∷ rs) s =
    recover_rafs_instances configured own rs (recover_instance configured own r s)

-- An entry of the cache stays.
abbrev IsCached : String → Recovered → Type 0
IsCached id s = is_some (lookup id s.global) ≡ true

cached-IsCached :
    (r : Rafs) (s : Recovered) (id : String) → IsCached id s → IsCached id (cached r s)
cached-IsCached r s id h = ground (arith, h, lookup-insert r.snapshot_id id r s.global)

served-IsCached :
    (d : FsDriver) (r : Rafs) (s : Recovered) (id : String)
    → IsCached id s
    → IsCached id (served d r s)
served-IsCached fscache r s id h = cached-IsCached r s id h
served-IsCached fusedev r s id h = cached-IsCached r s id h
served-IsCached blockdev r s id h = cached-IsCached r s id h
served-IsCached nodev r s id h = h
served-IsCached proxy r s id h = h
served-IsCached no_driver r s id h = h
served-IsCached other_driver r s id h = h

step-IsCached :
    (configured own : FsDriver) (r : Rafs) (s : Recovered) (id : String)
    → IsCached id s
    → IsCached id (recover_instance configured own r s)
step-IsCached configured own r s id h = by_driver (fs_driver_eq (get_fs_driver configured r) own)
  where
    by_driver : (b : Bool) → IsCached id (if b then served (get_fs_driver configured r) r s else s)
    by_driver true = served-IsCached (get_fs_driver configured r) r s id h
    by_driver false = h

keep-IsCached :
    (configured own : FsDriver) (rs : List Rafs) (s : Recovered) (id : String)
    → IsCached id s
    → IsCached id (recover_rafs_instances configured own rs s)
unfolding recover_rafs_instances
keep-IsCached configured own [] s id h = h
keep-IsCached configured own (r ∷ rs) s id h =
    keep-IsCached configured own rs (recover_instance configured own r s) id
      (step-IsCached configured own r s id h)

-- The drivers whose instances are kept.
abbrev is_kept : FsDriver → Bool
is_kept fscache = true
is_kept fusedev = true
is_kept blockdev = true
is_kept _ = false

served_own :
    (d : FsDriver) (r : Rafs) (s : Recovered)
    → is_kept d ≡ true
    → IsCached r.snapshot_id (served d r s)
served_own fscache r s h = ap is_some (lookup-insert_self r.snapshot_id r s.global)
served_own fusedev r s h = ap is_some (lookup-insert_self r.snapshot_id r s.global)
served_own blockdev r s h = ap is_some (lookup-insert_self r.snapshot_id r s.global)
served_own nodev r s h = ground (arith, h)
served_own proxy r s h = ground (arith, h)
served_own no_driver r s h = ground (arith, h)
served_own other_driver r s h = ground (arith, h)

-- Each stored instance of the manager's driver, if daemons or the kernel serve that, is in the cache
-- of all instances after the recovery.
pub recover_rafs_instances_lem :
    (configured own : FsDriver) (rs : List Rafs) (s : Recovered)
    → All
        (λ r.
          (fs_driver_eq (get_fs_driver configured r) own ≡ true)
          × (is_kept (get_fs_driver configured r) ≡ true))
        rs
    → All (λ r. IsCached r.snapshot_id (recover_rafs_instances configured own rs s)) rs
unfolding recover_rafs_instances
recover_rafs_instances_lem configured own [] s h = tt
recover_rafs_instances_lem configured own (r ∷ rs) s ((e, k), h) = (
  keep-IsCached configured own rs (recover_instance configured own r s) r.snapshot_id (
      subst (λ b. IsCached r.snapshot_id (if b then served (get_fs_driver configured r) r s else s))
        (sym e) (served_own (get_fs_driver configured r) r s k)),
  recover_rafs_instances_lem configured own rs (recover_instance configured own r s) h,
)
