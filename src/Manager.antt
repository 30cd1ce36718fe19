-- ===== src/Manager.antt =====
-- pkg/manager/manager.go: the manager of the daemons of one filesystem driver. It keeps the
-- daemons' records in a store and the daemons themselves in a cache.
pub mod Cache
pub mod Agreed
pub mod Synced
pub mod Sequence
pub mod Recovery
pub mod Destroy
pub mod Socket
pub mod Steps
pub mod Events
pub mod Upgrade
pub mod Command
pub mod Instances
mod EventExamples
mod Examples
use nydus_snapshotter.Base.{
  ℕ, ◌==◌, ◌≡◌, String, Bool, true, false, Option, none, some, List, [], ◌∷◌, Error, already_exists,
  not_found, Result, ok, err,
}
use nydus_snapshotter.Base.Dict.{Dict, lookup, insert}
use nydus_snapshotter.Daemon.{Rafs, ConfigState, Daemon, FsDriver}
use nydus_snapshotter.Store.{Tx}
use nydus_snapshotter.Store.Interface.{StateStore}
use nydus_snapshotter.Manager.Cache.{add, remove_locked}

pub record Manager (S : Type 0) : Type 0 where
  pub fs_driver : FsDriver
  pub store : S
  pub cache : Dict Daemon

abbrev pub with_pid : ℕ → Daemon → Daemon
with_pid pid d = record d { states = record (d.states) { process_id = pid } }

module _ {S : Type 0} (api : StateStore S) where
  -- The cache follows the store: it changes only where the store's operation succeeded.
  followed :
      Manager S
      → S × Result (Unit {0})
      → (Dict Daemon → Dict Daemon)
      → Manager S × Result (Unit {0})
  followed m (s, ok u) f = (record m { store = s; cache = f m.cache }, ok tt)
  followed m (s, err e) f = (record m { store = s }, err e)

  unfoldable pub add_daemon : Tx → Daemon → Manager S → Manager S × Result (Unit {0})
  unfolding followed
  add_daemon tx d m = elim (lookup d.states.id m.cache) [
    | some old ↦ (m, err already_exists)
    | none ↦ followed m (api.add tx d.states m.store) (λ c. (add d c).0)
  ]

  -- `d` is another object than the cached one, as that of an upgrade.
  unfoldable pub update_daemon : Tx → Daemon → Manager S → Manager S × Result (Unit {0})
  unfolding followed
  update_daemon tx d m = elim (lookup d.states.id m.cache) [
    | none ↦ (m, err not_found)
    | some old ↦ followed m (api.update tx d.states m.store) (λ c. (add d c).0)
  ]

  -- What `StartDaemon` does to the manager once the process runs: the daemon object, which stands in the
  -- cache under its id, gets the process's id before UpdateDaemon, whose error is only logged. An
  -- object that is not cached is refused.
  unfoldable pub record_start : Tx → String → ℕ → Manager S → Manager S × Result (Unit {0})
  unfolding update_daemon
  record_start tx id pid m = elim (lookup id m.cache) [
    | none ↦ (m, err not_found)
    | some d ↦
        update_daemon tx (with_pid pid d)
          (record m { cache = insert d.states.id (with_pid pid d) m.cache })
  ]

  -- `none` is a nil daemon.
  unfoldable pub delete_daemon : Tx → Option Daemon → Manager S → Manager S × Result (Unit {0})
  unfolding followed
  delete_daemon tx none m = (m, ok tt)
  delete_daemon tx (some d) m =
      followed m (api.delete tx d.states.id m.store) (λ c. (remove_locked d c).0)

  stored : Manager S → S × Result (Unit {0}) → Manager S × Result (Unit {0})
  stored m (s, r) = (record m { store = s }, r)

  -- The instance gets the next sequence number, in a transaction of its own.
  numbered : Tx → Rafs → Manager S → S × Result ℕ → Manager S × Rafs × Result (Unit {0})
  numbered tx r m (s, err e) = (record m { store = s }, r, err e)
  numbered tx r m (s, ok n) =
      let r' = record r { seq = n } in let (m', a) = stored m (api.add_rafs tx r' s) in (m', r', a)

  unfoldable pub add_rafs_instance :
      Tx → Tx → Rafs → Manager S → Manager S × Rafs × Result (Unit {0})
  unfolding numbered stored
  add_rafs_instance tx tx' r m = numbered tx' r m (api.next_seq tx m.store)

  unfoldable pub update_rafs_instance : Tx → Rafs → Manager S → Manager S × Result (Unit {0})
  unfolding stored
  update_rafs_instance tx r m = stored m (api.update_rafs tx r m.store)

  unfoldable pub remove_rafs_instance : Tx → String → Manager S → Manager S × Result (Unit {0})
  unfolding stored
  remove_rafs_instance tx id m = stored m (api.delete_rafs tx id m.store)
