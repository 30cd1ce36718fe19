-- ===== src/Manager/Examples.antt =====
-- Runs of a manager on the database in memory.
use nydus_snapshotter.Base.{◌≡◌, refl, inr, false, some, List, [], ◌∷◌, Result, ok, arith}
use nydus_snapshotter.Base.Dict.{lookup}
use nydus_snapshotter.Base.Dict as Dict
use nydus_snapshotter.Store as Store
use nydus_snapshotter.Manager.Cache as Cache
use nydus_snapshotter.Daemon.{Daemon, fusedev, running, fs_driver_eq}
use nydus_snapshotter.Daemon.State.{get_state, get_client}
use nydus_snapshotter.Daemon.Mounts.{Call}
use nydus_snapshotter.Store.{Database, get_object}
use nydus_snapshotter.Store.Records.{record_at}
use nydus_snapshotter.Store.Interface.{walk_records, database_store, decode_all}
use nydus_snapshotter.Store.Memory.{
  Bucket, daemon_value, empty_db, store, quiet_tx, config_state, instance_one, daemon_one,
}
use nydus_snapshotter.Manager.{Manager, add_rafs_instance, add_daemon, update_daemon, record_start}
use nydus_snapshotter.Manager.Agreed.{IsSynced, IsExact}
use nydus_snapshotter.Manager.Synced.{
  AllSaved, Op, adds, updates, deletes, adds_rafs, starts, run, run-IsSynced, run-IsExact, step,
}
use nydus_snapshotter.Manager.Sequence.{IsNumbered, IsNewest, add_rafs_instance-IsNewest}
use nydus_snapshotter.Manager.Recovery.{
  Surroundings, Placed, recover_one, recover_daemons, recover_daemons_lem,
}
use nydus_snapshotter.Manager.Destroy.{destroy_daemon, Destroys, destroy_daemon_lem}

abbrev fresh : Manager (Database Bucket)
fresh = record { fs_driver = fusedev; store = empty_db; cache = [] }

abbrev one_stored : Manager (Database Bucket)
one_stored = record fresh {
  store = record { daemons = (("d1", daemon_value config_state) ∷ [], 0); instances = ([], 0) };
}

-- A daemon and an instance are added, the daemon is started, updated and deleted.
abbrev day : List (Op store)
day =
    adds quiet_tx daemon_one
    ∷ adds_rafs quiet_tx quiet_tx instance_one
    ∷ starts quiet_tx "d1" 41
    ∷ updates quiet_tx (record daemon_one { ref = 1 })
    ∷ deletes quiet_tx (some daemon_one)
    ∷ []

fresh-IsSynced : IsSynced store fresh
unfolding lookup
fresh-IsSynced id d h = absurd (ground arith)

run-IsSynced_example : IsSynced store (run store fresh day)
run-IsSynced_example = run-IsSynced store fresh day fresh-IsSynced

fresh-IsExact : IsExact store fresh
unfolding lookup
fresh-IsExact id d h = absurd (ground arith)

day-AllSaved : AllSaved store fresh day
unfolding step add_daemon add_rafs_instance record_start update_daemon lookup database_store
    Store.next_instance_seq Store.save_daemon get_object Store.put_object Cache.add Dict.insert
    Store.update_daemon Store.add_rafs_instance Store.update_object
day-AllSaved = (tt, (tt, (inr refl, (tt, (tt, tt)))))

run-IsExact_example : IsExact store (run store fresh day)
run-IsExact_example = run-IsExact store fresh day fresh-IsExact day-AllSaved

fresh-IsNumbered : IsNumbered (store.view_of fresh.store)
unfolding database_store record_at get_object lookup
fresh-IsNumbered id r h = absurd (ground arith)

add_rafs_instance-IsNewest_example :
    let (m, r, a) = add_rafs_instance store quiet_tx quiet_tx instance_one fresh in
    IsNumbered (store.view_of m.store)
    × (a ≡ ok tt → IsNewest (store.view_of fresh.store) (store.view_of m.store) r)
unfolding database_store
add_rafs_instance-IsNewest_example =
    add_rafs_instance-IsNewest store quiet_tx quiet_tx instance_one fresh fresh-IsNumbered
      (omega arith)

-- nydusd runs.
abbrev healthy : Surroundings
healthy = record {
  supervised = false;
  load_config = λ s. ok tt;
  probe = λ s. record { connect = ok tt; info = ok running };
  add_proc = λ s. ok tt;
}

recover_daemons_lem_example :
    Placed {S = Database Bucket} healthy config_state (recover_daemons store healthy one_stored).0
unfolding database_store decode_all fs_driver_eq recover_daemons walk_records recover_one get_state
    get_client
recover_daemons_lem_example =
    recover_daemons_lem store healthy one_stored config_state [] [] refl tt tt refl refl

abbrev all_well : Call → Result (Unit {0})
all_well q = ok tt

abbrev serving : Daemon
serving = record daemon_one { rafs_cache = ("7", instance_one) ∷ []; ref = 1 }

destroy_daemon_lem_example : Destroys store serving one_stored (
    destroy_daemon store all_well ""
      (λ id. id)
      (λ p. p)
      "/mnt"
      false
      quiet_tx
      instance_one
      serving
      one_stored)
unfolding lookup
destroy_daemon_lem_example =
    destroy_daemon_lem store all_well "" (λ id. id) (λ p. p) "/mnt" false quiet_tx instance_one
      serving one_stored (refl, tt) (refl, tt)
