-- ===== src/Store/Examples.antt =====
-- Runs of the database of pkg/store/database.go in memory.
use nydus_snapshotter.Base.{◌≡◌, refl, [], ◌∷◌, already_exists, err}
use nydus_snapshotter.Base.Dict.{lookup}
use nydus_snapshotter.Store.{Database, save_daemon, get_object}
use nydus_snapshotter.Store.Records.{record_at}
use nydus_snapshotter.Store.Refines.{save_daemon_lem}
use nydus_snapshotter.Store.Memory.{
  Bucket, daemon_value, rafs_value, memory, daemon_json, rafs_json, quiet_tx, config_state,
  instance_one,
}

-- One daemon and one instance are stored.
abbrev one_each : Database Bucket
one_each = record {
  daemons = (("d1", daemon_value config_state) ∷ [], 0);
  instances = (("7", rafs_value instance_one) ∷ [], 1);
}

save_daemon_lem_example :
    save_daemon memory daemon_json quiet_tx config_state one_each ≡ (one_each, err already_exists)
unfolding record_at get_object lookup
save_daemon_lem_example =
    (save_daemon_lem memory daemon_json rafs_json quiet_tx one_each config_state).1 config_state
      refl refl
