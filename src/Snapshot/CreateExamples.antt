-- ===== src/Snapshot/CreateExamples.antt =====
-- A snapshot in whose temporary directory "work" cannot be made, and one that cannot be moved.
use nydus_snapshotter.Base.{refl, true, false, [], ◌∷◌, failure, ok, err}
use nydus_snapshotter.Snapshot.Create.{Disk, Attempt, Placeholder, create_snapshot}
use nydus_snapshotter.Snapshot.Created.{Tidy, create_snapshot_lem, holds_id}

abbrev immovable : Attempt
immovable = record {
  begin = ok tt;
  options = ok tt;
  making = record { make_temp = ok tt; make_fs = ok tt; make_work = ok tt };
  create = ok "8";
  chown = ok tt;
  rename = err (failure 1);
  commit = ok tt;
  clean_temp = ok tt;
  clean_final = ok tt;
}

abbrev workless : Attempt
workless = record immovable {
  making = record { make_temp = ok tt; make_fs = ok tt; make_work = err (failure 2) };
}

abbrev unused : Placeholder
unused = record {
  exists = false;
  begin_placeholder = ok tt;
  making_placeholder = record { make_temp = ok tt; make_fs = ok tt; make_work = ok tt };
  create_active = ok "9";
  rename_placeholder = ok tt;
  commit_active = ok tt;
  commit_placeholder = ok tt;
  clean = ok tt;
}

abbrev disk : Disk
disk = record { temps = 0; finals = "7" ∷ [] }

create_snapshot_lem_example :
    Tidy disk (create_snapshot true false false (λ e. false) unused workless immovable disk)
unfolding holds_id
create_snapshot_lem_example =
    create_snapshot_lem true false (λ e. false) unused workless immovable disk refl refl refl
