-- ===== src/Snapshot/Removal/Examples.antt =====
-- Commits and removals that succeed and fail.
use nydus_snapshotter.Base.{◌≡◌, false, [], failure, Result, ok, err}
use nydus_snapshotter.Snapshot.Removal.{Step, commit, commit_snapshot}
use nydus_snapshotter.Snapshot.Removal.Transactions.{is_open, commit_closes}

abbrev well : Step → Result (Unit {0})
well s = ok tt

-- The disk is full when the store commits.
abbrev full_disk : Step → Result (Unit {0})
full_disk commit = err (failure 9)
full_disk s = ok tt

commit_closes_example :
    (is_open full_disk false (commit_snapshot full_disk "sha256:1" "c" []).0 ≡ false)
    × ((commit_snapshot full_disk "sha256:1" "c" []).1 ≡ ok tt → full_disk commit ≡ ok tt)
commit_closes_example = commit_closes full_disk "sha256:1" "c"
