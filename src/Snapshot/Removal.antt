-- ===== src/Snapshot/Removal.antt =====
-- snapshot/snapshot.go: `Commit`, `Remove` and `Cleanup` of snapshots, as transactions of containerd's
-- store. The steps are recorded, oldest first; `answers` says how each of them ends.
pub mod Transactions
mod Examples
use nydus_snapshotter.Base.{
  Error, String, Bool, true, false, List, [], ◌∷◌, ◌++◌, Result, ok, err, if◌then◌else◌, ◌==◌,
}

pub data Step : Type 0 where
  begin rollback commit : Step
  get_info disk_usage remove_key clean : String → Step
  commit_active : (key name : String) → Step
  list_dirs : Step

abbrev pub Run : Type 0
Run = List Step × Result (Unit {0})

-- The next steps, after a success.
abbrev pub after : (List Step → Run) → Run → Run
after k (w, ok u) = k w
after k (w, err e) = (w, err e)

-- The deferred function of a transaction: an error is followed by a rollback.
abbrev pub rolled_back : Run → Run
rolled_back (w, ok u) = (w, ok u)
rolled_back (w, err e) = (w ++ rollback ∷ [], err e)

abbrev pub cleans : List String → List Step
cleans [] = []
cleans (d ∷ ds) = clean d ∷ cleans ds

-- `getCleanupDirectories`: the entries of the root of the snapshots that are no snapshot's id.
unfoldable pub has_id : String → List String → Bool
has_id id [] = false
has_id id (x ∷ xs) = let rest = has_id id xs in if x == id then true else rest

unfoldable pub unused_dirs : List String → List String → List String
unfolding has_id
unused_dirs ids [] = []
unused_dirs ids (d ∷ ds) = let rest = unused_dirs ids ds in if has_id d ids then rest else d ∷ rest

module _ (answers : Step → Result (Unit {0})) where
  abbrev pub take : Step → List Step → Run
  take s w = (w ++ s ∷ [], answers s)

  -- `Commit`.
  unfoldable pub commit_snapshot : String → String → List Step → Run
  commit_snapshot name key w =
      after
        (λ w1. rolled_back (
          after (take commit) (
            after (take (commit_active key name))
              (after (take (disk_usage key)) (take (get_info key) w1)))))
        (take begin w)

  -- The end of `Remove`: the deferred functions see the error of the steps before the commit, and so
  -- none where only the commit fails.
  pub finish_remove : List String → Run → Run
  finish_remove dirs (w, err e) = (w ++ rollback ∷ [], err e)
  finish_remove dirs (w, ok u) = (w ++ commit ∷ cleans dirs, answers commit)

  abbrev pub listing : Bool → List Step → Run
  listing true w = take list_dirs w
  listing false w = (w, ok tt)

  -- `Remove`: in synchronous mode `getCleanupDirectories` reads the ids of the snapshots that are left
  -- and the entries of the root directory.
  unfoldable pub remove_snapshot : Bool → List String → List String → String → List Step → Run
  unfolding finish_remove unused_dirs
  remove_snapshot sync_remove ids entries key w =
      after
        (λ w1.
          finish_remove (if sync_remove then unused_dirs ids entries else [])
            (after (listing sync_remove) (after (take (remove_key key)) (take (get_info key) w1))))
        (take begin w)
