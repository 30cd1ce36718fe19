-- ===== src/Snapshot/Create.antt =====
-- snapshot/snapshot.go: `createSnapshot` with its recovery of a missing parent, and the directories it
-- makes, moves and removes. Temporary directories are counted; the others stand under their ids.
use nydus_snapshotter.Base.{
  ℕ, zero, suc, ◌==◌, String, Bool, false, List, [], ◌∷◌, ◌&&◌, Error, failure, Result, ok, err,
  if◌then◌else◌,
}

pub record Disk : Type 0 where
  pub temps : ℕ
  pub finals : List String

-- The answers to the calls of `prepareDirectory`: the temporary directory, and "fs" and "work" in it.
pub record Making : Type 0 where
  pub make_temp : Result (Unit {0})
  pub make_fs : Result (Unit {0})
  pub make_work : Result (Unit {0})

-- What `prepareDirectory` returns: no path and an error, or the path of the temporary directory,
-- with or without an error.
pub data Prepared : Type 0 where
  no_path : Error → Prepared
  path : Result (Unit {0}) → Prepared

abbrev pub work_made :
    (is_active : Bool) → Result (Unit {0}) → Result (Unit {0}) → Result (Unit {0})
work_made is_active work (err e) = err e
work_made is_active work (ok u) = if is_active then work else ok tt

abbrev pub temp_made : (is_active : Bool) → Making → Result (Unit {0}) → Prepared
temp_made is_active m (err e) = no_path e
temp_made is_active m (ok u) = path (work_made is_active m.make_work m.make_fs)

unfoldable pub prepare_directory : (is_active : Bool) → Making → Prepared
prepare_directory is_active m = temp_made is_active m m.make_temp

-- What one attempt meets: the transaction, the options, the directory, the store (the new id), the
-- owner of the parent's directory, the move, the commit, and the removals of directories.
pub record Attempt : Type 0 where
  pub begin : Result (Unit {0})
  pub options : Result (Unit {0})
  pub making : Making
  pub create : Result String
  pub chown : Result (Unit {0})
  pub rename : Result (Unit {0})
  pub commit : Result (Unit {0})
  pub clean_temp : Result (Unit {0})
  pub clean_final : Result (Unit {0})

-- The same for the placeholder of a parent, which is found or made in a transaction of its own.
pub record Placeholder : Type 0 where
  pub exists : Bool
  pub begin_placeholder : Result (Unit {0})
  pub making_placeholder : Making
  pub create_active : Result String
  pub rename_placeholder : Result (Unit {0})
  pub commit_active : Result (Unit {0})
  pub commit_placeholder : Result (Unit {0})
  pub clean : Result (Unit {0})

abbrev pub Run : Type 0 → Type 0
Run A = Disk × Result A

abbrev pub made : Disk → Disk
made d = record d { temps = suc d.temps }

abbrev pub pred : ℕ → ℕ
pred zero = zero
pred (suc n) = n

unfoldable pub without : String → List String → List String
without id [] = []
without id (x ∷ xs) = let rest = without id xs in if x == id then rest else x ∷ rest

-- `cleanupSnapshotDirectory`, whose error leaves the directory.
abbrev pub temp_cleaned : Result (Unit {0}) → Disk → Disk
temp_cleaned (ok u) d = record d { temps = pred d.temps }
temp_cleaned (err e) d = d

unfoldable pub final_cleaned : Result (Unit {0}) → String → Disk → Disk
unfolding without
final_cleaned (ok u) id d = record d { finals = without id d.finals }
final_cleaned (err e) id d = d

abbrev pub moved : String → Disk → Disk
moved id d = record d { temps = pred d.temps; finals = id ∷ d.finals }

module _ (a : Attempt) where
  unfoldable pub committed : String → Disk → Result (Unit {0}) → Run String
  unfolding final_cleaned
  committed id d (ok u) = (d, ok id)
  committed id d (err e) = (final_cleaned a.clean_final id d, err e)

  -- Where the move fails the target is removed too: it is not there.
  unfoldable pub renamed : String → Disk → Result (Unit {0}) → Run String
  unfolding committed final_cleaned
  renamed id d (ok u) = committed id (moved id d) a.commit
  renamed id d (err e) = (final_cleaned a.clean_final id (temp_cleaned a.clean_temp d), err e)

  unfoldable pub chowned : String → Disk → Result (Unit {0}) → Run String
  unfolding renamed
  chowned id d (ok u) = renamed id d a.rename
  chowned id d (err e) = (temp_cleaned a.clean_temp d, err e)

  -- `on_error` is what follows an error of the store.
  unfoldable pub created :
      (on_error : Error → Disk → Run String) → Disk → Result String → Run String
  unfolding chowned
  created on_error d (ok id) = chowned id d a.chown
  created on_error d (err e) = on_error e (temp_cleaned a.clean_temp d)

  -- A temporary directory that is there is removed though `prepareDirectory` reports an error.
  unfoldable pub prepared : (Error → Disk → Run String) → Disk → Prepared → Run String
  unfolding created
  prepared on_error d (path (ok u)) = created on_error (made d) a.create
  prepared on_error d (path (err e)) = (temp_cleaned a.clean_temp (made d), err e)
  prepared on_error d (no_path e) = (d, err e)

  unfoldable pub with_options :
      (is_active : Bool) → (Error → Disk → Run String) → Disk → Result (Unit {0}) → Run String
  unfolding prepared prepare_directory
  with_options is_active on_error d (ok u) =
      prepared on_error d (prepare_directory is_active a.making)
  with_options is_active on_error d (err e) = (d, err e)

  unfoldable pub attempt_with :
      (is_active : Bool) → (Error → Disk → Run String) → Disk → Result (Unit {0}) → Run String
  unfolding with_options
  attempt_with is_active on_error d (ok u) = with_options is_active on_error d a.options
  attempt_with is_active on_error d (err e) = (d, err e)

  unfoldable pub attempt : (is_active : Bool) → (Error → Disk → Run String) → Disk → Run String
  unfolding attempt_with
  attempt is_active on_error d = attempt_with is_active on_error d a.begin

module _ (p : Placeholder) where
  abbrev pub placeholder_moved :
      String → Disk → Result (Unit {0}) → Result (Unit {0}) → Disk × Result (Unit {0})
  placeholder_moved id d (err e) done = (final_cleaned p.clean id d, err e)
  placeholder_moved id d (ok u) done = (d, done)

  -- An error of the move leaves the temporary directory.
  abbrev pub placeholder_created :
      Disk → Result String → Result (Unit {0}) → Disk × Result (Unit {0})
  placeholder_created d (err e) move = (temp_cleaned p.clean d, err e)
  placeholder_created d (ok id) (err e) = (d, err e)
  placeholder_created d (ok id) (ok u) =
      placeholder_moved id (moved id d) p.commit_active p.commit_placeholder

  -- A temporary directory that is there stays where `prepareDirectory` reports an error.
  abbrev pub placeholder_prepared :
      Disk → (begin : Result (Unit {0})) → Prepared → Disk × Result (Unit {0})
  placeholder_prepared d (err e) r = (d, err e)
  placeholder_prepared d (ok u) (no_path e) = (d, err e)
  placeholder_prepared d (ok u) (path (err e)) = (made d, err e)
  placeholder_prepared d (ok u) (path (ok v)) =
      placeholder_created (made d) p.create_active p.rename_placeholder

  unfoldable pub create_placeholder_snapshot : Disk → Disk × Result (Unit {0})
  unfolding final_cleaned prepare_directory
  create_placeholder_snapshot d =
      if p.exists
      then (d, ok tt)
      else placeholder_prepared d p.begin_placeholder (prepare_directory false p.making_placeholder)

-- `errors.Errorf("lazy parent recovery not supported …")`.
abbrev pub no_recovery : Error
no_recovery = failure 95

unfoldable pub recover_parent_from_containerd :
    (is_proxy : Bool) → Placeholder → Disk → Disk × Result (Unit {0})
unfolding create_placeholder_snapshot
recover_parent_from_containerd is_proxy p d =
    if is_proxy then create_placeholder_snapshot p d else (d, err no_recovery)

-- An error that is not followed by a recovery.
abbrev pub give_up : Error → Disk → Run String
give_up e d = (d, err e)

abbrev pub retried : (is_active : Bool) → Attempt → Error → Disk × Result (Unit {0}) → Run String
retried is_active b e (d, err x) = (d, err e)
retried is_active b e (d, ok u) = attempt b is_active give_up d

-- `is_missing` is `isMissingParentError`; `b` is what the second attempt meets.
unfoldable pub on_missing :
    (is_active is_proxy has_parent : Bool)
    → (is_missing : Error → Bool) → Placeholder
    → Attempt
    → Error
    → Disk
    → Run String
unfolding recover_parent_from_containerd attempt
on_missing is_active is_proxy has_parent is_missing p b e d =
    if has_parent && is_missing e
    then retried is_active b e (recover_parent_from_containerd is_proxy p d)
    else (d, err e)

unfoldable pub create_snapshot :
    (is_active is_proxy has_parent : Bool)
    → (is_missing : Error → Bool) → Placeholder
    → (a b : Attempt) → Disk
    → Run String
unfolding attempt on_missing
create_snapshot is_active is_proxy has_parent is_missing p a b d =
    attempt a is_active (on_missing is_active is_proxy has_parent is_missing p b) d
