-- ===== src/Snapshot/Removal/Transactions.antt =====
-- The transactions of `Commit` and `Remove`: when they are closed, and which directories go.
use nydus_snapshotter.Base.{
  ◌≡◌, refl, ◌⊎◌, ◌∙◌, String, Bool, true, false, not, ◌&&◌, List, [], ◌∷◌, ◌++◌, Error, Result, ok,
  err, arith, if◌then◌else◌, eq_iff,
}
use nydus_snapshotter.Snapshot.Removal.{
  Step, begin, rollback, commit, get_info, disk_usage, remove_key, commit_active, Run, clean, after,
  rolled_back, cleans, has_id, unused_dirs, take, commit_snapshot, finish_remove, listing,
  remove_snapshot,
}

-- A directory is to be cleaned_dirs exactly if it is among the entries and no snapshot has its id.
pub unused_dirs_lem :
    (ids dirs : List String) (d : String)
    → has_id d (unused_dirs ids dirs) ≡ (has_id d dirs && not (has_id d ids))
unfolding has_id unused_dirs
unused_dirs_lem ids [] d = ground arith
unused_dirs_lem ids (x ∷ xs) d = ground (arith, unused_dirs_lem ids xs d, eq_iff x d)

abbrev pub is_ok : Result (Unit {0}) → Bool
is_ok (ok u) = true
is_ok (err e) = false

module _ (answers : Step → Result (Unit {0})) where
  -- Whether a transaction is open after one more step.
  abbrev pub open_after : Bool → Step → Bool
  open_after o begin = is_ok (answers begin)
  open_after o rollback = false
  open_after o commit = if is_ok (answers commit) then false else o
  open_after o _ = o

  -- Whether a transaction is open after the steps.
  unfoldable pub is_open : Bool → List Step → Bool
  is_open o [] = o
  is_open o (s ∷ w) = is_open (open_after o s) w

  is_open-append : (o : Bool) (w v : List Step) → is_open o (w ++ v) ≡ is_open (is_open o w) v
  unfolding is_open
  is_open-append o [] v = refl
  is_open-append o (s ∷ w) v = is_open-append (open_after o s) w v

  rolled_back-closed :
      (r : Run)
      → (r.1 ≡ ok tt → is_open false r.0 ≡ false)
      → is_open false (rolled_back r).0 ≡ false
  unfolding is_open
  rolled_back-closed (w, ok u) h = h refl
  rolled_back-closed (w, err e) h = is_open-append false w (rollback ∷ [])

  committed :
      (r : Run)
      → (after (take answers commit) r).1 ≡ ok tt
      → (is_open false (after (take answers commit) r).0 ≡ false) × (answers commit ≡ ok tt)
  unfolding is_open
  committed (w, err e) h = absurd (ground arith)
  committed (w, ok u) h = (is_open-append false w (commit ∷ []) ∙ ground (arith, h), h)

  body : String → String → List Step → Run
  body name key w = after (take answers commit) (
      after (take answers (commit_active key name))
        (after (take answers (disk_usage key)) (take answers (get_info key) w)))

  rolled_back-ok : (r : Run) → (rolled_back r).1 ≡ ok tt → r.1 ≡ ok tt
  rolled_back-ok (w, ok u) h = refl
  rolled_back-ok (w, err e) h = absurd (ground arith)

  begun :
      (k : List Step → Run) (a : Result (Unit {0})) (w : List Step)
      → answers begin ≡ a
      → (is_open false w ≡ is_ok a)
      → ((w : List Step) → is_open false (k w).0 ≡ false)
      → is_open false (after k (w, a)).0 ≡ false
  begun k (ok u) w e o h = h w
  begun k (err x) w e o h = o

  -- However its steps end, `Commit` leaves no transaction open, and it reports success only if the
  -- store's commit succeeded.
  pub commit_closes :
      (name key : String)
      → (is_open false (commit_snapshot answers name key []).0 ≡ false)
        × ((commit_snapshot answers name key []).1 ≡ ok tt → answers commit ≡ ok tt)
  unfolding commit_snapshot body is_open
  commit_closes name key = (
    begun (λ w. rolled_back (body name key w)) (answers begin) (begin ∷ []) refl refl
        (λ w. rolled_back-closed (body name key w) (λ h. (committed _ h).0)),
    ended (answers begin),
  )
    where
      ended :
          (a : Result (Unit {0}))
          → (after (λ w. rolled_back (body name key w)) (begin ∷ [], a)).1 ≡ ok tt
          → answers commit ≡ ok tt
      ended (ok u) h = (committed _ (rolled_back-ok (body name key (begin ∷ [])) h)).1
      ended (err e) h = absurd (ground arith)

  cleans-open : (o : Bool) (dirs : List String) → is_open o (cleans dirs) ≡ o
  unfolding is_open
  cleans-open o [] = refl
  cleans-open o (d ∷ ds) = cleans-open o ds

  finish_remove-closed :
      (dirs : List String) (r : Run)
      → answers commit ≡ ok tt
      → is_open false (finish_remove answers dirs r).0 ≡ false
  unfolding finish_remove is_open
  finish_remove-closed dirs (w, err e) h = is_open-append false w (rollback ∷ [])
  finish_remove-closed dirs (w, ok u) h =
      is_open-append false w (commit ∷ cleans dirs)
      ∙ cleans-open (open_after (is_open false w) commit) dirs
      ∙ ground (arith, h)

  -- Where the store's commit would succeed, `Remove` leaves no transaction open, however its other
  -- steps end.
  pub remove_closes :
      (sync_remove : Bool) (ids entries : List String) (key : String)
      → answers commit ≡ ok tt
      → is_open false (remove_snapshot answers sync_remove ids entries key []).0 ≡ false
  unfolding remove_snapshot is_open
  remove_closes sync_remove ids entries key h =
      begun
        (λ w. finish_remove answers (if sync_remove then unused_dirs ids entries else []) (
          after (listing answers sync_remove)
            (after (take answers (remove_key key)) (take answers (get_info key) w))))
        (answers begin) (begin ∷ []) refl refl
        (λ w.
          finish_remove-closed (if sync_remove then unused_dirs ids entries else [])
            (after (listing answers sync_remove)
              (after (take answers (remove_key key)) (take answers (get_info key) w)))
            h)

  dirs_of : Step → List String
  dirs_of (clean d) = d ∷ []
  dirs_of _ = []

  -- The directories that are cleaned_dirs.
  pub cleaned_dirs : List Step → List String
  unfolding dirs_of
  cleaned_dirs [] = []
  cleaned_dirs (s ∷ w) = dirs_of s ++ cleaned_dirs w

  -- An error before the commit rolls back and cleans nothing; else the commit's answer is the result,
  -- the directories are cleaned_dirs, and the transaction stays open exactly if the commit fails.
  abbrev pub Removes : List String → Run → Type 0
  Removes dirs (w, r) =
      ((e : Error) × (r ≡ err e) × (cleaned_dirs w ≡ []) × (is_open false w ≡ false))
      ⊎ ((r ≡ answers commit)
          × (cleaned_dirs w ≡ dirs)
          × (is_open false w ≡ not (is_ok (answers commit))))
