-- ===== src/Snapshot/Process/Skip.antt =====
-- snapshot/process.go and snapshot/snapshot.go: the data layer of a nydus image, which `Prepare`
-- commits at once.
use nydus_snapshotter.Base.{
  ◌≡◌, refl, true, false, String, List, [], ◌∷◌, ◌++◌, Result, ok, err, Error, arith, ap, ◌∙◌,
  already_exists, is_already_exists,
}
use nydus_snapshotter.Label.{
  Labels, has, is_nydus_meta_layer, is_nydus_data_layer, target_snapshot_ref,
}
use nydus_snapshotter.Snapshot.{Snapshot, kind_active, is_proxy}
use nydus_snapshotter.Snapshot.Overlay.{Mount}
use nydus_snapshotter.Snapshot.Process.{
  Call, commit, create, Act, next, Backend, call, skip_handler, ◌>>=◌, pure, choose_layer,
  choose_processor, process, finish, commit_answer, create_snapshot, prepare, text_of,
}

-- What the answer to a commit comes to.
answered :
    (w : List Call) (a : Result (Unit {0}))
    → ((commit_answer [] (w, a)).0 ≡ w)
      × (a ≡ ok tt → (commit_answer [] (w, a)).1 ≡ err already_exists)
      × (a ≡ err already_exists → (commit_answer [] (w, a)).1 ≡ err already_exists)
      × ((e : Error)
          → a ≡ err e
          → is_already_exists e ≡ false
          → (commit_answer [] (w, a)).1 ≡ ok [])
answered w (ok u) = (refl, λ h. refl, λ h. refl, λ e h n. absurd (ground arith))
answered w (err x) = (
  ground arith,
  λ h. absurd (ground arith),
  λ h. ground (arith, h),
  λ e h n. ground (arith, h, n),
)

-- The calls of `Prepare` for a layer that is skipped.
abbrev pub skipped_calls : String → String → Labels → List Call → List Call
skipped_calls key parent labels w =
    (w ++ create kind_active key parent ∷ [])
    ++ commit (text_of target_snapshot_ref labels) key labels ∷ []

module _ (b : Backend) where
  choose-data :
      (s : Snapshot) (key parent : String) (labels : Labels) (w : List Call)
      → has target_snapshot_ref labels ≡ true
      → is_proxy b.driver ≡ false
      → is_nydus_meta_layer labels ≡ false
      → is_nydus_data_layer labels ≡ true
      → choose_processor b s key parent labels w ≡ (w, ok (skip_handler, labels))
  unfolding choose_processor choose_layer
  choose-data s key parent labels w t p m d = ground (arith, t, p, m, d)

  abbrev skip_rest : String → Labels → String → Act (List Mount)
  skip_rest target labels key w = commit_answer [] (call b (commit target key labels) w)

  skip-finish :
      (target key : String) (labels : Labels) (s : Snapshot) (w : List Call)
      → (process b skip_handler s key labels >>= finish b target labels key) w
        ≡ skip_rest target labels key w
  unfolding process finish
  skip-finish target key labels s w = refl

  prepare-data :
      (key parent : String) (labels : Labels) (w : List Call)
      → has target_snapshot_ref labels ≡ true
      → is_proxy b.driver ≡ false
      → is_nydus_meta_layer labels ≡ false
      → is_nydus_data_layer labels ≡ true
      → b.answers w (create kind_active key parent) ≡ ok tt
      → prepare b key parent labels w
        ≡ skip_rest
            (text_of target_snapshot_ref labels)
            labels
            key
            (w ++ create kind_active key parent ∷ [])
  unfolding prepare create_snapshot call
  prepare-data key parent labels w t p m d c =
      ap
        (λ r.
          next
            (λ s. choose_processor b s key parent labels >>= λ (h, commit_labels).
              process b h s key commit_labels
              >>= finish b (text_of target_snapshot_ref labels) commit_labels key)
            (next (λ _. pure (b.created w (create kind_active key parent)))
              (w ++ create kind_active key parent ∷ [], r)))
        c
      ∙ ap
          (next (λ (h, commit_labels).
            process b h (b.created w (create kind_active key parent)) key commit_labels
            >>= finish b (text_of target_snapshot_ref labels) commit_labels key))
          (choose-data (b.created w (create kind_active key parent)) key parent labels
            (w ++ create kind_active key parent ∷ []) t p m d)
      ∙ skip-finish (text_of target_snapshot_ref labels) key labels
          (b.created w (create kind_active key parent)) (w ++ create kind_active key parent ∷ [])

  -- For a nydus data layer, outside proxy mode, `Prepare` creates a snapshot and commits it at once,
  -- under the name that its labels give. It reports `ErrAlreadyExists`, which tells containerd to
  -- skip the layer, exactly where the commit succeeds or reports that itself; any other error of the
  -- commit is lost: `Prepare` succeeds without mounts.
  pub prepare_data_lem :
      (key parent : String) (labels : Labels) (w : List Call)
      → has target_snapshot_ref labels ≡ true
      → is_proxy b.driver ≡ false
      → is_nydus_meta_layer labels ≡ false
      → is_nydus_data_layer labels ≡ true
      → b.answers w (create kind_active key parent) ≡ ok tt
      → let r = prepare b key parent labels w in
        let a =
          b.answers
            (w ++ create kind_active key parent ∷ [])
            (commit (text_of target_snapshot_ref labels) key labels) in
        (r.0 ≡ skipped_calls key parent labels w)
        × (a ≡ ok tt → r.1 ≡ err already_exists)
        × (a ≡ err already_exists → r.1 ≡ err already_exists)
        × ((e : Error) → a ≡ err e → is_already_exists e ≡ false → r.1 ≡ ok [])
  unfolding call
  prepare_data_lem key parent labels w t p m d c =
      let e = prepare-data key parent labels w t p m d c in
      let (log, fine, exists, lost) = answered (skipped_calls key parent labels w) (
        b.answers (w ++ create kind_active key parent ∷ [])
          (commit (text_of target_snapshot_ref labels) key labels)) in
      (
        ap (λ r. r.0) e ∙ log,
        λ h. ap (λ r. r.1) e ∙ fine h,
        λ h. ap (λ r. r.1) e ∙ exists h,
        λ x h n. ap (λ r. r.1) e ∙ lost x h n,
      )
