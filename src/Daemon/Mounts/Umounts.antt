-- ===== src/Daemon/Mounts/Umounts.antt =====
-- pkg/daemon/daemon.go: unmounting every instance of a shared fusedev daemon.
use nydus_snapshotter.Base.{
  ◌≡◌, refl, ap, sym, ◌∙◌, String, true, false, List, [], ◌∷◌, ◌++◌, Error, Result, ok, err, arith,
}
use nydus_snapshotter.Daemon.{Rafs, Daemon, fusedev}
use nydus_snapshotter.Daemon.Mounts.{
  Call, umount, World, next, request, client, send_states, umount_by, shared_umount, umount_each,
}

-- The unmounts of instances, in their order.
abbrev pub umounts_of : List Rafs → List Call
umounts_of [] = []
umounts_of (r ∷ rs) = umount r.snapshot_id ∷ umounts_of rs

-- A fusedev daemon with a client and no supervisor.
abbrev pub IsConnected : Daemon → Type 0
IsConnected d = (d.states.fs_driver ≡ fusedev) × (d.has_client ≡ true) × (d.has_supervisor ≡ false)

append-nil : {A : Type 0} (xs : List A) → (xs ++ []) ≡ xs
append-nil [] = refl
append-nil (x ∷ xs) = ap (◌∷◌ x) (append-nil xs)

append-cons :
    {A : Type 0} (xs : List A) (y : A) (ys : List A) → ((xs ++ y ∷ []) ++ ys) ≡ (xs ++ y ∷ ys)
append-cons [] y ys = refl
append-cons (x ∷ xs) y ys = ap (◌∷◌ x) (append-cons xs y ys)

module _ (answers : Call → Result (Unit {0})) (domain : String) (fscache_id : String → String) where
  shared_umount_lem :
      (r : Rafs) (w : World)
      → IsConnected w.daemon
      → shared_umount answers domain fscache_id r w ≡ (
        record w { calls = w.calls ++ umount r.snapshot_id ∷ [] },
        answers (umount r.snapshot_id),
      )
  unfolding shared_umount umount_by client request send_states
  shared_umount_lem r w (d, c, s) = ground (arith, d, c, s)

  -- These instances can be unmounted.
  abbrev pub Unmountable : List Rafs → Type 0
  Unmountable [] = Unit {0}
  Unmountable (r ∷ rs) = (answers (umount r.snapshot_id) ≡ ok tt) × Unmountable rs

  -- On a connected fusedev daemon without a supervisor, the instances of a list are unmounted in
  -- order: all of them where each can be, and else up to the first that cannot, whose error is the
  -- result; nothing else is asked of nydusd.
  pub umount_each_lem :
      (before after : List Rafs) (r : Rafs) (w : World) (e : Error)
      → IsConnected w.daemon
      → Unmountable before
      → (umount_each answers domain fscache_id before w
          ≡ (record w { calls = w.calls ++ umounts_of before }, ok tt))
        × (answers (umount r.snapshot_id) ≡ err e
            → umount_each answers domain fscache_id (before ++ r ∷ after) w
              ≡ (record w { calls = w.calls ++ umounts_of (before ++ r ∷ []) }, err e))
  unfolding umount_each
  umount_each_lem [] after r w e c h = (
    ap (λ l. (record w { calls = l }, ok tt)) (sym (append-nil w.calls)),
    λ bad.
        ap (next (λ _. umount_each answers domain fscache_id after)) (shared_umount_lem r w c)
        ∙ ap
            (λ a.
              next (λ _. umount_each answers domain fscache_id after)
                (record w { calls = w.calls ++ umount r.snapshot_id ∷ [] }, a))
            bad,
  )
  umount_each_lem (q ∷ qs) after r w e c (good, h) =
      let w' = record w { calls = w.calls ++ umount q.snapshot_id ∷ [] } in
      let (all, stop) = umount_each_lem qs after r w' e c h in
      (
        ap (next (λ _. umount_each answers domain fscache_id qs)) (shared_umount_lem q w c)
            ∙ ap (λ a. next (λ _. umount_each answers domain fscache_id qs) (w', a)) good
            ∙ all
            ∙ ap (λ l. (record w { calls = l }, ok tt))
                (append-cons w.calls (umount q.snapshot_id) (umounts_of qs)),
        λ bad.
            ap (next (λ _. umount_each answers domain fscache_id (qs ++ r ∷ after)))
              (shared_umount_lem q w c)
            ∙ ap (λ a. next (λ _. umount_each answers domain fscache_id (qs ++ r ∷ after)) (w', a))
                good
            ∙ stop bad
            ∙ ap (λ l. (record w { calls = l }, err e))
                (append-cons w.calls (umount q.snapshot_id) (umounts_of (qs ++ r ∷ []))),
      )
