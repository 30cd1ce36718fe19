-- ===== src/Snapshot/View/Written.antt =====
-- What the mounts that `View` and `Mounts` hand out let be written.
use nydus_snapshotter.Base.{
  ◌≡◌, refl, ap, sym, ◌∙◌, ◌⊎◌, inr, Bool, true, false, String, none, some, List, [], ◌∷◌, ◌++◌,
  Result, ok, err, arith, if◌then◌else◌,
}
use mathlib.Core.Path.{subst}
use nydus_snapshotter.Label.{Labels}
use nydus_snapshotter.Snapshot.{Snapshot, Kind, kind_view, kind_active, treat_as_proxy_driver}
use nydus_snapshotter.Snapshot.Overlay.{Mount, Directory, mount_proxy}
use nydus_snapshotter.Snapshot.Overlay.Stack.{written, may_write, mount_native_lem}
use nydus_snapshotter.Snapshot.Overlay.Remote.{mount_remote-written, mount_proxy_lem}
use nydus_snapshotter.Snapshot.Process.{
  Call, create, Act, next, ◌>>=◌, pure, Backend, call, create_snapshot,
}
use nydus_snapshotter.Snapshot.View.{
  Needed, ready_parent, view_tarfs, hand_out, view_created, view_needing, view_of, view, kind_needs,
  detect, mounts_of, mounts_needing, mounts_for, mounts,
}

-- Any mounts that a run gives let just these directories be written.
abbrev WritesOnly : List Directory → List Call × Result (List Mount) → Type 0
WritesOnly ds r = (ms : List Mount) → r.1 ≡ ok ms → written ms ≡ ds

next-WritesOnly :
    {A : Type 0} (ds : List Directory) (k : A → Act (List Mount)) (r : List Call × Result A)
    → ((a : A) (w : List Call) → r ≡ (w, ok a) → WritesOnly ds (k a w))
    → WritesOnly ds (next k r)
next-WritesOnly ds k (w, ok a) h = h a w refl
next-WritesOnly ds k (w, err e) h = λ ms q. absurd (ground arith)

ok-same : {A : Type 0} {a b : A} → Result.ok a ≡ ok b → a ≡ b
ok-same h = ground arith

module _ (b : Backend) where
  hand_out-written :
      (labels : Labels) (s : Snapshot) (key : String) (needed : Needed) (w : List Call)
      → (s.kind ≡ kind_active) ⊎ (s.kind ≡ kind_view)
      → WritesOnly (may_write s.kind s.id) (hand_out b labels s key needed w)
  unfolding hand_out
  hand_out-written labels s key none w k =
      λ ms h. ap written (sym (ok-same h)) ∙ (mount_native_lem (b.settings w) labels s k).0
  hand_out-written labels s key (some id) w k = mount_remote-written (b.settings w) labels s id key

  -- A created snapshot.
  create-created :
      (kind : Kind) (key parent : String) (w w' : List Call) (s : Snapshot)
      → create_snapshot b kind key parent w ≡ (w', ok s)
      → b.created w (create kind key parent) ≡ s
  unfolding create_snapshot call
  create-created kind key parent w w' s h = go (b.answers w (create kind key parent)) h
    where
      go :
          (a : Result (Unit {0}))
          → next
              (λ _. pure (b.created w (create kind key parent)))
              (w ++ create kind key parent ∷ [], a)
            ≡ (w', ok s)
          → b.created w (create kind key parent) ≡ s
      go (ok u) h = ok-same (ap (λ r. r.1) h)
      go (err e) h = absurd (ground arith)

  -- If the store creates views as views, the mounts of `View`, of whatever image and however the
  -- calls are answered, let nothing be written.
  pub view_lem :
      (key parent : String) (labels : Labels) (w : List Call) (ms : List Mount)
      → ((w' : List Call) → (b.created w' (create kind_view key parent)).kind ≡ kind_view)
      → (view b key parent labels w).1 ≡ ok ms
      → written ms ≡ []
  unfolding view view_of view_needing view_created
  view_lem key parent labels w ms kinds =
      next-WritesOnly [] (view_of b key parent labels) (w, (b.store w).get_info parent)
        (λ (pid, info) w1 _.
          next-WritesOnly [] (view_needing b key parent (pid, info) labels)
            (ready_parent b pid info.labels w1)
            (λ needed w2 _.
              next-WritesOnly [] (view_created b key (pid, info) labels needed)
                (create_snapshot b kind_view key parent w2)
                (λ s w3 made.
                  let k =
                    sym (ap (λ s. s.kind) (create-created kind_view key parent w2 w3 s made))
                    ∙ kinds w2 in
                  next-WritesOnly [] (hand_out b labels s key)
                    (view_tarfs b s.id pid info.labels needed w3)
                    (λ n w4 _ ms h.
                      hand_out-written labels s key n w4 (inr k) ms h
                      ∙ ap (λ k. may_write k s.id) k))))
        ms

  mounts_of-written :
      (labels : Labels) (key : String) (needed : Needed) (s : Snapshot) (w : List Call)
      → (s.kind ≡ kind_active) ⊎ (s.kind ≡ kind_view)
      → WritesOnly (may_write s.kind s.id) (mounts_of b labels key needed s w)
  unfolding mounts_of
  mounts_of-written labels key needed s w k = go (treat_as_proxy_driver b.driver labels)
    where
      go :
          (c : Bool)
          → WritesOnly
              (may_write s.kind s.id)
              (if c then (w, mount_proxy (b.settings w) s) else hand_out b labels s key needed w)
      go true = λ ms h. (mount_proxy_lem (b.settings w) s ms h).0
      go false = hand_out-written labels s key needed w k

  found_snapshot :
      (labels : Labels) (key : String) (needed : Needed) (w : List Call) (s' s : Snapshot)
      → (s.kind ≡ kind_active) ⊎ (s.kind ≡ kind_view)
      → s' ≡ s
      → WritesOnly (may_write s.kind s.id) (mounts_of b labels key needed s' w)
  found_snapshot labels key needed w s' s k e =
      subst (λ t. WritesOnly (may_write s.kind s.id) (mounts_of b labels key needed t w)) (sym e)
        (mounts_of-written labels key needed s w k)

  -- If the store has the active snapshot or the view `s` under the key, the mounts of `Mounts` let
  -- an active snapshot's own directory be written and nothing else, and of a view nothing at all.
  pub mounts_lem :
      (key : String) (w : List Call) (s : Snapshot) (ms : List Mount)
      → ((w' : List Call) → (b.store w').get_snapshot key ≡ ok s)
      → (s.kind ≡ kind_active) ⊎ (s.kind ≡ kind_view)
      → (mounts b key w).1 ≡ ok ms
      → written ms ≡ may_write s.kind s.id
  unfolding mounts mounts_for mounts_needing
  mounts_lem key w s ms stored k =
      next-WritesOnly (may_write s.kind s.id) (mounts_for b key) (w, (b.store w).get_info key)
        (λ (id, info) w1 _.
          next-WritesOnly (may_write s.kind s.id) (mounts_needing b key info)
            ((kind_needs b info.kind id info
                >>= detect b b.index_detect b.check_index key
                >>= detect b b.referrer_detect b.check_referrer key)
              w1)
            (λ needed w2 _.
              next-WritesOnly (may_write s.kind s.id) (mounts_of b info.labels key needed)
                (w2, (b.store w2).get_snapshot key)
                (λ s' w3 e ms h.
                  found_snapshot info.labels key needed w3 s' s k
                    (ok-same (sym (ap (λ r. r.1) e) ∙ stored w2)) ms h)))
        ms
