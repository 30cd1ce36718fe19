-- ===== src/Snapshot/Overlay/Remote.antt =====
-- The mounts of a snapshot on nydus layers and of a snapshot in proxy mode: what they let a
-- container write, and the stack of directories that they show.
use nydus_snapshotter.Base.{
  ◌||◌, ◌≡◌, ◌≢◌, refl, ap, ◌∙◌, String, Bool, true, false, Option, none, some, List, [], ◌∷◌, ◌++◌,
  map, Error, Result, ok, err, ◌>>=◌, if◌then◌else◌, eq_iff, eq_refl, arith, All,
}
use mathlib.Core.Path.{subst}
use nydus_snapshotter.Label.{Labels}
use nydus_snapshotter.Snapshot.{
  Snapshot, Kind, kind_view, kind_active, kind_unknown, kind_committed,
}
use nydus_snapshotter.Snapshot.Overlay.{
  Directory, upper_path, snapshots_root, MountOption, volume, Mount, Settings, Instance,
  nydus_overlay_mount, volatile_options, lower_path, parents_above, with_volumes,
  mount_with_kata_volume, kata_mounts, remote_mount_with_extra_options, finish_remote, lower_layers,
  remote_options, mount_remote, proxy_upper, proxy_lower, mount_proxy, proxy_options, tarfs_options,
}
use nydus_snapshotter.Snapshot.Overlay.Stack.{
  uppers, lowers, written, shown, may_write, append-nil, uppers-append, lowers-append, IsOverlayOf,
  overlay-IsOverlayOf, volumes-IsOverlayOf, with_volumes-IsOverlayOf, volatile-silent,
}

ok-eq : {A : Type 0} {a b : A} → Result.ok a ≡ ok b → a ≡ b
ok-eq h = ground arith

not-ok : {A : Type 0} {e : Error} {b : A} → (P : Type 0) → Result.err e ≡ ok b → P
not-ok P h = absurd (ground arith)

if-cases : {A : Type 0} (b : Bool) (P : A → Type 0) {x y : A} → P x → P y → P (if b then x else y)
if-cases true P px py = px
if-cases false P px py = py

module _ (o : Settings) where
  extra-IsOverlayOf :
      (opt : Result String) (xs : List MountOption) (ms : List Mount)
      → (opt >>= λ v. ok (nydus_overlay_mount (xs ++ volume v ∷ []))) ≡ ok ms
      → IsOverlayOf xs ms
  extra-IsOverlayOf (ok v) xs ms h =
      subst (IsOverlayOf xs) (ok-eq h) (volumes-IsOverlayOf xs (v ∷ []))
  extra-IsOverlayOf (err e) xs ms h = not-ok (IsOverlayOf xs ms) h

  two-IsOverlayOf :
      (a b : Result (List String)) (xs : List MountOption) (ms : List Mount)
      → (a >>= λ first. b >>= λ second. ok (with_volumes o xs (first ++ second))) ≡ ok ms
      → IsOverlayOf xs ms
  two-IsOverlayOf (ok v) (ok w) xs ms h =
      subst (IsOverlayOf xs) (ok-eq h) (with_volumes-IsOverlayOf o xs (v ++ w))
  two-IsOverlayOf (ok v) (err e) xs ms h = not-ok (IsOverlayOf xs ms) h
  two-IsOverlayOf (err e) b xs ms h = not-ok (IsOverlayOf xs ms) h

  kata-IsOverlayOf :
      (r : Option Instance) (key : String) (xs : List MountOption) (ms : List Mount)
      → kata_mounts o r xs key ≡ ok ms
      → IsOverlayOf xs ms
  unfolding kata_mounts
  kata-IsOverlayOf none key xs ms h = not-ok (IsOverlayOf xs ms) h
  kata-IsOverlayOf (some r) key xs ms h =
      two-IsOverlayOf (proxy_options o r) (tarfs_options o r key) xs ms h

  finish-IsOverlayOf :
      (s_id id key : String) (xs : List MountOption) (ms : List Mount)
      → finish_remote o s_id id key xs ≡ ok ms
      → IsOverlayOf xs ms
  unfolding finish_remote mount_with_kata_volume remote_mount_with_extra_options
  finish-IsOverlayOf s_id id key xs ms =
      if-cases (o.enable_kata_volume) (λ r. r ≡ ok ms → IsOverlayOf xs ms)
        (kata-IsOverlayOf (o.instance_of id) key xs ms)
        (if-cases (o.enable_nydus_overlayfs || o.daemon_mode_is_none)
          (λ r. r ≡ ok ms → IsOverlayOf xs ms) (extra-IsOverlayOf (o.extra_option s_id id) xs ms)
          (λ h. subst (IsOverlayOf xs) (ok-eq h) (overlay-IsOverlayOf xs)))

  abbrev pub own_lower : Kind → String → List Directory
  unfolding lower_path
  own_lower kind_view id = lower_path o id ∷ []
  own_lower _ id = []

  remote_uppers :
      (kind : Kind) (s : Snapshot) (ds : List Directory)
      → uppers (remote_options o kind s ds) ≡ may_write kind s.id
  unfolding remote_options uppers
  remote_uppers kind_active s ds = refl
  remote_uppers kind_view s ds = refl
  remote_uppers kind_unknown s ds = refl
  remote_uppers kind_committed s ds = refl

  remote_lowers :
      (kind : Kind) (s : Snapshot) (ds : List Directory)
      → lowers (remote_options o kind s ds) ≡ (ds ++ own_lower kind s.id)
  unfolding remote_options lowers
  remote_lowers kind_active s ds = refl
  remote_lowers kind_view s ds = append-nil (ds ++ lower_path o s.id ∷ [])
  remote_lowers kind_unknown s ds = refl
  remote_lowers kind_committed s ds = refl

  parents_above_lem :
      (id : String) (pre post : List String)
      → All (λ p. p ≢ id) pre
      → parents_above o id (pre ++ id ∷ post) ≡ pre
  unfolding parents_above
  parents_above_lem id [] post h = ground (arith, eq_refl id)
  parents_above_lem id (p ∷ pre) post (n, h) =
      ground (arith, n, eq_iff p id, parents_above_lem id pre post h)

  -- Mounts on nydus layers are written through to the own directory of an active snapshot only.
  pub mount_remote-written :
      (labels : Labels) (s : Snapshot) (id key : String) (ms : List Mount)
      → mount_remote o labels s id key ≡ ok ms
      → written ms ≡ may_write s.kind s.id
  unfolding mount_remote IsOverlayOf
  mount_remote-written labels s id key ms h =
      let rest = remote_options o s.kind s (lower_layers o s id) in
      (finish-IsOverlayOf s.id id key (volatile_options o labels ++ rest) ms h).0
      ∙ uppers-append (volatile_options o labels) rest
      ∙ ap (λ u. u ++ uppers rest) (volatile-silent o labels).0
      ∙ remote_uppers s.kind s (lower_layers o s id)

  layers_lem :
      (s : Snapshot) (id : String) (above below : List String)
      → (o.referrer_detect || o.index_detect) ≡ true
      → s.parent_ids ≡ (above ++ id ∷ below)
      → All (λ p. p ≢ id) above
      → lower_layers o s id ≡ (map upper_path above ++ lower_path o id ∷ [])
  unfolding lower_layers
  layers_lem s id above below on split fresh =
      ap
        (λ b.
          (if b then map upper_path (parents_above o id s.parent_ids) else [])
          ++ lower_path o id ∷ [])
        on
      ∙ ap (λ u. map upper_path (parents_above o id u) ++ lower_path o id ∷ []) split
      ∙ ap (λ u. map upper_path u ++ lower_path o id ∷ []) (parents_above_lem id above below fresh)

  -- When index or referrer detection is on, and the nydus layer `id` is among the parents of the
  -- snapshot, with `above` the parents before it: mounts that are handed out are written through to
  -- the snapshot's own directory if it is active, and to nothing otherwise; and they show that
  -- directory, then those of the parents above the nydus layer in their order, then the nydus
  -- layer, and for a view its own lower path. This holds of a plain overlay, of Kata volumes and of
  -- extra options alike.
  pub mount_remote_lem :
      (labels : Labels) (s : Snapshot) (id key : String) (above below : List String)
      (ms : List Mount)
      → (o.referrer_detect || o.index_detect) ≡ true
      → s.parent_ids ≡ (above ++ id ∷ below)
      → All (λ p. p ≢ id) above
      → mount_remote o labels s id key ≡ ok ms
      → (written ms ≡ may_write s.kind s.id)
        × (shown ms ≡ (
            may_write s.kind s.id
            ++ ((map upper_path above ++ lower_path o id ∷ []) ++ own_lower s.kind s.id)))
  unfolding mount_remote IsOverlayOf
  mount_remote_lem labels s id key above below ms on split fresh h =
      let rest = remote_options o s.kind s (lower_layers o s id) in
      let opts = volatile_options o labels ++ rest in
      let (w, v) = finish-IsOverlayOf s.id id key opts ms h in
      let (quiet_up, quiet_low) = volatile-silent o labels in
      let up =
        uppers-append (volatile_options o labels) rest
        ∙ ap (λ u. u ++ uppers rest) quiet_up
        ∙ remote_uppers s.kind s (lower_layers o s id) in
      let low =
        lowers-append (volatile_options o labels) rest
        ∙ ap (λ u. u ++ lowers rest) quiet_low
        ∙ remote_lowers s.kind s (lower_layers o s id)
        ∙ ap (λ u. u ++ own_lower s.kind s.id) (layers_lem s id above below on split fresh) in
      (w ∙ up, v ∙ ap (λ u. u ++ lowers opts) up ∙ ap (◌++◌ (may_write s.kind s.id)) low)

  -- The directories under a snapshot in proxy mode: its parents', or the root of the snapshots.
  abbrev pub proxy_bottom : List String → List Directory
  proxy_bottom [] = snapshots_root ∷ []
  proxy_bottom (p ∷ ps) = map upper_path (p ∷ ps)

  proxy_parts :
      (kind : Kind) (id : String) (parents : List String)
      → (uppers (proxy_upper o kind id ++ proxy_lower o parents ∷ []) ≡ may_write kind id)
        × (lowers (proxy_upper o kind id ++ proxy_lower o parents ∷ []) ≡ proxy_bottom parents)
  unfolding proxy_lower uppers lowers
  proxy_parts kind_active id [] = (refl, refl)
  proxy_parts kind_active id (p ∷ ps) = (refl, append-nil (map upper_path (p ∷ ps)))
  proxy_parts kind_view id [] = (refl, refl)
  proxy_parts kind_view id (p ∷ ps) = (refl, append-nil (map upper_path (p ∷ ps)))
  proxy_parts kind_unknown id [] = (refl, refl)
  proxy_parts kind_unknown id (p ∷ ps) = (refl, append-nil (map upper_path (p ∷ ps)))
  proxy_parts kind_committed id [] = (refl, refl)
  proxy_parts kind_committed id (p ∷ ps) = (refl, append-nil (map upper_path (p ∷ ps)))

  guest-IsOverlayOf :
      (volumes : Result (List String)) (xs : List MountOption) (ms : List Mount)
      → (volumes >>= λ vs. ok (nydus_overlay_mount (xs ++ map volume vs))) ≡ ok ms
      → IsOverlayOf xs ms
  guest-IsOverlayOf (ok vs) xs ms h = subst (IsOverlayOf xs) (ok-eq h) (volumes-IsOverlayOf xs vs)
  guest-IsOverlayOf (err e) xs ms h = not-ok (IsOverlayOf xs ms) h

  -- Mounts in proxy mode that are handed out are written through to the snapshot's own directory if
  -- it is active, and to nothing otherwise; under that directory they show the parents' directories
  -- in their order, or the root of the snapshots if there is no parent.
  pub mount_proxy_lem :
      (s : Snapshot) (ms : List Mount)
      → mount_proxy o s ≡ ok ms
      → (written ms ≡ may_write s.kind s.id)
        × (shown ms ≡ (may_write s.kind s.id ++ proxy_bottom s.parent_ids))
  unfolding mount_proxy IsOverlayOf
  mount_proxy_lem s ms h =
      let opts = proxy_upper o s.kind s.id ++ proxy_lower o s.parent_ids ∷ [] in
      let (w, v) = guest-IsOverlayOf (o.proxy_volume []) opts ms h in
      let (up, low) = proxy_parts s.kind s.id s.parent_ids in
      (w ∙ up, v ∙ ap (λ u. u ++ lowers opts) up ∙ ap (◌++◌ (may_write s.kind s.id)) low)
