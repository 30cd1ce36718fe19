-- ===== src/Tarfs/Mounted.antt =====
-- Where a layer is mounted after `MountTarErofs`.
use nydus_snapshotter.Base.{
  ◌≡◌, refl, sym, ap, ◌∙◌, ◌==◌, eq_iff, ◌⊎◌, inl, inr, String, Bool, true, false, Option, none,
  some, List, [], ◌∷◌, ◌++◌, Result, ok, err, if◌then◌else◌, arith,
}
use mathlib.Core.Path.{subst}
use nydus_snapshotter.Base.Dict.{lookup, lookup-insert, lookup-insert_self}
use nydus_snapshotter.Label.{Labels, nydus_tarfs_layer}
use nydus_snapshotter.Daemon.{Rafs, add_annotation}
use nydus_snapshotter.Tarfs.{
  Layer, State, is_ready, not_ready, Wait, sleeping, woken, wait_layer_ready,
}
use nydus_snapshotter.Tarfs.Devices.{Call, attach_device, make_dir, mount_erofs, Answers, stored}
use nydus_snapshotter.Tarfs.Merge.{backwards}
use nydus_snapshotter.Tarfs.Export.{nydus_image_block_info, nydus_layer_block_info}
use nydus_snapshotter.Tarfs.Mount.{
  Image, Mounted, set_mountpoint, copied, copy_tarfs_annotations, Walk, stopped, walked, attached,
  with_data, data_of, parent_of, after_wait, on_walked, walk, failed_with, mounted_by, dir_made,
  meta_attached, meta_of, with_device, mounted_elsewhere, unless_mounted, own_layer, after_walk,
  inspected_by, mount_tar_erofs,
}

-- Where the layer under the id is mounted.
abbrev pub mount_of : Option Layer → Option String
mount_of none = none
mount_of (some l) = l.mount_point

abbrev pub place : String → State → Option String
place id s = mount_of (lookup id s.layers)

-- All layers stay where they are.
abbrev Stays : State → State → Type 0
Stays s t = (j : String) → place j t ≡ place j s

stored-Stays :
    (id : String) (l l' : Layer) (s : State)
    → lookup id s.layers ≡ some l
    → l'.mount_point ≡ l.mount_point
    → Stays s (stored id l' s)
stored-Stays id l l' s found e j =
    ap mount_of (lookup-insert id j l' s.layers) ∙ by_id (id == j) refl
  where
    by_id :
        (b : Bool) → (id == j) ≡ b → mount_of (if b then some l' else lookup j s.layers) ≡ place j s
    by_id false h = refl
    by_id true h =
        e ∙ sym (ap mount_of found) ∙ ap (λ k. place k s) (ground (arith, eq_iff id j, h))

abbrev walk_state : Walk → State
walk_state (stopped w s r) = s
walk_state (walked w s devices) = s

module _ (a : Answers) (im : Image) where
  attached-Stays :
      (id : String) (l : Layer) (w : List Call) (s : State) (devices : List String) (path : String)
      (r : Result String)
      → lookup id s.layers ≡ some l
      → Stays s (walk_state (attached with_data id l w s devices path r))
  attached-Stays id l w s devices path (err e) h j = refl
  attached-Stays id l w s devices path (ok dev) h j = stored-Stays id l (with_data dev l) s h refl j

  parent-Stays :
      (id : String) (w : List Call) (s : State) (devices : List String) (v : Wait)
      → Stays s (walk_state (after_wait a im id w s devices v))
  parent-Stays id w s devices sleeping j = refl
  parent-Stays id w s devices (woken (err e)) j = refl
  parent-Stays id w s devices (woken (ok u)) j = by_entry (lookup id s.layers) refl j
    where
      by_data :
          (l : Layer) (o : Option String)
          → lookup id s.layers ≡ some l
          → Stays s (walk_state (data_of a im id w s devices l o))
      by_data l (some dev) h j = refl
      by_data l none h j =
          attached-Stays id l w s devices l.blob_tar_file (a w (attach_device l.blob_tar_file)) h j

      by_tests :
          (l : Layer) (b c : Bool)
          → lookup id s.layers ≡ some l
          → Stays s (
              walk_state (
                if b
                then (if c then data_of a im id w s devices l l.data_device else walked w s devices)
                else stopped w s (some not_ready)))
      by_tests l false c h j = refl
      by_tests l true false h j = refl
      by_tests l true true h j = by_data l l.data_device h j

      by_entry :
          (o : Option Layer)
          → lookup id s.layers ≡ o
          → Stays s (walk_state (parent_of a im id w s devices o))
      by_entry none h j = refl
      by_entry (some l) h j = by_tests l (is_ready l.status) (im.names_blob l.blob_id) h j

  walk-Stays :
      (ids : List String) (w : List Call) (s : State) (devices : List String)
      → Stays s (walk_state (walk a im ids w s devices))
  unfolding walk
  walk-Stays [] w s devices j = refl
  walk-Stays (id ∷ ids) w s devices j =
      by_walk (after_wait a im id w s devices (wait_layer_ready id s))
        (parent-Stays id w s devices (wait_layer_ready id s)) (λ w' s' ds. walk-Stays ids w' s' ds)
        j
    where
      by_walk :
          (k : Walk)
          → Stays s (walk_state k)
          → ((w' : List Call) (s' : State) (ds : List String)
              → Stays s' (walk_state (walk a im ids w' s' ds)))
          → Stays s (walk_state (on_walked a im (walk a im ids) k))
      by_walk (stopped w' s' r) h ih j = h j
      by_walk (walked w' s' ds) h ih j = ih w' s' ds j ∙ h j

-- A success leaves the layer mounted at the image's place, and either the instance there too, or the
-- layer was there before and the instance is left without; else all layers stay where they are.
abbrev pub Mounts : Image → String → State → Rafs → Mounted → Type 0
Mounts im id s r m = elim m.result as (λ _. Type 0) [
  | woken (ok u) ↦
      (place id m.state ≡ some im.mount_point)
      × ((m.object.mountpoint ≡ im.mount_point)
          ⊎ ((place id s ≡ some im.mount_point) × (m.object.mountpoint ≡ r.mountpoint)))
  | woken (err e) ↦ (j : String) → place j m.state ≡ place j s
  | sleeping ↦ (j : String) → place j m.state ≡ place j s
]

module _ (a : Answers) (im : Image) (id : String) (s : State) (given : Rafs) where
  with_device-Mounts :
      (l : Layer) (w : List Call) (t : State) (r : Rafs) (dev options : String)
      → Stays s t
      → Mounts im id s given (with_device a im id l w t r dev options)
  with_device-Mounts l w t r dev options h = by_dir (a w (make_dir im.mount_point))
    where
      by_mount :
          (v : List Call) (x : Result String)
          → Mounts im id s given (mounted_by a im id l v t r dev options x)
      by_mount v (err e) = h
      by_mount v (ok x) = (
        ap mount_of
            (lookup-insert_self id (record l { mount_point = some im.mount_point }) t.layers),
        inl refl,
      )

      by_dir : (x : Result String) → Mounts im id s given (dir_made a im id l w t r dev options x)
      by_dir (err e) = h
      by_dir (ok x) =
          by_mount (w ++ make_dir im.mount_point ∷ [])
            (a (w ++ make_dir im.mount_point ∷ []) (mount_erofs dev im.mount_point options))

  meta-Mounts :
      (l : Layer) (w : List Call) (t : State) (r : Rafs) (options : String) (o : Option String)
      → lookup id t.layers ≡ some l
      → Stays s t
      → Mounts im id s given (meta_of a im id l w t r options o)
  meta-Mounts l w t r options (some dev) found h = with_device-Mounts l w t r dev options h
  meta-Mounts l w t r options none found h = by_attach (a w (attach_device im.bootstrap))
    where
      by_attach :
          (x : Result String) → Mounts im id s given (meta_attached a im id l w t r options x)
      by_attach (err e) = h
      by_attach (ok dev) =
          with_device-Mounts (record l { meta_device = some dev })
            (w ++ attach_device im.bootstrap ∷ [])
            (stored id (record l { meta_device = some dev }) t) r dev options
            (λ j. stored-Stays id l (record l { meta_device = some dev }) t found refl j ∙ h j)

  own-Mounts :
      (w : List Call) (t : State) (r : Rafs) (options : String) (o : Option Layer)
      → lookup id t.layers ≡ o
      → r.mountpoint ≡ given.mountpoint
      → Stays s t
      → Mounts im id s given (own_layer a im id w t r options o)
  own-Mounts w t r options none found e h = h
  own-Mounts w t r options (some l) found e h = by_place l.mount_point refl
    where
      by_same :
          (m : String) (b : Bool)
          → l.mount_point ≡ some m
          → (m == im.mount_point) ≡ b
          → Mounts im id s given (
              if b
              then record { calls = w; state = t; object = r; result = woken (ok tt) }
              else failed_with a im w t r (mounted_elsewhere a im))
      by_same m false p q = h
      by_same m true p q =
          let at : place id t ≡ some im.mount_point =
            ap mount_of found ∙ p ∙ ap some (ground (arith, q, eq_iff m im.mount_point)) in
          (at, inr (sym (h id) ∙ at, e))

      by_place :
          (o : Option String)
          → l.mount_point ≡ o
          → Mounts im id s given (unless_mounted a im id l w t r options o)
      by_place none p = meta-Mounts l w t r options l.meta_device found h
      by_place (some m) p = by_same m (m == im.mount_point) p refl

  after_walk-Mounts :
      (k : Walk) (r : Rafs)
      → r.mountpoint ≡ given.mountpoint
      → Stays s (walk_state k)
      → Mounts im id s given (after_walk a im id r k)
  after_walk-Mounts (walked w t devices) r e h =
      own-Mounts w t r (im.join_devices devices) (lookup id t.layers) refl e h
  after_walk-Mounts (stopped w t none) r e h = h
  after_walk-Mounts (stopped w t (some x)) r e h = h

inspected-Mounts :
    (a : Answers) (im : Image) (id : String) (s : State) (given : Rafs) (parents : List String)
    (r : Rafs) (x : Result (Unit {0}))
    → r.mountpoint ≡ given.mountpoint
    → Mounts im id s given (inspected_by a im id parents s r x)
unfolding inspected_by
inspected-Mounts a im id s given parents r (err e) same = λ j. refl
inspected-Mounts a im id s given parents r (ok u) same =
    after_walk-Mounts a im id s given (walk a im (backwards parents) [] s []) r same
      (walk-Stays a im (backwards parents) [] s [])

copied_mountpoint :
    (key : String) (o : Option String) (r : Rafs) → (copied key o r).mountpoint ≡ r.mountpoint
unfolding copied add_annotation
copied_mountpoint key none r = refl
copied_mountpoint key (some v) r = refl

copy-mountpoint :
    (labels : Labels) (r : Rafs) → (copy_tarfs_annotations labels r).mountpoint ≡ r.mountpoint
unfolding copy_tarfs_annotations
copy-mountpoint labels r =
    let first = copied nydus_tarfs_layer (lookup nydus_tarfs_layer labels) r in
    let second = copied nydus_image_block_info (lookup nydus_image_block_info labels) first in
    copied_mountpoint nydus_layer_block_info (lookup nydus_layer_block_info labels) second
    ∙ copied_mountpoint nydus_image_block_info (lookup nydus_image_block_info labels) first
    ∙ copied_mountpoint nydus_tarfs_layer (lookup nydus_tarfs_layer labels) r

-- Where tarfs is mounted on the host, a success leaves the layer mounted at the image's place, and
-- the instance has this place as its mountpoint, unless the layer was mounted there before: then
-- the instance keeps the mountpoint it came with. Without success no layer changes its place.
pub mount_tar_erofs_lem :
    (a : Answers) (im : Image) (labels : Labels) (id : String) (parents : Option (List String))
    (s : State) (r : Rafs)
    → im.on_host ≡ true
    → Mounts im id s r (mount_tar_erofs a im labels id parents s r)
unfolding mount_tar_erofs
mount_tar_erofs_lem a im labels id none s r host = λ j. refl
mount_tar_erofs_lem a im labels id (some parents) s r host =
    subst
      (λ b. Mounts im id s r (
        if b
        then inspected_by a im id parents s (copy_tarfs_annotations labels r) im.inspected
        else record {
          calls = [];
          state = s;
          object = set_mountpoint im.upper_dir (copy_tarfs_annotations labels r);
          result = woken (ok tt);
        }))
      (sym host) (by_inspection im.inspected)
  where
    by_inspection :
        (x : Result (Unit {0}))
        → Mounts im id s r (inspected_by a im id parents s (copy_tarfs_annotations labels r) x)
    by_inspection x =
        inspected-Mounts a im id s r parents (copy_tarfs_annotations labels r) x
          (copy-mountpoint labels r)
