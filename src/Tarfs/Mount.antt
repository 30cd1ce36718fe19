-- ===== src/Tarfs/Mount.antt =====
-- pkg/tarfs/tarfs.go: `MountTarErofs`. Nothing else happens to the layers while it runs; the image's
-- directory, paths and the builder's inspection are parameters.
use nydus_snapshotter.Base.{
  ◌==◌, String, Bool, Option, none, some, List, [], ◌∷◌, ◌++◌, Error, failure, Result, ok, err,
  if◌then◌else◌,
}
use nydus_snapshotter.Base.Dict.{lookup}
use nydus_snapshotter.Label.{Labels, nydus_tarfs_layer}
use nydus_snapshotter.Daemon.{Rafs, add_annotation}
use nydus_snapshotter.Tarfs.{
  Layer, State, is_ready, no_snapshot, not_ready, Wait, sleeping, woken, wait_layer_ready,
}
use nydus_snapshotter.Tarfs.Devices.{Call, attach_device, make_dir, mount_erofs, Answers, stored}
use nydus_snapshotter.Tarfs.Merge.{backwards}
use nydus_snapshotter.Tarfs.Export.{nydus_image_block_info, nydus_layer_block_info}

-- `mountTarfsOnHost`, the directories "fs" and "mnt" of the snapshot, the merged bootstrap's path, the
-- builder's inspection of it, whether that names a blob, and the joining of devices.
pub record Image : Type 0 where
  pub on_host : Bool
  pub upper_dir : String
  pub mount_point : String
  pub bootstrap : String
  pub inspected : Result (Unit {0})
  pub names_blob : String → Bool
  pub join_devices : List String → String

-- The calls, the layers, the instance and the result.
pub record Mounted : Type 0 where
  pub calls : List Call
  pub state : State
  pub object : Rafs
  pub result : Wait

unfoldable pub copied : String → Option String → Rafs → Rafs
unfolding add_annotation
copied key none r = r
copied key (some v) r = add_annotation key v r

unfoldable pub copy_tarfs_annotations : Labels → Rafs → Rafs
unfolding copied
copy_tarfs_annotations labels r =
    copied nydus_layer_block_info (lookup nydus_layer_block_info labels) (
      copied nydus_image_block_info (lookup nydus_image_block_info labels)
        (copied nydus_tarfs_layer (lookup nydus_tarfs_layer labels) r))

abbrev pub set_mountpoint : String → Rafs → Rafs
set_mountpoint path r = record r { mountpoint = path }

abbrev pub halted : Option Error → Wait
halted none = sleeping
halted (some e) = woken (err e)

-- A run over the parents: stopped, asleep (`none`) or with an error, or with the devices so far.
pub data Walk : Type 0 where
  stopped : List Call → State → Option Error → Walk
  walked : List Call → State → (devices : List String) → Walk

abbrev pub attached :
    (String → Layer → Layer)
    → String
    → Layer
    → List Call
    → State
    → List String
    → (path : String) → Result String
    → Walk
attached put id l w s devices path (err e) = stopped (w ++ attach_device path ∷ []) s (some e)
attached put id l w s devices path (ok dev) =
    walked (w ++ attach_device path ∷ []) (stored id (put dev l) s) (devices ++ dev ∷ [])

abbrev pub with_data : String → Layer → Layer
with_data dev l = record l { data_device = some dev }

module _ (a : Answers) (im : Image) where
  -- The device of a ready layer whose blob the image names; it is attached once.
  abbrev pub data_of : String → List Call → State → List String → Layer → Option String → Walk
  data_of id w s devices l (some dev) = walked w s (devices ++ dev ∷ [])
  data_of id w s devices l none =
      attached with_data id l w s devices l.blob_tar_file (a w (attach_device l.blob_tar_file))

  abbrev pub parent_of : String → List Call → State → List String → Option Layer → Walk
  parent_of id w s devices none = stopped w s (some no_snapshot)
  parent_of id w s devices (some l) =
      if is_ready l.status
      then (if im.names_blob l.blob_id
          then data_of id w s devices l l.data_device
          else walked w s devices)
      else stopped w s (some not_ready)

  abbrev pub after_wait : String → List Call → State → List String → Wait → Walk
  after_wait id w s devices sleeping = stopped w s none
  after_wait id w s devices (woken (err e)) = stopped w s (some e)
  after_wait id w s devices (woken (ok u)) = parent_of id w s devices (lookup id s.layers)

  abbrev pub on_walked : (List Call → State → List String → Walk) → Walk → Walk
  on_walked k (stopped w s r) = stopped w s r
  on_walked k (walked w s devices) = k w s devices

  -- The parents, from the lowest to the top one.
  unfoldable pub walk : List String → List Call → State → List String → Walk
  walk [] w s devices = walked w s devices
  walk (id ∷ ids) w s devices =
      on_walked (walk ids) (after_wait id w s devices (wait_layer_ready id s))

  abbrev pub failed_with : List Call → State → Rafs → Error → Mounted
  failed_with w s r e = record { calls = w; state = s; object = r; result = woken (err e) }

  abbrev pub mounted_by :
      String
      → Layer
      → List Call
      → State
      → Rafs
      → (dev : String) → (options : String) → Result String
      → Mounted
  mounted_by id l w s r dev options (err e) =
      failed_with (w ++ mount_erofs dev im.mount_point options ∷ []) s r e
  mounted_by id l w s r dev options (ok x) = record {
    calls = w ++ mount_erofs dev im.mount_point options ∷ [];
    state = stored id (record l { mount_point = some im.mount_point }) s;
    object = set_mountpoint im.mount_point r;
    result = woken (ok tt);
  }

  abbrev pub dir_made :
      String
      → Layer
      → List Call
      → State
      → Rafs
      → (dev : String) → (options : String) → Result String
      → Mounted
  dir_made id l w s r dev options (err e) = failed_with (w ++ make_dir im.mount_point ∷ []) s r e
  dir_made id l w s r dev options (ok x) =
      mounted_by id l (w ++ make_dir im.mount_point ∷ []) s r dev options
        (a (w ++ make_dir im.mount_point ∷ []) (mount_erofs dev im.mount_point options))

  abbrev pub with_device :
      String → Layer → List Call → State → Rafs → (dev : String) → (options : String) → Mounted
  with_device id l w s r dev options =
      dir_made id l w s r dev options (a w (make_dir im.mount_point))

  abbrev pub meta_attached :
      String → Layer → List Call → State → Rafs → (options : String) → Result String → Mounted
  meta_attached id l w s r options (err e) =
      failed_with (w ++ attach_device im.bootstrap ∷ []) s r e
  meta_attached id l w s r options (ok dev) =
      with_device id (record l { meta_device = some dev }) (w ++ attach_device im.bootstrap ∷ [])
        (stored id (record l { meta_device = some dev }) s) r dev options

  abbrev pub meta_of :
      String → Layer → List Call → State → Rafs → (options : String) → Option String → Mounted
  meta_of id l w s r options (some dev) = with_device id l w s r dev options
  meta_of id l w s r options none =
      meta_attached id l w s r options (a w (attach_device im.bootstrap))

  -- `errors.Errorf("tarfs for snapshot %s has already been mounted at %s")`.
  abbrev pub mounted_elsewhere : Error
  mounted_elsewhere = failure 66

  -- A layer that is mounted at this very place is left alone, and so is the instance.
  abbrev pub unless_mounted :
      String → Layer → List Call → State → Rafs → (options : String) → Option String → Mounted
  unless_mounted id l w s r options none = meta_of id l w s r options l.meta_device
  unless_mounted id l w s r options (some m) =
      if m == im.mount_point
      then record { calls = w; state = s; object = r; result = woken (ok tt) }
      else failed_with w s r mounted_elsewhere

  abbrev pub own_layer :
      String → List Call → State → Rafs → (options : String) → Option Layer → Mounted
  own_layer id w s r options none = failed_with w s r no_snapshot
  own_layer id w s r options (some l) = unless_mounted id l w s r options l.mount_point

  abbrev pub after_walk : String → Rafs → Walk → Mounted
  after_walk id r (stopped w s v) = record { calls = w; state = s; object = r; result = halted v }
  after_walk id r (walked w s devices) =
      own_layer id w s r (im.join_devices devices) (lookup id s.layers)

  unfoldable pub inspected_by :
      String → (parents : List String) → State → Rafs → Result (Unit {0}) → Mounted
  unfolding walk
  inspected_by id parents s r (err e) = failed_with [] s r e
  inspected_by id parents s r (ok u) = after_walk id r (walk (backwards parents) [] s [])

  -- `errors.New("snapshot object for MountTarErofs() is nil")`.
  abbrev pub no_object : Error
  no_object = failure 67

  -- `none` is a nil snapshot, else its parents.
  unfoldable pub mount_tar_erofs : Labels → String → Option (List String) → State → Rafs → Mounted
  unfolding copy_tarfs_annotations inspected_by
  mount_tar_erofs labels id none s r = failed_with [] s r no_object
  mount_tar_erofs labels id (some parents) s r =
      if im.on_host
      then inspected_by id parents s (copy_tarfs_annotations labels r) im.inspected
      else record {
        calls = [];
        state = s;
        object = set_mountpoint im.upper_dir (copy_tarfs_annotations labels r);
        result = woken (ok tt);
      }
