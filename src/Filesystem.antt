-- ===== src/Filesystem.antt =====
-- pkg/filesystem/fs.go: mounting and unmounting the filesystem of a snapshot. The cache of all RAFS
-- instances is the state; what daemons, managers, files and the kernel do is a call, which the
-- environment answers by the calls made before. The calls made are recorded, oldest first.
pub mod Mount
pub mod Remount
pub mod Ready
mod Examples
use nydus_snapshotter.Base.{
  ◌==◌, ◌||◌, String, Bool, true, false, Option, none, some, List, [], ◌∷◌, ◌++◌, Error, failure,
  not_found, already_exists, is_already_exists, Result, ok, err, if◌then◌else◌, is_some,
}
use nydus_snapshotter.Base.Dict.{Dict, lookup, insert, remove}
use nydus_snapshotter.Label.{
  Labels, has, is_tarfs_data_layer, is_nydus_proxy_mode, cri_image_ref, cri_layer_digest,
  nydus_proxy_mode,
}
use nydus_snapshotter.Daemon.{
  Rafs, FsDriver, fusedev, fscache, blockdev, nodev, proxy, no_driver, other_driver, get_fs_driver,
  DaemonMode, multiple, dedicated, shared, none_mode, invalid_mode, unset_mode, add_annotation,
}

pub data Call : Type 0 where
  get_manager get_shared_daemon : FsDriver → Call
  make_dir find_bootstrap wait_bootstrap decide_mountpoint create_daemon : String → Call
  supplement_config dump_config add_to_daemon verify : String → Call
  mount_remote mount_tarfs wait_running persist : String → Call
  get_daemon drop_from_daemon unpersist umount_instance destroy_unused umount_tarfs : String → Call

pub record World : Type 0 where
  pub cache : Dict Rafs
  pub calls : List Call

abbrev pub Act : Type 0
Act = World → World × Result (Unit {0})

-- The configuration, the instance that `NewRafs` makes, `path.Join`, the mountpoint of the daemon
-- obtained by some calls, and what MountTarErofs then does to the instance.
pub record Config : Type 0 where
  pub driver : FsDriver
  pub mode : DaemonMode
  pub new_rafs : (snapshot_id image_id : String) → FsDriver → Rafs
  pub path_join : String → String → String
  pub host_mountpoint : List Call → String
  pub tarfs_mounted : List Call → Rafs → Rafs
  pub answers : List Call → Call → Result (Unit {0})

abbrev pub next : Act → World × Result (Unit {0}) → World × Result (Unit {0})
next k (w, ok u) = k w
next k (w, err e) = (w, err e)

infixl 5 ◌>>◌
abbrev pub ◌>>◌ : Act → Act → Act
◌>>◌ m k w = next k (m w)

abbrev pub done : Act
done w = (w, ok tt)

abbrev pub fail : Error → Act
fail e w = (w, err e)

-- Errors that an operation accepts.
abbrev pub tolerated : (Error → Bool) → World × Result (Unit {0}) → World × Result (Unit {0})
tolerated fine (w, ok u) = (w, ok tt)
tolerated fine (w, err e) = if fine e then (w, ok tt) else (w, err e)

abbrev pub tolerating : (Error → Bool) → Act → Act
tolerating fine m w = tolerated fine (m w)

-- `errors.Errorf("unknown filesystem driver …")`.
abbrev pub unknown_driver : Error
unknown_driver = failure 40

abbrev pub any_error : Error → Bool
any_error e = true

abbrev pub stargz_label : String
stargz_label = "containerd.io/snapshot/remote/stargz.reference"

-- Changes of the snapshot's instance in the cache.
abbrev pub changed : (Rafs → Rafs) → String → Dict Rafs → Dict Rafs
changed f id cache = elim (lookup id cache) [ none ↦ cache | some r ↦ insert id (f r) cache ]

abbrev pub image_of : Labels → Option String
image_of labels = elim (lookup cri_image_ref labels) [
  | some image ↦ some image
  | none ↦ lookup stargz_label labels
]

module _ (c : Config) where
  pub call : Call → Act
  call q w = (record w { calls = w.calls ++ q ∷ [] }, c.answers w.calls q)

  -- A step that cannot fail.
  pub note : Call → Act
  note q w = (record w { calls = w.calls ++ q ∷ [] }, ok tt)

  abbrev pub driver_of : Labels → FsDriver
  unfolding is_tarfs_data_layer
  driver_of labels = if is_tarfs_data_layer labels then blockdev else c.driver

  is_shared : DaemonMode → Bool
  is_shared shared = true
  is_shared _ = false

  pub uses_shared : FsDriver → Bool
  unfolding is_shared
  uses_shared fscache = true
  uses_shared fusedev = is_shared c.mode
  uses_shared _ = false

  -- The daemon of the instance. `createDaemon` makes a new random id; the nil daemon that would come
  -- with an id that exists is not modelled.
  pub obtain_daemon : FsDriver → String → Act
  unfolding call uses_shared
  obtain_daemon d id =
      if uses_shared d
      then call (get_shared_daemon d)
      else call (decide_mountpoint id) >> tolerating is_already_exists (call (create_daemon id))

  -- Copying the metadata of blobs, whose error is only logged, is left out.
  pub attach : FsDriver → String → Act
  unfolding call note obtain_daemon
  attach d id =
      call (find_bootstrap id)
      >> call (wait_bootstrap id)
      >> obtain_daemon d id
      >> call (supplement_config id)
      >> tolerating is_already_exists (call (dump_config id))
      >> note (add_to_daemon id)
      >> call (verify id)

  -- A daemon serves these drivers.
  abbrev pub has_daemon : FsDriver → Bool
  has_daemon fscache = true
  has_daemon fusedev = true
  has_daemon _ = false

  with_digest : Option String → Rafs → Rafs
  unfolding add_annotation
  with_digest none r = r
  with_digest (some v) r = add_annotation cri_layer_digest v r

  proxy_annotations : Labels → Rafs → Rafs
  unfolding add_annotation with_digest
  proxy_annotations labels r =
      add_annotation nydus_proxy_mode "true" (with_digest (lookup cri_layer_digest labels) r)

  set_proxy : Labels → Rafs → Rafs
  unfolding proxy_annotations
  set_proxy labels r = record (proxy_annotations labels r) {
    mountpoint = c.path_join r.snapshot_dir "fs";
  }

  pub prepare_proxy : String → Labels → Act
  unfolding set_proxy is_nydus_proxy_mode
  prepare_proxy id labels w =
      if is_nydus_proxy_mode labels
      then (record w { cache = changed (set_proxy labels) id w.cache }, ok tt)
      else (w, ok tt)

  -- Changes of the cached instance, which is the object that the mounts work on.
  changing : (Rafs → Rafs) → String → World → World
  changing f id w = record w { cache = changed f id w.cache }

  -- The mountpoint that `mountRemote` sets first; `path.Join` of one path has no second part.
  pub remote_mountpoint : FsDriver → String → Rafs → String
  unfolding uses_shared
  remote_mountpoint fscache host r = c.path_join r.snapshot_dir "mnt"
  remote_mountpoint d host r = c.path_join host (if uses_shared d then r.snapshot_id else "")

  -- `mountRemote`.
  mount_by_daemon : FsDriver → String → Act
  unfolding call changing remote_mountpoint
  mount_by_daemon d id w = call (mount_remote id) (
      changing (λ r. record r { mountpoint = remote_mountpoint d (c.host_mountpoint w.calls) r }) id
        w)

  mount_by_tarfs : String → Act
  unfolding call changing
  mount_by_tarfs id w = call (mount_tarfs id) (changing (c.tarfs_mounted w.calls) id w)

  -- The switch on the driver, with the error that it stores in `err`.
  unfoldable pub mount_by : FsDriver → String → Labels → Act
  unfolding mount_by_daemon mount_by_tarfs prepare_proxy
  mount_by fscache id labels = mount_by_daemon fscache id
  mount_by fusedev id labels = mount_by_daemon fusedev id
  mount_by blockdev id labels = mount_by_tarfs id
  mount_by nodev id labels = done
  mount_by proxy id labels = prepare_proxy id labels
  mount_by no_driver id labels = fail unknown_driver
  mount_by other_driver id labels = fail unknown_driver

  abbrev pub proxy_forgives : Error → Bool
  proxy_forgives e = elim c.driver [ proxy ↦ true | _ ↦ false ]

  -- The rest of `Mount`, if the switch left no error.
  pub record_instance : FsDriver → String → Act
  unfolding call
  record_instance d id =
      (if has_daemon d then call (wait_running id) else done)
      >> tolerating proxy_forgives (call (persist id))

  -- The end of `Mount`, which returns nil whatever the switch left.
  pub conclude : FsDriver → String → World × Result (Unit {0}) → World × Result (Unit {0})
  unfolding record_instance
  conclude d id (w, ok u) = record_instance d id w
  conclude d id (w, err e) = (w, ok tt)

  unfoldable pub set_up : FsDriver → String → Act
  unfolding call attach
  set_up d id = call (get_manager d) >> (if has_daemon d then attach d id else done)

  pub mount_body : FsDriver → String → Labels → Act
  unfolding set_up mount_by conclude
  mount_body d id labels = set_up d id >> λ w. conclude d id (mount_by d id labels w)

  -- The switch of `Umount`; `destroy_unused` is the daemon's end when its count is 0.
  pub umount_by : FsDriver → String → Act
  unfolding call note
  umount_by fscache id =
      call (get_daemon id)
      >> note (drop_from_daemon id)
      >> call (unpersist id)
      >> call (umount_instance id)
      >> call (destroy_unused id)
  umount_by fusedev id =
      call (get_daemon id)
      >> note (drop_from_daemon id)
      >> call (unpersist id)
      >> call (umount_instance id)
      >> call (destroy_unused id)
  umount_by blockdev id = call (umount_tarfs id) >> call (unpersist id)
  umount_by nodev id = done
  umount_by proxy id = tolerating any_error (call (unpersist id))
  umount_by no_driver id = fail unknown_driver
  umount_by other_driver id = fail unknown_driver

  abbrev is_nodev : FsDriver → Bool
  is_nodev nodev = true
  is_nodev _ = false

  pub umount_driver : FsDriver → String → Act
  unfolding umount_by call
  umount_driver d id = if is_nodev d then done else call (get_manager d) >> umount_by d id

  pub umount_found : String → World → Option Rafs → World × Result (Unit {0})
  unfolding umount_driver get_fs_driver
  umount_found id w none = (w, ok tt)
  umount_found id w (some r) = umount_driver (get_fs_driver c.driver r) id w

  -- `Umount`.
  unfoldable pub umount : String → Act
  unfolding umount_found
  umount id w = umount_found id w (lookup id w.cache)

  -- The deferred function of `Mount`: an error is followed by an unmount, whose own error is only
  -- logged, and by the removal of the instance.
  pub revoked : String → World → World
  unfolding umount
  revoked id w = let w' = (umount id w).0 in record w' { cache = remove id w'.cache }

  pub cleaned : String → World × Result (Unit {0}) → World × Result (Unit {0})
  unfolding revoked
  cleaned id (w, ok u) = (w, ok u)
  cleaned id (w, err e) = (revoked id w, err e)

  -- The instance that `NewRafs` adds.
  unfoldable pub with_instance : FsDriver → String → String → World → World
  with_instance d id image w = record w { cache = insert id (c.new_rafs id image d) w.cache }

  pub mount_new : FsDriver → String → String → Labels → Act
  unfolding call with_instance mount_body cleaned
  mount_new d id image labels =
      call (make_dir id) >> λ w. cleaned id (mount_body d id labels (with_instance d id image w))

  pub mount_image : String → Labels → Option String → Act
  unfolding mount_new
  mount_image id labels none = fail (failure 41)
  mount_image id labels (some image) = mount_new (driver_of labels) id image labels

  -- `Mount`.
  unfoldable pub mount : String → Labels → Act
  unfolding mount_image
  mount id labels w =
      if is_some (lookup id w.cache) then (w, ok tt) else mount_image id labels (image_of labels) w
