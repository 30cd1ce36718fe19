-- ===== src/Snapshot/Overlay.antt =====
-- snapshot/snapshot.go and snapshot/mount_option.go: the mounts that the snapshotter hands out.
-- Directories are a data type instead of texts; the settings, the RAFS instances of the filesystem
-- layer and the Kata volumes are parameters.
pub mod Stack
pub mod Remote
use nydus_snapshotter.Base.{
  ◌==◌, ◌||◌, String, Bool, true, false, Option, none, some, List, [], ◌∷◌, ◌++◌, map, Error,
  failure, Result, ok, err, ◌>>=◌, if◌then◌else◌,
}
use nydus_snapshotter.Base.Dict.{lookup}
use nydus_snapshotter.Label.{
  Labels, has, overlayfs_volatile_opt, is_nydus_proxy_mode, nydus_tarfs_layer,
}
use nydus_snapshotter.Snapshot.{
  Snapshot, Kind, kind_view, kind_active, kind_unknown, kind_committed,
}

-- `upperPath`, `workPath`, the mountpoint of a RAFS instance, and the configured root of the
-- snapshots.
pub data Directory : Type 0 where
  upper_path work_path : String → Directory
  mountpoint_at : String → Directory
  snapshots_root : Directory

pub data MountOption : Type 0 where
  workdir upperdir : Directory → MountOption
  lowerdir : List Directory → MountOption
  volatile rw ro rbind : MountOption
  volume : String → MountOption

pub data MountType : Type 0 where
  bind overlay nydus_overlayfs : MountType

-- `mount.Mount`; the source of an overlay is a fixed text.
pub record Mount : Type 0 where
  pub mount_type : MountType
  pub source : Option Directory
  pub options : List MountOption

-- The part of `rafs.Rafs` that the mounts read.
pub record Instance : Type 0 where
  pub mountpoint : String
  pub annotations : Labels

-- `proxy_volume` and `tarfs_volume` are the options of `mountWithProxyVolume` and
-- `mountWithTarfsVolume`, `extra_option` that of `remoteMountWithExtraOptions`.
pub record Settings : Type 0 where
  pub enable_overlayfs_volatile : Bool
  pub enable_kata_volume : Bool
  pub enable_nydus_overlayfs : Bool
  pub daemon_mode_is_none : Bool
  pub referrer_detect : Bool
  pub index_detect : Bool
  pub instance_of : String → Option Instance
  pub proxy_volume : Labels → Result (List String)
  pub tarfs_volume : Labels → String → String → Result (List String)
  pub extra_option : String → String → Result String

unfoldable pub bind_mount : Directory → MountOption → List Mount
bind_mount source ro_flag =
    record { mount_type = bind; source = some source; options = ro_flag ∷ rbind ∷ [] } ∷ []

unfoldable pub overlay_mount : List MountOption → List Mount
overlay_mount options = record { mount_type = overlay; source = none; options = options } ∷ []

unfoldable pub nydus_overlay_mount : List MountOption → List Mount
nydus_overlay_mount options =
    record { mount_type = nydus_overlayfs; source = none; options = options } ∷ []

abbrev pub is_view : Kind → Bool
is_view kind_view = true
is_view _ = false

abbrev pub own_dirs : String → List MountOption
own_dirs id = workdir (work_path id) ∷ upperdir (upper_path id) ∷ []

module _ (o : Settings) where
  pub is_volatile : Labels → Bool
  unfolding has
  is_volatile labels = has overlayfs_volatile_opt labels || o.enable_overlayfs_volatile

  pub volatile_options : Labels → List MountOption
  unfolding is_volatile
  volatile_options labels = if is_volatile labels then volatile ∷ [] else []

  abbrev pub lower_dirs : List String → MountOption
  lower_dirs ids = lowerdir (map upper_path ids)

  pub native_layers : Labels → Kind → String → List String → List Mount
  unfolding bind_mount overlay_mount volatile_options
  native_layers labels kind_active id parents =
      overlay_mount ((own_dirs id ++ volatile_options labels) ++ lower_dirs parents ∷ [])
  native_layers labels _ id (p ∷ []) = bind_mount (upper_path p) ro
  native_layers labels _ id parents = overlay_mount (lower_dirs parents ∷ [])

  -- `mountNative`.
  unfoldable pub mount_native : Labels → Snapshot → List Mount
  unfolding native_layers bind_mount
  mount_native labels s = elim s.parent_ids [
    | [] ↦ bind_mount (upper_path s.id) (if is_view s.kind then ro else rw)
    | p ∷ ps ↦ native_layers labels s.kind s.id (p ∷ ps)
  ]

  -- `lowerPath`; of the errors of `MountPoint` only `ErrNotFound` exists.
  unfoldable pub lower_path : String → Directory
  lower_path id = elim (o.instance_of id) [
    | none ↦ upper_path id
    | some r ↦ mountpoint_at r.mountpoint
  ]

  -- The parents above the layer `id`.
  unfoldable pub parents_above : String → List String → List String
  parents_above id [] = []
  parents_above id (p ∷ ps) = if p == id then [] else p ∷ parents_above id ps

  pub proxy_options : Instance → Result (List String)
  unfolding is_nydus_proxy_mode
  proxy_options r =
      if is_nydus_proxy_mode r.annotations then o.proxy_volume r.annotations else ok []

  pub tarfs_options : Instance → String → Result (List String)
  tarfs_options r key = elim (lookup nydus_tarfs_layer r.annotations) [
    | none ↦ ok []
    | some blob ↦ o.tarfs_volume r.annotations blob key
  ]

  pub with_volumes : List MountOption → List String → List Mount
  unfolding overlay_mount nydus_overlay_mount
  with_volumes options [] = overlay_mount options
  with_volumes options (v ∷ vs) = nydus_overlay_mount (options ++ map volume (v ∷ vs))

  pub kata_mounts : Option Instance → List MountOption → String → Result (List Mount)
  unfolding proxy_options tarfs_options with_volumes
  kata_mounts none options key = err (failure 30)
  kata_mounts (some r) options key = proxy_options r >>= λ first.
      tarfs_options r key >>= λ second. ok (with_volumes options (first ++ second))

  unfoldable pub mount_with_kata_volume : String → List MountOption → String → Result (List Mount)
  unfolding kata_mounts
  mount_with_kata_volume id = kata_mounts (o.instance_of id)

  unfoldable pub remote_mount_with_extra_options :
      String → String → List MountOption → Result (List Mount)
  unfolding nydus_overlay_mount
  remote_mount_with_extra_options s_id id options =
      o.extra_option s_id id >>= λ opt. ok (nydus_overlay_mount (options ++ volume opt ∷ []))

  pub finish_remote : String → String → String → List MountOption → Result (List Mount)
  unfolding mount_with_kata_volume remote_mount_with_extra_options overlay_mount
  finish_remote s_id id key options =
      if o.enable_kata_volume
      then mount_with_kata_volume id options key
      else if o.enable_nydus_overlayfs || o.daemon_mode_is_none
      then remote_mount_with_extra_options s_id id options
      else ok (overlay_mount options)

  pub lower_layers : Snapshot → String → List Directory
  unfolding parents_above lower_path
  lower_layers s id =
      (if o.referrer_detect || o.index_detect
        then map upper_path (parents_above id s.parent_ids)
        else [])
      ++ lower_path id ∷ []

  pub remote_options : Kind → Snapshot → List Directory → List MountOption
  unfolding lower_path
  remote_options kind_active s lowers = own_dirs s.id ++ lowerdir lowers ∷ []
  remote_options kind_view s lowers = lowerdir (lowers ++ lower_path s.id ∷ []) ∷ []
  remote_options _ s lowers = lowerdir lowers ∷ []

  -- `mountRemote`.
  unfoldable pub mount_remote : Labels → Snapshot → String → String → Result (List Mount)
  unfolding volatile_options lower_layers remote_options finish_remote
  mount_remote labels s id key =
      finish_remote s.id id key
        (volatile_options labels ++ remote_options s.kind s (lower_layers s id))

  abbrev pub proxy_upper : Kind → String → List MountOption
  proxy_upper kind_active id = own_dirs id
  proxy_upper _ id = []

  pub proxy_lower : List String → MountOption
  proxy_lower [] = lowerdir (snapshots_root ∷ [])
  proxy_lower (p ∷ ps) = lower_dirs (p ∷ ps)

  -- `mountProxy`; the volume is made of an instance without annotations.
  unfoldable pub mount_proxy : Snapshot → Result (List Mount)
  unfolding proxy_lower nydus_overlay_mount
  mount_proxy s = o.proxy_volume [] >>= λ volumes. ok (
      nydus_overlay_mount
        ((proxy_upper s.kind s.id ++ proxy_lower s.parent_ids ∷ []) ++ map volume volumes))
