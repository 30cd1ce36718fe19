-- ===== src/Filesystem/Examples.antt =====
-- Mounts that fail, and a mount after an unmount.
use nydus_snapshotter.Base.{◌≡◌, refl, String, none, List, [], ◌∷◌, failure, Result, ok, err}
use nydus_snapshotter.Base.Dict.{lookup}
use nydus_snapshotter.Label.{Labels, is_tarfs_data_layer, has}
use nydus_snapshotter.Daemon.{Rafs, FsDriver, fusedev, shared}
use nydus_snapshotter.Filesystem.{Call, mount_remote, verify, World, Config, mount, umount}
use nydus_snapshotter.Filesystem.Mount.{mount_failure_lem}
use nydus_snapshotter.Filesystem.Remount.{remount_lem}

abbrev new_rafs : String → String → FsDriver → Rafs
new_rafs id image d = record {
  seq = 0;
  image_id = image;
  daemon_id = "";
  fs_driver = d;
  snapshot_id = id;
  snapshot_dir = "/snapshots/7";
  underlying_files = [];
  mountpoint = "";
  annotations = [];
}

-- The bootstrap's signature is wrong.
abbrev unverified : List Call → Call → Result (Unit {0})
unverified w (verify id) = err (failure 7)
unverified w _ = ok tt

-- nydusd refuses the mount.
abbrev refused : List Call → Call → Result (Unit {0})
refused w (mount_remote id) = err (failure 8)
refused w _ = ok tt

abbrev with_answers : (List Call → Call → Result (Unit {0})) → Config
with_answers a = record {
  driver = fusedev;
  mode = shared;
  new_rafs = new_rafs;
  path_join = λ dir name. dir;
  host_mountpoint = λ w. "/mnt";
  tarfs_mounted = λ w r. r;
  answers = a;
}

abbrev labels : Labels
labels = ("containerd.io/snapshot/cri.image-ref", "ghcr.io/app:1") ∷ []

abbrev start : World
start = record { cache = []; calls = [] }

mount_failure_lem_example :
    lookup "7" (mount (with_answers unverified) "7" labels start).0.cache ≡ none
unfolding lookup mount is_tarfs_data_layer has
mount_failure_lem_example =
    mount_failure_lem (with_answers unverified) "7" labels start (failure 7) refl refl

abbrev mounted : World
mounted = record { cache = ("7", new_rafs "7" "ghcr.io/app:1" fusedev) ∷ []; calls = [] }

remount_lem_example :
    mount (with_answers refused) "7" labels (umount (with_answers refused) "7" mounted).0
    ≡ ((umount (with_answers refused) "7" mounted).0, ok tt)
unfolding lookup
remount_lem_example =
    remount_lem (with_answers refused) "7" labels mounted (new_rafs "7" "ghcr.io/app:1" fusedev)
      refl
