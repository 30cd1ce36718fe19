-- ===== src/Tarfs/Examples.antt =====
-- A layer that is prepared, one that cannot be, and what waits for them.
use nydus_snapshotter.Base.{◌≡◌, refl, true, false, none, some, List, [], ◌∷◌, failure, ok, err}
use nydus_snapshotter.Base.Dict.{lookup, insert}
use nydus_snapshotter.Tarfs.{
  ready, failed, prepare, Layer, Task, State, Download, Conversion, Config, sleeping,
  wait_layer_ready, prepare_layer, finish,
}
use nydus_snapshotter.Tarfs.Devices.{Answers, detach_layer}
use nydus_snapshotter.Tarfs.Release.{Detaches, detach_layer_lem}
use nydus_snapshotter.Tarfs.Tasks.{Step, preparing, ending, run, no_layers, is_preparing}
use nydus_snapshotter.Tarfs.Stuck.{finish_all, finish_all_lem, prepare_layer_stuck}
use nydus_snapshotter.Daemon.{Rafs, blockdev}
use nydus_snapshotter.Tarfs.Mount.{Image, mount_tar_erofs}
use nydus_snapshotter.Tarfs.Mounted.{Mounts, mount_tar_erofs_lem}
use nydus_snapshotter.Tarfs.Ready.{finish_lem}
use nydus_snapshotter.Tarfs.Merge.{
  exists, Replies, Paths, Merges, merge_layers, merge_layers_lem, backwards,
}
use nydus_snapshotter.Tarfs.Export.{Flags}

abbrev config : Config
config = record { cache_dir_path = "/cache"; validate_diff_id = true; path_join = λ dir name. name }

abbrev reachable : Download
reachable = record {
  key_chain = ok tt;
  stream = ok tt;
  plain_http = λ _. false;
  second_stream = ok tt;
}

abbrev unreachable : Download
unreachable = record {
  key_chain = ok tt;
  stream = err (failure 1);
  plain_http = λ _. true;
  second_stream = err (failure 2);
}

-- The digest is another one than the diffID.
abbrev altered : Conversion
altered = record {
  unpacked = ok tt;
  diff_id = ok "sha256:a";
  bootstrap = ok tt;
  digest = "sha256:b";
}

abbrev begin : List Step
begin = preparing reachable "1" "blob" ∷ []

finish_all_lem_example :
    is_preparing (
      lookup "1"
        (finish_all config
          (λ _. altered)
          (run config begin no_layers).tasks
          (run config begin no_layers)).layers)
    ≡ false
finish_all_lem_example = finish_all_lem config begin (λ _. altered) "1"

abbrev mounted : Layer
mounted = record {
  status = ready;
  blob_id = "blob";
  blob_tar_file = "/cache/blob";
  mount_point = some "/mnt";
  data_device = some "/dev/loop1";
  meta_device = some "/dev/loop0";
  group = 0;
}

abbrev one_layer : State
one_layer = record { layers = ("1", mounted) ∷ []; tasks = []; finished = 0 ∷ []; fresh = 1 }

-- The second call fails.
abbrev once : Answers
once [] c = ok ""
once (d ∷ ds) c = err (failure 3)

detach_layer_lem_example : Detaches once "1" one_layer mounted (detach_layer once "1" one_layer)
unfolding lookup
detach_layer_lem_example = detach_layer_lem once "1" one_layer mounted refl

abbrev running_one : State
running_one = run config begin no_layers

abbrev stuck_layer : Layer
stuck_layer = record {
  status = failed;
  blob_id = "late";
  blob_tar_file = "late";
  mount_point = none;
  data_device = none;
  meta_device = none;
  group = 1;
}

prepare_layer_stuck_example :
    wait_layer_ready "2" (
      run config
        (ending altered 0 ∷ [])
        (prepare_layer config unreachable "2" "late" (run config begin no_layers)).0)
    ≡ sleeping
unfolding lookup run prepare_layer insert
prepare_layer_stuck_example =
    prepare_layer_stuck config begin unreachable (failure 2) "2" "late" (ending altered 0 ∷ []) refl
      refl "2" stuck_layer refl refl

abbrev waiting : Layer
waiting = record {
  status = prepare;
  blob_id = "";
  blob_tar_file = "";
  mount_point = none;
  data_device = none;
  meta_device = none;
  group = 0;
}

abbrev task : Task
task = record { snapshot = "1"; blob = "blob"; wait_group = 0 }

abbrev begun_one : State
begun_one = record { layers = ("1", waiting) ∷ []; tasks = []; finished = []; fresh = 1 }

finish_lem_example :
    (lookup "1" (finish config altered task begun_one).layers
      ≡ some (record waiting { blob_id = "blob"; blob_tar_file = "blob"; status = ready }))
    × ((finish config altered task begun_one).finished ≡ 0 ∷ [])
unfolding lookup
finish_lem_example = finish_lem config altered task begun_one waiting refl

abbrev paths : Paths
paths = record {
  layer_meta = λ d. d;
  image_meta = λ d. "image";
  layer_disk = λ b. b;
  image_disk = λ b. b;
  temporary = λ f. "tmp";
}

-- No file exists, and the builder works.
abbrev builds : Replies
builds w (exists f) = err (failure 4)
builds w _ = ok ""

merge_layers_lem_example :
    Merges builds
      (λ id. id)
      "tmp"
      "image"
      one_layer
      (backwards ("1" ∷ []))
      (merge_layers paths builds (λ id. id) one_layer "1" [])
merge_layers_lem_example = merge_layers_lem paths builds (λ id. id) one_layer "1" []

abbrev layer_disk_only : Flags
layer_disk_only = record { whole_image = false; export_disk = true; with_verity = false }

abbrev instance_one : Rafs
instance_one = record {
  seq = 1;
  image_id = "ghcr.io/app:1";
  daemon_id = "";
  fs_driver = blockdev;
  snapshot_id = "1";
  snapshot_dir = "/snapshots/1";
  underlying_files = [];
  mountpoint = "";
  annotations = [];
}

abbrev image : Image
image = record {
  on_host = true;
  upper_dir = "/snapshots/1/fs";
  mount_point = "/snapshots/1/mnt";
  bootstrap = "image.boot";
  inspected = ok tt;
  names_blob = λ b. true;
  join_devices = λ ds. "device=/dev/loop1";
}

mount_tar_erofs_lem_example :
    Mounts image "1"
      (record one_layer { layers = ("1", record mounted { mount_point = none }) ∷ [] })
      instance_one
      (mount_tar_erofs
        (λ w c. ok "/dev/loop2")
        image
        []
        "1"
        (some ("1" ∷ []))
        (record one_layer { layers = ("1", record mounted { mount_point = none }) ∷ [] })
        instance_one)
mount_tar_erofs_lem_example =
    mount_tar_erofs_lem (λ w c. ok "/dev/loop2") image [] "1" (some ("1" ∷ []))
      (record one_layer { layers = ("1", record mounted { mount_point = none }) ∷ [] }) instance_one
      refl
