-- ===== src/Snapshot/Examples.antt =====
-- A snapshotter with a small store: a container on a nydus image, a layer, and a view.
use nydus_snapshotter.Base.{
  ◌==◌, ◌≡◌, refl, inl, String, true, false, some, List, [], ◌∷◌, already_exists, not_found, Result,
  ok, err, arith, eq_iff, if◌then◌else◌,
}
use nydus_snapshotter.Base.Dict.{lookup}
use nydus_snapshotter.Daemon.{fusedev}
use nydus_snapshotter.Label.{
  Labels, has, is_nydus_meta_layer, is_nydus_data_layer, is_nydus_proxy_mode, nydus_meta_layer,
  nydus_data_layer, target_snapshot_ref,
}
use nydus_snapshotter.Snapshot.{Info, Snapshot, MetaStore, kind_active, kind_committed}
use nydus_snapshotter.Snapshot.Parents.{iterate, Chain, root, layer, nearest, iterate_lem}
use nydus_snapshotter.Snapshot.Overlay.{
  upper_path, mountpoint_at, Mount, Settings, mount_native, mount_remote, mount_proxy, lower_path,
}
use nydus_snapshotter.Snapshot.Overlay.Stack.{written, shown, mount_native_lem}
use nydus_snapshotter.Snapshot.Overlay.Remote.{mount_remote_lem}
use nydus_snapshotter.Snapshot.Process.{
  Call, mount, wait_until_ready, create, Backend, prepare, call,
}
use nydus_snapshotter.Snapshot.Process.Calls.{quiet}
use nydus_snapshotter.Snapshot.Process.Layers.{prepare_layer_lem}
use nydus_snapshotter.Snapshot.Process.Skip.{prepare_data_lem}
use nydus_snapshotter.Snapshot.Process.Writable.{meta_test, prepare_container_lem}
use nydus_snapshotter.Snapshot.View.{view, mounts}
use nydus_snapshotter.Snapshot.View.Written.{view_lem, mounts_lem}

abbrev settings : Settings
settings = record {
  enable_overlayfs_volatile = false;
  enable_kata_volume = false;
  enable_nydus_overlayfs = false;
  daemon_mode_is_none = false;
  referrer_detect = false;
  index_detect = true;
  instance_of = λ id. some (record { mountpoint = "/mnt/2"; annotations = [] });
  proxy_volume = λ labels. ok ("volume" ∷ []);
  tarfs_volume = λ labels blob key. ok [];
  extra_option = λ s id. ok "option";
}

-- The container's snapshot 4, on the layers 3, 2 (the meta layer) and 1.
abbrev container : Snapshot
container = record { id = "4"; kind = kind_active; parent_ids = "3" ∷ "2" ∷ "1" ∷ [] }

abbrev meta_labels : Labels
meta_labels = (nydus_meta_layer, "true") ∷ []

abbrev container_info : Info
container_info = record { kind = kind_active; parent = "top"; labels = [] }

abbrev meta_info : Info
meta_info = record { kind = kind_committed; parent = ""; labels = meta_labels }

-- The container's key, and the image's one committed layer.
abbrev info_of : String → Result (String × Info)
info_of key =
    if key == "c"
    then ok ("4", container_info)
    else if key == "top"
    then ok ("2", meta_info)
    else err not_found

abbrev ms : MetaStore
ms = record { get_info = info_of; get_snapshot = λ key. ok container }

abbrev made : Call → Snapshot
made (create kind key parent) = record { id = "4"; kind = kind; parent_ids = "2" ∷ [] }
made _ = container

abbrev backend : Backend
backend = record {
  driver = fusedev;
  stargz_enabled = false;
  tarfs_enabled = false;
  tarfs_export = false;
  index_detect = false;
  referrer_detect = false;
  check_index = λ labels. false;
  check_referrer = λ labels. false;
  is_stargz_data_layer = λ labels. false;
  is_stargz_layer = λ labels. false;
  answers = λ w c. ok tt;
  relabel = λ c labels. labels;
  created = λ w c. made c;
  store = λ w. ms;
  settings = λ w. settings;
  fuel = 10;
}

c-Chain : Chain ms "c" (("4", container_info) ∷ ("2", meta_info) ∷ [])
c-Chain =
    layer "4" container_info (λ e. absurd (ground (arith, eq_iff "c" ""))) refl
      (layer "2" meta_info (λ e. absurd (ground (arith, eq_iff "top" ""))) refl (root refl))

iterate_lem_example : iterate ms 10 meta_test "c" ≡ some (ok ("2", meta_info))
unfolding nearest is_nydus_meta_layer has lookup
iterate_lem_example =
    iterate_lem ms 10 meta_test "c" (("4", container_info) ∷ ("2", meta_info) ∷ []) c-Chain
      (omega arith)

mount_native_lem_example :
    (written (mount_native settings [] container) ≡ (upper_path "4" ∷ []))
    × (shown (mount_native settings [] container)
        ≡ (upper_path "4" ∷ upper_path "3" ∷ upper_path "2" ∷ upper_path "1" ∷ []))
mount_native_lem_example = mount_native_lem settings [] container (inl refl)

abbrev remote_mounts : List Mount
unfolding mount_remote
remote_mounts = elim (mount_remote settings [] container "2" "c") [ ok ms ↦ ms | err e ↦ [] ]

mount_remote_lem_example :
    (written remote_mounts ≡ (upper_path "4" ∷ []))
    × (shown remote_mounts ≡ (upper_path "4" ∷ upper_path "3" ∷ mountpoint_at "/mnt/2" ∷ []))
unfolding remote_mounts mount_remote lower_path
mount_remote_lem_example =
    mount_remote_lem settings [] container "2" "c" ("3" ∷ []) ("1" ∷ []) remote_mounts refl refl
      ((λ e. absurd (ground (arith, eq_iff "3" "2"))), tt) refl

abbrev proxy_mounts : List Mount
unfolding mount_proxy
proxy_mounts = elim (mount_proxy settings container) [ ok ms ↦ ms | err e ↦ [] ]

abbrev layer_labels : Labels
layer_labels = (target_snapshot_ref, "sha256:1") ∷ (nydus_data_layer, "true") ∷ []

prepare_layer_lem_example : quiet (prepare backend "l" "" layer_labels []).0 ≡ true
unfolding quiet has lookup
prepare_layer_lem_example = prepare_layer_lem backend "l" "" layer_labels [] refl refl

prepare_data_lem_example : (prepare backend "l" "" layer_labels []).1 ≡ err already_exists
unfolding has lookup is_nydus_meta_layer is_nydus_data_layer
prepare_data_lem_example =
    (prepare_data_lem backend "l" "" layer_labels [] refl refl refl refl refl).1 refl

prepare_container_lem_example : prepare backend "c" "top" [] [] ≡ (
  create kind_active "c" "top" ∷ mount "2" meta_labels ∷ wait_until_ready "2" ∷ [],
  mount_remote settings meta_labels (made (create kind_active "c" "top")) "2" "c",
)
unfolding has lookup is_nydus_meta_layer is_nydus_proxy_mode nearest
prepare_container_lem_example =
    prepare_container_lem backend "c" "top" [] [] "2" meta_info
      (("4", container_info) ∷ ("2", meta_info) ∷ []) "2" meta_info refl refl refl refl refl c-Chain
      (omega arith) refl refl refl

abbrev view_mounts : List Mount
unfolding view mount_remote
view_mounts = elim ((view backend "v" "top" [] []).1) [ ok ms ↦ ms | err e ↦ [] ]

view_lem_example : written view_mounts ≡ []
unfolding view_mounts view call has lookup is_nydus_meta_layer mount_remote
view_lem_example = view_lem backend "v" "top" [] [] view_mounts (λ w. refl) refl

abbrev container_mounts : List Mount
unfolding mounts
container_mounts = elim ((mounts backend "c" []).1) [ ok ms ↦ ms | err e ↦ [] ]

mounts_lem_example : written container_mounts ≡ (upper_path "4" ∷ [])
unfolding container_mounts mounts call has lookup is_nydus_meta_layer mount_remote
mounts_lem_example =
    mounts_lem backend "c" [] container container_mounts (λ w. refl) (inl refl) refl
