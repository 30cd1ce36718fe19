-- ===== src/Label.antt =====
-- pkg/label/label.go: the labels of snapshots and the kinds of layers that they mark. The four
-- names that containerd defines are written out.
use nydus_snapshotter.Base.{String, Bool, is_some}
use nydus_snapshotter.Base.Dict.{Dict, lookup}

abbrev pub Labels : Type 0
Labels = Dict String

abbrev pub cri_image_ref : String
cri_image_ref = "containerd.io/snapshot/cri.image-ref"

abbrev pub cri_layer_digest : String
cri_layer_digest = "containerd.io/snapshot/cri.layer-digest"

abbrev pub target_snapshot_ref : String
target_snapshot_ref = "containerd.io/snapshot.ref"

abbrev pub nydus_data_layer : String
nydus_data_layer = "containerd.io/snapshot/nydus-blob"

abbrev pub nydus_meta_layer : String
nydus_meta_layer = "containerd.io/snapshot/nydus-bootstrap"

abbrev pub nydus_tarfs_layer : String
nydus_tarfs_layer = "containerd.io/snapshot/nydus-tarfs"

abbrev pub nydus_proxy_mode : String
nydus_proxy_mode = "containerd.io/snapshot/nydus-proxy-mode"

abbrev pub stargz_layer : String
stargz_layer = "containerd.io/snapshot/stargz"

abbrev pub overlayfs_volatile_opt : String
overlayfs_volatile_opt = "containerd.io/snapshot/overlay.volatile"

abbrev pub nydus_index_alternative : String
nydus_index_alternative = "containerd.io/snapshot/nydus-index-alternative"

unfoldable pub has : String → Labels → Bool
has k labels = is_some (lookup k labels)

unfoldable pub is_nydus_data_layer : Labels → Bool
unfolding has
is_nydus_data_layer = has nydus_data_layer

unfoldable pub is_nydus_meta_layer : Labels → Bool
unfolding has
is_nydus_meta_layer = has nydus_meta_layer

unfoldable pub is_tarfs_data_layer : Labels → Bool
unfolding has
is_tarfs_data_layer = has nydus_tarfs_layer

unfoldable pub is_nydus_proxy_mode : Labels → Bool
unfolding has
is_nydus_proxy_mode = has nydus_proxy_mode
