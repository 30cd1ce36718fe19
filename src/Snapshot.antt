-- ===== src/Snapshot.antt =====
-- snapshot/snapshot.go and pkg/snapshot/storage.go: the containerd snapshotter. containerd's
-- metadata store and the filesystem layer are parameters.
pub mod Parents
pub mod Process
pub mod View
pub mod Removal
pub mod Create
pub mod Created
mod CreateExamples
mod Examples
pub mod Overlay
use nydus_snapshotter.Base.{
  ℕ, String, Bool, true, false, not, ◌&&◌, Option, none, some, List, Error, Result, ok, err,
  if◌then◌else◌,
}
use nydus_snapshotter.Label.{Labels, has, is_nydus_proxy_mode, cri_image_ref}
use nydus_snapshotter.Daemon.{FsDriver, proxy, DaemonMode}

-- `snapshots.Kind` of containerd.
pub data Kind : Type 0 where
  kind_unknown kind_view kind_active kind_committed : Kind

-- `snapshots.Info`; the empty text is no parent.
pub record Info : Type 0 where
  pub kind : Kind
  pub parent : String
  pub labels : Labels

-- `storage.Snapshot`; the parents, the uppermost first.
pub record Snapshot : Type 0 where
  pub id : String
  pub kind : Kind
  pub parent_ids : List String

-- The metadata store of containerd, in a reading transaction.
pub record MetaStore : Type 0 where
  pub get_info : String → Result (String × Info)
  pub get_snapshot : String → Result Snapshot

abbrev pub is_proxy : FsDriver → Bool
is_proxy proxy = true
is_proxy _ = false

-- `treatAsProxyDriver`, by the configured driver.
unfoldable pub treat_as_proxy_driver : FsDriver → Labels → Bool
treat_as_proxy_driver driver labels =
    if is_proxy driver && has cri_image_ref labels
    then false
    else if is_proxy driver
    then not (is_nydus_proxy_mode labels)
    else is_nydus_proxy_mode labels
