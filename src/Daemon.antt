-- ===== src/Daemon.antt =====
-- pkg/daemon/daemon.go and pkg/rafs/rafs.go: the record of a nydusd daemon, the RAFS instances that
-- it serves and its reference count. Names of maps and files are texts; a pid is a number; the
-- count `ref` is the 32-bit pattern of an `int32`.
pub mod Refs
pub mod State
pub mod Mounts
mod Examples
use nydus_snapshotter.Base.{
  ℕ, ◌+◌, ◌-◌, ◌%◌, ◌==◌, String, Bool, true, false, not, Option, none, some, List, [], ◌∷◌,
  if◌then◌else◌, is_some, length,
}
use nydus_snapshotter.Base.Dict.{Dict, lookup, insert, remove}

-- The constants `FsDriver*` of config/config.go, the empty text, and any other text.
pub data FsDriver : Type 0 where
  fusedev fscache blockdev nodev proxy no_driver other_driver : FsDriver

pub FsDriver-discrete : Discrete FsDriver
FsDriver-discrete = hlevel

-- The constants `DaemonMode*` of config/config.go and the empty text.
pub data DaemonMode : Type 0 where
  multiple dedicated shared none_mode invalid_mode unset_mode : DaemonMode

-- `DaemonState` of pkg/daemon/types/types.go, and the empty text of a new daemon object.
pub data DaemonState : Type 0 where
  blank unknown init ready running died destroyed : DaemonState

abbrev pub is_running : DaemonState → Bool
is_running running = true
is_running _ = false

pub record Rafs : Type 0 where
  pub seq : ℕ
  pub image_id : String
  pub daemon_id : String
  pub fs_driver : FsDriver
  pub snapshot_id : String
  pub snapshot_dir : String
  pub underlying_files : List String
  pub mountpoint : String
  pub annotations : Dict String

pub record ConfigState : Type 0 where
  pub id : String
  pub process_id : ℕ
  pub api_socket : String
  pub daemon_mode : DaemonMode
  pub fs_driver : FsDriver
  pub log_dir : String
  pub log_level : String
  pub log_rotation_size : ℕ
  pub log_to_stdout : Bool
  pub mountpoint : String
  pub supervisor_path : String
  pub thread_num : ℕ
  pub failover_policy : String
  pub config_dir : String

pub record Daemon : Type 0 where
  pub states : ConfigState
  pub rafs_cache : Dict Rafs
  pub has_client : Bool
  pub has_supervisor : Bool
  pub ref : ℕ
  pub state : DaemonState

unfoldable pub fs_driver_eq : FsDriver → FsDriver → Bool
unfolding FsDriver-discrete
fs_driver_eq a b = elim (FsDriver-discrete a b) [ yes _ ↦ true | no _ ↦ false ]

-- `GetFsDriver`: an instance without a driver takes the configured one.
unfoldable pub get_fs_driver : FsDriver → Rafs → FsDriver
get_fs_driver configured r = elim r.fs_driver [ no_driver ↦ configured | d ↦ d ]

unfoldable pub add_annotation : String → String → Rafs → Rafs
add_annotation k v r = record r { annotations = insert k v r.annotations }

pub DaemonState-discrete : Discrete DaemonState
DaemonState-discrete = hlevel
