-- ===== src/Store/Memory.antt =====
-- A database in memory, for the runs at concrete inputs: every operation succeeds.
use nydus_snapshotter.Base.{
  ℕ, ◌+◌, ◌%◌, ◌==◌, ◌≡◌, refl, String, false, none, some, [], arith, failure, Result, ok, err,
  if◌then◌else◌,
}
use nydus_snapshotter.Base.Dict.{Dict, lookup, insert, remove, lookup-insert, lookup-remove}
use nydus_snapshotter.Daemon.{Rafs, ConfigState, Daemon, fusedev, shared, running}
use nydus_snapshotter.Store.{Bolt, Json, Tx, Database}
use nydus_snapshotter.Store.Interface.{StateStore, database_store}

pub data Value : Type 0 where
  daemon_value : ConfigState → Value
  rafs_value : Rafs → Value

abbrev pub Bucket : Type 0
Bucket = Dict Value × ℕ

abbrev pub uint64 : ℕ
uint64 = 18446744073709551616

abbrev pub put_memory : Bucket → String → Value → Result Bucket
put_memory b k v = ok (insert k v b.0, b.1)

abbrev pub delete_memory : Bucket → String → Result Bucket
delete_memory b k = ok (remove k b.0, b.1)

abbrev pub count_memory : Bucket → Result (ℕ × Bucket)
count_memory b = ok ((b.1 + 1) % uint64, (b.0, (b.1 + 1) % uint64))

pub get-put_memory :
    (b b' : Bucket) (k : String) (v : Value)
    → put_memory b k v ≡ ok b'
    → (j : String) → lookup j b'.0 ≡ (if k == j then some v else lookup j b.0)
get-put_memory b b' k v h j = ground (arith, lookup-insert k j v b.0)

pub get-delete_memory :
    (b b' : Bucket) (k : String)
    → delete_memory b k ≡ ok b'
    → (j : String) → lookup j b'.0 ≡ (if k == j then none else lookup j b.0)
get-delete_memory b b' k h j = ground (arith, lookup-remove k j b.0)

pub sequence-put_memory :
    (b b' : Bucket) (k : String) (v : Value) → put_memory b k v ≡ ok b' → b'.1 ≡ b.1
sequence-put_memory b b' k v h = ground arith

pub sequence-delete_memory : (b b' : Bucket) (k : String) → delete_memory b k ≡ ok b' → b'.1 ≡ b.1
sequence-delete_memory b b' k h = ground arith

pub counted :
    (b b' : Bucket) (n : ℕ)
    → count_memory b ≡ ok (n, b')
    → (n ≡ (b.1 + 1) % uint64) × (b'.1 ≡ n) × ((j : String) → lookup j b'.0 ≡ lookup j b.0)
counted b b' n h = (ground arith, ground arith, λ j. ground arith)

abbrev pub memory : Bolt Bucket Value
memory = record {
  get = λ b k. lookup k b.0;
  put = put_memory;
  delete = delete_memory;
  entries = λ b. b.0;
  sequence = λ b. b.1;
  next_sequence = count_memory;
  get-put = get-put_memory;
  get-delete = get-delete_memory;
  sequence-put = sequence-put_memory;
  sequence-delete = sequence-delete_memory;
  next_sequence_lem = counted;
  lookup-entries = λ b j. refl;
}

abbrev pub as_daemon : Value → Result ConfigState
as_daemon (daemon_value d) = ok d
as_daemon (rafs_value r) = err (failure 99)

abbrev pub as_rafs : Value → Result Rafs
as_rafs (daemon_value d) = err (failure 99)
as_rafs (rafs_value r) = ok r

abbrev pub encode_daemon : ConfigState → Result Value
encode_daemon d = ok (daemon_value d)

abbrev pub encode_rafs : Rafs → Result Value
encode_rafs r = ok (rafs_value r)

pub daemon_round_trip : (d : ConfigState) (v : Value) → encode_daemon d ≡ ok v → as_daemon v ≡ ok d
daemon_round_trip d v h = ground arith

pub rafs_round_trip : (r : Rafs) (v : Value) → encode_rafs r ≡ ok v → as_rafs v ≡ ok r
rafs_round_trip r v h = ground arith

abbrev pub daemon_json : Json ConfigState Value
daemon_json = record {
  marshal = encode_daemon;
  unmarshal = as_daemon;
  unmarshal-marshal = daemon_round_trip;
}

abbrev pub rafs_json : Json Rafs Value
rafs_json = record {
  marshal = encode_rafs;
  unmarshal = as_rafs;
  unmarshal-marshal = rafs_round_trip;
}

abbrev pub quiet_tx : Tx
quiet_tx = record { begin_error = none; commit_error = none }

abbrev pub empty_db : Database Bucket
empty_db = record { daemons = ([], 0); instances = ([], 0) }

abbrev pub store : StateStore (Database Bucket)
store = database_store memory daemon_json rafs_json

abbrev pub config_state : ConfigState
config_state = record {
  id = "d1";
  process_id = 7;
  api_socket = "/run/d1/api.sock";
  daemon_mode = shared;
  fs_driver = fusedev;
  log_dir = "/log/d1";
  log_level = "info";
  log_rotation_size = 100;
  log_to_stdout = false;
  mountpoint = "/mnt";
  supervisor_path = "";
  thread_num = 4;
  failover_policy = "resend";
  config_dir = "/config/d1";
}

abbrev pub instance_one : Rafs
instance_one = record {
  seq = 0;
  image_id = "ghcr.io/app:1";
  daemon_id = "";
  fs_driver = fusedev;
  snapshot_id = "7";
  snapshot_dir = "/snapshots/7";
  underlying_files = [];
  mountpoint = "/mnt/7";
  annotations = [];
}

abbrev pub daemon_one : Daemon
daemon_one = record {
  states = config_state;
  rafs_cache = [];
  has_client = false;
  has_supervisor = false;
  ref = 0;
  state = running;
}
