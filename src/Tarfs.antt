-- ===== src/Tarfs.antt =====
-- pkg/tarfs/tarfs.go: layers that are converted to tarfs in the background, one task each. The map of
-- snapshots, the running tasks and the wait groups are the state; what the registry, the builder
-- and the digester give is a parameter of each step.
pub mod Tasks
pub mod Undone
pub mod Stuck
pub mod Devices
pub mod Release
pub mod Ready
pub mod Mount
pub mod Mounted
pub mod Merge
pub mod Export
pub mod Handled
pub mod Exported
mod Examples
use nydus_snapshotter.Base.{
  ℕ, zero, suc, ◌==◌, ◌&&◌, not, String, Bool, true, false, Option, none, some, List, [], ◌∷◌, ◌++◌,
  Error, failure, Result, ok, err, if◌then◌else◌, is_already_exists, is_some, ◌=ℕ=◌,
}
use nydus_snapshotter.Base.Dict.{Dict, lookup, insert}

-- `TarfsStatusInit` .. `TarfsStatusFailed`.
pub data Status : Type 0 where
  init prepare ready failed : Status

-- `snapshotStatus`; an empty mount point or a nil device is `none`.
pub record Layer : Type 0 where
  pub status : Status
  pub blob_id : String
  pub blob_tar_file : String
  pub mount_point : Option String
  pub data_device : Option String
  pub meta_device : Option String
  pub group : ℕ

-- A goroutine of `blobProcess`.
pub record Task : Type 0 where
  pub snapshot : String
  pub blob : String
  pub wait_group : ℕ

-- `finished` are the wait groups that are done, `fresh` is the next one.
pub record State : Type 0 where
  pub layers : Dict Layer
  pub tasks : List Task
  pub finished : List ℕ
  pub fresh : ℕ

-- The key chain and the blob's stream, with the second try over plain HTTP.
pub record Download : Type 0 where
  pub key_chain : Result (Unit {0})
  pub stream : Result (Unit {0})
  pub plain_http : Error → Bool
  pub second_stream : Result (Unit {0})

-- What a task meets: the decompressor, the expected diffID, the builder and the actual digest.
pub record Conversion : Type 0 where
  pub unpacked : Result (Unit {0})
  pub diff_id : Result String
  pub bootstrap : Result (Unit {0})
  pub digest : String

pub record Config : Type 0 where
  pub cache_dir_path : String
  pub validate_diff_id : Bool
  pub path_join : String → String → String

-- The error variable of Go, where `none` is nil.
abbrev pub error_of : Result (Unit {0}) → Option Error
error_of (ok u) = none
error_of (err e) = some e

abbrev pub is_serious : Result (Unit {0}) → Bool
is_serious (ok u) = false
is_serious (err e) = not (is_already_exists e)

abbrev pub stream_of : Download → Result (Unit {0}) → Result (Unit {0})
stream_of d (ok u) = ok u
stream_of d (err e) = if d.plain_http e then d.second_stream else err e

-- What is done before the task is started.
abbrev pub download : Download → Result (Unit {0})
download d = elim d.key_chain [ err e ↦ err e | ok u ↦ stream_of d d.stream ]

-- What the task hands to `epilog`; the error at a wrong digest is the nil one of the builder.
abbrev pub judged : (built : Result (Unit {0})) → (diff_id digest : String) → Option Error
judged built diff_id digest =
    if is_serious built
    then error_of built
    else if not (is_some (error_of built)) && not (digest == diff_id)
    then error_of built
    else none

abbrev pub with_diff_id : Conversion → Result String → Option Error
with_diff_id c (err e) = some e
with_diff_id c (ok d) = judged c.bootstrap d c.digest

abbrev pub without_diff_id : Result (Unit {0}) → Option Error
without_diff_id built = if is_serious built then error_of built else none

abbrev pub unpacked_to : Bool → Conversion → Result (Unit {0}) → Option Error
unpacked_to check c (err e) = some e
unpacked_to check c (ok u) = if check then with_diff_id c c.diff_id else without_diff_id c.bootstrap

unfoldable pub conversion_error : Bool → Conversion → Option Error
conversion_error check c = unpacked_to check c c.unpacked

abbrev pub ended : Option Error → Status
ended none = ready
ended (some e) = failed

-- `errors.Errorf("snapshot %s has already been prapared")`.
abbrev pub already_prepared : Error
already_prepared = failure 60

abbrev pub new_layer : ℕ → Layer
new_layer g = record {
  status = prepare;
  blob_id = "";
  blob_tar_file = "";
  mount_point = none;
  data_device = none;
  meta_device = none;
  group = g;
}

abbrev pub put_back : Task → Option (Task × List Task) → Option (Task × List Task)
put_back t none = none
put_back t (some (u, us)) = some (u, t ∷ us)

-- The task at an index, and the others.
unfoldable pub taken : ℕ → List Task → Option (Task × List Task)
taken i [] = none
taken zero (t ∷ ts) = some (t, ts)
taken (suc i) (t ∷ ts) = put_back t (taken i ts)

abbrev pub without_task : List Task → State → State
without_task rest s = record s { tasks = rest }

abbrev pub registered : String → State → State
registered id s = record s { layers = insert id (new_layer s.fresh) s.layers; fresh = suc s.fresh }

abbrev pub started : (id blob : String) → ℕ → State → State
started id blob g s = record s {
  tasks = record { snapshot = id; blob = blob; wait_group = g } ∷ s.tasks;
}

module _ (c : Config) where
  abbrev pub layer_tar_file_path : String → String
  layer_tar_file_path blob = c.path_join c.cache_dir_path blob

  abbrev pub closed : Option Error → String → Layer → Layer
  closed e blob l = record l {
    blob_id = blob;
    blob_tar_file = layer_tar_file_path blob;
    status = ended e;
  }

  -- A layer that is gone is only logged.
  unfoldable pub epilog : Option Error → (id blob : String) → Dict Layer → Dict Layer
  epilog e id blob layers = elim (lookup id layers) [
    | none ↦ layers
    | some l ↦ insert id (closed e blob l) layers
  ]

  -- `blobProcess` up to the start of its goroutine.
  unfoldable pub begun :
      Result (Unit {0}) → (id blob : String) → ℕ → State → State × Result (Unit {0})
  unfolding epilog
  begun (ok u) id blob g s = (started id blob g s, ok tt)
  begun (err e) id blob g s = (record s { layers = epilog (some e) id blob s.layers }, err e)

  unfoldable pub prepare_layer : Download → (id blob : String) → State → State × Result (Unit {0})
  unfolding begun
  prepare_layer d id blob s =
      if is_some (lookup id s.layers)
      then (s, err already_prepared)
      else begun (download d) id blob s.fresh (registered id s)

  -- The rest of a task: its last acts are the epilog and the end of its wait group.
  unfoldable pub finish : Conversion → Task → State → State
  unfolding epilog conversion_error
  finish v t s = record s {
    layers = epilog (conversion_error c.validate_diff_id v) t.snapshot t.blob s.layers;
    finished = t.wait_group ∷ s.finished;
  }

  -- Any running task may be the next one to end.
  unfoldable pub finish_at : Conversion → ℕ → State → State
  unfolding finish taken
  finish_at v i s = elim (taken i s.tasks) [
    | none ↦ s
    | some (t, rest) ↦ finish v t (without_task rest s)
  ]

-- What a waiter sees: it sleeps until the wait group is done, then looks at the status.
pub data Wait : Type 0 where
  sleeping : Wait
  woken : Result (Unit {0}) → Wait

-- `errors.Errorf("not found snapshot %s")` and `"… is in state %d instead of ready state"`.
abbrev pub no_snapshot : Error
no_snapshot = failure 61

abbrev pub not_ready : Error
not_ready = failure 62

abbrev pub is_ready : Status → Bool
is_ready ready = true
is_ready _ = false

abbrev pub member : ℕ → List ℕ → Bool
member n [] = false
member n (m ∷ ms) = if m =ℕ= n then true else member n ms

abbrev pub waited : List ℕ → Option Layer → Wait
waited finished none = woken (err no_snapshot)
waited finished (some l) =
    if member l.group finished
    then woken (if is_ready l.status then ok tt else err not_ready)
    else sleeping

unfoldable pub wait_layer_ready : String → State → Wait
wait_layer_ready id s = waited s.finished (lookup id s.layers)
