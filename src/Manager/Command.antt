-- ===== src/Manager/Command.antt =====
-- pkg/manager/daemon_adaptor.go: the command line of nydusd and the start of a daemon. The options are
-- data; their printing (pkg/command) is a parameter.
use nydus_snapshotter.Base.{
  ℕ, ◌≡◌, ◌==◌, not, String, Bool, true, false, Option, none, some, List, [], ◌∷◌, ◌++◌, Result, ok,
  err, not_found, if◌then◌else◌, ltb, ◌=ℕ=◌, ◌>>=◌,
}
use nydus_snapshotter.Base.Dict.{Dict, lookup, remove, lookup-remove_self}
use nydus_snapshotter.Daemon.{Daemon, Rafs, FsDriver, fusedev, fscache, fs_driver_eq}
use nydus_snapshotter.Manager.Steps.{Step, must, may, run_steps}

-- `command.With*`.
pub data CommandOption : Type 0 where
  with_mode with_mountpoint with_fscache_driver with_config with_bootstrap : String → CommandOption
  with_backend_source with_supervisor with_id with_prefetch_files : String → CommandOption
  with_log_level with_api_sock with_log_file with_failover_policy : String → CommandOption
  with_fscache_threads with_thread_num with_log_rotation_size : ℕ → CommandOption
  with_upgrade : CommandOption

-- What the command line takes from elsewhere: the directory of the cache, the daemon's paths, its
-- sharing, its first instance and that one's bootstrap, the backend source, the supervisor's socket.
pub record Setting : Type 0 where
  pub cache_dir : String
  pub nydusd_binary_path : String
  pub host_mountpoint : String
  pub is_shared : Bool
  pub head : Option Rafs
  pub bootstrap_file : Rafs → Result String
  pub config_file : String
  pub backend_source : Option String
  pub supervisor_sock : Option String
  pub log_file : String
  pub build_command : List CommandOption → Result (List String)

abbrev pub when : Bool → CommandOption → List CommandOption
when true o = o ∷ []
when false o = []

abbrev pub backend_option : Option String → List CommandOption
backend_option none = []
backend_option (some s) = with_backend_source s ∷ []

-- A dedicated daemon serves its first instance, whose image is the reference for prefetching.
abbrev pub dedicated_options : Setting → Option Rafs → Result (String × List CommandOption)
dedicated_options c none = err not_found
dedicated_options c (some r) = c.bootstrap_file r >>= λ b.
    ok (r.image_id, with_config c.config_file ∷ with_bootstrap b ∷ backend_option c.backend_source)

abbrev pub prefixed :
    List CommandOption → String × List CommandOption → Result (String × List CommandOption)
prefixed os (image, more) = ok (image, os ++ more)

abbrev pub driver_options : Setting → Daemon → FsDriver → Result (String × List CommandOption)
driver_options c d fscache = ok (
  "",
  with_mode "singleton"
      ∷ with_fscache_driver c.cache_dir
      ∷ when (not (d.states.thread_num =ℕ= 0)) (with_fscache_threads d.states.thread_num),
)
driver_options c d _ =
    (if c.is_shared then ok ("", []) else dedicated_options c c.head)
    >>= prefixed (
        with_mode "fuse"
        ∷ with_mountpoint c.host_mountpoint
        ∷ when (not (d.states.thread_num =ℕ= 0)) (with_thread_num d.states.thread_num))

abbrev pub supervisor_options : Option String → String → List CommandOption
supervisor_options none id = []
supervisor_options (some sock) id = with_supervisor sock ∷ with_id id ∷ []

-- `GetPrefetchInfo`, where an absent image has the empty text.
abbrev pub prefetch_of : Option String → String
prefetch_of none = ""
prefetch_of (some files) = files

abbrev pub is_given : String → Bool
is_given s = not (s == "")

-- The files are handed to one command and then forgotten.
unfoldable pub prefetch_files : String → Dict String → Dict String × List CommandOption
prefetch_files image pm =
    let files = prefetch_of (lookup image pm) in
    if is_given image
    then (if is_given files then (remove image pm, with_prefetch_files files ∷ []) else (pm, []))
    else (pm, [])

abbrev pub common_options : Setting → Daemon → (upgrade : Bool) → List CommandOption
common_options c d upgrade =
    with_log_level d.states.log_level
      ∷ with_api_sock d.states.api_socket
      ∷ when (ltb 0 d.states.log_rotation_size) (with_log_rotation_size d.states.log_rotation_size)
    ++ when upgrade with_upgrade
    ++ when (not d.states.log_to_stdout) (with_log_file c.log_file)
    ++ when (fs_driver_eq d.states.fs_driver fusedev)
        (with_failover_policy d.states.failover_policy)

abbrev pub binary : (bin configured : String) → String
binary bin configured = if is_given bin then bin else configured

unfoldable pub built_command :
    Setting
    → Daemon
    → (bin : String) → (upgrade : Bool) → Dict String
    → Result (String × List CommandOption)
    → Dict String × Result (String × List String)
unfolding prefetch_files
built_command c d bin upgrade pm (err e) = (pm, err e)
built_command c d bin upgrade pm (ok (image, os)) = (
  (prefetch_files image pm).0,
  c.build_command (
        os
        ++ supervisor_options c.supervisor_sock d.states.id
        ++ (prefetch_files image pm).1
        ++ common_options c d upgrade)
      >>= λ args. ok (binary bin c.nydusd_binary_path, args),
)

unfoldable pub build_daemon_command :
    Setting
    → Daemon
    → (bin : String) → (upgrade : Bool) → Dict String
    → Dict String × Result (String × List String)
unfolding built_command
build_daemon_command c d bin upgrade pm =
    built_command c d bin upgrade pm (driver_options c d d.states.fs_driver)

-- The calls of `StartDaemon` after the process is started, the last ones in a goroutine whose errors
-- are only logged.
pub data StartCall : Type 0 where
  update_store wait_socket subscribe_event wait_running add_to_cgroup send_states : StartCall

abbrev pub watch_steps : (has_cgroup : Bool) → List (Step StartCall)
watch_steps true =
    must wait_socket
    ∷ must subscribe_event
    ∷ must wait_running
    ∷ must add_to_cgroup
    ∷ may send_states
    ∷ []
watch_steps false =
    must wait_socket ∷ must subscribe_event ∷ must wait_running ∷ may send_states ∷ []

abbrev pub with_pid : ℕ → Daemon → Daemon
with_pid pid d = record d { states = record d.states { process_id = pid } }

unfoldable pub process_started :
    (List StartCall → StartCall → Result (Unit {0}))
    → (has_cgroup : Bool) → Daemon
    → Result ℕ
    → Daemon × List StartCall × Result (Unit {0})
unfolding run_steps
process_started a has_cgroup d (err e) = (d, [], err e)
process_started a has_cgroup d (ok pid) =
    (with_pid pid d, (run_steps a (may update_store ∷ watch_steps has_cgroup) []).0, ok tt)

unfoldable pub command_built :
    (List StartCall → StartCall → Result (Unit {0}))
    → (has_cgroup : Bool) → Daemon
    → (start : String × List String → Result ℕ) → Result (String × List String)
    → Daemon × List StartCall × Result (Unit {0})
unfolding process_started
command_built a has_cgroup d start (err e) = (d, [], err e)
command_built a has_cgroup d start (ok cmd) = process_started a has_cgroup d (start cmd)

unfoldable pub start_daemon :
    (List StartCall → StartCall → Result (Unit {0}))
    → (has_cgroup : Bool) → Setting
    → Daemon
    → (start : String × List String → Result ℕ) → Dict String
    → Dict String × (Daemon × List StartCall × Result (Unit {0}))
unfolding build_daemon_command command_built
start_daemon a has_cgroup c d start pm =
    let (pm', cmd) = build_daemon_command c d "" false pm in
    (pm', command_built a has_cgroup d start cmd)

-- Once the files of an image are handed out, there are none for the next command.
prefetch_files-once :
    (image : String) (pm : Dict String)
    → is_given image ≡ true
    → is_given (prefetch_of (lookup image pm)) ≡ true
    → prefetch_files image (prefetch_files image pm).0 ≡ (remove image pm, [])
unfolding prefetch_files
prefetch_files-once image pm h k = simp (h, k, lookup-remove_self image pm)
