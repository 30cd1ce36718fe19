-- ===== src/Config.antt =====
-- config/config.go: the check of the configuration and the options of the command line. A root path
-- is the list of its bytes; the number of threads is the 64-bit pattern of an `int`.
pub mod Valid
mod Examples
use nydus_snapshotter.Base.{
  ℕ, ◌+◌, ◌^◌, ◌==◌, ◌&&◌, ◌||◌, not, String, Bool, true, false, Option, none, some, List, [], ◌∷◌,
  Error, failure, invalid_argument, Result, ok, err, if◌then◌else◌, ltb, length, ◌>>=◌, ◌=ℕ=◌,
}
use nydus_snapshotter.Daemon.{
  FsDriver, fusedev, fscache, blockdev, nodev, proxy, no_driver, other_driver, DaemonMode,
  unset_mode,
}
use nydus_snapshotter.Manager.Events.{RecoverPolicy, policy_none, policy_restart, policy_failover}

-- The part of `SnapshotterConfig` that the two functions read or write.
pub record Settings : Type 0 where
  pub address : String
  pub root : List ℕ
  pub daemon_mode : DaemonMode
  pub validate_signature : Bool
  pub public_key_file : String
  pub fs_driver : FsDriver
  pub recover_policy : String
  pub threads_number : ℕ
  pub failover_policy : String
  pub enable_cri_keychain : Bool
  pub enable_kubeconfig_keychain : Bool
  pub mirrors_dir : String
  pub nydusd_config_path : String
  pub nydusd_path : String
  pub nydus_image_path : String
  pub log_level : String
  pub log_to_stdout : Bool
  pub nydus_overlayfs_path : String

abbrev pub max_root_path_len : ℕ
max_root_path_len = 70

abbrev pub invalid_setting : ℕ → Error
invalid_setting n = failure (100 + n)

-- `ParseRecoverPolicy`.
abbrev pub parse_recover_policy : String → Result RecoverPolicy
parse_recover_policy p =
    if p == "none"
    then ok policy_none
    else if p == "restart"
    then ok policy_restart
    else if p == "failover"
    then ok policy_failover
    else err (invalid_setting 1)

-- `n > 1024` of an `int`.
abbrev pub too_many : ℕ → Bool
too_many n = ltb 1024 n && ltb n (2 ^ 63)

abbrev pub is_known : FsDriver → Bool
is_known no_driver = false
is_known other_driver = false
is_known _ = true

abbrev pub is_failover_policy : String → Bool
is_failover_policy p = (p == "none") || (p == "resend") || (p == "flush")

-- An error where the test holds.
abbrev pub refuse : Bool → Error → Result (Unit {0})
refuse b e = if b then err e else ok tt

abbrev pub existing : Result Bool → Result (Unit {0})
existing (err e) = err e
existing (ok b) = refuse (not b) (invalid_setting 2)

-- `os.Stat` and `file.IsDirExisted` are parameters.
module _ (stat : String → Result (Unit {0})) (is_dir : String → Result Bool) where
  abbrev pub check_signature : Settings → Result (Unit {0})
  check_signature c =
      if c.validate_signature
      then (if c.public_key_file == "" then err (invalid_setting 3) else stat c.public_key_file)
      else ok tt

  abbrev pub check_mirrors : Settings → Result (Unit {0})
  check_mirrors c = if c.mirrors_dir == "" then ok tt else existing (is_dir c.mirrors_dir)

  unfoldable pub validate_config : Settings → Result (Unit {0})
  validate_config c =
      check_signature c
      >>= (λ _. refuse (length c.root =ℕ= 0) (invalid_setting 4))
      >>= (λ _. refuse (ltb max_root_path_len (length c.root)) (invalid_setting 5))
      >>= (λ _. refuse (not (is_known c.fs_driver)) (invalid_setting 6))
      >>= (λ _. parse_recover_policy c.recover_policy)
      >>= (λ _. refuse (too_many c.threads_number) (invalid_setting 7))
      >>= (λ _. refuse (not (is_failover_policy c.failover_policy)) (invalid_setting 8))
      >>= (λ _. refuse (c.enable_cri_keychain && c.enable_kubeconfig_keychain) invalid_argument)
      >>= (λ _. check_mirrors c)

-- `flags.Args`; an option that was not given is `none` (the empty text).
pub record Args : Type 0 where
  pub address : Option String
  pub root_dir : Option (List ℕ)
  pub daemon_mode : Option DaemonMode
  pub nydusd_config_path : Option String
  pub nydusd_path : Option String
  pub nydus_image_path : Option String
  pub fs_driver : Option FsDriver
  pub log_level : Option String
  pub log_to_stdout : Option Bool
  pub nydus_overlayfs_path : Option String

abbrev pub given {ℓ} : {A : Type ℓ} → Option A → A → A
given none old = old
given (some new) old = new

unfoldable pub parse_parameters : Args → Settings → Settings
parse_parameters a c = record c {
  address = given a.address c.address;
  root = given a.root_dir c.root;
  daemon_mode = given a.daemon_mode c.daemon_mode;
  nydusd_config_path = given a.nydusd_config_path c.nydusd_config_path;
  nydusd_path = given a.nydusd_path c.nydusd_path;
  nydus_image_path = given a.nydus_image_path c.nydus_image_path;
  fs_driver = given a.fs_driver c.fs_driver;
  log_level = given a.log_level c.log_level;
  log_to_stdout = given a.log_to_stdout c.log_to_stdout;
  nydus_overlayfs_path = given a.nydus_overlayfs_path c.nydus_overlayfs_path;
}
