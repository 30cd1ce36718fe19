-- ===== src/Config/Examples.antt =====
-- A configuration that is accepted, and one with a negative number of threads.
use nydus_snapshotter.Base.{◌≡◌, ◌↔◌, refl, ◌-◌, ◌^◌, true, false, [], ◌∷◌, ok, err, failure}
use nydus_snapshotter.Daemon.{fusedev, multiple}
use nydus_snapshotter.Config.{Settings, validate_config}
use nydus_snapshotter.Config.Valid.{IsValid, validate_config_lem}

abbrev settings : Settings
settings = record {
  address = "/run/grpc.sock";
  root = 47 ∷ 118 ∷ [];
  daemon_mode = multiple;
  validate_signature = false;
  public_key_file = "";
  fs_driver = fusedev;
  recover_policy = "failover";
  threads_number = 4;
  failover_policy = "resend";
  enable_cri_keychain = false;
  enable_kubeconfig_keychain = true;
  mirrors_dir = "";
  nydusd_config_path = "";
  nydusd_path = "";
  nydus_image_path = "";
  log_level = "info";
  log_to_stdout = true;
  nydus_overlayfs_path = "";
}

accepted : validate_config (λ f. err (failure 1)) (λ d. ok false) settings ≡ ok tt
unfolding validate_config
accepted = refl

negative_accepted :
    validate_config
      (λ f. err (failure 1))
      (λ d. ok false)
      (record settings { threads_number = 2 ^ 64 - 1 })
    ≡ ok tt
unfolding validate_config
negative_accepted = refl

validate_config_lem_example :
    (validate_config (λ f. err (failure 1)) (λ d. ok false) settings ≡ ok tt)
    ↔ IsValid (λ f. err (failure 1)) (λ d. ok false) settings
validate_config_lem_example = validate_config_lem (λ f. err (failure 1)) (λ d. ok false) settings
