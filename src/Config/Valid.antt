-- ===== src/Config/Valid.antt =====
-- Which configurations are accepted.
use nydus_snapshotter.Base.{
  ◌≡◌, ◌≢◌, ◌^◌, ◌<◌, ◌≤◌, ◌&&◌, not, ◌↔◌, ◌⊎◌, inl, inr, refl, ap, Bool, true, false, Error,
  Result, ok, err, length, arith, eq_iff, ltb, ◌>>=◌, ◌=ℕ=◌, String, invalid_argument,
}
use nydus_snapshotter.Daemon.{no_driver, other_driver}
use nydus_snapshotter.Manager.Events.{RecoverPolicy, policy_none, policy_restart, policy_failover}
use nydus_snapshotter.Config.{
  Settings, max_root_path_len, parse_recover_policy, too_many, is_known, is_failover_policy, refuse,
  invalid_setting, check_signature, check_mirrors, validate_config,
}

-- The accepted configurations, without an order of checks.
pub record IsValid (stat : String → Result (Unit {0})) (is_dir : String → Result Bool)
    (c : Settings) : Type 0 where
  pub signed :
      (c.validate_signature ≡ false) ⊎ ((c.public_key_file ≢ "") × (stat c.public_key_file ≡ ok tt))
  pub rooted : (0 < length c.root) × (length c.root ≤ 70)
  pub driven : (c.fs_driver ≢ no_driver) × (c.fs_driver ≢ other_driver)
  pub recovering :
      (c.recover_policy ≡ "none")
      ⊎ ((c.recover_policy ≡ "restart") ⊎ (c.recover_policy ≡ "failover"))
  pub threads : (c.threads_number ≤ 1024) ⊎ (2 ^ 63 ≤ c.threads_number)
  pub failing :
      (c.failover_policy ≡ "none")
      ⊎ ((c.failover_policy ≡ "resend") ⊎ (c.failover_policy ≡ "flush"))
  pub one_keychain : (c.enable_cri_keychain ≡ false) ⊎ (c.enable_kubeconfig_keychain ≡ false)
  pub mirrored : (c.mirrors_dir ≡ "") ⊎ (is_dir c.mirrors_dir ≡ ok true)

-- A chain succeeds where both parts do.
and_then :
    {A B : Type 0} (r : Result A) (s : Result B) (b : B)
    → (r >>= (λ _. s)) ≡ ok b
    → ((a : A) × (r ≡ ok a)) × (s ≡ ok b)
and_then (ok a) s b h = ((a, refl), h)
and_then (err e) s b h = absurd (ground (arith, h))

both_ok :
    {A B : Type 0} (r : Result A) (s : Result B) (a : A) (b : B)
    → r ≡ ok a
    → s ≡ ok b
    → (r >>= (λ _. s)) ≡ ok b
both_ok (ok c) s a b h k = k
both_ok (err e) s a b h k = absurd (ground (arith, h))

refuse_ok : (b : Bool) (e : Error) (u : Unit {0}) → refuse b e ≡ ok u → b ≡ false
refuse_ok true e u h = absurd (ground (arith, h))
refuse_ok false e u h = refl

ok_refuse : (b : Bool) (e : Error) → b ≡ false → refuse b e ≡ ok tt
ok_refuse true e h = absurd (ground (arith, h))
ok_refuse false e h = refl

module _ (stat : String → Result (Unit {0})) (is_dir : String → Result Bool) (c : Settings) where
  signed_sound :
      check_signature stat is_dir c ≡ ok tt
      → (c.validate_signature ≡ false)
        ⊎ ((c.public_key_file ≢ "") × (stat c.public_key_file ≡ ok tt))
  signed_sound h = ground (arith, h, eq_iff c.public_key_file "")

  signed_complete :
      (c.validate_signature ≡ false) ⊎ ((c.public_key_file ≢ "") × (stat c.public_key_file ≡ ok tt))
      → check_signature stat is_dir c ≡ ok tt
  signed_complete h = ground (arith, h, eq_iff c.public_key_file "")

  mirrored_sound :
      check_mirrors stat is_dir c ≡ ok tt → (c.mirrors_dir ≡ "") ⊎ (is_dir c.mirrors_dir ≡ ok true)
  mirrored_sound h = ground (arith, h, eq_iff c.mirrors_dir "")

  mirrored_complete :
      (c.mirrors_dir ≡ "") ⊎ (is_dir c.mirrors_dir ≡ ok true) → check_mirrors stat is_dir c ≡ ok tt
  mirrored_complete h = ground (arith, h, eq_iff c.mirrors_dir "")

policy_sound :
    (p : String) (r : RecoverPolicy)
    → parse_recover_policy p ≡ ok r
    → (p ≡ "none") ⊎ ((p ≡ "restart") ⊎ (p ≡ "failover"))
policy_sound p r h = ground (arith, h, eq_iff p "none", eq_iff p "restart", eq_iff p "failover")

policy_complete :
    (p : String)
    → (p ≡ "none") ⊎ ((p ≡ "restart") ⊎ (p ≡ "failover"))
    → (r : RecoverPolicy) × (parse_recover_policy p ≡ ok r)
policy_complete p (inl h) = (policy_none, ap parse_recover_policy h)
policy_complete p (inr (inl h)) = (policy_restart, ap parse_recover_policy h)
policy_complete p (inr (inr h)) = (policy_failover, ap parse_recover_policy h)

failing_sound :
    (p : String)
    → not (is_failover_policy p) ≡ false
    → (p ≡ "none") ⊎ ((p ≡ "resend") ⊎ (p ≡ "flush"))
failing_sound p h = ground (arith, h, eq_iff p "none", eq_iff p "resend", eq_iff p "flush")

failing_complete :
    (p : String)
    → (p ≡ "none") ⊎ ((p ≡ "resend") ⊎ (p ≡ "flush"))
    → not (is_failover_policy p) ≡ false
failing_complete p h = ground (arith, h, eq_iff p "none", eq_iff p "resend", eq_iff p "flush")

module _ (stat : String → Result (Unit {0})) (is_dir : String → Result Bool) (c : Settings) where
  sound : validate_config stat is_dir c ≡ ok tt → IsValid stat is_dir c
  unfolding validate_config
  sound h =
      let (h7, m) = and_then _ _ tt h in
      let (h6, k) = and_then _ _ tt h7.1 in
      let (h5, f) = and_then _ _ tt h6.1 in
      let (h4, t) = and_then _ _ tt h5.1 in
      let (h3, p) = and_then _ _ h4.0 h4.1 in
      let (h2, d) = and_then _ _ tt h3.1 in
      let (h1, l) = and_then _ _ tt h2.1 in
      let (h0, z) = and_then _ _ tt h1.1 in
      record {
        signed = signed_sound stat is_dir c h0.1;
        rooted = (
          ground (arith, refuse_ok (length c.root =ℕ= 0) (invalid_setting 4) tt z),
          ground
              (arith, refuse_ok (ltb max_root_path_len (length c.root)) (invalid_setting 5) tt l),
        );
        driven = ground (arith, refuse_ok (not (is_known c.fs_driver)) (invalid_setting 6) tt d);
        recovering = policy_sound c.recover_policy h4.0 p;
        threads = ground (arith, refuse_ok (too_many c.threads_number) (invalid_setting 7) tt t);
        failing =
            failing_sound c.failover_policy
              (refuse_ok (not (is_failover_policy c.failover_policy)) (invalid_setting 8) tt f);
        one_keychain = ground (
          arith,
          refuse_ok (c.enable_cri_keychain && c.enable_kubeconfig_keychain) invalid_argument tt k,
        );
        mirrored = mirrored_sound stat is_dir c m;
      }

  complete : IsValid stat is_dir c → validate_config stat is_dir c ≡ ok tt
  unfolding validate_config
  complete v =
      let policy = policy_complete c.recover_policy v.recovering in
      both_ok _ _ tt tt
        (both_ok _ _ tt tt
          (both_ok _ _ tt tt
            (both_ok _ _ policy.0 tt
              (both_ok _ _ tt policy.0
                (both_ok _ _ tt tt
                  (both_ok _ _ tt tt
                    (both_ok _ _ tt tt (signed_complete stat is_dir c v.signed) (
                      ok_refuse (length c.root =ℕ= 0) (invalid_setting 4)
                        (ground (arith, v.rooted))))
                    (ok_refuse (ltb max_root_path_len (length c.root)) (invalid_setting 5)
                      (ground (arith, v.rooted))))
                  (ok_refuse (not (is_known c.fs_driver)) (invalid_setting 6)
                    (ground (arith, v.driven))))
                policy.1)
              (ok_refuse (too_many c.threads_number) (invalid_setting 7)
                (ground (arith, v.threads))))
            (ok_refuse (not (is_failover_policy c.failover_policy)) (invalid_setting 8)
              (failing_complete c.failover_policy v.failing)))
          (ok_refuse (c.enable_cri_keychain && c.enable_kubeconfig_keychain) invalid_argument
            (ground (arith, v.one_keychain))))
        (mirrored_complete stat is_dir c v.mirrored)

-- The configuration is accepted exactly where: a signature check has a public key file that is
-- there; the root path has 1 to 70 bytes; the driver, the recover policy and the failover policy
-- are known; the number of threads is at most 1024 or negative; at most one of the two key chains
-- is on; and the directory of mirrors, if set, exists.
pub validate_config_lem :
    (stat : String → Result (Unit {0})) (is_dir : String → Result Bool) (c : Settings)
    → (validate_config stat is_dir c ≡ ok tt) ↔ IsValid stat is_dir c
validate_config_lem stat is_dir c = (sound stat is_dir c, complete stat is_dir c)
