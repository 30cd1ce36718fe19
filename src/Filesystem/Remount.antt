-- ===== src/Filesystem/Remount.antt =====
-- pkg/filesystem/fs.go: what an unmount does to the cache of instances.
use nydus_snapshotter.Base.{
  ◌≡◌, refl, ap, ◌∙◌, Bool, String, some, Error, Result, ok, err, arith, Option-cases, inl, inr,
}
use nydus_snapshotter.Base.Dict.{lookup}
use nydus_snapshotter.Label.{Labels}
use nydus_snapshotter.Daemon.{
  Rafs, FsDriver, fusedev, fscache, blockdev, nodev, proxy, no_driver, other_driver, get_fs_driver,
}
use nydus_snapshotter.Filesystem.{
  Call, get_manager, get_daemon, drop_from_daemon, unpersist, umount_instance, destroy_unused,
  umount_tarfs, World, Config, Act, next, ◌>>◌, tolerated, any_error, call, note, umount_by,
  umount_driver, umount_found, umount, mount,
}

abbrev Keeps : Act → Type 0
Keeps m = (w : World) → (m w).0.cache ≡ w.cache

next-cache : (k : Act) (r : World × Result (Unit {0})) → Keeps k → (next k r).0.cache ≡ r.0.cache
next-cache k (w, ok u) h = h w
next-cache k (w, err e) h = refl

then-Keeps : (m k : Act) → Keeps m → Keeps k → Keeps (m >> k)
then-Keeps m k hm hk = λ w. next-cache k (m w) hk ∙ hm w

tolerated-cache :
    (fine : Error → Bool) (r : World × Result (Unit {0})) → (tolerated fine r).0.cache ≡ r.0.cache
tolerated-cache fine (w, ok u) = refl
tolerated-cache fine (w, err e) = ground arith

module _ (c : Config) where
  call-Keeps : (q : Call) → Keeps (call c q)
  unfolding call
  call-Keeps q = λ w. refl

  note-Keeps : (q : Call) → Keeps (note c q)
  unfolding note
  note-Keeps q = λ w. refl

  serve-Keeps : (id : String) → Keeps (umount_by c fusedev id)
  unfolding umount_by
  serve-Keeps id =
      let m1 = call c (get_daemon id) >> note c (drop_from_daemon id) in
      let m2 = m1 >> call c (unpersist id) in
      let m3 = m2 >> call c (umount_instance id) in
      let k1 =
        then-Keeps (call c (get_daemon id)) (note c (drop_from_daemon id))
          (call-Keeps (get_daemon id)) (note-Keeps (drop_from_daemon id)) in
      let k2 = then-Keeps m1 (call c (unpersist id)) k1 (call-Keeps (unpersist id)) in
      let k3 = then-Keeps m2 (call c (umount_instance id)) k2 (call-Keeps (umount_instance id)) in
      then-Keeps m3 (call c (destroy_unused id)) k3 (call-Keeps (destroy_unused id))

  umount_by-Keeps : (d : FsDriver) (id : String) → Keeps (umount_by c d id)
  unfolding umount_by
  umount_by-Keeps fscache id = serve-Keeps id
  umount_by-Keeps fusedev id = serve-Keeps id
  umount_by-Keeps blockdev id =
      then-Keeps (call c (umount_tarfs id)) (call c (unpersist id)) (call-Keeps (umount_tarfs id))
        (call-Keeps (unpersist id))
  umount_by-Keeps nodev id = λ w. refl
  umount_by-Keeps proxy id =
      λ w. tolerated-cache any_error (call c (unpersist id) w) ∙ call-Keeps (unpersist id) w
  umount_by-Keeps no_driver id = λ w. refl
  umount_by-Keeps other_driver id = λ w. refl

  managed-Keeps : (d : FsDriver) (id : String) → Keeps (call c (get_manager d) >> umount_by c d id)
  managed-Keeps d id =
      then-Keeps (call c (get_manager d)) (umount_by c d id) (call-Keeps (get_manager d))
        (umount_by-Keeps d id)

  driver-Keeps : (d : FsDriver) (id : String) → Keeps (umount_driver c d id)
  unfolding umount_driver
  driver-Keeps nodev id = λ w. refl
  driver-Keeps fscache id = managed-Keeps fscache id
  driver-Keeps fusedev id = managed-Keeps fusedev id
  driver-Keeps blockdev id = managed-Keeps blockdev id
  driver-Keeps proxy id = managed-Keeps proxy id
  driver-Keeps no_driver id = managed-Keeps no_driver id
  driver-Keeps other_driver id = managed-Keeps other_driver id

  umount-Keeps : (id : String) → Keeps (umount c id)
  unfolding umount umount_found
  umount-Keeps id w = elim (Option-cases (lookup id w.cache)) [
    | inl e ↦ ground (arith, e)
    | inr (r, e) ↦
        ap (λ o. (umount_found c id w o).0.cache) e ∙ driver-Keeps (get_fs_driver c.driver r) id w
  ]

  -- An unmount, of whichever driver and with whichever result, keeps the instance in the cache of all
  -- instances: a mount of the same snapshot after it reports success and does nothing.
  pub remount_lem :
      (id : String) (labels : Labels) (w : World) (r : Rafs)
      → lookup id w.cache ≡ some r
      → mount c id labels (umount c id w).0 ≡ ((umount c id w).0, ok tt)
  unfolding mount
  remount_lem id labels w r there =
      let still = ap (lookup id) (umount-Keeps id w) ∙ there in ground (arith, still)
