-- ===== src/Filesystem/Mount.antt =====
-- pkg/filesystem/fs.go: what a failed mount leaves behind.
use nydus_snapshotter.Base.{
  ◌≡◌, sym, String, Option, none, some, Error, Result, ok, err, arith, if◌then◌else◌, is_some,
}
use mathlib.Core.Path.{subst}
use nydus_snapshotter.Base.Dict.{lookup, lookup-remove_self}
use nydus_snapshotter.Label.{Labels}
use nydus_snapshotter.Filesystem.{
  make_dir, World, Config, next, image_of, call, driver_of, mount_body, revoked, cleaned,
  with_instance, mount_new, mount_image, mount, umount,
}

-- If the run fails, the snapshot has no instance in the cache.
abbrev AbsentOnError : String → World × Result (Unit {0}) → Type 0
AbsentOnError id r = (e : Error) → r.1 ≡ err e → lookup id r.0.cache ≡ none

next-AbsentOnError :
    (id : String) (k : World → World × Result (Unit {0})) (r : World × Result (Unit {0}))
    → lookup id r.0.cache ≡ none
    → ((w : World) → AbsentOnError id (k w))
    → AbsentOnError id (next k r)
next-AbsentOnError id k (w, ok u) absent h = h w
next-AbsentOnError id k (w, err e) absent h = λ x q. absent

module _ (c : Config) where
  cleaned-AbsentOnError :
      (id : String) (r : World × Result (Unit {0})) → AbsentOnError id (cleaned c id r)
  unfolding cleaned revoked
  cleaned-AbsentOnError id (w, ok u) = λ e h. absurd (ground arith)
  cleaned-AbsentOnError id (w, err x) = λ e h. lookup-remove_self id (umount c id w).0.cache

  image-AbsentOnError :
      (id : String) (labels : Labels) (image : Option String) (w : World)
      → lookup id w.cache ≡ none
      → AbsentOnError id (mount_image c id labels image w)
  unfolding mount_image mount_new call
  image-AbsentOnError id labels none w absent = λ e h. absent
  image-AbsentOnError id labels (some image) w absent =
      next-AbsentOnError id
        (λ w. cleaned c id (
          mount_body c (driver_of c labels) id labels
            (with_instance c (driver_of c labels) id image w)))
        (call c (make_dir id) w) absent
        (λ w'. cleaned-AbsentOnError id (
          mount_body c (driver_of c labels) id labels
            (with_instance c (driver_of c labels) id image w')))

  -- A mount that reports an error, at whichever step it failed and however the unmount that follows
  -- goes, leaves no instance of the snapshot in the cache, if there was none before.
  pub mount_failure_lem :
      (id : String) (labels : Labels) (w : World) (e : Error)
      → lookup id w.cache ≡ none
      → (mount c id labels w).1 ≡ err e
      → lookup id (mount c id labels w).0.cache ≡ none
  unfolding mount
  mount_failure_lem id labels w e absent =
      subst
        (λ o.
          AbsentOnError id
            (if is_some o then (w, ok tt) else mount_image c id labels (image_of labels) w))
        (sym absent) (image-AbsentOnError id labels (image_of labels) w absent) e
