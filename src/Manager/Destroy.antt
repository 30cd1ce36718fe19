-- ===== src/Manager/Destroy.antt =====
-- pkg/manager/manager.go, `DestroyDaemon`: taking a daemon down.
use nydus_snapshotter.Base.{
  ◌≡◌, refl, ap, ◌∙◌, ◌⊎◌, inl, inr, String, Bool, true, false, none, some, List, [], ◌∷◌, ◌++◌,
  arith, Error, Result, ok, err, eq_refl, if◌then◌else◌, Bool-cases,
}
use nydus_snapshotter.Base.Dict.{
  Dict, lookup, remove, values, lookup-remove_self, remove_first, IsMap,
}
use nydus_snapshotter.Daemon.{Rafs, Daemon}
use nydus_snapshotter.Daemon.Refs.{remove_rafs_instance}
use nydus_snapshotter.Daemon.Mounts.{Call, is_shared_daemon, umount_each, umount_rafs_instances}
use nydus_snapshotter.Store.{Tx}
use nydus_snapshotter.Store.Records.{at_key, Effect}
use nydus_snapshotter.Store.Interface.{StateStore}
use nydus_snapshotter.Manager.Cache.{remove_locked}
use nydus_snapshotter.Manager.{Manager, followed, delete_daemon}

-- The steps behind the record's deletion. Each may fail; the source logs that and goes on.
pub data Teardown : Type 0 where
  umounts : Call → Teardown
  unsubscribes destroys_supervisor terminates waits : String → Teardown
  removes_dirs : List String → Teardown

-- `for _, r := range d.RafsCache.List() { d.RemoveRafsInstance(r.SnapshotID) }`.
unfoldable pub remove_each : List Rafs → Daemon → Daemon
remove_each [] d = d
remove_each (r ∷ rs) d = remove_each rs (remove_rafs_instance r.snapshot_id d)

pub umount_steps : List Call → List Teardown
umount_steps [] = []
umount_steps (c ∷ cs) = umounts c ∷ umount_steps cs

-- `cleanUpDaemonResources`; `dir_of` is `path.Dir`.
resources : (String → String) → String → Daemon → List String
resources dir_of root d =
    let dirs = d.states.config_dir ∷ d.states.log_dir ∷ [] in
    if is_shared_daemon root d then dirs else dirs ++ dir_of d.states.api_socket ∷ []

later_steps : String → List String → Bool → List Teardown
later_steps id dirs true =
    unsubscribes id ∷ destroys_supervisor id ∷ terminates id ∷ waits id ∷ removes_dirs dirs ∷ []
later_steps id dirs false = unsubscribes id ∷ terminates id ∷ waits id ∷ removes_dirs dirs ∷ []

module _ {S : Type 0} (api : StateStore S) (answers : Call → Result (Unit {0})) (domain : String)
    (fscache_id : String → String) (dir_of : String → String) (root : String)
    (has_supervisors : Bool) where
  teardown : Rafs → Daemon → Daemon × List Teardown
  unfolding resources umount_steps later_steps
  teardown r d =
      let gone = remove_each (values d.rafs_cache) d in
      let w =
        (umount_rafs_instances answers domain fscache_id root
          (record { daemon = gone; object = r; calls = [] })).0 in
      let id = d.states.id in
      (
        w.daemon,
        umount_steps w.calls ++ later_steps id (resources dir_of root w.daemon) has_supervisors,
      )

  destroyed :
      Rafs
      → Daemon
      → Manager S × Result (Unit {0})
      → Manager S × Daemon × List Teardown × Result (Unit {0})
  unfolding teardown
  destroyed r d (m, err e) = (m, d, [], err e)
  destroyed r d (m, ok u) = let (d', steps) = teardown r d in (m, d', steps, ok tt)

  -- The manager, the daemon object, the steps taken and the result. `object` is of no matter here.
  unfoldable pub destroy_daemon :
      Tx → Rafs → Daemon → Manager S → Manager S × Daemon × List Teardown × Result (Unit {0})
  unfolding destroyed
  destroy_daemon tx object d m = destroyed object d (delete_daemon api tx (some d) m)

-- The calls among the steps that unmount something.
abbrev pub umounted : List Teardown → List Call
umounted [] = []
umounted (umounts c ∷ ts) = c ∷ umounted ts
umounted (_ ∷ ts) = umounted ts

-- Each instance stands under its snapshot's id.
abbrev pub IsKeyed : Dict Rafs → Type 0
IsKeyed [] = Unit {0}
IsKeyed ((k, r) ∷ m) = (r.snapshot_id ≡ k) × IsKeyed m

left :
    (k : String) (r : Rafs) (es : Dict Rafs) (d : Daemon)
    → d.rafs_cache ≡ (k, r) ∷ es
    → r.snapshot_id ≡ k
    → lookup k es ≡ none
    → (remove_rafs_instance r.snapshot_id d).rafs_cache ≡ es
unfolding remove_rafs_instance
left k r es d e key fresh =
    ap (remove r.snapshot_id) e ∙ ap (λ i. remove i ((k, r) ∷ es)) key ∙ remove_first k r es fresh

remove_each-values :
    (es : Dict Rafs) (d : Daemon)
    → d.rafs_cache ≡ es
    → IsMap es
    → IsKeyed es
    → (remove_each (values es) d).rafs_cache ≡ []
unfolding remove_each values
remove_each-values [] d e u k = e
remove_each-values ((k, r) ∷ es) d e (fresh, u) (key, ks) =
    remove_each-values es (remove_rafs_instance r.snapshot_id d) (left k r es d e key fresh) u ks

abbrev pub Destroys :
    {S : Type 0}
    → StateStore S
    → Daemon
    → Manager S
    → Manager S × Daemon × List Teardown × Result (Unit {0})
    → Type 0
Destroys api d m (m', d', steps, result) =
    ((result ≡ ok tt)
      × ((api.view_of m'.store).daemons d.states.id ≡ none)
      × (lookup d.states.id m'.cache ≡ none)
      × (d'.rafs_cache ≡ [])
      × (umounted steps ≡ []))
    ⊎ (((e : Error) × (result ≡ err e))
        × (m'.store ≡ m.store)
        × (m'.cache ≡ m.cache)
        × (d' ≡ d)
        × (steps ≡ []))

module _ {S : Type 0} (api : StateStore S) (answers : Call → Result (Unit {0})) (domain : String)
    (fscache_id : String → String) (dir_of : String → String) (root : String)
    (has_supervisors : Bool) where
  -- A daemon without instances has nothing to unmount.
  umount_rafs_instances_nothing :
      (d : Daemon) (r : Rafs)
      → d.rafs_cache ≡ []
      → umount_rafs_instances answers domain fscache_id root
          (record { daemon = d; object = r; calls = [] })
        ≡ (record { daemon = d; object = r; calls = [] }, ok tt)
  unfolding umount_rafs_instances umount_each values
  umount_rafs_instances_nothing d r e = elim (Bool-cases (is_shared_daemon root d)) [
    | inl s ↦ rw s (rw e refl)
    | inr s ↦ rw s
  ]

  later_steps-quiet :
      (id : String) (dirs : List String) (b : Bool) → umounted (later_steps id dirs b) ≡ []
  unfolding later_steps
  later_steps-quiet id dirs true = refl
  later_steps-quiet id dirs false = refl

  teardown_lem :
      (r : Rafs) (d : Daemon)
      → IsMap d.rafs_cache
      → IsKeyed d.rafs_cache
      → let t = teardown api answers domain fscache_id dir_of root has_supervisors r d in
        (t.0.rafs_cache ≡ []) × (umounted t.1 ≡ [])
  unfolding teardown umount_steps
  teardown_lem r d u k =
      let none_left = remove_each-values d.rafs_cache d refl u k in
      let nothing =
        umount_rafs_instances_nothing (remove_each (values d.rafs_cache) d) r none_left in
      (
        ap (λ z. z.0.daemon.rafs_cache) nothing ∙ none_left,
        rw nothing (later_steps-quiet d.states.id _ has_supervisors),
      )

  destroyed_lem :
      (object : Rafs) (d : Daemon) (m : Manager S)
      → IsMap d.rafs_cache
      → IsKeyed d.rafs_cache
      → (q : S × Result (Unit {0}))
      → Effect api.view_of m.store
          (record (api.view_of m.store) {
            daemons = at_key d.states.id none (api.view_of m.store).daemons;
          })
          q
      → Destroys api d m (
          destroyed api answers domain fscache_id dir_of root has_supervisors object d
            (followed api m q (λ c. remove d.states.id c)))
  unfolding destroyed followed
  destroyed_lem object d m u k (s, ok _) (inl (_, v)) =
      let (empty, quiet) = teardown_lem object d u k in
      inl (
        refl,
        rw v (ground (arith, eq_refl d.states.id)),
        lookup-remove_self d.states.id m.cache,
        empty,
        quiet,
      )
  destroyed_lem object d m u k (s, ok _) (inr (e, bad, _)) = absurd (ground arith)
  destroyed_lem object d m u k (s, err e) (inl (bad, _)) = absurd (ground arith)
  destroyed_lem object d m u k (s, err e) (inr (_, _, same)) =
      inr ((e, refl), same, refl, refl, refl)

  -- `DestroyDaemon` either fails, in deleting the record, and then has done nothing; or it succeeds,
  -- whatever its later steps meet: the daemon is gone from the store and from the cache, and has no
  -- instance. But it asks for no unmount, whichever instances the daemon served, since it empties
  -- their list before it unmounts what is on it.
  pub destroy_daemon_lem :
      (tx : Tx) (object : Rafs) (d : Daemon) (m : Manager S)
      → IsMap d.rafs_cache
      → IsKeyed d.rafs_cache
      → Destroys api d m
          (destroy_daemon api answers domain fscache_id dir_of root has_supervisors tx object d m)
  unfolding destroy_daemon delete_daemon remove_locked
  destroy_daemon_lem tx object d m u k =
      destroyed_lem object d m u k (api.delete tx d.states.id m.store)
        (api.delete_lem tx d.states.id m.store)
