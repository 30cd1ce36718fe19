-- ===== src/Manager/Synced.antt =====
-- pkg/manager/manager.go: "You should update `store` first before modifying cached state". The cached
-- daemons and their records in the store, after calls of the operations on daemons and instances and
-- of StartDaemon.
use nydus_snapshotter.Base.{
  ℕ, ◌≡◌, ◌==◌, refl, sym, ap, ◌∙◌, true, false, Bool, if◌then◌else◌, ◌⊎◌, inl, inr, String, Option,
  none, some, List, [], ◌∷◌, arith, Result, ok, err, eq_iff, Option-cases,
}
use mathlib.Core.Option.{some-injective}
use mathlib.Core.Path.{subst}
use nydus_snapshotter.Base.Dict.{Dict, lookup, insert, lookup-insert, lookup-insert_self}
use nydus_snapshotter.Daemon.{Rafs, ConfigState, Daemon}
use nydus_snapshotter.Store.{Tx}
use nydus_snapshotter.Store.Records.{View, Effect}
use nydus_snapshotter.Store.Interface.{StateStore}
use nydus_snapshotter.Manager.Cache.{add}
use nydus_snapshotter.Manager.{
  Manager, with_pid, record_start, followed, add_daemon, update_daemon, delete_daemon, stored,
  add_rafs_instance, update_rafs_instance, remove_rafs_instance,
}
use nydus_snapshotter.Manager.Agreed.{
  Relation, SameButPid, Same, IsRecorded, IsAgreed, IsSynced, IsExact, insert-IsRecorded,
  add_daemon-IsAgreed, update_daemon-IsAgreed, delete_daemon-IsAgreed, rafs-IsAgreed,
  rafs_added-IsAgreed,
}

module _ {S : Type 0} (api : StateStore S) where
  -- One call of the manager; the transactions say how the database fails.
  pub data Op : Type 0 where
    adds updates : Tx → Daemon → Op
    deletes : Tx → Option Daemon → Op
    starts : Tx → (id : String) → (pid : ℕ) → Op
    adds_rafs : Tx → Tx → Rafs → Op
    updates_rafs : Tx → Rafs → Op
    removes_rafs : Tx → String → Op

  unfoldable pub step : Manager S → Op → Manager S
  unfolding add_daemon update_daemon delete_daemon record_start add_rafs_instance
      update_rafs_instance remove_rafs_instance
  step m (adds tx d) = (add_daemon api tx d m).0
  step m (updates tx d) = (update_daemon api tx d m).0
  step m (deletes tx d) = (delete_daemon api tx d m).0
  step m (starts tx id pid) = (record_start api tx id pid m).0
  step m (adds_rafs tx tx' r) = (add_rafs_instance api tx tx' r m).0
  step m (updates_rafs tx r) = (update_rafs_instance api tx r m).0
  step m (removes_rafs tx id) = (remove_rafs_instance api tx id m).0

  pub run : Manager S → List Op → Manager S
  unfolding step
  run m [] = m
  run m (o ∷ os) = run (step m o) os

  -- UpdateDaemon does not fail in StartDaemon, or its daemon is not cached.
  abbrev Saved : Manager S → Op → Type 0
  Saved m (starts tx id pid) =
      (lookup id m.cache ≡ none) ⊎ ((record_start api tx id pid m).1 ≡ ok tt)
  Saved m _ = Unit

  abbrev pub AllSaved : Manager S → List Op → Type 0
  AllSaved m [] = Unit
  AllSaved m (o ∷ os) = Saved m o × AllSaved (step m o) os

  -- The changed object is recorded but for the process's id.
  pid_set-IsSynced :
      (v : View) (id : String) (pid : ℕ) (d : Daemon) (cache : Dict Daemon)
      → IsRecorded SameButPid v cache
      → lookup id cache ≡ some d
      → IsRecorded SameButPid v (insert d.states.id (with_pid pid d) cache)
  pid_set-IsSynced v id pid d cache h found j e held = by_test (d.states.id == j) refl
    where
      by_test :
          (b : Bool)
          → (d.states.id == j) ≡ b
          → (e.states.id ≡ j) × ((c : ConfigState) × (v.daemons j ≡ some c) × SameButPid c e.states)
      by_test true t =
          let here : with_pid pid d ≡ e = some-injective (with_pid pid d) e (
            ap (λ b. if b then some (with_pid pid d) else lookup j cache) (sym t)
            ∙ sym (lookup-insert d.states.id j (with_pid pid d) cache)
            ∙ held) in
          let (i, (c, r, (n, q))) = h id d found in
          let same_key : d.states.id ≡ j = ground (arith, t, eq_iff d.states.id j) in
          subst
            (λ x.
              (x.states.id ≡ j)
              × ((c : ConfigState) × (v.daemons j ≡ some c) × SameButPid c x.states))
            here (same_key, (c, ap v.daemons (sym same_key ∙ i) ∙ r, (n, q)))
      by_test false t = h j e (
          ap (λ b. if b then some (with_pid pid d) else lookup j cache) (sym t)
          ∙ sym (lookup-insert d.states.id j (with_pid pid d) cache)
          ∙ held)

  same_pid : (s : ConfigState) → SameButPid s s
  same_pid s = (s.process_id, refl)

  start-IsSynced :
      (tx : Tx) (id : String) (pid : ℕ) (m : Manager S)
      → IsSynced api m
      → IsSynced api (record_start api tx id pid m).0
  unfolding record_start
  start-IsSynced tx id pid m h = elim (Option-cases (lookup id m.cache)) [
    | inl e ↦ rw (e, record_start) h
    | inr (d, e) ↦
        rw (e, record_start)
          (update_daemon-IsAgreed api SameButPid same_pid tx (with_pid pid d)
            (record m { cache = insert d.states.id (with_pid pid d) m.cache })
            (pid_set-IsSynced (api.view_of m.store) id pid d m.cache h e))
  ]

  abbrev ExactIfSaved : Manager S × Result (Unit {0}) → Type 0
  ExactIfSaved r = r.1 ≡ ok tt → IsExact api r.0

  followed-ExactIfSaved :
      (m : Manager S) (r : S × Result (Unit {0})) (f : Dict Daemon → Dict Daemon) (after : View)
      → Effect api.view_of m.store after r
      → IsRecorded Same after (f m.cache)
      → ExactIfSaved (followed api m r f)
  unfolding followed
  followed-ExactIfSaved m (s, ok u) f after (inl (_, v)) h' = λ q. rw v h'
  followed-ExactIfSaved m (s, ok u) f after (inr (e, r, _)) h' = absurd (ground arith)
  followed-ExactIfSaved m (s, err e) f after x h' = λ q. absurd (ground (arith, q))

  start-ExactIfSaved :
      (tx : Tx) (d : Daemon) (m : Manager S)
      → IsExact api m
      → ExactIfSaved (update_daemon api tx d (record m { cache = insert d.states.id d m.cache }))
  unfolding update_daemon add
  start-ExactIfSaved tx d m h =
      let cache = insert d.states.id d m.cache in
      rw (lookup-insert_self d.states.id d m.cache, update_daemon)
        (followed-ExactIfSaved (record m { cache = cache }) (api.update tx d.states m.store)
          (λ c. insert d.states.id d c) _ (api.update_lem tx d.states m.store)
          (insert-IsRecorded api Same (λ s. refl) (api.view_of m.store) d cache
            (λ id t e held. h id e (
              ap (λ b. if b then some d else lookup id m.cache) (sym t)
              ∙ sym (lookup-insert d.states.id id d m.cache)
              ∙ held))))

  start-IsExact :
      (tx : Tx) (id : String) (pid : ℕ) (m : Manager S)
      → IsExact api m
      → Saved m (starts tx id pid)
      → IsExact api (record_start api tx id pid m).0
  unfolding record_start
  start-IsExact tx id pid m h (inl e) = rw (e, record_start) h
  start-IsExact tx id pid m h (inr q) = by_entry (Option-cases (lookup id m.cache)) q
    where
      by_entry :
          (lookup id m.cache ≡ none) ⊎ ((d : Daemon) × (lookup id m.cache ≡ some d))
          → ExactIfSaved (record_start api tx id pid m)
      by_entry (inl e) = rw (e, record_start) (λ q. h)
      by_entry (inr (d, e)) = rw (e, record_start) (start-ExactIfSaved tx (with_pid pid d) m h)

  -- The operations but the start, which also keep the states exact.
  module _ (R : Relation) (same : (s : ConfigState) → R s s) where
    step-IsAgreed :
        (m : Manager S) (o : Op)
        → ((tx : Tx) (id : String) (pid : ℕ)
            → o ≡ starts tx id pid
            → IsAgreed api R (record_start api tx id pid m).0)
        → IsAgreed api R m
        → IsAgreed api R (step m o)
    unfolding step update_rafs_instance remove_rafs_instance stored
    step-IsAgreed m (adds tx d) k h = add_daemon-IsAgreed api R same tx d m h
    step-IsAgreed m (updates tx d) k h = update_daemon-IsAgreed api R same tx d m h
    step-IsAgreed m (deletes tx d) k h = delete_daemon-IsAgreed api R same tx d m h
    step-IsAgreed m (starts tx id pid) k h = k tx id pid refl
    step-IsAgreed m (adds_rafs tx tx' r) k h = rafs_added-IsAgreed api R same tx tx' r m h
    step-IsAgreed m (updates_rafs tx r) k h =
        rafs-IsAgreed api R same m (api.update_rafs tx r m.store) _
          (api.update_rafs_lem tx r m.store) h
    step-IsAgreed m (removes_rafs tx id) k h =
        rafs-IsAgreed api R same m (api.delete_rafs tx id m.store) _
          (api.delete_rafs_lem tx id m.store) h

  -- Whatever daemons and instances are added, updated, deleted and started, and however the database
  -- fails, each cached daemon has its id as key and a record in the store with its states, but perhaps
  -- for the process's id.
  pub run-IsSynced : (m : Manager S) (os : List Op) → IsSynced api m → IsSynced api (run m os)
  unfolding run
  run-IsSynced m [] h = h
  run-IsSynced m (o ∷ os) h =
      run-IsSynced (step m o) os
        (step-IsAgreed SameButPid same_pid m o (λ tx id pid e. start-IsSynced tx id pid m h) h)

  -- Whatever daemons and instances are added, updated, deleted and started, each cached daemon has its
  -- very states in the store, if the update of the record fails in no start of a cached daemon; the
  -- database may fail in every other operation.
  pub run-IsExact :
      (m : Manager S) (os : List Op) → IsExact api m → AllSaved m os → IsExact api (run m os)
  unfolding run
  run-IsExact m [] h k = h
  run-IsExact m (o ∷ os) h (k, ks) =
      run-IsExact (step m o) os
        (step-IsAgreed Same (λ s. refl) m o
          (λ tx id pid e. start-IsExact tx id pid m h (subst (Saved m) e k)) h)
        ks
