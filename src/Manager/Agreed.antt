-- ===== src/Manager/Agreed.antt =====
-- pkg/manager/manager.go: how the records in the store agree with the cached daemons, along its
-- operations on daemons and instances.
use nydus_snapshotter.Base.{
  ℕ, ◌+◌, ◌%◌, ◌≡◌, ◌==◌, refl, sym, ap, ◌∙◌, true, false, Bool, if◌then◌else◌, ◌⊎◌, inl, inr,
  String, Option, none, some, arith, Error, Result, ok, err, eq_iff, Option-cases,
}
use mathlib.Core.Option.{some-injective}
use mathlib.Core.Path.{subst}
use nydus_snapshotter.Base.Dict.{Dict, lookup, insert, remove, lookup-insert, lookup-remove}
use nydus_snapshotter.Daemon.{Rafs, ConfigState, Daemon}
use nydus_snapshotter.Store.{Tx}
use nydus_snapshotter.Store.Records.{View, at_key, Effect}
use nydus_snapshotter.Store.Interface.{StateStore}
use nydus_snapshotter.Manager.Cache.{add, remove_locked}
use nydus_snapshotter.Manager.{
  Manager, followed, add_daemon, update_daemon, delete_daemon, numbered, add_rafs_instance,
}

-- What a record in the store has to do with the cached states.
abbrev pub Relation : Type 1
Relation = ConfigState → ConfigState → Type 0

-- Another process id at most.
abbrev pub SameButPid : Relation
SameButPid c s = (pid : ℕ) × (c ≡ record s { process_id = pid })

abbrev pub Same : Relation
Same c s = c ≡ s

abbrev pub RecordedAt : Relation → View → Dict Daemon → String → Type 0
RecordedAt R v cache id =
    (d : Daemon)
    → lookup id cache ≡ some d
    → (d.states.id ≡ id) × ((c : ConfigState) × (v.daemons id ≡ some c) × R c d.states)

abbrev pub IsRecorded : Relation → View → Dict Daemon → Type 0
IsRecorded R v cache = (id : String) → RecordedAt R v cache id

module _ {S : Type 0} (api : StateStore S) where
  abbrev pub IsAgreed : Relation → Manager S → Type 0
  IsAgreed R m = IsRecorded R (api.view_of m.store) m.cache

  abbrev pub IsSynced : Manager S → Type 0
  IsSynced m = IsAgreed SameButPid m

  abbrev pub IsExact : Manager S → Type 0
  IsExact m = IsAgreed Same m

  module _ (R : Relation) (same : (s : ConfigState) → R s s) where
    pub insert-IsRecorded :
        (v : View) (d : Daemon) (cache : Dict Daemon)
        → ((id : String) → (d.states.id == id) ≡ false → RecordedAt R v cache id)
        → IsRecorded R
            (record v { daemons = at_key d.states.id (some d.states) v.daemons })
            (insert d.states.id d cache)
    insert-IsRecorded v d cache h id e found = by_test (d.states.id == id) refl
      where
        by_test :
            (b : Bool)
            → (d.states.id == id) ≡ b
            → (e.states.id ≡ id)
              × ((c : ConfigState) × (at_key d.states.id (some d.states) v.daemons id ≡ some c)
                  × R c e.states)
        by_test true t =
            let here : d ≡ e = some-injective d e (
              ap (λ b. if b then some d else lookup id cache) (sym t)
              ∙ sym (lookup-insert d.states.id id d cache)
              ∙ found) in
            subst
              (λ x.
                (x.states.id ≡ id)
                × ((c : ConfigState) × (at_key d.states.id (some d.states) v.daemons id ≡ some c)
                    × R c x.states))
              here
              (
                ground (arith, t, eq_iff d.states.id id),
                (d.states, ap (λ b. if b then some d.states else v.daemons id) t, same d.states),
              )
        by_test false t =
            let (i, (c, r, q)) = h id t e (
              ap (λ b. if b then some d else lookup id cache) (sym t)
              ∙ sym (lookup-insert d.states.id id d cache)
              ∙ found) in
            (i, (c, ap (λ b. if b then some d.states else v.daemons id) t ∙ r, q))

    remove-IsRecorded :
        (v : View) (k : String) (cache : Dict Daemon)
        → IsRecorded R v cache
        → IsRecorded R (record v { daemons = at_key k none v.daemons }) (remove k cache)
    remove-IsRecorded v k cache h id e found = by_test (k == id) refl
      where
        by_test :
            (b : Bool)
            → (k == id) ≡ b
            → (e.states.id ≡ id)
              × ((c : ConfigState) × (at_key k none v.daemons id ≡ some c) × R c e.states)
        by_test true t = absurd (ground (arith, t, found, lookup-remove k id cache))
        by_test false t =
            let (i, (c, r, q)) = h id e (
              ap (λ b. if b then none else lookup id cache) (sym t)
              ∙ sym (lookup-remove k id cache)
              ∙ found) in
            (i, (c, ap (λ b. if b then none else v.daemons id) t ∙ r, q))

    followed-IsAgreed :
        (m : Manager S) (r : S × Result (Unit {0})) (f : Dict Daemon → Dict Daemon) (after : View)
        → Effect api.view_of m.store after r
        → IsAgreed R m
        → IsRecorded R after (f m.cache)
        → IsAgreed R (followed api m r f).0
    unfolding followed
    followed-IsAgreed m (s, ok u) f after (inl (_, v)) h h' = rw v h'
    followed-IsAgreed m (s, ok u) f after (inr (e, r, _)) h h' = absurd (ground arith)
    followed-IsAgreed m (s, err e) f after (inl (r, _)) h h' = absurd (ground arith)
    followed-IsAgreed m (s, err e) f after (inr (_, _, same)) h h' = rw same h

    pub add_daemon-IsAgreed :
        (tx : Tx) (d : Daemon) (m : Manager S) → IsAgreed R m → IsAgreed R (add_daemon api tx d m).0
    unfolding add_daemon add
    add_daemon-IsAgreed tx d m h = elim (Option-cases (lookup d.states.id m.cache)) [
      | inr (old, e) ↦ rw (e, add_daemon) h
      | inl e ↦
          rw (e, add_daemon)
            (followed-IsAgreed m (api.add tx d.states m.store) (λ c. insert d.states.id d c) _
              (api.add_lem tx d.states m.store) h
              (insert-IsRecorded (api.view_of m.store) d m.cache (λ id t. h id)))
    ]

    pub update_daemon-IsAgreed :
        (tx : Tx) (d : Daemon) (m : Manager S)
        → IsAgreed R m
        → IsAgreed R (update_daemon api tx d m).0
    unfolding update_daemon add
    update_daemon-IsAgreed tx d m h = elim (Option-cases (lookup d.states.id m.cache)) [
      | inl e ↦ rw (e, update_daemon) h
      | inr (old, e) ↦
          rw (e, update_daemon)
            (followed-IsAgreed m (api.update tx d.states m.store) (λ c. insert d.states.id d c) _
              (api.update_lem tx d.states m.store) h
              (insert-IsRecorded (api.view_of m.store) d m.cache (λ id t. h id)))
    ]

    pub delete_daemon-IsAgreed :
        (tx : Tx) (d : Option Daemon) (m : Manager S)
        → IsAgreed R m
        → IsAgreed R (delete_daemon api tx d m).0
    unfolding delete_daemon remove_locked
    delete_daemon-IsAgreed tx none m h = h
    delete_daemon-IsAgreed tx (some d) m h =
        followed-IsAgreed m (api.delete tx d.states.id m.store) (λ c. remove d.states.id c) _
          (api.delete_lem tx d.states.id m.store) h
          (remove-IsRecorded (api.view_of m.store) d.states.id m.cache h)

    -- A store operation that leaves the daemons alone.
    pub rafs-IsAgreed :
        (m : Manager S) (r : S × Result (Unit {0})) (f : String → Option Rafs)
        → Effect api.view_of m.store (record (api.view_of m.store) { instances = f }) r
        → IsAgreed R m
        → IsAgreed R (record m { store = r.0 })
    rafs-IsAgreed m (s, r) f (inl (_, v)) h = rw v h
    rafs-IsAgreed m (s, r) f (inr (e, _, same)) h = rw same h

    pub rafs_added-IsAgreed :
        (tx tx' : Tx) (r : Rafs) (m : Manager S)
        → IsAgreed R m
        → IsAgreed R (add_rafs_instance api tx tx' r m).0
    unfolding add_rafs_instance
    rafs_added-IsAgreed tx tx' r m h =
        numbered-IsAgreed (api.next_seq tx m.store) (api.next_seq_lem tx m.store)
      where
        numbered-IsAgreed :
            (q : S × Result ℕ)
            → ((n : ℕ) × (q.1 ≡ ok n)
                × (n ≡ ((api.view_of m.store).sequence + 1) % 18446744073709551616)
                × (api.view_of q.0 ≡ record (api.view_of m.store) { sequence = n }))
              ⊎ ((e : Error) × (q.1 ≡ err e) × (q.0 ≡ m.store))
            → IsAgreed R (numbered api tx' r m q).0
        numbered-IsAgreed (s, err e) (inl (n, r, _, v)) = absurd (ground arith)
        numbered-IsAgreed (s, err e) (inr (_, _, same)) = rw same h
        numbered-IsAgreed (s, ok n) (inr (e, r, _)) = absurd (ground arith)
        numbered-IsAgreed (s, ok n) (inl (_, _, _, v)) =
            let counted : IsAgreed R (record m { store = s }) = rw v h in
            rafs-IsAgreed (record m { store = s }) (api.add_rafs tx' (record r { seq = n }) s) _
              (api.add_rafs_lem tx' (record r { seq = n }) s) counted
