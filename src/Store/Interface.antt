-- ===== src/Store/Interface.antt =====
-- The interface `Store` of pkg/manager/store.go: what the manager may rely on, and its
-- implementation by `DaemonRafsStore` of pkg/store/daemonstore.go.
use nydus_snapshotter.Base.{
  ℕ, ◌+◌, ◌%◌, ◌≡◌, refl, ◌⊎◌, String, none, some, List, [], ◌∷◌, ◌++◌, arith, Error, Result, ok,
  err, inl, inr, Result-cases,
}
use nydus_snapshotter.Base.Dict.{Dict}
use nydus_snapshotter.Daemon.{Rafs, ConfigState}
use nydus_snapshotter.Store.{
  Bolt, Json, Tx, Database, save_daemon, update_daemon, delete_daemon, add_rafs_instance,
  update_rafs_instance, delete_rafs_instance, next_instance_seq, walk_entries,
}
use nydus_snapshotter.Store.Records.{View, at_key, Effect}
use nydus_snapshotter.Store.Refines.{
  view, save_daemon_lem, update_daemon_lem, delete_daemon_lem, add_rafs_instance_lem,
  update_rafs_instance_lem, delete_rafs_instance_lem,
}
use nydus_snapshotter.Store.Sequence.{next_instance_seq_lem}

-- The walks are given by the records in the order in which they are visited, each as it decodes.
pub record StateStore (S : Type 0) : Type 0 where
  pub view_of : S → View
  pub add : Tx → ConfigState → S → S × Result (Unit {0})
  pub update : Tx → ConfigState → S → S × Result (Unit {0})
  pub delete : Tx → String → S → S × Result (Unit {0})
  pub add_rafs : Tx → Rafs → S → S × Result (Unit {0})
  pub update_rafs : Tx → Rafs → S → S × Result (Unit {0})
  pub delete_rafs : Tx → String → S → S × Result (Unit {0})
  pub next_seq : Tx → S → S × Result ℕ
  pub daemon_records : S → List (Result ConfigState)
  pub rafs_records : S → List (Result Rafs)
  pub add_lem :
      (tx : Tx) (d : ConfigState) (s : S)
      → Effect view_of s
          (record (view_of s) { daemons = at_key d.id (some d) (view_of s).daemons })
          (add tx d s)
  pub update_lem :
      (tx : Tx) (d : ConfigState) (s : S)
      → Effect view_of s
          (record (view_of s) { daemons = at_key d.id (some d) (view_of s).daemons })
          (update tx d s)
  pub delete_lem :
      (tx : Tx) (id : String) (s : S)
      → Effect view_of s
          (record (view_of s) { daemons = at_key id none (view_of s).daemons })
          (delete tx id s)
  pub add_rafs_lem :
      (tx : Tx) (r : Rafs) (s : S)
      → Effect view_of s
          (record (view_of s) { instances = at_key r.snapshot_id (some r) (view_of s).instances })
          (add_rafs tx r s)
  pub update_rafs_lem :
      (tx : Tx) (r : Rafs) (s : S)
      → Effect view_of s
          (record (view_of s) { instances = at_key r.snapshot_id (some r) (view_of s).instances })
          (update_rafs tx r s)
  pub delete_rafs_lem :
      (tx : Tx) (id : String) (s : S)
      → Effect view_of s
          (record (view_of s) { instances = at_key id none (view_of s).instances })
          (delete_rafs tx id s)
  pub next_seq_lem :
      (tx : Tx) (s : S)
      → let r = next_seq tx s in
        ((n : ℕ) × (r.1 ≡ ok n)
          × (n ≡ ((view_of s).sequence + 1) % 18446744073709551616)
          × (view_of r.0 ≡ record (view_of s) { sequence = n }))
        ⊎ ((e : Error) × (r.1 ≡ err e) × (r.0 ≡ s))

-- `ForEach` over decoded records: the callback's first error, or the first record that does not
-- decode, ends the walk.
unfoldable pub walk_records :
    {A S : Type 0} → (A → S → S × Result (Unit {0})) → List (Result A) → S → S × Result (Unit {0})
walk_records cb [] s = (s, ok tt)
walk_records cb (err e ∷ rs) s = (s, err e)
walk_records cb (ok a ∷ rs) s =
    let rest = walk_records cb rs in
    let (s', r) = cb a s in elim r [ err e ↦ (s', err e) | ok _ ↦ rest s' ]

-- A walk that succeeds has succeeded on each record, and goes on from there.
pub walk_split :
    {A S : Type 0} (cb : A → S → S × Result (Unit {0})) (xs : List (Result A)) (a : A)
    (ys : List (Result A)) (s : S)
    → (walk_records cb (xs ++ ok a ∷ ys) s).1 ≡ ok tt
    → let s' = (walk_records cb xs s).0 in
      ((cb a s').1 ≡ ok tt) × (walk_records cb (xs ++ ok a ∷ ys) s ≡ walk_records cb ys (cb a s').0)
unfolding walk_records
walk_split cb [] a ys s h = elim (Result-cases (cb a s).1) [
  | inr (e, r) ↦ absurd (ground arith)
  | inl (u, r) ↦ (ground arith, rw (r, walk_records))
]
walk_split cb (err e ∷ xs) a ys s h = absurd (ground arith)
walk_split cb (ok b ∷ xs) a ys s h = elim (Result-cases (cb b s).1) [
  | inr (e, r) ↦ absurd (ground arith)
  | inl (u, r) ↦ rw (r, walk_records) (walk_split cb xs a ys (cb b s).0 (rw (r, walk_records) at h))
]

module _ {Bucket Bytes : Type 0} (bolt : Bolt Bucket Bytes) where
  module _ {A : Type 0} (json : Json A Bytes) where
    unfoldable pub decode_all : Dict Bytes → List (Result A)
    decode_all [] = []
    decode_all ((k, v) ∷ es) = json.unmarshal v ∷ decode_all es

    -- The walk of the database is the walk over its decoded records.
    pub walk_entries-decode_all :
        {S : Type 0} (cb : A → S → S × Result (Unit {0})) (es : Dict Bytes) (s : S)
        → walk_entries bolt json cb es s ≡ walk_records cb (decode_all es) s
    unfolding walk_entries walk_records decode_all
    walk_entries-decode_all cb [] s = refl
    walk_entries-decode_all cb ((k, v) ∷ es) s = elim (Result-cases (json.unmarshal v)) [
      | inr (e, r) ↦ rw (r, walk_entries, walk_records) refl
      | inl (a, r) ↦ elim (Result-cases (cb a s).1) [
        | inr (e, c) ↦ rw (r, walk_entries) (rw c refl)
        | inl (u, c) ↦ rw (r, walk_entries) (rw c (walk_entries-decode_all cb es (cb a s).0))
      ]
    ]

  -- The database implements the interface.
  unfoldable pub database_store :
      (jd : Json ConfigState Bytes) (jr : Json Rafs Bytes) → StateStore (Database Bucket)
  unfolding decode_all
  database_store jd jr = record {
    view_of = view bolt jd jr;
    add = save_daemon bolt jd;
    update = update_daemon bolt jd;
    delete = delete_daemon bolt jd;
    add_rafs = add_rafs_instance bolt jr;
    update_rafs = update_rafs_instance bolt jr;
    delete_rafs = delete_rafs_instance bolt jr;
    next_seq = next_instance_seq bolt;
    daemon_records = λ db. decode_all jd (bolt.entries db.daemons);
    rafs_records = λ db. decode_all jr (bolt.entries db.instances);
    add_lem = λ tx d db. (save_daemon_lem bolt jd jr tx db d).0;
    update_lem = λ tx d db. (update_daemon_lem bolt jd jr tx db d).0;
    delete_lem = λ tx id db. delete_daemon_lem bolt jd jr tx db id;
    add_rafs_lem = λ tx r db. (add_rafs_instance_lem bolt jd jr tx db r).0;
    update_rafs_lem = λ tx r db. update_rafs_instance_lem bolt jd jr tx db r;
    delete_rafs_lem = λ tx id db. delete_rafs_instance_lem bolt jd jr tx db id;
    next_seq_lem = next_instance_seq_lem bolt jd jr;
  }
