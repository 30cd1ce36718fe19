-- ===== src/Store.antt =====
-- pkg/store/database.go and daemonstore.go: the records of daemons and RAFS instances that outlive
-- the snapshotter, in two buckets of a bbolt database. bbolt and encoding/json are parameters.
pub mod Records
pub mod Refines
pub mod Interface
pub mod Sequence
pub mod Memory
mod Examples
use nydus_snapshotter.Base.{
  ℕ, zero, suc, ◌+◌, ◌%◌, ◌==◌, ◌≡◌, refl, String, Bool, true, false, Option, none, some, List, [],
  ◌∷◌, Error, already_exists, not_found, failure, Result, ok, err, ◌>>=◌, if◌then◌else◌,
}
use nydus_snapshotter.Base.Dict.{Dict, lookup}
use nydus_snapshotter.Daemon.{Rafs, ConfigState}

-- The buckets of go.etcd.io/bbolt, and what its documentation says of them. A sequence is a uint64.
pub record Bolt (Bucket Bytes : Type 0) : Type 0 where
  pub get : Bucket → String → Option Bytes
  pub put : Bucket → String → Bytes → Result Bucket
  pub delete : Bucket → String → Result Bucket
  pub entries : Bucket → Dict Bytes
  pub sequence : Bucket → ℕ
  pub next_sequence : Bucket → Result (ℕ × Bucket)
  pub get-put :
      (b b' : Bucket) (k : String) (v : Bytes)
      → put b k v ≡ ok b'
      → (j : String) → get b' j ≡ (if k == j then some v else get b j)
  pub get-delete :
      (b b' : Bucket) (k : String)
      → delete b k ≡ ok b'
      → (j : String) → get b' j ≡ (if k == j then none else get b j)
  pub sequence-put :
      (b b' : Bucket) (k : String) (v : Bytes) → put b k v ≡ ok b' → sequence b' ≡ sequence b
  pub sequence-delete : (b b' : Bucket) (k : String) → delete b k ≡ ok b' → sequence b' ≡ sequence b
  pub next_sequence_lem :
      (b b' : Bucket) (n : ℕ)
      → next_sequence b ≡ ok (n, b')
      → (n ≡ (sequence b + 1) % 18446744073709551616)
        × (sequence b' ≡ n)
        × ((j : String) → get b' j ≡ get b j)
  pub lookup-entries : (b : Bucket) (j : String) → lookup j (entries b) ≡ get b j

-- encoding/json on one type of records.
pub record Json (A Bytes : Type 0) : Type 0 where
  pub marshal : A → Result Bytes
  pub unmarshal : Bytes → Result A
  pub unmarshal-marshal : (a : A) (v : Bytes) → marshal a ≡ ok v → unmarshal v ≡ ok a

-- What bbolt does at the ends of one transaction: an error on `Begin`, an error on `Commit`.
pub record Tx : Type 0 where
  pub begin_error : Option Error
  pub commit_error : Option Error

pub record Database (Bucket : Type 0) : Type 0 where
  pub daemons : Bucket
  pub instances : Bucket

-- `errors.Errorf("object with key %q already exists")`.
abbrev pub key_exists : Error
key_exists = failure 3

abbrev pub or_error : {A : Type 0} → Option Error → Result A → Result A
or_error none r = r
or_error (some e) r = err e

abbrev pub settle : {S : Type 0} → S → Result S → S × Result (Unit {0})
settle s (ok s') = (s', ok tt)
settle s (err e) = (s, err e)

-- `db.Update`: a transaction whose function or commit fails is rolled back.
unfoldable pub update : {S : Type 0} → Tx → (S → Result S) → S → S × Result (Unit {0})
update tx f s = settle s (or_error tx.begin_error (f s >>= λ s'. or_error tx.commit_error (ok s')))

module _ {Bucket Bytes : Type 0} (bolt : Bolt Bucket Bytes) where
  module _ {A : Type 0} (json : Json A Bytes) where
    unfoldable pub update_object : Bucket → String → A → Result Bucket
    update_object b k a = json.marshal a >>= bolt.put b k

    unfoldable pub put_object : Bucket → String → A → Result Bucket
    put_object b k a = elim (bolt.get b k) [
      | some _ ↦ err key_exists
      | none ↦ json.marshal a >>= bolt.put b k
    ]

    unfoldable pub get_object : Bucket → String → Result A
    get_object b k = elim (bolt.get b k) [ none ↦ err not_found | some v ↦ json.unmarshal v ]

    -- `bucket.ForEach` with a callback that is given the decoded record and may fail.
    pub walk_entries :
        {S : Type 0} → (A → S → S × Result (Unit {0})) → Dict Bytes → S → S × Result (Unit {0})
    walk_entries cb [] s = (s, ok tt)
    walk_entries cb ((k, v) ∷ es) s = elim (json.unmarshal v) [
      | err e ↦ (s, err e)
      | ok a ↦ let (s', r) = cb a s in elim r [ err e ↦ (s', err e) | ok _ ↦ walk_entries cb es s' ]
    ]

  -- Deletes the keys of a bucket in turn.
  pub delete_keys : Dict Bytes → Bucket → Result Bucket
  delete_keys [] b = ok b
  delete_keys ((k, v) ∷ es) b = bolt.delete b k >>= delete_keys es

-- `db.View` fails where the transaction cannot be begun.
module _ {Bucket Bytes : Type 0} (bolt : Bolt Bucket Bytes) (json : Json ConfigState Bytes) where
  pub with_daemons : Result Bucket → Database Bucket → Result (Database Bucket)
  with_daemons r db = r >>= λ b. ok (record db { daemons = b })

  saved_daemon : ConfigState → Database Bucket → Result (Database Bucket)
  unfolding with_daemons
  saved_daemon d db = elim (get_object bolt json db.daemons d.id) [
    | ok _ ↦ err already_exists
    | err _ ↦ with_daemons (put_object bolt json db.daemons d.id d) db
  ]

  unfoldable pub save_daemon :
      Tx → ConfigState → Database Bucket → Database Bucket × Result (Unit {0})
  unfolding update saved_daemon
  save_daemon tx d = update tx (saved_daemon d)

  updated_daemon : ConfigState → Database Bucket → Result (Database Bucket)
  unfolding with_daemons
  updated_daemon d db = get_object bolt json db.daemons d.id >>= λ _.
      with_daemons (update_object bolt json db.daemons d.id d) db

  unfoldable pub update_daemon :
      Tx → ConfigState → Database Bucket → Database Bucket × Result (Unit {0})
  unfolding update updated_daemon
  update_daemon tx d = update tx (updated_daemon d)

  unfoldable pub delete_daemon : Tx → String → Database Bucket → Database Bucket × Result (Unit {0})
  unfolding update with_daemons
  delete_daemon tx id = update tx (λ db. with_daemons (bolt.delete db.daemons id) db)

  -- The source deletes while it walks; the keys are those that the walk finds at its start.
  unfoldable pub cleanup_daemons : Tx → Database Bucket → Database Bucket × Result (Unit {0})
  unfolding update with_daemons delete_keys
  cleanup_daemons tx =
      update tx (λ db. with_daemons (delete_keys bolt (bolt.entries db.daemons) db.daemons) db)

  unfoldable pub walk_daemons :
      {S : Type 0}
      → Option Error
      → (ConfigState → S → S × Result (Unit {0}))
      → Database Bucket
      → S
      → S × Result (Unit {0})
  unfolding walk_entries
  walk_daemons begin cb db s = elim begin [
    | some e ↦ (s, err e)
    | none ↦ walk_entries bolt json cb (bolt.entries db.daemons) s
  ]

module _ {Bucket Bytes : Type 0} (bolt : Bolt Bucket Bytes) (json : Json Rafs Bytes) where
  pub with_instances : Result Bucket → Database Bucket → Result (Database Bucket)
  with_instances r db = r >>= λ b. ok (record db { instances = b })

  unfoldable pub add_rafs_instance :
      Tx → Rafs → Database Bucket → Database Bucket × Result (Unit {0})
  unfolding update with_instances
  add_rafs_instance tx r =
      update tx (λ db. with_instances (put_object bolt json db.instances r.snapshot_id r) db)

  unfoldable pub update_rafs_instance :
      Tx → Rafs → Database Bucket → Database Bucket × Result (Unit {0})
  unfolding update with_instances
  update_rafs_instance tx r =
      update tx (λ db. with_instances (update_object bolt json db.instances r.snapshot_id r) db)

  unfoldable pub delete_rafs_instance :
      Tx → String → Database Bucket → Database Bucket × Result (Unit {0})
  unfolding update with_instances
  delete_rafs_instance tx id = update tx (λ db. with_instances (bolt.delete db.instances id) db)

  unfoldable pub walk_rafs_instances :
      {S : Type 0}
      → Option Error
      → (Rafs → S → S × Result (Unit {0}))
      → Database Bucket
      → S
      → S × Result (Unit {0})
  unfolding walk_entries
  walk_rafs_instances begin cb db s = elim begin [
    | some e ↦ (s, err e)
    | none ↦ walk_entries bolt json cb (bolt.entries db.instances) s
  ]

module _ {Bucket Bytes : Type 0} (bolt : Bolt Bucket Bytes) where
  numbered : Database Bucket → Option Error → Result (ℕ × Bucket) → Database Bucket × Result ℕ
  numbered db c (err e) = (db, err e)
  numbered db (some e) (ok (n, b)) = (db, err e)
  numbered db none (ok (n, b)) = (record db { instances = b }, ok n)

  -- A transaction of its own, which a failing commit leaves without effect.
  unfoldable pub next_instance_seq : Tx → Database Bucket → Database Bucket × Result ℕ
  unfolding numbered
  next_instance_seq tx db = elim tx.begin_error [
    | some e ↦ (db, err e)
    | none ↦ numbered db tx.commit_error (bolt.next_sequence db.instances)
  ]
