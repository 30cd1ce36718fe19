-- ===== src/Store/Sequence.antt =====
-- pkg/store/database.go: the sequence numbers of RAFS instances, and clearing the daemons.
use nydus_snapshotter.Base.{
  ℕ, ◌+◌, ◌%◌, ◌≡◌, refl, ◌⊎◌, inl, inr, String, none, [], ◌∷◌, arith, Error, ok, err,
  if◌then◌else◌, Result-cases, Option-cases, is_some,
}
use mathlib.Core.Path.{fun_ext}
use nydus_snapshotter.Base.Dict.{Dict, lookup}
use nydus_snapshotter.Daemon.{Rafs, ConfigState}
use nydus_snapshotter.Store.{
  Bolt, Json, Tx, Database, with_daemons, delete_keys, cleanup_daemons, numbered, next_instance_seq,
}
use nydus_snapshotter.Store.Records.{Effect, record_at-same, record_at_absent}
use nydus_snapshotter.Store.Refines.{view, update-Effect, daemons_written}

module _ {Bucket Bytes : Type 0} (bolt : Bolt Bucket Bytes) (jd : Json ConfigState Bytes)
    (jr : Json Rafs Bytes) where
  -- `NextInstanceSeq` either fails and changes nothing, or returns the counter's successor as a
  -- uint64, which is the counter from then on; no record changes.
  pub next_instance_seq_lem :
      (tx : Tx) (db : Database Bucket)
      → let r = next_instance_seq bolt tx db in
        ((n : ℕ) × (r.1 ≡ ok n)
          × (n ≡ ((view bolt jd jr db).sequence + 1) % 18446744073709551616)
          × (view bolt jd jr r.0 ≡ record (view bolt jd jr db) { sequence = n }))
        ⊎ ((e : Error) × (r.1 ≡ err e) × (r.0 ≡ db))
  unfolding next_instance_seq numbered
  next_instance_seq_lem tx db = elim (Option-cases tx.begin_error) [
    | inr (e, b) ↦ rw (b, next_instance_seq) (inr (e, refl, refl))
    | inl b ↦ elim (Result-cases (bolt.next_sequence db.instances)) [
      | inr (e, r) ↦ rw (b, r, next_instance_seq) (inr (e, refl, refl))
      | inl ((n, b'), r) ↦ elim (Option-cases tx.commit_error) [
        | inr (e, c) ↦ rw (b, r, c, next_instance_seq) (inr (e, refl, refl))
        | inl c ↦
            let (number, counter, same) = bolt.next_sequence_lem db.instances b' n r in
            rw (b, r, c, next_instance_seq)
              (inl
                (n, refl, number, rw (record_at-same bolt jr db.instances b' same, counter) refl))
      ]
    ]
  ]

  delete_keys-get :
      (es : Dict Bytes) (b b' : Bucket)
      → delete_keys bolt es b ≡ ok b'
      → (j : String) → bolt.get b' j ≡ (if is_some (lookup j es) then none else bolt.get b j)
  unfolding delete_keys lookup
  delete_keys-get [] b b' h j = ground arith
  delete_keys-get ((k, v) ∷ es) b b' h j = elim (Result-cases (bolt.delete b k)) [
    | inr (e, d) ↦ ground arith
    | inl (c, d) ↦
        ground
          (arith, delete_keys-get es c b' (rw (d, delete_keys) at h) j, bolt.get-delete b c k d j)
  ]

  -- `CleanupDaemons` removes every daemon record, or fails without effect.
  pub cleanup_daemons_lem :
      (tx : Tx) (db : Database Bucket)
      → Effect
          (view bolt jd jr)
          db
          (record (view bolt jd jr db) { daemons = λ id. none })
          (cleanup_daemons bolt jd tx db)
  unfolding cleanup_daemons
  cleanup_daemons_lem tx db =
      update-Effect (view bolt jd jr) tx db _
        (λ db. with_daemons bolt jd (delete_keys bolt (bolt.entries db.daemons) db.daemons) db)
        (daemons_written bolt jd jr tx db (delete_keys bolt (bolt.entries db.daemons) db.daemons) _
          (λ b h. fun_ext (λ j. record_at_absent bolt jd b j (
            ground (
              arith,
              delete_keys-get (bolt.entries db.daemons) db.daemons b h j,
              bolt.lookup-entries db.daemons j,
            )))))
