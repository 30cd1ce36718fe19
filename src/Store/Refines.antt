-- ===== src/Store/Refines.antt =====
-- The operations of pkg/store/database.go implement writes of two finite maps: each takes effect
-- as a whole or fails and leaves the database as it was.
use nydus_snapshotter.Base.{
  ◌≡◌, refl, ap, inl, inr, String, Option, none, some, arith, Error, already_exists, Result, ok,
  err, ◌>>=◌, Result-cases, Option-cases,
}
use nydus_snapshotter.Daemon.{Rafs, ConfigState}
use nydus_snapshotter.Store.{
  Bolt, Json, Tx, Database, update, update_object, put_object, get_object, key_exists, with_daemons,
  with_instances, saved_daemon, save_daemon, updated_daemon, update_daemon, delete_daemon,
  add_rafs_instance, update_rafs_instance, delete_rafs_instance,
}
use nydus_snapshotter.Store.Records.{
  View, at_key, Effect, record_at, put-record_at, delete-record_at, record_at-some, record_at-none,
}

module _ {S : Type 0} (view : S → View) (tx : Tx) (s : S) (after : View) where
  -- A transaction has an effect if its function, where it succeeds, has it.
  pub update-Effect :
      (f : S → Result S)
      → ((s' : S) → f s ≡ ok s' → view s' ≡ after)
      → Effect view s after (update tx f s)
  unfolding update
  update-Effect f good = elim (Option-cases tx.begin_error) [
    | inr (e, b) ↦ rw (b, update) (inr (e, refl, refl))
    | inl b ↦ elim (Result-cases (f s)) [
      | inr (e, r) ↦ rw (b, r, update) (inr (e, refl, refl))
      | inl (s', r) ↦ elim (Option-cases tx.commit_error) [
        | inr (e, c) ↦ rw (b, r, c, update) (inr (e, refl, refl))
        | inl c ↦ rw (b, r, c, update) (inl (refl, good s' r))
      ]
    ]
  ]

update_err :
    {S : Type 0} (tx : Tx) (s : S) (f : S → Result S) (e : Error)
    → tx.begin_error ≡ none
    → f s ≡ err e
    → update tx f s ≡ (s, err e)
unfolding update
update_err tx s f e b r = rw (b, r)

update_fails :
    {S : Type 0} (tx : Tx) (s : S) (f : S → Result S) (e : Error)
    → f s ≡ err e
    → (e' : Error) × (update tx f s ≡ (s, err e'))
unfolding update
update_fails tx s f e r = elim (Option-cases tx.begin_error) [
  | inr (x, b) ↦ (x, rw b)
  | inl b ↦ (e, rw (b, r))
]

module _ {Bucket Bytes A : Type 0} (bolt : Bolt Bucket Bytes) (json : Json A Bytes) where
  put_object-written :
      (b b' : Bucket) (k : String) (a : A)
      → put_object bolt json b k a ≡ ok b'
      → record_at bolt json b' ≡ at_key k (some a) (record_at bolt json b)
  unfolding put_object
  put_object-written b b' k a h = elim (Option-cases (bolt.get b k)) [
    | inl e ↦ put-record_at bolt json b b' k a (rw (e, put_object) at h)
    | inr (v, e) ↦ ground arith
  ]

  put-sequence :
      (b b' : Bucket) (k : String) (a : A)
      → (json.marshal a >>= bolt.put b k) ≡ ok b'
      → bolt.sequence b' ≡ bolt.sequence b
  put-sequence b b' k a h = elim (Result-cases (json.marshal a)) [
    | inl (v, e) ↦ bolt.sequence-put b b' k v (rw e at h)
    | inr (x, e) ↦ ground arith
  ]

  put_object-sequence :
      (b b' : Bucket) (k : String) (a : A)
      → put_object bolt json b k a ≡ ok b'
      → bolt.sequence b' ≡ bolt.sequence b
  unfolding put_object
  put_object-sequence b b' k a h = elim (Option-cases (bolt.get b k)) [
    | inl e ↦ put-sequence b b' k a (rw (e, put_object) at h)
    | inr (v, e) ↦ ground arith
  ]

  update_object-written :
      (b b' : Bucket) (k : String) (a : A)
      → update_object bolt json b k a ≡ ok b'
      → record_at bolt json b' ≡ at_key k (some a) (record_at bolt json b)
  unfolding update_object
  update_object-written b b' k a h = put-record_at bolt json b b' k a h

  update_object-sequence :
      (b b' : Bucket) (k : String) (a : A)
      → update_object bolt json b k a ≡ ok b'
      → bolt.sequence b' ≡ bolt.sequence b
  unfolding update_object
  update_object-sequence b b' k a h = put-sequence b b' k a h

module _ {Bucket Bytes : Type 0} (bolt : Bolt Bucket Bytes) (jd : Json ConfigState Bytes)
    (jr : Json Rafs Bytes) where
  abbrev pub view : Database Bucket → View
  view db = record {
    daemons = record_at bolt jd db.daemons;
    instances = record_at bolt jr db.instances;
    sequence = bolt.sequence db.instances;
  }

  module _ (tx : Tx) (db : Database Bucket) where
    pub daemons_written :
        (r : Result Bucket) (f : String → Option ConfigState)
        → ((b : Bucket) → r ≡ ok b → record_at bolt jd b ≡ f)
        → (db' : Database Bucket) → with_daemons bolt jd r db ≡ ok db'
        → view db' ≡ record (view db) { daemons = f }
    unfolding with_daemons
    daemons_written (ok b) f good db' h =
        let e : record db { daemons = b } ≡ db' = cc in
        rw (← e) (ap (λ g. record (view db) { daemons = g }) (good b refl))
    daemons_written (err e) f good db' h = cc

    instances_written :
        (r : Result Bucket) (f : String → Option Rafs)
        → ((b : Bucket)
            → r ≡ ok b
            → (record_at bolt jr b ≡ f) × (bolt.sequence b ≡ bolt.sequence db.instances))
        → (db' : Database Bucket) → with_instances bolt jr r db ≡ ok db'
        → view db' ≡ record (view db) { instances = f }
    unfolding with_instances
    instances_written (ok b) f good db' h =
        let e : record db { instances = b } ≡ db' = cc in
        let (same, counter) = good b refl in rw (← e, same, counter) refl
    instances_written (err e) f good db' h = cc

    saved_daemon_lem :
        (d : ConfigState) (db' : Database Bucket)
        → saved_daemon bolt jd d db ≡ ok db'
        → view db' ≡ record (view db) { daemons = at_key d.id (some d) (view db).daemons }
    unfolding saved_daemon
    saved_daemon_lem d db' h = elim (Result-cases (get_object bolt jd db.daemons d.id)) [
      | inl (old, e) ↦ ground arith
      | inr (x, e) ↦
          daemons_written (put_object bolt jd db.daemons d.id d) _
            (λ b put. put_object-written bolt jd db.daemons b d.id d put) db'
            (rw (e, saved_daemon) at h)
    ]

    refused :
        (d old : ConfigState)
        → (view db).daemons d.id ≡ some old
        → saved_daemon bolt jd d db ≡ err already_exists
    unfolding saved_daemon
    refused d old found = ground (arith, record_at-some bolt jd db.daemons d.id old found)

    updated_daemon_lem :
        (d : ConfigState) (db' : Database Bucket)
        → updated_daemon bolt jd d db ≡ ok db'
        → view db' ≡ record (view db) { daemons = at_key d.id (some d) (view db).daemons }
    unfolding updated_daemon update_object
    updated_daemon_lem d db' h = elim (Result-cases (get_object bolt jd db.daemons d.id)) [
      | inr (x, e) ↦ ground arith
      | inl (old, e) ↦
          daemons_written (update_object bolt jd db.daemons d.id d) _
            (λ b put. put-record_at bolt jd db.daemons b d.id d put) db'
            (rw (e, updated_daemon) at h)
    ]

    -- `SaveDaemon` adds the daemon's record under its id, or fails without effect; an id whose
    -- record is there already is refused with `ErrAlreadyExists` once the transaction has begun.
    pub save_daemon_lem :
        (d : ConfigState)
        → Effect view db
            (record (view db) { daemons = at_key d.id (some d) (view db).daemons })
            (save_daemon bolt jd tx d db)
          × ((old : ConfigState)
              → (view db).daemons d.id ≡ some old
              → tx.begin_error ≡ none
              → save_daemon bolt jd tx d db ≡ (db, err already_exists))
    unfolding save_daemon
    save_daemon_lem d = (
      update-Effect view tx db _ (saved_daemon bolt jd d) (saved_daemon_lem d),
      λ old found begun.
          update_err tx db (saved_daemon bolt jd d) already_exists begun (refused d old found),
    )

    -- `UpdateDaemon` replaces the record of the daemon's id, or fails without effect; an id without
    -- a readable record is always refused.
    pub update_daemon_lem :
        (d : ConfigState)
        → Effect view db
            (record (view db) { daemons = at_key d.id (some d) (view db).daemons })
            (update_daemon bolt jd tx d db)
          × ((view db).daemons d.id ≡ none
              → (e : Error) × (update_daemon bolt jd tx d db ≡ (db, err e)))
    unfolding update_daemon
    update_daemon_lem d = (
      update-Effect view tx db _ (updated_daemon bolt jd d) (updated_daemon_lem d),
      λ missing.
          let (e, unread) = record_at-none bolt jd db.daemons d.id missing in
          update_fails tx db (updated_daemon bolt jd d) e (unfold updated_daemon in rw unread),
    )

    pub delete_daemon_lem :
        (id : String)
        → Effect view db
            (record (view db) { daemons = at_key id none (view db).daemons })
            (delete_daemon bolt jd tx id db)
    unfolding delete_daemon
    delete_daemon_lem id =
        update-Effect view tx db _ (λ x. with_daemons bolt jd (bolt.delete x.daemons id) x)
          (daemons_written (bolt.delete db.daemons id) _
            (λ b h. delete-record_at bolt jd db.daemons b id h))

    put_refused :
        (r old : Rafs)
        → (view db).instances r.snapshot_id ≡ some old
        → with_instances bolt jr (put_object bolt jr db.instances r.snapshot_id r) db
          ≡ err key_exists
    unfolding with_instances put_object
    put_refused r old found =
        ground (arith, record_at-some bolt jr db.instances r.snapshot_id old found)

    -- `AddRafsInstance` adds the instance's record under its snapshot id and leaves the daemons and
    -- the counter alone, or fails without effect, as it does for an id that has a readable record.
    pub add_rafs_instance_lem :
        (r : Rafs)
        → Effect view db
            (record (view db) { instances = at_key r.snapshot_id (some r) (view db).instances })
            (add_rafs_instance bolt jr tx r db)
          × ((old : Rafs)
              → (view db).instances r.snapshot_id ≡ some old
              → (e : Error) × (add_rafs_instance bolt jr tx r db ≡ (db, err e)))
    unfolding add_rafs_instance
    add_rafs_instance_lem r =
        let put = put_object bolt jr db.instances r.snapshot_id r in
        (
          update-Effect view tx db _
              (λ x. with_instances bolt jr (put_object bolt jr x.instances r.snapshot_id r) x)
              (instances_written put _ (λ b h. (
                put_object-written bolt jr db.instances b r.snapshot_id r h,
                put_object-sequence bolt jr db.instances b r.snapshot_id r h,
              ))),
          λ old found.
              update_fails tx db
                (λ x. with_instances bolt jr (put_object bolt jr x.instances r.snapshot_id r) x)
                key_exists (put_refused r old found),
        )

    pub update_rafs_instance_lem :
        (r : Rafs)
        → Effect view db
            (record (view db) { instances = at_key r.snapshot_id (some r) (view db).instances })
            (update_rafs_instance bolt jr tx r db)
    unfolding update_rafs_instance
    update_rafs_instance_lem r =
        update-Effect view tx db _
          (λ x. with_instances bolt jr (update_object bolt jr x.instances r.snapshot_id r) x)
          (instances_written (update_object bolt jr db.instances r.snapshot_id r) _ (λ b h. (
            update_object-written bolt jr db.instances b r.snapshot_id r h,
            update_object-sequence bolt jr db.instances b r.snapshot_id r h,
          )))

    pub delete_rafs_instance_lem :
        (id : String)
        → Effect view db
            (record (view db) { instances = at_key id none (view db).instances })
            (delete_rafs_instance bolt jr tx id db)
    unfolding delete_rafs_instance
    delete_rafs_instance_lem id =
        update-Effect view tx db _ (λ x. with_instances bolt jr (bolt.delete x.instances id) x)
          (instances_written (bolt.delete db.instances id) _ (λ b h. (
            delete-record_at bolt jr db.instances b id h,
            bolt.sequence-delete db.instances b id h,
          )))
