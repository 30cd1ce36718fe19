-- ===== src/Manager/Sequence.antt =====
-- pkg/manager/manager.go, `AddRafsInstance`: the order in which instances were added survives in
-- their sequence numbers.
use nydus_snapshotter.Base.{
  ℕ, ◌+◌, ◌%◌, ◌<◌, ◌≤◌, ◌≡◌, ◌⊎◌, inl, inr, String, some, arith, Error, Result, ok, err, eq_iff,
}
use nydus_snapshotter.Daemon.{Rafs}
use nydus_snapshotter.Store.{Tx}
use nydus_snapshotter.Store.Records.{View, at_key, Effect}
use nydus_snapshotter.Store.Interface.{StateStore}
use nydus_snapshotter.Manager.{Manager, stored, numbered, add_rafs_instance}

-- No stored instance has a number above the counter.
abbrev pub IsNumbered : View → Type 0
IsNumbered v = (id : String) (r : Rafs) → v.instances id ≡ some r → r.seq ≤ v.sequence

-- What a successful addition guarantees: the instance is stored with its number, which is above
-- that of every instance that was there.
abbrev pub IsNewest : View → View → Rafs → Type 0
IsNewest before after r =
    (after.instances r.snapshot_id ≡ some r)
    × ((id : String) (q : Rafs) → before.instances id ≡ some q → q.seq < r.seq)

module _ {S : Type 0} (api : StateStore S) where
  abbrev Added : Manager S → Rafs → Manager S × Rafs × Result (Unit {0}) → Type 0
  Added m r (m', r', a) =
      IsNumbered (api.view_of m'.store)
      × (a ≡ ok tt → IsNewest (api.view_of m.store) (api.view_of m'.store) r')

  stored-Added :
      (m : Manager S) (r r' : Rafs) (s : S) (q : S × Result (Unit {0}))
      → IsNumbered (api.view_of m.store)
      → r'.seq ≡ (api.view_of m.store).sequence + 1
      → api.view_of s ≡ record (api.view_of m.store) { sequence = r'.seq }
      → Effect api.view_of s
          (record (api.view_of s) {
            instances = at_key r'.snapshot_id (some r') (api.view_of s).instances;
          })
          q
      → Added m r ((stored api m q).0, r', (stored api m q).1)
  unfolding stored
  stored-Added m r r' s (s', a) h number counted (inl (_, w)) =
      rw (w, counted)
        (
          λ id q found. ground (arith, eq_iff r'.snapshot_id id, h id q),
          λ good. (
            ground (arith, eq_iff r'.snapshot_id r'.snapshot_id),
            λ id q found. omega (arith, h id q found),
          ),
        )
  stored-Added m r r' s (s', a) h number counted (inr (e, bad, same)) =
      rw (same, counted) (λ id q found. omega (arith, h id q found), λ good. absurd (ground arith))

  -- As long as the 64-bit counter does not wrap, `AddRafsInstance` keeps every stored number at or
  -- below the counter, whether it succeeds or fails; and if it succeeds the instance is stored under
  -- a number greater than that of every instance stored before.
  pub add_rafs_instance-IsNewest :
      (tx tx' : Tx) (r : Rafs) (m : Manager S)
      → IsNumbered (api.view_of m.store)
      → (api.view_of m.store).sequence + 1 < 18446744073709551616
      → Added m r (add_rafs_instance api tx tx' r m)
  unfolding add_rafs_instance numbered
  add_rafs_instance-IsNewest tx tx' r m h small =
      numbered-Added (api.next_seq tx m.store) (api.next_seq_lem tx m.store)
    where
      numbered-Added :
          (q : S × Result ℕ)
          → ((n : ℕ) × (q.1 ≡ ok n)
              × (n ≡ ((api.view_of m.store).sequence + 1) % 18446744073709551616)
              × (api.view_of q.0 ≡ record (api.view_of m.store) { sequence = n }))
            ⊎ ((e : Error) × (q.1 ≡ err e) × (q.0 ≡ m.store))
          → Added m r (numbered api tx' r m q)
      numbered-Added (s, err e) (inl (n, bad, _, v)) = absurd (ground arith)
      numbered-Added (s, err e) (inr (_, _, same)) = (rw same h, λ bad. absurd (ground arith))
      numbered-Added (s, ok n) (inr (e, bad, _)) = absurd (ground arith)
      numbered-Added (s, ok n) (inl (k, same, number, v)) =
          let one : n ≡ k = ground arith in
          stored-Added m r (record r { seq = n }) s (api.add_rafs tx' (record r { seq = n }) s) h
            (omega (arith, one)) (rw one v) (api.add_rafs_lem tx' (record r { seq = n }) s)
