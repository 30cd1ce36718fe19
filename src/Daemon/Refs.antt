-- ===== src/Daemon/Refs.antt =====
-- pkg/daemon/daemon.go: the RAFS instances of a daemon and its reference count.
use nydus_snapshotter.Base.{
  ℕ, zero, suc, ◌+◌, ◌-◌, ◌%◌, ◌<◌, ◌≡◌, refl, ◌∙◌, ap, String, true, none, arith, if◌then◌else◌,
  ltb, lt→ltb, is_some, length,
}
use nydus_snapshotter.Base.Dict.{
  lookup, insert, remove, IsMap, length-insert, length-remove, insert-IsMap, remove-IsMap,
}
use nydus_snapshotter.Daemon.{Rafs, Daemon}

-- 2 ^ 32: an `int32` wraps.
abbrev pub word32 : ℕ
word32 = 4294967296

pub inc_ref : Daemon → Daemon
inc_ref d = record d { ref = (d.ref + 1) % word32 }

pub dec_ref : Daemon → Daemon
dec_ref d = record d { ref = (d.ref + (word32 - 1)) % word32 }

-- The instance in the cache is the caller's object, so it gets its `DaemonID` too.
pub owned_by : Daemon → Rafs → Rafs
owned_by d r = record r { daemon_id = d.states.id }

unfoldable pub add_rafs_instance : Rafs → Daemon → Daemon
unfolding inc_ref owned_by
add_rafs_instance r d =
    inc_ref (record d { rafs_cache = insert r.snapshot_id (owned_by d r) d.rafs_cache })

unfoldable pub update_rafs_instance : Rafs → Daemon → Daemon
update_rafs_instance r d = record d { rafs_cache = insert r.snapshot_id r d.rafs_cache }

unfoldable pub remove_rafs_instance : String → Daemon → Daemon
unfolding dec_ref
remove_rafs_instance snapshot_id d =
    dec_ref (record d { rafs_cache = remove snapshot_id d.rafs_cache })

-- `for ref > 0 { d.IncRef(); ref-- }`.
pub inc_times : ℕ → Daemon → Daemon
unfolding inc_ref
inc_times zero d = d
inc_times (suc n) d = inc_times n (inc_ref d)

-- A negative count of the source, 2 ^ 31 or more, makes no round.
unfoldable pub clone_rafs_instances : Daemon → Daemon → Daemon
unfolding inc_times
clone_rafs_instances src d =
    inc_times (if ltb src.ref 2147483648 then src.ref else 0)
      (record d { rafs_cache = src.rafs_cache })

-- The cache is a map, and the count is the number of instances and `extra` holders besides.
pub record IsCounted (extra : ℕ) (d : Daemon) : Type 0 where
  pub is_map : IsMap d.rafs_cache
  pub counted : d.ref ≡ length d.rafs_cache + extra
  pub small : d.ref < 2147483648

-- What an addition or a removal does to the count of a well-counted daemon, in every case. A new
-- instance keeps it exact; adding an instance that is there already makes the count one too large.
pub add-IsCounted :
    (extra : ℕ) (r : Rafs) (d : Daemon)
    → IsCounted extra d
    → d.ref + 1 < 2147483648
    → IsCounted
        (if is_some (lookup r.snapshot_id d.rafs_cache) then suc extra else extra)
        (add_rafs_instance r d)
unfolding add_rafs_instance owned_by
add-IsCounted extra r d v room = record {
  is_map = insert-IsMap r.snapshot_id (owned_by d r) d.rafs_cache v.is_map;
  counted = ground (arith, v, length-insert r.snapshot_id (owned_by d r) d.rafs_cache);
  small = ground (arith, v);
}

-- Removing an instance that is there keeps the count exact.
pub remove-IsCounted :
    (extra : ℕ) (snapshot_id : String) (d : Daemon)
    → IsCounted extra d
    → is_some (lookup snapshot_id d.rafs_cache) ≡ true
    → IsCounted extra (remove_rafs_instance snapshot_id d)
unfolding remove_rafs_instance
remove-IsCounted extra i d v present = record {
  is_map = remove-IsMap i d.rafs_cache v.is_map;
  counted = ground (arith, v, length-remove i d.rafs_cache v.is_map);
  small = ground (arith, v, length-remove i d.rafs_cache v.is_map);
}

-- Removing an instance that is not there takes a reference away all the same: on a daemon that
-- nobody holds the count wraps to -1, and so misses the 0 at which the daemon is destroyed.
pub remove_absent-ref :
    (snapshot_id : String) (d : Daemon)
    → lookup snapshot_id d.rafs_cache ≡ none
    → IsCounted 0 d
    → length d.rafs_cache ≡ 0
    → (remove_rafs_instance snapshot_id d).ref ≡ word32 - 1
unfolding remove_rafs_instance
remove_absent-ref i d absent v empty = omega (arith, v.counted)

inc_times_lem :
    (n : ℕ) (d : Daemon) → d.ref + n < word32 → inc_times n d ≡ record d { ref = d.ref + n }
unfolding inc_times inc_ref
inc_times_lem zero d h = ground arith
inc_times_lem (suc n) d h =
    inc_times_lem n (inc_ref d) (omega arith) ∙ ap (λ k. record d { ref = k }) (omega arith)

-- A daemon that takes over the instances of another, from no reference of its own, has the same
-- instances and the same count.
pub clone_lem :
    (extra : ℕ) (src d : Daemon)
    → IsCounted extra src
    → d.ref ≡ 0
    → IsCounted extra (clone_rafs_instances src d)
      × ((clone_rafs_instances src d).rafs_cache ≡ src.rafs_cache)
      × ((clone_rafs_instances src d).states ≡ d.states)
unfolding clone_rafs_instances
clone_lem extra src d v fresh =
    let copied = record d { rafs_cache = src.rafs_cache } in
    let all = inc_times_lem src.ref copied (omega (arith, v.small)) in
    let total : 0 + src.ref ≡ src.ref = omega arith in
    rw (lt→ltb src.ref 2147483648 v.small, all, fresh, total)
      (record { is_map = v.is_map; counted = v.counted; small = v.small }, refl, refl)
