-- ===== src/Monitor/Watched.antt =====
-- Every subscribed daemon's connection is open and watched.
use nydus_snapshotter.Base.{
  ℕ, ◌≡◌, refl, sym, ap, ◌∙◌, ◌==◌, eq_iff, String, Bool, true, false, Option, none, some, [], ◌∷◌,
  Result, ok, err, if◌then◌else◌, ◌=ℕ=◌, arith, already_exists,
}
use nydus_snapshotter.Base.Dict.{Dict, lookup, remove, lookup-insert, lookup-remove}
use nydus_snapshotter.Monitor.Fds.{
  lookup_fd, has_fd, lookup_fd-insert_fd, lookup_fd-remove_fd, has_fd-drop_fd,
}
use nydus_snapshotter.Monitor.{
  Target, Monitor, Dialling, Closing, subscribed, in_control, controlled_by, with_raw, opened,
  connected, dialled, has_path, subscribe, unwatched, closed, forgotten, unsubscribed, unsubscribe,
  not_unix, unsubscribe_all,
}

-- A target stands under its own id, and its connection is in the set and open.
abbrev pub Fits : String → Target → Monitor → Type 0
Fits id t m = (t.id ≡ id) × (lookup_fd t.fd m.watching ≡ some t) × (has_fd t.fd m.alive ≡ true)

abbrev pub IsWatched : Monitor → Type 0
IsWatched m = (id : String) (t : Target) → lookup id m.subscribers ≡ some t → Fits id t m

-- The kernel gives a descriptor that is not open.
abbrev pub IsNew : ℕ → Monitor → Type 0
IsNew fd m = has_fd fd m.alive ≡ false

opened-IsWatched : (fd : ℕ) (m : Monitor) → IsWatched m → IsWatched (opened fd m)
unfolding has_fd
opened-IsWatched fd m h id t e = ground (arith, h id t e)

subscribed-IsWatched :
    (t : Target) (m : Monitor)
    → IsNew t.fd m
    → IsWatched m
    → IsWatched (subscribed t (opened t.fd m))
unfolding has_fd
subscribed-IsWatched t m fresh h id u e =
    by_id (t.id == id) refl (sym (lookup-insert t.id id t m.subscribers) ∙ e)
  where
    by_id :
        (b : Bool)
        → (t.id == id) ≡ b
        → (if b then some t else lookup id m.subscribers) ≡ some u
        → Fits id u (subscribed t (opened t.fd m))
    by_id true same new =
        ground (arith, eq_iff t.id id, same, new, lookup_fd-insert_fd t.fd u.fd t m.watching)
    by_id false other old =
        ground (arith, old, h id u old, fresh, lookup_fd-insert_fd t.fd u.fd t m.watching)

-- A dial that succeeds gives a new descriptor.
abbrev pub DialsNew : Result ℕ → Monitor → Type 0
DialsNew (ok fd) m = IsNew fd m
DialsNew (err e) m = Unit

pub subscribe-IsWatched :
    (d : Dialling) (id path : String) (notifier : ℕ) (m : Monitor)
    → DialsNew d.dial m
    → IsWatched m
    → IsWatched (subscribe d id path notifier m).0
unfolding subscribe
subscribe-IsWatched d id path notifier m fresh h =
    by_path (has_path path (lookup id m.subscribers)) d.dial fresh
  where
    by_closure :
        (t : Target) (fd_new : IsNew t.fd m) (n a : Result (Unit {0}))
        → IsWatched (in_control t n a (opened t.fd m))
    by_closure t fd_new (err e) a = opened-IsWatched t.fd m h
    by_closure t fd_new (ok u) (err e) = opened-IsWatched t.fd m h
    by_closure t fd_new (ok u) (ok v) = subscribed-IsWatched t m fd_new h

    by_control :
        (t : Target) (fd_new : IsNew t.fd m) (u : Bool) (raw control n a : Result (Unit {0}))
        → IsWatched
            (if u
              then with_raw raw
                  (controlled_by control (in_control t n a (opened t.fd m)) (opened t.fd m))
                  (opened t.fd m)
              else (opened t.fd m, err not_unix)).0
    by_control t fd_new false raw control n a = opened-IsWatched t.fd m h
    by_control t fd_new true (err e) control n a = opened-IsWatched t.fd m h
    by_control t fd_new true (ok u) (err e) n a = opened-IsWatched t.fd m h
    by_control t fd_new true (ok u) (ok v) n a = by_closure t fd_new n a

    by_path :
        (b : Bool) (r : Result ℕ)
        → DialsNew r m
        → IsWatched
            (if b then (m, err already_exists) else dialled (connected d id path notifier m) m r).0
    by_path true r f = h
    by_path false (err e) f = h
    by_path false (ok fd) f =
        by_control (record { fd = fd; notifier = notifier; id = id; path = path }) f d.is_unix d.raw
          d.control d.nonblock d.epoll_add

forgotten-IsWatched : (id : String) (m : Monitor) → IsWatched m → IsWatched (forgotten id m)
forgotten-IsWatched id m h j t e = h j t (kept (sym (lookup-remove id j m.subscribers) ∙ e))
  where
    kept :
        (if id == j then none else lookup j m.subscribers) ≡ some t
        → lookup j m.subscribers ≡ some t
    kept p = ground (arith, p)

-- The target of a subscriber that goes is no other's.
others_differ :
    (id j : String) (t u : Target) (m : Monitor)
    → Fits id t m
    → Fits j u m
    → (id == j) ≡ false
    → (t.fd =ℕ= u.fd) ≡ false
others_differ id j t u m (a, b, c) (d, e, f) g = by_fd (t.fd =ℕ= u.fd) refl
  where
    by_fd : (x : Bool) → (t.fd =ℕ= u.fd) ≡ x → (t.fd =ℕ= u.fd) ≡ false
    by_fd true p = ground (arith, p, eq_iff id j, a, b, d, e, g)
    by_fd false p = p

module _ (id : String) (t : Target) (m : Monitor) (found : lookup id m.subscribers ≡ some t) where
  left_over :
      (j : String) (u : Target)
      → IsWatched m
      → lookup j (remove id m.subscribers) ≡ some u
      → Fits j u m × ((t.fd =ℕ= u.fd) ≡ false)
  left_over j u h e = by_id (id == j) refl (sym (lookup-remove id j m.subscribers) ∙ e)
    where
      by_id :
          (b : Bool)
          → (id == j) ≡ b
          → (if b then none else lookup j m.subscribers) ≡ some u
          → Fits j u m × ((t.fd =ℕ= u.fd) ≡ false)
      by_id true x y = ground (arith, y)
      by_id false x y = (h j u y, others_differ id j t u m (h id t found) (h j u y) x)

  gone-Fits :
      (del close : Result (Unit {0})) (j : String) (u : Target)
      → Fits j u m × ((t.fd =ℕ= u.fd) ≡ false)
      → Fits j u (closed close t.fd (unwatched del t.fd (forgotten id m))).0
  gone-Fits (err x) (err y) j u (f, n) = f
  gone-Fits (err x) (ok y) j u (f, n) =
      (f.0, f.1, ground (arith, n, f.2, has_fd-drop_fd t.fd u.fd m.alive))
  gone-Fits (ok x) (err y) j u (f, n) =
      (f.0, ground (arith, n, f.1, lookup_fd-remove_fd t.fd u.fd m.watching), f.2)
  gone-Fits (ok x) (ok y) j u (f, n) = (
    f.0,
    ground (arith, n, f.1, lookup_fd-remove_fd t.fd u.fd m.watching),
    ground (arith, n, f.2, has_fd-drop_fd t.fd u.fd m.alive),
  )

  gone_subscribers :
      (del close : Result (Unit {0}))
      → (closed close t.fd (unwatched del t.fd (forgotten id m))).0.subscribers
        ≡ remove id m.subscribers
  gone_subscribers (err x) (err y) = refl
  gone_subscribers (err x) (ok y) = refl
  gone_subscribers (ok x) (err y) = refl
  gone_subscribers (ok x) (ok y) = refl

  released-IsWatched :
      (raw control del close : Result (Unit {0}))
      → IsWatched m
      → IsWatched
          (with_raw raw
            (with_raw control
              (closed close t.fd (unwatched del t.fd (forgotten id m)))
              (forgotten id m))
            (forgotten id m)).0
  released-IsWatched (err x) control del close h j u e = forgotten-IsWatched id m h j u e
  released-IsWatched (ok x) (err y) del close h j u e = forgotten-IsWatched id m h j u e
  released-IsWatched (ok x) (ok y) del close h j u e =
      gone-Fits del close j u
        (left_over j u h (sym (ap (lookup j) (gone_subscribers del close)) ∙ e))

pub unsubscribe-IsWatched :
    (c : Closing) (id : String) (m : Monitor) → IsWatched m → IsWatched (unsubscribe c id m).0
unfolding unsubscribe
unsubscribe-IsWatched c id m h = by_target (lookup id m.subscribers) refl
  where
    by_target :
        (o : Option Target) → lookup id m.subscribers ≡ o → IsWatched (unsubscribed c id m o).0
    by_target none e = h
    by_target (some t) e = released-IsWatched id t m e c.raw_conn c.controlled c.epoll_del c.close h

pub unsubscribe_all-IsWatched :
    (c : String → Closing) (ts : Dict Target) (m : Monitor)
    → IsWatched m
    → IsWatched (unsubscribe_all c ts m)
unfolding unsubscribe_all
unsubscribe_all-IsWatched c [] m h = h
unsubscribe_all-IsWatched c ((id, t) ∷ ts) m h =
    unsubscribe_all-IsWatched c ts (unsubscribe (c id) id m).0 (unsubscribe-IsWatched (c id) id m h)
