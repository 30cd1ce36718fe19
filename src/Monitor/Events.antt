-- ===== src/Monitor/Events.antt =====
-- What the event loop tells the subscribers after any operations, and what a subscription leaves.
use nydus_snapshotter.Base.{
  ℕ, refl, Result, ◌≡◌, ap, ◌∙◌, ◌⊎◌, inl, inr, ◌||◌, String, Bool, true, false, none, some, List,
  [], ◌∷◌, Error, ok, err, if◌then◌else◌, arith,
}
use nydus_snapshotter.Base.Dict.{lookup, lookup-insert_self}
use nydus_snapshotter.Monitor.Fds.{lookup_fd, insert_fd, has_fd, lookup_fd-insert_fd}
use nydus_snapshotter.Monitor.{
  Target, Monitor, Dialling, Closing, has_path, subscribe, unsubscribe, destroy, new_monitor, event,
  notified, opened, in_control, controlled_by, with_raw, connected, dialled, not_unix,
  already_exists,
}
use nydus_snapshotter.Monitor.Watched.{
  Fits, IsWatched, DialsNew, subscribe-IsWatched, unsubscribe-IsWatched, unsubscribe_all-IsWatched,
}

pub data Operation : Type 0 where
  subscribing : Dialling → (id path : String) → (notifier : ℕ) → Operation
  unsubscribing : Closing → String → Operation
  destroying : (String → Closing) → Operation

unfoldable pub operate : Operation → Monitor → Monitor
operate (subscribing d id path n) m = (subscribe d id path n m).0
operate (unsubscribing c id) m = (unsubscribe c id m).0
operate (destroying c) m = destroy c m

unfoldable pub operate_all : List Operation → Monitor → Monitor
unfolding operate
operate_all [] m = m
operate_all (o ∷ os) m = operate_all os (operate o m)

abbrev pub OperationNew : Operation → Monitor → Type 0
OperationNew (subscribing d id path n) m = DialsNew d.dial m
OperationNew _ m = Unit

-- Each dial of a run gives a descriptor that is not open then.
abbrev pub AllNew : List Operation → Monitor → Type 0
AllNew [] m = Unit
AllNew (o ∷ os) m = OperationNew o m × AllNew os (operate o m)

operate-IsWatched :
    (o : Operation) (m : Monitor) → OperationNew o m → IsWatched m → IsWatched (operate o m)
unfolding operate destroy
operate-IsWatched (subscribing d id path n) m f h = subscribe-IsWatched d id path n m f h
operate-IsWatched (unsubscribing c id) m f h = unsubscribe-IsWatched c id m h
operate-IsWatched (destroying c) m f h = unsubscribe_all-IsWatched c m.subscribers m h

operate_all-IsWatched :
    (os : List Operation) (m : Monitor) → AllNew os m → IsWatched m → IsWatched (operate_all os m)
unfolding operate_all
operate_all-IsWatched [] m f h = h
operate_all-IsWatched (o ∷ os) m (f, fs) h =
    operate_all-IsWatched os (operate o m) fs (operate-IsWatched o m f h)

-- After any operations of a monitor, with any errors in them, where a dial gives a descriptor that
-- is not open: each subscribed daemon's connection is open, and when it hangs up or fails, exactly
-- the death event of this daemon and its socket goes to its subscriber.
pub event_lem :
    (os : List Operation)
    → AllNew os new_monitor
    → (id : String) (t : Target) (hang_up failed : Bool)
    → lookup id (operate_all os new_monitor).subscribers ≡ some t
    → (has_fd t.fd (operate_all os new_monitor).alive ≡ true)
      × (event t.fd hang_up failed (operate_all os new_monitor) ≡ (
          if hang_up || failed
          then some (record { daemon_id = id; socket = t.path; channel = t.notifier })
          else none))
unfolding event lookup
event_lem os fresh id t hang_up failed found =
    by_fits (operate_all-IsWatched os new_monitor fresh nobody id t found)
  where
    nobody : IsWatched new_monitor
    nobody j u e = ground (arith, e)

    by_fits :
        Fits id t (operate_all os new_monitor)
        → (has_fd t.fd (operate_all os new_monitor).alive ≡ true)
          × (notified hang_up failed (lookup_fd t.fd (operate_all os new_monitor).watching) ≡ (
              if hang_up || failed
              then some (record { daemon_id = id; socket = t.path; channel = t.notifier })
              else none))
    by_fits (a, b, c) = (
      c,
      ap (notified hang_up failed) b
          ∙ ap
              (λ x.
                if hang_up || failed
                then some (record { daemon_id = x; socket = t.path; channel = t.notifier })
                else none)
              a,
    )

abbrev target : (id path : String) → (notifier fd : ℕ) → Target
target id path notifier fd = record { fd = fd; notifier = notifier; id = id; path = path }

-- What a subscription leaves: after a success the daemon is subscribed and its descriptor watched, or
-- the descriptor could not be made non-blocking or was refused by epoll and neither is so; an error
-- changes neither.
abbrev pub Subscribes :
    Dialling → (id path : String) → (notifier : ℕ) → Monitor → Monitor × Result (Unit {0}) → Type 0
Subscribes d id path notifier m (m', ok u) =
    (fd : ℕ) × (d.dial ≡ ok fd)
    × (has_path path (lookup id m.subscribers) ≡ false)
    × (has_fd fd m'.alive ≡ true)
    × (((d.nonblock ≡ ok tt)
          × (d.epoll_add ≡ ok tt)
          × (lookup id m'.subscribers ≡ some (target id path notifier fd))
          × (lookup_fd fd m'.watching ≡ some (target id path notifier fd)))
        ⊎ ((e : Error) × ((d.nonblock ≡ err e) ⊎ (d.epoll_add ≡ err e))
            × (m'.subscribers ≡ m.subscribers)
            × (m'.watching ≡ m.watching)))
Subscribes d id path notifier m (m', err e) =
    (m'.subscribers ≡ m.subscribers) × (m'.watching ≡ m.watching)

-- A Subscribe that reports success has dialled a socket that the daemon was not subscribed with, and
-- has subscribed and watches it, or its descriptor was not made non-blocking or not accepted by
-- epoll, and subscriptions and watched descriptors are as before; with an error they always are.
pub subscribe_lem :
    (d : Dialling) (id path : String) (notifier : ℕ) (m : Monitor)
    → Subscribes d id path notifier m (subscribe d id path notifier m)
unfolding subscribe has_fd
subscribe_lem d id path notifier m = by_path (has_path path (lookup id m.subscribers)) refl
  where
    has_first : (fd : ℕ) (fds : List ℕ) → has_fd fd (fd ∷ fds) ≡ true
    has_first fd fds = ground arith

    watched :
        (fd : ℕ)
        → lookup_fd fd (insert_fd fd (target id path notifier fd) m.watching)
          ≡ some (target id path notifier fd)
    watched fd = ground (arith, lookup_fd-insert_fd fd fd (target id path notifier fd) m.watching)

    by_control :
        (fd : ℕ) (c a b : Result (Unit {0}))
        → d.dial ≡ ok fd
        → has_path path (lookup id m.subscribers) ≡ false
        → d.nonblock ≡ a
        → d.epoll_add ≡ b
        → Subscribes d id path notifier m (
            controlled_by c
              (in_control (target id path notifier fd) a b (opened fd m))
              (opened fd m))
    by_control fd (err e) a b dial fresh n p = (refl, refl)
    by_control fd (ok u) (err e) b dial fresh n p =
        (fd, dial, fresh, has_first fd m.alive, inr (e, inl n, refl, refl))
    by_control fd (ok u) (ok v) (err e) dial fresh n p =
        (fd, dial, fresh, has_first fd m.alive, inr (e, inr p, refl, refl))
    by_control fd (ok u) (ok v) (ok x) dial fresh n p = (
      fd,
      dial,
      fresh,
      has_first fd m.alive,
      inl (n, p, lookup-insert_self id (target id path notifier fd) m.subscribers, watched fd),
    )

    by_raw :
        (fd : ℕ) (u : Bool) (r : Result (Unit {0}))
        → d.dial ≡ ok fd
        → has_path path (lookup id m.subscribers) ≡ false
        → Subscribes d id path notifier m (
            if u
            then with_raw r
                (controlled_by d.control
                  (in_control (target id path notifier fd) d.nonblock d.epoll_add (opened fd m))
                  (opened fd m))
                (opened fd m)
            else (opened fd m, err not_unix))
    by_raw fd false r dial fresh = (refl, refl)
    by_raw fd true (err e) dial fresh = (refl, refl)
    by_raw fd true (ok u) dial fresh =
        by_control fd d.control d.nonblock d.epoll_add dial fresh refl refl

    by_dial :
        (r : Result ℕ)
        → d.dial ≡ r
        → has_path path (lookup id m.subscribers) ≡ false
        → Subscribes d id path notifier m (dialled (connected d id path notifier m) m r)
    by_dial (err e) dial fresh = (refl, refl)
    by_dial (ok fd) dial fresh = by_raw fd d.is_unix d.raw dial fresh

    by_path :
        (b : Bool)
        → has_path path (lookup id m.subscribers) ≡ b
        → Subscribes d id path notifier m (
            if b
            then (m, err already_exists)
            else dialled (connected d id path notifier m) m d.dial)
    by_path true h = (refl, refl)
    by_path false h = by_dial d.dial refl h
