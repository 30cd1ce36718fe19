-- ===== src/Monitor.antt =====
-- pkg/manager/monitor.go: the monitor that watches a connection to each nydusd. Its two maps and the
-- open connections are the state; what the sockets and epoll answer is a parameter of each
-- operation.
pub mod Fds
pub mod Watched
pub mod Events
mod Examples
use nydus_snapshotter.Base.{
  ℕ, ◌==◌, ◌&&◌, ◌||◌, not, String, Bool, true, false, Option, none, some, List, [], ◌∷◌, Error,
  failure, already_exists, not_found, Result, ok, err, if◌then◌else◌,
}
use nydus_snapshotter.Base.Dict.{Dict, lookup, insert, remove}
use nydus_snapshotter.Monitor.Fds.{FdMap, lookup_fd, insert_fd, remove_fd, drop_fd}

-- `target`: the descriptor stands for the connection, a number for the notifier's channel.
pub record Target : Type 0 where
  pub fd : ℕ
  pub notifier : ℕ
  pub id : String
  pub path : String

-- `livenessMonitor`; `alive` are the descriptors of connections that are not closed.
pub record Monitor : Type 0 where
  pub subscribers : Dict Target
  pub watching : FdMap Target
  pub alive : List ℕ

-- `deathEvent`, with the channel that it is sent to.
pub record DeathEvent : Type 0 where
  pub daemon_id : String
  pub socket : String
  pub channel : ℕ

-- What `Subscribe` meets: the retried dial, the kind of the connection, access to its descriptor,
-- the call of the closure, and the two system calls in it.
pub record Dialling : Type 0 where
  pub dial : Result ℕ
  pub is_unix : Bool
  pub raw : Result (Unit {0})
  pub control : Result (Unit {0})
  pub nonblock : Result (Unit {0})
  pub epoll_add : Result (Unit {0})

-- What `unsubscribe` meets.
pub record Closing : Type 0 where
  pub raw_conn : Result (Unit {0})
  pub controlled : Result (Unit {0})
  pub epoll_del : Result (Unit {0})
  pub close : Result (Unit {0})

abbrev pub new_monitor : Monitor
new_monitor = record { subscribers = []; watching = []; alive = [] }

-- `errors.Errorf("a unix socket connection is required")`.
abbrev pub not_unix : Error
not_unix = failure 70

abbrev pub has_path : String → Option Target → Bool
has_path path none = false
has_path path (some t) = t.path == path

abbrev pub subscribed : Target → Monitor → Monitor
subscribed t m = record m {
  watching = insert_fd t.fd t m.watching;
  subscribers = insert t.id t m.subscribers;
}

-- The closure of `Subscribe`. Its errors are assigned to `err`, which the result of `Control` then
-- overwrites.
abbrev pub in_control : Target → (nonblock epoll_add : Result (Unit {0})) → Monitor → Monitor
in_control t (err e) added m = m
in_control t (ok u) (err e) m = m
in_control t (ok u) (ok v) m = subscribed t m

abbrev pub controlled_by :
    Result (Unit {0}) → (after before : Monitor) → Monitor × Result (Unit {0})
controlled_by (ok u) after before = (after, ok tt)
controlled_by (err e) after before = (before, err e)

abbrev pub with_raw :
    Result (Unit {0}) → Monitor × Result (Unit {0}) → Monitor → Monitor × Result (Unit {0})
with_raw (ok u) r m = r
with_raw (err e) r m = (m, err e)

abbrev pub opened : ℕ → Monitor → Monitor
opened fd m = record m { alive = fd ∷ m.alive }

abbrev pub connected : Dialling → (id path : String) → ℕ → Monitor → ℕ → Monitor × Result (Unit {0})
connected d id path notifier m fd =
    if d.is_unix
    then with_raw d.raw
        (controlled_by d.control
          (in_control (record { fd = fd; notifier = notifier; id = id; path = path }) d.nonblock
            d.epoll_add (opened fd m))
          (opened fd m))
        (opened fd m)
    else (opened fd m, err not_unix)

abbrev pub dialled :
    (ℕ → Monitor × Result (Unit {0})) → Monitor → Result ℕ → Monitor × Result (Unit {0})
dialled k m (ok fd) = k fd
dialled k m (err e) = (m, err e)

unfoldable pub subscribe :
    Dialling → (id path : String) → (notifier : ℕ) → Monitor → Monitor × Result (Unit {0})
subscribe d id path notifier m =
    if has_path path (lookup id m.subscribers)
    then (m, err already_exists)
    else dialled (connected d id path notifier m) m d.dial

-- An error of epoll is only logged, and the target stays in the set.
abbrev pub unwatched : Result (Unit {0}) → ℕ → Monitor → Monitor
unwatched (ok u) fd m = record m { watching = remove_fd fd m.watching }
unwatched (err e) fd m = m

abbrev pub closed : Result (Unit {0}) → ℕ → Monitor → Monitor × Result (Unit {0})
closed (ok u) fd m = (record m { alive = drop_fd fd m.alive }, ok tt)
closed (err e) fd m = (m, err e)

abbrev pub forgotten : String → Monitor → Monitor
forgotten id m = record m { subscribers = remove id m.subscribers }

abbrev pub released : Closing → ℕ → Monitor → Monitor × Result (Unit {0})
released c fd m =
    with_raw c.raw_conn (with_raw c.controlled (closed c.close fd (unwatched c.epoll_del fd m)) m) m

abbrev pub unsubscribed : Closing → String → Monitor → Option Target → Monitor × Result (Unit {0})
unsubscribed c id m none = (m, err not_found)
unsubscribed c id m (some t) = released c t.fd (forgotten id m)

unfoldable pub unsubscribe : Closing → String → Monitor → Monitor × Result (Unit {0})
unsubscribe c id m = unsubscribed c id m (lookup id m.subscribers)

abbrev pub notified : (hang_up failed : Bool) → Option Target → Option DeathEvent
notified hang_up failed none = none
notified hang_up failed (some t) =
    if hang_up || failed
    then some (record { daemon_id = t.id; socket = t.path; channel = t.notifier })
    else none

-- One event of the loop of `Run`, with its flags EPOLLHUP and EPOLLERR.
unfoldable pub event : ℕ → (hang_up failed : Bool) → Monitor → Option DeathEvent
event fd hang_up failed m = notified hang_up failed (lookup_fd fd m.watching)

-- `Destroy`: the keys in the order of the map; errors are only logged.
unfoldable pub unsubscribe_all : (String → Closing) → Dict Target → Monitor → Monitor
unfolding unsubscribe
unsubscribe_all c [] m = m
unsubscribe_all c ((id, t) ∷ ts) m = unsubscribe_all c ts (unsubscribe (c id) id m).0

unfoldable pub destroy : (String → Closing) → Monitor → Monitor
unfolding unsubscribe_all
destroy c m = unsubscribe_all c m.subscribers m
