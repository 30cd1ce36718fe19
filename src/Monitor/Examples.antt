-- ===== src/Monitor/Examples.antt =====
-- Two daemons, one of which is subscribed and later gone, and a subscription that epoll refuses.
use nydus_snapshotter.Base.{◌≡◌, refl, true, false, some, List, [], ◌∷◌, failure, ok, err}
use nydus_snapshotter.Base.Dict.{lookup, insert, remove}
use nydus_snapshotter.Monitor.Fds.{lookup_fd, insert_fd, remove_fd, drop_fd, has_fd}
use nydus_snapshotter.Monitor.{Dialling, Closing, subscribe, unsubscribe, new_monitor, event}
use nydus_snapshotter.Monitor.Events.{
  Operation, subscribing, unsubscribing, operate, operate_all, event_lem, Subscribes, subscribe_lem,
}

abbrev good : Dialling
good = record {
  dial = ok 5;
  is_unix = true;
  raw = ok tt;
  control = ok tt;
  nonblock = ok tt;
  epoll_add = ok tt;
}

abbrev other : Dialling
other = record good { dial = ok 6 }

abbrev refused : Dialling
refused = record good { dial = ok 7; epoll_add = err (failure 1) }

abbrev quiet : Closing
quiet = record { raw_conn = ok tt; controlled = ok tt; epoll_del = ok tt; close = ok tt }

abbrev operations : List Operation
operations =
    subscribing good "a" "/a.sock" 1
    ∷ subscribing other "b" "/b.sock" 1
    ∷ unsubscribing quiet "a"
    ∷ []

event_lem_example :
    (has_fd 6 (operate_all operations new_monitor).alive ≡ true)
    × (event 6 true false (operate_all operations new_monitor)
        ≡ some (record { daemon_id = "b"; socket = "/b.sock"; channel = 1 }))
unfolding lookup insert remove lookup_fd insert_fd remove_fd drop_fd has_fd subscribe unsubscribe
    operate operate_all
event_lem_example =
    event_lem operations (refl, (refl, (tt, tt))) "b"
      (record { fd = 6; notifier = 1; id = "b"; path = "/b.sock" }) true false refl

subscribe_lem_example :
    Subscribes refused "c" "/c.sock" 1 new_monitor (subscribe refused "c" "/c.sock" 1 new_monitor)
subscribe_lem_example = subscribe_lem refused "c" "/c.sock" 1 new_monitor
