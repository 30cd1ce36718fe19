-- ===== src/Lib.antt =====
-- nydus-snapshotter is a containerd snapshotter that mounts nydus images through nydusd daemons.
-- The parts modelled here, and how they interact:
--
-- Retry: pkg/utils/retry/retry.go. `do_retry` is `Do`, `loop` its loop. A retried function is a
-- script from the number of a call to its result. Durations are 64-bit patterns, read as signed.
-- The loop runs on the number of attempts left, so it needs no fuel.
--
-- Daemon: pkg/daemon/daemon.go, pkg/rafs/rafs.go, pkg/daemon/types/types.go and the drivers and
-- modes of config/config.go. Daemon/Refs has the instances and the 32-bit reference count,
-- Daemon/State the client, the cached state and `WaitUntilState`, which uses Retry, Daemon/Mounts
-- the mounting, unmounting and recovery of the instances of a shared daemon.
--
-- Store: pkg/store/database.go. bbolt and encoding/json are the parameters `Bolt` and `Json`, with
-- what their documentation says as fields. Store/Records and Store/Refines view the database as two
-- finite maps and a counter. Store/Interface is the interface of pkg/manager/store.go, filled by
-- the database as pkg/store/daemonstore.go does. Store/Memory is a database in memory for examples.
--
-- Manager: pkg/manager/manager.go and pkg/manager/daemon_cache.go, over that interface. Its
-- children are the cache, the agreement of cache and store, the sequence numbers, the recovery of
-- daemons and of instances, and the destruction of a daemon.
--
-- Monitor: pkg/manager/monitor.go, the subscriptions and what the event loop sends. A descriptor
-- stands for its connection. Manager/Events has what follows a death event in
-- pkg/manager/daemon_event.go, as sequences of calls of Manager/Steps; Manager/Upgrade is its
-- upgrade of a daemon, whose object changes along the calls; Manager/Command is the command line
-- and start of pkg/manager/daemon_adaptor.go; Manager/Socket names the next socket, over lists of
-- character codes.
--
-- Tarfs: pkg/tarfs/tarfs.go. A layer's conversion is a task that may end at any point between the
-- other operations (Tarfs/Tasks); Tarfs/Devices frees mounts and devices, Tarfs/Mount makes them,
-- Tarfs/Merge and Tarfs/Export run the builder, and Tarfs/Handled and Tarfs/Exported are about what
-- comes of an export. Tarfs/Undone, Tarfs/Stuck and Tarfs/Ready are about who waits and what
-- becomes ready.
--
-- Cache: pkg/cache/manager.go and `getUnusedCacheBlobs` of snapshot/snapshot.go, over file names as
-- lists of bytes from the last to the first.
--
-- Config: `ValidateConfig` and `ParseParameters` of config/config.go.
--
-- Overlayfs: cmd/nydus-overlayfs/main.go, the mount helper, over options read by their prefixes.
--
-- Label: pkg/label/label.go.
--
-- Snapshot: snapshot/snapshot.go, snapshot/process.go, snapshot/mount_option.go and
-- pkg/snapshot/storage.go. Snapshot/Parents is the search along the parents, on fuel: more fuel
-- than layers is enough. Snapshot/Overlay builds the mounts, with directories as a data type
-- instead of texts. Snapshot/Process is `chooseProcessor` and `Prepare`, Snapshot/View is `View`
-- and `Mounts`, Snapshot/Create the directories of `createSnapshot` with its recovery of parents,
-- Snapshot/Removal has the transactions of `Commit` and `Remove`. The calls of the filesystem layer
-- are recorded and answered by a backend.
--
-- Supervisor: pkg/supervisor/supervisor.go: what is received from nydusd and kept.
--
-- Filesystem: `Mount` and `Umount` of pkg/filesystem/fs.go, on the cache of all RAFS instances, and
-- in Filesystem/Ready the waiting for an instance and the retained shared daemons.
--
-- State is passed explicitly. A Go error is a value of Base/Results, where a wrapped error is the
-- error that it wraps; a map is an association list of Base/Dict. Locks are not modelled: each
-- operation is one step. The steps of other components inside an operation are calls, which an
-- environment answers in any way, so that the error paths of all orders are covered.
--
-- Not modelled: running and killing nydusd's process, the HTTP client and the system controller
-- (process and socket I/O); the sending side and the timeouts of the supervisor; the queries for
-- tarfs' manifests and hints; the making of Kata volumes; usage, and the walk that deletes
-- directories; opening the database file; registry access (pkg/remote is a copy of containerd's),
-- credentials, conversion, metrics, control groups and the commands.
pub mod Base
pub mod Retry
pub mod Daemon
pub mod Store
pub mod Manager
pub mod Label
pub mod Snapshot
pub mod Filesystem
pub mod Supervisor
pub mod Tarfs
pub mod Monitor
pub mod Overlayfs
pub mod Cache
pub mod Config
