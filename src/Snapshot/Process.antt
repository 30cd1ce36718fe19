-- ===== src/Snapshot/Process.antt =====
-- snapshot/process.go and snapshot/snapshot.go: what is done with a new snapshot, and the mounts of
-- `Prepare`, `View` and `Mounts`. The calls of the filesystem layer and of the store's writing
-- operations are recorded, oldest first, and a backend answers them by the calls made before.
pub mod Calls
pub mod Layers
pub mod Skip
pub mod Writable
use nydus_snapshotter.Base.{
  ℕ, ◌==◌, String, Bool, true, false, not, ◌&&◌, ◌||◌, Option, none, some, List, [], ◌∷◌, ◌++◌,
  Error, already_exists, not_found, failure, Result, ok, err, if◌then◌else◌, is_already_exists,
  is_not_found,
}
use nydus_snapshotter.Base.Dict.{lookup, insert}
use nydus_snapshotter.Daemon.{FsDriver}
use nydus_snapshotter.Label.{
  Labels, has, is_nydus_meta_layer, is_nydus_data_layer, is_tarfs_data_layer, is_nydus_proxy_mode,
  cri_layer_digest, target_snapshot_ref, nydus_proxy_mode, nydus_index_alternative, stargz_layer,
}
use nydus_snapshotter.Snapshot.{
  Info, Snapshot, MetaStore, Kind, kind_view, kind_active, kind_unknown, kind_committed, is_proxy,
  treat_as_proxy_driver,
}
use nydus_snapshotter.Snapshot.Parents.{find_meta_layer, find_checked_layer}
use nydus_snapshotter.Snapshot.Overlay.{Mount, Settings, mount_native, mount_remote, mount_proxy}

pub data Call : Type 0 where
  mount : String → Labels → Call
  wait_until_ready prepare_stargz prepare_tarfs export_layer : String → Call
  fetch_from_index fetch_from_referrer : String → Call
  merge_stargz merge_tarfs export_image : String → Call
  commit : (target key : String) → Labels → Call
  create : Kind → (key parent : String) → Call

-- The filesystem layer, the configuration, and the store and the settings after some calls. Some
-- calls change the labels that they are given; `fuel` bounds the searches along the parents.
pub record Backend : Type 0 where
  pub driver : FsDriver
  pub stargz_enabled : Bool
  pub tarfs_enabled : Bool
  pub tarfs_export : Bool
  pub index_detect : Bool
  pub referrer_detect : Bool
  pub check_index : Labels → Bool
  pub check_referrer : Labels → Bool
  pub is_stargz_data_layer : Labels → Bool
  pub is_stargz_layer : Labels → Bool
  pub answers : List Call → Call → Result (Unit {0})
  pub relabel : Call → Labels → Labels
  pub created : List Call → Call → Snapshot
  pub store : List Call → MetaStore
  pub settings : List Call → Settings
  pub fuel : ℕ

pub data Handler : Type 0 where
  default_handler skip_handler proxy_handler : Handler
  remote_handler : String → Labels → Handler

abbrev pub Act : Type 0 → Type 0
Act A = List Call → List Call × Result A

abbrev pub next : {A B : Type 0} → (A → Act B) → List Call × Result A → List Call × Result B
next f (w, ok a) = f a w
next f (w, err e) = (w, err e)

infixl 5 ◌>>=◌ ◌>>◌
abbrev pub ◌>>=◌ : {A B : Type 0} → Act A → (A → Act B) → Act B
◌>>=◌ m f w = next f (m w)

abbrev pub ◌>>◌ : {B : Type 0} → Act (Unit {0}) → Act B → Act B
m >> k = m >>= λ _. k

abbrev pub pure : {A : Type 0} → A → Act A
pure a w = (w, ok a)

abbrev pub fail : {A : Type 0} → Error → Act A
fail e w = (w, err e)

abbrev pub of_result : {A : Type 0} → Result A → Act A
of_result r w = (w, r)

-- Whether the call succeeded.
abbrev pub succeeded : List Call × Result (Unit {0}) → List Call × Result Bool
succeeded (w, ok _) = (w, ok true)
succeeded (w, err _) = (w, ok false)

abbrev pub attempt : Act (Unit {0}) → Act Bool
attempt m w = succeeded (m w)

-- The next rule, while no handler is chosen.
abbrev pub or_else : Act (Option Handler) → Option Handler → Act (Option Handler)
or_else m none = m
or_else m (some h) = pure (some h)

abbrev pub text_of : String → Labels → String
text_of k labels = elim (lookup k labels) [ none ↦ "" | some v ↦ v ]

-- A search along the parents that found a layer.
abbrev pub found : Option (Result (String × Info)) → Option (String × Info)
found (some (ok x)) = some x
found _ = none

abbrev pub parent_labels : Result (String × Info) → Labels
parent_labels (ok (id, info)) = info.labels
parent_labels (err e) = []

abbrev pub or_default : Option Handler → Handler
or_default none = default_handler
or_default (some h) = h

abbrev pub as_remote : Option (String × Info) → Option Handler
as_remote none = none
as_remote (some (id, info)) = some (remote_handler id info.labels)

-- The end of `Prepare`: the answer to the commit, or the mounts.
abbrev pub commit_answer :
    List Mount → List Call × Result (Unit {0}) → List Call × Result (List Mount)
commit_answer ms (w, ok _) = (w, err already_exists)
commit_answer ms (w, err e) = if is_already_exists e then (w, err already_exists) else (w, ok ms)

-- The mounts of a snapshot that is not committed.
abbrev pub kept : List Call × Result (List Mount) → List Call × Result (Bool × List Mount)
kept r = next (λ ms. pure (false, ms)) r

module _ (b : Backend) where
  unfoldable pub call : Call → Act (Unit {0})
  call c w = (w ++ c ∷ [], b.answers w c)

  -- A layer of an image that the proxy, nydus, or another conversion may take over: the handler and
  -- the labels, which are also those of the commit.
  skip_stargz : String → Labels → Bool → Act (Option Handler × Labels)
  skip_stargz id labels false = pure (none, b.relabel (prepare_stargz id) labels)
  skip_stargz id labels true =
      pure (some skip_handler, insert stargz_layer "true" (b.relabel (prepare_stargz id) labels))

  pub try_stargz : String → Labels → Act (Option Handler × Labels)
  unfolding call skip_stargz
  try_stargz id labels =
      if b.stargz_enabled && b.is_stargz_data_layer labels
      then attempt (call (prepare_stargz id)) >>= skip_stargz id labels
      else pure (none, labels)

  export_block : String → Labels → Act (Option Handler × Labels)
  unfolding call
  export_block id labels =
      if b.tarfs_export
      then call (export_layer id) >> pure (some skip_handler, b.relabel (export_layer id) labels)
      else pure (some skip_handler, labels)

  skip_tarfs : String → Labels → Bool → Act (Option Handler × Labels)
  unfolding export_block
  skip_tarfs id labels false = pure (none, b.relabel (prepare_tarfs id) labels)
  skip_tarfs id labels true = export_block id (b.relabel (prepare_tarfs id) labels)

  pub try_tarfs : String → Option Handler × Labels → Act (Option Handler × Labels)
  unfolding call skip_tarfs
  try_tarfs id (some h, labels) = pure (some h, labels)
  try_tarfs id (none, labels) =
      if b.tarfs_enabled
      then attempt (call (prepare_tarfs id)) >>= skip_tarfs id labels
      else pure (none, labels)

  -- The cases of a layer that is to become a read-only snapshot.
  pub choose_layer : String → Labels → Act (Option Handler × Labels)
  unfolding is_nydus_meta_layer is_nydus_data_layer try_stargz try_tarfs
  choose_layer id labels =
      if is_proxy b.driver
      then (if text_of cri_layer_digest labels == ""
          then fail (failure 31)
          else pure (some skip_handler, insert nydus_proxy_mode "true" labels))
      else if is_nydus_meta_layer labels
      then pure (some default_handler, labels)
      else if is_nydus_data_layer labels
      then pure (some skip_handler, labels)
      else if b.check_index labels
      then pure (some skip_handler, insert nydus_index_alternative "true" labels)
      else if b.check_referrer labels
      then pure (some skip_handler, labels)
      else try_stargz id labels >>= try_tarfs id

  -- The first two rules of a container's writable layer.
  pub proxy_rules : Result (String × Info) → Option Handler
  unfolding treat_as_proxy_driver is_nydus_proxy_mode
  proxy_rules (ok (id, info)) =
      if is_nydus_proxy_mode info.labels
      then some (remote_handler id info.labels)
      else if treat_as_proxy_driver b.driver info.labels
      then some proxy_handler
      else none
  proxy_rules (err e) = if treat_as_proxy_driver b.driver [] then some proxy_handler else none

  pub meta_rule : String → Act (Option Handler)
  unfolding find_meta_layer
  meta_rule key w = (w, ok (as_remote (found (find_meta_layer (b.store w) b.fuel key))))

  -- A layer that the index or a referrer gives the bootstrap of.
  abbrev fetched : (String → Call) → Option (String × Info) → Act (Option Handler)
  unfolding call
  fetched c none = pure none
  fetched c (some (id, info)) = call (c id) >> pure (some (remote_handler id info.labels))

  pub fetch_rule : Bool → (Labels → Bool) → (String → Call) → String → Act (Option Handler)
  unfolding find_checked_layer
  fetch_rule enabled check c key w =
      if enabled
      then fetched c (found (find_checked_layer (b.store w) check b.fuel key)) w
      else (w, ok none)

  pub stargz_rule : Result (String × Info) → String → Act (Option Handler)
  unfolding call
  stargz_rule (err e) id = pure none
  stargz_rule (ok (pid, info)) id =
      if b.stargz_enabled && b.is_stargz_layer info.labels
      then call (merge_stargz id) >> pure (some (remote_handler pid info.labels))
      else pure none

  -- `mergeTarfs`; the update of the labels in the store belongs to the export, which changes the
  -- parent's labels in place.
  unfoldable pub merge_tarfs_layers : String → Act (Unit {0})
  unfolding call
  merge_tarfs_layers id =
      call (merge_tarfs id) >> (if b.tarfs_export then call (export_image id) else pure tt)

  unfoldable pub exported_labels : String → Labels → Labels
  exported_labels id labels = if b.tarfs_export then b.relabel (export_image id) labels else labels

  pub tarfs_rule : Result (String × Info) → String → Act (Option Handler)
  unfolding merge_tarfs_layers is_tarfs_data_layer exported_labels
  tarfs_rule (err e) id = pure none
  tarfs_rule (ok (pid, info)) id =
      if b.tarfs_enabled && is_tarfs_data_layer info.labels
      then merge_tarfs_layers id
        >> pure (some (remote_handler pid (exported_labels id info.labels)))
      else pure none

  pub choose_writable : String → String → String → Act (Option Handler)
  unfolding proxy_rules meta_rule fetch_rule stargz_rule tarfs_rule
  choose_writable id key parent w =
      let p = (b.store w).get_info parent in
      (pure (proxy_rules p)
          >>= or_else (meta_rule key)
          >>= or_else (fetch_rule b.index_detect b.check_index fetch_from_index key)
          >>= or_else (fetch_rule b.referrer_detect b.check_referrer fetch_from_referrer key)
          >>= or_else (stargz_rule p id)
          >>= or_else (tarfs_rule p id))
        w

  -- `chooseProcessor`.
  unfoldable pub choose_processor : Snapshot → String → String → Labels → Act (Handler × Labels)
  unfolding choose_layer choose_writable has
  choose_processor s key parent labels =
      if has target_snapshot_ref labels
      then (choose_layer s.id labels >>= λ (h, labels'). pure (or_default h, labels'))
      else choose_writable s.id key parent >>= λ h. pure (or_default h, labels)

  -- A handler: whether the snapshot is to be committed, and its mounts. A remote handler reads the
  -- labels of the layer that it mounts.
  unfoldable pub process : Handler → Snapshot → String → Labels → Act (Bool × List Mount)
  unfolding call mount_native mount_remote mount_proxy
  process default_handler s key labels w = (w, ok (false, mount_native (b.settings w) labels s))
  process skip_handler s key labels w = (w, ok (true, []))
  process proxy_handler s key labels w = kept (w, mount_proxy (b.settings w) s)
  process (remote_handler id layer_labels) s key labels w =
      (call (mount id layer_labels)
          >> (call (wait_until_ready id) >> λ w'.
              kept (w', mount_remote (b.settings w') layer_labels s id key)))
        w

  pub finish : String → Labels → String → Bool × List Mount → Act (List Mount)
  unfolding call
  finish target labels key (false, ms) w = (w, ok ms)
  finish target labels key (true, ms) w = commit_answer ms (call (commit target key labels) w)

  -- `createSnapshot`, which another part of the snapshotter does.
  unfoldable pub create_snapshot : Kind → String → String → Act Snapshot
  unfolding call
  create_snapshot kind key parent w =
      (call (create kind key parent) >> pure (b.created w (create kind key parent))) w

  -- `Prepare`; the labels are those of the options.
  unfoldable pub prepare : String → String → Labels → Act (List Mount)
  unfolding create_snapshot choose_processor process finish
  prepare key parent labels = create_snapshot kind_active key parent >>= λ s.
      choose_processor s key parent labels >>= λ (h, commit_labels).
      process h s key commit_labels
      >>= finish (text_of target_snapshot_ref labels) commit_labels key
