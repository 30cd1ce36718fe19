-- ===== src/Snapshot/View.antt =====
-- snapshot/snapshot.go: `View` and `Mounts`, with the calls and the backend of `Prepare`.
pub mod Written
use nydus_snapshotter.Base.{
  ◌==◌, ◌||◌, ◌&&◌, String, Bool, true, false, not, Option, none, some, List, [], ◌∷◌, ◌++◌, Error,
  not_found, failure, Result, ok, err, if◌then◌else◌, is_not_found,
}
use nydus_snapshotter.Label.{
  Labels, is_nydus_meta_layer, is_nydus_data_layer, is_tarfs_data_layer, is_nydus_proxy_mode,
}
use nydus_snapshotter.Snapshot.{
  Info, Snapshot, MetaStore, Kind, kind_view, kind_active, kind_unknown, kind_committed,
  treat_as_proxy_driver,
}
use nydus_snapshotter.Snapshot.Parents.{find_checked_layer}
use nydus_snapshotter.Snapshot.Overlay.{Mount, mount_native, mount_remote, mount_proxy}
use nydus_snapshotter.Snapshot.Process.{
  Call, mount, wait_until_ready, Act, next, ◌>>=◌, ◌>>◌, pure, fail, of_result, Backend, call,
  found, merge_tarfs_layers, exported_labels, create_snapshot,
}

-- The layer whose filesystem the mounts need, if any.
abbrev pub Needed : Type 0
Needed = Option String

-- The answer to a wait: whether the instance is there.
abbrev pub waited : List Call × Result (Unit {0}) → List Call × Result Bool
waited (w, ok _) = (w, ok true)
waited (w, err e) = if is_not_found e then (w, ok false) else (w, err e)

abbrev pub id_of : String × Info → Needed
id_of (id, info) = some id

module _ (b : Backend) where
  abbrev mount_first : String → Labels → Bool → Act (Unit {0})
  unfolding call
  mount_first id labels true = pure tt
  mount_first id labels false = call b (mount id labels) >> call b (wait_until_ready id)

  -- A nydus image that is viewed is mounted if it is not.
  pub ready_parent : String → Labels → Act Needed
  unfolding call is_nydus_meta_layer is_nydus_data_layer
  ready_parent id labels =
      if is_nydus_meta_layer labels
      then ((λ w. waited (call b (wait_until_ready id) w)) >>= mount_first id labels)
        >> pure (some id)
      else if is_nydus_data_layer labels
      then fail (failure 32)
      else pure none

  pub view_tarfs : String → String → Labels → Needed → Act Needed
  unfolding call merge_tarfs_layers is_tarfs_data_layer exported_labels
  view_tarfs id pid labels needed =
      if b.tarfs_enabled && is_tarfs_data_layer labels
      then merge_tarfs_layers b id
        >> (call b (mount pid (exported_labels b id labels)) >> pure (some pid))
      else pure needed

  pub hand_out : Labels → Snapshot → String → Needed → Act (List Mount)
  unfolding mount_native mount_remote
  hand_out labels s key none w = (w, ok (mount_native (b.settings w) labels s))
  hand_out labels s key (some id) w = (w, mount_remote (b.settings w) labels s id key)

  -- `View` after it has created the snapshot, after it has looked at the parent, and from there.
  pub view_created : String → String × Info → Labels → Needed → Snapshot → Act (List Mount)
  unfolding view_tarfs hand_out
  view_created key (pid, info) labels needed s =
      view_tarfs s.id pid info.labels needed >>= hand_out labels s key

  pub view_needing : String → String → String × Info → Labels → Needed → Act (List Mount)
  unfolding create_snapshot view_created
  view_needing key parent p labels needed =
      create_snapshot b kind_view key parent >>= view_created key p labels needed

  pub view_of : String → String → Labels → String × Info → Act (List Mount)
  unfolding ready_parent view_needing
  view_of key parent labels (pid, info) =
      ready_parent pid info.labels >>= view_needing key parent (pid, info) labels

  -- `View`; the labels are those of the options.
  unfoldable pub view : String → String → Labels → Act (List Mount)
  unfolding view_of
  view key parent labels = (λ w. (w, (b.store w).get_info parent)) >>= view_of key parent labels

  -- A layer in tarfs or in proxy mode needs its filesystem.
  pub mounted_elsewhere : String → Labels → Needed
  unfolding is_tarfs_data_layer is_nydus_proxy_mode
  mounted_elsewhere id labels =
      if (b.tarfs_enabled && is_tarfs_data_layer labels) || is_nydus_proxy_mode labels
      then some id
      else none

  -- An instance that is not there is no error for a view.
  abbrev if_there : String → Bool → Needed
  if_there id true = some id
  if_there id false = none

  pub view_needs : String → Info → Act Needed
  unfolding call mounted_elsewhere is_nydus_meta_layer
  view_needs id info =
      if is_nydus_meta_layer info.labels
      then ((λ w. waited (call b (wait_until_ready id) w)) >>= λ there. pure (if_there id there))
      else pure (mounted_elsewhere id info.labels)

  parent_needs : String × Info → Act Needed
  unfolding call mounted_elsewhere is_nydus_meta_layer
  parent_needs (pid, info) =
      if is_nydus_meta_layer info.labels
      then (call b (wait_until_ready pid) >> pure (some pid))
      else pure (mounted_elsewhere pid info.labels)

  pub active_needs : String → Act Needed
  unfolding parent_needs
  active_needs parent =
      if parent == "" then pure none else (λ w. (w, (b.store w).get_info parent)) >>= parent_needs

  pub kind_needs : Kind → String → Info → Act Needed
  unfolding view_needs active_needs
  kind_needs kind_view id info = view_needs id info
  kind_needs kind_active id info = active_needs info.parent
  kind_needs _ id info = pure none

  abbrev found_id : Option (String × Info) → Needed
  found_id none = none
  found_id (some (id, info)) = some id

  -- The search for a layer with a detected index or referrer, while none is needed.
  pub detect : Bool → (Labels → Bool) → String → Needed → Act Needed
  unfolding find_checked_layer
  detect enabled check key (some id) w = (w, ok (some id))
  detect enabled check key none w =
      if enabled
      then (w, ok (found_id (found (find_checked_layer (b.store w) check b.fuel key))))
      else (w, ok none)

  pub mounts_of : Labels → String → Needed → Snapshot → Act (List Mount)
  unfolding hand_out treat_as_proxy_driver mount_proxy
  mounts_of labels key needed s w =
      if treat_as_proxy_driver b.driver labels
      then (w, mount_proxy (b.settings w) s)
      else hand_out labels s key needed w

  pub mounts_needing : String → Info → Needed → Act (List Mount)
  unfolding mounts_of
  mounts_needing key info needed =
      (λ w. (w, (b.store w).get_snapshot key)) >>= mounts_of info.labels key needed

  pub mounts_for : String → String × Info → Act (List Mount)
  unfolding kind_needs detect mounts_needing
  mounts_for key (id, info) =
      kind_needs info.kind id info
      >>= detect b.index_detect b.check_index key
      >>= detect b.referrer_detect b.check_referrer key
      >>= mounts_needing key info

  -- `Mounts`.
  unfoldable pub mounts : String → Act (List Mount)
  unfolding mounts_for
  mounts key = (λ w. (w, (b.store w).get_info key)) >>= mounts_for key
