-- ===== src/Snapshot/Process/Writable.antt =====
-- snapshot/process.go: the writable layer of a container on a nydus image.
use nydus_snapshotter.Base.{
  ◌≡◌, ◌<◌, refl, ap, ◌∙◌, Bool, false, String, none, some, List, [], ◌∷◌, ◌++◌, Result, ok, err,
  arith,
}
use nydus_snapshotter.Label.{
  Labels, has, is_nydus_meta_layer, is_nydus_proxy_mode, target_snapshot_ref,
}
use nydus_snapshotter.Snapshot.{Snapshot, Info, kind_active, is_proxy, treat_as_proxy_driver}
use nydus_snapshotter.Snapshot.Parents.{Chain, depth, nearest, iterate_lem, find_meta_layer}
use nydus_snapshotter.Snapshot.Overlay.{Mount, mount_remote}
use nydus_snapshotter.Snapshot.Process.{
  Call, mount, wait_until_ready, create, next, Backend, call, remote_handler, ◌>>=◌, pure,
  proxy_rules, meta_rule, choose_writable, choose_processor, process, kept, finish, create_snapshot,
  prepare, text_of, found, as_remote,
}

abbrev pub meta_test : String → Info → Bool
meta_test id info = is_nydus_meta_layer info.labels

-- The calls made before, then the one that creates the snapshot.
abbrev pub after_create : String → String → List Call → List Call
after_create key parent w = w ++ create kind_active key parent ∷ []

module _ (b : Backend) where
  meta_rule_lem :
      (key : String) (layers : List (String × Info)) (id : String) (info : Info) (w : List Call)
      → Chain (b.store w) key layers
      → depth (b.store w) layers < b.fuel
      → nearest (b.store w) meta_test layers ≡ ok (id, info)
      → meta_rule b key w ≡ (w, ok (some (remote_handler id info.labels)))
  unfolding meta_rule find_meta_layer
  meta_rule_lem key layers id info w chain enough near =
      ap (λ r. (w, ok (as_remote (found r))))
        (iterate_lem (b.store w) b.fuel meta_test key layers chain enough ∙ ap some near)

  no-proxy :
      (id : String) (info : Info)
      → is_proxy b.driver ≡ false
      → is_nydus_proxy_mode info.labels ≡ false
      → proxy_rules b (ok (id, info)) ≡ none
  unfolding proxy_rules treat_as_proxy_driver
  no-proxy id info p n = ground (arith, p, n)

  choose_lem :
      (s : Snapshot) (key parent : String) (labels : Labels) (w : List Call) (pid : String)
      (parent_info : Info) (layers : List (String × Info)) (id : String) (info : Info)
      → has target_snapshot_ref labels ≡ false
      → is_proxy b.driver ≡ false
      → (b.store w).get_info parent ≡ ok (pid, parent_info)
      → is_nydus_proxy_mode parent_info.labels ≡ false
      → Chain (b.store w) key layers
      → depth (b.store w) layers < b.fuel
      → nearest (b.store w) meta_test layers ≡ ok (id, info)
      → choose_processor b s key parent labels w ≡ (w, ok (remote_handler id info.labels, labels))
  unfolding choose_processor choose_writable
  choose_lem s key parent labels w pid parent_info layers id info t p e n chain enough near =
      let rules = ap (proxy_rules b) e ∙ no-proxy pid parent_info p n in
      let meta = meta_rule_lem key layers id info w chain enough near in
      ground (arith, t, rules, meta)

  unkept :
      (target key : String) (labels : Labels) (w : List Call) (ms : Result (List Mount))
      → next (finish b target labels key) (kept (w, ms)) ≡ (w, ms)
  unfolding finish
  unkept target key labels w (ok ms) = refl
  unkept target key labels w (err e) = refl

  remote_rest :
      (target key : String) (labels layer_labels : Labels) (s : Snapshot) (id : String)
      (w : List Call)
      → b.answers w (mount id layer_labels) ≡ ok tt
      → b.answers (w ++ mount id layer_labels ∷ []) (wait_until_ready id) ≡ ok tt
      → (process b (remote_handler id layer_labels) s key labels >>= finish b target labels key) w
        ≡ (let w' = (w ++ mount id layer_labels ∷ []) ++ wait_until_ready id ∷ [] in
            (w', mount_remote (b.settings w') layer_labels s id key))
  unfolding process finish call
  remote_rest target key labels layer_labels s id w m r =
      ap
        (λ a. next (finish b target labels key) (
          next
            (λ _. (λ w.
              next (λ _. (λ w'. kept (w', mount_remote (b.settings w') layer_labels s id key)))
                (call b (wait_until_ready id) w)))
            (w ++ mount id layer_labels ∷ [], a)))
        m
      ∙ ap
          (λ a. next (finish b target labels key) (
            next (λ _. (λ w'. kept (w', mount_remote (b.settings w') layer_labels s id key)))
              ((w ++ mount id layer_labels ∷ []) ++ wait_until_ready id ∷ [], a)))
          r
      ∙ unkept target key labels ((w ++ mount id layer_labels ∷ []) ++ wait_until_ready id ∷ []) (
          mount_remote (b.settings ((w ++ mount id layer_labels ∷ []) ++ wait_until_ready id ∷ []))
            layer_labels s id key)

  -- A container's snapshot, whose parent is not in proxy mode, on layers of which the nearest nydus
  -- meta layer is `id`, with fuel for the search: where the snapshot is created, the layer's
  -- filesystem mounted and found ready, `Prepare` makes just these calls, commits nothing, and gives
  -- the mounts of the snapshot on that layer.
  pub prepare_container_lem :
      (key parent : String) (labels : Labels) (w : List Call) (pid : String) (parent_info : Info)
      (layers : List (String × Info)) (id : String) (info : Info)
      → has target_snapshot_ref labels ≡ false
      → is_proxy b.driver ≡ false
      → b.answers w (create kind_active key parent) ≡ ok tt
      → (b.store (after_create key parent w)).get_info parent ≡ ok (pid, parent_info)
      → is_nydus_proxy_mode parent_info.labels ≡ false
      → Chain (b.store (after_create key parent w)) key layers
      → depth (b.store (after_create key parent w)) layers < b.fuel
      → nearest (b.store (after_create key parent w)) meta_test layers ≡ ok (id, info)
      → b.answers (after_create key parent w) (mount id info.labels) ≡ ok tt
      → b.answers (after_create key parent w ++ mount id info.labels ∷ []) (wait_until_ready id)
        ≡ ok tt
      → prepare b key parent labels w ≡ (
          let w' =
            (after_create key parent w ++ mount id info.labels ∷ []) ++ wait_until_ready id ∷ [] in
          (
            w',
            mount_remote
                (b.settings w')
                info.labels
                (b.created w (create kind_active key parent))
                id
                key,
          ))
  unfolding prepare create_snapshot call
  prepare_container_lem key parent labels w pid parent_info layers id info t p c e n chain enough
        near m r =
      let s = b.created w (create kind_active key parent) in
      let target = text_of target_snapshot_ref labels in
      ap
        (λ a.
          next
            (λ s. choose_processor b s key parent labels >>= λ (h, commit_labels).
              process b h s key commit_labels >>= finish b target commit_labels key)
            (next (λ _. pure s) (after_create key parent w, a)))
        c
      ∙ ap
          (next (λ (h, commit_labels).
            process b h s key commit_labels >>= finish b target commit_labels key))
          (choose_lem s key parent labels (after_create key parent w) pid parent_info layers id info
            t p e n chain enough near)
      ∙ remote_rest target key labels info.labels s id (after_create key parent w) m r
