-- ===== src/Snapshot/Process/Layers.antt =====
-- snapshot/process.go: the snapshots that are to become read-only layers.
use nydus_snapshotter.Base.{
  ◌≡◌, ◌==◌, ◌&&◌, refl, Bool, true, false, String, Option, none, some, List, Result, ok, err,
  failure, arith, if◌then◌else◌,
}
use nydus_snapshotter.Base.Dict.{insert}
use nydus_snapshotter.Label.{
  Labels, has, is_nydus_meta_layer, is_nydus_data_layer, target_snapshot_ref, cri_layer_digest,
  nydus_proxy_mode,
}
use nydus_snapshotter.Snapshot.{Snapshot, kind_active, is_proxy}
use nydus_snapshotter.Snapshot.Overlay.{Mount}
use nydus_snapshotter.Snapshot.Process.{
  Call, commit, create, prepare_stargz, prepare_tarfs, export_layer, Act, Backend, call, Handler,
  default_handler, skip_handler, proxy_handler, remote_handler, ◌>>=◌, ◌>>◌, pure, fail, attempt,
  succeeded, skip_stargz, try_stargz, export_block, skip_tarfs, try_tarfs, choose_layer, or_default,
  choose_processor, process, finish, commit_answer, create_snapshot, prepare, text_of,
}
use nydus_snapshotter.Snapshot.Process.Calls.{quiet, Gives, next-Gives, call-Gives}

-- The handlers that need no filesystem of nydus.
abbrev pub is_local : Handler → Bool
is_local default_handler = true
is_local skip_handler = true
is_local proxy_handler = false
is_local (remote_handler id labels) = false

abbrev local_option : Option Handler × Labels → Bool
local_option (h, labels) = is_local (or_default h)

abbrev local_choice : Handler × Labels → Bool
local_choice (h, labels) = is_local h

attempt-Gives :
    (r : List Call × Result (Unit {0})) → Gives (λ _. true) r → Gives (λ _. true) (succeeded r)
attempt-Gives (w, ok a) h = h
attempt-Gives (w, err e) h = (h.0, refl)

if-Gives :
    {A : Type 0} (f : A → Bool) (c : Bool) (x y : Act A) (w : List Call)
    → Gives f (x w)
    → Gives f (y w)
    → Gives f ((if c then x else y) w)
if-Gives f true x y w hx hy = hx
if-Gives f false x y w hx hy = hy

module _ (b : Backend) where
  skip_stargz-Gives :
      (id : String) (labels : Labels) (c : Bool) (w : List Call)
      → quiet w ≡ true
      → Gives local_option (skip_stargz b id labels c w)
  unfolding skip_stargz
  skip_stargz-Gives id labels true w q = (q, refl)
  skip_stargz-Gives id labels false w q = (q, refl)

  try_stargz-Gives :
      (id : String) (labels : Labels) (w : List Call)
      → quiet w ≡ true
      → Gives local_option (try_stargz b id labels w)
  unfolding try_stargz
  try_stargz-Gives id labels w q =
      if-Gives local_option (b.stargz_enabled && b.is_stargz_data_layer labels)
        (attempt (call b (prepare_stargz id)) >>= skip_stargz b id labels) (pure (none, labels)) w
        (next-Gives (λ _. true) local_option (skip_stargz b id labels)
          (attempt (call b (prepare_stargz id)) w)
          (attempt-Gives (call b (prepare_stargz id) w) (call-Gives b (prepare_stargz id) w refl q))
          (λ c w' _ q'. skip_stargz-Gives id labels c w' q'))
        (q, refl)

  export_block-Gives :
      (id : String) (labels : Labels) (w : List Call)
      → quiet w ≡ true
      → Gives local_option (export_block b id labels w)
  unfolding export_block
  export_block-Gives id labels w q =
      if-Gives local_option b.tarfs_export
        (call b (export_layer id) >> pure (some skip_handler, b.relabel (export_layer id) labels))
        (pure (some skip_handler, labels)) w
        (next-Gives (λ _. true) local_option
          (λ _. pure (some skip_handler, b.relabel (export_layer id) labels))
          (call b (export_layer id) w) (call-Gives b (export_layer id) w refl q)
          (λ _ w' _ q'. (q', refl)))
        (q, refl)

  skip_tarfs-Gives :
      (id : String) (labels : Labels) (c : Bool) (w : List Call)
      → quiet w ≡ true
      → Gives local_option (skip_tarfs b id labels c w)
  unfolding skip_tarfs
  skip_tarfs-Gives id labels false w q = (q, refl)
  skip_tarfs-Gives id labels true w q =
      export_block-Gives id (b.relabel (prepare_tarfs id) labels) w q

  try_tarfs-Gives :
      (id : String) (h : Option Handler) (labels : Labels) (w : List Call)
      → is_local (or_default h) ≡ true
      → quiet w ≡ true
      → Gives local_option (try_tarfs b id (h, labels) w)
  unfolding try_tarfs
  try_tarfs-Gives id (some h) labels w p q = (q, p)
  try_tarfs-Gives id none labels w p q =
      if-Gives local_option b.tarfs_enabled
        (attempt (call b (prepare_tarfs id)) >>= skip_tarfs b id labels) (pure (none, labels)) w
        (next-Gives (λ _. true) local_option (skip_tarfs b id labels)
          (attempt (call b (prepare_tarfs id)) w)
          (attempt-Gives (call b (prepare_tarfs id) w) (call-Gives b (prepare_tarfs id) w refl q))
          (λ c w' _ q'. skip_tarfs-Gives id labels c w' q'))
        (q, refl)

  choose_layer-Gives :
      (id : String) (labels : Labels) (w : List Call)
      → quiet w ≡ true
      → Gives local_option (choose_layer b id labels w)
  unfolding choose_layer
  choose_layer-Gives id labels w q =
      let convert =
        next-Gives local_option local_option (try_tarfs b id) (try_stargz b id labels w)
          (try_stargz-Gives id labels w q) (λ (h, l) w' p q'. try_tarfs-Gives id h l w' p q') in
      if-Gives local_option (is_proxy b.driver)
        (if text_of cri_layer_digest labels == ""
          then fail (failure 31)
          else pure (some skip_handler, insert nydus_proxy_mode "true" labels))
        _ w
        (if-Gives local_option (text_of cri_layer_digest labels == "") (fail (failure 31)) _ w
          (q, refl) (q, refl))
        (if-Gives local_option (is_nydus_meta_layer labels) _ _ w (q, refl)
          (if-Gives local_option (is_nydus_data_layer labels) _ _ w (q, refl)
            (if-Gives local_option (b.check_index labels) _ _ w (q, refl)
              (if-Gives local_option (b.check_referrer labels) _ _ w (q, refl) convert))))

  choose-Gives :
      (s : Snapshot) (key parent : String) (labels : Labels) (w : List Call)
      → has target_snapshot_ref labels ≡ true
      → quiet w ≡ true
      → Gives local_choice (choose_processor b s key parent labels w)
  unfolding choose_processor
  choose-Gives s key parent labels w t q =
      let chosen =
        next-Gives local_option local_choice (λ (h, l). pure (or_default h, l))
          (choose_layer b s.id labels w) (choose_layer-Gives s.id labels w q)
          (λ (h, l) w' p q'. (q', p)) in
      ground (arith, t, chosen)

  process-Gives :
      (h : Handler) (s : Snapshot) (key : String) (labels : Labels) (w : List Call)
      → is_local h ≡ true
      → quiet w ≡ true
      → Gives (λ _. true) (process b h s key labels w)
  unfolding process
  process-Gives default_handler s key labels w p q = (q, refl)
  process-Gives skip_handler s key labels w p q = (q, refl)
  process-Gives proxy_handler s key labels w p q = absurd (ground arith)
  process-Gives (remote_handler id l) s key labels w p q = absurd (ground arith)

  answer-Gives :
      (ms : List Mount) (r : List Call × Result (Unit {0}))
      → Gives (λ _. true) r
      → Gives (λ _. true) (commit_answer ms r)
  answer-Gives ms (w, ok a) h = h
  answer-Gives ms (w, err e) (q, p) = ground (arith, q)

  finish-Gives :
      (target key : String) (labels : Labels) (c : Bool) (ms : List Mount) (w : List Call)
      → quiet w ≡ true
      → Gives (λ _. true) (finish b target labels key (c, ms) w)
  unfolding finish
  finish-Gives target key labels false ms w q = (q, refl)
  finish-Gives target key labels true ms w q =
      answer-Gives ms (call b (commit target key labels) w)
        (call-Gives b (commit target key labels) w refl q)

  create-Gives :
      (key parent : String) (w : List Call)
      → quiet w ≡ true
      → Gives (λ _. true) (create_snapshot b kind_active key parent w)
  unfolding create_snapshot
  create-Gives key parent w q =
      next-Gives (λ _. true) (λ _. true) (λ _. pure (b.created w (create kind_active key parent)))
        (call b (create kind_active key parent) w)
        (call-Gives b (create kind_active key parent) w refl q) (λ _ w' _ q'. (q', refl))

  -- To prepare a snapshot that is to become a read-only layer, whatever the labels and the settings
  -- are and however the calls are answered, no filesystem is mounted and none is waited for.
  pub prepare_layer_lem :
      (key parent : String) (labels : Labels) (w : List Call)
      → has target_snapshot_ref labels ≡ true
      → quiet w ≡ true
      → quiet (prepare b key parent labels w).0 ≡ true
  unfolding prepare
  prepare_layer_lem key parent labels w t q =
      (next-Gives (λ _. true) (λ _. true)
        (λ s. choose_processor b s key parent labels >>= λ (h, commit_labels).
          process b h s key commit_labels
          >>= finish b (text_of target_snapshot_ref labels) commit_labels key)
        (create_snapshot b kind_active key parent w) (create-Gives key parent w q)
        (λ s w1 _ q1.
          next-Gives local_choice (λ _. true)
            (λ (h, commit_labels).
              process b h s key commit_labels
              >>= finish b (text_of target_snapshot_ref labels) commit_labels key)
            (choose_processor b s key parent labels w1) (choose-Gives s key parent labels w1 t q1)
            (λ (h, l) w2 p2 q2.
              next-Gives (λ _. true) (λ _. true)
                (finish b (text_of target_snapshot_ref labels) l key) (process b h s key l w2)
                (process-Gives h s key l w2 p2 q2)
                (λ (c, ms) w3 _ q3.
                  finish-Gives (text_of target_snapshot_ref labels) key l c ms w3 q3)))).0
