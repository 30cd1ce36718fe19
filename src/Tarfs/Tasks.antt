-- ===== src/Tarfs/Tasks.antt =====
-- The tasks of all layers, ended in any order between any other operations: a layer in status
-- Prepare has a running task.
use nydus_snapshotter.Base.{
  ℕ, zero, suc, ◌≡◌, refl, ap, ◌∙◌, ◌==◌, eq_iff, String, Bool, true, false, Option, none, some,
  List, [], ◌∷◌, ◌++◌, Error, Result, ok, err, if◌then◌else◌, is_some, arith,
}
use nydus_snapshotter.Base.Dict.{Dict, lookup, insert, remove, lookup-insert, lookup-remove}
use nydus_snapshotter.Tarfs.{
  prepare, Layer, Task, State, Download, Conversion, Config, download, conversion_error, closed,
  epilog, new_layer, registered, begun, prepare_layer, finish, put_back, taken, finish_at,
  without_task, already_prepared,
}
use nydus_snapshotter.Tarfs.Devices.{
  Call, unmount, detach_device, Answers, Freeing, then_free, settled, drop_one, drop_mount,
  drop_meta, drop_data, freed_all, after_meta, after_mount, drop_all, stored, kept, detached,
  umount_found, detach_found, umount_tar_erofs, detach_layer,
}

-- One operation, or the end of the task at an index.
pub data Step : Type 0 where
  preparing : Download → (id blob : String) → Step
  ending : Conversion → ℕ → Step
  umounting detaching : Answers → String → Step

unfoldable pub step : Config → Step → State → State
unfolding prepare_layer finish_at umount_tar_erofs detach_layer
step c (preparing d id blob) s = (prepare_layer c d id blob s).0
step c (ending v i) s = finish_at c v i s
step c (umounting a id) s = (umount_tar_erofs a id s).0.1
step c (detaching a id) s = (detach_layer a id s).0.1

unfoldable pub run : Config → List Step → State → State
unfolding step
run c [] s = s
run c (x ∷ xs) s = run c xs (step c x s)

abbrev pub no_layers : State
no_layers = record { layers = []; tasks = []; finished = []; fresh = 0 }

unfoldable pub running : String → List Task → Bool
running id [] = false
running id (t ∷ ts) = if t.snapshot == id then true else running id ts

abbrev pub is_preparing : Option Layer → Bool
is_preparing none = false
is_preparing (some l) = elim l.status [ prepare ↦ true | _ ↦ false ]

abbrev pub IsTracked : State → Type 0
IsTracked s = (id : String) → is_preparing (lookup id s.layers) ≡ true → running id s.tasks ≡ true

closed_lem :
    (c : Config) (e : Option Error) (blob : String) (l : Layer)
    → is_preparing (some (closed c e blob l)) ≡ false
closed_lem c none blob l = refl
closed_lem c (some x) blob l = refl

-- An epilog leaves its own layer out of status Prepare, and the others as they are.
pub epilog_lem :
    (c : Config) (e : Option Error) (id blob j : String) (m : Dict Layer)
    → is_preparing (lookup j (epilog c e id blob m))
      ≡ (if id == j then false else is_preparing (lookup j m))
unfolding epilog
epilog_lem c e id blob j m = by_entry (lookup id m) refl
  where
    by_entry :
        (o : Option Layer)
        → lookup id m ≡ o
        → is_preparing (lookup j (elim o [ none ↦ m | some l ↦ insert id (closed c e blob l) m ]))
          ≡ (if id == j then false else is_preparing (lookup j m))
    by_entry none h = ground (arith, eq_iff id j, h)
    by_entry (some l) h =
        ground (arith, lookup-insert id j (closed c e blob l) m, closed_lem c e blob l)

-- A task that ends keeps the others running.
running-taken :
    (id : String) (i : ℕ) (ts : List Task) (t : Task) (rest : List Task)
    → taken i ts ≡ some (t, rest)
    → running id ts ≡ (if t.snapshot == id then true else running id rest)
unfolding taken running
running-taken id i [] t rest h = ground (arith, h)
running-taken id zero (u ∷ us) t rest h = ground (arith, h)
running-taken id (suc i) (u ∷ us) t rest h = by_rest (taken i us) refl h (running-taken id i us)
  where
    by_rest :
        (o : Option (Task × List Task))
        → taken i us ≡ o
        → put_back u o ≡ some (t, rest)
        → ((v : Task) (vs : List Task)
            → taken i us ≡ some (v, vs)
            → running id us ≡ (if v.snapshot == id then true else running id vs))
        → running id (u ∷ us) ≡ (if t.snapshot == id then true else running id rest)
    by_rest none e h below = ground (arith, h)
    by_rest (some (v, vs)) e h below = ground (arith, h, below v vs e)

begun-IsTracked :
    (c : Config) (r : Result (Unit {0})) (id blob : String) (s : State)
    → IsTracked s
    → IsTracked (begun c r id blob s.fresh (registered id s)).0
unfolding running begun
begun-IsTracked c (ok u) id blob s h j = tracked
  where
    tracked :
        is_preparing (lookup j (insert id (new_layer s.fresh) s.layers)) ≡ true
        → (if id == j then true else running j s.tasks) ≡ true
    tracked p = ground (arith, p, lookup-insert id j (new_layer s.fresh) s.layers, h j)
begun-IsTracked c (err e) id blob s h j = tracked
  where
    tracked :
        is_preparing (lookup j (epilog c (some e) id blob (insert id (new_layer s.fresh) s.layers)))
          ≡ true
        → running j s.tasks ≡ true
    tracked p = ground (
      arith,
      p,
      epilog_lem c (some e) id blob j (insert id (new_layer s.fresh) s.layers),
      lookup-insert id j (new_layer s.fresh) s.layers,
      h j,
    )

prepare_layer-IsTracked :
    (c : Config) (d : Download) (id blob : String) (s : State)
    → IsTracked s
    → IsTracked (prepare_layer c d id blob s).0
unfolding prepare_layer
prepare_layer-IsTracked c d id blob s h = by_entry (is_some (lookup id s.layers))
  where
    by_entry :
        (b : Bool)
        → IsTracked
            (if b
              then (s, err already_prepared)
              else begun c (download d) id blob s.fresh (registered id s)).0
    by_entry true = h
    by_entry false = begun-IsTracked c (download d) id blob s h

pub finish_at-IsTracked :
    (c : Config) (v : Conversion) (i : ℕ) (s : State) → IsTracked s → IsTracked (finish_at c v i s)
unfolding finish_at finish
finish_at-IsTracked c v i s h = by_task (taken i s.tasks) refl
  where
    by_task :
        (o : Option (Task × List Task))
        → taken i s.tasks ≡ o
        → IsTracked (elim o [ none ↦ s | some (t, rest) ↦ finish c v t (without_task rest s) ])
    by_task none e j p = h j p
    by_task (some (t, rest)) e j p = ground (
      arith,
      p,
      epilog_lem c (conversion_error c.validate_diff_id v) t.snapshot t.blob j s.layers,
      running-taken j i s.tasks t rest e,
      h j,
    )

-- A layer with the same status in the place of one.
stored-IsTracked :
    (id : String) (l l' : Layer) (s : State)
    → lookup id s.layers ≡ some l
    → l'.status ≡ l.status
    → IsTracked s
    → IsTracked (stored id l' s)
stored-IsTracked id l l' s found e h j p =
    ground (arith, p, lookup-insert id j l' s.layers, eq_iff id j, same, found, h j)
  where
    same : is_preparing (some l') ≡ is_preparing (some l)
    same = ap (λ x. elim x [ prepare ↦ true | _ ↦ false ]) e

settled-status :
    (k : List Call → Layer → Freeing) (w : List Call) (freed l : Layer) (r : Result String)
    → freed.status ≡ l.status
    → ((k w freed).0.1.status ≡ freed.status)
    → (then_free k (settled w freed l r)).0.1.status ≡ l.status
settled-status k w freed l (ok s) e h = h ∙ e
settled-status k w freed l (err x) e h = refl

drop_one-status :
    (a : Answers) (k : List Call → Layer → Freeing) (q : String → Call) (f : Layer → Layer)
    (o : Option String) (w : List Call) (l : Layer)
    → (f l).status ≡ l.status
    → ((w : List Call) (l : Layer) → (k w l).0.1.status ≡ l.status)
    → (then_free k (drop_one a q f o w l)).0.1.status ≡ l.status
drop_one-status a k q f none w l e h = h w l
drop_one-status a k q f (some x) w l e h =
    settled-status k (w ++ q x ∷ []) (f l) l (a w (q x)) e (h (w ++ q x ∷ []) (f l))

-- The operations on mounts keep the status of their layer.
kept-IsTracked :
    (id : String) (l : Layer) (s : State) (f : Freeing)
    → lookup id s.layers ≡ some l
    → f.0.1.status ≡ l.status
    → IsTracked s
    → IsTracked (kept id s f).0.1
kept-IsTracked id l s ((w, l'), r) found e h = stored-IsTracked id l l' s found e h

detached-IsTracked :
    (id : String) (l : Layer) (s : State) (f : Freeing)
    → lookup id s.layers ≡ some l
    → f.0.1.status ≡ l.status
    → IsTracked s
    → IsTracked (detached id s f).0.1
detached-IsTracked id l s ((w, l'), ok u) found e h j = still
  where
    still : is_preparing (lookup j (remove id s.layers)) ≡ true → running j s.tasks ≡ true
    still p = ground (arith, p, lookup-remove id j s.layers, h j)
detached-IsTracked id l s ((w, l'), err x) found e h j = stored-IsTracked id l l' s found e h j

after_mount-status :
    (a : Answers) (w : List Call) (l : Layer) → (after_mount a w l).0.1.status ≡ l.status
unfolding after_mount after_meta drop_meta drop_data
after_mount-status a w l =
    drop_one-status a (after_meta a) detach_device (λ l. record l { meta_device = none })
      l.meta_device w l refl
      (λ w l.
        drop_one-status a (freed_all a) detach_device (λ l. record l { data_device = none })
          l.data_device w l refl (λ w l. refl))

drop_mount-status :
    (a : Answers) (w : List Call) (l : Layer) → (drop_mount a w l).0.1.status ≡ l.status
unfolding drop_mount
drop_mount-status a w l = by_mount l.mount_point
  where
    by_answer :
        (r : Result String) (w : List Call)
        → (settled w (record l { mount_point = none }) l r).0.1.status ≡ l.status
    by_answer (ok x) w = refl
    by_answer (err x) w = refl

    by_mount :
        (o : Option String)
        → (drop_one a unmount (λ l. record l { mount_point = none }) o w l).0.1.status ≡ l.status
    by_mount none = refl
    by_mount (some x) = by_answer (a w (unmount x)) (w ++ unmount x ∷ [])

step-IsTracked : (c : Config) (x : Step) (s : State) → IsTracked s → IsTracked (step c x s)
unfolding step umount_tar_erofs detach_layer umount_found detach_found drop_all drop_mount
step-IsTracked c (preparing d id blob) s h = prepare_layer-IsTracked c d id blob s h
step-IsTracked c (ending v i) s h = finish_at-IsTracked c v i s h
step-IsTracked c (umounting a id) s h = by_entry (lookup id s.layers) refl
  where
    by_entry : (o : Option Layer) → lookup id s.layers ≡ o → IsTracked (umount_found a id s o).0.1
    by_entry none e = h
    by_entry (some l) e = kept-IsTracked id l s (drop_mount a [] l) e (drop_mount-status a [] l) h
step-IsTracked c (detaching a id) s h = by_entry (lookup id s.layers) refl
  where
    by_entry : (o : Option Layer) → lookup id s.layers ≡ o → IsTracked (detach_found a id s o).0.1
    by_entry none e = h
    by_entry (some l) e =
        detached-IsTracked id l s (drop_all a [] l) e
          (drop_one-status a (after_mount a) unmount (λ l. record l { mount_point = none })
            l.mount_point [] l refl (after_mount-status a))
          h

-- After any operations and ends of tasks, in any order and with any outcomes, a layer in status
-- Prepare has a running task.
pub run-IsTracked : (c : Config) (xs : List Step) (s : State) → IsTracked s → IsTracked (run c xs s)
unfolding run
run-IsTracked c [] s h = h
run-IsTracked c (x ∷ xs) s h = run-IsTracked c xs (step c x s) (step-IsTracked c x s h)

-- The running tasks end one after another.
unfoldable pub finish_all : Config → (ℕ → Conversion) → ℕ → State → State
unfolding finish_at
finish_all c v zero s = s
finish_all c v (suc n) s = finish_all c v n (finish_at c (v n) 0 s)
