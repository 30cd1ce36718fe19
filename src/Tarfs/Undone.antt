-- ===== src/Tarfs/Undone.antt =====
-- Wait groups that no task will end: what each step does to the wait groups.
use nydus_snapshotter.Base.{
  ℕ, zero, suc, ◌≡◌, ◌<◌, ◌≤◌, ◌≢◌, refl, ap, ◌∙◌, String, Bool, true, false, Option, none, some,
  List, [], ◌∷◌, Result, ok, err, if◌then◌else◌, is_some, arith, ◌=ℕ=◌,
}
use nydus_snapshotter.Base.Dict.{lookup}
use nydus_snapshotter.Tarfs.{
  Layer, Task, State, Download, Conversion, Config, download, registered, begun, prepare_layer,
  finish, put_back, taken, finish_at, without_task, already_prepared, member,
}
use nydus_snapshotter.Tarfs.Devices.{
  Freeing, kept, detached, umount_found, detach_found, umount_tar_erofs, detach_layer, drop_mount,
  drop_all,
}
use nydus_snapshotter.Tarfs.Tasks.{Step, preparing, ending, umounting, detaching, step, run}

-- A task will end this wait group.
unfoldable pub awaits : ℕ → List Task → Bool
awaits g [] = false
awaits g (t ∷ ts) = if t.wait_group =ℕ= g then true else awaits g ts

-- The wait group is not done, and no task will end it.
abbrev pub IsUndone : ℕ → State → Type 0
IsUndone g s = (member g s.finished ≡ false) × (awaits g s.tasks ≡ false)

abbrev pub IsFresh : State → Type 0
IsFresh s = (g : ℕ) → s.fresh ≤ g → IsUndone g s

awaits-taken :
    (g : ℕ) (i : ℕ) (ts : List Task) (t : Task) (rest : List Task)
    → taken i ts ≡ some (t, rest)
    → awaits g ts ≡ (if t.wait_group =ℕ= g then true else awaits g rest)
unfolding taken awaits
awaits-taken g i [] t rest h = ground (arith, h)
awaits-taken g zero (u ∷ us) t rest h = ground (arith, h)
awaits-taken g (suc i) (u ∷ us) t rest h = by_rest (taken i us) refl h (awaits-taken g i us)
  where
    by_rest :
        (o : Option (Task × List Task))
        → taken i us ≡ o
        → put_back u o ≡ some (t, rest)
        → ((v : Task) (vs : List Task)
            → taken i us ≡ some (v, vs)
            → awaits g us ≡ (if v.wait_group =ℕ= g then true else awaits g vs))
        → awaits g (u ∷ us) ≡ (if t.wait_group =ℕ= g then true else awaits g rest)
    by_rest none e h below = ground (arith, h)
    by_rest (some (v, vs)) e h below = ground (arith, h, below v vs e)

-- What a step does to the wait groups: a task may be started with the fresh one, or a running one
-- may end; else nothing.
data Effect (s s' : State) : Type 0 where
  same : s'.finished ≡ s.finished → s'.tasks ≡ s.tasks → s.fresh ≤ s'.fresh → Effect s s'
  more :
      (t : Task)
      → t.wait_group ≡ s.fresh
      → s'.finished ≡ s.finished
      → s'.tasks ≡ t ∷ s.tasks
      → s'.fresh ≡ suc s.fresh
      → Effect s s'
  fewer :
      (t : Task) (i : ℕ)
      → taken i s.tasks ≡ some (t, s'.tasks)
      → s'.finished ≡ t.wait_group ∷ s.finished
      → s'.fresh ≡ s.fresh
      → Effect s s'

Effect-IsUndone :
    (s s' : State) (g : ℕ)
    → Effect s s'
    → (s.fresh ≡ g → s'.fresh ≢ suc g)
    → IsUndone g s
    → IsUndone g s'
unfolding awaits
Effect-IsUndone s s' g (same f t n) o (a, b) = (ap (member g) f ∙ a, ap (awaits g) t ∙ b)
Effect-IsUndone s s' g (more t new f e n) o (a, b) =
    (ap (member g) f ∙ a, ap (awaits g) e ∙ off (s.fresh =ℕ= g) refl)
  where
    off : (r : Bool) → (s.fresh =ℕ= g) ≡ r → awaits g (t ∷ s.tasks) ≡ false
    off true w = absurd (o (ground (arith, w)) (ground (arith, w, n)))
    off false w = ground (arith, w, new, b)
Effect-IsUndone s s' g (fewer t i e f n) o (a, b) = (
  ap (member g) f ∙ ground (arith, a, b, awaits-taken g i s.tasks t s'.tasks e),
  ground (arith, b, awaits-taken g i s.tasks t s'.tasks e),
)

Effect-fresh : (s s' : State) → Effect s s' → s.fresh ≤ s'.fresh
Effect-fresh s s' (same f t n) = n
Effect-fresh s s' (more t new f e n) = omega (arith, n)
Effect-fresh s s' (fewer t i e f n) = omega (arith, n)

begun-Effect :
    (c : Config) (r : Result (Unit {0})) (id blob : String) (s : State)
    → Effect s (begun c r id blob s.fresh (registered id s)).0
unfolding begun
begun-Effect c (ok u) id blob s =
    more (record { snapshot = id; blob = blob; wait_group = s.fresh }) refl refl refl refl
begun-Effect c (err e) id blob s = same refl refl (omega arith)

prepare-Effect :
    (c : Config) (d : Download) (id blob : String) (s : State)
    → Effect s (prepare_layer c d id blob s).0
unfolding prepare_layer
prepare-Effect c d id blob s = by_entry (is_some (lookup id s.layers))
  where
    by_entry :
        (b : Bool)
        → Effect s
            (if b
              then (s, err already_prepared)
              else begun c (download d) id blob s.fresh (registered id s)).0
    by_entry true = same refl refl (omega arith)
    by_entry false = begun-Effect c (download d) id blob s

finish-Effect : (c : Config) (v : Conversion) (i : ℕ) (s : State) → Effect s (finish_at c v i s)
unfolding finish_at finish
finish-Effect c v i s = by_task (taken i s.tasks) refl
  where
    by_task :
        (o : Option (Task × List Task))
        → taken i s.tasks ≡ o
        → Effect s (elim o [ none ↦ s | some (t, rest) ↦ finish c v t (without_task rest s) ])
    by_task none e = same refl refl (omega arith)
    by_task (some (t, rest)) e = fewer t i e refl refl

kept-Effect : (id : String) (s : State) (f : Freeing) → Effect s (kept id s f).0.1
kept-Effect id s ((w, l), r) = same refl refl (omega arith)

detached-Effect : (id : String) (s : State) (f : Freeing) → Effect s (detached id s f).0.1
detached-Effect id s ((w, l), ok u) = same refl refl (omega arith)
detached-Effect id s ((w, l), err e) = same refl refl (omega arith)

step-Effect : (c : Config) (x : Step) (s : State) → Effect s (step c x s)
unfolding step umount_tar_erofs detach_layer umount_found detach_found
step-Effect c (preparing d id blob) s = prepare-Effect c d id blob s
step-Effect c (ending v i) s = finish-Effect c v i s
step-Effect c (umounting a id) s = by_entry (lookup id s.layers)
  where
    by_entry : (o : Option Layer) → Effect s (umount_found a id s o).0.1
    by_entry none = same refl refl (omega arith)
    by_entry (some l) = kept-Effect id s (drop_mount a [] l)
step-Effect c (detaching a id) s = by_entry (lookup id s.layers)
  where
    by_entry : (o : Option Layer) → Effect s (detach_found a id s o).0.1
    by_entry none = same refl refl (omega arith)
    by_entry (some l) = detached-Effect id s (drop_all a [] l)

pub run-IsFresh : (c : Config) (xs : List Step) (s : State) → IsFresh s → IsFresh (run c xs s)
unfolding run
run-IsFresh c [] s h = h
run-IsFresh c (x ∷ xs) s h = run-IsFresh c xs (step c x s) (λ g le.
    Effect-IsUndone s (step c x s) g (step-Effect c x s) (λ e f. omega (arith, le, f))
      (h g (omega (arith, le, Effect-fresh s (step c x s) (step-Effect c x s)))))

pub run-IsUndone :
    (c : Config) (xs : List Step) (g : ℕ) (s : State)
    → g < s.fresh
    → IsUndone g s
    → IsUndone g (run c xs s)
unfolding run
run-IsUndone c [] g s lt h = h
run-IsUndone c (x ∷ xs) g s lt h =
    run-IsUndone c xs g (step c x s)
      (omega (arith, lt, Effect-fresh s (step c x s) (step-Effect c x s)))
      (Effect-IsUndone s (step c x s) g (step-Effect c x s) (λ e f. omega (arith, lt, e)) h)
