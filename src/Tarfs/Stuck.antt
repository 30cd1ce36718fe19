-- ===== src/Tarfs/Stuck.antt =====
-- Who waits for a layer: once all tasks have ended no layer is in status Prepare; but a layer whose
-- download could not be begun never has its wait group done.
use nydus_snapshotter.Base.{
  ℕ, ◌≡◌, ◌<◌, refl, ap, ◌∙◌, String, true, false, Option, none, some, List, [], ◌∷◌, Error, Result,
  ok, err, if◌then◌else◌, is_some, length, arith,
}
use nydus_snapshotter.Base.Dict.{lookup}
use nydus_snapshotter.Tarfs.{
  Layer, Task, State, Download, Conversion, Config, download, registered, begun, prepare_layer,
  finish, taken, finish_at, without_task, already_prepared, member, sleeping, waited,
  wait_layer_ready,
}
use nydus_snapshotter.Tarfs.Tasks.{
  Step, run, no_layers, running, is_preparing, IsTracked, run-IsTracked, finish_at-IsTracked,
}
use nydus_snapshotter.Tarfs.Undone.{awaits, IsUndone, run-IsFresh, run-IsUndone}

-- The tasks end one after another.
unfoldable pub finish_all : Config → (ℕ → Conversion) → List Task → State → State
unfolding finish_at
finish_all c v [] s = s
finish_all c v (t ∷ ts) s = finish_all c v ts (finish_at c (v (length ts)) 0 s)

finish_first :
    (c : Config) (v : Conversion) (t : Task) (ts : List Task) (s : State)
    → s.tasks ≡ t ∷ ts
    → (finish_at c v 0 s).tasks ≡ ts
unfolding finish_at finish taken
finish_first c v t ts s h = by_tasks s.tasks h
  where
    by_tasks :
        (us : List Task)
        → us ≡ t ∷ ts
        → (elim (taken 0 us) as (λ _. State) [
          | none ↦ s
          | some (u, rest) ↦ finish c v u (without_task rest s)
        ]).tasks
          ≡ ts
    by_tasks [] h = ground (arith, h)
    by_tasks (u ∷ us) h = ground (arith, h)

all_ended :
    (c : Config) (v : ℕ → Conversion) (ts : List Task) (s : State)
    → s.tasks ≡ ts
    → IsTracked s
    → (id : String) → is_preparing (lookup id (finish_all c v ts s).layers) ≡ false
unfolding finish_all running
all_ended c v [] s none_left h id = ground (arith, h id, ap (running id) none_left)
all_ended c v (t ∷ ts) s e h id =
    all_ended c v ts (finish_at c (v (length ts)) 0 s) (finish_first c (v (length ts)) t ts s e)
      (finish_at-IsTracked c (v (length ts)) 0 s h) id

nothing_prepared : (j : String) → is_preparing (lookup j []) ≡ true → running j [] ≡ true
unfolding lookup
nothing_prepared j p = ground (arith, p)

-- From every state that operations reach, when the running tasks have ended, whatever they meet, no
-- layer is in status Prepare any more.
pub finish_all_lem :
    (c : Config) (xs : List Step) (v : ℕ → Conversion) (id : String)
    → is_preparing
        (lookup id (finish_all c v (run c xs no_layers).tasks (run c xs no_layers)).layers)
      ≡ false
finish_all_lem c xs v id =
    all_ended c v (run c xs no_layers).tasks (run c xs no_layers) refl
      (run-IsTracked c xs no_layers nothing_prepared) id

-- A layer of a group that is not done keeps its waiter asleep.
waited_undone :
    (finished : List ℕ) (l : Layer)
    → member l.group finished ≡ false
    → waited finished (some l) ≡ sleeping
waited_undone finished l h = ground (arith, h)

begun-IsUndone :
    (c : Config) (r : Result (Unit {0})) (e : Error) (id blob : String) (s : State)
    → r ≡ err e
    → IsUndone s.fresh s
    → IsUndone s.fresh (begun c r id blob s.fresh (registered id s)).0
      × (s.fresh < (begun c r id blob s.fresh (registered id s)).0.fresh)
unfolding begun
begun-IsUndone c (ok u) e id blob s h f = ground (arith, h)
begun-IsUndone c (err x) e id blob s h f = (f, omega arith)

prepare-IsUndone :
    (c : Config) (d : Download) (e : Error) (id blob : String) (s : State)
    → lookup id s.layers ≡ none
    → download d ≡ err e
    → IsUndone s.fresh s
    → IsUndone s.fresh (prepare_layer c d id blob s).0
      × (s.fresh < (prepare_layer c d id blob s).0.fresh)
unfolding prepare_layer
prepare-IsUndone c d e id blob s absent fails f = by_entry (lookup id s.layers) absent
  where
    by_entry :
        (o : Option Layer)
        → o ≡ none
        → let p =
            if is_some o
            then (s, err already_prepared)
            else begun c (download d) id blob s.fresh (registered id s) in
          IsUndone s.fresh p.0 × (s.fresh < p.0.fresh)
    by_entry none h = begun-IsUndone c (download d) e id blob s fails f
    by_entry (some l) h = ground (arith, h)

stays-IsUndone :
    (c : Config) (d : Download) (e : Error) (id blob : String) (s : State) (ys : List Step)
    → lookup id s.layers ≡ none
    → download d ≡ err e
    → IsUndone s.fresh s
    → IsUndone s.fresh (run c ys (prepare_layer c d id blob s).0)
stays-IsUndone c d e id blob s ys absent fails f =
    let p = prepare-IsUndone c d e id blob s absent fails f in
    run-IsUndone c ys s.fresh (prepare_layer c d id blob s).0 p.1 p.0

-- Where PrepareLayer fails for a layer that is not known, since the key chain or the stream of the
-- blob cannot be had, the layer's wait group is never done: after any further operations and ends
-- of tasks a waiter for a layer of that group sleeps.
pub prepare_layer_stuck :
    (c : Config) (xs : List Step) (d : Download) (e : Error) (id blob : String) (ys : List Step)
    → lookup id (run c xs no_layers).layers ≡ none
    → download d ≡ err e
    → (j : String) (l : Layer)
    → lookup j (run c ys (prepare_layer c d id blob (run c xs no_layers)).0).layers ≡ some l
    → l.group ≡ (run c xs no_layers).fresh
    → wait_layer_ready j (run c ys (prepare_layer c d id blob (run c xs no_layers)).0) ≡ sleeping
unfolding wait_layer_ready awaits
prepare_layer_stuck c xs d e id blob ys absent fails j l held group =
    ap (waited (run c ys (prepare_layer c d id blob (run c xs no_layers)).0).finished) held
    ∙ waited_undone (run c ys (prepare_layer c d id blob (run c xs no_layers)).0).finished l (
        ap (λ g. member g (run c ys (prepare_layer c d id blob (run c xs no_layers)).0).finished)
          group
        ∙ (stays-IsUndone c d e id blob (run c xs no_layers) ys absent fails (
            run-IsFresh c xs no_layers (λ g le. (refl, refl)) (run c xs no_layers).fresh
              (omega arith))).0)
