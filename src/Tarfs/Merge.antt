-- ===== src/Tarfs/Merge.antt =====
-- pkg/tarfs/tarfs.go: `MergeLayers`. The commands of the builder and the file system are recorded and
-- answered; nothing else happens to the layers while it runs.
use nydus_snapshotter.Base.{
  ◌≡◌, refl, sym, ap, ◌∙◌, ◌⊎◌, inl, inr, String, Bool, Option, none, some, List, [], ◌∷◌, ◌++◌,
  map, Error, Result, ok, err, if◌then◌else◌,
}
use nydus_snapshotter.Base.Dict.{lookup}
use nydus_snapshotter.Tarfs.{
  Layer, State, is_ready, no_snapshot, not_ready, Wait, sleeping, woken, wait_layer_ready,
}

pub data Command : Type 0 where
  exists : String → Command
  merge : (output : String) → (bootstraps : List String) → Command
  rename : (old new : String) → Command
  export : (bootstrap output : String) → (verity : Bool) → Command

abbrev pub Replies : Type 0
Replies = List Command → Command → Result String

-- The paths of `layerMetaFilePath`, `imageMetaFilePath` (of the directory of a snapshot), of the
-- disks of a blob, and a path with ".tarfs.tmp" at its end.
pub record Paths : Type 0 where
  pub layer_meta : String → String
  pub image_meta : String → String
  pub layer_disk : String → String
  pub image_disk : String → String
  pub temporary : String → String

-- The layers that are waited for: asleep at one, refused at one, or all ready.
pub data Gathered : Type 0 where
  stalled : Gathered
  refused : Error → Gathered
  gathered : List String → Gathered

abbrev pub added : String → Gathered → Gathered
added path stalled = stalled
added path (refused e) = refused e
added path (gathered paths) = gathered (path ∷ paths)

-- The status is looked at again after the wait.
abbrev pub status_check : Option Layer → Result (Unit {0})
status_check none = err no_snapshot
status_check (some l) = if is_ready l.status then ok tt else err not_ready

abbrev pub checked : Gathered → Result (Unit {0}) → Gathered
checked rest (ok u) = rest
checked rest (err e) = refused e

abbrev pub after_wait : Gathered → Result (Unit {0}) → Wait → Gathered
after_wait rest status sleeping = stalled
after_wait rest status (woken (err e)) = refused e
after_wait rest status (woken (ok u)) = checked rest status

unfoldable pub gather : (String → String) → State → List String → Gathered
gather meta s [] = gathered []
gather meta s (id ∷ ids) =
    after_wait (added (meta id) (gather meta s ids)) (status_check (lookup id s.layers))
      (wait_layer_ready id s)

-- From the last to the first.
abbrev pub backwards_onto : List String → List String → List String
backwards_onto tail [] = tail
backwards_onto tail (x ∷ xs) = backwards_onto (x ∷ tail) xs

abbrev pub backwards : List String → List String
backwards ids = backwards_onto [] ids

abbrev pub renamed : List Command → Result String → List Command × Wait
renamed w (ok x) = (w, woken (ok tt))
renamed w (err e) = (w, woken (err e))

module _ (a : Replies) (tmp image : String) where
  abbrev pub built : List Command → Result String → List Command × Wait
  built w (err e) = (w, woken (err e))
  built w (ok x) = renamed (w ++ rename tmp image ∷ []) (a w (rename tmp image))

  abbrev pub merged : List Command → Gathered → List Command × Wait
  merged w stalled = (w, sleeping)
  merged w (refused e) = (w, woken (err e))
  merged w (gathered paths) = built (w ++ merge tmp paths ∷ []) (a w (merge tmp paths))

  abbrev pub stated : Gathered → Result String → List Command × Wait
  stated g (ok x) = (exists image ∷ [], woken (ok tt))
  stated g (err e) = merged (exists image ∷ []) g

-- The snapshot has the parents `top ∷ others`; without parents Go panics.
unfoldable pub merge_layers :
    Paths
    → Replies
    → (locate : String → String) → State
    → (top : String) → (others : List String) → List Command × Wait
unfolding gather
merge_layers p a locate s top others =
    stated a (p.temporary (p.image_meta (locate top))) (p.image_meta (locate top))
      (gather (λ id. p.layer_meta (locate id)) s (backwards (top ∷ others)))
      (a [] (exists (p.image_meta (locate top))))

-- Every one of these layers is there and ready, and its task has ended.
pub AllReady : State → List String → Type 0
AllReady s [] = Unit
AllReady s (id ∷ ids) = (wait_layer_ready id s ≡ woken (ok tt)) × AllReady s ids

-- One of them sleeps.
pub data Sleeps (s : State) : List String → Type 0 where
  here : {id : String} {ids : List String} → wait_layer_ready id s ≡ sleeping → Sleeps s (id ∷ ids)
  there : {id : String} {ids : List String} → Sleeps s ids → Sleeps s (id ∷ ids)

abbrev pub GatherFits : (String → String) → State → List String → Gathered → Type 0
GatherFits meta s ids stalled = Sleeps s ids
GatherFits meta s ids (refused e) = Unit
GatherFits meta s ids (gathered paths) = (paths ≡ map meta ids) × AllReady s ids

gather-GatherFits :
    (meta : String → String) (s : State) (ids : List String)
    → GatherFits meta s ids (gather meta s ids)
unfolding gather AllReady
gather-GatherFits meta s [] = (refl, tt)
gather-GatherFits meta s (id ∷ ids) =
    by_wait (wait_layer_ready id s) (status_check (lookup id s.layers)) (gather meta s ids) refl
      (gather-GatherFits meta s ids)
  where
    by_wait :
        (w : Wait) (r : Result (Unit {0})) (g : Gathered)
        → wait_layer_ready id s ≡ w
        → GatherFits meta s ids g
        → GatherFits meta s (id ∷ ids) (after_wait (added (meta id) g) r w)
    by_wait sleeping r g e h = here e
    by_wait (woken (err x)) r g e h = tt
    by_wait (woken (ok u)) (err x) g e h = tt
    by_wait (woken (ok u)) (ok v) stalled e h = there h
    by_wait (woken (ok u)) (ok v) (refused x) e h = tt
    by_wait (woken (ok u)) (ok v) (gathered paths) e h = (ap (◌∷◌ (meta id)) h.0, (e, h.1))

-- What a merge of the layers `ids`, lowest first, may do.
abbrev pub Merges :
    Replies
    → (meta : String → String) → (tmp image : String) → State
    → List String
    → List Command × Wait
    → Type 0
Merges a meta tmp image s ids (w, sleeping) = (w ≡ exists image ∷ []) × Sleeps s ids
Merges a meta tmp image s ids (w, woken (err e)) =
    (w ≡ exists image ∷ [])
    ⊎ ((w ≡ exists image ∷ merge tmp (map meta ids) ∷ []) × AllReady s ids)
    ⊎ ((w ≡ exists image ∷ merge tmp (map meta ids) ∷ rename tmp image ∷ [])
        × AllReady s ids
        × (a (exists image ∷ merge tmp (map meta ids) ∷ []) (rename tmp image) ≡ err e))
Merges a meta tmp image s ids (w, woken (ok u)) =
    ((w ≡ exists image ∷ []) × ((x : String) × (a [] (exists image) ≡ ok x)))
    ⊎ ((w ≡ exists image ∷ merge tmp (map meta ids) ∷ rename tmp image ∷ []) × AllReady s ids)

module _ (a : Replies) (meta : String → String) (tmp image : String) (s : State)
    (ids : List String) where
  renamed-Merges :
      (paths : List String) (r : Result String)
      → a (exists image ∷ merge tmp paths ∷ []) (rename tmp image) ≡ r
      → (paths ≡ map meta ids) × AllReady s ids
      → Merges a meta tmp image s ids
          (renamed (exists image ∷ merge tmp paths ∷ rename tmp image ∷ []) r)
  renamed-Merges paths (ok x) h (e, rdy) =
      inr (ap (λ v. exists image ∷ merge tmp v ∷ rename tmp image ∷ []) e, rdy)
  renamed-Merges paths (err x) h (e, rdy) = inr (
      inr (
        ap (λ v. exists image ∷ merge tmp v ∷ rename tmp image ∷ []) e,
        rdy,
        ap (λ v. a (exists image ∷ merge tmp v ∷ []) (rename tmp image)) (sym e) ∙ h,
      ))

  built-Merges :
      (paths : List String) (r : Result String)
      → (paths ≡ map meta ids) × AllReady s ids
      → Merges a meta tmp image s ids (built a tmp image (exists image ∷ merge tmp paths ∷ []) r)
  built-Merges paths (err x) (e, rdy) = inr (inl (ap (λ v. exists image ∷ merge tmp v ∷ []) e, rdy))
  built-Merges paths (ok x) h =
      renamed-Merges paths (a (exists image ∷ merge tmp paths ∷ []) (rename tmp image)) refl h

  stated-Merges :
      (g : Gathered) (r : Result String)
      → a [] (exists image) ≡ r
      → GatherFits meta s ids g
      → Merges a meta tmp image s ids (stated a tmp image g r)
  stated-Merges g (ok x) h fits = inl (refl, (x, h))
  stated-Merges stalled (err x) h fits = (refl, fits)
  stated-Merges (refused e) (err x) h fits = inl refl
  stated-Merges (gathered paths) (err x) h fits =
      built-Merges paths (a (exists image ∷ []) (merge tmp paths)) fits

-- MergeLayers succeeds only where the merged bootstrap exists already and nothing is run, or where
-- every parent is ready and the bootstraps are merged from the lowest parent to the top one into a
-- temporary file, which then gets its name. It waits only where a parent sleeps, having run
-- nothing; with an error no other file has been given that name.
pub merge_layers_lem :
    (p : Paths) (a : Replies) (locate : String → String) (s : State) (top : String)
    (others : List String)
    → Merges a
        (λ id. p.layer_meta (locate id))
        (p.temporary (p.image_meta (locate top)))
        (p.image_meta (locate top))
        s
        (backwards (top ∷ others))
        (merge_layers p a locate s top others)
unfolding merge_layers
merge_layers_lem p a locate s top others =
    stated-Merges a (λ id. p.layer_meta (locate id)) (p.temporary (p.image_meta (locate top)))
      (p.image_meta (locate top)) s (backwards (top ∷ others))
      (gather (λ id. p.layer_meta (locate id)) s (backwards (top ∷ others)))
      (a [] (exists (p.image_meta (locate top)))) refl
      (gather-GatherFits (λ id. p.layer_meta (locate id)) s (backwards (top ∷ others)))
