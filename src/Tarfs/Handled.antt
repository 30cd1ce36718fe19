-- ===== src/Tarfs/Handled.antt =====
-- The ways in which `ExportBlockData` of pkg/tarfs/tarfs.go may end, for each setting of the flags.
use nydus_snapshotter.Base.{
  ◌≡◌, ◌⊎◌, String, ◌<>◌, Bool, true, false, Option, some, List, [], ◌∷◌, Error, ok, err,
  if◌then◌else◌,
}
use nydus_snapshotter.Base.Dict.{lookup, insert}
use nydus_snapshotter.Label.{Labels, nydus_tarfs_layer}
use nydus_snapshotter.Tarfs.{State, sleeping, woken}
use nydus_snapshotter.Tarfs.Merge.{exists, rename, export, Replies, Paths, gathered, gather}
use nydus_snapshotter.Tarfs.Export.{Flags, Export, outcome}

abbrev pub flags : Bool → Bool → Bool → Flags
flags w d v = record { whole_image = w; export_disk = d; with_verity = v }

-- A label with a block info is written and reported.
abbrev pub Labelled : Labels → (key info : String) → Export → Type 0
Labelled labels key info e =
    (e.labels ≡ insert key info labels) × (e.fields ≡ ("labels." <> key) ∷ [])

-- Nothing is written and nothing reported.
abbrev pub Silent : Labels → Export → Type 0
Silent labels e = (e.labels ≡ labels) × (e.fields ≡ [])

abbrev pub Fails : Export → Type 0
Fails e = (x : Error) × (e.result ≡ woken (err x))

module _ (p : Paths) (a : Replies) (v : String → Option String) where
  -- The disk is exported from the bootstrap `meta` and its block info stands under the key.
  abbrev pub Exports : (verity : Bool) → (key meta disk : String) → Labels → Export → Type 0
  Exports verity key meta disk labels e =
      (output : String) × (info : String) × (a (exists disk ∷ [])
          (export meta (p.temporary disk) verity)
        ≡ ok output)
      × ((if verity then v output else some "") ≡ some info)
      × (e.commands
          ≡ exists disk
            ∷ export meta (p.temporary disk) verity
            ∷ rename (p.temporary disk) disk
            ∷ [])
      × (e.result
          ≡ outcome (
              a (exists disk ∷ export meta (p.temporary disk) verity ∷ [])
                (rename (p.temporary disk) disk)))
      × Labelled labels key info e

  -- The disk is there, or is exported, or its export fails and leaves the labels.
  pub data Handles (verity : Bool) (key meta disk : String) (labels : Labels) (e : Export)
      : Type 0 where
    there :
        (x : String)
        → a [] (exists disk) ≡ ok x
        → e.commands ≡ exists disk ∷ []
        → e.result ≡ woken (ok tt)
        → Silent labels e
        → Handles verity key meta disk labels e
    made : Exports verity key meta disk labels e → Handles verity key meta disk labels e
    broken :
        e.commands ≡ exists disk ∷ export meta (p.temporary disk) verity ∷ []
        → Fails e
        → Silent labels e
        → Handles verity key meta disk labels e

  -- A wait that sleeps, or an error before any command.
  abbrev pub Stops : Labels → Export → Type 0
  Stops labels e = (e.commands ≡ []) × Silent labels e × ((e.result ≡ sleeping) ⊎ Fails e)

  -- The layer `target` is ready, and the labels name the blob.
  abbrev pub Ready : State → Labels → (target blob : String) → Type 0
  Ready s labels target blob =
      (paths : List String) × (gather (λ i. i) s (target ∷ []) ≡ gathered paths)
      × (lookup nydus_tarfs_layer labels ≡ some blob)

  pub data Outcome (f : Flags) (per_layer : Bool) (locate : String → String) (s : State)
      (labels : Labels) (id : String) (parents : List String) (e : Export) : Type 0 where
    idle :
        ((f.export_disk ≡ false) × (f.with_verity ≡ false))
          ⊎ ((f.whole_image ≡ true) × (per_layer ≡ true))
          ⊎ ((f.whole_image ≡ false) × (per_layer ≡ false) × (f.with_verity ≡ true))
        → e.commands ≡ []
        → e.result ≡ woken (ok tt)
        → Silent labels e
        → Outcome f per_layer locate s labels id parents e
    marks :
        f.whole_image ≡ false
        → per_layer ≡ false
        → f.export_disk ≡ true
        → f.with_verity ≡ false
        → e.commands ≡ []
        → e.result ≡ woken (ok tt)
        → Labelled labels "containerd.io/snapshot/nydus-layer-block" "" e
        → Outcome f per_layer locate s labels id parents e
    whole :
        (target blob : String) (rest : List String)
        → f.whole_image ≡ true
        → per_layer ≡ false
        → parents ≡ target ∷ rest
        → Ready s labels target blob
        → Handles f.with_verity "containerd.io/snapshot/nydus-image-block"
            (p.image_meta (locate target))
            (p.image_disk blob)
            labels
            e
        → Outcome f per_layer locate s labels id parents e
    layer :
        (blob : String)
        → f.whole_image ≡ false
        → per_layer ≡ true
        → Ready s labels id blob
        → Handles f.with_verity "containerd.io/snapshot/nydus-layer-block"
            (p.layer_meta (locate id))
            (p.layer_disk blob)
            labels
            e
        → Outcome f per_layer locate s labels id parents e
    stops : Stops labels e → Outcome f per_layer locate s labels id parents e
