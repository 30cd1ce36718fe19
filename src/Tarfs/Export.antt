-- ===== src/Tarfs/Export.antt =====
-- pkg/tarfs/tarfs.go: `ExportBlockData`. Reading the dm-verity options from the builder's output is a
-- parameter.
use nydus_snapshotter.Base.{
  ◌&&◌, not, String, ◌<>◌, Bool, true, false, Option, none, some, List, [], ◌∷◌, ◌++◌, Error,
  failure, Result, ok, err, if◌then◌else◌,
}
use nydus_snapshotter.Base.Dict.{lookup, insert}
use nydus_snapshotter.Label.{Labels, nydus_tarfs_layer}
use nydus_snapshotter.Tarfs.{State, Wait, sleeping, woken}
use nydus_snapshotter.Tarfs.Merge.{
  Command, exists, rename, export, Replies, Paths, Gathered, stalled, refused, gathered, gather,
}

abbrev pub nydus_image_block_info : String
nydus_image_block_info = "containerd.io/snapshot/nydus-image-block"

abbrev pub nydus_layer_block_info : String
nydus_layer_block_info = "containerd.io/snapshot/nydus-layer-block"

-- `GetTarfsExportFlags`.
pub record Flags : Type 0 where
  pub whole_image : Bool
  pub export_disk : Bool
  pub with_verity : Bool

pub data Mode : Type 0 where
  nothing mark exporting : Mode

abbrev differ : Bool → Bool → Bool
differ true b = not b
differ false b = b

unfoldable pub mode_of : Flags → (per_layer : Bool) → Mode
mode_of f per_layer =
    if not f.export_disk && not f.with_verity
    then nothing
    else if differ (not f.whole_image) per_layer
    then (if f.export_disk && not f.with_verity && not per_layer then mark else nothing)
    else exporting

-- The commands run, the labels, the fields to update and the error.
pub record Export : Type 0 where
  pub commands : List Command
  pub labels : Labels
  pub fields : List String
  pub result : Wait

abbrev pub no_parent : Error
no_parent = failure 63

abbrev pub no_annotation : Error
no_annotation = failure 64

abbrev pub bad_verity : Error
bad_verity = failure 65

abbrev pub unchanged : List Command → Labels → Wait → Export
unchanged w labels r = record { commands = w; labels = labels; fields = []; result = r }

-- The field of the snapshot's record that has the label.
abbrev pub field_of : String → String
field_of key = "labels." <> key

-- The label is written before the disk gets its name, and stays if that fails.
abbrev pub labelled : List Command → Labels → (key info : String) → Wait → Export
labelled w labels key info r = record {
  commands = w;
  labels = insert key info labels;
  fields = field_of key ∷ [];
  result = r;
}

abbrev pub outcome : Result String → Wait
outcome (ok x) = woken (ok tt)
outcome (err e) = woken (err e)

abbrev pub key_of : Flags → String
key_of f = if f.whole_image then nydus_image_block_info else nydus_layer_block_info

abbrev pub first : List String → Option String
first [] = none
first (x ∷ xs) = some x

module _ (p : Paths) (a : Replies) (verity_options : String → Option String) (f : Flags) where
  -- The block info, read from the builder's output.
  abbrev pub info_of : String → Option String
  info_of output = if f.with_verity then verity_options output else some ""

  abbrev pub written : (disk : String) → List Command → Labels → Option String → Export
  written disk w labels none = unchanged w labels (woken (err bad_verity))
  written disk w labels (some info) =
      labelled (w ++ rename (p.temporary disk) disk ∷ []) labels (key_of f) info
        (outcome (a w (rename (p.temporary disk) disk)))

  abbrev pub exported : (disk : String) → List Command → Labels → Result String → Export
  exported disk w labels (err e) = unchanged w labels (woken (err e))
  exported disk w labels (ok output) = written disk w labels (info_of output)

  -- A disk that exists is not made again.
  abbrev pub disk_stated : (meta disk : String) → Labels → Result String → Export
  disk_stated meta disk labels (ok x) = unchanged (exists disk ∷ []) labels (woken (ok tt))
  disk_stated meta disk labels (err e) =
      exported disk (exists disk ∷ export meta (p.temporary disk) f.with_verity ∷ []) labels
        (a (exists disk ∷ []) (export meta (p.temporary disk) f.with_verity))

  abbrev pub meta_file : String → String
  meta_file dir = if f.whole_image then p.image_meta dir else p.layer_meta dir

  abbrev pub disk_file : String → String
  disk_file blob = if f.whole_image then p.image_disk blob else p.layer_disk blob

  abbrev pub for_blob : (meta : String) → Labels → Option String → Export
  for_blob meta labels none = unchanged [] labels (woken (err no_annotation))
  for_blob meta labels (some blob) =
      disk_stated meta (disk_file blob) labels (a [] (exists (disk_file blob)))

  abbrev pub when_ready : (meta : String) → Labels → Gathered → Export
  when_ready meta labels stalled = unchanged [] labels sleeping
  when_ready meta labels (refused e) = unchanged [] labels (woken (err e))
  when_ready meta labels (gathered paths) = for_blob meta labels (lookup nydus_tarfs_layer labels)

  unfoldable pub of_snapshot : (locate : String → String) → State → Labels → Option String → Export
  unfolding gather
  of_snapshot locate s labels none = unchanged [] labels (woken (err no_parent))
  of_snapshot locate s labels (some id) =
      when_ready (meta_file (locate id)) labels (gather (λ i. i) s (id ∷ []))

  unfoldable pub in_mode :
      (locate : String → String) → State → Labels → Option String → Mode → Export
  unfolding of_snapshot
  in_mode locate s labels target nothing = unchanged [] labels (woken (ok tt))
  in_mode locate s labels target mark = labelled [] labels nydus_layer_block_info "" (woken (ok tt))
  in_mode locate s labels target exporting = of_snapshot locate s labels target

  unfoldable pub export_block_data :
      (per_layer : Bool)
      → (locate : String → String) → State
      → Labels
      → (id : String) → (parents : List String) → Export
  unfolding in_mode mode_of
  export_block_data per_layer locate s labels id parents =
      in_mode locate s labels (if per_layer then some id else first parents) (mode_of f per_layer)
