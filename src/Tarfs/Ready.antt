-- ===== src/Tarfs/Ready.antt =====
-- When the task of a layer leaves it ready.
use nydus_snapshotter.Base.{
  ◌≡◌, refl, ap, ◌∙◌, ◌&&◌, ◌||◌, not, String, Bool, true, false, Option, none, some, ◌∷◌, Error,
  Result, ok, err, if◌then◌else◌, arith,
}
use nydus_snapshotter.Base.Dict.{Dict, lookup, insert, lookup-insert_self}
use nydus_snapshotter.Tarfs.{
  ready, failed, Layer, Task, State, Conversion, Config, is_serious, conversion_error, ended,
  closed, epilog, finish,
}

abbrev pub is_ok {ℓ} : {A : Type ℓ} → Result A → Bool
is_ok (ok a) = true
is_ok (err e) = false

-- The stream is unpacked, the diffID found if it is wanted, and the bootstrap made or there before.
abbrev pub converts : Bool → Conversion → Bool
converts check v =
    is_ok v.unpacked && (not check || is_ok v.diff_id) && not (is_serious v.bootstrap)

ended_lem :
    (check : Bool) (unpacked built : Result (Unit {0})) (diff_id : Result String) (digest : String)
    → ended (
        conversion_error check
          (record { unpacked = unpacked; diff_id = diff_id; bootstrap = built; digest = digest }))
      ≡ (if is_ok unpacked && (not check || is_ok diff_id) && not (is_serious built)
          then ready
          else failed)
unfolding conversion_error
ended_lem check (err e) built diff_id digest = refl
ended_lem false (ok u) (ok v) diff_id digest = refl
ended_lem false (ok u) (err e) diff_id digest = ground (arith)
ended_lem true (ok u) built (err e) digest = refl
ended_lem true (ok u) (ok v) (ok d) digest = ground (arith)
ended_lem true (ok u) (err e) (ok d) digest = ground (arith)

-- The end of the task of a layer that is there leaves the layer with its blob, its wait group done,
-- and in status Ready exactly if the stream was unpacked, the diffID found (where it is to be
-- validated) and the bootstrap made or there already, else Failed: the digest that the layer turns
-- out to have makes no difference.
pub finish_lem :
    (c : Config) (v : Conversion) (t : Task) (s : State) (l : Layer)
    → lookup t.snapshot s.layers ≡ some l
    → (lookup t.snapshot (finish c v t s).layers
        ≡ some (record l {
          blob_id = t.blob;
          blob_tar_file = c.path_join c.cache_dir_path t.blob;
          status = if converts c.validate_diff_id v then ready else failed;
        }))
      × ((finish c v t s).finished ≡ t.wait_group ∷ s.finished)
unfolding finish epilog
finish_lem c v t s l found = (
  ap
        (λ o. lookup t.snapshot (elim o as (λ _. Dict Layer) [
          | none ↦ s.layers
          | some m ↦ insert t.snapshot (closed c e t.blob m) s.layers
        ]))
        found
      ∙ lookup-insert_self t.snapshot (closed c e t.blob l) s.layers
      ∙ ap
          (λ x. some (record l {
            blob_id = t.blob;
            blob_tar_file = c.path_join c.cache_dir_path t.blob;
            status = x;
          }))
          (ended_lem c.validate_diff_id v.unpacked v.bootstrap v.diff_id v.digest),
  refl,
)
  where
    e : Option Error
    e = conversion_error c.validate_diff_id v
