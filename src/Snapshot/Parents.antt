-- ===== src/Snapshot/Parents.antt =====
-- pkg/snapshot/storage.go, `IterateParentSnapshots`: the nearest layer of a chain that a test
-- accepts, and the three searches of snapshot/snapshot.go that use it.
use nydus_snapshotter.Base.{
  ℕ, zero, suc, ◌<◌, ◌==◌, ◌≡◌, ◌≢◌, String, Bool, Option, none, some, List, [], ◌∷◌, arith,
  not_found, Result, ok, err, eq_iff, if◌then◌else◌,
}
use nydus_snapshotter.Label.{Labels, is_nydus_meta_layer}
use nydus_snapshotter.Snapshot.{Info, MetaStore}

module _ (ms : MetaStore) where
  -- The loop on fuel; the outer `none` means that the fuel ran out.
  unfoldable pub iterate : ℕ → (String → Info → Bool) → String → Option (Result (String × Info))
  iterate zero fn key = none
  iterate (suc fuel) fn key =
      let again = λ (k : String). iterate fuel fn k in
      if key == "" then some (err not_found) else elim (ms.get_info key) [
        | err e ↦ some (err e)
        | ok (id, info) ↦ if fn id info then some (ok (id, info)) else again info.parent
      ]

  -- The layers from `key` down to the root: their ids and infos, the nearest first.
  pub data Chain : String → List (String × Info) → Type 0 where
    root : {key : String} → key ≡ "" → Chain key []
    layer :
        {key : String} {rest : List (String × Info)} (id : String) (info : Info)
        → key ≢ ""
        → ms.get_info key ≡ ok (id, info)
        → Chain info.parent rest
        → Chain key ((id, info) ∷ rest)

  -- The first layer of a chain that passes the test.
  unfoldable pub nearest : (String → Info → Bool) → List (String × Info) → Result (String × Info)
  nearest fn [] = err not_found
  nearest fn ((id, info) ∷ rest) = if fn id info then ok (id, info) else nearest fn rest

  abbrev pub depth : List (String × Info) → ℕ
  depth [] = 0
  depth (x ∷ xs) = suc (depth xs)

  -- On a chain of n layers, and with more fuel than n, the search ends and finds the layer nearest
  -- to the key that passes the test, the key's own included; if none passes it is `ErrNotFound`.
  pub iterate_lem :
      (fuel : ℕ) (fn : String → Info → Bool) (key : String) (layers : List (String × Info))
      → Chain key layers
      → depth layers < fuel
      → iterate fuel fn key ≡ some (nearest fn layers)
  unfolding iterate nearest
  iterate_lem zero fn key layers c h = absurd (omega arith)
  iterate_lem (suc fuel) fn key layers (root e) h = ground (arith, eq_iff key "")
  iterate_lem (suc fuel) fn key layers (layer {rest = rest} id info named found below) h =
      ground (arith, eq_iff key "", iterate_lem fuel fn info.parent rest below)

  -- `findMetaLayer`.
  unfoldable pub find_meta_layer : ℕ → String → Option (Result (String × Info))
  unfolding iterate
  find_meta_layer fuel = iterate fuel (λ id info. is_nydus_meta_layer info.labels)

  -- `findReferrerLayer` and `findIndexAlternativeLayer`, by the test of the filesystem layer.
  unfoldable pub find_checked_layer : (Labels → Bool) → ℕ → String → Option (Result (String × Info))
  unfolding iterate
  find_checked_layer check fuel = iterate fuel (λ id info. check info.labels)
