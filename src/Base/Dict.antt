-- ===== src/Base/Dict.antt =====
-- Go's `map[string]T` as an association list; the order of the list stands for the unspecified
-- order of iteration.
use nydus_snapshotter.Base.Tests.{if◌then◌else◌, is_some}
use nydus_snapshotter.Base.Lists.{length}
use mathlib.Core.Option.{Option, none, some}
use native.Mathlib.Omega.{arith}
use mathlib.Core.List.{List, [], ◌∷◌}
use text.Mathlib.TextEquality.{eq_iff}
use mathlib.Core.Path.{◌≡◌, refl}
use text.Mathlib.Text.{◌==◌}
use Prim.Native.String.{String}
use Prim.Native.Nat.{suc}

abbrev pub Dict {ℓ} : Type ℓ → Type ℓ
Dict V = List (String × V)

module _ {ℓ} {V : Type ℓ} where
  -- `m[k]`, where `none` is the absence of the key.
  unfoldable pub lookup : String → Dict V → Option V
  lookup key [] = none
  lookup key ((first, held) ∷ rest) = if first == key then some held else lookup key rest

  -- `m[k] = v`.
  unfoldable pub insert : String → V → Dict V → Dict V
  insert key new [] = (key, new) ∷ []
  insert key new ((first, held) ∷ rest) =
      if first == key then (key, new) ∷ rest else (first, held) ∷ insert key new rest

  -- `delete(m, k)`.
  unfoldable pub remove : String → Dict V → Dict V
  remove k [] = []
  remove k ((j, w) ∷ m) = if j == k then remove k m else (j, w) ∷ remove k m

  unfoldable pub values : Dict V → List V
  values [] = []
  values ((j, w) ∷ m) = w ∷ values m

  pub lookup-insert :
      (k j : String) (v : V) (m : Dict V)
      → lookup j (insert k v m) ≡ (if k == j then some v else lookup j m)
  unfolding lookup insert
  lookup-insert written read new [] = refl
  lookup-insert written read new ((first, held) ∷ rest) = ground (
    arith,
    lookup-insert written read new rest,
    eq_iff first written,
    eq_iff first read,
    eq_iff written read,
  )

  pub lookup-remove :
      (k j : String) (m : Dict V) → lookup j (remove k m) ≡ (if k == j then none else lookup j m)
  unfolding lookup remove
  lookup-remove k j [] = ground arith
  lookup-remove k j ((i, w) ∷ m) =
      ground (arith, eq_iff k j, eq_iff i k, eq_iff i j, lookup-remove k j m)

  pub lookup-insert_self : (k : String) (v : V) (m : Dict V) → lookup k (insert k v m) ≡ some v
  lookup-insert_self k v m = ground (arith, lookup-insert k k v m, eq_iff k k)

  pub lookup-remove_self : (k : String) (m : Dict V) → lookup k (remove k m) ≡ none
  lookup-remove_self k m = ground (arith, lookup-remove k k m, eq_iff k k)

  -- A write adds an entry exactly when the key was absent.
  pub length-insert :
      (k : String) (v : V) (m : Dict V)
      → length (insert k v m) ≡ (if is_some (lookup k m) then length m else suc (length m))
  unfolding lookup insert
  length-insert k v [] = refl
  length-insert k v ((j, w) ∷ m) = ground (arith, length-insert k v m)

module _ {ℓ} {V : Type ℓ} where
  -- No key stands twice: a Go map.
  abbrev pub IsMap : Dict V → Type ℓ
  IsMap [] = Unit
  IsMap ((k, v) ∷ m) = (lookup k m ≡ none) × IsMap m

  pub insert-IsMap : (k : String) (v : V) (m : Dict V) → IsMap m → IsMap (insert k v m)
  unfolding lookup insert
  insert-IsMap k v [] h = (refl, tt)
  insert-IsMap k v ((j, w) ∷ m) h =
      ground (arith, eq_iff j k, eq_iff k j, lookup-insert k j v m, insert-IsMap k v m h.1)

  pub remove-IsMap : (k : String) (m : Dict V) → IsMap m → IsMap (remove k m)
  unfolding lookup remove
  remove-IsMap k [] h = tt
  remove-IsMap k ((j, w) ∷ m) h =
      ground (arith, eq_iff j k, eq_iff k j, lookup-remove k j m, remove-IsMap k m h.1)

  pub remove_absent : (k : String) (m : Dict V) → lookup k m ≡ none → remove k m ≡ m
  unfolding lookup remove
  remove_absent k [] h = refl
  remove_absent k ((j, w) ∷ m) h = ground (arith, remove_absent k m)

  -- A deletion takes away one entry exactly when the key was present.
  pub length-remove :
      (k : String) (m : Dict V)
      → IsMap m
      → length m ≡ (if is_some (lookup k m) then suc (length (remove k m)) else length (remove k m))
  unfolding lookup remove
  length-remove k [] h = refl
  length-remove k ((j, w) ∷ m) h =
      ground (arith, eq_iff j k, length-remove k m h.1, remove_absent k m)

  pub remove_first :
      (k : String) (w : V) (m : Dict V) → lookup k m ≡ none → remove k ((k, w) ∷ m) ≡ m
  unfolding remove
  remove_first k w m h = ground (arith, eq_iff k k, remove_absent k m h)
