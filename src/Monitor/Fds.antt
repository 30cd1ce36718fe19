-- ===== src/Monitor/Fds.antt =====
-- Maps keyed by descriptors, and lists of descriptors.
use nydus_snapshotter.Base.{
  ℕ, ◌≡◌, refl, Bool, true, false, Option, none, some, List, [], ◌∷◌, if◌then◌else◌, ◌=ℕ=◌, arith,
}

abbrev pub FdMap {ℓ} : Type ℓ → Type ℓ
FdMap V = List (ℕ × V)

module _ {ℓ} {V : Type ℓ} where
  unfoldable pub lookup_fd : ℕ → FdMap V → Option V
  lookup_fd fd [] = none
  lookup_fd fd ((other, v) ∷ m) = if other =ℕ= fd then some v else lookup_fd fd m

  unfoldable pub insert_fd : ℕ → V → FdMap V → FdMap V
  insert_fd fd v [] = (fd, v) ∷ []
  insert_fd fd v ((other, w) ∷ m) =
      if other =ℕ= fd then (fd, v) ∷ m else (other, w) ∷ insert_fd fd v m

  unfoldable pub remove_fd : ℕ → FdMap V → FdMap V
  remove_fd fd [] = []
  remove_fd fd ((other, w) ∷ m) =
      if other =ℕ= fd then remove_fd fd m else (other, w) ∷ remove_fd fd m

  pub lookup_fd-insert_fd :
      (k j : ℕ) (v : V) (m : FdMap V)
      → lookup_fd j (insert_fd k v m) ≡ (if k =ℕ= j then some v else lookup_fd j m)
  unfolding lookup_fd insert_fd
  lookup_fd-insert_fd k j v [] = refl
  lookup_fd-insert_fd k j v ((i, w) ∷ m) = ground (arith, lookup_fd-insert_fd k j v m)

  pub lookup_fd-remove_fd :
      (k j : ℕ) (m : FdMap V)
      → lookup_fd j (remove_fd k m) ≡ (if k =ℕ= j then none else lookup_fd j m)
  unfolding lookup_fd remove_fd
  lookup_fd-remove_fd k j [] = ground arith
  lookup_fd-remove_fd k j ((i, w) ∷ m) = ground (arith, lookup_fd-remove_fd k j m)

unfoldable pub drop_fd : ℕ → List ℕ → List ℕ
drop_fd fd [] = []
drop_fd fd (x ∷ xs) = if x =ℕ= fd then drop_fd fd xs else x ∷ drop_fd fd xs

unfoldable pub has_fd : ℕ → List ℕ → Bool
has_fd fd [] = false
has_fd fd (x ∷ xs) = if x =ℕ= fd then true else has_fd fd xs

pub has_fd-drop_fd :
    (k j : ℕ) (xs : List ℕ) → has_fd j (drop_fd k xs) ≡ (if k =ℕ= j then false else has_fd j xs)
unfolding has_fd drop_fd
has_fd-drop_fd k j [] = ground arith
has_fd-drop_fd k j (x ∷ xs) = ground (arith, has_fd-drop_fd k j xs)
