-- ===== src/Overlayfs.antt =====
-- cmd/nydus-overlayfs/main.go: the mount helper. A path is the list of its bytes; the options that
-- matter are read into constructors by their prefixes (`lowerdir=` with its list, and so on).
pub mod Prefix
pub mod Resolved
pub mod Compact
mod Examples
use nydus_snapshotter.Base.{
  ℕ, zero, suc, ◌&&◌, ◌||◌, not, Bool, true, false, Option, none, some, List, [], ◌∷◌, ◌++◌, Error,
  Result, ok, err, failure, if◌then◌else◌, ltb, leb, ◌=ℕ=◌, length,
}

abbrev pub Bytes : Type 0
Bytes = List ℕ

pub data MountOption : Type 0 where
  lowerdir : List Bytes → MountOption
  upperdir workdir other : Bytes → MountOption
  -- `extraoption=` and `io.katacontainers.volume=`.
  nydus_option : Bytes → MountOption

-- `mountArgs` of an overlay mount, from the type, the target and the options after "-o".
pub record MountArgs : Type 0 where
  pub target : Bytes
  pub options : List MountOption

abbrev pub not_overlay : Error
not_overlay = failure 90

abbrev pub empty_target : Error
empty_target = failure 91

abbrev pub empty_options : Error
empty_options = failure 92

-- The options of nydus are left out.
unfoldable pub kept : List MountOption → List MountOption
kept [] = []
kept (nydus_option b ∷ os) = kept os
kept (lowerdir ds ∷ os) = lowerdir ds ∷ kept os
kept (upperdir b ∷ os) = upperdir b ∷ kept os
kept (workdir b ∷ os) = workdir b ∷ kept os
kept (other b ∷ os) = other b ∷ kept os

abbrev pub with_options : Bytes → List MountOption → Result MountArgs
with_options target [] = err empty_options
with_options target (o ∷ os) = ok (record { target = target; options = o ∷ os })

abbrev pub with_target : Bytes → List MountOption → Result MountArgs
with_target [] os = err empty_target
with_target (c ∷ cs) os = with_options (c ∷ cs) os

unfoldable pub parse_args :
    (is_overlay : Bool) → (target : Bytes) → (has_o : Bool) → List MountOption → Result MountArgs
unfolding kept
parse_args is_overlay target has_o os =
    if is_overlay then with_target target (if has_o then kept os else []) else err not_overlay

-- Go's `<` on strings.
unfoldable pub less : Bytes → Bytes → Bool
less xs [] = false
less [] (y ∷ ys) = true
less (x ∷ xs) (y ∷ ys) = let rest = less xs ys in if x =ℕ= y then rest else ltb x y

unfoldable pub common : Bytes → Bytes → Bytes
common [] ys = []
common (x ∷ xs) [] = []
common (x ∷ xs) (y ∷ ys) = let rest = common xs ys in if x =ℕ= y then x ∷ rest else []

unfoldable pub least : Bytes → List Bytes → Bytes
unfolding less
least m [] = m
least m (x ∷ xs) = least (if less x m then x else m) xs

unfoldable pub greatest : Bytes → List Bytes → Bytes
unfolding less
greatest m [] = m
greatest m (x ∷ xs) = greatest (if less m x then x else m) xs

unfoldable pub longest_common_prefix : List Bytes → Bytes
unfolding common least greatest
longest_common_prefix [] = []
longest_common_prefix (x ∷ []) = x
longest_common_prefix (x ∷ y ∷ ys) = common (least x (y ∷ ys)) (greatest x (y ∷ ys))

-- The lower directories of the first such option.
abbrev pub lower_dirs : List MountOption → Option (List Bytes)
lower_dirs [] = none
lower_dirs (lowerdir ds ∷ os) = some ds
lower_dirs (_ ∷ os) = lower_dirs os

abbrev pub other_paths : List MountOption → List Bytes
other_paths [] = []
other_paths (upperdir p ∷ os) = p ∷ other_paths os
other_paths (workdir p ∷ os) = p ∷ other_paths os
other_paths (_ ∷ os) = other_paths os

-- `p[n:]`.
abbrev pub drop : ℕ → Bytes → Bytes
drop zero xs = xs
drop (suc n) [] = []
drop (suc n) (x ∷ xs) = drop n xs

-- A path that is not longer than the directory ends the attempt.
unfoldable pub shortened : Bytes → Bytes → Option Bytes
shortened dir p = if leb (length p) (length dir) then none else some (drop (length dir) p)

abbrev pub consed : {A : Type 0} → Option A → Option (List A) → Option (List A)
consed none xs = none
consed (some x) none = none
consed (some x) (some xs) = some (x ∷ xs)

unfoldable pub shortened_all : Bytes → List Bytes → Option (List Bytes)
unfolding shortened
shortened_all dir [] = some []
shortened_all dir (p ∷ ps) = consed (shortened dir p) (shortened_all dir ps)

abbrev pub mapped : {A B : Type 0} → (A → B) → Option A → Option B
mapped f none = none
mapped f (some x) = some (f x)

-- `seen`: the first `lowerdir=` is behind; a later one is kept as it is.
unfoldable pub rebuilt : Bytes → (seen : Bool) → List MountOption → Option (List MountOption)
unfolding shortened_all
rebuilt dir seen [] = some []
rebuilt dir false (lowerdir ds ∷ os) =
    consed (mapped lowerdir (shortened_all dir ds)) (rebuilt dir true os)
rebuilt dir true (lowerdir ds ∷ os) = consed (some (lowerdir ds)) (rebuilt dir true os)
rebuilt dir seen (upperdir p ∷ os) =
    consed (mapped upperdir (shortened dir p)) (rebuilt dir seen os)
rebuilt dir seen (workdir p ∷ os) = consed (mapped workdir (shortened dir p)) (rebuilt dir seen os)
rebuilt dir seen (other p ∷ os) = consed (some (other p)) (rebuilt dir seen os)
rebuilt dir seen (nydus_option p ∷ os) = consed (some (nydus_option p)) (rebuilt dir seen os)

abbrev pub slash : ℕ
slash = 47

-- "/" or ".".
abbrev pub is_trivial : Bytes → Bool
is_trivial (c ∷ []) = (c =ℕ= slash) || (c =ℕ= 46)
is_trivial _ = false

abbrev pub or_unchanged :
    Bytes → List MountOption → Option (List MountOption) → Bytes × List MountOption
or_unchanged dir os none = ([], os)
or_unchanged dir os (some os') = (dir, os')

module _ (path_dir : Bytes → Bytes) where
  abbrev pub compact_in : Bytes → List MountOption → Bytes × List MountOption
  compact_in parent os =
      if is_trivial parent
      then ([], os)
      else or_unchanged (parent ++ slash ∷ []) os (rebuilt (parent ++ slash ∷ []) false os)

  abbrev pub compact_common : Bytes → List MountOption → Bytes × List MountOption
  compact_common [] os = ([], os)
  compact_common (c ∷ cs) os = compact_in (path_dir (c ∷ cs)) os

  abbrev pub compact_dirs : Option (List Bytes) → List MountOption → Bytes × List MountOption
  compact_dirs none os = ([], os)
  compact_dirs (some []) os = ([], os)
  compact_dirs (some (d ∷ [])) os = ([], os)
  compact_dirs (some (d ∷ e ∷ ds)) os =
      compact_common (longest_common_prefix (d ∷ e ∷ ds ++ other_paths os)) os

  unfoldable pub compact_lowerdir_option : List MountOption → Bytes × List MountOption
  compact_lowerdir_option os = compact_dirs (lower_dirs os) os
