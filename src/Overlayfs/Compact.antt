-- ===== src/Overlayfs/Compact.antt =====
-- The shortened options of cmd/nydus-overlayfs/main.go against the paths of the options given.
use nydus_snapshotter.Base.{
  ◌≡◌, refl, sym, ap, ◌∙◌, ℕ, Bool, true, false, Option, none, some, List, [], ◌∷◌, ◌++◌,
  if◌then◌else◌, All, ◌⊎◌, inl, inr, ◌&&◌, ◌=ℕ=◌, arith,
}
use mathlib.Core.Path.{subst}
use nydus_snapshotter.Manager.Steps.{append_assoc}
use nydus_snapshotter.Overlayfs.{
  Bytes, MountOption, lowerdir, upperdir, workdir, other, nydus_option, longest_common_prefix,
  lower_dirs, other_paths, rebuilt, slash, is_trivial, or_unchanged, compact_common, compact_dirs,
  compact_lowerdir_option,
}
use nydus_snapshotter.Overlayfs.Prefix.{IsPrefix, longest_common_prefix_lem}
use nydus_snapshotter.Overlayfs.Resolved.{
  some_eq, never, resolved, PathsFit, rebuilt_lem, is_absolute, IsBelow,
}

-- `path.Dir` of a path without empty, `.` and `..` parts, and a slash after it, if it is neither
-- the root nor `.`, is a beginning of the path.
abbrev pub DirFits : (Bytes → Bytes) → Bytes → Type 0
DirFits path_dir p = is_trivial (path_dir p) ≡ false → IsPrefix (path_dir p ++ slash ∷ []) p

IsPrefix-trans : (p q r : Bytes) → IsPrefix p q → IsPrefix q r → IsPrefix p r
IsPrefix-trans p q r (s, e) (t, f) = (s ++ t, f ∙ ap (λ v. v ++ t) e ∙ append_assoc p s t)

All-IsPrefix :
    (p q : Bytes) (xs : List Bytes) → IsPrefix p q → All (IsPrefix q) xs → All (IsPrefix p) xs
All-IsPrefix p q [] h k = tt
All-IsPrefix p q (x ∷ xs) h (k, ks) = (IsPrefix-trans p q x h k, All-IsPrefix p q xs h ks)

-- Two slashes in succession.
unfoldable pub has_empty_part : Bytes → Bool
has_empty_part [] = false
has_empty_part (c ∷ []) = false
has_empty_part (c ∷ d ∷ cs) =
    let rest = has_empty_part (d ∷ cs) in if (c =ℕ= slash) && (d =ℕ= slash) then true else rest

has_empty_part_tail :
    (c : ℕ) (cs : Bytes) → has_empty_part (c ∷ cs) ≡ false → has_empty_part cs ≡ false
unfolding has_empty_part
has_empty_part_tail c [] h = refl
has_empty_part_tail c (d ∷ cs) h = ground (arith, h)

-- After a slash there is no other.
relative_after :
    (dir rest : Bytes)
    → has_empty_part (dir ++ slash ∷ [] ++ rest) ≡ false
    → is_absolute rest ≡ false
unfolding has_empty_part
relative_after [] [] h = refl
relative_after [] (c ∷ cs) h = ground (arith, h)
relative_after (x ∷ dir) rest h =
    relative_after dir rest (has_empty_part_tail x (dir ++ slash ∷ [] ++ rest) h)

All-IsBelow :
    (dir : Bytes) (xs : List Bytes)
    → All (λ p. has_empty_part p ≡ false) xs
    → All (IsPrefix (dir ++ slash ∷ [])) xs
    → All (IsBelow (dir ++ slash ∷ [])) xs
All-IsBelow dir [] c h = tt
All-IsBelow dir (x ∷ xs) (c, cs) ((rest, e), hs) =
    ((rest, e, relative_after dir rest (sym (ap has_empty_part e) ∙ c)), All-IsBelow dir xs cs hs)

-- All paths of the options that are shortened, of the first `lowerdir=` first.
seen_PathsFit :
    (dir : Bytes) (os : List MountOption)
    → All (IsBelow dir) (other_paths os)
    → PathsFit dir true os
seen_PathsFit dir [] h = tt
seen_PathsFit dir (lowerdir ds ∷ os) h = seen_PathsFit dir os h
seen_PathsFit dir (upperdir p ∷ os) (h, hs) = (h, seen_PathsFit dir os hs)
seen_PathsFit dir (workdir p ∷ os) (h, hs) = (h, seen_PathsFit dir os hs)
seen_PathsFit dir (other p ∷ os) h = seen_PathsFit dir os h
seen_PathsFit dir (nydus_option p ∷ os) h = seen_PathsFit dir os h

All-PathsFit :
    (dir : Bytes) (os : List MountOption) (ds : List Bytes)
    → lower_dirs os ≡ some ds
    → All (IsBelow dir) ds
    → All (IsBelow dir) (other_paths os)
    → PathsFit dir false os
All-PathsFit dir [] ds e h k = never e
All-PathsFit dir (lowerdir es ∷ os) ds e h k =
    (subst (All (IsBelow dir)) (sym (some_eq e)) h, seen_PathsFit dir os k)
All-PathsFit dir (upperdir p ∷ os) ds e h (k, ks) = (k, All-PathsFit dir os ds e h ks)
All-PathsFit dir (workdir p ∷ os) ds e h (k, ks) = (k, All-PathsFit dir os ds e h ks)
All-PathsFit dir (other p ∷ os) ds e h k = All-PathsFit dir os ds e h k
All-PathsFit dir (nydus_option p ∷ os) ds e h k = All-PathsFit dir os ds e h k

All-append_left : (p : Bytes) (xs ys : List Bytes) → All (IsBelow p) (xs ++ ys) → All (IsBelow p) xs
All-append_left p [] ys h = tt
All-append_left p (x ∷ xs) ys (h, hs) = (h, All-append_left p xs ys hs)

All-append_right :
    (p : Bytes) (xs ys : List Bytes) → All (IsBelow p) (xs ++ ys) → All (IsBelow p) ys
All-append_right p [] ys h = h
All-append_right p (x ∷ xs) ys (h, hs) = All-append_right p xs ys hs

-- The options stay, or their paths are relative to the directory.
abbrev pub Resolves : List MountOption → Bytes × List MountOption → Type 0
Resolves os (dir, os') = ((dir ≡ []) × (os' ≡ os)) ⊎ (resolved dir false os' ≡ os)

module _ (path_dir : Bytes → Bytes) (os : List MountOption) (d e : Bytes) (ds : List Bytes)
    (found : lower_dirs os ≡ some (d ∷ e ∷ ds)) where
  rebuilt-Resolves :
      (dir : Bytes) (r : Option (List MountOption))
      → rebuilt dir false os ≡ r
      → All (IsBelow dir) (d ∷ e ∷ ds ++ other_paths os)
      → Resolves os (or_unchanged dir os r)
  rebuilt-Resolves dir none h k = inl (refl, refl)
  rebuilt-Resolves dir (some v) h k = inr (
      rebuilt_lem dir false os v
        (All-PathsFit dir os (d ∷ e ∷ ds) found
          (All-append_left dir (d ∷ e ∷ ds) (other_paths os) k)
          (All-append_right dir (d ∷ e ∷ ds) (other_paths os) k))
        h)

  common-Resolves :
      (c : Bytes)
      → DirFits path_dir c
      → All (λ p. has_empty_part p ≡ false) (d ∷ e ∷ ds ++ other_paths os)
      → All (IsPrefix c) (d ∷ e ∷ ds ++ other_paths os)
      → Resolves os (compact_common path_dir c os)
  common-Resolves [] fits clean h = inl (refl, refl)
  common-Resolves (x ∷ xs) fits clean h = by_trivial (is_trivial (path_dir (x ∷ xs))) refl
    where
      by_trivial :
          (b : Bool)
          → is_trivial (path_dir (x ∷ xs)) ≡ b
          → Resolves os (
              if b
              then ([], os)
              else or_unchanged
                  (path_dir (x ∷ xs) ++ slash ∷ [])
                  os
                  (rebuilt (path_dir (x ∷ xs) ++ slash ∷ []) false os))
      by_trivial true t = inl (refl, refl)
      by_trivial false t =
          rebuilt-Resolves (path_dir (x ∷ xs) ++ slash ∷ [])
            (rebuilt (path_dir (x ∷ xs) ++ slash ∷ []) false os) refl
            (All-IsBelow (path_dir (x ∷ xs)) (d ∷ e ∷ ds ++ other_paths os) clean (
              All-IsPrefix (path_dir (x ∷ xs) ++ slash ∷ []) (x ∷ xs) (d ∷ e ∷ ds ++ other_paths os)
                (fits t) h))

-- Where no path has two slashes in succession and `path.Dir` gives a beginning of the common prefix
-- of the paths, shortening the options changes nothing, or gives a directory from which the first
-- `lowerdir=` and all `upperdir=` and `workdir=` resolve to exactly the paths of the options, an
-- absolute one being resolved as itself, and all other options are kept in their places.
pub compact_lowerdir_option_lem :
    (path_dir : Bytes → Bytes) (os : List MountOption)
    → ((ds : List Bytes)
        → lower_dirs os ≡ some ds
        → DirFits path_dir (longest_common_prefix (ds ++ other_paths os))
          × All (λ p. has_empty_part p ≡ false) (ds ++ other_paths os))
    → Resolves os (compact_lowerdir_option path_dir os)
unfolding compact_lowerdir_option
compact_lowerdir_option_lem path_dir os fits = by_dirs (lower_dirs os) refl
  where
    by_dirs :
        (o : Option (List Bytes)) → lower_dirs os ≡ o → Resolves os (compact_dirs path_dir o os)
    by_dirs none h = inl (refl, refl)
    by_dirs (some []) h = inl (refl, refl)
    by_dirs (some (d ∷ [])) h = inl (refl, refl)
    by_dirs (some (d ∷ e ∷ ds)) h =
        common-Resolves path_dir os d e ds h (longest_common_prefix (d ∷ e ∷ ds ++ other_paths os))
          (fits (d ∷ e ∷ ds) h).0 (fits (d ∷ e ∷ ds) h).1
          (longest_common_prefix_lem d e (ds ++ other_paths os))
