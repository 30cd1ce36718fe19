-- ===== src/Overlayfs/Examples.antt =====
-- An overlay of two lower layers under one directory.
use nydus_snapshotter.Base.{◌≡◌, refl, false, All, List, [], ◌∷◌, ◌++◌}
use mathlib.Core.Path.{subst}
use nydus_snapshotter.Overlayfs.{
  Bytes, MountOption, lowerdir, upperdir, longest_common_prefix, compact_lowerdir_option, least,
  greatest, common, less,
}
use nydus_snapshotter.Overlayfs.Compact.{
  Resolves, DirFits, has_empty_part, compact_lowerdir_option_lem,
}
use nydus_snapshotter.Overlayfs.Resolved.{some_eq}

-- "/s/12/f", "/s/1/f", "/s/13/f".
abbrev twelve : Bytes
twelve = 47 ∷ 115 ∷ 47 ∷ 49 ∷ 50 ∷ 47 ∷ 102 ∷ []

abbrev one : Bytes
one = 47 ∷ 115 ∷ 47 ∷ 49 ∷ 47 ∷ 102 ∷ []

abbrev thirteen : Bytes
thirteen = 47 ∷ 115 ∷ 47 ∷ 49 ∷ 51 ∷ 47 ∷ 102 ∷ []

abbrev options : List MountOption
options = upperdir thirteen ∷ lowerdir (twelve ∷ one ∷ []) ∷ []

-- `path.Dir` of the common prefix "/s/1".
abbrev path_dir : Bytes → Bytes
path_dir p = 47 ∷ 115 ∷ []

compact_lowerdir_option_lem_example : Resolves options (compact_lowerdir_option path_dir options)
unfolding longest_common_prefix least greatest common less has_empty_part
compact_lowerdir_option_lem_example = compact_lowerdir_option_lem path_dir options (λ ds h. (
  subst (λ ds. DirFits path_dir (longest_common_prefix (ds ++ thirteen ∷ []))) (some_eq h)
      (λ t. (49 ∷ [], refl)),
  subst (λ ds. All (λ p. has_empty_part p ≡ false) (ds ++ thirteen ∷ [])) (some_eq h)
      (refl, (refl, (refl, tt))),
))
