-- ===== src/Cache/Names.antt =====
-- The blob of a cache file is found back from its name.
use nydus_snapshotter.Base.{
  ◌≡◌, refl, ap, ◌∙◌, Bool, true, false, none, List, [], ◌∷◌, if◌then◌else◌, ◌=ℕ=◌, arith, All,
}
use nydus_snapshotter.Cache.{
  Name, data_file_suffix, trim_suffix, or_next, trim_first, suffixes, extract_blob_id_from_filename,
  stuffs,
}

-- No dot in the name, as in a digest's hexadecimal text.
unfoldable pub is_plain : Name → Bool
is_plain [] = true
is_plain (c ∷ cs) = let rest = is_plain cs in if c =ℕ= 46 then false else rest

-- A suffix with a dot is none of a plain name.
plain_trim : (s name : Name) → is_plain s ≡ false → is_plain name ≡ true → trim_suffix s name ≡ none
unfolding is_plain trim_suffix
plain_trim [] name h k = ground (arith, h)
plain_trim (c ∷ cs) [] h k = refl
plain_trim (c ∷ cs) (x ∷ xs) h k = ground (arith, h, k, plain_trim cs xs)

trim_first_plain :
    (ss : List Name) (name : Name)
    → All (λ s. is_plain s ≡ false) ss
    → is_plain name ≡ true
    → trim_first ss name ≡ name
unfolding trim_first
trim_first_plain [] name h k = refl
trim_first_plain (s ∷ ss) name (h, hs) k =
    ap (λ o. or_next o (trim_first ss name)) (plain_trim s name h k) ∙ trim_first_plain ss name hs k

-- The blob of each file of a blob whose id has no dot, as it is read from the file's name, is that
-- blob.
pub extract_blob_id_from_filename_lem :
    (id : Name) → is_plain id ≡ true → All (λ f. extract_blob_id_from_filename f ≡ id) (stuffs id)
unfolding extract_blob_id_from_filename trim_first trim_suffix is_plain
extract_blob_id_from_filename_lem id h = (
  ap (λ o. or_next o id) (plain_trim data_file_suffix id refl h),
  (
    refl,
    (
      refl,
      (
        trim_first_plain suffixes id (refl, (refl, (refl, (refl, (refl, (refl, tt)))))) h,
        (refl, (refl, (refl, tt))),
      ),
    ),
  ),
)
