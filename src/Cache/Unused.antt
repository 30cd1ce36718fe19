-- ===== src/Cache/Unused.antt =====
-- Removing unused blobs leaves the files of used ones.
use nydus_snapshotter.Base.{
  ◌≡◌, refl, sym, ap, ◌∙◌, Bool, true, false, Option, none, some, List, [], ◌∷◌, if◌then◌else◌,
  arith, All, Error,
}
use nydus_snapshotter.Cache.{
  Name, extract_blob_id_from_filename, stuffs, name_eq, elem, without, removing, remove_files,
  remove_blob_cache, used_blob_ids, stored_blob_ids, unused_of, get_unused_cache_blobs,
  remove_blobs,
}
use nydus_snapshotter.Cache.Names.{is_plain, extract_blob_id_from_filename_lem}

name_eq→≡ : (a b : Name) → name_eq a b ≡ true → a ≡ b
unfolding name_eq
name_eq→≡ [] [] h = refl
name_eq→≡ [] (y ∷ ys) h = ground (arith, h)
name_eq→≡ (x ∷ xs) [] h = ground (arith, h)
name_eq→≡ (x ∷ xs) (y ∷ ys) h =
    ap (λ v. v ∷ xs) (ground (arith, h)) ∙ ap (◌∷◌ y) (name_eq→≡ xs ys (ground (arith, h)))

name_eq_trans : (a b c : Name) → name_eq a b ≡ true → name_eq a c ≡ true → name_eq b c ≡ true
name_eq_trans a b c h k = ap (λ v. name_eq v c) (sym (name_eq→≡ a b h)) ∙ k

elem-without :
    (g f : Name) (dir : List Name) → name_eq g f ≡ false → elem f (without g dir) ≡ elem f dir
unfolding elem without
elem-without g f [] h = refl
elem-without g f (m ∷ ms) h = ground (arith, h, elem-without g f ms h, name_eq_trans m g f)

remove_files_keeps :
    (refuses : Name → Option Error) (f : Name) (gs dir : List Name)
    → All (λ g. name_eq g f ≡ false) gs
    → elem f (remove_files refuses gs dir).0 ≡ elem f dir
unfolding remove_files
remove_files_keeps refuses f [] dir h = refl
remove_files_keeps refuses f (g ∷ gs) dir (h, hs) =
    by_case (elem g dir) (refuses g) (λ d. remove_files_keeps refuses f gs d hs)
  where
    by_case :
        (b : Bool) (o : Option Error)
        → ((d : List Name) → elem f (remove_files refuses gs d).0 ≡ elem f d)
        → elem f (removing (remove_files refuses gs) g dir b o).0 ≡ elem f dir
    by_case false o ih = ih dir
    by_case true none ih = ih (without g dir) ∙ elem-without g f dir h
    by_case true (some e) ih = refl

-- A file of another blob is none of this blob's.
others_differ :
    (id f : Name) (gs : List Name)
    → name_eq id (extract_blob_id_from_filename f) ≡ false
    → name_eq id id ≡ true
    → All (λ g. extract_blob_id_from_filename g ≡ id) gs
    → All (λ g. name_eq g f ≡ false) gs
others_differ id f [] h k e = tt
others_differ id f (g ∷ gs) h k (e, es) = (by_eq (name_eq g f) refl, others_differ id f gs h k es)
  where
    by_eq : (b : Bool) → name_eq g f ≡ b → name_eq g f ≡ false
    by_eq false p = p
    by_eq true p = absurd (
        ground (
          arith,
          h,
          k,
          ap (λ v. name_eq id v) (sym e ∙ ap extract_blob_id_from_filename (name_eq→≡ g f p)),
        ))

name_eq_refl : (a : Name) → name_eq a a ≡ true
unfolding name_eq
name_eq_refl [] = refl
name_eq_refl (x ∷ xs) = ground (arith, name_eq_refl xs)

unused_lem : (used stored : List Name) → All (λ id. elem id used ≡ false) (unused_of used stored)
unfolding unused_of
unused_lem used [] = tt
unused_lem used (id ∷ ids) = by_elem (elem id used) refl (unused_lem used ids)
  where
    by_elem :
        (b : Bool)
        → elem id used ≡ b
        → All (λ i. elem i used ≡ false) (unused_of used ids)
        → All (λ i. elem i used ≡ false) (if b then unused_of used ids else id ∷ unused_of used ids)
    by_elem true e h = h
    by_elem false e h = (e, h)

differ :
    (id other : Name) (used : List Name)
    → elem id used ≡ false
    → elem other used ≡ true
    → name_eq id other ≡ false
differ id other used h k = by_eq (name_eq id other) refl
  where
    by_eq : (b : Bool) → name_eq id other ≡ b → name_eq id other ≡ false
    by_eq false p = p
    by_eq true p = ground (arith, h, k, ap (λ v. elem v used) (name_eq→≡ id other p))

remove_blobs_keeps :
    (refuses : Name → Option Error) (f : Name) (used ids dir : List Name)
    → All (λ id. elem id used ≡ false) ids
    → All (λ id. is_plain id ≡ true) ids
    → elem (extract_blob_id_from_filename f) used ≡ true
    → elem f (remove_blobs refuses ids dir) ≡ elem f dir
unfolding remove_blobs remove_blob_cache
remove_blobs_keeps refuses f used [] dir h k u = refl
remove_blobs_keeps refuses f used (id ∷ ids) dir (h, hs) (k, ks) u =
    remove_blobs_keeps refuses f used ids (remove_files refuses (stuffs id) dir).0 hs ks u
    ∙ remove_files_keeps refuses f (stuffs id) dir (
        others_differ id f (stuffs id) (differ id (extract_blob_id_from_filename f) used h u)
          (name_eq_refl id) (extract_blob_id_from_filename_lem id k))

-- Where the blobs found unused have ids without dots, removing the cache of each, whatever errors
-- the system gives, leaves each file in the cache directory whose blob is used by an instance.
pub remove_unused_lem :
    (refuses : Name → Option Error) (underlying_files entries dir : List Name) (f : Name)
    → All (λ id. is_plain id ≡ true) (get_unused_cache_blobs underlying_files entries)
    → elem (extract_blob_id_from_filename f) (used_blob_ids underlying_files) ≡ true
    → elem f dir ≡ true
    → elem f (remove_blobs refuses (get_unused_cache_blobs underlying_files entries) dir) ≡ true
unfolding get_unused_cache_blobs
remove_unused_lem refuses files entries dir f plain used present =
    remove_blobs_keeps refuses f (used_blob_ids files)
      (unused_of (used_blob_ids files) (stored_blob_ids entries)) dir
      (unused_lem (used_blob_ids files) (stored_blob_ids entries)) plain used
    ∙ present
