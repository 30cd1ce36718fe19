-- ===== src/Cache/Examples.antt =====
-- Two blobs in the cache, one of which an instance uses.
use nydus_snapshotter.Base.{◌≡◌, refl, true, none, List, [], ◌∷◌, ◌++◌, All}
use nydus_snapshotter.Cache.{
  Name, chunk_map_file_suffix, data_file_suffix, extract_blob_id_from_filename, stuffs, elem,
  name_eq, trim_first, trim_suffix, used_blob_ids, stored_blob_ids, unused_of,
  get_unused_cache_blobs, remove_blobs,
}
use nydus_snapshotter.Cache.Names.{is_plain, extract_blob_id_from_filename_lem}
use nydus_snapshotter.Cache.Unused.{remove_unused_lem}

-- "a1" and "b2".
abbrev used : Name
used = 49 ∷ 97 ∷ []

abbrev unused : Name
unused = 50 ∷ 98 ∷ []

extract_blob_id_from_filename_lem_example :
    All (λ f. extract_blob_id_from_filename f ≡ used) (stuffs used)
unfolding is_plain
extract_blob_id_from_filename_lem_example = extract_blob_id_from_filename_lem used refl

abbrev entries : List Name
entries =
    (data_file_suffix ++ used)
    ∷ (chunk_map_file_suffix ++ data_file_suffix ++ used)
    ∷ (data_file_suffix ++ unused)
    ∷ []

remove_unused_lem_example :
    elem (data_file_suffix ++ used) (
      remove_blobs
        (λ f. none)
        (get_unused_cache_blobs ((data_file_suffix ++ used) ∷ []) entries)
        entries)
    ≡ true
unfolding is_plain elem name_eq extract_blob_id_from_filename trim_first trim_suffix used_blob_ids
    stored_blob_ids unused_of get_unused_cache_blobs
remove_unused_lem_example =
    remove_unused_lem (λ f. none) ((data_file_suffix ++ used) ∷ []) entries entries
      (data_file_suffix ++ used) (refl, tt) refl refl
