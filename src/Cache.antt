-- ===== src/Cache.antt =====
-- pkg/cache/manager.go, and `getUnusedCacheBlobs` of snapshot/snapshot.go: the files of blobs in the
-- cache directory. A file name is the list of its bytes from the last to the first, so that a
-- suffix stands in front.
pub mod Names
pub mod Unused
mod Examples
use nydus_snapshotter.Base.{
  ℕ, zero, suc, ◌+◌, not, ◌&&◌, Bool, true, false, Option, none, some, List, [], ◌∷◌, ◌++◌, Error,
  Result, ok, err, if◌then◌else◌, ◌=ℕ=◌,
}

abbrev pub Name : Type 0
Name = List ℕ

-- ".image.disk", ".layer.disk", ".chunk_map", ".blob.meta" and ".blob.data".
abbrev pub image_disk_file_suffix : Name
image_disk_file_suffix = 107 ∷ 115 ∷ 105 ∷ 100 ∷ 46 ∷ 101 ∷ 103 ∷ 97 ∷ 109 ∷ 105 ∷ 46 ∷ []

abbrev pub layer_disk_file_suffix : Name
layer_disk_file_suffix = 107 ∷ 115 ∷ 105 ∷ 100 ∷ 46 ∷ 114 ∷ 101 ∷ 121 ∷ 97 ∷ 108 ∷ 46 ∷ []

abbrev pub chunk_map_file_suffix : Name
chunk_map_file_suffix = 112 ∷ 97 ∷ 109 ∷ 95 ∷ 107 ∷ 110 ∷ 117 ∷ 104 ∷ 99 ∷ 46 ∷ []

abbrev pub meta_file_suffix : Name
meta_file_suffix = 97 ∷ 116 ∷ 101 ∷ 109 ∷ 46 ∷ 98 ∷ 111 ∷ 108 ∷ 98 ∷ 46 ∷ []

abbrev pub data_file_suffix : Name
data_file_suffix = 97 ∷ 116 ∷ 97 ∷ 100 ∷ 46 ∷ 98 ∷ 111 ∷ 108 ∷ 98 ∷ 46 ∷ []

-- `strings.HasSuffix` with `strings.TrimSuffix`.
unfoldable pub trim_suffix : (suffix : Name) → Name → Option Name
trim_suffix [] xs = some xs
trim_suffix (c ∷ cs) [] = none
trim_suffix (c ∷ cs) (x ∷ xs) = let rest = trim_suffix cs xs in if c =ℕ= x then rest else none

abbrev pub or_next : Option Name → Name → Name
or_next (some x) rest = x
or_next none rest = rest

unfoldable pub trim_first : List Name → Name → Name
unfolding trim_suffix
trim_first [] name = name
trim_first (s ∷ ss) name = or_next (trim_suffix s name) (trim_first ss name)

abbrev pub suffixes : List Name
suffixes =
    data_file_suffix
    ∷ (chunk_map_file_suffix ++ data_file_suffix)
    ∷ chunk_map_file_suffix
    ∷ meta_file_suffix
    ∷ image_disk_file_suffix
    ∷ layer_disk_file_suffix
    ∷ []

unfoldable pub extract_blob_id_from_filename : Name → Name
unfolding trim_first
extract_blob_id_from_filename name = trim_first suffixes name

-- The files that are removed for a blob, in this order: chunk maps before the data.
abbrev pub stuffs : Name → List Name
stuffs id =
    (chunk_map_file_suffix ++ id)
    ∷ (chunk_map_file_suffix ++ data_file_suffix ++ id)
    ∷ (meta_file_suffix ++ id)
    ∷ id
    ∷ (data_file_suffix ++ id)
    ∷ (image_disk_file_suffix ++ id)
    ∷ (layer_disk_file_suffix ++ id)
    ∷ []

unfoldable pub name_eq : Name → Name → Bool
name_eq [] [] = true
name_eq [] (y ∷ ys) = false
name_eq (x ∷ xs) [] = false
name_eq (x ∷ xs) (y ∷ ys) = let rest = name_eq xs ys in if x =ℕ= y then rest else false

unfoldable pub elem : Name → List Name → Bool
unfolding name_eq
elem n [] = false
elem n (m ∷ ms) = let rest = elem n ms in if name_eq m n then true else rest

unfoldable pub without : Name → List Name → List Name
unfolding name_eq
without n [] = []
without n (m ∷ ms) = let rest = without n ms in if name_eq m n then rest else m ∷ rest

-- `os.Remove`: a name that is not in the directory is passed over, other errors are the system's.
abbrev pub removing :
    (List Name → List Name × Result (Unit {0}))
    → Name
    → List Name
    → (present : Bool) → Option Error
    → List Name × Result (Unit {0})
removing k f dir false e = k dir
removing k f dir true none = k (without f dir)
removing k f dir true (some e) = (dir, err e)

unfoldable pub remove_files :
    (Name → Option Error) → List Name → List Name → List Name × Result (Unit {0})
unfolding elem without
remove_files refuses [] dir = (dir, ok tt)
remove_files refuses (f ∷ fs) dir =
    removing (remove_files refuses fs) f dir (elem f dir) (refuses f)

unfoldable pub remove_blob_cache :
    (Name → Option Error) → Name → List Name → List Name × Result (Unit {0})
unfolding remove_files
remove_blob_cache refuses id dir = remove_files refuses (stuffs id) dir

-- The blobs of the files that instances of any daemon use, but for the empty id.
unfoldable pub used_blob_ids : (underlying_files : List Name) → List Name
unfolding extract_blob_id_from_filename name_eq
used_blob_ids [] = []
used_blob_ids (f ∷ fs) =
    let id = extract_blob_id_from_filename f in
    let rest = used_blob_ids fs in if name_eq id [] then rest else id ∷ rest

-- The blobs of the files in the cache directory, but for the empty id, each once.
unfoldable pub stored_blob_ids : List Name → List Name
unfolding extract_blob_id_from_filename elem
stored_blob_ids [] = []
stored_blob_ids (f ∷ fs) =
    let id = extract_blob_id_from_filename f in
    let rest = stored_blob_ids fs in
    if name_eq id [] then rest else if elem id rest then rest else id ∷ rest

unfoldable pub unused_of : (used stored : List Name) → List Name
unfolding elem
unused_of used [] = []
unused_of used (id ∷ ids) =
    let rest = unused_of used ids in if elem id used then rest else id ∷ rest

unfoldable pub get_unused_cache_blobs : (underlying_files entries : List Name) → List Name
unfolding used_blob_ids stored_blob_ids unused_of
get_unused_cache_blobs files entries = unused_of (used_blob_ids files) (stored_blob_ids entries)

-- An error for one blob is logged, and the next one is removed.
unfoldable pub remove_blobs : (Name → Option Error) → List Name → List Name → List Name
unfolding remove_blob_cache
remove_blobs refuses [] dir = dir
remove_blobs refuses (id ∷ ids) dir = remove_blobs refuses ids (remove_blob_cache refuses id dir).0
