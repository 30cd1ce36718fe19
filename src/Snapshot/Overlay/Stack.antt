-- ===== src/Snapshot/Overlay/Stack.antt =====
-- What the mounts of the snapshotter let a container write, and the stack of directories that it
-- sees, the uppermost first.
use nydus_snapshotter.Base.{
  ◌≡◌, refl, ap, sym, ◌∙◌, inl, inr, ◌⊎◌, String, Bool, true, false, Option, none, some, List, [],
  ◌∷◌, ◌++◌, map, if◌then◌else◌, Bool-cases, arith,
}
use nydus_snapshotter.Label.{Labels}
use nydus_snapshotter.Snapshot.{
  Snapshot, Kind, kind_view, kind_active, kind_unknown, kind_committed,
}
use nydus_snapshotter.Snapshot.Overlay.{
  Directory, upper_path, MountOption, workdir, upperdir, lowerdir, volatile, rw, ro, rbind, volume,
  bind, Mount, Settings, bind_mount, overlay_mount, nydus_overlay_mount, own_dirs, volatile_options,
  lower_dirs, native_layers, mount_native, with_volumes, is_volatile,
}

unfoldable pub uppers : List MountOption → List Directory
uppers [] = []
uppers (upperdir d ∷ xs) = d ∷ uppers xs
uppers (_ ∷ xs) = uppers xs

unfoldable pub lowers : List MountOption → List Directory
lowers [] = []
lowers (lowerdir ds ∷ xs) = ds ++ lowers xs
lowers (_ ∷ xs) = lowers xs

-- A bind mount is writable unless it is made read-only.
abbrev is_read_only : List MountOption → Bool
is_read_only [] = false
is_read_only (ro ∷ xs) = true
is_read_only (_ ∷ xs) = is_read_only xs

abbrev source_dir : Option Directory → List Directory
source_dir none = []
source_dir (some d) = d ∷ []

-- The directories that are written through a mount.
unfoldable pub written : List Mount → List Directory
unfolding uppers
written [] = []
written (m ∷ ms) =
    (elim m.mount_type [
      | bind ↦ if is_read_only m.options then [] else source_dir m.source
      | _ ↦ uppers m.options
    ])
    ++ written ms

-- The directories that a mount shows, the uppermost first.
unfoldable pub shown : List Mount → List Directory
unfolding uppers lowers
shown [] = []
shown (m ∷ ms) =
    (elim m.mount_type [ bind ↦ source_dir m.source | _ ↦ uppers m.options ++ lowers m.options ])
    ++ shown ms

abbrev pub may_write : Kind → String → List Directory
may_write kind_active id = upper_path id ∷ []
may_write _ id = []

pub append-nil : {A : Type 0} (xs : List A) → (xs ++ []) ≡ xs
append-nil [] = refl
append-nil (x ∷ xs) = ap (◌∷◌ x) (append-nil xs)

pub append_assoc : {A : Type 0} (xs ys zs : List A) → ((xs ++ ys) ++ zs) ≡ (xs ++ (ys ++ zs))
append_assoc [] ys zs = refl
append_assoc (x ∷ xs) ys zs = ap (◌∷◌ x) (append_assoc xs ys zs)

pub uppers-append : (xs ys : List MountOption) → uppers (xs ++ ys) ≡ (uppers xs ++ uppers ys)
unfolding uppers
uppers-append [] ys = refl
uppers-append (upperdir d ∷ xs) ys = ap (◌∷◌ d) (uppers-append xs ys)
uppers-append (workdir d ∷ xs) ys = uppers-append xs ys
uppers-append (lowerdir ds ∷ xs) ys = uppers-append xs ys
uppers-append (volatile ∷ xs) ys = uppers-append xs ys
uppers-append (rw ∷ xs) ys = uppers-append xs ys
uppers-append (ro ∷ xs) ys = uppers-append xs ys
uppers-append (rbind ∷ xs) ys = uppers-append xs ys
uppers-append (volume v ∷ xs) ys = uppers-append xs ys

pub lowers-append : (xs ys : List MountOption) → lowers (xs ++ ys) ≡ (lowers xs ++ lowers ys)
unfolding lowers
lowers-append [] ys = refl
lowers-append (lowerdir ds ∷ xs) ys =
    ap (◌++◌ ds) (lowers-append xs ys) ∙ sym (append_assoc ds (lowers xs) (lowers ys))
lowers-append (upperdir d ∷ xs) ys = lowers-append xs ys
lowers-append (workdir d ∷ xs) ys = lowers-append xs ys
lowers-append (volatile ∷ xs) ys = lowers-append xs ys
lowers-append (rw ∷ xs) ys = lowers-append xs ys
lowers-append (ro ∷ xs) ys = lowers-append xs ys
lowers-append (rbind ∷ xs) ys = lowers-append xs ys
lowers-append (volume v ∷ xs) ys = lowers-append xs ys

uppers-volumes : (vs : List String) → uppers (map volume vs) ≡ []
unfolding uppers
uppers-volumes [] = refl
uppers-volumes (v ∷ vs) = uppers-volumes vs

lowers-volumes : (vs : List String) → lowers (map volume vs) ≡ []
unfolding lowers
lowers-volumes [] = refl
lowers-volumes (v ∷ vs) = lowers-volumes vs

-- A list of mounts that is one overlay over the directories of `options`.
unfoldable pub IsOverlayOf : List MountOption → List Mount → Type 0
IsOverlayOf options ms =
    (written ms ≡ uppers options) × (shown ms ≡ (uppers options ++ lowers options))

pub overlay-IsOverlayOf : (xs : List MountOption) → IsOverlayOf xs (overlay_mount xs)
unfolding IsOverlayOf written shown overlay_mount
overlay-IsOverlayOf xs = (append-nil (uppers xs), append-nil (uppers xs ++ lowers xs))

pub volumes-IsOverlayOf :
    (xs : List MountOption) (vs : List String)
    → IsOverlayOf xs (nydus_overlay_mount (xs ++ map volume vs))
unfolding IsOverlayOf written shown nydus_overlay_mount
volumes-IsOverlayOf xs vs =
    let up =
      uppers-append xs (map volume vs)
      ∙ ap (◌++◌ (uppers xs)) (uppers-volumes vs)
      ∙ append-nil (uppers xs) in
    let low =
      lowers-append xs (map volume vs)
      ∙ ap (◌++◌ (lowers xs)) (lowers-volumes vs)
      ∙ append-nil (lowers xs) in
    (
      append-nil (uppers (xs ++ map volume vs)) ∙ up,
      append-nil (uppers (xs ++ map volume vs) ++ lowers (xs ++ map volume vs))
          ∙ ap (λ u. u ++ lowers (xs ++ map volume vs)) up
          ∙ ap (◌++◌ (uppers xs)) low,
    )

module _ (o : Settings) where
  pub with_volumes-IsOverlayOf :
      (xs : List MountOption) (vs : List String) → IsOverlayOf xs (with_volumes o xs vs)
  unfolding with_volumes
  with_volumes-IsOverlayOf xs [] = overlay-IsOverlayOf xs
  with_volumes-IsOverlayOf xs (v ∷ vs) = volumes-IsOverlayOf xs (v ∷ vs)

  -- What a snapshot shows natively: its own directory if it is active or has no parents, over the
  -- directories of its parents.
  abbrev pub visible : Kind → String → List String → List Directory
  visible kind_active id parents = upper_path id ∷ map upper_path parents
  visible _ id [] = upper_path id ∷ []
  visible _ id (p ∷ ps) = map upper_path (p ∷ ps)

  pub volatile-silent :
      (labels : Labels)
      → (uppers (volatile_options o labels) ≡ []) × (lowers (volatile_options o labels) ≡ [])
  unfolding volatile_options uppers lowers
  volatile-silent labels = elim (Bool-cases (is_volatile o labels)) [
    | inl e ↦ ground (arith, e)
    | inr e ↦ ground (arith, e)
  ]

  active_options : Labels → String → List String → List MountOption
  unfolding volatile_options
  active_options labels id parents =
      (own_dirs id ++ volatile_options o labels) ++ lower_dirs o parents ∷ []

  active_options-uppers :
      (labels : Labels) (id : String) (parents : List String)
      → uppers (active_options labels id parents) ≡ (upper_path id ∷ [])
  unfolding active_options uppers
  active_options-uppers labels id parents = ap (◌∷◌ (upper_path id)) (
      uppers-append (volatile_options o labels) (lower_dirs o parents ∷ [])
      ∙ append-nil (uppers (volatile_options o labels))
      ∙ (volatile-silent labels).0)

  active_options-lowers :
      (labels : Labels) (id : String) (parents : List String)
      → lowers (active_options labels id parents) ≡ map upper_path parents
  unfolding active_options lowers
  active_options-lowers labels id parents =
      lowers-append (volatile_options o labels) (lower_dirs o parents ∷ [])
      ∙ ap (λ u. u ++ (map upper_path parents ++ [])) (volatile-silent labels).1
      ∙ append-nil (map upper_path parents)

  active-native :
      (labels : Labels) (id p : String) (ps : List String)
      → (written (native_layers o labels kind_active id (p ∷ ps)) ≡ (upper_path id ∷ []))
        × (shown (native_layers o labels kind_active id (p ∷ ps))
            ≡ (upper_path id ∷ map upper_path (p ∷ ps)))
  unfolding native_layers IsOverlayOf active_options
  active-native labels id p ps =
      let opts = active_options labels id (p ∷ ps) in
      let (w, s) = overlay-IsOverlayOf opts in
      let up = active_options-uppers labels id (p ∷ ps) in
      (
        w ∙ up,
        s
            ∙ ap (λ u. u ++ lowers opts) up
            ∙ ap (◌∷◌ (upper_path id)) (active_options-lowers labels id (p ∷ ps)),
      )

  snapshot_of : String → Kind → List String → Snapshot
  snapshot_of id kind parents = record { id = id; kind = kind; parent_ids = parents }

  native_cases :
      (labels : Labels) (id : String) (kind : Kind) (parents : List String)
      → (kind ≡ kind_active) ⊎ (kind ≡ kind_view)
      → (written (mount_native o labels (snapshot_of id kind parents)) ≡ may_write kind id)
        × (shown (mount_native o labels (snapshot_of id kind parents)) ≡ visible kind id parents)
  unfolding snapshot_of mount_native native_layers written shown bind_mount overlay_mount uppers
      lowers
  native_cases labels id kind_active [] h = (refl, refl)
  native_cases labels id kind_active (p ∷ ps) h = active-native labels id p ps
  native_cases labels id kind_view [] h = (refl, refl)
  native_cases labels id kind_view (p ∷ []) h = (refl, refl)
  native_cases labels id kind_view (p ∷ q ∷ ps) h = (
    refl,
    append-nil (map upper_path (p ∷ q ∷ ps) ++ []) ∙ append-nil (map upper_path (p ∷ q ∷ ps)),
  )
  native_cases labels id kind_unknown ps h = absurd (ground arith)
  native_cases labels id kind_committed ps h = absurd (ground arith)

  -- The mounts of an active snapshot are written through to its own directory and nowhere else, and
  -- a view's to nothing; what they show is the snapshot's own directory (of an active snapshot, or
  -- of a view without parents) over its parents' directories, in the order of the parents.
  pub mount_native_lem :
      (labels : Labels) (s : Snapshot)
      → (s.kind ≡ kind_active) ⊎ (s.kind ≡ kind_view)
      → (written (mount_native o labels s) ≡ may_write s.kind s.id)
        × (shown (mount_native o labels s) ≡ visible s.kind s.id s.parent_ids)
  unfolding snapshot_of mount_native
  mount_native_lem labels s h = native_cases labels s.id s.kind s.parent_ids h
