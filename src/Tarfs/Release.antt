-- ===== src/Tarfs/Release.antt =====
-- What `DetachLayer` frees, and what a layer still holds after a failure.
use nydus_snapshotter.Base.{
  ◌≡◌, refl, sym, ap, ◌∙◌, String, Option, none, some, List, [], ◌∷◌, ◌++◌, Result, ok, err,
}
use nydus_snapshotter.Base.Dict.{lookup, remove}
use nydus_snapshotter.Snapshot.Overlay.Stack.{append_assoc}
use mathlib.Core.Path.{subst}
use nydus_snapshotter.Tarfs.{Layer, State}
use nydus_snapshotter.Tarfs.Devices.{
  Call, unmount, detach_device, Answers, Freeing, then_free, settled, drop_mount, drop_meta,
  drop_data, freed_all, after_meta, after_mount, drop_all, stored, detached, detach_found,
  detach_layer, Outcome, held, Freed,
}

append_nil : {A : Type 0} (xs : List A) → xs ≡ xs ++ []
append_nil [] = refl
append_nil (x ∷ xs) = ap (◌∷◌ x) (append_nil xs)

Freed-cons :
    (a : Answers) (w : List Call) (c : Call) (hs : List Call) (f : Freeing)
    → Freed a (w ++ c ∷ []) hs f
    → Freed a w (c ∷ hs) f
Freed-cons a w c hs ((w', l), ok u) (e, h) = (e ∙ append_assoc w (c ∷ []) hs, h)
Freed-cons a w c hs ((w', l), err e) (past, d, rest, split, made, answer, left) = (
  c ∷ past,
  d,
  rest,
  ap (◌∷◌ c) split,
  made ∙ ap (λ v. v ++ d ∷ []) (append_assoc w (c ∷ []) past),
  ap (λ v. a v d) (sym (append_assoc w (c ∷ []) past)) ∙ answer,
  left,
)

settled-Freed :
    (a : Answers) (k : List Call → Layer → Freeing) (w : List Call) (c : Call) (rest : List Call)
    (freed kept : Layer) (r : Result String)
    → a w c ≡ r
    → held kept ≡ c ∷ rest
    → Freed a (w ++ c ∷ []) rest (k (w ++ c ∷ []) freed)
    → Freed a w (c ∷ rest) (then_free k (settled (w ++ c ∷ []) freed kept r))
settled-Freed a k w c rest freed kept (ok s) answer left after =
    Freed-cons a w c rest (k (w ++ c ∷ []) freed) after
settled-Freed a k w c rest freed kept (err e) answer left after = (
  [],
  c,
  rest,
  refl,
  ap (λ v. v ++ c ∷ []) (append_nil w),
  ap (λ v. a v c) (sym (append_nil w)) ∙ answer,
  left,
)

-- A layer with these resources.
abbrev with_resources : Layer → (mount meta blob : Option String) → Layer
with_resources l mount meta blob = record l {
  mount_point = mount;
  meta_device = meta;
  data_device = blob;
}

after_meta-Freed :
    (a : Answers) (w : List Call) (l : Layer) (blob : Option String)
    → Freed a w
        (held (with_resources l none none blob))
        (after_meta a w (with_resources l none none blob))
unfolding after_meta drop_data held
after_meta-Freed a w l none = (append_nil w, refl)
after_meta-Freed a w l (some x) =
    settled-Freed a (freed_all a) w (detach_device x) [] (with_resources l none none none)
      (with_resources l none none (some x)) (a w (detach_device x)) refl refl
      (append_nil (w ++ detach_device x ∷ []), refl)

after_mount-Freed :
    (a : Answers) (w : List Call) (l : Layer) (meta blob : Option String)
    → Freed a w
        (held (with_resources l none meta blob))
        (after_mount a w (with_resources l none meta blob))
unfolding after_mount drop_meta held
after_mount-Freed a w l none blob = after_meta-Freed a w l blob
after_mount-Freed a w l (some x) blob =
    settled-Freed a (after_meta a) w (detach_device x) (held (with_resources l none none blob))
      (with_resources l none none blob) (with_resources l none (some x) blob)
      (a w (detach_device x)) refl refl (after_meta-Freed a (w ++ detach_device x ∷ []) l blob)

drop_all-Freed :
    (a : Answers) (w : List Call) (l : Layer) (mount meta blob : Option String)
    → Freed a w
        (held (with_resources l mount meta blob))
        (drop_all a w (with_resources l mount meta blob))
unfolding drop_all drop_mount held
drop_all-Freed a w l none meta blob = after_mount-Freed a w l meta blob
drop_all-Freed a w l (some x) meta blob =
    settled-Freed a (after_mount a) w (unmount x) (held (with_resources l none meta blob))
      (with_resources l none meta blob) (with_resources l (some x) meta blob) (a w (unmount x)) refl
      refl (after_mount-Freed a (w ++ unmount x ∷ []) l meta blob)

-- What a detach of a layer does: gone with all freed, or still there with the rest.
abbrev pub Detaches : Answers → String → State → Layer → Outcome → Type 0
Detaches a id s l ((w, s'), ok u) = (w ≡ held l) × (s' ≡ record s { layers = remove id s.layers })
Detaches a id s l ((w, s'), err e) =
    (past : List Call) × (c : Call) × (rest : List Call) × (left : Layer) × (held l
      ≡ past ++ c ∷ rest)
    × (w ≡ past ++ c ∷ [])
    × (a past c ≡ err e)
    × (s' ≡ stored id left s)
    × (held left ≡ c ∷ rest)

-- Detaching a layer that is there frees what it holds in order (mount, bootstrap device, blob
-- device) and forgets the layer; or it stops at the first call that fails, reports that error and
-- keeps the layer, which then holds exactly what is not freed yet.
pub detach_layer_lem :
    (a : Answers) (id : String) (s : State) (l : Layer)
    → lookup id s.layers ≡ some l
    → Detaches a id s l (detach_layer a id s)
unfolding detach_layer detach_found
detach_layer_lem a id s l found =
    subst (λ o. Detaches a id s l (detach_found a id s o)) (sym found)
      (gone (drop_all a [] l) (drop_all-Freed a [] l l.mount_point l.meta_device l.data_device))
  where
    gone : (f : Freeing) → Freed a [] (held l) f → Detaches a id s l (detached id s f)
    gone ((w, l'), ok u) (made, h) = (made, refl)
    gone ((w, l'), err e) (past, c, rest, split, made, answer, left) =
        (past, c, rest, l', split, made, answer, refl, left)
