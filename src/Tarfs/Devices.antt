-- ===== src/Tarfs/Devices.antt =====
-- pkg/tarfs/tarfs.go: `UmountTarErofs` and `DetachLayer`, with the calls of the kernel recorded and
-- answered; an answer is the path of the device where one is attached.
use nydus_snapshotter.Base.{
  ◌≡◌, String, Option, none, some, List, [], ◌∷◌, ◌++◌, Result, ok, err, not_found,
}
use nydus_snapshotter.Base.Dict.{lookup, insert, remove}
use nydus_snapshotter.Tarfs.{Layer, State, no_snapshot}

pub data Call : Type 0 where
  unmount detach_device attach_device make_dir : String → Call
  mount_erofs : (device mount_point options : String) → Call

abbrev pub Answers : Type 0
Answers = List Call → Call → Result String

-- The calls made, and the layer.
abbrev pub Freeing : Type 0
Freeing = (List Call × Layer) × Result (Unit {0})

abbrev pub then_free : (List Call → Layer → Freeing) → Freeing → Freeing
then_free k ((w, l), ok u) = k w l
then_free k ((w, l), err e) = ((w, l), err e)

-- The answer decides whether the layer gives the resource up.
abbrev pub settled : List Call → Layer → Layer → Result String → Freeing
settled w freed kept (ok s) = ((w, freed), ok tt)
settled w freed kept (err e) = ((w, kept), err e)

module _ (a : Answers) where
  -- Gives up one resource, if it is held.
  abbrev pub drop_one :
      (String → Call) → (Layer → Layer) → Option String → List Call → Layer → Freeing
  drop_one c clear none w l = ((w, l), ok tt)
  drop_one c clear (some x) w l = settled (w ++ c x ∷ []) (clear l) l (a w (c x))

  unfoldable pub drop_mount : List Call → Layer → Freeing
  drop_mount w l = drop_one unmount (λ l. record l { mount_point = none }) l.mount_point w l

  unfoldable pub drop_meta : List Call → Layer → Freeing
  drop_meta w l = drop_one detach_device (λ l. record l { meta_device = none }) l.meta_device w l

  unfoldable pub drop_data : List Call → Layer → Freeing
  drop_data w l = drop_one detach_device (λ l. record l { data_device = none }) l.data_device w l

  abbrev pub freed_all : List Call → Layer → Freeing
  freed_all w l = ((w, l), ok tt)

  unfoldable pub after_meta : List Call → Layer → Freeing
  unfolding drop_data
  after_meta w l = then_free freed_all (drop_data w l)

  unfoldable pub after_mount : List Call → Layer → Freeing
  unfolding drop_meta after_meta
  after_mount w l = then_free after_meta (drop_meta w l)

  -- One after another, up to the first that fails.
  unfoldable pub drop_all : List Call → Layer → Freeing
  unfolding drop_mount after_mount
  drop_all w l = then_free after_mount (drop_mount w l)

abbrev pub stored : String → Layer → State → State
stored id l s = record s { layers = insert id l s.layers }

abbrev pub Outcome : Type 0
Outcome = (List Call × State) × Result (Unit {0})

abbrev pub kept : String → State → Freeing → Outcome
kept id s ((w, l), r) = ((w, stored id l s), r)

abbrev pub detached : String → State → Freeing → Outcome
detached id s ((w, l), ok u) = ((w, record s { layers = remove id s.layers }), ok tt)
detached id s ((w, l), err e) = ((w, stored id l s), err e)

unfoldable pub umount_found : Answers → String → State → Option Layer → Outcome
unfolding drop_mount
umount_found a id s none = (([], s), err no_snapshot)
umount_found a id s (some l) = kept id s (drop_mount a [] l)

unfoldable pub umount_tar_erofs : Answers → String → State → Outcome
unfolding umount_found
umount_tar_erofs a id s = umount_found a id s (lookup id s.layers)

unfoldable pub detach_found : Answers → String → State → Option Layer → Outcome
unfolding drop_all
detach_found a id s none = (([], s), err not_found)
detach_found a id s (some l) = detached id s (drop_all a [] l)

-- Cancelling the context of the task stops nothing that is modelled.
unfoldable pub detach_layer : Answers → String → State → Outcome
unfolding detach_found
detach_layer a id s = detach_found a id s (lookup id s.layers)

abbrev pub holding : (String → Call) → Option String → List Call
holding c none = []
holding c (some x) = c x ∷ []

-- The calls that free what the layer holds, in the order of `DetachLayer`.
unfoldable pub held : Layer → List Call
held l =
    holding unmount l.mount_point
    ++ holding detach_device l.meta_device
    ++ holding detach_device l.data_device

-- From a layer that held `hs` and the calls `w`: all of it is given up, or what comes before the
-- first call that fails.
abbrev pub Freed : Answers → (w hs : List Call) → Freeing → Type 0
Freed a w hs ((w', l), ok u) = (w' ≡ w ++ hs) × (held l ≡ [])
Freed a w hs ((w', l), err e) =
    (past : List Call) × (c : Call) × (rest : List Call) × (hs ≡ past ++ c ∷ rest)
    × (w' ≡ w ++ past ++ c ∷ [])
    × (a (w ++ past) c ≡ err e)
    × (held l ≡ c ∷ rest)
