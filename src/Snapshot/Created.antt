-- ===== src/Snapshot/Created.antt =====
-- The directories after `createSnapshot`.
use nydus_snapshotter.Base.{
  ◌≡◌, refl, sym, ap, ◌∙◌, ◌==◌, eq_iff, String, Bool, true, false, List, [], ◌∷◌, ◌&&◌, Error,
  Result, ok, err, if◌then◌else◌, arith,
}
use mathlib.Core.Path.{subst}
use nydus_snapshotter.Snapshot.Create.{
  Disk, Attempt, Prepared, no_path, path, prepare_directory, Placeholder, Run, made, without,
  temp_cleaned, final_cleaned, moved, committed, renamed, chowned, created, prepared, with_options,
  attempt_with, attempt, recover_parent_from_containerd, retried, on_missing, create_snapshot,
}

unfoldable pub holds_id : String → List String → Bool
holds_id id [] = false
holds_id id (x ∷ xs) = let rest = holds_id id xs in if x == id then true else rest

without_absent : (id : String) (xs : List String) → holds_id id xs ≡ false → without id xs ≡ xs
unfolding without holds_id
without_absent id [] h = refl
without_absent id (x ∷ xs) h = ground (arith, h, without_absent id xs)

without_first :
    (id : String) (xs : List String) → holds_id id xs ≡ false → without id (id ∷ xs) ≡ xs
unfolding without
without_first id xs h = ground (arith, eq_iff id id, without_absent id xs h)

-- A success adds the directory of the new snapshot and nothing else; an error leaves all as it was.
abbrev pub Tidy : Disk → Run String → Type 0
Tidy d (d', ok id) = d' ≡ record d { finals = id ∷ d.finals }
Tidy d (d', err e) = d' ≡ d

-- The store gives an id that no directory has.
abbrev pub IsNewId : Disk → Result String → Type 0
IsNewId d (ok id) = holds_id id d.finals ≡ false
IsNewId d (err e) = Unit

module _ (a : Attempt) (d : Disk) (temp : a.clean_temp ≡ ok tt)
    (final : a.clean_final ≡ ok tt) where
  renamed-Tidy :
      (id : String) (r : Result (Unit {0}))
      → holds_id id d.finals ≡ false
      → Tidy d (renamed a id (made d) r)
  unfolding renamed committed final_cleaned
  renamed-Tidy id (ok u) new = by_commit a.commit
    where
      by_commit : (r : Result (Unit {0})) → Tidy d (committed a id (moved id (made d)) r)
      by_commit (ok v) = refl
      by_commit (err e) =
          ap (λ c. final_cleaned c id (moved id (made d))) final
          ∙ ap (λ v. record d { finals = v }) (without_first id d.finals new)
  renamed-Tidy id (err e) new =
      ap (λ c. final_cleaned a.clean_final id (temp_cleaned c (made d))) temp
      ∙ ap (λ c. final_cleaned c id d) final
      ∙ ap (λ v. record d { finals = v }) (without_absent id d.finals new)

  chowned-Tidy :
      (id : String) (r : Result (Unit {0}))
      → holds_id id d.finals ≡ false
      → Tidy d (chowned a id (made d) r)
  unfolding chowned
  chowned-Tidy id (ok u) new = renamed-Tidy id a.rename new
  chowned-Tidy id (err e) new = ap (λ c. temp_cleaned c (made d)) temp

  attempt-Tidy :
      (is_active : Bool) (on_error : Error → Disk → Run String)
      → ((e : Error) → Tidy d (on_error e d))
      → IsNewId d a.create
      → Tidy d (attempt a is_active on_error d)
  unfolding attempt attempt_with with_options prepared created
  attempt-Tidy is_active on_error failing new = by_begin a.begin
    where
      by_create : (r : Result String) → IsNewId d r → Tidy d (created a on_error (made d) r)
      by_create (ok id) new = chowned-Tidy id a.chown new
      by_create (err e) new =
          subst (λ c. Tidy d (on_error e (temp_cleaned c (made d)))) (sym temp) (failing e)

      by_prepare : (r : Prepared) → Tidy d (prepared a on_error d r)
      by_prepare (path (ok u)) = by_create a.create new
      by_prepare (path (err e)) = ap (λ c. temp_cleaned c (made d)) temp
      by_prepare (no_path e) = refl

      by_options : (o : Result (Unit {0})) → Tidy d (with_options a is_active on_error d o)
      by_options (ok u) = by_prepare (prepare_directory is_active a.making)
      by_options (err e) = refl

      by_begin : (b : Result (Unit {0})) → Tidy d (attempt_with a is_active on_error d b)
      by_begin (ok u) = by_options a.options
      by_begin (err e) = refl

-- Outside proxy mode, where the removals of directories succeed and the store gives a new id:
-- however the steps end, making the temporary directory and what is in it included, a success of `createSnapshot` adds the new snapshot's directory and nothing
-- else, and an error leaves the directories, temporary ones included, as they were.
pub create_snapshot_lem :
    (is_active has_parent : Bool) (is_missing : Error → Bool) (p : Placeholder) (a b : Attempt)
    (d : Disk)
    → a.clean_temp ≡ ok tt
    → a.clean_final ≡ ok tt
    → IsNewId d a.create
    → Tidy d (create_snapshot is_active false has_parent is_missing p a b d)
unfolding create_snapshot on_missing recover_parent_from_containerd
create_snapshot_lem is_active has_parent is_missing p a b d temp final new =
    attempt-Tidy a d temp final is_active (on_missing is_active false has_parent is_missing p b)
      failing new
  where
    by_test :
        (t : Bool) (e : Error)
        → Tidy d (
            if t
            then retried is_active b e (recover_parent_from_containerd false p d)
            else (d, err e))
    by_test true e = refl
    by_test false e = refl

    failing : (e : Error) → Tidy d (on_missing is_active false has_parent is_missing p b e d)
    failing e = by_test (has_parent && is_missing e) e
