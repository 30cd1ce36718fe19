-- ===== src/Overlayfs/Resolved.antt =====
-- The shortened options of cmd/nydus-overlayfs/main.go, resolved in a directory above all paths.
use nydus_snapshotter.Base.{
  ◌≡◌, refl, sym, ap, ◌∙◌, Bool, true, false, Option, none, some, List, [], ◌∷◌, ◌++◌, map,
  if◌then◌else◌, leb, arith, All, length, ◌=ℕ=◌,
}
use mathlib.Core.Option.{some-injective}
use nydus_snapshotter.Overlayfs.{
  Bytes, MountOption, lowerdir, upperdir, workdir, other, nydus_option, drop, shortened, consed,
  shortened_all, mapped, rebuilt, slash,
}

pub some_eq : {A : Type 0} {a b : A} → some a ≡ some b → a ≡ b
some_eq {a} {b} p = some-injective a b p

pub never : {A B : Type 0} {v : A} → none ≡ some v → B
never h = absurd (ground (arith, h))

abbrev pub is_absolute : Bytes → Bool
is_absolute [] = false
is_absolute (c ∷ cs) = c =ℕ= slash

-- A path as the kernel resolves it in a directory: an absolute one stays as it is.
abbrev pub resolve : Bytes → Bytes → Bytes
resolve dir q = if is_absolute q then q else dir ++ q

-- The path is the directory and a relative path after it.
abbrev pub IsBelow : Bytes → Bytes → Type 0
IsBelow dir p = (rest : Bytes) × (p ≡ dir ++ rest) × (is_absolute rest ≡ false)

-- The paths as the kernel resolves them in the directory: of the first `lowerdir=`, and of all
-- `upperdir=` and `workdir=`.
unfoldable pub resolved : Bytes → (seen : Bool) → List MountOption → List MountOption
resolved dir seen [] = []
resolved dir false (lowerdir ds ∷ os) = lowerdir (map (resolve dir) ds) ∷ resolved dir true os
resolved dir true (lowerdir ds ∷ os) = lowerdir ds ∷ resolved dir true os
resolved dir seen (upperdir p ∷ os) = upperdir (resolve dir p) ∷ resolved dir seen os
resolved dir seen (workdir p ∷ os) = workdir (resolve dir p) ∷ resolved dir seen os
resolved dir seen (other p ∷ os) = other p ∷ resolved dir seen os
resolved dir seen (nydus_option p ∷ os) = nydus_option p ∷ resolved dir seen os

drop-append : (xs ys : Bytes) → drop (length xs) (xs ++ ys) ≡ ys
drop-append [] ys = refl
drop-append (x ∷ xs) ys = drop-append xs ys

-- A shortened path leads to the path.
shortened_lem : (dir p q : Bytes) → IsBelow dir p → shortened dir p ≡ some q → resolve dir q ≡ p
unfolding shortened
shortened_lem dir p q (rest, e, relative) h = by_length (leb (length p) (length dir)) h
  where
    by_length :
        (b : Bool) → (if b then none else some (drop (length dir) p)) ≡ some q → resolve dir q ≡ p
    by_length true k = ground (arith, k)
    by_length false k =
        ap (resolve dir) (back k) ∙ ap (λ b. if b then rest else dir ++ rest) relative ∙ sym e
      where
        back : some (drop (length dir) p) ≡ some q → q ≡ rest
        back l = sym (some_eq l) ∙ ap (drop (length dir)) e ∙ drop-append dir rest

consed_inverse :
    {A : Type 0} (o : Option A) (r : Option (List A)) (v : List A)
    → consed o r ≡ some v
    → (x : A) × (xs : List A) × (o ≡ some x) × (r ≡ some xs) × (v ≡ x ∷ xs)
consed_inverse none r v h = never h
consed_inverse (some x) none v h = never h
consed_inverse (some x) (some xs) v h = (x, xs, refl, refl, sym (some_eq h))

mapped_inverse :
    {A B : Type 0} (f : A → B) (o : Option A) (v : B)
    → mapped f o ≡ some v
    → (x : A) × (o ≡ some x) × (v ≡ f x)
mapped_inverse f none v h = never h
mapped_inverse f (some x) v h = (x, refl, sym (some_eq h))

shortened_all_lem :
    (dir : Bytes) (ps qs : List Bytes)
    → All (IsBelow dir) ps
    → shortened_all dir ps ≡ some qs
    → map (resolve dir) qs ≡ ps
unfolding shortened_all
shortened_all_lem dir [] qs f h = ap (map (resolve dir)) (sym (some_eq h))
shortened_all_lem dir (p ∷ ps) qs (f, fs) h =
    by_parts (consed_inverse (shortened dir p) (shortened_all dir ps) qs h)
      (λ xs. shortened_all_lem dir ps xs fs)
  where
    by_parts :
        (x : Bytes) × (xs : List Bytes) × (shortened dir p ≡ some x)
          × (shortened_all dir ps ≡ some xs)
          × (qs ≡ x ∷ xs)
        → ((xs : List Bytes) → shortened_all dir ps ≡ some xs → map (resolve dir) xs ≡ ps)
        → map (resolve dir) qs ≡ p ∷ ps
    by_parts (x, xs, a, b, c) ih =
        ap (map (resolve dir)) c
        ∙ ap (λ v. v ∷ map (resolve dir) xs) (shortened_lem dir p x f a)
        ∙ ap (◌∷◌ p) (ih xs b)

-- The directory is a prefix of each path that is shortened.
abbrev pub PathsFit : Bytes → (seen : Bool) → List MountOption → Type 0
PathsFit dir seen [] = Unit
PathsFit dir false (lowerdir ds ∷ os) = All (IsBelow dir) ds × PathsFit dir true os
PathsFit dir true (lowerdir ds ∷ os) = PathsFit dir true os
PathsFit dir seen (upperdir p ∷ os) = IsBelow dir p × PathsFit dir seen os
PathsFit dir seen (workdir p ∷ os) = IsBelow dir p × PathsFit dir seen os
PathsFit dir seen (other p ∷ os) = PathsFit dir seen os
PathsFit dir seen (nydus_option p ∷ os) = PathsFit dir seen os

-- One option and the rest.
consed-resolved :
    (dir : Bytes) (seen after : Bool) (o : Option MountOption) (r : Option (List MountOption))
    (out : MountOption) (os v : List MountOption)
    → consed o r ≡ some v
    → ((x : MountOption)
        → o ≡ some x
        → (xs : List MountOption) → resolved dir seen (x ∷ xs) ≡ out ∷ resolved dir after xs)
    → ((xs : List MountOption) → r ≡ some xs → resolved dir after xs ≡ os)
    → resolved dir seen v ≡ out ∷ os
consed-resolved dir seen after o r out os v h first others =
    let (x, xs, a, b, c) = consed_inverse o r v h in
    ap (resolved dir seen) c ∙ first x a xs ∙ ap (◌∷◌ out) (others xs b)

pub rebuilt_lem :
    (dir : Bytes) (seen : Bool) (os v : List MountOption)
    → PathsFit dir seen os
    → rebuilt dir seen os ≡ some v
    → resolved dir seen v ≡ os
unfolding rebuilt resolved
rebuilt_lem dir seen [] v f h = ap (resolved dir seen) (sym (some_eq h))
rebuilt_lem dir false (lowerdir ds ∷ os) v (f, fs) h =
    consed-resolved dir false true (mapped lowerdir (shortened_all dir ds)) (rebuilt dir true os)
      (lowerdir ds) os v h
      (λ x e xs.
        let (qs, a, b) = mapped_inverse lowerdir (shortened_all dir ds) x e in
        ap (λ y. resolved dir false (y ∷ xs)) b
        ∙ ap (λ y. lowerdir y ∷ resolved dir true xs) (shortened_all_lem dir ds qs f a))
      (λ xs e. rebuilt_lem dir true os xs fs e)
rebuilt_lem dir true (lowerdir ds ∷ os) v f h =
    consed-resolved dir true true (some (lowerdir ds)) (rebuilt dir true os) (lowerdir ds) os v h
      (λ x e xs. ap (λ y. resolved dir true (y ∷ xs)) (sym (some_eq e)))
      (λ xs e. rebuilt_lem dir true os xs f e)
rebuilt_lem dir false (upperdir p ∷ os) v (f, fs) h =
    consed-resolved dir false false (mapped upperdir (shortened dir p)) (rebuilt dir false os)
      (upperdir p) os v h
      (λ x e xs.
        let (q, a, b) = mapped_inverse upperdir (shortened dir p) x e in
        ap (λ y. resolved dir false (y ∷ xs)) b
        ∙ ap (λ y. upperdir y ∷ resolved dir false xs) (shortened_lem dir p q f a))
      (λ xs e. rebuilt_lem dir false os xs fs e)
rebuilt_lem dir false (workdir p ∷ os) v (f, fs) h =
    consed-resolved dir false false (mapped workdir (shortened dir p)) (rebuilt dir false os)
      (workdir p) os v h
      (λ x e xs.
        let (q, a, b) = mapped_inverse workdir (shortened dir p) x e in
        ap (λ y. resolved dir false (y ∷ xs)) b
        ∙ ap (λ y. workdir y ∷ resolved dir false xs) (shortened_lem dir p q f a))
      (λ xs e. rebuilt_lem dir false os xs fs e)
rebuilt_lem dir false (other p ∷ os) v f h =
    consed-resolved dir false false (some (other p)) (rebuilt dir false os) (other p) os v h
      (λ x e xs. ap (λ y. resolved dir false (y ∷ xs)) (sym (some_eq e)))
      (λ xs e. rebuilt_lem dir false os xs f e)
rebuilt_lem dir false (nydus_option p ∷ os) v f h =
    consed-resolved dir false false (some (nydus_option p)) (rebuilt dir false os) (nydus_option p)
      os v h (λ x e xs. ap (λ y. resolved dir false (y ∷ xs)) (sym (some_eq e)))
      (λ xs e. rebuilt_lem dir false os xs f e)
rebuilt_lem dir true (upperdir p ∷ os) v (f, fs) h =
    consed-resolved dir true true (mapped upperdir (shortened dir p)) (rebuilt dir true os)
      (upperdir p) os v h
      (λ x e xs.
        let (q, a, b) = mapped_inverse upperdir (shortened dir p) x e in
        ap (λ y. resolved dir true (y ∷ xs)) b
        ∙ ap (λ y. upperdir y ∷ resolved dir true xs) (shortened_lem dir p q f a))
      (λ xs e. rebuilt_lem dir true os xs fs e)
rebuilt_lem dir true (workdir p ∷ os) v (f, fs) h =
    consed-resolved dir true true (mapped workdir (shortened dir p)) (rebuilt dir true os)
      (workdir p) os v h
      (λ x e xs.
        let (q, a, b) = mapped_inverse workdir (shortened dir p) x e in
        ap (λ y. resolved dir true (y ∷ xs)) b
        ∙ ap (λ y. workdir y ∷ resolved dir true xs) (shortened_lem dir p q f a))
      (λ xs e. rebuilt_lem dir true os xs fs e)
rebuilt_lem dir true (other p ∷ os) v f h =
    consed-resolved dir true true (some (other p)) (rebuilt dir true os) (other p) os v h
      (λ x e xs. ap (λ y. resolved dir true (y ∷ xs)) (sym (some_eq e)))
      (λ xs e. rebuilt_lem dir true os xs f e)
rebuilt_lem dir true (nydus_option p ∷ os) v f h =
    consed-resolved dir true true (some (nydus_option p)) (rebuilt dir true os) (nydus_option p) os
      v h (λ x e xs. ap (λ y. resolved dir true (y ∷ xs)) (sym (some_eq e)))
      (λ xs e. rebuilt_lem dir true os xs f e)
