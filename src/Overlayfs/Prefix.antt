-- ===== src/Overlayfs/Prefix.antt =====
-- The common prefix of the least and the greatest text is a prefix of all.
use nydus_snapshotter.Base.{
  ◌≡◌, refl, ap, ◌∙◌, Bool, true, false, List, [], ◌∷◌, ◌++◌, if◌then◌else◌, ◌=ℕ=◌, arith, All,
}
use nydus_snapshotter.Overlayfs.{Bytes, less, common, least, greatest, longest_common_prefix}

abbrev pub IsPrefix : Bytes → Bytes → Type 0
IsPrefix p xs = (rest : Bytes) × (xs ≡ p ++ rest)

leq_trans : (xs ys zs : Bytes) → less ys xs ≡ false → less zs ys ≡ false → less zs xs ≡ false
unfolding less
leq_trans [] ys zs h k = refl
leq_trans (x ∷ xs) [] zs h k = ground (arith, h)
leq_trans (x ∷ xs) (y ∷ ys) [] h k = ground (arith, k)
leq_trans (x ∷ xs) (y ∷ ys) (z ∷ zs) h k = ground (arith, h, k, leq_trans xs ys zs)

leq_refl : (xs : Bytes) → less xs xs ≡ false
unfolding less
leq_refl [] = refl
leq_refl (x ∷ xs) = ground (arith, leq_refl xs)

leq_total : (xs ys : Bytes) → less xs ys ≡ true → less ys xs ≡ false
unfolding less
leq_total [] [] h = refl
leq_total (x ∷ xs) [] h = ground (arith, h)
leq_total [] (y ∷ ys) h = refl
leq_total (x ∷ xs) (y ∷ ys) h = ground (arith, h, leq_total xs ys)

between : (xs ys zs : Bytes) → less ys xs ≡ false → less zs ys ≡ false → IsPrefix (common xs zs) ys
unfolding less common
between [] ys zs h k = (ys, refl)
between (x ∷ xs) ys [] h k = (ys, refl)
between (x ∷ xs) [] (z ∷ zs) h k = ground (arith, h)
between (x ∷ xs) (y ∷ ys) (z ∷ zs) h k = by_head (x =ℕ= z) refl (between xs ys zs)
  where
    extended : y ≡ x → IsPrefix (common xs zs) ys → IsPrefix (x ∷ common xs zs) (y ∷ ys)
    extended e (r, p) = (r, ap (λ v. v ∷ ys) e ∙ ap (◌∷◌ x) p)

    by_head :
        (b : Bool)
        → (x =ℕ= z) ≡ b
        → (less ys xs ≡ false → less zs ys ≡ false → IsPrefix (common xs zs) ys)
        → IsPrefix (if b then x ∷ common xs zs else []) (y ∷ ys)
    by_head false e ih = (y ∷ ys, refl)
    by_head true e ih =
        extended (ground (arith, e, h, k)) (ih (ground (arith, e, h, k)) (ground (arith, e, h, k)))

-- The least text is at or below the start and each of the list.
abbrev IsBelow : Bytes → Bytes → List Bytes → Type 0
IsBelow l m xs = (less m l ≡ false) × All (λ x. less x l ≡ false) xs

least-IsBelow : (m : Bytes) (xs : List Bytes) → IsBelow (least m xs) m xs
unfolding least
least-IsBelow m [] = (leq_refl m, tt)
least-IsBelow m (x ∷ xs) = by_less (less x m) refl (λ k. least-IsBelow k xs)
  where
    by_less :
        (b : Bool)
        → less x m ≡ b
        → ((k : Bytes) → IsBelow (least k xs) k xs)
        → IsBelow (least (if b then x else m) xs) m (x ∷ xs)
    by_less true e ih =
        (leq_trans (least x xs) x m (ih x).0 (leq_total x m e), ((ih x).0, (ih x).1))
    by_less false e ih = ((ih m).0, (leq_trans (least m xs) m x (ih m).0 e, (ih m).1))

-- The greatest text is at or above them.
abbrev IsAbove : Bytes → Bytes → List Bytes → Type 0
IsAbove g m xs = (less g m ≡ false) × All (λ x. less g x ≡ false) xs

greatest-IsAbove : (m : Bytes) (xs : List Bytes) → IsAbove (greatest m xs) m xs
unfolding greatest
greatest-IsAbove m [] = (leq_refl m, tt)
greatest-IsAbove m (x ∷ xs) = by_less (less m x) refl (λ k. greatest-IsAbove k xs)
  where
    by_less :
        (b : Bool)
        → less m x ≡ b
        → ((k : Bytes) → IsAbove (greatest k xs) k xs)
        → IsAbove (greatest (if b then x else m) xs) m (x ∷ xs)
    by_less true e ih =
        (leq_trans m x (greatest x xs) (leq_total m x e) (ih x).0, ((ih x).0, (ih x).1))
    by_less false e ih = ((ih m).0, (leq_trans x m (greatest m xs) e (ih m).0, (ih m).1))

All-between :
    (l g : Bytes) (xs : List Bytes)
    → All (λ x. less x l ≡ false) xs
    → All (λ x. less g x ≡ false) xs
    → All (IsPrefix (common l g)) xs
All-between l g [] h k = tt
All-between l g (x ∷ xs) (h, hs) (k, ks) = (between l x g h k, All-between l g xs hs ks)

pub longest_common_prefix_lem :
    (x y : Bytes) (ys : List Bytes)
    → All (IsPrefix (longest_common_prefix (x ∷ y ∷ ys))) (x ∷ y ∷ ys)
unfolding longest_common_prefix
longest_common_prefix_lem x y ys =
    All-between (least x (y ∷ ys)) (greatest x (y ∷ ys)) (x ∷ y ∷ ys) (least-IsBelow x (y ∷ ys))
      (greatest-IsAbove x (y ∷ ys))
