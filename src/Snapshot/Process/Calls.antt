-- ===== src/Snapshot/Process/Calls.antt =====
-- Runs whose calls neither mount a filesystem nor wait for one, and how runs are put together.
use nydus_snapshotter.Base.{
  ◌≡◌, refl, Bool, true, false, List, [], ◌∷◌, ◌++◌, Result, ok, err, arith,
}
use nydus_snapshotter.Snapshot.Process.{Call, mount, wait_until_ready, Act, next, Backend, call}

abbrev pub is_quiet : Call → Bool
is_quiet (mount id labels) = false
is_quiet (wait_until_ready id) = false
is_quiet _ = true

-- No call of the list mounts or waits.
unfoldable pub quiet : List Call → Bool
quiet [] = true
quiet (c ∷ w) = elim (is_quiet c) [ true ↦ quiet w | false ↦ false ]

abbrev pub passes : {A : Type 0} → (A → Bool) → List Call × Result A → Bool
passes f (w, ok a) = f a
passes f (w, err e) = true

-- The run is quiet, and what it gives, if anything, passes the test.
abbrev pub Gives : {A : Type 0} → (A → Bool) → List Call × Result A → Type 0
Gives f r = (quiet r.0 ≡ true) × (passes f r ≡ true)

pub quiet-append :
    (w : List Call) (c : Call) → quiet w ≡ true → is_quiet c ≡ true → quiet (w ++ c ∷ []) ≡ true
unfolding quiet
quiet-append [] c h e = ground (arith, e)
quiet-append (d ∷ w) c h e = ground (arith, quiet-append w c)

pub next-Gives :
    {A B : Type 0} (f : A → Bool) (g : B → Bool) (k : A → Act B) (r : List Call × Result A)
    → Gives f r
    → ((a : A) (w : List Call) → f a ≡ true → quiet w ≡ true → Gives g (k a w))
    → Gives g (next k r)
next-Gives f g k (w, ok a) (q, p) h = h a w p q
next-Gives f g k (w, err e) (q, p) h = (q, refl)

-- A call is answered in any way.
pub call-Gives :
    (b : Backend) (c : Call) (w : List Call)
    → is_quiet c ≡ true
    → quiet w ≡ true
    → Gives (λ _. true) (call b c w)
unfolding call
call-Gives b c w e q = (quiet-append w c q e, any (b.answers w c))
  where
    any : (r : Result (Unit {0})) → passes (λ _. true) (w ++ c ∷ [], r) ≡ true
    any (ok a) = refl
    any (err e) = refl
