-- ===== src/Manager/Steps.antt =====
-- Sequences of calls, each of which must succeed or may fail, and what an environment answers.
use nydus_snapshotter.Base.{◌≡◌, refl, sym, ap, ◌∙◌, List, [], ◌∷◌, ◌++◌, Result, ok, err}

-- An error of a call that may fail is only logged.
pub data Step (C : Type 0) : Type 0 where
  must may : C → Step C

abbrev pub call_of : {C : Type 0} → Step C → C
call_of (must c) = c
call_of (may c) = c

abbrev pub calls_of : {C : Type 0} → List (Step C) → List C
calls_of [] = []
calls_of (x ∷ xs) = call_of x ∷ calls_of xs

module _ {C : Type 0} (a : List C → C → Result (Unit {0})) where
  -- Whether the sequence goes on after the answer.
  abbrev pub answered : Step C → Result (Unit {0}) → Result (Unit {0})
  answered (must c) r = r
  answered (may c) r = ok tt

  abbrev pub going_on :
      (List C → List C × Result (Unit {0}))
      → List C
      → Result (Unit {0})
      → List C × Result (Unit {0})
  going_on k w (ok u) = k w
  going_on k w (err e) = (w, err e)

  -- In order, up to the first that must succeed and does not.
  unfoldable pub run_steps : List (Step C) → List C → List C × Result (Unit {0})
  run_steps [] w = (w, ok tt)
  run_steps (x ∷ xs) w =
      going_on (run_steps xs) (w ++ call_of x ∷ []) (answered x (a w (call_of x)))

  -- All of the steps, or those up to one that failed.
  abbrev pub Ran : List (Step C) → (before : List C) → List C × Result (Unit {0}) → Type 0
  Ran xs before (w, ok u) = w ≡ before ++ calls_of xs
  Ran xs before (w, err e) =
      (past : List (Step C)) × (c : C) × (rest : List (Step C)) × (xs ≡ past ++ must c ∷ rest)
      × (w ≡ before ++ calls_of past ++ c ∷ [])
      × (a (before ++ calls_of past) c ≡ err e)

pub append_nil : {A : Type 0} (xs : List A) → xs ++ [] ≡ xs
append_nil [] = refl
append_nil (x ∷ xs) = ap (◌∷◌ x) (append_nil xs)

pub append_assoc : {A : Type 0} (xs ys zs : List A) → xs ++ ys ++ zs ≡ xs ++ (ys ++ zs)
append_assoc [] ys zs = refl
append_assoc (x ∷ xs) ys zs = ap (◌∷◌ x) (append_assoc xs ys zs)

module _ {C : Type 0} (a : List C → C → Result (Unit {0})) where
  Ran-cons :
      (x : Step C) (xs : List (Step C)) (before : List C) (r : List C × Result (Unit {0}))
      → Ran a xs (before ++ call_of x ∷ []) r
      → Ran a (x ∷ xs) before r
  Ran-cons x xs before (w, ok u) h = h ∙ append_assoc before (call_of x ∷ []) (calls_of xs)
  Ran-cons x xs before (w, err e) (past, c, rest, split, made, answer) = (
    x ∷ past,
    c,
    rest,
    ap (◌∷◌ x) split,
    made ∙ ap (λ v. v ++ c ∷ []) (append_assoc before (call_of x ∷ []) (calls_of past)),
    ap (λ v. a v c) (sym (append_assoc before (call_of x ∷ []) (calls_of past))) ∙ answer,
  )

  pub run_steps-Ran :
      (xs : List (Step C)) (before : List C) → Ran a xs before (run_steps a xs before)
  unfolding run_steps
  run_steps-Ran [] before = sym (append_nil before)
  run_steps-Ran (x ∷ xs) before =
      by_answer x (a before (call_of x)) refl (run_steps-Ran xs (before ++ call_of x ∷ []))
    where
      by_answer :
          (y : Step C) (r : Result (Unit {0}))
          → a before (call_of y) ≡ r
          → Ran a xs (before ++ call_of y ∷ []) (run_steps a xs (before ++ call_of y ∷ []))
          → Ran a
              (y ∷ xs)
              before
              (going_on a (run_steps a xs) (before ++ call_of y ∷ []) (answered a y r))
      by_answer (must c) (ok u) e h =
          Ran-cons (must c) xs before (run_steps a xs (before ++ c ∷ [])) h
      by_answer (must c) (err x) e h = (
        [],
        c,
        xs,
        refl,
        ap (λ v. v ++ c ∷ []) (sym (append_nil before)),
        ap (λ v. a v c) (append_nil before) ∙ e,
      )
      by_answer (may c) (ok u) e h =
          Ran-cons (may c) xs before (run_steps a xs (before ++ c ∷ [])) h
      by_answer (may c) (err x) e h =
          Ran-cons (may c) xs before (run_steps a xs (before ++ c ∷ [])) h
