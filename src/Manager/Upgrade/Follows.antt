-- ===== src/Manager/Upgrade/Follows.antt =====
-- Runs of the calls of `DoDaemonUpgrade` against a plan.
use nydus_snapshotter.Base.{◌≡◌, refl, sym, ap, ◌∙◌, List, [], ◌∷◌, ◌++◌, Result, ok, err}
use nydus_snapshotter.Daemon.{Daemon}
use nydus_snapshotter.Manager.Steps.{append_nil, append_assoc}
use nydus_snapshotter.Manager.Upgrade.{Call, World, Act, next, Answers}

-- Each of the calls succeeds, after those before it.
unfoldable pub Succeed : Answers → (before : List Call) → List Call → Type 0
Succeed a before [] = Unit
Succeed a before (c ∷ cs) = (a before c ≡ ok tt) × Succeed a (before ++ c ∷ []) cs

-- All calls of the plan are made and succeed; or those up to one that fails, which is the last.
abbrev pub Follows :
    Answers
    → (plan : List Call) → Daemon
    → (before : List Call) → World × Result (Unit {0})
    → Type 0
Follows a plan out before (w, ok u) =
    (w.calls ≡ before ++ plan) × Succeed a before plan × (w.daemon ≡ out)
Follows a plan out before (w, err e) =
    (past : List Call) × (c : Call) × (rest : List Call) × (plan ≡ past ++ c ∷ rest)
    × (w.calls ≡ before ++ past ++ c ∷ [])
    × Succeed a before past
    × (a (before ++ past) c ≡ err e)

cons-Follows :
    (a : Answers) (c : Call) (plan : List Call) (out : Daemon) (before : List Call)
    (r : World × Result (Unit {0}))
    → a before c ≡ ok tt
    → Follows a plan out (before ++ c ∷ []) r
    → Follows a (c ∷ plan) out before r
unfolding Succeed
cons-Follows a c plan out before (w, ok u) h (made, fine, d) =
    (made ∙ append_assoc before (c ∷ []) plan, (h, fine), d)
cons-Follows a c plan out before (w, err e) h (past, x, rest, split, made, fine, failing) = (
  c ∷ past,
  x,
  rest,
  ap (◌∷◌ c) split,
  made ∙ ap (λ v. v ++ x ∷ []) (append_assoc before (c ∷ []) past),
  (h, fine),
  ap (λ v. a v x) (sym (append_assoc before (c ∷ []) past)) ∙ failing,
)

-- A call and what follows.
pub next-Follows :
    (a : Answers) (c : Call) (plan : List Call) (out : Daemon) (before : List Call) (w : World)
    (r : Result (Unit {0})) (k : Act)
    → a before c ≡ r
    → w.calls ≡ before ++ c ∷ []
    → Follows a plan out (before ++ c ∷ []) (k w)
    → Follows a (c ∷ plan) out before (next k (w, r))
unfolding Succeed
next-Follows a c plan out before w (ok u) k h made f = cons-Follows a c plan out before (k w) h f
next-Follows a c plan out before w (err e) k h made f = (
  [],
  c,
  plan,
  refl,
  made ∙ ap (λ v. v ++ c ∷ []) (sym (append_nil before)),
  tt,
  ap (λ v. a v c) (append_nil before) ∙ h,
)

pub last-Follows :
    (a : Answers) (c : Call) (before : List Call) (w : World) (r : Result (Unit {0}))
    → a before c ≡ r
    → w.calls ≡ before ++ c ∷ []
    → Follows a (c ∷ []) w.daemon before (w, r)
unfolding Succeed
last-Follows a c before w (ok u) h made = (made, (h, tt), refl)
last-Follows a c before w (err e) h made = (
  [],
  c,
  [],
  refl,
  made ∙ ap (λ v. v ++ c ∷ []) (sym (append_nil before)),
  tt,
  ap (λ v. a v c) (append_nil before) ∙ h,
)
