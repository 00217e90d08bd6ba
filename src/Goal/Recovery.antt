-- ===== src/Goal/Recovery.antt =====
-- Searches of pi/extensions/classified-workflows/goal.ts from the last entry of the session log to
-- the first.
use mathlib.Core.List.{reverse}
use metagenda.Base.{◌≡◌, ap, ◌↔◌, Option, none, some, List, Bool, not, arith, find}
use metagenda.Base.Reverse.{LastOf, find-reverse-LastOf, LastOf-find-reverse}
use metagenda.Base.Text.{Text}
use metagenda.Goal.Types.{GoalFields, GoalState, active, ended}
use metagenda.Goal.Session.{condition_of, active_only, recover_latest_independent_goal}

active_only-some :
    (o : Option GoalState) (s : GoalFields) (r : Option Text)
    → active_only o ≡ some (s, r)
    → o ≡ some (active s r)
active_only-some none s r h = absurd (cc)
active_only-some (some (active t q)) s r h = ground arith
active_only-some (some (ended st t at q)) s r h = absurd (cc)

-- The recovered goal is the last state whose condition is no legacy loop, and only where that state
-- is active: an older active goal is never brought back past a later independent one.
pub recover_latest_independent_goal_iff :
    (states : List GoalState) (is_legacy : Text → Bool) (s : GoalFields) (r : Option Text)
    → (recover_latest_independent_goal states is_legacy ≡ some (s, r))
      ↔ LastOf (λ g. not (is_legacy (condition_of g))) states (active s r)
unfolding recover_latest_independent_goal
recover_latest_independent_goal_iff states is_legacy s r =
    let p : GoalState → Bool = λ g. not (is_legacy (condition_of g)) in
    (
      λ h.
          find-reverse-LastOf p (active s r) states
            (active_only-some (find p (reverse states)) s r h),
      λ l. ap active_only (LastOf-find-reverse p (active s r) states l),
    )
