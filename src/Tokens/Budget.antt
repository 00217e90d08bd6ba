-- ===== src/Tokens/Budget.antt =====
-- The launch check of pi/extensions/classified-workflows/token-cap.ts.
use native.Mathlib.Nat.{le-div_iff_mul-le}
use metagenda.Base.{
  ℕ, ◌*◌, ◌/◌, ◌≤◌, ◌<◌, ◌≡◌, ◌↔◌, refl, inl, inr, true, ltb, leb, succeed, fail, arith, Bool-cases,
}
use metagenda.Base.Int.{pos}
use metagenda.Base.Value.{int, max_safe_integer}
use metagenda.Tokens.Cap.{
  min_executable_workflow_child_tokens, assert_executable_workflow_budget, too_small,
}

-- A workflow may launch exactly when its budget gives every agent the smallest executable allocation.
pub assert_executable_workflow_budget-eq-succeed_iff :
    (budget agents : ℕ)
    → 0 < agents
    → 0 < budget
    → agents ≤ max_safe_integer
    → budget ≤ max_safe_integer
    → (assert_executable_workflow_budget (int (pos budget)) (int (pos agents)) ≡ succeed tt)
      ↔ (min_executable_workflow_child_tokens * agents ≤ budget)
unfolding assert_executable_workflow_budget
assert_executable_workflow_budget-eq-succeed_iff budget agents a b c d =
    let share =
      le-div_iff_mul-le {k = agents} {x = min_executable_workflow_child_tokens} {y = budget} a in
    let a1 : leb 1 agents ≡ true = ground arith in
    let b1 : leb 1 budget ≡ true = ground arith in
    let c1 : leb agents max_safe_integer ≡ true = ground arith in
    let d1 : leb budget max_safe_integer ≡ true = ground arith in
    elim (Bool-cases (ltb (budget / agents) min_executable_workflow_child_tokens)) [
      | inl t ↦
          let refused : assert_executable_workflow_budget (int (pos budget)) (int (pos agents))
              ≡ fail (too_small (budget / agents) agents) =
            rw (a1, b1, c1, d1, t) refl in
          (λ e. absurd (cc), λ h. absurd (let q = share.1 h in ground arith))
      | inr t ↦ (λ e. share.0 (ground arith), λ h. rw (a1, b1, c1, d1, t) refl)
    ]
