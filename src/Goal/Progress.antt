-- ===== src/Goal/Progress.antt =====
-- What an evaluation does to a goal (`applyGoalEvaluation`, `restoreGoal`, `parseGoalCommand` and
-- `parseStoredGoal` of pi/extensions/classified-workflows/goal.ts).
use metagenda.Base.{
  ℕ, ◌≤◌, ◌≡◌, refl, inl, inr, ◌↔◌, Option, none, some, List, [], ◌∷◌, true, false, length, arith,
  Option-cases,
}
use metagenda.Base.Int.{ℤ}
use metagenda.Base.Text.{Text, lit, text_eq, is_empty}
use metagenda.Base.Value.{Value, obj, Fields}
use metagenda.Goal.Types.{
  GoalFields, EndStatus, achieved, cleared, paused, GoalState, active, ended, GoalEvaluation, valid,
  invalid, max_condition_length,
}
use metagenda.Goal.Evaluation.{judge, counted, apply_goal_evaluation}
use metagenda.Goal.Store.{
  parse_fields, end_status, parse_ended, parse_state, parse_stored_goal, stored_goal,
}

judge-ended :
    (s f : GoalFields) (e : GoalEvaluation) (now at : ℕ) (st : EndStatus) (r : Text)
    → judge s e now ≡ ended st f at r
    → (e ≡ valid true r) × (st ≡ achieved) × (at ≡ now) × (f ≡ s)
unfolding judge
judge-ended s f (invalid reason) now at st r h = absurd (cc)
judge-ended s f (valid false reason) now at st r h = absurd (cc)
judge-ended s f (valid true reason) now at st r h =
    (ground arith, ground arith, ground arith, ground arith)

-- An evaluation ends a goal exactly where no tracked task is pending and the evaluator's answer is
-- valid, met and for the stored reason; the goal then is achieved, now, with one more turn and the
-- tokens used (none where the use is negative) counted, and with its condition and its start.
pub apply_goal_evaluation-eq-ended_iff :
    (s f : GoalFields) (e : GoalEvaluation) (u : ℤ) (now at : ℕ) (ts : List Text) (st : EndStatus)
    (r : Text)
    → (apply_goal_evaluation s e u now ts ≡ ended st f at r)
      ↔ ((ts ≡ []) × (e ≡ valid true r) × (st ≡ achieved) × (at ≡ now) × (f ≡ counted s u))
unfolding apply_goal_evaluation judge
apply_goal_evaluation-eq-ended_iff s f e u now at [] st r = (
  λ h. let (a, b, c, d) = judge-ended (counted s u) f e now at st r h in (refl, a, b, c, d),
  λ (_, p, q, m, n). ground arith,
)
apply_goal_evaluation-eq-ended_iff s f e u now at (t ∷ ts) st r = ground arith

abbrev pub fields_of : GoalState → GoalFields
fields_of (active s _) = s
fields_of (ended _ s _ _) = s

-- A goal whose stored form is read back.
pub record IsStorable (s : GoalFields) : Type 0 where
  pub not_empty : is_empty s.condition ≡ false
  pub short : length s.condition ≤ max_condition_length

parse_stored-active :
    (s : GoalFields) (r : Option Text)
    → IsStorable s
    → parse_stored_goal (stored_goal (active s r)) ≡ some (active s r)
unfolding parse_stored_goal parse_fields parse_state text_eq lit
parse_stored-active s none v = ground arith
parse_stored-active s (some t) v = ground arith

parse_stored-ended :
    (st : EndStatus) (s : GoalFields) (at : ℕ) (r : Text)
    → IsStorable s
    → parse_stored_goal (stored_goal (ended st s at r)) ≡ some (ended st s at r)
unfolding parse_stored_goal parse_fields parse_state parse_ended end_status text_eq lit
parse_stored-ended achieved s at r v = ground arith
parse_stored-ended cleared s at r v = ground arith
parse_stored-ended paused s at r v = ground arith

-- A goal with a condition that is not empty and at most 4000 long is read back from its stored form,
-- whatever its status.
pub parse_stored_goal-stored_goal :
    (s : GoalState) → IsStorable (fields_of s) → parse_stored_goal (stored_goal s) ≡ some s
parse_stored_goal-stored_goal (active s r) v = parse_stored-active s r v
parse_stored_goal-stored_goal (ended st s at r) v = parse_stored-ended st s at r v

parse_fields-IsStorable : (fs : Fields) (s : GoalFields) → parse_fields fs ≡ some s → IsStorable s
unfolding parse_fields
parse_fields-IsStorable fs s h = ground arith

parse_ended-fields :
    (fs : Fields) (t : GoalFields) (s : GoalState) → parse_ended fs t ≡ some s → fields_of s ≡ t
unfolding parse_ended
parse_ended-fields fs t s h = ground arith

parse_state-fields :
    (fs : Fields) (t : GoalFields) (s : GoalState) → parse_state fs t ≡ some s → fields_of s ≡ t
unfolding parse_state
parse_state-fields fs t s h = ground (arith, parse_ended-fields fs t s)

-- A goal that is read has a condition that is not empty and at most 4000 long.
pub parse_stored_goal-IsStorable :
    (v : Value) (s : GoalState) → parse_stored_goal v ≡ some s → IsStorable (fields_of s)
unfolding parse_stored_goal
parse_stored_goal-IsStorable (obj fs) s h = elim (Option-cases (parse_fields fs)) [
  | inl e ↦ absurd (ground arith)
  | inr (t, e) ↦
      let same : fields_of s ≡ t = parse_state-fields fs t s (ground arith) in
      rw same (parse_fields-IsStorable fs t e)
]
parse_stored_goal-IsStorable _ s h = absurd (cc)
