-- ===== src/Goal/Evaluation.antt =====
-- `parseGoalEvaluation`, `applyGoalEvaluation`, `restoreGoal` and `taskContinuationMessage` of
-- pi/extensions/classified-workflows/goal.ts. `json_parse` is `JSON.parse`: `none` where it throws.
use metagenda.Base.{
  ℕ, ◌+◌, ◌-◌, Option, none, some, List, [], ◌∷◌, ◌++◌, Bool, true, false, ltb, if◌then◌else◌,
  length, take,
}
use metagenda.Base.Int.{ℤ, pos_part}
use metagenda.Base.Text.{Text, lit, trim, is_empty, decimal, join}
use metagenda.Base.Value.{Value, get_field, as_record, as_bool, as_text, ◌>>=◌}
use metagenda.Goal.Types.{
  GoalFields, achieved, paused, GoalState, active, ended, GoalEvaluation, valid, invalid,
  TodoWorkSnapshot,
}

unfoldable pub read_evaluation : Value → Option (Bool × Text)
read_evaluation value = do
  fields ← as_record value
  met ← as_bool (get_field "met" fields)
  reason ← as_text (get_field "reason" fields)
  some (met, reason)

abbrev pub judged : Option (Bool × Text) → GoalEvaluation
judged none = invalid (lit "Goal evaluator returned an invalid response.")
judged (some (met, reason)) =
    if is_empty (trim reason)
    then invalid (lit "Goal evaluator returned no reason.")
    else valid met (trim reason)

module _ (json_parse : Text → Option Value) where
  unfoldable pub parse_goal_evaluation : Text → GoalEvaluation
  parse_goal_evaluation text = elim (json_parse (trim text)) [
    | none ↦ invalid (lit "Goal evaluator returned invalid JSON.")
    | some value ↦ judged (read_evaluation value)
  ]

-- The first five tasks, and how many more there are.
unfoldable pub visible_tasks : List Text → Text
visible_tasks tasks =
    join (lit "; ") (take 5 tasks)
    ++ (if ltb 5 (length tasks)
        then lit "; plus " ++ decimal (length tasks - 5) ++ lit " more"
        else [])

unfoldable pub task_continuation_message : TodoWorkSnapshot → Option Text
task_continuation_message snapshot =
    if ltb 0 (length snapshot.pending)
    then some (
        lit "The task list is not complete. Continue working without stopping. Pending: "
        ++ visible_tasks snapshot.pending
        ++ lit ".")
    else none

-- What the evaluation decides where no tracked work is left.
unfoldable pub judge : GoalFields → GoalEvaluation → ℕ → GoalState
judge counted (invalid reason) now =
    active counted (some (reason ++ lit " Continuing until a valid check completes."))
judge counted (valid false reason) now = active counted (some reason)
judge counted (valid true reason) now = ended achieved counted now reason

abbrev pub counted : GoalFields → ℤ → GoalFields
counted state usage_tokens = record state {
  turns = state.turns + 1;
  tokens = state.tokens + pos_part usage_tokens;
}

unfoldable pub apply_goal_evaluation : GoalFields → GoalEvaluation → ℤ → ℕ → List Text → GoalState
unfolding judge
apply_goal_evaluation state evaluation usage_tokens now [] =
    judge (counted state usage_tokens) evaluation now
apply_goal_evaluation state evaluation usage_tokens now (t ∷ ts) =
    active (counted state usage_tokens)
      (some (lit "Tracked work remains: " ++ visible_tasks (t ∷ ts) ++ lit "."))

abbrev pub restarted : GoalFields → ℕ → GoalFields
restarted s now = record { condition = s.condition; started_at = now; turns = 0; tokens = 0 }

unfoldable pub restore_goal : GoalState → ℕ → GoalState
restore_goal (active s reason) now = active (restarted s now) none
restore_goal (ended paused s at reason) now =
    active (restarted s now) (some (lit "Restored from paused legacy state: " ++ reason))
restore_goal state now = state
