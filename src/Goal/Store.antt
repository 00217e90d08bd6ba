-- ===== src/Goal/Store.antt =====
-- The stored form of a goal: `parseStoredGoal` of pi/extensions/classified-workflows/goal.ts, and the
-- object that a goal state is.
use metagenda.Base.{Option, none, some, not, ◌&&◌, leb, if◌then◌else◌, length}
use metagenda.Base.Int.{pos}
use metagenda.Base.Text.{Text, lit, is_empty}
use metagenda.Base.Value.{
  Value, int, str, obj, Fields, end, field, get_field, ◌>>=◌, ◌>>◌, require, as_record, as_text,
  as_count, as_optional, optional_field, has_tag,
}
use metagenda.Goal.Types.{
  GoalFields, EndStatus, achieved, cleared, paused, GoalState, active, ended, max_condition_length,
}

unfoldable pub parse_fields : Fields → Option GoalFields
parse_fields value = do
  condition ← as_text (get_field "condition" value)
  require (not (is_empty condition) && leb (length condition) max_condition_length)
  started_at ← as_count (get_field "startedAt" value)
  turns ← as_count (get_field "turns" value)
  tokens ← as_count (get_field "tokens" value)
  some (record { condition = condition; started_at = started_at; turns = turns; tokens = tokens })

unfoldable pub end_status : Value → Option EndStatus
end_status v =
    if has_tag "achieved" v
    then some achieved
    else if has_tag "cleared" v
    then some cleared
    else if has_tag "paused" v
    then some paused
    else none

unfoldable pub parse_ended : Fields → GoalFields → Option GoalState
parse_ended value shared = do
  status ← end_status (get_field "status" value)
  finished_at ← as_count (get_field "finishedAt" value)
  reason ← as_text (get_field "lastReason" value)
  some (ended status shared finished_at reason)

unfoldable pub parse_state : Fields → GoalFields → Option GoalState
parse_state value shared =
    if has_tag "active" (get_field "status" value)
    then (as_optional as_text (get_field "lastReason" value) >>= λ reason.
        some (active shared reason))
    else parse_ended value shared

unfoldable pub parse_stored_goal : Value → Option GoalState
parse_stored_goal value = do
  fields ← as_record value
  shared ← parse_fields fields
  parse_state fields shared

abbrev pub goal_fields : GoalFields → Fields → Fields
goal_fields s rest = field "condition" (str s.condition) (
    field "startedAt" (int (pos s.started_at))
      (field "turns" (int (pos s.turns)) (field "tokens" (int (pos s.tokens)) rest)))

abbrev pub optional_reason : Option Text → Option Value
optional_reason none = none
optional_reason (some s) = some (str s)

abbrev pub end_tag : EndStatus → Value
end_tag achieved = str (lit "achieved")
end_tag cleared = str (lit "cleared")
end_tag paused = str (lit "paused")

-- A goal state as the object that is appended to the session log.
abbrev pub stored_goal : GoalState → Value
stored_goal (active s reason) = obj (
    field "status" (str (lit "active"))
      (goal_fields s (optional_field "lastReason" (optional_reason reason) end)))
stored_goal (ended st s at reason) = obj (
    field "status" (end_tag st)
      (field "finishedAt" (int (pos at)) (goal_fields s (field "lastReason" (str reason) end))))
