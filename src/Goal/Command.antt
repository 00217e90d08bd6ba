-- ===== src/Goal/Command.antt =====
-- `parseGoalCommand` and `formatGoalStatus` of pi/extensions/classified-workflows/goal.ts.
use metagenda.Base.{
  ℕ, ◌-◌, ◌/◌, ◌%◌, Option, none, some, [], ◌∷◌, ◌++◌, ltb, if◌then◌else◌, length, Outcome, succeed,
  fail,
}
use metagenda.Base.Text.{Text, lit, text_eq, trim, is_empty, to_lower, decimal, join}
use metagenda.Goal.Types.{
  GoalFields, EndStatus, achieved, cleared, paused, GoalState, active, ended, GoalCommand, status,
  clear, set, GoalCommandError, max_condition_length,
}

unfoldable pub parse_goal_command : Text → Outcome GoalCommandError GoalCommand
parse_goal_command args =
    let condition = trim args in
    if is_empty condition
    then succeed status
    else if text_eq (to_lower condition) (lit "clear")
    then succeed clear
    else if ltb max_condition_length (length condition)
    then fail (record { message = lit "Goal conditions may contain at most 4,000 characters." })
    else succeed (set condition)

-- `Math.max(0, Math.floor(milliseconds / 1_000))`, in seconds, minutes or hours.
unfoldable pub format_duration : ℕ → Text
format_duration ms =
    let seconds = ms / 1000 in
    let minutes = seconds / 60 in
    if ltb seconds 60
    then decimal seconds ++ lit "s"
    else if ltb minutes 60
    then decimal minutes ++ lit "m"
    else decimal (minutes / 60) ++ lit "h " ++ decimal (minutes % 60) ++ lit "m"

abbrev pub end_word : EndStatus → Text
end_word achieved = lit "achieved"
end_word cleared = lit "cleared"
end_word paused = lit "paused"

-- `state.lastReason ? … : ""`
abbrev pub last_check : Text → Text
last_check [] = []
last_check (c ∷ s) = lit "\nLast check: " ++ (c ∷ s)

abbrev pub reason_or_empty : Option Text → Text
reason_or_empty none = []
reason_or_empty (some s) = s

-- The elapsed time of a clock that went back is 0, as in the source.
unfoldable pub goal_lines : Text → GoalFields → ℕ → Text → Text
goal_lines word s ended_at reason =
    join (10 ∷ []) (
      (lit "Goal (" ++ word ++ lit "): " ++ s.condition)
      ∷ (lit "Elapsed: "
          ++ format_duration (ended_at - s.started_at)
          ++ lit " · "
          ++ decimal s.turns
          ++ lit " turns · "
          ++ decimal s.tokens
          ++ lit " tokens")
      ∷ [])
    ++ last_check reason

unfoldable pub format_goal_status : Option GoalState → ℕ → Text
format_goal_status none now = lit "No goal has been set in this session."
format_goal_status (some (active s reason)) now =
    goal_lines (lit "active") s now (reason_or_empty reason)
format_goal_status (some (ended st s at reason)) now = goal_lines (end_word st) s at reason
