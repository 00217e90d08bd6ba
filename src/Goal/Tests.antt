-- ===== src/Goal/Tests.antt =====
-- A goal at work: runs of the code, and the theorems at inputs that meet their hypotheses.
use metagenda.Base.{
  ◌≡◌, ◌≢◌, refl, inl, ◌↔◌, none, some, List, [], ◌∷◌, Bool, true, not, length, keep, succeed,
  arith,
}
use metagenda.Base.Int.{pos, negsuc}
use metagenda.Base.Text.{
  Text, lit, text_eq, trim, trim_start, trim_end, is_space, to_lower, decimal, join,
}
use metagenda.Base.Value.{Value, int, str, obj, arr, Items, nil, cons, items, end, field}
use metagenda.Goal.Types.{GoalFields, achieved, cleared, active, ended, set, valid}
use metagenda.Goal.Command.{parse_goal_command, format_goal_status, goal_lines, format_duration}
use metagenda.Goal.Evaluation.{apply_goal_evaluation, judge, task_continuation_message}
use metagenda.Goal.Store.{parse_stored_goal, stored_goal}
use metagenda.Goal.Session.{
  entry_todos, custom_state, message_state, add_todos, no_work, todo_work_snapshot,
  recover_latest_independent_goal, condition_of,
}
use metagenda.Goal.Progress.{IsStorable, parse_stored_goal-stored_goal}
use metagenda.Base.Reverse.{LastOf}
use metagenda.Goal.Recovery.{recover_latest_independent_goal_iff}
use metagenda.Goal.Checks.{Check, checked, Ends, checked-eq-ended_iff}
use metagenda.Goal.Tracked.{
  is_open, is_completed, todo_work_snapshot-latest, tracked_work_continues,
}

abbrev ship : GoalFields
ship = record { condition = lit "Ship it"; started_at = 5; turns = 2; tokens = 100 }

abbrev checks : List Check
checks =
    record {
      evaluation = valid true (lit "Done");
      usage = pos 40;
      now = 80;
      tasks = lit "Test" ∷ [];
    }
    ∷ record { evaluation = valid true (lit "Done"); usage = negsuc 3; now = 90; tasks = [] }
    ∷ []

abbrev shipped : GoalFields
shipped = record { condition = lit "Ship it"; started_at = 5; turns = 4; tokens = 140 }

checked-eq-ended_iff_example :
    (checked (active ship none) checks ≡ ended achieved shipped 90 (lit "Done"))
    ↔ Ends ship shipped checks achieved 90 (lit "Done")
checked-eq-ended_iff_example =
    checked-eq-ended_iff ship shipped none checks achieved 90 (lit "Done")

checked_run : checked (active ship none) checks ≡ ended achieved shipped 90 (lit "Done")
unfolding checked apply_goal_evaluation judge
checked_run = refl

ship-IsStorable : IsStorable ship
unfolding lit
ship-IsStorable = record { not_empty = refl; short = omega arith }

parse_stored_goal-stored_goal_example :
    parse_stored_goal (stored_goal (ended cleared ship 50 (lit "Cleared")))
    ≡ some (ended cleared ship 50 (lit "Cleared"))
parse_stored_goal-stored_goal_example =
    parse_stored_goal-stored_goal (ended cleared ship 50 (lit "Cleared")) ship-IsStorable

abbrev is_legacy : Text → Bool
is_legacy c = text_eq c (lit "/loop")

abbrev legacy : GoalFields
legacy = record ship { condition = lit "/loop" }

recover_latest_independent_goal_iff_example :
    (recover_latest_independent_goal (active ship none ∷ active legacy none ∷ []) is_legacy
      ≡ some (ship, none))
    ↔ LastOf
        (λ g. not (is_legacy (condition_of g)))
        (active ship none ∷ active legacy none ∷ [])
        (active ship none)
recover_latest_independent_goal_iff_example =
    recover_latest_independent_goal_iff (active ship none ∷ active legacy none ∷ []) is_legacy ship
      none

recovered :
    recover_latest_independent_goal (active ship none ∷ active legacy none ∷ []) is_legacy
    ≡ some (ship, none)
unfolding recover_latest_independent_goal text_eq lit
recovered = refl

abbrev open_todo : Value
open_todo = obj (
    field "id" (int (pos 1))
      (field "text" (str (lit "Write tests")) (field "status" (str (lit "in_progress")) end)))

abbrev done_todo : Value
done_todo = obj (
    field "id" (int (pos 2))
      (field "text" (str (lit "Read")) (field "status" (str (lit "completed")) end)))

abbrev both : Items
both = cons open_todo (cons done_todo nil)

abbrev note : Value
note = obj (field "type" (str (lit "message")) end)

abbrev todo_entry : Value
todo_entry = obj (
    field "type" (str (lit "custom")) (
      field "customType" (str (lit "todo.state"))
        (field "data" (obj (field "todos" (arr both) end)) end)))

todo_entry-todos : entry_todos todo_entry ≡ some both
unfolding entry_todos custom_state message_state text_eq lit
todo_entry-todos = refl

note-todos : entry_todos note ≡ none
unfolding entry_todos custom_state message_state text_eq lit
note-todos = refl

open_todo-open : is_open open_todo ≡ true
unfolding text_eq lit
open_todo-open = refl

todo_work_snapshot-latest_example :
    (todo_work_snapshot (note ∷ todo_entry ∷ note ∷ []) ≡ add_todos no_work (items both))
    × (length (add_todos no_work (items both)).pending ≡ length (keep is_open (items both)))
    × (length (add_todos no_work (items both)).completed ≡ length (keep is_completed (items both)))
todo_work_snapshot-latest_example =
    todo_work_snapshot-latest (note ∷ []) (note ∷ []) todo_entry both todo_entry-todos
      (note-todos, tt)

tracked_work_continues_example :
    (apply_goal_evaluation ship
        (valid true (lit "Done"))
        (pos 7)
        90
        (todo_work_snapshot (note ∷ todo_entry ∷ note ∷ [])).pending
      ≢ ended achieved ship 90 (lit "Done"))
    × (task_continuation_message (todo_work_snapshot (note ∷ todo_entry ∷ note ∷ [])) ≢ none)
tracked_work_continues_example =
    tracked_work_continues (note ∷ []) (note ∷ []) todo_entry open_todo both todo_entry-todos
      (note-todos, tt) (inl refl) open_todo-open ship ship (valid true (lit "Done")) (pos 7) 90 90
      achieved (lit "Done")

set_run : parse_goal_command (lit "  Ship it ") ≡ succeed (set (lit "Ship it"))
unfolding parse_goal_command trim trim_start trim_end is_space to_lower text_eq lit
set_run = refl

status_run :
    format_goal_status (some (active ship none)) 4000005
    ≡ lit "Goal (active): Ship it\nElapsed: 1h 6m · 2 turns · 100 tokens"
unfolding format_goal_status goal_lines format_duration decimal join lit
status_run = refl
