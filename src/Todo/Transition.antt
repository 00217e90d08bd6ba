-- ===== src/Todo/Transition.antt =====
-- `transitionTodoState` of pi/extensions/todo/state.ts.
use metagenda.Base.{
  ℕ, ◌+◌, Option, none, some, List, [], ◌∷◌, ◌++◌, map, Bool, true, false, ◌==◌, if◌then◌else◌,
  length, find, Outcome, succeed, fail, ◌>>=◌,
}
use metagenda.Base.Text.{Text, lit, decimal}
use metagenda.Base.Date.{to_iso}
use metagenda.Todo.Types.{
  pending, in_progress, in_review, completed, cancelled, Progress, immediate, Todo, TodoState,
  Settable, now, TodoAction, ActionName, TodoTransition, TodoNotFoundError, empty_todo_state,
  kept_replies, todo_with_status, pending_todo,
}
use metagenda.Todo.Format.{format_todo_list, format_todo_detail, counted}

abbrev pub has_id : ℕ → Todo → Bool
has_id id todo = todo.id == id

unfoldable pub not_found : ActionName → ℕ → TodoNotFoundError
unfolding lit decimal
not_found action id = record {
  action = action;
  message = lit "Todo #" ++ decimal id ++ lit " not found";
}

-- `state.todos.find(({ id }) => id === action.id)`, or the failure of the action.
unfoldable pub find_target : TodoState → ActionName → ℕ → Outcome TodoNotFoundError Todo
find_target state action id = elim (find (has_id id) state.todos) [
  | none ↦ fail (not_found action id)
  | some todo ↦ succeed todo
]

-- `state.todos.map(todo => todo.id === id ? change(todo) : todo)`
abbrev pub change_todo : ℕ → (Todo → Todo) → Todo → Todo
change_todo id change todo = if todo.id == id then change todo else todo

abbrev pub update_todo : TodoState → ℕ → (Todo → Todo) → TodoState
update_todo state id change = record state { todos = map (change_todo id change) state.todos }

abbrev pub new_todo : TodoState → Text → Todo
new_todo state text = record {
  id = state.next_id;
  text = text;
  replies = none;
  status_changed_at = none;
  progress = immediate pending;
}

abbrev pub is_completed : Progress → Bool
is_completed (immediate completed) = true
is_completed _ = false

abbrev pub toggled : Option ℕ → Todo → Todo
toggled at todo =
    if is_completed todo.progress
    then pending_todo todo
    else todo_with_status todo (now completed) at none

-- Only closing a todo records when its status changed.
abbrev pub changed_at : Settable → Option ℕ → Option ℕ
changed_at (now completed) at = at
changed_at (now cancelled) at = at
changed_at _ at = none

abbrev pub blocked_todo : Text → Todo → Todo
blocked_todo reason todo = record {
  id = todo.id;
  text = todo.text;
  replies = kept_replies todo.replies;
  status_changed_at = none;
  progress = Progress.blocked reason;
}

abbrev pub replies_of : Todo → List Text
replies_of todo = elim todo.replies [ none ↦ [] | some rs ↦ rs ]

abbrev pub replied_todo : Text → Todo → Todo
replied_todo text todo = record todo { replies = some (replies_of todo ++ text ∷ []) }

unfoldable pub status_word : Progress → Text
unfolding lit
status_word (immediate pending) = lit "pending"
status_word (immediate in_progress) = lit "in_progress"
status_word (immediate in_review) = lit "in_review"
status_word (immediate completed) = lit "completed"
status_word (immediate cancelled) = lit "cancelled"
status_word (Progress.deferred _) = lit "deferred"
status_word (Progress.blocked _) = lit "blocked"

unfoldable pub schedule : Progress → Text
unfolding lit to_iso
schedule (Progress.deferred (some at)) = lit " until " ++ to_iso at
schedule _ = []

unfoldable pub transition_todo_state :
    TodoState → TodoAction → Option ℕ → Outcome TodoNotFoundError TodoTransition
transition_todo_state state TodoAction.list at =
    succeed
      (record { action = ActionName.list; state = state; message = format_todo_list state.todos })
transition_todo_state state (TodoAction.detail id) at = do
  target ← find_target state ActionName.detail id
  succeed (record {
    action = ActionName.detail;
    state = state;
    message = format_todo_detail (some target);
  })
transition_todo_state state (TodoAction.add text) at =
    let todo : Todo = new_todo state text in
    succeed (record {
      action = ActionName.add;
      state = record { todos = state.todos ++ todo ∷ []; next_id = state.next_id + 1 };
      message = lit "Added todo #" ++ decimal todo.id ++ lit ": " ++ todo.text;
    })
transition_todo_state state (TodoAction.toggle id) at = do
  target ← find_target state ActionName.toggle id
  let replacement = toggled at target
  succeed (record {
    action = ActionName.toggle;
    state = update_todo state target.id (λ _. replacement);
    message = lit "Todo #" ++ decimal target.id ++ lit " " ++ status_word replacement.progress;
  })
transition_todo_state state (TodoAction.status id status remind_at) at = do
  target ← find_target state ActionName.status id
  let replacement = todo_with_status target status (changed_at status at) remind_at
  succeed (record {
    action = ActionName.status;
    state = update_todo state target.id (λ _. replacement);
    message =
        lit "Todo #"
        ++ decimal target.id
        ++ lit " "
        ++ status_word replacement.progress
        ++ schedule replacement.progress;
  })
transition_todo_state state (TodoAction.block id reason) at = do
  target ← find_target state ActionName.block id
  succeed (record {
    action = ActionName.block;
    state = update_todo state target.id (λ _. blocked_todo reason target);
    message = lit "Todo #" ++ decimal target.id ++ lit " blocked: " ++ reason;
  })
transition_todo_state state (TodoAction.reply id text) at = do
  target ← find_target state ActionName.reply id
  succeed (record {
    action = ActionName.reply;
    state = update_todo state target.id (λ _. replied_todo text target);
    message = lit "Reply attached to todo #" ++ decimal target.id;
  })
transition_todo_state state (TodoAction.unblock id) at = do
  target ← find_target state ActionName.unblock id
  succeed (record {
    action = ActionName.unblock;
    state = update_todo state target.id pending_todo;
    message = lit "Todo #" ++ decimal target.id ++ lit " unblocked";
  })
transition_todo_state state TodoAction.clear at = succeed (record {
  action = ActionName.clear;
  state = empty_todo_state;
  message = lit "Cleared " ++ counted (length state.todos) "todo" "todos";
})
