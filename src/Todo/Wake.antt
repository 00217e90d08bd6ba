-- ===== src/Todo/Wake.antt =====
-- The reminders of pi/extensions/todo/state.ts: `nextDeferredReminderAt`, `wakeDueDeferredTodos`.
use metagenda.Base.{
  ℕ, Option, none, some, List, [], ◌∷◌, ◌++◌, map, Bool, false, leb, ◌==◌, if◌then◌else◌, any, keep,
}
use metagenda.Base.Sort.{sort}
use metagenda.Todo.Types.{Progress, Todo, TodoState, pending_todo}

-- The `remindAt` of a deferred todo that has one.
abbrev pub remind_times : Progress → List ℕ
remind_times (Progress.deferred (some at)) = at ∷ []
remind_times _ = []

unfoldable pub reminders : List Todo → List ℕ
reminders [] = []
reminders (t ∷ ts) = remind_times t.progress ++ reminders ts

abbrev pub first : List ℕ → Option ℕ
first [] = none
first (n ∷ ns) = some n

unfoldable pub next_deferred_reminder_at : TodoState → Option ℕ
unfolding reminders sort
next_deferred_reminder_at state = first (sort leb (reminders state.todos))

abbrev pub is_due_progress : ℕ → Progress → Bool
is_due_progress now (Progress.deferred (some at)) = leb at now
is_due_progress now _ = false

abbrev pub is_due : ℕ → Todo → Bool
is_due now todo = is_due_progress now todo.progress

pub record DeferredTodoWake : Type 0 where
  pub state : TodoState
  pub woken : List Todo

-- `dueIds.has(id)`
abbrev pub has_id_in : List Todo → ℕ → Bool
has_id_in todos id = any (λ t. t.id == id) todos

abbrev pub wake : List Todo → Todo → Todo
wake due todo = if has_id_in due todo.id then pending_todo todo else todo

-- The todos after a wake; with none due the state is returned as it is.
abbrev pub woken_todos : List Todo → List Todo → List Todo
woken_todos [] todos = todos
woken_todos (t ∷ ts) todos = map (wake (t ∷ ts)) todos

unfoldable pub wake_due_deferred_todos : TodoState → ℕ → DeferredTodoWake
wake_due_deferred_todos state now =
    let woken : List Todo = keep (is_due now) state.todos in
    record { state = record state { todos = woken_todos woken state.todos }; woken = woken }
