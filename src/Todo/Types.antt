-- ===== src/Todo/Types.antt =====
-- The data of pi/extensions/todo/state.ts. An optional field is an `Option`; IDs and times are
-- numbers.
use metagenda.Base.{ℕ, Option, none, some, List, [], ◌∷◌}
use metagenda.Base.Text.{Text}

-- `ImmediateTodoStatus`
pub data Immediate : Type 0 where
  pending in_progress in_review completed cancelled : Immediate

-- The status of a todo with the field that only that status has.
pub data Progress : Type 0 where
  immediate : Immediate → Progress
  deferred : Option ℕ → Progress  -- `remindAt`
  blocked : Text → Progress  -- `reason`

pub record Todo : Type 0 where
  pub id : ℕ
  pub text : Text
  pub replies : Option (List Text)
  pub status_changed_at : Option ℕ
  pub progress : Progress

pub record TodoState : Type 0 where
  pub todos : List Todo
  pub next_id : ℕ

-- `TodoStatus`
pub data TodoStatus : Type 0 where
  active : Immediate → TodoStatus
  blocked deferred : TodoStatus

abbrev pub status_of : Progress → TodoStatus
status_of (immediate i) = active i
status_of (deferred _) = TodoStatus.deferred
status_of (blocked _) = TodoStatus.blocked

-- `SettableTodoStatus`
pub data Settable : Type 0 where
  now : Immediate → Settable
  later : Settable

pub data TodoRequest : Type 0 where
  list : TodoRequest
  add : Option Text → TodoRequest
  toggle : Option ℕ → TodoRequest
  status : Option ℕ → Option Settable → Option Text → TodoRequest
  block : Option ℕ → Option Text → TodoRequest
  reply : Option ℕ → Option Text → TodoRequest
  unblock : Option ℕ → TodoRequest
  clear : Option ℕ → TodoRequest
  detail : Option ℕ → TodoRequest

pub data TodoAction : Type 0 where
  list : TodoAction
  detail : ℕ → TodoAction
  add : Text → TodoAction
  toggle : ℕ → TodoAction
  status : ℕ → Settable → Option ℕ → TodoAction
  block : ℕ → Text → TodoAction
  reply : ℕ → Text → TodoAction
  unblock : ℕ → TodoAction
  clear : TodoAction

-- `TodoAction["action"]`
pub data ActionName : Type 0 where
  list detail add toggle status block reply unblock clear : ActionName

abbrev pub action_name : TodoAction → ActionName
action_name TodoAction.list = ActionName.list
action_name (TodoAction.detail _) = ActionName.detail
action_name (TodoAction.add _) = ActionName.add
action_name (TodoAction.toggle _) = ActionName.toggle
action_name (TodoAction.status _ _ _) = ActionName.status
action_name (TodoAction.block _ _) = ActionName.block
action_name (TodoAction.reply _ _) = ActionName.reply
action_name (TodoAction.unblock _) = ActionName.unblock
action_name TodoAction.clear = ActionName.clear

pub record TodoTransition : Type 0 where
  pub action : ActionName
  pub state : TodoState
  pub message : Text

pub record TodoInputError : Type 0 where
  pub action : ActionName
  pub message : Text

pub record TodoNotFoundError : Type 0 where
  pub action : ActionName
  pub message : Text

abbrev pub empty_todo_state : TodoState
empty_todo_state = record { todos = []; next_id = 1 }

-- `todo.replies && todo.replies.length > 0 ? { replies } : {}`
abbrev pub kept_replies : Option (List Text) → Option (List Text)
kept_replies (some (r ∷ rs)) = some (r ∷ rs)
kept_replies _ = none

abbrev pub set_progress : Settable → Option ℕ → Progress
set_progress (now i) remind_at = immediate i
set_progress later remind_at = deferred remind_at

unfoldable pub todo_with_status : Todo → Settable → Option ℕ → Option ℕ → Todo
todo_with_status todo new_status changed_at remind_at = record {
  id = todo.id;
  text = todo.text;
  replies = kept_replies todo.replies;
  status_changed_at = changed_at;
  progress = set_progress new_status remind_at;
}

unfoldable pub pending_todo : Todo → Todo
unfolding todo_with_status
pending_todo todo = todo_with_status todo (now pending) none none
