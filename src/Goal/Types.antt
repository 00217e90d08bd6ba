-- ===== src/Goal/Types.antt =====
-- The data of pi/extensions/classified-workflows/goal.ts.
use metagenda.Base.{ℕ, Option, List, Bool}
use metagenda.Base.Text.{Text}

-- The fields that every goal state has.
pub record GoalFields : Type 0 where
  pub condition : Text
  pub started_at : ℕ
  pub turns : ℕ
  pub tokens : ℕ

pub data EndStatus : Type 0 where
  achieved cleared paused : EndStatus

-- `active` with its optional `lastReason`; `ended` with `finishedAt` and `lastReason`.
pub data GoalState : Type 0 where
  active : GoalFields → Option Text → GoalState
  ended : EndStatus → GoalFields → ℕ → Text → GoalState

pub data GoalCommand : Type 0 where
  status clear : GoalCommand
  set : Text → GoalCommand

pub record GoalCommandError : Type 0 where
  pub message : Text

pub data GoalEvaluation : Type 0 where
  valid : Bool → Text → GoalEvaluation
  invalid : Text → GoalEvaluation

pub record TodoWorkSnapshot : Type 0 where
  pub pending : List Text
  pub blocked : List Text
  pub completed : List Text

abbrev pub max_condition_length : ℕ
max_condition_length = 4000
