-- ===== src/Attempt/Types.antt =====
-- The data of pi/extensions/shared/job-attempt.ts: identities, attempt events, snapshots, receipts.
use metagenda.Base.{ℕ, Bool, Option, ℕ_discrete}
use metagenda.Base.Text.{Text}
use mathlib.Core.Bool.{decide}

pub data Code : Type 0 where
  malformed stale_attempt stale_fence receipt_conflict out_of_order invalid_transition : Code
  foreign_output : Code

pub record AttemptIdentity : Type 0 where
  pub job_id : Text
  pub attempt_id : Text
  pub fence : Text

pub record OutputReference : Type 0 where
  pub attempt_id : Text
  pub output_id : Text

pub data Usage : Type 0 where
  observed : ℕ → Usage
  unknown : Usage

pub data StopReason : Type 0 where
  user session_closed budget : StopReason

pub data FailureReason : Type 0 where
  blocked execution timed_out : FailureReason

pub data InterruptionReason : Type 0 where
  unconfirmed_exit owner_lost : InterruptionReason

-- The members of the event union, each with its own fields.
pub data Body : Type 0 where
  pending running : Body
  output : OutputReference → Body
  stopping : StopReason → Body
  succeeded : OutputReference → Usage → Body
  failed : FailureReason → Usage → Body
  cancelled : StopReason → Usage → Body
  interrupted : InterruptionReason → Usage → Body

-- `version` is the literal 1 and is left out.
pub record AttemptEvent : Type 0 where
  pub job_id : Text
  pub attempt_id : Text
  pub fence : Text
  pub event_id : Text
  pub sequence : ℕ
  pub occurred_at : ℕ
  pub body : Body

pub data Status : Type 0 where
  pending running stopping succeeded failed cancelled interrupted : Status

-- A snapshot before it is decoded: any status with any sequence and terminal event.
pub record AttemptSnapshot : Type 0 where
  pub job_id : Text
  pub attempt_id : Text
  pub fence : Text
  pub status : Status
  pub sequence : ℕ
  pub terminal_event_id : Option Text

pub data EventReceipt : Type 0 where
  absent : EventReceipt
  recorded : AttemptEvent → EventReceipt

pub data AttemptEventDecision : Type 0 where
  duplicate : AttemptEventDecision
  appended : AttemptSnapshot → AttemptEvent → AttemptEventDecision

unfoldable pub AttemptEvent-discrete : Discrete AttemptEvent
unfolding ℕ_discrete
AttemptEvent-discrete = hlevel ℕ_discrete

unfoldable pub Status-discrete : Discrete Status
Status-discrete = hlevel

-- `Schema.equivalence(AttemptEvent)`: field by field.
unfoldable pub same_event : AttemptEvent → AttemptEvent → Bool
unfolding AttemptEvent-discrete
same_event a b = decide (AttemptEvent-discrete a b)
