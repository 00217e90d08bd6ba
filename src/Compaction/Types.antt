-- ===== src/Compaction/Types.antt =====
-- The data of pi/extensions/safe-compaction/state.ts.
use metagenda.Base.{ℕ, Bool}
use metagenda.Base.Text.{Text}

-- `Exclude<CompactionReason, "overflow">`
pub data RequestedReason : Type 0 where
  manual threshold : RequestedReason

pub data CompactionReason : Type 0 where
  requested : RequestedReason → CompactionReason
  overflow : CompactionReason

-- `idle` with `thresholdBlockedUntilInput`, `preparing` with `reason` and `requestedAt`, `ready` with
-- `readyAt` and `resumeNotes` besides, `forced` with its notes and `suppressAutomaticResume`.
pub data SafeCompactionState : Type 0 where
  idle : Bool → SafeCompactionState
  preparing : RequestedReason → ℕ → SafeCompactionState
  ready : RequestedReason → ℕ → ℕ → Text → SafeCompactionState
  forced : CompactionReason → ℕ → Text → Bool → SafeCompactionState

pub record BeforeCompactionTransition : Type 0 where
  pub state : SafeCompactionState
  pub cancel : Bool
  pub notify_preparation : Bool

pub data CompactionResumeMode : Type 0 where
  host_retry agent_settled manual_complete : CompactionResumeMode

-- What a resume message is made of: the `reason` and `resumeNotes` of a ready or forced state.
pub record Completed : Type 0 where
  pub reason : CompactionReason
  pub resume_notes : Text

abbrev pub max_resume_notes : ℕ
max_resume_notes = 4000
