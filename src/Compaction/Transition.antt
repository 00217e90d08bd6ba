-- ===== src/Compaction/Transition.antt =====
-- `beforeCompactionTransition`, `compactionResumeMode` and the messages of
-- pi/extensions/safe-compaction/state.ts.
use metagenda.Base.{ℕ, ◌++◌, Bool, true, false}
use metagenda.Base.Text.{Text, lit}
use metagenda.Compaction.Types.{
  RequestedReason, manual, threshold, CompactionReason, requested, overflow, SafeCompactionState,
  idle, preparing, ready, forced, BeforeCompactionTransition, CompactionResumeMode, host_retry,
  agent_settled, manual_complete, Completed,
}

unfoldable pub overflow_notes : Text
overflow_notes =
    lit
      "Compaction was forced by context overflow. Reconcile the last assistant message and tool results; any displayed tool call without a successful result remains unfinished and must be reissued with complete arguments."

unfoldable pub unready_notes : Text
unready_notes =
    lit
      "The bounded preparation turn ended without a readiness acknowledgement. Resume the active goal and todos, and treat every tool call lacking a successful tool result as unfinished."

-- The state at an overflow.
abbrev pub forced_state : SafeCompactionState → ℕ → SafeCompactionState
forced_state (idle blocked) now = forced overflow now overflow_notes blocked
forced_state (preparing reason at) now = forced overflow at overflow_notes false
forced_state (ready reason at ready_at notes) now = ready reason at ready_at notes
forced_state (forced reason at notes suppress) now = forced reason at notes suppress

abbrev pub proceed : SafeCompactionState → BeforeCompactionTransition
proceed s = record { state = s; cancel = false; notify_preparation = false }

abbrev pub prepare : RequestedReason → ℕ → BeforeCompactionTransition
prepare reason now = record {
  state = preparing reason now;
  cancel = true;
  notify_preparation = true;
}

-- A compaction that is asked for, not forced by an overflow.
unfoldable pub requested_transition :
    SafeCompactionState → RequestedReason → ℕ → BeforeCompactionTransition
requested_transition (idle true) threshold now = record {
  state = idle true;
  cancel = true;
  notify_preparation = false;
}
requested_transition (idle true) manual now = prepare manual now
requested_transition (idle false) reason now = prepare reason now
requested_transition (preparing _ at) reason now =
    proceed (forced (requested reason) at unready_notes false)
requested_transition (ready reason at ready_at notes) _ now =
    proceed (ready reason at ready_at notes)
requested_transition (forced reason at notes suppress) _ now =
    proceed (forced reason at notes suppress)

unfoldable pub before_compaction_transition :
    SafeCompactionState → CompactionReason → ℕ → BeforeCompactionTransition
unfolding requested_transition
before_compaction_transition state overflow now = proceed (forced_state state now)
before_compaction_transition state (requested reason) now = requested_transition state reason now

unfoldable pub compaction_resume_mode : CompactionReason → Bool → CompactionResumeMode
compaction_resume_mode reason true = host_retry
compaction_resume_mode (requested manual) false = manual_complete
compaction_resume_mode (requested threshold) false = agent_settled
compaction_resume_mode overflow false = agent_settled

unfoldable pub preparation_message : RequestedReason → Text
preparation_message reason =
    (elim reason [
      | manual ↦ lit "Manual checkpoint requested"
      | threshold ↦ lit "Context limit reached"
    ])
    ++ lit
        ". Before Pi summarizes this context:\n1. Reconcile the active goal and every pending or blocked todo.\n2. Persist durable facts, decisions, exact pause points, and unfinished tool actions through the appropriate todo, memory, registry, or project artifact.\n3. Treat a displayed tool call without a successful tool result as NOT executed. If output limits truncated its arguments, record that it must be reissued completely after compaction.\n4. Call safe_compaction_ready with concise resume notes naming the exact next action. Do not stop merely because this checkpoint is pending."

abbrev pub reason_words : CompactionReason → Text
reason_words (requested manual) = lit "a manual"
reason_words (requested threshold) = lit "a threshold"
reason_words overflow = lit "an overflow"

unfoldable pub resume_message : Completed → Text
resume_message completed =
    lit "Context restored from "
    ++ reason_words completed.reason
    ++ lit
        " checkpoint. This checkpoint is complete: any retained preparation instruction is stale, so do not call safe_compaction_ready for it. Resume all assigned work now. Do not stop while a goal or pending todo remains.\n\nCheckpoint notes:\n"
    ++ completed.resume_notes
