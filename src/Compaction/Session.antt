-- ===== src/Compaction/Session.antt =====
-- The handlers of pi/extensions/safe-compaction/index.ts: what each event of the session does to the
-- extension's variables, what it appends to the session log, and what it sends.
use metagenda.Base.{
  ℕ, Option, none, some, List, [], ◌∷◌, ◌++◌, Bool, true, false, not, ◌&&◌, if◌then◌else◌,
}
use metagenda.Base.Text.{Text, lit}
use metagenda.Base.Value.{Value, str, obj, end, field}
use metagenda.Compaction.Types.{
  RequestedReason, CompactionReason, requested, overflow, SafeCompactionState, idle, preparing,
  ready, forced, BeforeCompactionTransition, CompactionResumeMode, host_retry, agent_settled,
  manual_complete, Completed, max_resume_notes,
}
use metagenda.Compaction.Decode.{stored_state, restore_safe_compaction_state}
use metagenda.Compaction.Transition.{before_compaction_transition, compaction_resume_mode}
use metagenda.Base.Bounded.{bounded_text}
use metagenda.Compaction.Overflow.{
  latest_bounded_user_request, overflow_fallback_summary, overflow_recovery_first_kept_entry_id,
}

-- The variables `state`, `compactRequested` and `pendingAutomaticResume`, and the session log.
pub record Session : Type 0 where
  pub state : SafeCompactionState
  pub compact_requested : Bool
  pub pending_automatic_resume : Option Completed
  pub log : List Value

-- What a handler sends: a preparation or a resume message, the overflow's interrupt, the note of a
-- retry, or a request to compact.
pub data Output : Type 0 where
  preparation : RequestedReason → Output
  resume : Completed → Output
  interrupt retry_note compact : Output

-- What the host is told before a compaction.
pub data Verdict : Type 0 where
  allow cancel : Verdict
  replace : Text → Text → ℕ → Verdict

pub record BeforeCompact : Type 0 where
  pub reason : CompactionReason
  pub branch_entries : List Value
  pub previous_summary : Option Text
  pub first_kept_entry_id : Text
  pub tokens_before : ℕ

abbrev pub state_entry : SafeCompactionState → Value
state_entry s = obj (
    field "type" (str (lit "custom"))
      (field "customType" (str (lit "safe-compaction.state")) (field "data" (stored_state s) end)))

abbrev pub persist : Session → SafeCompactionState → Session
persist s next = record s { state = next; log = s.log ++ state_entry next ∷ [] }

abbrev pub opening : SafeCompactionState → List Output
opening (preparing reason _) = preparation reason ∷ []
opening _ = []

unfoldable pub session_start : List Value → Session × List Output
session_start branch =
    let state = restore_safe_compaction_state branch in
    (
      record {
        state = state;
        compact_requested = false;
        pending_automatic_resume = none;
        log = branch;
      },
      opening state,
    )

-- An input of the user lifts the block on threshold compactions.
unfoldable pub input : Session → Bool → Session
input s from_extension = elim s.state [
  | idle blocked ↦ if not from_extension && blocked then persist s (idle false) else s
  | preparing _ _ ↦ s
  | ready _ _ _ _ ↦ s
  | forced _ _ _ _ ↦ s
]

abbrev pub fallback : BeforeCompact → Text → Verdict
fallback event notes =
    replace
      (overflow_fallback_summary event.previous_summary notes
        (latest_bounded_user_request event.branch_entries))
      (overflow_recovery_first_kept_entry_id event.branch_entries event.first_kept_entry_id)
      event.tokens_before

abbrev pub plain_verdict : Bool → Verdict
plain_verdict true = cancel
plain_verdict false = allow

-- A forced state at an overflow is summarised without a model.
abbrev pub verdict : BeforeCompact → CompactionReason → BeforeCompactionTransition → Verdict
verdict event (requested _) t = plain_verdict t.cancel
verdict event overflow t = elim t.state [
  | forced _ _ notes _ ↦ fallback event notes
  | idle _ ↦ plain_verdict t.cancel
  | preparing _ _ ↦ plain_verdict t.cancel
  | ready _ _ _ _ ↦ plain_verdict t.cancel
]

abbrev pub interrupts : CompactionReason → SafeCompactionState → List Output
interrupts overflow (forced _ _ _ _) = interrupt ∷ []
interrupts _ _ = []

abbrev pub notices : BeforeCompactionTransition → List Output
notices t = if t.notify_preparation then opening t.state else []

unfoldable pub session_before_compact :
    Session → BeforeCompact → ℕ → Session × List Output × Verdict
session_before_compact s event now =
    let t = before_compaction_transition s.state event.reason now in
    (persist s t.state, notices t ++ interrupts event.reason t.state, verdict event event.reason t)

-- After a compaction of a ready or forced state.
abbrev pub finish : Session → CompactionResumeMode → Completed → Bool → Session × List Output
finish s host_retry completed suppress = (persist s (idle true), retry_note ∷ [])
finish s agent_settled completed true = (persist s (idle true), [])
finish s agent_settled completed false =
    (record (persist s (idle true)) { pending_automatic_resume = some completed }, [])
finish s manual_complete completed suppress = (persist s (idle false), resume completed ∷ [])

abbrev pub complete :
    Session → SafeCompactionState → CompactionReason → Bool → Session × List Output
complete s (idle blocked) reason will_retry = (persist s (idle blocked), [])
complete s (preparing _ _) reason will_retry = (persist s (idle false), [])
complete s (ready r _ _ notes) reason will_retry =
    finish s (compaction_resume_mode reason will_retry)
      (record { reason = requested r; resume_notes = notes }) false
complete s (forced r _ notes suppress) reason will_retry =
    finish s (compaction_resume_mode reason will_retry)
      (record { reason = r; resume_notes = notes }) suppress

unfoldable pub session_compact : Session → CompactionReason → Bool → Session × List Output
session_compact s reason will_retry =
    complete (record s { compact_requested = false }) s.state reason will_retry

abbrev pub is_ready : SafeCompactionState → Bool
is_ready (ready _ _ _ _) = true
is_ready _ = false

unfoldable pub on_agent_settled : Session → Session × List Output
on_agent_settled s = elim s.pending_automatic_resume [
  | some completed ↦ (record s { pending_automatic_resume = none }, resume completed ∷ [])
  | none ↦
      if is_ready s.state && not s.compact_requested
      then (record s { compact_requested = true }, compact ∷ [])
      else (s, [])
]

-- `onError` of the compaction that `agent_settled` asks for.
abbrev pub compact_failed : Session → Session
compact_failed s = record s { compact_requested = false }

abbrev pub session_shutdown : Session → Session
session_shutdown s = record s { pending_automatic_resume = none }

-- The outcomes of the tool `safe_compaction_ready`.
pub data ReadyOutcome : Type 0 where
  already_compacted not_pending invalid acknowledged : ReadyOutcome

abbrev pub acknowledge : Session → RequestedReason → ℕ → ℕ → Text → Session × ReadyOutcome
acknowledge s reason at now [] = (s, invalid)
acknowledge s reason at now (c ∷ cs) = (persist s (ready reason at now (c ∷ cs)), acknowledged)

unfoldable pub safe_compaction_ready : Session → Text → ℕ → Session × ReadyOutcome
safe_compaction_ready s resume_notes now = elim s.state [
  | idle blocked ↦ if blocked then (s, already_compacted) else (s, not_pending)
  | preparing reason at ↦ acknowledge s reason at now (bounded_text max_resume_notes resume_notes)
  | ready _ _ _ _ ↦ (s, not_pending)
  | forced _ _ _ _ ↦ (s, not_pending)
]
