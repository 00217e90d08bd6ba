-- ===== src/Compaction/Tests.antt =====
-- A safe compaction at work: runs of the code, and the theorems at inputs that meet their hypotheses.
use metagenda.Base.{◌≡◌, refl, none, some, List, [], ◌∷◌, ◌++◌, true, false, arith}
use metagenda.Base.Text.{lit, text_eq, trim, trim_start, trim_end, is_space}
use metagenda.Base.Value.{Value, str, obj, end, field}
use metagenda.Compaction.Types.{threshold, requested, overflow, idle, ready, forced}
use metagenda.Compaction.Decode.{
  decode_safe_compaction_state, stored_state, entry_state, is_compaction,
  restore_safe_compaction_state, restore_from,
}
use metagenda.Compaction.Transition.{before_compaction_transition, requested_transition}
use metagenda.Base.Bounded.{bounded_text, squeeze}
use metagenda.Compaction.Overflow.{root_checkpoint, previous_checkpoint_heading}
use metagenda.Compaction.Session.{
  Session, resume, compact, BeforeCompact, session_start, session_before_compact, on_agent_settled,
  safe_compaction_ready,
}
use metagenda.Compaction.Checkpoint.{
  cancelled_once, overflow_resumes_once, interrupted, after_overflow,
}
use metagenda.Compaction.Restore.{decode-stored_state}
use metagenda.Compaction.Durable.{IdleAfter, restore-compacted}
use metagenda.Compaction.Reached.{Reached, started, next, compacting, Reached-restores}

abbrev fresh : Session
fresh = record {
  state = idle false;
  compact_requested = false;
  pending_automatic_resume = none;
  log = [];
}

abbrev event : BeforeCompact
event = record {
  reason = requested threshold;
  branch_entries = [];
  previous_summary = none;
  first_kept_entry_id = lit "e1";
  tokens_before = 1000;
}

blocked_cancels : (before_compaction_transition (idle true) (requested threshold) 5).cancel ≡ true
unfolding before_compaction_transition requested_transition
blocked_cancels = refl

still_cancels :
    (before_compaction_transition
      (before_compaction_transition (idle true) (requested threshold) 5).state
      (requested threshold)
      6).cancel
    ≡ true
unfolding before_compaction_transition requested_transition
still_cancels = refl

cancelled_once_example : (idle true ≡ idle true) × (requested threshold ≡ requested threshold)
cancelled_once_example =
    cancelled_once (idle true) (requested threshold) (requested threshold) 5 6 blocked_cancels
      still_cancels

overflow_resumes_once_example :
    ((after_overflow fresh event 9).state ≡ idle true)
    × ((on_agent_settled (after_overflow fresh event 9)).1 ≡ resume interrupted ∷ [])
    × ((on_agent_settled (on_agent_settled (after_overflow fresh event 9)).0).1 ≡ [])
overflow_resumes_once_example = overflow_resumes_once fresh event 9 false refl refl

decode-stored_state_example :
    decode_safe_compaction_state (stored_state (forced overflow 7 [] true))
    ≡ some (forced overflow 7 [] true)
decode-stored_state_example =
    decode-stored_state (forced overflow 7 [] true) (omega arith, omega arith)

abbrev compaction_entry : Value
compaction_entry =
    obj (field "type" (str (lit "compaction")) (field "summary" (str (lit "Work so far")) end))

compaction_entry-state : entry_state compaction_entry ≡ none
unfolding entry_state text_eq lit
compaction_entry-state = refl

compaction_entry-compaction : is_compaction compaction_entry ≡ true
unfolding text_eq lit
compaction_entry-compaction = refl

abbrev prepared_log : List Value
prepared_log = (session_before_compact fresh event 5).0.log

restore-compacted_example :
    IdleAfter
      (restore_safe_compaction_state prepared_log)
      (restore_safe_compaction_state (prepared_log ++ compaction_entry ∷ compaction_entry ∷ []))
restore-compacted_example =
    restore-compacted prepared_log (compaction_entry ∷ []) compaction_entry compaction_entry-state
      compaction_entry-compaction (compaction_entry-state, tt)

abbrev prepared : Session
prepared = (session_before_compact (session_start []).0 event 5).0

prepared-Reached : Reached prepared
prepared-Reached =
    next (session_start []).0 prepared (started []) (compacting event 5 (omega arith))

Reached-restores_example : restore_safe_compaction_state prepared.log ≡ prepared.state
Reached-restores_example = Reached-restores prepared prepared-Reached

abbrev acknowledged_session : Session
acknowledged_session = (safe_compaction_ready prepared (lit " Edit\n the file ") 8).0

-- The whole way: cancelled and prepared, acknowledged, and compacted when the agent settles.
compact_run : (on_agent_settled acknowledged_session).1 ≡ compact ∷ []
unfolding on_agent_settled safe_compaction_ready session_before_compact session_start
    before_compaction_transition requested_transition restore_safe_compaction_state restore_from
    bounded_text squeeze trim trim_start trim_end is_space lit
compact_run = refl

state_run : acknowledged_session.state ≡ ready threshold 5 8 (lit "Edit the file")
unfolding safe_compaction_ready session_before_compact session_start before_compaction_transition
    requested_transition restore_safe_compaction_state restore_from bounded_text squeeze trim
    trim_start trim_end is_space lit
state_run = refl

root_run :
    root_checkpoint (some (lit " Root \n### Previous checkpoint (bounded tail)\nolder"))
    ≡ some (lit "Root")
unfolding root_checkpoint previous_checkpoint_heading trim trim_start trim_end is_space lit
root_run = refl
