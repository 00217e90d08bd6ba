-- ===== src/Capability/Session.antt =====
-- What pi/extensions/classified-workflows/index.ts does with the capability circuit and with the pause
-- of the continuation: its handlers, as far as they touch `capabilityCircuit`, `continuationPaused` and
-- `skipNextCapabilityOutcome`.
use metagenda.Base.{ℕ, List, [], ◌∷◌, ◌++◌, Bool, true, false, not, ◌&&◌, ◌||◌, ◌==◌, if◌then◌else◌}
use metagenda.Base.Int.{pos}
use metagenda.Base.Text.{Text, lit, trim, is_empty}
use metagenda.Base.Value.{Value, int, bool, str, obj, field, end}
use metagenda.Capability.Circuit.{
  CapabilityCircuitState, same_bool, capability_outcome, advance_capability_circuit,
  restore_capability_circuit,
}
use metagenda.Capability.Pause.{is_continuation_paused, was_run_aborted}

pub record Session : Type 0 where
  pub circuit : CapabilityCircuitState
  pub paused : Bool
  pub skip_next : Bool
  pub log : List Value

abbrev pub circuit_entry : CapabilityCircuitState → Value
circuit_entry s = obj (
    field "type" (str (lit "custom")) (
      field "customType" (str (lit "classified-workflows.capability-circuit")) (
        field "data"
          (obj (
            field "consecutiveBlockers" (int (pos s.consecutive_blockers))
              (field "open" (bool s.is_open) (field "updatedAt" (int (pos s.updated_at)) end))))
          end)))

abbrev pub pause_entry : Bool → ℕ → Value
pause_entry paused now = obj (
    field "type" (str (lit "custom")) (
      field "customType" (str (lit "pi.continuation-pause")) (
        field "data" (obj (field "paused" (bool paused) (field "updatedAt" (int (pos now)) end)))
          end)))

abbrev pub append_circuit : Session → Session
append_circuit s = record s { log = s.log ++ circuit_entry s.circuit ∷ [] }

unfoldable pub set_capability_circuit : CapabilityCircuitState → Session → Session
set_capability_circuit c s =
    if same_bool c.is_open s.circuit.is_open
      && c.consecutive_blockers == s.circuit.consecutive_blockers
    then s
    else record s { circuit = c; log = s.log ++ circuit_entry c ∷ [] }

unfoldable pub set_continuation_paused : Bool → ℕ → Session → Session
set_continuation_paused paused now s =
    if same_bool s.paused paused
    then s
    else record s { paused = paused; log = s.log ++ pause_entry paused now ∷ [] }

abbrev pub closed_circuit : ℕ → CapabilityCircuitState
closed_circuit now = record { consecutive_blockers = 0; is_open = false; updated_at = now }

abbrev pub opened_circuit : ℕ → CapabilityCircuitState
opened_circuit now = record { consecutive_blockers = 2; is_open = true; updated_at = now }

abbrev pub restored : Session → Session
restored s = record s {
  circuit = restore_capability_circuit s.log;
  paused = is_continuation_paused s.log;
}

-- `active_tools` tells whether `pi.getActiveTools()` has any.
unfoldable pub session_start : Bool → ℕ → Session → Session
session_start active_tools now s =
    if (restored s).circuit.is_open && active_tools
    then append_circuit (record (restored s) { circuit = closed_circuit now })
    else restored s

abbrev pub resume_continuation : ℕ → Session → Session
resume_continuation now s = set_continuation_paused false now s

abbrev pub close_for_tools : Bool → ℕ → Session → Session
close_for_tools active_tools now s =
    if s.circuit.is_open && active_tools then set_capability_circuit (closed_circuit now) s else s

unfoldable pub input : Bool → Text → Bool → ℕ → Session → Session
input interactive text active_tools now s =
    if not interactive || is_empty (trim text)
    then s
    else close_for_tools active_tools now (resume_continuation now s)

-- The handshake of the remote capabilities, `failed` or not.
unfoldable pub handshake : Bool → ℕ → Session → Session
handshake failed now s =
    set_capability_circuit (if failed then opened_circuit now else closed_circuit now)
      (record s { skip_next = true })

abbrev pub count_outcome : List Value → ℕ → Session → Session
count_outcome messages now s =
    if s.skip_next
    then record s { skip_next = false }
    else set_capability_circuit
        (advance_capability_circuit s.circuit (capability_outcome messages) now) s

unfoldable pub agent_end : List Value → Bool → ℕ → Session → Session
agent_end messages reload_pending now s =
    if was_run_aborted messages && not reload_pending
    then count_outcome messages now (set_continuation_paused true now s)
    else count_outcome messages now s
