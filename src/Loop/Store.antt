-- ===== src/Loop/Store.antt =====
-- The stored form of a loop: `parseStoredLoop` of pi/extensions/classified-workflows/loop.ts, and
-- the object that a loop state is.
use metagenda.Base.{ℕ, Option, none, some, Bool, true, not, ◌&&◌, leb, if◌then◌else◌, length}
use metagenda.Base.Int.{pos}
use metagenda.Base.Text.{lit, is_empty}
use metagenda.Base.Value.{
  Value, int, str, obj, Fields, end, field, get_field, ◌>>=◌, ◌>>◌, require, as_record, as_text,
  as_count, as_optional, optional_field, has_tag,
}
use metagenda.Loop.Types.{
  LoopFields, LoopState, active, cleared, min_loop_interval_ms, max_loop_interval_ms,
  max_instruction_length,
}

abbrev pub is_valid_interval : ℕ → Bool
is_valid_interval n = leb min_loop_interval_ms n && leb n max_loop_interval_ms

-- `isValidJitter` and `jitterMs < intervalMs`, where there is a jitter.
abbrev pub jitter_fits : Option ℕ → ℕ → Bool
jitter_fits none interval = true
jitter_fits (some j) interval = is_valid_interval j && not (leb interval j)

unfoldable pub parse_shared : Fields → Option LoopFields
parse_shared value = do
  instruction ← as_text (get_field "instruction" value)
  require (not (is_empty instruction) && leb (length instruction) max_instruction_length)
  started_at ← as_count (get_field "startedAt" value)
  next_run_at ← as_count (get_field "nextRunAt" value)
  runs ← as_count (get_field "runs" value)
  interval_ms ← as_count (get_field "intervalMs" value)
  require (is_valid_interval interval_ms)
  jitter_ms ← as_optional as_count (get_field "jitterMs" value)
  require (jitter_fits jitter_ms interval_ms)
  last_run_at ← as_optional as_count (get_field "lastRunAt" value)
  some (record {
    instruction = instruction;
    interval_ms = interval_ms;
    jitter_ms = jitter_ms;
    started_at = started_at;
    next_run_at = pos next_run_at;
    runs = runs;
    last_run_at = last_run_at;
  })

unfoldable pub parse_status : Fields → LoopFields → Option LoopState
parse_status value shared =
    if has_tag "active" (get_field "status" value)
    then some (active shared)
    else if has_tag "cleared" (get_field "status" value)
    then (as_count (get_field "finishedAt" value) >>= λ at. some (cleared shared at))
    else none

unfoldable pub parse_stored_loop : Value → Option LoopState
parse_stored_loop value = do
  fields ← as_record value
  shared ← parse_shared fields
  parse_status fields shared

abbrev pub count : ℕ → Value
count n = int (pos n)

abbrev pub optional_count : Option ℕ → Option Value
optional_count none = none
optional_count (some n) = some (count n)

-- A loop state as the object that is appended to the session log.
abbrev pub shared_fields : LoopFields → Fields
shared_fields s = field "instruction" (str s.instruction) (
    field "intervalMs" (count s.interval_ms) (
      optional_field "jitterMs" (optional_count s.jitter_ms) (
        field "startedAt" (count s.started_at) (
          field "nextRunAt" (int s.next_run_at) (
            field "runs" (count s.runs)
              (optional_field "lastRunAt" (optional_count s.last_run_at) end))))))

abbrev pub stored_loop : LoopState → Value
stored_loop (active s) = obj (field "status" (str (lit "active")) (shared_fields s))
stored_loop (cleared s at) =
    obj (field "status" (str (lit "cleared")) (field "finishedAt" (count at) (shared_fields s)))
