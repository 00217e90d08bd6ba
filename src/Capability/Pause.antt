-- ===== src/Capability/Pause.antt =====
-- pi/extensions/shared/continuation-pause.ts.
use mathlib.Core.List.{reverse}
use metagenda.Base.{Option, none, some, List, Bool, false, ◌&&◌, find}
use metagenda.Base.Value.{
  Value, obj, get_field, is_finite, ◌>>=◌, ◌>>◌, require, as_record, as_bool, has_tag,
}

-- `updated_at` is a finite number.
pub record ContinuationPauseState : Type 0 where
  pub paused : Bool
  pub updated_at : Value

unfoldable pub parse_continuation_pause : Value → Option ContinuationPauseState
parse_continuation_pause value = do
  fs ← as_record value
  paused ← as_bool (get_field "paused" fs)
  require (is_finite (get_field "updatedAt" fs))
  some (record { paused = paused; updated_at = get_field "updatedAt" fs })

unfoldable pub is_pause_entry : Value → Bool
is_pause_entry (obj entry) =
    has_tag "custom" (get_field "type" entry)
    && has_tag "pi.continuation-pause" (get_field "customType" entry)
is_pause_entry _ = false

abbrev pub parse_entry : Value → Option ContinuationPauseState
parse_entry (obj entry) = parse_continuation_pause (get_field "data" entry)
parse_entry _ = none

-- The loop from the last entry to the first.
unfoldable pub latest_continuation_pause : List Value → Option ContinuationPauseState
latest_continuation_pause entries = find is_pause_entry (reverse entries) >>= parse_entry

abbrev pub pauses : Option ContinuationPauseState → Bool
pauses none = false
pauses (some s) = s.paused

unfoldable pub is_continuation_paused : List Value → Bool
is_continuation_paused entries = pauses (latest_continuation_pause entries)

abbrev pub is_assistant : Value → Bool
is_assistant (obj message) = has_tag "assistant" (get_field "role" message)
is_assistant _ = false

abbrev pub is_aborted : Value → Bool
is_aborted (obj message) = has_tag "aborted" (get_field "stopReason" message)
is_aborted _ = false

abbrev pub any_aborted : Option Value → Bool
any_aborted none = false
any_aborted (some message) = is_aborted message

unfoldable pub was_run_aborted : List Value → Bool
was_run_aborted messages = any_aborted (find is_assistant (reverse messages))
