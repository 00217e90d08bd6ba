-- ===== src/Compaction/Decode.antt =====
-- `decodeSafeCompactionState` and `restoreSafeCompactionState` of
-- pi/extensions/safe-compaction/state.ts, and the object that a state is.
use mathlib.Core.List.{reverse}
use metagenda.Base.{
  ℕ, Option, none, some, List, [], ◌∷◌, Bool, true, false, ◌||◌, leb, if◌then◌else◌, take, String,
}
use metagenda.Base.Int.{pos}
use metagenda.Base.Text.{lit}
use metagenda.Base.Value.{
  Value, undefined, bool, int, str, obj, Fields, end, field, get_field, ◌>>=◌, ◌>>◌, require,
  as_record, as_text, as_count, has_tag, max_safe_integer,
}
use metagenda.Compaction.Types.{
  RequestedReason, manual, threshold, CompactionReason, requested, overflow, SafeCompactionState,
  idle, preparing, ready, forced, max_resume_notes,
}

-- `isTimestamp(v) ? v : undefined`
unfoldable pub as_timestamp : Value → Option ℕ
as_timestamp v = do n ← as_count v; require (leb n max_safe_integer); some n

-- `v !== undefined && v !== true` fails.
abbrev pub as_flag : Value → Option Bool
as_flag undefined = some false
as_flag (bool true) = some true
as_flag _ = none

unfoldable pub decode_reason : Value → Option CompactionReason
decode_reason v =
    if has_tag "manual" v
    then some (requested manual)
    else if has_tag "threshold" v
    then some (requested threshold)
    else if has_tag "overflow" v
    then some overflow
    else none

unfoldable pub decode_ready : Fields → RequestedReason → ℕ → Option SafeCompactionState
unfolding as_timestamp
decode_ready value reason requested_at = do
  ready_at ← as_timestamp (get_field "readyAt" value)
  notes ← as_text (get_field "resumeNotes" value)
  some (ready reason requested_at ready_at (take max_resume_notes notes))

unfoldable pub decode_forced : Fields → CompactionReason → ℕ → Option SafeCompactionState
decode_forced value reason requested_at = do
  notes ← as_text (get_field "resumeNotes" value)
  suppress ← as_flag (get_field "suppressAutomaticResume" value)
  some (forced reason requested_at (take max_resume_notes notes) suppress)

-- The three phases that have a reason; a reason of `overflow` is refused in the first two.
unfoldable pub decode_phase : Fields → Value → CompactionReason → ℕ → Option SafeCompactionState
unfolding decode_ready decode_forced
decode_phase value phase (requested reason) at =
    if has_tag "preparing" phase
    then some (preparing reason at)
    else if has_tag "ready" phase
    then decode_ready value reason at
    else if has_tag "forced" phase
    then decode_forced value (requested reason) at
    else none
decode_phase value phase overflow at =
    if has_tag "forced" phase then decode_forced value overflow at else none

unfoldable pub decode_requested : Fields → Value → Option SafeCompactionState
unfolding as_timestamp decode_reason decode_phase
decode_requested value phase = do
  at ← as_timestamp (get_field "requestedAt" value)
  reason ← decode_reason (get_field "reason" value)
  decode_phase value phase reason at

abbrev pub decode_idle : Fields → Option SafeCompactionState
decode_idle value = do
  blocked ← as_flag (get_field "thresholdBlockedUntilInput" value)
  some (idle blocked)

unfoldable pub decode_fields : Fields → Option SafeCompactionState
decode_fields value =
    let phase = get_field "phase" value in
    if has_tag "idle" phase then decode_idle value else decode_requested value phase

unfoldable pub decode_safe_compaction_state : Value → Option SafeCompactionState
unfolding decode_fields decode_requested
decode_safe_compaction_state v = do value ← as_record v; decode_fields value

abbrev pub reason_tag : CompactionReason → Value
reason_tag (requested manual) = str (lit "manual")
reason_tag (requested threshold) = str (lit "threshold")
reason_tag overflow = str (lit "overflow")

-- `...(b ? { [name]: true } : {})`
abbrev pub flag_fields : String → Bool → Fields → Fields
flag_fields name true fs = field name (bool true) fs
flag_fields name false fs = fs

-- A state as the object that is appended to the session log.
abbrev pub stored_state : SafeCompactionState → Value
stored_state (idle b) =
    obj (field "phase" (str (lit "idle")) (flag_fields "thresholdBlockedUntilInput" b end))
stored_state (preparing r at) = obj (
    field "phase" (str (lit "preparing"))
      (field "reason" (reason_tag (requested r)) (field "requestedAt" (int (pos at)) end)))
stored_state (ready r at ready_at notes) = obj (
    field "phase" (str (lit "ready")) (
      field "reason" (reason_tag (requested r)) (
        field "requestedAt" (int (pos at))
          (field "readyAt" (int (pos ready_at)) (field "resumeNotes" (str notes) end)))))
stored_state (forced r at notes b) = obj (
    field "phase" (str (lit "forced")) (
      field "reason" (reason_tag r) (
        field "requestedAt" (int (pos at))
          (field "resumeNotes" (str notes) (flag_fields "suppressAutomaticResume" b end)))))

abbrev pub is_compaction : Value → Bool
is_compaction (obj entry) = has_tag "compaction" (get_field "type" entry)
is_compaction _ = false

-- The state that an entry of the session log records.
unfoldable pub entry_state : Value → Option SafeCompactionState
entry_state v = do
  entry ← as_record v
  require (has_tag "custom" (get_field "type" entry))
  require (has_tag "safe-compaction.state" (get_field "customType" entry))
  decode_safe_compaction_state (get_field "data" entry)

-- What a state that is older than a compaction is restored to.
abbrev pub after_compaction : SafeCompactionState → SafeCompactionState
after_compaction (idle b) = idle b
after_compaction (preparing manual _) = idle false
after_compaction (preparing threshold _) = idle true
after_compaction (ready manual _ _ _) = idle false
after_compaction (ready threshold _ _ _) = idle true
after_compaction (forced (requested manual) _ _ _) = idle false
after_compaction (forced (requested threshold) _ _ _) = idle true
after_compaction (forced overflow _ _ _) = idle true

abbrev pub restored : Bool → SafeCompactionState → SafeCompactionState
restored observed s = if observed then after_compaction s else s

-- The loop from the last entry to the first, over the reversed log.
unfoldable pub restore_from : Bool → List Value → SafeCompactionState
restore_from observed [] = idle false
restore_from observed (entry ∷ older) =
    let next = restore_from (observed || is_compaction entry) older in
    elim (entry_state entry) [ none ↦ next | some s ↦ restored observed s ]

unfoldable pub restore_safe_compaction_state : List Value → SafeCompactionState
unfolding restore_from
restore_safe_compaction_state entries = restore_from false (reverse entries)
