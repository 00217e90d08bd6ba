-- ===== src/Capability/Circuit.antt =====
-- pi/extensions/classified-workflows/capability-circuit.ts and pi/extensions/shared/capability-state.ts.
use mathlib.Core.List.{reverse}
use metagenda.Base.{
  ℕ, ◌+◌, min, Option, none, some, List, [], ◌∷◌, ◌++◌, Bool, true, false, ◌&&◌, ◌||◌, leb,
  if◌then◌else◌, length, drop, any, find,
}
use metagenda.Base.Text.{Text, lit, to_lower}
use metagenda.Base.Search.{starts_with}
use metagenda.Base.Value.{
  Value, str, arr, obj, Fields, get_field, items, ◌>>=◌, ◌>>◌, require, as_record, as_bool,
  as_count, has_tag, max_safe_integer,
}

pub record CapabilityCircuitState : Type 0 where
  pub consecutive_blockers : ℕ
  pub is_open : Bool
  pub updated_at : ℕ

unfoldable pub empty_capability_circuit : CapabilityCircuitState
empty_capability_circuit = record { consecutive_blockers = 0; is_open = false; updated_at = 0 }

abbrev pub same_bool : Bool → Bool → Bool
same_bool true b = b
same_bool false true = false
same_bool false false = true

unfoldable pub decode_capability_circuit : Value → Option CapabilityCircuitState
decode_capability_circuit value = do
  fs ← as_record value
  n ← as_count (get_field "consecutiveBlockers" fs)
  require (leb n 2)
  is_open ← as_bool (get_field "open" fs)
  at ← as_count (get_field "updatedAt" fs)
  require (leb at max_safe_integer)
  require (same_bool is_open (leb 2 n))
  some (record { consecutive_blockers = n; is_open = is_open; updated_at = at })

pub data CapabilityOutcome : Type 0 where
  tool_used capability_blocked other : CapabilityOutcome

-- A sequence of alternatives, at the start of a text.
unfoldable pub matches_at : List (List Text) → Text → Bool
matches_at [] s = true
matches_at (alternatives ∷ rest) s =
    any (λ a. starts_with a s && matches_at rest (drop (length a) s)) alternatives

unfoldable pub matches : List (List Text) → Text → Bool
matches pattern [] = matches_at pattern []
matches pattern (c ∷ cs) = matches_at pattern (c ∷ cs) || matches pattern cs

abbrev pub disabled : List (List Text)
disabled =
    (lit "tools " ∷ lit "tool " ∷ [])
    ∷ (lit "are " ∷ lit "remain " ∷ lit "seem " ∷ [] ∷ [])
    ∷ (lit "disabled" ∷ lit "unavailable" ∷ [])
    ∷ []

abbrev pub inaccessible : List (List Text)
inaccessible =
    (lit "cannot use " ∷ lit "cannot access " ∷ [])
    ∷ (lit "the " ∷ [] ∷ [])
    ∷ (lit "tool" ∷ [])
    ∷ []

abbrev pub restricted : List (List Text)
restricted = (lit "communication-only " ∷ []) ∷ (lit "restriction" ∷ lit "turn" ∷ []) ∷ []

-- The pattern of the source, which folds the case of ASCII letters only.
unfoldable pub is_blocked_text : Text → Bool
is_blocked_text s =
    let t = to_lower s in matches disabled t || matches inaccessible t || matches restricted t

-- What a part adds to the assistant's text; `none` for a call of a tool.
abbrev pub part_text : Fields → Value → Text → Option Text
part_text fs (str t) text =
    if has_tag "text" (get_field "type" fs) then some (text ++ 32 ∷ t) else some text
part_text fs _ text = some text

unfoldable pub add_part : Value → Text → Option Text
add_part (str t) text = some (text ++ 32 ∷ t)
add_part (obj fs) text =
    if has_tag "toolCall" (get_field "type" fs)
    then none
    else part_text fs (get_field "text" fs) text
add_part _ text = some text

abbrev pub add_parts : List Value → Text → Option Text
add_parts [] text = some text
add_parts (part ∷ parts) text = add_part part text >>= add_parts parts

abbrev pub message_parts : Value → List Value
message_parts (arr parts) = items parts
message_parts content = content ∷ []

-- The message of a session entry, or the value itself.
abbrev pub unwrapped : Fields → Value → Fields
unwrapped candidate (obj message) =
    if has_tag "message" (get_field "type" candidate) then message else candidate
unwrapped candidate _ = candidate

unfoldable pub assistant_parts : Value → List Value
assistant_parts (obj candidate) =
    let message = unwrapped candidate (get_field "message" candidate) in
    if has_tag "assistant" (get_field "role" message)
    then message_parts (get_field "content" message)
    else []
assistant_parts _ = []

abbrev pub assistant_text : List Value → Text → Option Text
assistant_text [] text = some text
assistant_text (candidate ∷ messages) text =
    add_parts (assistant_parts candidate) text >>= assistant_text messages

abbrev pub text_outcome : Option Text → CapabilityOutcome
text_outcome none = tool_used
text_outcome (some text) = if is_blocked_text text then capability_blocked else other

unfoldable pub capability_outcome : List Value → CapabilityOutcome
capability_outcome messages = text_outcome (assistant_text messages [])

unfoldable pub advance_capability_circuit :
    CapabilityCircuitState → CapabilityOutcome → ℕ → CapabilityCircuitState
advance_capability_circuit state tool_used now = record {
  consecutive_blockers = 0;
  is_open = false;
  updated_at = now;
}
advance_capability_circuit state capability_blocked now =
    let blockers = min 2 (state.consecutive_blockers + 1) in
    record { consecutive_blockers = blockers; is_open = leb 2 blockers; updated_at = now }
advance_capability_circuit state other now = state

unfoldable pub is_circuit_entry : Value → Bool
is_circuit_entry (obj entry) =
    has_tag "custom" (get_field "type" entry)
    && has_tag "classified-workflows.capability-circuit" (get_field "customType" entry)
is_circuit_entry _ = false

abbrev pub entry_data : Value → Value
entry_data (obj entry) = get_field "data" entry
entry_data _ = Value.undefined

abbrev pub decoded_or_empty : Option CapabilityCircuitState → CapabilityCircuitState
decoded_or_empty none = empty_capability_circuit
decoded_or_empty (some s) = s

abbrev pub found_circuit : Option Value → CapabilityCircuitState
found_circuit none = empty_capability_circuit
found_circuit (some entry) = decoded_or_empty (decode_capability_circuit (entry_data entry))

-- The loop from the last entry to the first.
unfoldable pub restore_capability_circuit : List Value → CapabilityCircuitState
restore_capability_circuit entries = found_circuit (find is_circuit_entry (reverse entries))
