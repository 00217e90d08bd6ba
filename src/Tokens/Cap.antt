-- ===== src/Tokens/Cap.antt =====
-- `capProviderOutputTokens` and the two checks of limits of
-- pi/extensions/classified-workflows/token-cap.ts.
use metagenda.Base.{
  ℕ, ◌+◌, ◌-◌, ◌*◌, ◌/◌, min, Option, none, some, [], ◌∷◌, ◌++◌, Bool, true, false, not, ◌&&◌, ltb,
  leb, if◌then◌else◌, length, String, Outcome, succeed, fail, any,
}
use text.Mathlib.Text.{◌==◌ as str_eq}
use metagenda.Base.Int.{pos}
use metagenda.Base.Text.{Text, lit, decimal}
use metagenda.Base.Value.{
  Value, undefined, null, int, str, obj, arr, Fields, cons, field, end, get_field, has_own,
  set_field, has_tag, max_safe_integer,
}

abbrev pub token_accounting_reserve : ℕ
token_accounting_reserve = 512

abbrev pub min_child_output_tokens : ℕ
min_child_output_tokens = 1024

abbrev pub max_workflow_child_token_limit : ℕ
max_workflow_child_token_limit = 5000000

abbrev pub min_executable_workflow_child_tokens : ℕ
min_executable_workflow_child_tokens = 80000

pub data Enforcement : Type 0 where
  provider process_measured : Enforcement

pub record CappedProviderPayload : Type 0 where
  pub payload : Fields
  pub estimated_prompt_tokens : ℕ
  pub output_token_limit : ℕ
  pub enforcement : Enforcement
  pub final_response_required : Bool

-- `Number.isSafeInteger(v) && v >= least ? v : undefined`
abbrev pub safe_from : ℕ → Value → Option ℕ
safe_from least (int (pos n)) = if leb least n && leb n max_safe_integer then some n else none
safe_from least _ = none

-- `NON_BILLABLE_PROVIDER_PAYLOAD_FIELDS.has(field)`
unfoldable pub is_non_billable : String → Bool
is_non_billable name = any (str_eq name) (
    "include" ∷ "max_completion_tokens" ∷ "max_output_tokens" ∷ "max_tokens" ∷ "parallel_tool_calls"
    ∷ "prompt_cache_key" ∷ "store" ∷ "stream" ∷ "tool_choice" ∷ [])

abbrev pub prompt_bearing_payload : Fields → Fields
prompt_bearing_payload end = end
prompt_bearing_payload (field k v fs) =
    if is_non_billable k then prompt_bearing_payload fs else field k v (prompt_bearing_payload fs)

-- The first of `OUTPUT_TOKEN_FIELDS` that the payload has.
unfoldable pub output_field : Fields → Option String
output_field payload =
    if has_own "max_output_tokens" payload
    then some "max_output_tokens"
    else if has_own "max_completion_tokens" payload
    then some "max_completion_tokens"
    else if has_own "max_tokens" payload
    then some "max_tokens"
    else none

abbrev pub has_tools : Value → Bool
has_tools (arr (cons v vs)) = true
has_tools _ = false

unfoldable pub is_final : Fields → ℕ → ℕ → Bool
is_final payload limit estimated =
    has_tools (get_field "tools" payload)
    && has_own "tool_choice" payload
    && not (has_tag "none" (get_field "tool_choice" payload))
    && ltb limit (estimated * 3 + token_accounting_reserve)

abbrev pub bounded_payload : Bool → Fields → Fields
bounded_payload final payload =
    if final then set_field "tool_choice" (str (lit "none")) payload else payload

unfoldable pub no_budget : ℕ → ℕ → ℕ → Text
no_budget estimated limit consumed =
    let least =
      decimal (consumed + estimated + token_accounting_reserve + min_child_output_tokens) in
    lit "Workflow child prompt estimate leaves no usable synthesis budget ("
    ++ decimal estimated
    ++ lit "+512+1024/"
    ++ decimal limit
    ++ lit " remaining; "
    ++ decimal consumed
    ++ lit " already used). Minimum child allocation is "
    ++ least
    ++ lit
        " tokens; increase workflow tokenBudget or reduce maxAgents/current fan-out so this child receives at least "
    ++ least
    ++ lit " tokens."

abbrev pub capped : Fields → ℕ → ℕ → Enforcement → Bool → CappedProviderPayload
capped payload estimated output enforcement final = record {
  payload = payload;
  estimated_prompt_tokens = estimated;
  output_token_limit = output;
  enforcement = enforcement;
  final_response_required = final;
}

-- The payload with its output-token field lowered.
abbrev pub lower_field :
    Fields → ℕ → ℕ → Bool → String → Option ℕ → Outcome Text CappedProviderPayload
lower_field payload estimated available final name none =
    fail (lit "Workflow child provider payload " ++ lit name ++ lit " is malformed")
lower_field payload estimated available final name (some configured) = succeed (
    capped (set_field name (int (pos (min configured available))) (bounded_payload final payload))
      estimated (min configured available) provider final)

abbrev pub cap_field :
    Fields → ℕ → ℕ → Bool → Bool → Option String → Outcome Text CappedProviderPayload
cap_field payload estimated available final allow_process_measured none =
    if allow_process_measured
    then succeed (capped (bounded_payload final payload) estimated available process_measured final)
    else fail (lit "Workflow child provider payload has no recognized output-token field")
cap_field payload estimated available final allow_process_measured (some name) =
    lower_field payload estimated available final name (safe_from 1 (get_field name payload))

abbrev pub estimate : Text → ℕ
estimate encoded = (length encoded + 3) / 4

abbrev pub cap_encoded : Bool → Fields → ℕ → ℕ → Option Text → Outcome Text CappedProviderPayload
cap_encoded allow_process_measured payload limit consumed none =
    fail (lit "Workflow child provider payload is not serializable")
cap_encoded allow_process_measured payload limit consumed (some encoded) =
    let estimated = estimate encoded in
    let available = limit - estimated - token_accounting_reserve in
    if ltb available min_child_output_tokens
    then fail (no_budget estimated limit consumed)
    else cap_field payload estimated available (is_final payload limit estimated)
        allow_process_measured (output_field payload)

-- `stringify` is `JSON.stringify`, `none` where it throws.
module _ (stringify : Fields → Option Text) where
  abbrev pub cap_consumed : Bool → Fields → ℕ → Option ℕ → Outcome Text CappedProviderPayload
  cap_consumed allow_process_measured payload limit none =
      fail (lit "Workflow child consumed-token count is malformed")
  cap_consumed allow_process_measured payload limit (some consumed) =
      cap_encoded allow_process_measured payload limit consumed
        (stringify (prompt_bearing_payload payload))

  -- A missing count of consumed tokens is 0.
  abbrev pub consumed_tokens : Value → Option ℕ
  consumed_tokens undefined = some 0
  consumed_tokens null = some 0
  consumed_tokens v = safe_from 0 v

  abbrev pub cap_limit : Bool → Value → Fields → Option ℕ → Outcome Text CappedProviderPayload
  cap_limit allow_process_measured consumed payload none =
      fail (lit "Workflow child token limit is malformed")
  cap_limit allow_process_measured consumed payload (some limit) =
      cap_consumed allow_process_measured payload limit (consumed_tokens consumed)

  unfoldable pub cap_provider_output_tokens :
      Value → Value → Bool → Value → Outcome Text CappedProviderPayload
  cap_provider_output_tokens (obj payload) limit allow_process_measured consumed =
      cap_limit allow_process_measured consumed payload (safe_from 1 limit)
  cap_provider_output_tokens _ limit allow_process_measured consumed =
      fail (lit "Workflow child provider payload is malformed")

unfoldable pub too_small : ℕ → ℕ → Text
too_small available agents =
    lit
      "Workflow token budget cannot launch: minimum executable allocation is 80000 tokens per configured agent; "
    ++ decimal available
    ++ lit " available. Increase tokenBudget to at least "
    ++ decimal (min_executable_workflow_child_tokens * agents)
    ++ lit " or reduce maxAgents."

abbrev pub assert_envelope : Option ℕ → Option ℕ → Outcome Text (Unit {0})
assert_envelope (some budget) (some agents) =
    if ltb (budget / agents) min_executable_workflow_child_tokens
    then fail (too_small (budget / agents) agents)
    else succeed tt
assert_envelope _ _ = fail (lit "Workflow token budget envelope is malformed")

unfoldable pub assert_executable_workflow_budget : Value → Value → Outcome Text (Unit {0})
assert_executable_workflow_budget budget agents =
    assert_envelope (safe_from 1 budget) (safe_from 1 agents)

-- `to_number` is `Number(…)` of a text.
module _ (to_number : Text → Value) where
  abbrev pub within_limit : Option ℕ → Outcome Text (Option ℕ)
  within_limit none = fail (lit "Workflow child token environment limit is malformed")
  within_limit (some n) =
      if ltb max_workflow_child_token_limit n
      then fail (lit "Workflow child token environment limit is malformed")
      else succeed (some n)

  unfoldable pub workflow_child_token_limit : Option Text → Outcome Text (Option ℕ)
  workflow_child_token_limit none = succeed none
  workflow_child_token_limit (some value) = within_limit (safe_from 1 (to_number value))
