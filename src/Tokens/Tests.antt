-- ===== src/Tokens/Tests.antt =====
-- The token limit at work: a run of the code, and the theorems at inputs that meet their hypotheses.
use metagenda.Base.{refl, Option, some, false, Outcome}
use metagenda.Base.Int.{pos}
use metagenda.Base.Text.{Text, lit}
use metagenda.Base.Value.{undefined, int, str, obj, Fields, field, end}
use metagenda.Tokens.Cap.{provider, CappedProviderPayload, cap_provider_output_tokens}
use metagenda.Tokens.Limits.{CapsWell, cap_provider_output_tokens-CapsWell}

abbrev payload : Fields
payload = field "input" (str (lit "Hi")) (field "max_output_tokens" (int (pos 4000)) end)

-- Eight characters, so two tokens.
abbrev stringify : Fields → Option Text
stringify fs = some (lit "12345678")

abbrev answer : Outcome Text CappedProviderPayload
answer = cap_provider_output_tokens stringify (obj payload) (int (pos 3000)) false undefined

cap_provider_output_tokens-CapsWell_example : CapsWell payload 3000 answer
cap_provider_output_tokens-CapsWell_example =
    cap_provider_output_tokens-CapsWell stringify payload 3000 false undefined refl

abbrev lowered : CappedProviderPayload
lowered = record {
  payload = field "input" (str (lit "Hi")) (field "max_output_tokens" (int (pos 2486)) end);
  estimated_prompt_tokens = 2;
  output_token_limit = 2486;
  enforcement = provider;
  final_response_required = false;
}
