-- ===== src/Tokens/Child.antt =====
-- A workflow's child over its provider requests: the two handlers of
-- pi/extensions/classified-workflows/index.ts that cap them.
use metagenda.Base.{ℕ, ◌+◌, ◌≤◌, ◌≡◌, Option, Bool, Outcome, succeed}
use metagenda.Base.Int.{pos, ◌-ℤ◌}
use metagenda.Base.Text.{Text}
use metagenda.Base.Value.{Value, int, Fields}
use metagenda.Tokens.Cap.{
  CappedProviderPayload, token_accounting_reserve, cap_provider_output_tokens,
}

module _ (stringify : Fields → Option Text) where
  -- `before_provider_request` of a child with a limit, after some used tokens.
  unfoldable pub before_provider_request : ℕ → ℕ → Value → Bool → Outcome Text CappedProviderPayload
  before_provider_request limit used payload measured =
      cap_provider_output_tokens stringify payload (int (pos limit -ℤ pos used)) measured
        (int (pos used))

  -- The tokens that a child may have used. A request that is not refused is answered within the
  -- estimate of its prompt, the reserve and its output limit; `message_end` adds its tokens. A refused
  -- request is aborted.
  pub data Uses (limit : ℕ) : ℕ → Type 0 where
    starts : Uses limit 0
    asks :
        {used : ℕ}
        → (payload : Value) → (measured : Bool) → (c : CappedProviderPayload) → (tokens : ℕ)
        → Uses limit used
        → before_provider_request limit used payload measured ≡ succeed c
        → tokens ≤ c.estimated_prompt_tokens + token_accounting_reserve + c.output_token_limit
        → Uses limit (used + tokens)
