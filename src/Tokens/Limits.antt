-- ===== src/Tokens/Limits.antt =====
-- What the token limit of pi/extensions/classified-workflows/token-cap.ts keeps.
use mathlib.Core.Option.{some-injective}
use metagenda.Base.{
  ℕ, ◌+◌, ◌-◌, ◌≤◌, ◌<◌, ◌≡◌, refl, sym, ◌∙◌, subst, min, Option, none, some, inl, inr, Bool, true,
  false, ltb, leb, String, Outcome, succeed, fail, arith, Bool-cases,
}
use metagenda.Base.Int.{pos, negsuc}
use metagenda.Base.Text.{Text}
use metagenda.Base.Value.{
  Value, undefined, null, bool, float, arr, int, obj, str, Fields, get_field, set_field,
}
use metagenda.Tokens.Cap.{
  CappedProviderPayload, provider, token_accounting_reserve, min_child_output_tokens, safe_from,
  prompt_bearing_payload, output_field, is_final, bounded_payload, capped, lower_field, cap_field,
  estimate, cap_encoded, cap_consumed, consumed_tokens, cap_limit, cap_provider_output_tokens,
}
use metagenda.Tokens.Prompt.{
  get_field-set_field, set_field-billed, output_field-billed, bounded_payload-billed,
}

-- What a payload is capped to.
pub record IsCapped (payload : Fields) (limit : ℕ) (c : CappedProviderPayload) : Type 0 where
  pub within : c.estimated_prompt_tokens + token_accounting_reserve + c.output_token_limit ≤ limit
  pub usable : 0 < c.output_token_limit
  pub billed : prompt_bearing_payload c.payload ≡ prompt_bearing_payload payload
  pub lowered :
      (name : String)
      → output_field payload ≡ some name
      → get_field name c.payload ≡ int (pos c.output_token_limit)

safe_from-least : (least n : ℕ) (v : Value) → safe_from least v ≡ some n → least ≤ n
safe_from-least least n (int (pos m)) e = elim (Bool-cases (leb least m)) [
  | inl t ↦ ground arith
  | inr t ↦ absurd (ground arith)
]
safe_from-least least n (int (negsuc m)) e = absurd (cc)
safe_from-least least n undefined e = absurd (cc)
safe_from-least least n null e = absurd (cc)
safe_from-least least n (bool b) e = absurd (cc)
safe_from-least least n (float b) e = absurd (cc)
safe_from-least least n (str b) e = absurd (cc)
safe_from-least least n (obj b) e = absurd (cc)
safe_from-least least n (arr b) e = absurd (cc)

-- Where an answer is a payload, it is capped.
abbrev pub CapsWell : Fields → ℕ → Outcome Text CappedProviderPayload → Type 0
CapsWell payload limit (succeed c) = IsCapped payload limit c
CapsWell payload limit (fail m) = Unit {0}

lowered-IsCapped :
    (payload : Fields) (limit estimated available configured : ℕ) (final : Bool) (name : String)
    → estimated + token_accounting_reserve + available ≤ limit
    → 0 < available
    → 0 < configured
    → output_field payload ≡ some name
    → IsCapped payload limit (
        capped
          (set_field name (int (pos (min configured available))) (bounded_payload final payload))
          estimated
          (min configured available)
          provider
          final)
lowered-IsCapped payload limit estimated available configured final name w u p f = record {
  within = omega arith;
  usable = omega arith;
  billed =
      set_field-billed name _ (bounded_payload final payload) (output_field-billed payload name f)
      ∙ bounded_payload-billed final payload;
  lowered = λ n q.
      subst
        (λ m.
          get_field m
            (set_field name (int (pos (min configured available))) (bounded_payload final payload))
          ≡ int (pos (min configured available)))
        (some-injective name n (sym f ∙ q))
        (get_field-set_field name _ (bounded_payload final payload));
}

lower_field-CapsWell :
    (payload : Fields) (limit estimated available : ℕ) (final : Bool) (name : String) (o : Option ℕ)
    → estimated + token_accounting_reserve + available ≤ limit
    → 0 < available
    → output_field payload ≡ some name
    → ((n : ℕ) → o ≡ some n → 1 ≤ n)
    → CapsWell payload limit (lower_field payload estimated available final name o)
lower_field-CapsWell payload limit estimated available final name none w u f p = tt
lower_field-CapsWell payload limit estimated available final name (some n) w u f p =
    lowered-IsCapped payload limit estimated available n final name w u (p n refl) f

cap_field-CapsWell :
    (payload : Fields) (limit estimated available : ℕ) (final allow : Bool) (o : Option String)
    → estimated + token_accounting_reserve + available ≤ limit
    → 0 < available
    → output_field payload ≡ o
    → CapsWell payload limit (cap_field payload estimated available final allow o)
cap_field-CapsWell payload limit estimated available final true none w u f = record {
  within = w;
  usable = u;
  billed = bounded_payload-billed final payload;
  lowered = λ n q. absurd (cc);
}
cap_field-CapsWell payload limit estimated available final false none w u f = tt
cap_field-CapsWell payload limit estimated available final allow (some name) w u f =
    lower_field-CapsWell payload limit estimated available final name
      (safe_from 1 (get_field name payload)) w u f
      (λ n e. safe_from-least 1 n (get_field name payload) e)

cap_encoded-CapsWell :
    (allow : Bool) (payload : Fields) (limit consumed : ℕ) (o : Option Text)
    → CapsWell payload limit (cap_encoded allow payload limit consumed o)
cap_encoded-CapsWell allow payload limit consumed none = tt
cap_encoded-CapsWell allow payload limit consumed (some encoded) =
    let available = limit - estimate encoded - token_accounting_reserve in
    elim (Bool-cases (ltb available min_child_output_tokens)) [
      | inl t ↦ rw t tt
      | inr t ↦ rw t (
          cap_field-CapsWell payload limit (estimate encoded) available
            (is_final payload limit (estimate encoded)) allow (output_field payload) (ground arith)
            (ground arith) refl)
    ]

module _ (stringify : Fields → Option Text) where
  cap_consumed-CapsWell :
      (allow : Bool) (payload : Fields) (limit : ℕ) (o : Option ℕ)
      → CapsWell payload limit (cap_consumed stringify allow payload limit o)
  cap_consumed-CapsWell allow payload limit none = tt
  cap_consumed-CapsWell allow payload limit (some consumed) =
      cap_encoded-CapsWell allow payload limit consumed (stringify (prompt_bearing_payload payload))

  -- The limit that a value gives; any other value is refused.
  cap_limit-CapsWell :
      (allow : Bool) (consumed : Value) (payload : Fields) (limit : ℕ) (o : Option ℕ)
      → o ≡ some limit
      → CapsWell payload limit (cap_limit stringify allow consumed payload o)
  cap_limit-CapsWell allow consumed payload limit o e =
      rw e (cap_consumed-CapsWell allow payload limit (consumed_tokens stringify consumed))

  -- Where a child's payload is capped at a safe positive limit, the estimate of its prompt, the
  -- reserve and its output limit are together within that limit, the output limit is positive, the
  -- payload's output-token field, where it has one, is set to it, and the part of the payload that is
  -- billed as prompt is unchanged.
  pub cap_provider_output_tokens-CapsWell :
      (payload : Fields) (limit : ℕ) (allow : Bool) (consumed : Value)
      → safe_from 1 (int (pos limit)) ≡ some limit
      → CapsWell payload limit
          (cap_provider_output_tokens stringify (obj payload) (int (pos limit)) allow consumed)
  unfolding cap_provider_output_tokens
  cap_provider_output_tokens-CapsWell payload limit allow consumed e =
      cap_limit-CapsWell allow consumed payload limit (safe_from 1 (int (pos limit))) e
