-- ===== src/Tokens/Prompt.antt =====
-- The prompt and the output-token field of a capped payload of pi/extensions/classified-workflows/token-cap.ts keeps.
use text.Mathlib.Text.{◌==◌ as str_eq}
use text.Mathlib.TextEquality.{eq_iff}
use mathlib.Core.Option.{some-injective}
use metagenda.Base.{
  ◌≡◌, refl, sym, ap, subst, none, some, inl, inr, Bool, true, false, String, Bool-cases,
}
use metagenda.Base.Text.{lit}
use metagenda.Base.Value.{Value, str, Fields, field, end, get_field, has_own, set_field}
use metagenda.Tokens.Cap.{is_non_billable, prompt_bearing_payload, output_field, bounded_payload}

same_name : (j k : String) → str_eq j k ≡ true → j ≡ k
same_name j k = (eq_iff j k).0

pub get_field-set_field :
    (k : String) (v : Value) (fs : Fields) → get_field k (set_field k v fs) ≡ v
get_field-set_field k v end = let same = (eq_iff k k).1 refl in rw same refl
get_field-set_field k v (field j u fs) = elim (Bool-cases (str_eq j k)) [
  | inl t ↦ rw t (rw t refl)
  | inr t ↦ rw t (rw t (get_field-set_field k v fs))
]

-- Setting a field that is not billed leaves the prompt as it is.
pub set_field-billed :
    (k : String) (v : Value) (fs : Fields)
    → is_non_billable k ≡ true
    → prompt_bearing_payload (set_field k v fs) ≡ prompt_bearing_payload fs
set_field-billed k v end h = rw h refl
set_field-billed k v (field j u fs) h = elim (Bool-cases (str_eq j k)) [
  | inl t ↦
      let free : is_non_billable j ≡ true =
        subst (λ n. is_non_billable n ≡ true) (sym (same_name j k t)) h in
      rw t (rw free refl)
  | inr t ↦ elim (Bool-cases (is_non_billable j)) [
    | inl f ↦ rw t (rw f (set_field-billed k v fs h))
    | inr f ↦ rw t (rw f (ap (field j u) (set_field-billed k v fs h)))
  ]
]

-- A name that one of the three output-token fields has.
billed_name :
    (n name : String) → is_non_billable n ≡ true → some n ≡ some name → is_non_billable name ≡ true
billed_name n name h e = subst (λ m. is_non_billable m ≡ true) (some-injective n name e) h

pub output_field-billed :
    (payload : Fields) (name : String)
    → output_field payload ≡ some name
    → is_non_billable name ≡ true
unfolding output_field is_non_billable
output_field-billed payload name e = elim (Bool-cases (has_own "max_output_tokens" payload)) [
  | inl t ↦ billed_name "max_output_tokens" name refl (rw t at e)
  | inr t ↦ elim (Bool-cases (has_own "max_completion_tokens" payload)) [
    | inl q ↦ billed_name "max_completion_tokens" name refl (rw (t, q) at e)
    | inr q ↦ elim (Bool-cases (has_own "max_tokens" payload)) [
      | inl z ↦ billed_name "max_tokens" name refl (rw (t, q, z) at e)
      | inr z ↦ let no_name : none ≡ some name = rw (t, q, z) at e in absurd (cc)
    ]
  ]
]

pub bounded_payload-billed :
    (final : Bool) (payload : Fields)
    → prompt_bearing_payload (bounded_payload final payload) ≡ prompt_bearing_payload payload
unfolding is_non_billable
bounded_payload-billed true payload = set_field-billed "tool_choice" (str (lit "none")) payload refl
bounded_payload-billed false payload = refl
