-- ===== src/Base/Value.antt =====
-- Values of `unknown` type: what JSON and the session log hold.
use text.Mathlib.Text.{◌==◌ as str_eq}
use metagenda.Base.{
  ℕ, ◌/◌, ◌%◌, ◌^◌, String, Bool, true, false, ltb, List, [], ◌∷◌, Option, none, some,
  if◌then◌else◌,
}
use metagenda.Base.Int.{ℤ, pos}
use metagenda.Base.Text.{Text, text_eq, lit}

-- `int` is a number without fraction; `float` is any other number (a fraction, an infinity or NaN)
-- by the bit pattern of its double.
mutual
  pub data Fields : Type 0 where
    end : Fields
    field : String → Value → Fields → Fields

  pub data Value : Type 0 where
    undefined null : Value
    bool : Bool → Value
    int : ℤ → Value
    float : ℕ → Value
    str : Text → Value
    obj : Fields → Value
    arr : Items → Value

  pub data Items : Type 0 where
    nil : Items
    cons : Value → Items → Items

-- `value[name]`: a missing property is `undefined`.
abbrev pub get_field : String → Fields → Value
get_field k end = undefined
get_field k (field j v fs) = if str_eq j k then v else get_field k fs

abbrev pub items : Items → List Value
items nil = []
items (cons v vs) = v ∷ items vs

abbrev pub from_list : List Value → Items
from_list [] = nil
from_list (v ∷ vs) = cons v (from_list vs)

-- `Number.MAX_SAFE_INTEGER`
abbrev pub max_safe_integer : ℕ
max_safe_integer = 9007199254740991

-- `Number.isFinite(v)`: the exponent bits of a double are not all ones.
unfoldable pub is_finite : Value → Bool
is_finite (int z) = true
is_finite (float bits) = ltb ((bits / 2 ^ 52) % 2 ^ 11) 2047
is_finite _ = false

-- Decoding: `none` where the source returns `undefined`.
infixl 5 ◌>>=◌ ◌>>◌
abbrev pub ◌>>=◌ {ℓ κ} : {A : Type ℓ} {B : Type κ} → Option A → (A → Option B) → Option B
none >>= f = none
some a >>= f = f a

abbrev pub ◌>>◌ {ℓ} : {B : Type ℓ} → Option (Unit {0}) → Option B → Option B
m >> k = m >>= λ _. k

abbrev pub require : Bool → Option (Unit {0})
require true = some tt
require false = none

-- `isRecord(v) ? v : undefined`
abbrev pub as_record : Value → Option Fields
as_record (obj fs) = some fs
as_record _ = none

abbrev pub as_items : Value → Option Items
as_items (arr vs) = some vs
as_items _ = none

abbrev pub as_text : Value → Option Text
as_text (str s) = some s
as_text _ = none

abbrev pub as_bool : Value → Option Bool
as_bool (bool b) = some b
as_bool _ = none

-- `isNonNegativeInteger(v) ? v : undefined`
abbrev pub as_count : Value → Option ℕ
as_count (int (pos n)) = some n
as_count _ = none

-- A field that may be missing: `v !== undefined && !ok(v)` fails.
abbrev pub as_optional {ℓ} : {A : Type ℓ} → (Value → Option A) → Value → Option (Option A)
as_optional decode undefined = some none
as_optional decode v = elim (decode v) [ none ↦ none | some a ↦ some (some a) ]

-- `...(v !== undefined ? { [name]: v } : {})`
abbrev pub optional_field : String → Option Value → Fields → Fields
optional_field name none fs = fs
optional_field name (some v) fs = field name v fs

abbrev pub has_tag : String → Value → Bool
has_tag name (str s) = text_eq s (lit name)
has_tag name _ = false

-- `Object.hasOwn(value, name)`
abbrev pub has_own : String → Fields → Bool
has_own k end = false
has_own k (field j v fs) = if str_eq j k then true else has_own k fs

-- `{ ...value, [name]: v }`
abbrev pub set_field : String → Value → Fields → Fields
set_field k v end = field k v end
set_field k v (field j u fs) = if str_eq j k then field j v fs else field j u (set_field k v fs)
