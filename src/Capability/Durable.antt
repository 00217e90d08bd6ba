-- ===== src/Capability/Durable.antt =====
-- The session log of pi/extensions/classified-workflows/index.ts restores the circuit and the pause.
use mathlib.Core.List.{reverse}
use metagenda.Base.{
  ℕ, ◌≤◌, ◌≡◌, refl, sym, ap, ◌∙◌, subst, inl, inr, Option, none, some, List, [], ◌∷◌, ◌++◌, Bool,
  true, false, ◌&&◌, ◌==◌, leb, find, arith, Bool-cases, Option-cases,
}
use metagenda.Base.Text.{lit, text_eq}
use metagenda.Base.Value.{
  Value, obj, get_field, as_count, as_bool, max_safe_integer, is_finite, ◌>>=◌,
}
use metagenda.Base.Reverse.{reverse-last}
use metagenda.Capability.Circuit.{
  CapabilityCircuitState, CapabilityOutcome, tool_used, capability_blocked, other,
  empty_capability_circuit, decode_capability_circuit, same_bool, advance_capability_circuit,
  is_circuit_entry, entry_data, found_circuit, decoded_or_empty, restore_capability_circuit,
}
use metagenda.Capability.Pause.{
  parse_continuation_pause, is_pause_entry, latest_continuation_pause, is_continuation_paused,
  pauses, parse_entry,
}
use metagenda.Capability.Session.{
  Session, circuit_entry, pause_entry, set_capability_circuit, set_continuation_paused,
}

-- What a circuit's stored form keeps.
pub record IsStorable (c : CapabilityCircuitState) : Type 0 where
  pub bounded : c.consecutive_blockers ≤ 2
  pub agrees : c.is_open ≡ leb 2 c.consecutive_blockers
  pub safe : c.updated_at ≤ max_safe_integer

find-newest :
    (p : Value → Bool) (log : List Value) (v : Value)
    → p v ≡ true
    → find p (reverse (log ++ v ∷ [])) ≡ some v
find-newest p log v h = ap (find p) (reverse-last log [] v) ∙ ground arith

pub find-older :
    (p : Value → Bool) (log : List Value) (v : Value)
    → p v ≡ false
    → find p (reverse (log ++ v ∷ [])) ≡ find p (reverse log)
find-older p log v h = ap (find p) (reverse-last log [] v) ∙ ground arith

same_bool_refl : (b : Bool) → same_bool b b ≡ true
same_bool_refl true = refl
same_bool_refl false = refl

same_bool_eq : (a b : Bool) → same_bool a b ≡ true → a ≡ b
same_bool_eq true b h = sym h
same_bool_eq false true h = absurd (cc)
same_bool_eq false false h = refl

decode-stored :
    (c : CapabilityCircuitState)
    → IsStorable c
    → decode_capability_circuit (entry_data (circuit_entry c)) ≡ some c
unfolding decode_capability_circuit
decode-stored c s =
    let b : leb c.consecutive_blockers 2 ≡ true = (let q = s.bounded in ground arith) in
    let t : leb c.updated_at max_safe_integer ≡ true = (let q = s.safe in ground arith) in
    let o : same_bool c.is_open (leb 2 c.consecutive_blockers) ≡ true =
      subst (λ z. same_bool c.is_open z ≡ true) s.agrees (same_bool_refl c.is_open) in
    rw (b, t, o) refl

circuit_entry-marked : (c : CapabilityCircuitState) → is_circuit_entry (circuit_entry c) ≡ true
unfolding is_circuit_entry text_eq lit
circuit_entry-marked c = refl

circuit_entry-no_pause : (c : CapabilityCircuitState) → is_pause_entry (circuit_entry c) ≡ false
unfolding is_pause_entry text_eq lit
circuit_entry-no_pause c = refl

pause_entry-marked : (b : Bool) (now : ℕ) → is_pause_entry (pause_entry b now) ≡ true
unfolding is_pause_entry text_eq lit
pause_entry-marked b now = refl

pause_entry-no_circuit : (b : Bool) (now : ℕ) → is_circuit_entry (pause_entry b now) ≡ false
unfolding is_circuit_entry text_eq lit
pause_entry-no_circuit b now = refl

abbrev AnyStorable : Option CapabilityCircuitState → Type 0
AnyStorable none = Unit {0}
AnyStorable (some c) = IsStorable c

-- A decoded circuit is well formed, whatever the value holds.
decode-AnyStorable : (v : Value) → AnyStorable (decode_capability_circuit v)
unfolding decode_capability_circuit
decode-AnyStorable (obj fs) = elim (Option-cases (as_count (get_field "consecutiveBlockers" fs))) [
  | inl e ↦ rw e tt
  | inr (n, e) ↦ rw e (elim (Bool-cases (leb n 2)) [
    | inr l ↦ rw l tt
    | inl l ↦ rw l (elim (Option-cases (as_bool (get_field "open" fs))) [
      | inl f ↦ rw f tt
      | inr (b, f) ↦ rw f (elim (Option-cases (as_count (get_field "updatedAt" fs))) [
        | inl g ↦ rw g tt
        | inr (t, g) ↦ rw g (elim (Bool-cases (leb t max_safe_integer)) [
          | inr m ↦ rw m tt
          | inl m ↦ rw m (elim (Bool-cases (same_bool b (leb 2 n))) [
            | inr k ↦ rw k tt
            | inl k ↦ rw k (record {
              bounded = ground arith;
              agrees = same_bool_eq b (leb 2 n) k;
              safe = ground arith;
            })
          ])
        ])
      ])
    ])
  ])
]
decode-AnyStorable _ = tt

pub found-IsStorable : (o : Option Value) → IsStorable (found_circuit o)
unfolding empty_capability_circuit
found-IsStorable none = record { bounded = omega arith; agrees = refl; safe = omega arith }
found-IsStorable (some v) = elim (Option-cases (decode_capability_circuit (entry_data v))) [
  | inl e ↦ rw e (record { bounded = omega arith; agrees = refl; safe = omega arith })
  | inr (c, e) ↦ rw e (subst AnyStorable e (decode-AnyStorable (entry_data v)))
]

pub advance-IsStorable :
    (c : CapabilityCircuitState) (o : CapabilityOutcome) (now : ℕ)
    → now ≤ max_safe_integer
    → IsStorable c
    → IsStorable (advance_capability_circuit c o now)
unfolding advance_capability_circuit
advance-IsStorable c tool_used now n s = record { bounded = omega arith; agrees = refl; safe = n }
advance-IsStorable c capability_blocked now n s = record {
  bounded = omega arith;
  agrees = refl;
  safe = n;
}
advance-IsStorable c other now n s = s

-- The log restores the circuit and the pause.
pub record IsKept (s : Session) : Type 0 where
  pub circuit : restore_capability_circuit s.log ≡ s.circuit
  pub pause : is_continuation_paused s.log ≡ s.paused
  pub storable : IsStorable s.circuit

pub circuit-IsKept :
    (c : CapabilityCircuitState) (s : Session)
    → IsStorable c
    → IsKept s
    → IsKept (record s { circuit = c; log = s.log ++ circuit_entry c ∷ [] })
unfolding restore_capability_circuit is_continuation_paused latest_continuation_pause
circuit-IsKept c s v k = record {
  circuit =
      ap found_circuit
        (find-newest is_circuit_entry s.log (circuit_entry c) (circuit_entry-marked c))
      ∙ ap decoded_or_empty (decode-stored c v);
  pause =
      ap (λ o. pauses (o >>= parse_entry))
        (find-older is_pause_entry s.log (circuit_entry c) (circuit_entry-no_pause c))
      ∙ k.pause;
  storable = v;
}

pub set_capability_circuit-IsKept :
    (c : CapabilityCircuitState) (s : Session)
    → IsStorable c
    → IsKept s
    → IsKept (set_capability_circuit c s)
unfolding set_capability_circuit
set_capability_circuit-IsKept c s v k =
    elim (Bool-cases (
      same_bool c.is_open s.circuit.is_open
      && c.consecutive_blockers == s.circuit.consecutive_blockers)) [
        | inl t ↦ rw t k
        | inr t ↦ rw t (circuit-IsKept c s v k)
      ]

pub set_continuation_paused-IsKept :
    (b : Bool) (now : ℕ) (s : Session) → IsKept s → IsKept (set_continuation_paused b now s)
unfolding set_continuation_paused restore_capability_circuit is_continuation_paused
    latest_continuation_pause parse_continuation_pause is_finite
set_continuation_paused-IsKept b now s k = elim (Bool-cases (same_bool s.paused b)) [
  | inl t ↦ rw t k
  | inr t ↦ rw t (record {
    circuit =
        ap found_circuit
          (find-older is_circuit_entry s.log (pause_entry b now) (pause_entry-no_circuit b now))
        ∙ k.circuit;
    pause =
        ap (λ o. pauses (o >>= parse_entry))
          (find-newest is_pause_entry s.log (pause_entry b now) (pause_entry-marked b now));
    storable = k.storable;
  })
]
