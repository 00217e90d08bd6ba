-- ===== src/Capability/Streak.antt =====
-- When the circuit of pi/extensions/classified-workflows/capability-circuit.ts opens.
use metagenda.Base.{ℕ, suc, ◌≡◌, refl, min, leb, List, [], ◌∷◌, arith}
use metagenda.Capability.Circuit.{
  CapabilityCircuitState, CapabilityOutcome, tool_used, capability_blocked, other,
  empty_capability_circuit, advance_capability_circuit,
}

-- The circuit after some outcomes with their times, the latest first.
abbrev pub run : List (CapabilityOutcome × ℕ) → CapabilityCircuitState
run [] = empty_capability_circuit
run ((outcome, now) ∷ older) = advance_capability_circuit (run older) outcome now

-- The outcomes without a capability since a tool was last used.
abbrev pub streak : List (CapabilityOutcome × ℕ) → ℕ
streak [] = 0
streak ((tool_used, now) ∷ older) = 0
streak ((capability_blocked, now) ∷ older) = suc (streak older)
streak ((other, now) ∷ older) = streak older

-- Whatever outcomes there were, the circuit counts those that a missing capability blocked since a
-- tool was last used, up to two, and it is open exactly from the second of them on.
pub run-eq-streak :
    (outcomes : List (CapabilityOutcome × ℕ))
    → ((run outcomes).consecutive_blockers ≡ min 2 (streak outcomes))
      × ((run outcomes).is_open ≡ leb 2 (streak outcomes))
unfolding empty_capability_circuit advance_capability_circuit
run-eq-streak [] = (refl, refl)
run-eq-streak ((tool_used, now) ∷ older) = (refl, refl)
run-eq-streak ((capability_blocked, now) ∷ older) =
    let (n, o) = run-eq-streak older in (omega arith, ground arith)
run-eq-streak ((other, now) ∷ older) = run-eq-streak older
