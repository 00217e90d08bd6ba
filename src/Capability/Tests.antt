-- ===== src/Capability/Tests.antt =====
-- The circuit at work: runs of the code, and the theorems at inputs that meet their hypotheses.
use metagenda.Base.{ℕ, ◌≡◌, refl, min, leb, List, [], ◌∷◌, true, arith}
use metagenda.Base.Text.{lit, to_lower, to_lower_unit, text_eq}
use metagenda.Base.Value.{str, obj, field, end}
use metagenda.Capability.Circuit.{
  tool_used, capability_blocked, other, CapabilityOutcome, matches_at, matches, is_blocked_text,
  add_part, assistant_parts, capability_outcome,
}
use metagenda.Capability.Session.{session_start, handshake, Session}
use metagenda.Capability.Streak.{run, streak, run-eq-streak}
use metagenda.Capability.Durable.{IsKept}
use metagenda.Capability.Restarts.{fresh, starts, goes_on, shakes_hands, Reached-IsKept}

blocked_run :
    capability_outcome (
      obj (
        field "role"
          (str (lit "assistant"))
          (field "content" (str (lit "I cannot use the Tools here.")) end))
      ∷ [])
    ≡ capability_blocked
unfolding capability_outcome assistant_parts add_part is_blocked_text matches matches_at to_lower
    to_lower_unit text_eq lit
blocked_run = refl

abbrev outcomes : List (CapabilityOutcome × ℕ)
outcomes = (capability_blocked, 9) ∷ (other, 8) ∷ (capability_blocked, 7) ∷ (tool_used, 6) ∷ []

run-eq-streak_example :
    ((run outcomes).consecutive_blockers ≡ min 2 (streak outcomes))
    × ((run outcomes).is_open ≡ leb 2 (streak outcomes))
run-eq-streak_example = run-eq-streak outcomes

abbrev started : Session
started = session_start true 5 (fresh [])

abbrev shaken : Session
shaken = handshake true 6 started

Reached-IsKept_example : IsKept shaken
Reached-IsKept_example =
    Reached-IsKept shaken
      (goes_on 6 started shaken (starts [] true 5 (omega arith)) (omega arith) (shakes_hands true))
