-- ===== src/Loop/Schedule.antt =====
-- When a loop of pi/extensions/classified-workflows/loop.ts runs next, and what it sends.
use metagenda.Base.{
  ℕ, ◌+◌, Option, none, some, List, [], ◌∷◌, ◌++◌, Bool, true, false, not, ◌&&◌, ◌||◌, leb, ltb,
  ◌==◌, if◌then◌else◌, any, Outcome, succeed, fail, ◌>>=◌,
}
use metagenda.Base.Int.{ℤ, pos, pos_part, neg_part, ◌+ℤ◌}
use metagenda.Base.Text.{Text, lit, text_eq, trim, is_space, trim_start, to_lower, decimal}
use metagenda.Base.Value.{max_safe_integer}
use metagenda.Loop.Types.{
  LoopFields, LoopState, active, LoopCommand, set, LoopDispatch, command, prompt, LoopCommandError,
  loop_failure, default_loop_interval_ms, review_duty_loop_interval_ms, review_duty_loop_jitter_ms,
  legacy_review_duty_loop_interval_ms,
}
use metagenda.Loop.Command.{parse_loop_command, amount}

-- `Math.abs`
abbrev pub magnitude : ℤ → ℕ
magnitude z = pos_part z + neg_part z

-- `state.jitterMs ?? 0`
abbrev pub jitter_bound : Option ℕ → ℕ
jitter_bound none = 0
jitter_bound (some j) = j

-- `random_int j` is `randomInt(-j, j + 1)` of node:crypto.
unfoldable pub sampled_jitter : (ℕ → ℤ) → Option ℕ → ℤ
sampled_jitter random_int none = pos 0
sampled_jitter random_int (some j) = random_int j

unfoldable pub next_loop_run_at : LoopFields → ℕ → ℤ → Outcome LoopCommandError ℤ
next_loop_run_at state now offset =
    if not (leb (magnitude offset) max_safe_integer)
      || ltb (jitter_bound state.jitter_ms) (magnitude offset)
    then fail (loop_failure "Loop jitter offset is outside the configured bound.")
    else succeed (pos (now + state.interval_ms) +ℤ offset)

-- The literal texts of `REVIEW_DUTY_INSTRUCTIONS`.
abbrev pub review_duty_instructions : List Text
review_duty_instructions =
    lit
      "Re-scan ST0x-Technology and rainlanguage PR duty; process newly actionable own and assigned-review work under the loaded repository and review policies, then remain operational."
    ∷ lit
        "Re-scan DataClique PR duty; process newly actionable own and assigned-review work under the loaded repository and review policies, then remain operational."
    ∷ lit
        "Re-scan 0xgleb personal-repository PR duty; process newly actionable own and assigned-review work under the loaded repository and review policies, then remain operational."
    ∷ []

abbrev pub has_review_jitter : Option ℕ → Bool
has_review_jitter none = false
has_review_jitter (some j) = j == review_duty_loop_jitter_ms

unfoldable pub is_migratable : LoopFields → Bool
is_migratable state =
    (state.interval_ms == legacy_review_duty_loop_interval_ms
      || state.interval_ms == review_duty_loop_interval_ms)
    && not (has_review_jitter state.jitter_ms)
    && any (λ t. text_eq t state.instruction) review_duty_instructions

unfoldable pub migrate_review_duty_loop_cadence :
    Option LoopState → ℕ → ℤ → Outcome LoopCommandError (Option LoopFields)
migrate_review_duty_loop_cadence (some (active state)) now offset =
    let migrated = record state {
      interval_ms = review_duty_loop_interval_ms;
      jitter_ms = some review_duty_loop_jitter_ms;
    } in
    if is_migratable state
    then (next_loop_run_at migrated now offset >>= λ at.
        succeed (some (record migrated { next_run_at = at })))
    else succeed none
migrate_review_duty_loop_cadence _ now offset = succeed none

unfoldable pub advance_loop : LoopFields → ℕ → ℤ → Outcome LoopCommandError LoopFields
advance_loop state now offset = next_loop_run_at state now offset >>= λ at.
    succeed (record state { next_run_at = at; runs = state.runs + 1; last_run_at = some now })

-- `prefix(?:\s|$)` at the front of a text, whatever the case.
unfoldable pub has_word : Text → Text → Bool
has_word [] [] = true
has_word [] (c ∷ s) = is_space c
has_word (p ∷ ps) [] = false
has_word (p ∷ ps) (c ∷ s) = p == c && has_word ps s

unfoldable pub is_reload : Text → Bool
unfolding has_word
is_reload t = has_word (lit "/reload") (to_lower t)

unfoldable pub loop_dispatch : LoopFields → LoopDispatch
loop_dispatch state =
    if is_reload (trim state.instruction)
    then command (lit "/reload-runtime")
    else prompt (
        lit "Recurring loop run #"
        ++ decimal state.runs
        ++ lit " (infinite):\n"
        ++ state.instruction)

-- `/^\d+[smhd]\s+\/reload(?:\s|$)/i`
unfoldable pub is_legacy_reload : Text → Bool
is_legacy_reload t = elim (amount t) [
  | none ↦ false
  | some (n, m, []) ↦ false
  | some (n, m, c ∷ s) ↦ is_space c && is_reload (trim_start s)
]

abbrev pub migrated_loop : ℕ → Outcome LoopCommandError LoopCommand → Option LoopFields
migrated_loop now (succeed (set instruction _ _)) = some (record {
  instruction = instruction;
  interval_ms = default_loop_interval_ms;
  jitter_ms = none;
  started_at = now;
  next_run_at = pos (now + default_loop_interval_ms);
  runs = 0;
  last_run_at = none;
})
migrated_loop now _ = none

unfoldable pub migrate_legacy_reload_loop : Text → ℕ → Option LoopFields
migrate_legacy_reload_loop condition now =
    if is_legacy_reload (trim condition)
    then migrated_loop now (parse_loop_command condition)
    else none
