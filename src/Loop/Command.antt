-- ===== src/Loop/Command.antt =====
-- `parseLoopCommandResult` of pi/extensions/classified-workflows/loop.ts. The pattern
-- `/^(\d+)([smhd])(?:\+-(\d+)([smhd]))?\s+(.+)$/is` is read from the left: no unit is a digit and no
-- unit or sign is white space, so that it never backtracks on a trimmed text.
use metagenda.Base.{
  ℕ, ◌*◌, Option, none, some, [], ◌∷◌, Bool, false, not, ◌&&◌, ◌||◌, leb, ltb, ◌==◌, if◌then◌else◌,
  length, Outcome, succeed, ◌>>=◌, ◌>>◌, fail_if,
}
use metagenda.Base.Digits.{is_digit, digits}
use metagenda.Base.Text.{
  Text, lit, text_eq, trim, is_space, is_empty, trim_start, to_lower, to_lower_unit,
}
use metagenda.Base.Value.{max_safe_integer}
use metagenda.Loop.Types.{
  LoopCommand, status, clear, set, LoopCommandError, loop_failure, default_loop_interval_ms,
  min_loop_interval_ms, max_loop_interval_ms, max_instruction_length,
}

-- `INTERVAL_MULTIPLIERS` of the unit in lower case.
unfoldable pub multiplier : ℕ → Option ℕ
unfolding to_lower_unit
multiplier c =
    let unit = to_lower_unit c in
    if unit == b's'
    then some 1000
    else if unit == b'm'
    then some 60000
    else if unit == b'h'
    then some 3600000
    else if unit == b'd'
    then some 86400000
    else none

-- `([smhd])` behind a number.
unfoldable pub unit_after : ℕ × Text → Option (ℕ × ℕ × Text)
unit_after (n, []) = none
unit_after (n, u ∷ rest) = elim (multiplier u) [ none ↦ none | some m ↦ some (n, m, rest) ]

-- `(\d+)([smhd])` at the front: the amount, the multiplier and the rest.
unfoldable pub amount : Text → Option (ℕ × ℕ × Text)
unfolding unit_after
amount [] = none
amount (c ∷ s) = if is_digit c then unit_after (digits 0 (c ∷ s)) else none

-- `parseIntervalResult`, with the multiplier of a unit that the pattern has let through.
unfoldable pub parse_interval : ℕ → ℕ → Outcome LoopCommandError ℕ
parse_interval n m = do
  fail_if (not (leb (n * m) max_safe_integer) || ltb (n * m) min_loop_interval_ms)
      (loop_failure "Loop intervals must be at least 1 minute.")
  fail_if (ltb max_loop_interval_ms (n * m)) (loop_failure "Loop intervals may be at most 7 days.")
  succeed (n * m)

-- What the pattern captures: the base interval, the jitter, the instruction.
pub record Match : Type 0 where
  pub base : ℕ × ℕ
  pub jitter : Option (ℕ × ℕ)
  pub instruction : Text

-- `\s+(.+)$`
unfoldable pub match_instruction : ℕ × ℕ → Option (ℕ × ℕ) → Text → Option Match
match_instruction base jitter [] = none
match_instruction base jitter (c ∷ s) =
    if is_space c && not (is_empty (trim_start s))
    then some (record { base = base; jitter = jitter; instruction = trim_start s })
    else none

-- `(?:\+-(\d+)([smhd]))?` and the instruction.
unfoldable pub match_jitter : ℕ × ℕ → Text → Option Match
match_jitter base (plus ∷ minus ∷ s) =
    if plus == b'+' && minus == b'-'
    then elim (amount s) [
      | none ↦ none
      | some (n, m, rest) ↦ match_instruction base (some (n, m)) rest
    ]
    else match_instruction base none (plus ∷ minus ∷ s)
match_jitter base s = match_instruction base none s

unfoldable pub match_command : Text → Option Match
match_command s = elim (amount s) [ none ↦ none | some (n, m, rest) ↦ match_jitter (n, m) rest ]

unfoldable pub match_interval : Option Match → Outcome LoopCommandError ℕ
match_interval none = succeed default_loop_interval_ms
match_interval (some found) = parse_interval found.base.0 found.base.1

unfoldable pub match_jitter_interval : Option Match → Outcome LoopCommandError (Option ℕ)
match_jitter_interval none = succeed none
match_jitter_interval (some found) = elim found.jitter [
  | none ↦ succeed none
  | some (n, m) ↦ parse_interval n m >>= λ j. succeed (some j)
]

abbrev pub match_text : Option Match → Text → Text
match_text none input = trim input
match_text (some found) input = trim found.instruction

-- `jitter !== undefined && jitter >= interval`
abbrev pub exceeds : Option ℕ → ℕ → Bool
exceeds none interval = false
exceeds (some j) interval = leb interval j

-- The part of the parser behind the keywords.
unfoldable pub parse_set : Text → Outcome LoopCommandError LoopCommand
parse_set input = do
  let found = match_command input
  interval ← match_interval found
  jitter ← match_jitter_interval found
  fail_if (exceeds jitter interval)
      (loop_failure "Loop jitter must be smaller than the base interval.")
  let instruction = match_text found input
  fail_if (is_empty instruction) (loop_failure "Loop instructions must not be empty.")
  fail_if (ltb max_instruction_length (length instruction))
      (loop_failure "Loop instructions may contain at most 4,000 characters.")
  succeed (set instruction interval jitter)

unfoldable pub parse_loop_command : Text → Outcome LoopCommandError LoopCommand
parse_loop_command args =
    let input = trim args in
    if is_empty input || text_eq (to_lower input) (lit "status")
    then succeed status
    else if text_eq (to_lower input) (lit "clear")
    then succeed clear
    else parse_set input
