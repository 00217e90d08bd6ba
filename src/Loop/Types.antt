-- ===== src/Loop/Types.antt =====
-- The data of pi/extensions/classified-workflows/loop.ts. Times are milliseconds; the next run is an
-- integer, since the offset that it adds can be negative.
use metagenda.Base.{ℕ, ◌*◌, Option, String}
use metagenda.Base.Int.{ℤ}
use metagenda.Base.Text.{Text, lit}

-- The fields that an active and a cleared loop share.
pub record LoopFields : Type 0 where
  pub instruction : Text
  pub interval_ms : ℕ
  pub jitter_ms : Option ℕ
  pub started_at : ℕ
  pub next_run_at : ℤ
  pub runs : ℕ
  pub last_run_at : Option ℕ

-- `ActiveLoopState` and `ClearedLoopState` with its `finishedAt`.
pub data LoopState : Type 0 where
  active : LoopFields → LoopState
  cleared : LoopFields → ℕ → LoopState

pub data LoopCommand : Type 0 where
  status clear : LoopCommand
  set : Text → ℕ → Option ℕ → LoopCommand

pub data LoopDispatch : Type 0 where
  command : Text → LoopDispatch
  prompt : Text → LoopDispatch

pub record LoopCommandError : Type 0 where
  pub message : Text

unfoldable pub loop_failure : String → LoopCommandError
unfolding lit
loop_failure message = record { message = lit message }

abbrev pub default_loop_interval_ms : ℕ
default_loop_interval_ms = 60 * 60 * 1000

abbrev pub review_duty_loop_interval_ms : ℕ
review_duty_loop_interval_ms = 2 * 60 * 60 * 1000

abbrev pub review_duty_loop_jitter_ms : ℕ
review_duty_loop_jitter_ms = 60 * 60 * 1000

abbrev pub legacy_review_duty_loop_interval_ms : ℕ
legacy_review_duty_loop_interval_ms = 15 * 60 * 1000

abbrev pub min_loop_interval_ms : ℕ
min_loop_interval_ms = 60 * 1000

abbrev pub max_loop_interval_ms : ℕ
max_loop_interval_ms = 7 * 24 * 60 * 60 * 1000

abbrev pub max_instruction_length : ℕ
max_instruction_length = 4000
