-- ===== src/Loop/Tests.antt =====
-- A loop at work: runs of the code, and the theorems at inputs that meet their hypotheses.
use metagenda.Base.{◌+◌, ◌≡◌, refl, none, some, succeed, arith}
use metagenda.Base.Int.{pos, negsuc, ◌+ℤ◌, ◌-ℤ◌, ◌≤ℤ◌}
use metagenda.Base.Text.{
  lit, text_eq, trim, trim_start, trim_end, is_space, to_lower, decimal, join,
}
use metagenda.Loop.Types.{LoopFields, active, cleared, LoopCommand, set, command}
use metagenda.Base.Digits.{is_digit, digits}
use metagenda.Loop.Command.{
  multiplier, amount, match_command, match_jitter, match_instruction, match_interval,
  match_jitter_interval, parse_interval, parse_set, parse_loop_command,
}
use metagenda.Loop.Schedule.{
  next_loop_run_at, is_migratable, migrate_review_duty_loop_cadence, advance_loop, is_reload,
  loop_dispatch, is_legacy_reload, migrate_legacy_reload_loop,
}
use metagenda.Loop.Store.{parse_stored_loop, stored_loop}
use metagenda.Loop.Format.{
  format_duration, format_loop_status, format_until, cadence, status_lines, minutes_of,
}
use metagenda.Loop.Bounds.{
  IsStorable, IsWellFormed, parse_loop_command-IsWellFormed, advance_loop-IsStorable,
}
use metagenda.Loop.RoundTrip.{parse_stored_loop-stored_loop}

abbrev check_prs : LoopCommand
check_prs = set (lit "Check PRs") 7200000 (some 1800000)

parse_run : parse_loop_command (lit " 2H+-30m  Check PRs ") ≡ succeed check_prs
unfolding parse_loop_command parse_set match_interval match_jitter_interval parse_interval
    match_command match_jitter match_instruction amount is_digit digits multiplier trim trim_start
    trim_end is_space to_lower text_eq lit
parse_run = refl

parse_bare : parse_loop_command (lit "5 minutes") ≡ succeed (set (lit "5 minutes") 3600000 none)
unfolding parse_loop_command parse_set match_interval match_jitter_interval parse_interval
    match_command match_jitter match_instruction amount is_digit digits multiplier trim trim_start
    trim_end is_space to_lower text_eq lit
parse_bare = refl

parse_loop_command-IsWellFormed_example : IsWellFormed check_prs
parse_loop_command-IsWellFormed_example =
    parse_loop_command-IsWellFormed (lit " 2H+-30m  Check PRs ") check_prs parse_run

abbrev hourly : LoopFields
hourly = record {
  instruction = lit "Check PRs";
  interval_ms = 3600000;
  jitter_ms = some 600000;
  started_at = 5;
  next_run_at = pos 3600005;
  runs = 2;
  last_run_at = none;
}

abbrev advanced : LoopFields
advanced = record hourly { next_run_at = pos 7100000; runs = 3; last_run_at = some 4000000 }

advance_run : advance_loop hourly 4000000 (negsuc 499999) ≡ succeed advanced
unfolding advance_loop next_loop_run_at ◌+ℤ◌
advance_run = refl

next_run : next_loop_run_at hourly 4000000 (negsuc 499999) ≡ succeed (pos 7100000)
unfolding next_loop_run_at ◌+ℤ◌
next_run = refl

hourly-IsStorable : IsStorable hourly
unfolding lit
hourly-IsStorable = record {
  not_empty = refl;
  short = omega arith;
  interval = refl;
  jitter = refl;
  after_epoch = omega arith;
}

advance_loop-IsStorable_example :
    IsStorable advanced
    × (3 ≡ 2 + 1)
    × (advanced.last_run_at ≡ some 4000000)
    × (pos 4000001 ≤ℤ pos 7100000)
advance_loop-IsStorable_example =
    advance_loop-IsStorable hourly advanced 4000000 (negsuc 499999) hourly-IsStorable advance_run

parse_stored_loop-stored_loop_example :
    parse_stored_loop (stored_loop (cleared hourly 9000000)) ≡ some (cleared hourly 9000000)
parse_stored_loop-stored_loop_example =
    parse_stored_loop-stored_loop (cleared hourly 9000000) hourly-IsStorable

abbrev review : LoopFields
review = record hourly {
  instruction =
      lit
        "Re-scan DataClique PR duty; process newly actionable own and assigned-review work under the loaded repository and review policies, then remain operational.";
  interval_ms = 900000;
  jitter_ms = none;
}

abbrev review_migrated : LoopFields
review_migrated = record review {
  interval_ms = 7200000;
  jitter_ms = some 3600000;
  next_run_at = pos 8200000;
}

migrate_run :
    migrate_review_duty_loop_cadence (some (active review)) 1000000 (pos 0)
    ≡ succeed (some review_migrated)
unfolding migrate_review_duty_loop_cadence is_migratable next_loop_run_at ◌+ℤ◌ text_eq lit
migrate_run = refl

reload_run :
    loop_dispatch (record hourly { instruction = lit " /Reload now" })
    ≡ command (lit "/reload-runtime")
unfolding loop_dispatch is_reload to_lower trim trim_start trim_end is_space lit
reload_run = refl

legacy_run :
    migrate_legacy_reload_loop (lit "30m /reload") 7
    ≡ some (record {
      instruction = lit "/reload";
      interval_ms = 3600000;
      jitter_ms = none;
      started_at = 7;
      next_run_at = pos 3600007;
      runs = 0;
      last_run_at = none;
    })
unfolding migrate_legacy_reload_loop is_legacy_reload is_reload parse_loop_command parse_set
    match_interval match_jitter_interval parse_interval match_command match_jitter match_instruction
    amount is_digit digits multiplier trim trim_start trim_end is_space to_lower text_eq lit
legacy_run = refl

status_run :
    format_loop_status (some (active hourly)) 3000005
    ≡ lit "Loop (active, infinite): every 1h ± 10m · next in 10m · 2 runs\nCheck PRs"
unfolding format_loop_status status_lines cadence format_until format_duration minutes_of decimal
    join lit ◌-ℤ◌
status_run = refl
