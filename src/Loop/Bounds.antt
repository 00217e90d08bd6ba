-- ===== src/Loop/Bounds.antt =====
-- What the commands and the schedule of pi/extensions/classified-workflows/loop.ts keep within.
use metagenda.Base.{
  ℕ, suc, ◌+◌, ◌<◌, ◌≤◌, ◌≡◌, refl, inl, inr, Option, none, some, true, false, ◌||◌, length,
  Outcome, succeed, fail, ◌>>=◌, arith, Bool-cases,
}
use metagenda.Base.Int.{ℤ, pos, ◌+ℤ◌, ◌≤ℤ◌, int_laws}
use metagenda.Base.Text.{Text, lit, text_eq, trim, is_empty, to_lower}
use metagenda.Base.Trim.{trim_idem}
use metagenda.Loop.Types.{
  LoopFields, LoopState, active, cleared, LoopCommand, status, clear, set, LoopCommandError,
  review_duty_loop_interval_ms, review_duty_loop_jitter_ms, max_instruction_length,
}
use metagenda.Loop.Command.{
  Match, match_command, match_interval, match_jitter_interval, match_text, exceeds, parse_interval,
  parse_set, parse_loop_command,
}
use metagenda.Loop.Schedule.{
  magnitude, jitter_bound, sampled_jitter, next_loop_run_at, is_migratable,
  migrate_review_duty_loop_cadence, advance_loop,
}
use metagenda.Loop.Store.{is_valid_interval, jitter_fits}

-- A loop that can be stored: its instruction, interval and jitter are within their limits, and it
-- does not run before the epoch.
pub record IsStorable (s : LoopFields) : Type 0 where
  pub not_empty : is_empty s.instruction ≡ false
  pub short : length s.instruction ≤ max_instruction_length
  pub interval : is_valid_interval s.interval_ms ≡ true
  pub jitter : jitter_fits s.jitter_ms s.interval_ms ≡ true
  pub after_epoch : pos 0 ≤ℤ s.next_run_at

-- A command that the parser can give.
abbrev pub IsWellFormed : LoopCommand → Type 0
IsWellFormed (set instruction interval jitter) =
    (is_empty instruction ≡ false)
    × (trim instruction ≡ instruction)
    × (length instruction ≤ max_instruction_length)
    × (is_valid_interval interval ≡ true)
    × (jitter_fits jitter interval ≡ true)
IsWellFormed _ = Unit

parse_interval-valid :
    (n m : ℕ) (i : ℕ) → parse_interval n m ≡ succeed i → is_valid_interval i ≡ true
unfolding parse_interval
parse_interval-valid n m i h = ground arith

match_interval-valid :
    (o : Option Match) (i : ℕ) → match_interval o ≡ succeed i → is_valid_interval i ≡ true
unfolding match_interval
match_interval-valid none i h = ground arith
match_interval-valid (some found) i h = parse_interval-valid found.base.0 found.base.1 i h

-- A jitter that the parser gives is a valid interval itself.
abbrev ValidJitter : Option ℕ → Type 0
ValidJitter none = Unit
ValidJitter (some j) = is_valid_interval j ≡ true

match_jitter-valid :
    (o : Option Match) (j : Option ℕ) → match_jitter_interval o ≡ succeed j → ValidJitter j
unfolding match_jitter_interval
match_jitter-valid none j h = let e : j ≡ none = cc in rw e tt
match_jitter-valid (some found) j h = split found.jitter refl
  where
    split : (o : Option (ℕ × ℕ)) → found.jitter ≡ o → ValidJitter j
    split none e = let q : j ≡ none = ground arith in rw q tt
    split (some (n, m)) e = interval (parse_interval n m) refl
      where
        interval : (r : Outcome LoopCommandError ℕ) → parse_interval n m ≡ r → ValidJitter j
        interval (fail x) f = absurd (ground arith)
        interval (succeed i) f =
            let q : j ≡ some i = ground arith in rw q (parse_interval-valid n m i f)

trimmed_text : (o : Option Match) (input : Text) → trim (match_text o input) ≡ match_text o input
trimmed_text none input = trim_idem input
trimmed_text (some found) input = trim_idem found.instruction

fits : (j : Option ℕ) (i : ℕ) → ValidJitter j → exceeds j i ≡ false → jitter_fits j i ≡ true
fits none i v e = refl
fits (some j) i v e = ground arith

parse_set-IsWellFormed :
    (input : Text) (c : LoopCommand) → parse_set input ≡ succeed c → IsWellFormed c
unfolding parse_set
parse_set-IsWellFormed input c h =
    split (match_interval found) refl (match_jitter_interval found) refl
  where
    found : Option Match
    found = match_command input

    split :
        (ri : Outcome LoopCommandError ℕ)
        → match_interval found ≡ ri
        → (rj : Outcome LoopCommandError (Option ℕ)) → match_jitter_interval found ≡ rj
        → IsWellFormed c
    split (fail x) e rj f = absurd (ground arith)
    split (succeed i) e (fail x) f = absurd (ground arith)
    split (succeed i) e (succeed j) f =
        let same : c ≡ set (match_text found input) i j = ground arith in
        rw same (
          ground arith,
          trimmed_text found input,
          ground arith,
          match_interval-valid found i e,
          fits j i (match_jitter-valid found j f) (ground arith),
        )

-- Every command that the parser gives is within the limits: its instruction is trimmed, not empty
-- and at most 4,000 units long, its interval lies between a minute and seven days, and its jitter,
-- if any, is such an interval too and shorter than the base one.
pub parse_loop_command-IsWellFormed :
    (args : Text) (c : LoopCommand) → parse_loop_command args ≡ succeed c → IsWellFormed c
unfolding parse_loop_command
parse_loop_command-IsWellFormed args c h =
    elim (Bool-cases (is_empty (trim args) || text_eq (to_lower (trim args)) (lit "status"))) [
      | inl e ↦ let q : c ≡ status = ground arith in rw q tt
      | inr e ↦ elim (Bool-cases (text_eq (to_lower (trim args)) (lit "clear"))) [
        | inl k ↦ let q : c ≡ clear = ground arith in rw q tt
        | inr k ↦ parse_set-IsWellFormed (trim args) c (ground arith)
      ]
    ]

-- A run is scheduled within the jitter of the interval from now, and where the jitter is shorter
-- than the interval, after now.
pub next_loop_run_at_bounds :
    (s : LoopFields) (now : ℕ) (offset at : ℤ)
    → next_loop_run_at s now offset ≡ succeed at
    → (pos (now + s.interval_ms) ≤ℤ at +ℤ pos (jitter_bound s.jitter_ms))
      × (at ≤ℤ pos (now + s.interval_ms + jitter_bound s.jitter_ms))
      × (jitter_bound s.jitter_ms < s.interval_ms → pos (suc now) ≤ℤ at)
unfolding next_loop_run_at ◌+ℤ◌
next_loop_run_at_bounds s now offset at h = ground arith

-- An offset that is drawn from the range of the jitter is never refused.
pub next_loop_run_at-sampled :
    (random_int : ℕ → ℤ) (s : LoopFields) (now : ℕ)
    → ((j : ℕ) → magnitude (random_int j) ≤ j)
    → is_valid_interval s.interval_ms ≡ true
    → jitter_fits s.jitter_ms s.interval_ms ≡ true
    → (at : ℤ) × (next_loop_run_at s now (sampled_jitter random_int s.jitter_ms) ≡ succeed at)
unfolding next_loop_run_at sampled_jitter
next_loop_run_at-sampled random_int s now range v fit = (
  pos (now + s.interval_ms) +ℤ sampled_jitter random_int s.jitter_ms,
  ground (arith, range (jitter_bound s.jitter_ms)),
)

shorter :
    (j : Option ℕ) (i : ℕ)
    → is_valid_interval i ≡ true
    → jitter_fits j i ≡ true
    → jitter_bound j < i
shorter j i v h = ground arith

-- Advancing counts one run, records its time, schedules the next one after it, and keeps the loop
-- storable.
pub advance_loop-IsStorable :
    (s s' : LoopFields) (now : ℕ) (offset : ℤ)
    → IsStorable s
    → advance_loop s now offset ≡ succeed s'
    → IsStorable s'
      × (s'.runs ≡ s.runs + 1)
      × (s'.last_run_at ≡ some now)
      × (pos (suc now) ≤ℤ s'.next_run_at)
unfolding advance_loop
advance_loop-IsStorable s s' now offset v h = split (next_loop_run_at s now offset) refl
  where
    split :
        (r : Outcome LoopCommandError ℤ)
        → next_loop_run_at s now offset ≡ r
        → IsStorable s'
          × (s'.runs ≡ s.runs + 1)
          × (s'.last_run_at ≡ some now)
          × (pos (suc now) ≤ℤ s'.next_run_at)
    split (fail x) e = absurd (ground arith)
    split (succeed at) e =
        let same : s' ≡ record s { next_run_at = at; runs = s.runs + 1; last_run_at = some now } =
          ground arith in
        let ahead =
          (next_loop_run_at_bounds s now offset at e).2
            (shorter s.jitter_ms s.interval_ms v.interval v.jitter) in
        rw same (
          record {
            not_empty = v.not_empty;
            short = v.short;
            interval = v.interval;
            jitter = v.jitter;
            after_epoch = omega arith;
          },
          refl,
          refl,
          ahead,
        )

-- Where the cadence of a review loop is migrated, the loop was active with one of the review texts,
-- and only its cadence and its next run change: to two hours with an hour of jitter.
pub migrate_review_duty_loop_cadence_lem :
    (state : Option LoopState) (now : ℕ) (offset : ℤ) (s' : LoopFields)
    → migrate_review_duty_loop_cadence state now offset ≡ succeed (some s')
    → (s : LoopFields) × (state ≡ some (active s))
      × (is_migratable s ≡ true)
      × (s' ≡ record s {
        interval_ms = review_duty_loop_interval_ms;
        jitter_ms = some review_duty_loop_jitter_ms;
        next_run_at = s'.next_run_at;
      })
      × (pos (now + 3600000) ≤ℤ s'.next_run_at)
      × (s'.next_run_at ≤ℤ pos (now + 10800000))
unfolding migrate_review_duty_loop_cadence
migrate_review_duty_loop_cadence_lem none now offset s' h = absurd (ground arith)
migrate_review_duty_loop_cadence_lem (some (cleared s at)) now offset s' h = absurd (ground arith)
migrate_review_duty_loop_cadence_lem (some (active s)) now offset s' h =
    elim (Bool-cases (is_migratable s)) [
      | inr e ↦ absurd (ground arith)
      | inl e ↦
          split (next_loop_run_at migrated now offset) refl
            (rw (e, migrate_review_duty_loop_cadence) at h) e
    ]
  where
    migrated : LoopFields
    migrated = record s {
      interval_ms = review_duty_loop_interval_ms;
      jitter_ms = some review_duty_loop_jitter_ms;
    }

    split :
        (r : Outcome LoopCommandError ℤ)
        → next_loop_run_at migrated now offset ≡ r
        → (next_loop_run_at migrated now offset >>= λ at.
            succeed (some (record migrated { next_run_at = at })))
          ≡ succeed (some s')
        → is_migratable s ≡ true
        → (t : LoopFields) × (◌≡◌ {A = Option LoopState} (some (active s)) (some (active t)))
          × (is_migratable t ≡ true)
          × (s' ≡ record t {
            interval_ms = review_duty_loop_interval_ms;
            jitter_ms = some review_duty_loop_jitter_ms;
            next_run_at = s'.next_run_at;
          })
          × (pos (now + 3600000) ≤ℤ s'.next_run_at)
          × (s'.next_run_at ≤ℤ pos (now + 10800000))
    split (fail x) f g m = absurd (ground arith)
    split (succeed at) f g m =
        let same : s' ≡ record migrated { next_run_at = at } = ground arith in
        let (low, high, _) = next_loop_run_at_bounds migrated now offset at f in
        rw same (s, refl, m, refl, omega int_laws, omega arith)
