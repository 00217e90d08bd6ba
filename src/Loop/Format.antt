-- ===== src/Loop/Format.antt =====
-- `formatLoopStatus` of pi/extensions/classified-workflows/loop.ts.
use metagenda.Base.{
  ℕ, ◌+◌, ◌/◌, ◌%◌, Option, none, some, [], ◌∷◌, ◌++◌, ltb, ◌==◌, if◌then◌else◌, max,
}
use metagenda.Base.Int.{ℤ, pos, negsuc, ◌-ℤ◌}
use metagenda.Base.Text.{Text, lit, decimal, join}
use metagenda.Loop.Types.{LoopFields, LoopState, active, cleared}

-- `Math.max(1, Math.ceil(milliseconds / 60_000))`
unfoldable pub minutes_of : ℕ → ℕ
minutes_of ms = max 1 ((ms + 59999) / 60000)

unfoldable pub format_duration : ℕ → Text
format_duration ms =
    let minutes = minutes_of ms in
    let days = minutes / 1440 in
    let hours = (minutes % 1440) / 60 in
    if ltb minutes 60
    then decimal minutes ++ lit "m"
    else if ltb minutes 1440
    then (if minutes % 60 == 0
        then decimal (minutes / 60) ++ lit "h"
        else decimal (minutes / 60) ++ lit "h " ++ decimal (minutes % 60) ++ lit "m")
    else if hours == 0
    then decimal days ++ lit "d"
    else decimal days ++ lit "d " ++ decimal hours ++ lit "h"

-- A time that is not positive is due.
unfoldable pub format_until : ℤ → Text
format_until (negsuc n) = lit "due now"
format_until (pos n) = if n == 0 then lit "due now" else lit "in " ++ format_duration n

unfoldable pub cadence : LoopFields → Text
cadence s = elim s.jitter_ms [
  | none ↦ format_duration s.interval_ms
  | some j ↦ format_duration s.interval_ms ++ lit " ± " ++ format_duration j
]

unfoldable pub status_lines : Text → LoopFields → Text → Text
status_lines name s next = join (10 ∷ []) (
    (lit "Loop ("
      ++ name
      ++ lit ", infinite): every "
      ++ cadence s
      ++ lit " · "
      ++ next
      ++ lit " · "
      ++ decimal s.runs
      ++ lit " runs")
    ∷ s.instruction
    ∷ [])

unfoldable pub format_loop_status : Option LoopState → ℕ → Text
format_loop_status none now = lit "No recurring loop has been set in this session."
format_loop_status (some (active s)) now =
    status_lines (lit "active") s (lit "next " ++ format_until (s.next_run_at -ℤ pos now))
format_loop_status (some (cleared s at)) now = status_lines (lit "cleared") s (lit "stopped")
