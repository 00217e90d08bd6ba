-- ===== src/Attempt.antt =====
-- The attempt-event decision of pi/extensions/shared/job-attempt.ts. `Types` holds its data. The
-- types of the source give the shape of the decoded values, so that what is left of a decoder are
-- its refinements. `is_uuid` is the check of the schema library's `Schema.UUID`.
pub mod Types
pub mod Decision
pub mod Journal
pub mod Redelivery
mod Tests
use metagenda.Base.{
  ℕ, ◌+◌, Bool, true, false, not, ◌&&◌, ◌||◌, Option, none, some, leb, ltb, ◌==◌, all,
  if◌then◌else◌, Outcome, succeed, fail, ◌>>=◌, ◌>>◌, fail_if,
}
use metagenda.Base.Text.{Text, text_eq, is_empty}
use metagenda.Base.Value.{max_safe_integer}
use mathlib.Core.Bool.{decide}
use Types.{
  Code, malformed, stale_attempt, stale_fence, receipt_conflict, out_of_order, invalid_transition,
  foreign_output, AttemptIdentity, OutputReference, Usage, observed, unknown, Body, AttemptEvent,
  Status, AttemptSnapshot, EventReceipt, absent, recorded, AttemptEventDecision, duplicate,
  appended, Status-discrete, same_event,
}

-- `/^[0-9a-f-]+$/` at one unit.
unfoldable pub hex_or_dash : ℕ → Bool
hex_or_dash c = leb 48 c && leb c 57 || leb 97 c && leb c 102 || c == 45

abbrev pub is_counter : ℕ → Bool
is_counter n = leb n max_safe_integer

abbrev pub is_terminal : Body → Bool
is_terminal (Body.succeeded _ _) = true
is_terminal (Body.failed _ _) = true
is_terminal (Body.cancelled _ _) = true
is_terminal (Body.interrupted _ _) = true
is_terminal _ = false

abbrev pub is_terminal_status : Status → Bool
is_terminal_status Status.succeeded = true
is_terminal_status Status.failed = true
is_terminal_status Status.cancelled = true
is_terminal_status Status.interrupted = true
is_terminal_status _ = false

-- `event.kind` as a status; an output event leaves the status as it is.
abbrev pub next_status : Status → Body → Status
next_status s Body.pending = Status.pending
next_status s Body.running = Status.running
next_status s (Body.output _) = s
next_status s (Body.stopping _) = Status.stopping
next_status s (Body.succeeded _ _) = Status.succeeded
next_status s (Body.failed _ _) = Status.failed
next_status s (Body.cancelled _ _) = Status.cancelled
next_status s (Body.interrupted _ _) = Status.interrupted

unfoldable pub permits : Status → Body → Bool
permits Status.pending Body.pending = false
permits Status.pending (Body.output _) = false
permits Status.pending (Body.succeeded _ _) = false
permits Status.pending _ = true
permits Status.running Body.pending = false
permits Status.running Body.running = false
permits Status.running _ = true
permits Status.stopping (Body.output _) = true
permits Status.stopping (Body.failed _ _) = true
permits Status.stopping (Body.cancelled _ _) = true
permits Status.stopping (Body.interrupted _ _) = true
permits _ _ = false

abbrev pub is_pending : Body → Bool
is_pending Body.pending = true
is_pending _ = false

unfoldable pub permits_transition : AttemptSnapshot → AttemptEvent → Bool
unfolding permits
permits_transition snapshot event =
    if snapshot.sequence == 0 then is_pending event.body else permits snapshot.status event.body

abbrev pub has_text : Option Text → Text → Bool
has_text none t = false
has_text (some s) t = text_eq s t

abbrev pub terminal_id : AttemptEvent → Option Text
terminal_id e = if is_terminal e.body then some e.event_id else none

abbrev pub foreign_body : Text → Body → Bool
foreign_body attempt (Body.output o) = not (text_eq o.attempt_id attempt)
foreign_body attempt (Body.succeeded o _) = not (text_eq o.attempt_id attempt)
foreign_body attempt _ = false

-- An output that another attempt produced.
unfoldable pub is_foreign : AttemptEvent → Bool
is_foreign e = foreign_body e.attempt_id e.body

-- The status that the latest recorded event must have left, by the event.
unfoldable pub status_agrees : Status → Body → Bool
unfolding Status-discrete decide
status_agrees Status.running (Body.output _) = true
status_agrees Status.stopping (Body.output _) = true
status_agrees _ (Body.output _) = false
status_agrees s b = decide (Status-discrete s (next_status s b))

-- The snapshot after an event.
unfoldable pub advance : AttemptSnapshot → AttemptIdentity → AttemptEvent → AttemptSnapshot
advance current active e = record {
  job_id = active.job_id;
  attempt_id = active.attempt_id;
  fence = active.fence;
  status = next_status current.status e.body;
  sequence = e.sequence;
  terminal_event_id = terminal_id e;
}

module _ (is_uuid : Text → Bool) where
  unfoldable pub canonical_uuid : Text → Bool
  unfolding hex_or_dash
  canonical_uuid t = is_uuid t && not (is_empty t) && all hex_or_dash t

  unfoldable pub identity_ok : AttemptIdentity → Bool
  identity_ok i = canonical_uuid i.job_id && canonical_uuid i.attempt_id && canonical_uuid i.fence

  abbrev usage_ok : Usage → Bool
  usage_ok (observed tokens) = is_counter tokens
  usage_ok unknown = true

  abbrev output_ok : OutputReference → Bool
  output_ok o = canonical_uuid o.attempt_id && canonical_uuid o.output_id

  abbrev body_ok : Body → Bool
  body_ok Body.pending = true
  body_ok Body.running = true
  body_ok (Body.output o) = output_ok o
  body_ok (Body.stopping _) = true
  body_ok (Body.succeeded o u) = output_ok o && usage_ok u
  body_ok (Body.failed _ u) = usage_ok u
  body_ok (Body.cancelled _ u) = usage_ok u
  body_ok (Body.interrupted _ u) = usage_ok u

  unfoldable pub event_ok : AttemptEvent → Bool
  event_ok e =
      canonical_uuid e.job_id
      && canonical_uuid e.attempt_id
      && canonical_uuid e.fence
      && canonical_uuid e.event_id
      && leb 1 e.sequence
      && is_counter e.sequence
      && is_counter e.occurred_at
      && body_ok e.body

  -- The sequence and the terminal event that each status of the snapshot union asks for.
  unfoldable pub status_ok : Status → ℕ → Option Text → Bool
  status_ok Status.pending n none = leb n 1
  status_ok Status.running n none = leb 2 n
  status_ok Status.stopping n none = leb 2 n
  status_ok Status.succeeded n (some t) = leb 3 n && canonical_uuid t
  status_ok Status.failed n (some t) = leb 2 n && canonical_uuid t
  status_ok Status.cancelled n (some t) = leb 2 n && canonical_uuid t
  status_ok Status.interrupted n (some t) = leb 2 n && canonical_uuid t
  status_ok _ _ _ = false

  unfoldable pub snapshot_ok : AttemptSnapshot → Bool
  snapshot_ok s =
      canonical_uuid s.job_id
      && canonical_uuid s.attempt_id
      && canonical_uuid s.fence
      && is_counter s.sequence
      && status_ok s.status s.sequence s.terminal_event_id

  unfoldable pub receipt_ok : EventReceipt → Bool
  receipt_ok absent = true
  receipt_ok (recorded e) = event_ok e

  abbrev pub decode_boundary {ℓ} : {A : Type ℓ} → (A → Bool) → A → Outcome Code A
  decode_boundary ok a = if ok a then succeed a else fail malformed

  -- What a receipt for the same event ID decides.
  unfoldable pub decide_recorded :
      AttemptSnapshot → AttemptEvent → AttemptEvent → Outcome Code AttemptEventDecision
  decide_recorded current prior incoming = do
    fail_if (not (same_event prior incoming) || ltb current.sequence incoming.sequence)
        receipt_conflict
    fail_if
        (if is_terminal incoming.body
          then not (current.sequence == incoming.sequence)
            || not
                (decide (Status-discrete current.status (next_status current.status incoming.body)))
            || not (has_text current.terminal_event_id incoming.event_id)
          else incoming.sequence == current.sequence
            && not (status_agrees current.status incoming.body))
        receipt_conflict
    succeed duplicate

  -- A first delivery.
  unfoldable pub decide_absent :
      AttemptSnapshot → AttemptIdentity → AttemptEvent → Outcome Code AttemptEventDecision
  decide_absent current active incoming = do
    fail_if
        (current.sequence == max_safe_integer || not (incoming.sequence == current.sequence + 1))
        out_of_order
    fail_if (not (permits_transition current incoming)) invalid_transition
    next ← decode_boundary snapshot_ok (advance current active incoming)
    succeed (appended next incoming)

  unfoldable pub decide_receipt :
      AttemptSnapshot
      → AttemptIdentity
      → EventReceipt
      → AttemptEvent
      → Outcome Code AttemptEventDecision
  decide_receipt current active (recorded prior) incoming = decide_recorded current prior incoming
  decide_receipt current active absent incoming = decide_absent current active incoming

  abbrev pub is_stale_attempt : AttemptSnapshot → AttemptIdentity → AttemptEvent → Bool
  is_stale_attempt current active incoming =
      not (text_eq current.job_id active.job_id)
      || not (text_eq current.attempt_id active.attempt_id)
      || not (text_eq incoming.job_id active.job_id)
      || not (text_eq incoming.attempt_id active.attempt_id)

  unfoldable pub decide_attempt_event :
      AttemptSnapshot
      → AttemptIdentity
      → EventReceipt
      → AttemptEvent
      → Outcome Code AttemptEventDecision
  decide_attempt_event snapshot ownership receipt event = do
    current ← decode_boundary snapshot_ok snapshot
    active ← decode_boundary identity_ok ownership
    prior ← decode_boundary receipt_ok receipt
    incoming ← decode_boundary event_ok event
    fail_if (is_stale_attempt current active incoming) stale_attempt
    fail_if (not (text_eq current.fence active.fence) || not (text_eq incoming.fence active.fence))
        stale_fence
    fail_if (is_foreign incoming) foreign_output
    decide_receipt current active prior incoming
