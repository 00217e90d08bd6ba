-- ===== src/Attempt/Tests.antt =====
-- Runs of the attempt decision on concrete events: the theorems at inputs that meet their hypotheses.
use metagenda.Base.{
  ℕ, ◌+◌, ◌≡◌, refl, ap, inl, inr, Bool, Option, none, some, arith, ◌==◌, succeed, fail, List, [],
  ◌∷◌, length, map,
}
use metagenda.Base.{In}
use metagenda.Base.Text.{Text, text_eq}
use metagenda.Attempt.Types.{
  receipt_conflict, OutputReference, observed, unknown, Body, AttemptEvent, Status, AttemptSnapshot,
}
use metagenda.Attempt.{
  permits, permits_transition, status_ok, snapshot_ok, event_ok, identity_ok, receipt_ok, advance,
  canonical_uuid, is_foreign, decide_absent, decide_receipt, decide_attempt_event,
}
use metagenda.Base.Text.{lit}
use metagenda.Attempt.Types.{owner_lost, user}
use metagenda.Attempt.{hex_or_dash}
use metagenda.Attempt.Journal.{Journal, deliver, Reached, fresh, delivered}
use metagenda.Attempt.Redelivery.{
  identity, redelivered, conflicting, log_sequences, one_terminal, succeeded_has_run,
  interrupt_closes,
}

-- The length that `Schema.UUID` asks for.
abbrev uuid_shape : Text → Bool
uuid_shape t = length t == 36

abbrev job_uuid : Text
job_uuid = lit "11111111-1111-4111-8111-111111111111"

abbrev attempt_uuid : Text
attempt_uuid = lit "22222222-2222-4222-8222-222222222222"

abbrev fence_uuid : Text
fence_uuid = lit "33333333-3333-4333-8333-333333333333"

abbrev output_uuid : Text
output_uuid = lit "44444444-4444-4444-8444-444444444444"

abbrev first_id : Text
first_id = lit "00000000-0000-4000-8000-000000000001"

abbrev second_id : Text
second_id = lit "00000000-0000-4000-8000-000000000002"

abbrev third_id : Text
third_id = lit "00000000-0000-4000-8000-000000000003"

abbrev event : Text → ℕ → Body → AttemptEvent
event id n b = record {
  job_id = job_uuid;
  attempt_id = attempt_uuid;
  fence = fence_uuid;
  event_id = id;
  sequence = n;
  occurred_at = 1000 + n;
  body = b;
}

abbrev blank : AttemptSnapshot
blank = record {
  job_id = job_uuid;
  attempt_id = attempt_uuid;
  fence = fence_uuid;
  status = Status.pending;
  sequence = 0;
  terminal_event_id = none;
}

abbrev result : OutputReference
result = record { attempt_id = attempt_uuid; output_id = output_uuid }

abbrev opened : AttemptEvent
opened = event first_id 1 Body.pending

abbrev started : AttemptEvent
started = event second_id 2 Body.running

abbrev finished : AttemptEvent
finished = event third_id 3 (Body.succeeded result (observed 1200))

abbrev orphaned : AttemptEvent
orphaned = event third_id 3 (Body.interrupted owner_lost unknown)

abbrev at : ℕ → Status → Option Text → List AttemptEvent → Journal
at n st tid log = record {
  snapshot = record {
    job_id = job_uuid;
    attempt_id = attempt_uuid;
    fence = fence_uuid;
    status = st;
    sequence = n;
    terminal_event_id = tid;
  };
  log = log;
}

abbrev running_journal : Journal
running_journal = at 2 Status.running none (started ∷ opened ∷ [])

abbrev done_journal : Journal
done_journal = at 3 Status.succeeded (some third_id) (finished ∷ started ∷ opened ∷ [])

running_reached : Reached uuid_shape running_journal
unfolding deliver decide_attempt_event decide_receipt decide_absent permits_transition permits
    snapshot_ok status_ok identity_ok event_ok receipt_ok canonical_uuid hex_or_dash advance
    is_foreign lit text_eq
running_reached =
    delivered (identity blank) started
      (delivered {j' = at 1 Status.pending none (opened ∷ [])} (identity blank) opened
        (fresh blank refl (refl, refl, refl)) refl)
      refl

done_reached : Reached uuid_shape done_journal
unfolding deliver decide_attempt_event decide_receipt decide_absent permits_transition permits
    snapshot_ok status_ok identity_ok event_ok receipt_ok canonical_uuid hex_or_dash advance
    is_foreign lit text_eq
done_reached = delivered {j = running_journal} (identity blank) finished running_reached refl

redelivered_example :
    deliver uuid_shape done_journal (identity blank) started ≡ succeed done_journal
redelivered_example = redelivered uuid_shape done_journal started done_reached (inr (inl refl))

conflicting_example :
    deliver uuid_shape done_journal (identity blank) (event second_id 2 (Body.stopping user))
    ≡ fail receipt_conflict
unfolding event_ok canonical_uuid hex_or_dash lit is_foreign
conflicting_example =
    conflicting uuid_shape done_journal started (event second_id 2 (Body.stopping user))
      done_reached (inr (inl refl)) refl (λ h. cc (ap (λ (e : AttemptEvent). e.body) h)) refl refl
      refl refl refl

log_sequences_example :
    (3 ≡ length done_journal.log)
    × (map (λ (e : AttemptEvent). e.sequence) done_journal.log ≡ 3 ∷ 2 ∷ 1 ∷ [])
log_sequences_example = log_sequences uuid_shape done_journal done_reached

one_terminal_example : finished ≡ finished
one_terminal_example =
    one_terminal uuid_shape done_journal finished finished done_reached (inl refl) (inl refl) refl
      refl

succeeded_has_run_example : (x : AttemptEvent) × In x done_journal.log × (x.body ≡ Body.running)
succeeded_has_run_example = succeeded_has_run uuid_shape done_journal done_reached refl

interrupt_closes_example :
    (deliver uuid_shape running_journal (identity blank) orphaned
      ≡ succeed (record {
        snapshot = advance running_journal.snapshot (identity blank) orphaned;
        log = orphaned ∷ running_journal.log;
      }))
    × ((advance running_journal.snapshot (identity blank) orphaned).status ≡ Status.interrupted)
unfolding event_ok canonical_uuid hex_or_dash lit text_eq
interrupt_closes_example =
    interrupt_closes uuid_shape running_journal orphaned owner_lost unknown running_reached refl
      (omega arith) refl refl refl refl refl refl refl
