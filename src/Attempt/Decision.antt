-- ===== src/Attempt/Decision.antt =====
-- What one call of `decideAttemptEvent` (pi/extensions/shared/job-attempt.ts) answers.
use metagenda.Base.{
  ℕ, ◌+◌, ◌≡◌, ◌≢◌, refl, ◌↔◌, Bool, true, false, ◌&&◌, Option, none, some, arith, if◌then◌else◌,
  succeed, fail,
}
use metagenda.Base.Text.{Text, text_eq, text_eq_iff}
use metagenda.Attempt.Types.{
  malformed, AttemptIdentity, Body, AttemptEvent, Status, AttemptSnapshot, EventReceipt, absent,
  recorded, AttemptEventDecision, appended,
}
use metagenda.Attempt.{
  permits, permits_transition, is_terminal, is_pending, next_status, status_ok, snapshot_ok,
  event_ok, identity_ok, receipt_ok, advance, canonical_uuid, is_foreign, is_stale_attempt,
  decide_recorded, decide_absent, decide_receipt, decide_attempt_event,
}

module _ (is_uuid : Text → Bool) where
  status_ok-first :
      (st : Status) (n : ℕ) (tid : Option Text) (b : Body) (id : Text)
      → status_ok is_uuid st n tid ≡ true
      → canonical_uuid is_uuid id ≡ true
      → n ≡ 0
      → is_pending b ≡ true
      → status_ok is_uuid (next_status st b) (n + 1) (if is_terminal b then some id else none)
        ≡ true
  unfolding status_ok
  status_ok-first st n tid b id h k z p = ground arith

  status_ok-next :
      (st : Status) (n : ℕ) (tid : Option Text) (b : Body) (id : Text)
      → status_ok is_uuid st n tid ≡ true
      → canonical_uuid is_uuid id ≡ true
      → n ≢ 0
      → permits st b ≡ true
      → status_ok is_uuid (next_status st b) (n + 1) (if is_terminal b then some id else none)
        ≡ true
  unfolding status_ok permits
  status_ok-next st n tid b id h k z p = ground arith

  pub advance-ok :
      (s : AttemptSnapshot) (o : AttemptIdentity) (e : AttemptEvent)
      → snapshot_ok is_uuid s ≡ true
      → identity_ok is_uuid o ≡ true
      → event_ok is_uuid e ≡ true
      → e.sequence ≡ s.sequence + 1
      → permits_transition s e ≡ true
      → snapshot_ok is_uuid (advance s o e) ≡ true
  unfolding snapshot_ok identity_ok event_ok advance permits_transition
  advance-ok s o e hs ho he q p = ground (
    arith,
    status_ok-first s.status s.sequence s.terminal_event_id e.body e.event_id,
    status_ok-next s.status s.sequence s.terminal_event_id e.body e.event_id,
  )

  decide_recorded-ne-malformed :
      (s : AttemptSnapshot) (p e : AttemptEvent) → decide_recorded is_uuid s p e ≢ fail malformed
  unfolding decide_recorded
  decide_recorded-ne-malformed s p e h = ground arith

  decide_absent-ne-malformed :
      (s : AttemptSnapshot) (o : AttemptIdentity) (e : AttemptEvent)
      → snapshot_ok is_uuid s ≡ true
      → identity_ok is_uuid o ≡ true
      → event_ok is_uuid e ≡ true
      → decide_absent is_uuid s o e ≢ fail malformed
  unfolding decide_absent
  decide_absent-ne-malformed s o e hs ho he h = ground (arith, advance-ok s o e hs ho he)

  decide_receipt-ne-malformed :
      (s : AttemptSnapshot) (o : AttemptIdentity) (r : EventReceipt) (e : AttemptEvent)
      → snapshot_ok is_uuid s ≡ true
      → identity_ok is_uuid o ≡ true
      → event_ok is_uuid e ≡ true
      → decide_receipt is_uuid s o r e ≢ fail malformed
  unfolding decide_receipt
  decide_receipt-ne-malformed s o absent e hs ho he h = decide_absent-ne-malformed s o e hs ho he h
  decide_receipt-ne-malformed s o (recorded p) e hs ho he h = decide_recorded-ne-malformed s p e h

  -- An event is answered by `malformed` exactly when one of the four inputs does not decode: the
  -- snapshot that an accepted event leads to is never refused.
  pub decide-eq-malformed_iff :
      (s : AttemptSnapshot) (o : AttemptIdentity) (r : EventReceipt) (e : AttemptEvent)
      → (decide_attempt_event is_uuid s o r e ≡ fail malformed) ↔ (
          (snapshot_ok is_uuid s
            && identity_ok is_uuid o
            && receipt_ok is_uuid r
            && event_ok is_uuid e)
          ≡ false)
  unfolding decide_attempt_event
  decide-eq-malformed_iff s o r e = ground (arith, decide_receipt-ne-malformed s o r e)

  -- What holds of an event that is accepted for the first time.
  pub record Accepted (s : AttemptSnapshot) (o : AttemptIdentity) (e : AttemptEvent) : Type 0 where
    pub snapshot_decodes : snapshot_ok is_uuid s ≡ true
    pub owner_decodes : identity_ok is_uuid o ≡ true
    pub event_decodes : event_ok is_uuid e ≡ true
    pub same_job : (s.job_id ≡ o.job_id) × (e.job_id ≡ o.job_id)
    pub same_attempt : (s.attempt_id ≡ o.attempt_id) × (e.attempt_id ≡ o.attempt_id)
    pub same_fence : (s.fence ≡ o.fence) × (e.fence ≡ o.fence)
    pub own_output : is_foreign e ≡ false
    pub in_order : e.sequence ≡ s.sequence + 1
    pub permitted : permits_transition s e ≡ true

  decide_absent-inv :
      (s : AttemptSnapshot) (o : AttemptIdentity) (e : AttemptEvent) (s' : AttemptSnapshot)
      (e' : AttemptEvent)
      → decide_absent is_uuid s o e ≡ succeed (appended s' e')
      → (e.sequence ≡ s.sequence + 1)
        × (permits_transition s e ≡ true)
        × (s' ≡ advance s o e)
        × (e' ≡ e)
  unfolding decide_absent
  decide_absent-inv s o e s' e' h = ground arith

  module _ (s : AttemptSnapshot) (o : AttemptIdentity) (r : EventReceipt) (e : AttemptEvent)
      (d : AttemptEventDecision) (h : decide_attempt_event is_uuid s o r e ≡ succeed d) where
    decide-decodes :
        (snapshot_ok is_uuid s ≡ true)
        × (identity_ok is_uuid o ≡ true)
        × (event_ok is_uuid e ≡ true)
    unfolding decide_attempt_event
    decide-decodes = (ground arith, ground arith, ground arith)

    decide-current : is_stale_attempt is_uuid s o e ≡ false
    unfolding decide_attempt_event
    decide-current = ground arith

    decide-fenced : (text_eq s.fence o.fence ≡ true) × (text_eq e.fence o.fence ≡ true)
    unfolding decide_attempt_event
    decide-fenced = (ground arith, ground arith)

    decide-own_output : is_foreign e ≡ false
    unfolding decide_attempt_event
    decide-own_output = ground arith

    decide-decide_receipt : decide_receipt is_uuid s o r e ≡ succeed d
    unfolding decide_attempt_event
    decide-decide_receipt = ground arith

  current-same :
      (s : AttemptSnapshot) (o : AttemptIdentity) (e : AttemptEvent)
      → is_stale_attempt is_uuid s o e ≡ false
      → ((s.job_id ≡ o.job_id) × (e.job_id ≡ o.job_id))
        × ((s.attempt_id ≡ o.attempt_id) × (e.attempt_id ≡ o.attempt_id))
  current-same s o e h =
      let j : s.job_id ≡ o.job_id = ground (arith, text_eq_iff s.job_id o.job_id) in
      let k : e.job_id ≡ o.job_id = ground (arith, text_eq_iff e.job_id o.job_id) in
      (
        (j, k),
        (
          ground (arith, text_eq_iff s.attempt_id o.attempt_id),
          ground (arith, text_eq_iff e.attempt_id o.attempt_id),
        ),
      )

  decide_recorded-ne-appended :
      (s : AttemptSnapshot) (p e : AttemptEvent) (s' : AttemptSnapshot) (e' : AttemptEvent)
      → decide_recorded is_uuid s p e ≢ succeed (appended s' e')
  unfolding decide_recorded
  decide_recorded-ne-appended s p e s' e' h = ground arith

  decide_receipt-absent :
      (s : AttemptSnapshot) (o : AttemptIdentity) (r : EventReceipt) (e : AttemptEvent)
      (s' : AttemptSnapshot) (e' : AttemptEvent)
      → decide_receipt is_uuid s o r e ≡ succeed (appended s' e')
      → (decide_absent is_uuid s o e ≡ succeed (appended s' e')) × (r ≡ absent)
  unfolding decide_receipt
  decide_receipt-absent s o absent e s' e' h = (h, refl)
  decide_receipt-absent s o (recorded p) e s' e' h =
      absurd (decide_recorded-ne-appended s p e s' e' h)

  pub decide-Accepted :
      (s : AttemptSnapshot) (o : AttemptIdentity) (r : EventReceipt) (e : AttemptEvent)
      (s' : AttemptSnapshot) (e' : AttemptEvent)
      → decide_attempt_event is_uuid s o r e ≡ succeed (appended s' e')
      → Accepted s o e × (s' ≡ advance s o e) × (e' ≡ e) × (r ≡ absent)
  decide-Accepted s o r e s' e' h =
      let d = appended s' e' in
      let (hs, ho, he) = decide-decodes s o r e d h in
      let (job, attempt) = current-same s o e (decide-current s o r e d h) in
      let (f, g) = decide-fenced s o r e d h in
      let (k, none_yet) = decide_receipt-absent s o r e s' e' (decide-decide_receipt s o r e d h) in
      let (q, p, snapshot, event) = decide_absent-inv s o e s' e' k in
      (
        record {
          snapshot_decodes = hs;
          owner_decodes = ho;
          event_decodes = he;
          same_job = job;
          same_attempt = attempt;
          same_fence = (
            ground (arith, text_eq_iff s.fence o.fence),
            ground (arith, text_eq_iff e.fence o.fence),
          );
          own_output = decide-own_output s o r e d h;
          in_order = q;
          permitted = p;
        },
        snapshot,
        event,
        none_yet,
      )
