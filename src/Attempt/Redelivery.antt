-- ===== src/Attempt/Redelivery.antt =====
-- Events that arrive again, and what a log of attempt events
-- (pi/extensions/shared/job-attempt.ts) can hold.
use metagenda.Base.{
  ℕ, ◌+◌, ◌≤◌, ◌<◌, ◌≡◌, refl, ◌≢◌, ◌⊎◌, inl, inr, Bool, true, false, some, arith, ◌==◌,
  if◌then◌else◌, succeed, fail, List, [], ◌∷◌, length, map,
}
use metagenda.Base.{In}
use metagenda.Base.Text.{Text, text_eq, text_eq_iff}
use metagenda.Attempt.Types.{
  receipt_conflict, AttemptIdentity, Usage, Body, AttemptEvent, Status, AttemptSnapshot,
  EventReceipt, absent, recorded, duplicate, appended, Status-discrete, AttemptEvent-discrete,
  same_event,
}
use metagenda.Attempt.{
  permits, permits_transition, is_terminal, is_terminal_status, is_pending, next_status,
  snapshot_ok, event_ok, identity_ok, receipt_ok, advance, is_foreign, status_agrees,
  decide_recorded, decide_absent, decide_receipt, decide_attempt_event,
}
use mathlib.Core.Bool.{decide, decide_iff}
use metagenda.Attempt.Decision.{advance-ok}
use metagenda.Attempt.Types.{InterruptionReason}
use metagenda.Attempt.Journal.{
  Journal, receipt_for, countdown, deliver, Reached, History, empty, more, Reached-History,
  History-ok, History-sequences,
}

abbrev pub identity : AttemptSnapshot → AttemptIdentity
identity s = record { job_id = s.job_id; attempt_id = s.attempt_id; fence = s.fence }

receipt-ne :
    (id : Text) (log : List AttemptEvent) (x : AttemptEvent)
    → receipt_for id log ≡ absent
    → In x log
    → x.event_id ≢ id
receipt-ne id [] x h m q = elim m [ ]
receipt-ne id (y ∷ log) x h (inl e) q = ground (arith, text_eq_iff y.event_id id)
receipt-ne id (y ∷ log) x h (inr m) q = receipt-ne id log x (ground arith) m q

permits-agrees :
    (st : Status) (b : Body)
    → permits st b ≡ true
    → is_terminal b ≡ false
    → status_agrees (next_status st b) b ≡ true
unfolding permits status_agrees Status-discrete decide
permits-agrees Status.pending Body.running h t = refl
permits-agrees Status.pending (Body.stopping r) h t = refl
permits-agrees Status.running (Body.output o) h t = refl
permits-agrees Status.running (Body.stopping r) h t = refl
permits-agrees Status.stopping (Body.output o) h t = refl
permits-agrees st b h t = ground arith

pending-agrees :
    (st : Status) (b : Body) → is_pending b ≡ true → status_agrees (next_status st b) b ≡ true
unfolding status_agrees Status-discrete decide
pending-agrees st Body.pending h = refl
pending-agrees st b h = cc

module _ (is_uuid : Text → Bool) where
  receipt-In :
      {s : AttemptSnapshot} {log : List AttemptEvent} (x : AttemptEvent)
      → History is_uuid s log
      → In x log
      → receipt_for x.event_id log ≡ recorded x
  receipt-In x (empty s _ _) m = elim m [ ]
  receipt-In x (more owner e h a f q) (inl m) = ground (arith, text_eq_iff e.event_id x.event_id)
  receipt-In x (more {log} owner e h a f q) (inr m) =
      ground (
        arith,
        text_eq_iff e.event_id x.event_id,
        receipt-In x h m,
        receipt-ne e.event_id log x f m,
      )

  -- What a log knows of an event in it.
  record Known (s : AttemptSnapshot) (x : AttemptEvent) : Type 0 where
    decodes : event_ok is_uuid x ≡ true
    job : x.job_id ≡ s.job_id
    attempt : x.attempt_id ≡ s.attempt_id
    fence : x.fence ≡ s.fence
    own : is_foreign x ≡ false
    numbered : (1 ≤ x.sequence) × (x.sequence ≤ s.sequence)

  Known-In :
      {s : AttemptSnapshot} {log : List AttemptEvent} (x : AttemptEvent)
      → History is_uuid s log
      → In x log
      → Known s x
  unfolding advance
  Known-In x (empty s _ _) m = elim m [ ]
  Known-In x (more {p} {s} owner e h a f q) (inl m) = record {
    decodes = ground (arith, a.event_decodes);
    job = ground (arith, a.same_job);
    attempt = ground (arith, a.same_attempt);
    fence = ground (arith, a.same_fence);
    own = ground (arith, a.own_output);
    numbered = ground (arith, a.in_order);
  }
  Known-In x (more {p} {s} owner e h a f q) (inr m) =
      let k = Known-In x h m in
      record {
        decodes = k.decodes;
        job = ground (arith, a.same_job, k.job);
        attempt = ground (arith, a.same_attempt, k.attempt);
        fence = ground (arith, a.same_fence, k.fence);
        own = k.own;
        numbered = ground (arith, a.in_order, k.numbered);
      }

  History-identity :
      {s : AttemptSnapshot} {log : List AttemptEvent}
      → History is_uuid s log
      → identity_ok is_uuid (identity s) ≡ true
  unfolding identity_ok snapshot_ok
  History-identity {s} h = ground (arith, History-ok is_uuid h)

  -- A terminal event is the newest one, and the snapshot names it.
  terminal-newest :
      {s : AttemptSnapshot} {log : List AttemptEvent} (x : AttemptEvent)
      → History is_uuid s log
      → In x log
      → is_terminal x.body ≡ true
      → (s.sequence ≡ x.sequence)
        × (s.status ≡ next_status s.status x.body)
        × (s.terminal_event_id ≡ some x.event_id)
        × (is_terminal_status s.status ≡ true)
  unfolding advance permits_transition permits
  terminal-newest x (empty s _ _) m t = elim m [ ]
  terminal-newest x (more {p} {s} owner e h a f q) (inl m) t = ground arith
  terminal-newest x (more {p} {s} owner e h a f q) (inr m) t =
      let (n, st, i, closed) = terminal-newest x h m t in
      let k = (Known-In x h m).numbered in absurd (ground (arith, a.permitted))

  newest-agrees :
      {s : AttemptSnapshot} {log : List AttemptEvent} (x : AttemptEvent)
      → History is_uuid s log
      → In x log
      → is_terminal x.body ≡ false
      → x.sequence ≡ s.sequence
      → status_agrees s.status x.body ≡ true
  unfolding advance permits_transition
  newest-agrees x (empty s _ _) m t n = elim m [ ]
  newest-agrees x (more {p} {s} owner e h a f q) (inl m) t n =
      ground (arith, a.permitted, permits-agrees p.status e.body, pending-agrees p.status e.body)
  newest-agrees x (more {p} {s} owner e h a f q) (inr m) t n =
      let k = (Known-In x h m).numbered in absurd (ground (arith, a.in_order))

  same_event_refl : (e : AttemptEvent) → same_event e e ≡ true
  unfolding same_event
  same_event_refl e = (decide_iff (AttemptEvent-discrete e e)).1 refl

  text_eq_refl : (t : Text) → text_eq t t ≡ true
  text_eq_refl t = (text_eq_iff t t).1 refl

  -- Past the ownership checks, the receipt decides.
  decide-own :
      (s : AttemptSnapshot) (r : EventReceipt) (x : AttemptEvent)
      → snapshot_ok is_uuid s ≡ true
      → identity_ok is_uuid (identity s) ≡ true
      → receipt_ok is_uuid r ≡ true
      → event_ok is_uuid x ≡ true
      → x.job_id ≡ s.job_id
      → x.attempt_id ≡ s.attempt_id
      → x.fence ≡ s.fence
      → is_foreign x ≡ false
      → decide_attempt_event is_uuid s (identity s) r x ≡ decide_receipt is_uuid s (identity s) r x
  unfolding decide_attempt_event
  decide-own s r x hs hi hr hx j a f o =
      ground (arith, text_eq_refl s.job_id, text_eq_refl s.attempt_id, text_eq_refl s.fence)

  decide_recorded-In :
      {s : AttemptSnapshot} {log : List AttemptEvent} (x : AttemptEvent)
      → History is_uuid s log
      → In x log
      → decide_recorded is_uuid s x x ≡ succeed duplicate
  unfolding decide_recorded decide Status-discrete
  decide_recorded-In {s} x h m = ground (
    arith,
    same_event_refl x,
    terminal-newest x h m,
    newest-agrees x h m,
    (Known-In x h m).numbered,
    text_eq_refl x.event_id,
  )

  -- Every event that a reached journal holds is answered as a duplicate when it is delivered again,
  -- whatever was recorded after it, and changes nothing.
  pub redelivered :
      (j : Journal) (x : AttemptEvent)
      → Reached is_uuid j
      → In x j.log
      → deliver is_uuid j (identity j.snapshot) x ≡ succeed j
  unfolding deliver decide_receipt receipt_ok
  redelivered j x r m =
      let h = Reached-History is_uuid r in
      let k = Known-In x h m in
      rw
        (
          receipt-In x h m,
          decide-own j.snapshot (recorded x) x (History-ok is_uuid h) (History-identity h) k.decodes
              k.decodes k.job k.attempt k.fence k.own,
          decide_recorded-In x h m,
        )
        refl

  -- Another event under the ID of a recorded one is refused as a conflict, if it decodes, names the
  -- current attempt, and shows no foreign output.
  pub conflicting :
      (j : Journal) (x y : AttemptEvent)
      → Reached is_uuid j
      → In x j.log
      → y.event_id ≡ x.event_id
      → y ≢ x
      → event_ok is_uuid y ≡ true
      → y.job_id ≡ j.snapshot.job_id
      → y.attempt_id ≡ j.snapshot.attempt_id
      → y.fence ≡ j.snapshot.fence
      → is_foreign y ≡ false
      → deliver is_uuid j (identity j.snapshot) y ≡ fail receipt_conflict
  unfolding deliver decide_receipt receipt_ok decide_recorded same_event
  conflicting j x y r m same other ok jb at fe own =
      let h = Reached-History is_uuid r in
      let k = Known-In x h m in
      let seen : receipt_for y.event_id j.log ≡ recorded x = rw same (receipt-In x h m) in
      rw
        (
          seen,
          decide-own j.snapshot (recorded x) y (History-ok is_uuid h) (History-identity h) k.decodes
              ok jb at fe own,
        )
        (ground (arith, decide_iff (AttemptEvent-discrete x y)))

  -- The sequences of a reached log are n, ..., 1 with n the snapshot's, so no number is skipped or
  -- used twice.
  pub log_sequences :
      (j : Journal)
      → Reached is_uuid j
      → (j.snapshot.sequence ≡ length j.log)
        × (map (λ (e : AttemptEvent). e.sequence) j.log ≡ countdown (length j.log))
  log_sequences j r = History-sequences is_uuid (Reached-History is_uuid r)

  -- Two terminal events in a reached log are equal: there is at most one.
  pub one_terminal :
      (j : Journal) (x y : AttemptEvent)
      → Reached is_uuid j
      → In x j.log
      → In y j.log
      → is_terminal x.body ≡ true
      → is_terminal y.body ≡ true
      → x ≡ y
  one_terminal j x y r mx my tx ty =
      let h = Reached-History is_uuid r in
      ground (
        arith,
        terminal-newest x h mx tx,
        terminal-newest y h my ty,
        receipt-In x h mx,
        receipt-In y h my,
      )

  enters_run :
      (n : ℕ) (st : Status) (b : Body)
      → (if n == 0 then is_pending b else permits st b) ≡ true
      → (next_status st b ≡ Status.running) ⊎ (next_status st b ≡ Status.succeeded)
      → (b ≡ Body.running) ⊎ (st ≡ Status.running)
  unfolding permits
  enters_run n st b h t = ground arith

  has_run-Status :
      {s : AttemptSnapshot} {log : List AttemptEvent}
      → History is_uuid s log
      → (s.status ≡ Status.running) ⊎ (s.status ≡ Status.succeeded)
      → (x : AttemptEvent) × In x log × (x.body ≡ Body.running)
  unfolding advance permits_transition
  has_run-Status (empty s _ i) t = absurd (ground arith)
  has_run-Status (more {p} {s} owner e h a f q) t =
      elim (enters_run p.sequence p.status e.body a.permitted (ground arith)) [
        | inl here ↦ (e, inl refl, here)
        | inr before ↦ let (x, m, b) = has_run-Status h (inl before) in (x, inr m, b)
      ]

  -- An attempt that succeeded was running before: its log holds a `running` event.
  pub succeeded_has_run :
      (j : Journal)
      → Reached is_uuid j
      → j.snapshot.status ≡ Status.succeeded
      → (x : AttemptEvent) × In x j.log × (x.body ≡ Body.running)
  succeeded_has_run j r e = has_run-Status (Reached-History is_uuid r) (inr e)

  decide_absent-eq-appended :
      (s : AttemptSnapshot) (o : AttemptIdentity) (e : AttemptEvent)
      → snapshot_ok is_uuid s ≡ true
      → identity_ok is_uuid o ≡ true
      → event_ok is_uuid e ≡ true
      → e.sequence ≡ s.sequence + 1
      → permits_transition s e ≡ true
      → decide_absent is_uuid s o e ≡ succeed (appended (advance s o e) e)
  unfolding decide_absent event_ok
  decide_absent-eq-appended s o e hs ho he n p =
      ground (arith, advance-ok is_uuid s o e hs ho he n p)

  permits-interrupted :
      (n : ℕ) (st : Status) (b : Body) (why : InterruptionReason) (usage : Usage)
      → is_terminal_status st ≡ false
      → 0 < n
      → b ≡ Body.interrupted why usage
      → (if n == 0 then is_pending b else permits st b) ≡ true
  unfolding permits
  permits-interrupted n st b why usage t z e = ground arith

  -- An attempt that was opened and has not ended can be ended: whoever lost its worker, a well-formed
  -- `interrupted` event under a new ID and the next sequence is recorded, and closes it.
  pub interrupt_closes :
      (j : Journal) (e : AttemptEvent) (why : InterruptionReason) (usage : Usage)
      → Reached is_uuid j
      → is_terminal_status j.snapshot.status ≡ false
      → 0 < j.snapshot.sequence
      → e.body ≡ Body.interrupted why usage
      → receipt_for e.event_id j.log ≡ absent
      → event_ok is_uuid e ≡ true
      → e.sequence ≡ j.snapshot.sequence + 1
      → e.job_id ≡ j.snapshot.job_id
      → e.attempt_id ≡ j.snapshot.attempt_id
      → e.fence ≡ j.snapshot.fence
      → (deliver is_uuid j (identity j.snapshot) e
          ≡ succeed
              (record { snapshot = advance j.snapshot (identity j.snapshot) e; log = e ∷ j.log }))
        × ((advance j.snapshot (identity j.snapshot) e).status ≡ Status.interrupted)
  unfolding deliver decide_receipt receipt_ok permits_transition is_foreign
  interrupt_closes j e why usage r going opened b new ok n jb at fe =
      let h = Reached-History is_uuid r in
      let allowed =
        permits-interrupted j.snapshot.sequence j.snapshot.status e.body why usage going opened b in
      (
        rw
            (
              new,
              decide-own j.snapshot absent e (History-ok is_uuid h) (History-identity h) refl ok jb
                  at fe (ground arith),
              decide_absent-eq-appended j.snapshot (identity j.snapshot) e (History-ok is_uuid h)
                  (History-identity h) ok n allowed,
            )
            refl,
        closing,
      )
    where
      closing : (advance j.snapshot (identity j.snapshot) e).status ≡ Status.interrupted
      closing = unfold advance in rw b refl
