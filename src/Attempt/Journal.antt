-- ===== src/Attempt/Journal.antt =====
-- The transaction that the comment above `decideAttemptEvent` in
-- pi/extensions/shared/job-attempt.ts asks of the persistence owner: the decision is taken on the
-- current snapshot and on the receipt for the event's ID, and an appended event is recorded with the
-- new snapshot. The log has its newest event first.
use metagenda.Base.{
  ℕ, zero, suc, ◌≡◌, refl, ◌⊎◌, inl, inr, Bool, true, none, arith, if◌then◌else◌, Outcome, succeed,
  fail, ◌>>=◌, List, [], ◌∷◌, length, map,
}
use metagenda.Base.Text.{Text, text_eq}
use metagenda.Attempt.Types.{
  Code, AttemptIdentity, AttemptEvent, Status, AttemptSnapshot, EventReceipt, absent, recorded,
  AttemptEventDecision, duplicate, appended,
}
use metagenda.Attempt.{
  permits, permits_transition, is_terminal_status, status_ok, snapshot_ok, advance,
  decide_attempt_event,
}
use metagenda.Attempt.Decision.{Accepted, decide-Accepted, advance-ok}

pub record Journal : Type 0 where
  pub snapshot : AttemptSnapshot
  pub log : List AttemptEvent

abbrev pub receipt_for : Text → List AttemptEvent → EventReceipt
receipt_for id [] = absent
receipt_for id (e ∷ log) = if text_eq e.event_id id then recorded e else receipt_for id log

abbrev pub apply_decision : Journal → AttemptEventDecision → Journal
apply_decision j duplicate = j
apply_decision j (appended s e) = record { snapshot = s; log = e ∷ j.log }

abbrev pub IsInitial : AttemptSnapshot → Type 0
IsInitial s = (s.status ≡ Status.pending) × (s.sequence ≡ 0) × (s.terminal_event_id ≡ none)

-- Numbers n, n - 1, ..., 1.
abbrev pub countdown : ℕ → List ℕ
countdown zero = []
countdown (suc n) = suc n ∷ countdown n

module _ (is_uuid : Text → Bool) where
  unfoldable pub deliver : Journal → AttemptIdentity → AttemptEvent → Outcome Code Journal
  deliver j owner e = do
    decision ← decide_attempt_event is_uuid j.snapshot owner (receipt_for e.event_id j.log) e
    succeed (apply_decision j decision)

  -- The journals that deliveries lead to, under any owners, from a fresh attempt.
  pub data Reached : Journal → Type 0 where
    fresh :
        (s : AttemptSnapshot)
        → snapshot_ok is_uuid s ≡ true
        → IsInitial s
        → Reached (record { snapshot = s; log = [] })
    delivered :
        {j j' : Journal} (owner : AttemptIdentity) (e : AttemptEvent)
        → Reached j
        → deliver j owner e ≡ succeed j'
        → Reached j'

  -- A log as the sequence of accepted events that led to a snapshot.
  pub data History : AttemptSnapshot → List AttemptEvent → Type 0 where
    empty : (s : AttemptSnapshot) → snapshot_ok is_uuid s ≡ true → IsInitial s → History s []
    more :
        {p s : AttemptSnapshot} {log : List AttemptEvent} (owner : AttemptIdentity)
        (e : AttemptEvent)
        → History p log
        → Accepted is_uuid p owner e
        → receipt_for e.event_id log ≡ absent
        → s ≡ advance p owner e
        → History s (e ∷ log)

  deliver-cases :
      (j j' : Journal) (owner : AttemptIdentity) (e : AttemptEvent)
      → deliver j owner e ≡ succeed j'
      → (j' ≡ j)
        ⊎ (Accepted is_uuid j.snapshot owner e
            × (receipt_for e.event_id j.log ≡ absent)
            × (j' ≡ record { snapshot = advance j.snapshot owner e; log = e ∷ j.log }))
  unfolding deliver
  deliver-cases j j' owner e h =
      split (decide_attempt_event is_uuid j.snapshot owner (receipt_for e.event_id j.log) e) refl
    where
      split :
          (d : Outcome Code AttemptEventDecision)
          → decide_attempt_event is_uuid j.snapshot owner (receipt_for e.event_id j.log) e ≡ d
          → (j' ≡ j)
            ⊎ (Accepted is_uuid j.snapshot owner e
                × (receipt_for e.event_id j.log ≡ absent)
                × (j' ≡ record { snapshot = advance j.snapshot owner e; log = e ∷ j.log }))
      split (fail c) q = absurd (ground arith)
      split (succeed duplicate) q = inl (ground arith)
      split (succeed (appended s' e')) q =
          let (a, same, same_e, none_yet) =
            decide-Accepted is_uuid j.snapshot owner (receipt_for e.event_id j.log) e s' e' q in
          inr (a, none_yet, ground arith)

  pub Reached-History : {j : Journal} → Reached j → History j.snapshot j.log
  Reached-History (fresh s k i) = empty s k i
  Reached-History (delivered {j} {j'} owner e r h) = elim (deliver-cases j j' owner e h) [
    | inl same ↦ rw same (Reached-History r)
    | inr (a, none_yet, same) ↦ rw same (more owner e (Reached-History r) a none_yet refl)
  ]

  pub History-ok :
      {s : AttemptSnapshot} {log : List AttemptEvent} → History s log → snapshot_ok is_uuid s ≡ true
  History-ok (empty s k i) = k
  History-ok (more {p} owner e h a f q) = rw q (
      advance-ok is_uuid p owner e a.snapshot_decodes a.owner_decodes a.event_decodes a.in_order
        a.permitted)

  pub History-sequences :
      {s : AttemptSnapshot} {log : List AttemptEvent}
      → History s log
      → (s.sequence ≡ length log)
        × (map (λ (e : AttemptEvent). e.sequence) log ≡ countdown (length log))
  unfolding advance
  History-sequences (empty s k i) = (i.1, refl)
  History-sequences (more {p} {s} {log} owner e h a f q) =
      let (n, c) = History-sequences h in (ground (arith), ground arith)

  -- A closed attempt accepts nothing more.
  pub terminal-absorbs :
      (j j' : Journal) (owner : AttemptIdentity) (e : AttemptEvent)
      → is_terminal_status j.snapshot.status ≡ true
      → deliver j owner e ≡ succeed j'
      → j' ≡ j
  unfolding permits_transition permits snapshot_ok status_ok
  terminal-absorbs j j' owner e t h = elim (deliver-cases j j' owner e h) [
    | inl same ↦ same
    | inr (a, none_yet, same) ↦ absurd (ground (arith, a.permitted, a.snapshot_decodes))
  ]
