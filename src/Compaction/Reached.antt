-- ===== src/Compaction/Reached.antt =====
-- The runs of pi/extensions/safe-compaction/index.ts: every order of the session's events.
use metagenda.Base.{
  ℕ, ◌≤◌, ◌≡◌, refl, ◌∙◌, subst, inl, inr, Option, none, List, [], ◌∷◌, ◌++◌, Bool, true, false,
  not, ◌&&◌, length, arith, Option-cases, Bool-cases,
}
use metagenda.Base.Text.{Text}
use metagenda.Base.Value.{Value, max_safe_integer}
use metagenda.Compaction.Types.{
  RequestedReason, CompactionReason, SafeCompactionState, idle, preparing, ready, forced, Completed,
  max_resume_notes,
}
use metagenda.Compaction.Decode.{is_compaction, restore_safe_compaction_state}
use metagenda.Compaction.Transition.{before_compaction_transition}
use metagenda.Base.Bounded.{bounded_text, bounded_text-length}
use metagenda.Compaction.Session.{
  Session, persist, BeforeCompact, session_start, input, session_before_compact, session_compact,
  on_agent_settled, is_ready, compact_failed, session_shutdown, safe_compaction_ready, acknowledge,
}
use metagenda.Compaction.Restore.{IsStorable}
use metagenda.Compaction.Durable.{
  IsForeign, IsDurable, restore-foreign, persist-IsDurable, session_start-IsDurable,
  transition-IsStorable, complete-IsDurable,
}

-- One event of the session. The host appends its own entry before it reports a compaction, and may
-- append other entries at any time; the clock is within the safe integers.
pub data Step (s : Session) : Session → Type 0 where
  foreign : (v : Value) → IsForeign v → Step s (record s { log = s.log ++ v ∷ [] })
  restarted : Step s (session_start s.log).0
  typed : (from_extension : Bool) → Step s (input s from_extension)
  compacting :
      (event : BeforeCompact) (now : ℕ)
      → now ≤ max_safe_integer
      → Step s (session_before_compact s event now).0
  compacted :
      (v : Value) (reason : CompactionReason) (will_retry : Bool)
      → is_compaction v ≡ true
      → Step s (session_compact (record s { log = s.log ++ v ∷ [] }) reason will_retry).0
  settled : Step s (on_agent_settled s).0
  failed : Step s (compact_failed s)
  closed : Step s (session_shutdown s)
  acknowledging :
      (notes : Text) (now : ℕ)
      → now ≤ max_safe_integer
      → Step s (safe_compaction_ready s notes now).0

pub data Reached : Session → Type 0 where
  started : (log : List Value) → Reached (session_start log).0
  next : (s t : Session) → Reached s → Step s t → Reached t

same-IsDurable :
    (s : Session) (c : Bool) (p : Option Completed)
    → IsDurable s
    → IsDurable (record s { compact_requested = c; pending_automatic_resume = p })
same-IsDurable s c p d = record { restores = d.restores; storable = d.storable }

input-IsDurable : (s : Session) (b : Bool) → IsDurable s → IsDurable (input s b)
unfolding input
input-IsDurable s b d = split s.state refl
  where
    split : (t : SafeCompactionState) → s.state ≡ t → IsDurable (input s b)
    split (idle true) e = elim (Bool-cases b) [
      | inl k ↦ let same : input s b ≡ s = ground arith in rw same d
      | inr k ↦
          let same : input s b ≡ persist s (idle false) = ground arith in
          rw same (persist-IsDurable s (idle false) tt)
    ]
    split (idle false) e = let same : input s b ≡ s = ground arith in rw same d
    split (preparing q at) e = let same : input s b ≡ s = ground arith in rw same d
    split (ready q at on n) e = let same : input s b ≡ s = ground arith in rw same d
    split (forced q at n k) e = let same : input s b ≡ s = ground arith in rw same d

settled-IsDurable : (s : Session) → IsDurable s → IsDurable (on_agent_settled s).0
unfolding on_agent_settled
settled-IsDurable s d = elim (Option-cases s.pending_automatic_resume) [
  | inl e ↦ elim (Bool-cases (is_ready s.state && not s.compact_requested)) [
    | inl k ↦
        let same : (on_agent_settled s).0 ≡ record s { compact_requested = true } = ground arith in
        rw same (same-IsDurable s true s.pending_automatic_resume d)
    | inr k ↦ let same : (on_agent_settled s).0 ≡ s = ground arith in rw same d
  ]
  | inr (c, e) ↦
      let same : (on_agent_settled s).0 ≡ record s { pending_automatic_resume = none } =
        ground arith in
      rw same (same-IsDurable s s.compact_requested none d)
]

acknowledge-IsDurable :
    (s : Session) (r : RequestedReason) (at now : ℕ) (notes : Text)
    → IsDurable s
    → at ≤ max_safe_integer
    → now ≤ max_safe_integer
    → length notes ≤ max_resume_notes
    → IsDurable (acknowledge s r at now notes).0
acknowledge-IsDurable s r at now [] d h k n = d
acknowledge-IsDurable s r at now (c ∷ cs) d h k n =
    persist-IsDurable s (ready r at now (c ∷ cs)) (h, k, n)

ready-IsDurable :
    (s : Session) (notes : Text) (now : ℕ)
    → IsDurable s
    → now ≤ max_safe_integer
    → IsDurable (safe_compaction_ready s notes now).0
unfolding safe_compaction_ready
ready-IsDurable s notes now d h = split s.state refl
  where
    split :
        (t : SafeCompactionState) → s.state ≡ t → IsDurable (safe_compaction_ready s notes now).0
    split (idle b) e =
        let same : (safe_compaction_ready s notes now).0 ≡ s = ground arith in rw same d
    split (preparing r at) e =
        let bounded = bounded_text max_resume_notes notes in
        let safe : at ≤ max_safe_integer = subst IsStorable e d.storable in
        let same : (safe_compaction_ready s notes now).0 ≡ (acknowledge s r at now bounded).0 =
          ground arith in
        rw same (
          acknowledge-IsDurable s r at now bounded d safe h
            (bounded_text-length max_resume_notes notes))
    split (ready q at on n) e =
        let same : (safe_compaction_ready s notes now).0 ≡ s = ground arith in rw same d
    split (forced q at n k) e =
        let same : (safe_compaction_ready s notes now).0 ≡ s = ground arith in rw same d

Step-IsDurable : (s t : Session) → IsDurable s → Step s t → IsDurable t
unfolding session_before_compact session_compact
Step-IsDurable s _ d (foreign v f) = record {
  restores = restore-foreign s.log v f ∙ d.restores;
  storable = d.storable;
}
Step-IsDurable s _ d restarted = session_start-IsDurable s.log
Step-IsDurable s _ d (typed b) = input-IsDurable s b d
Step-IsDurable s _ d (compacting event now h) =
    persist-IsDurable s (before_compaction_transition s.state event.reason now).state
      (transition-IsStorable s.state event.reason now d.storable h)
Step-IsDurable s _ d (compacted v reason retry c) =
    complete-IsDurable (record s { log = s.log ++ v ∷ []; compact_requested = false }) s.state
      reason retry
Step-IsDurable s _ d settled = settled-IsDurable s d
Step-IsDurable s _ d failed = same-IsDurable s false s.pending_automatic_resume d
Step-IsDurable s _ d closed = same-IsDurable s s.compact_requested none d
Step-IsDurable s _ d (acknowledging notes now h) = ready-IsDurable s notes now d h

-- In every order of the session's events, with a clock within the safe integers, what is restored
-- from the session log is the state that the extension holds.
pub Reached-restores : (s : Session) → Reached s → restore_safe_compaction_state s.log ≡ s.state
Reached-restores s r = (go s r).restores
  where
    go : (s : Session) → Reached s → IsDurable s
    go _ (started log) = session_start-IsDurable log
    go _ (next s t r step) = Step-IsDurable s t (go s r) step
