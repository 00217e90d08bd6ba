-- ===== src/Compaction/Durable.antt =====
-- What the handlers of pi/extensions/safe-compaction/index.ts leave in the session log, and what is
-- restored from it.
use mathlib.Core.List.{reverse}
use metagenda.Base.{
  ℕ, ◌≤◌, ◌≡◌, ◌↔◌, ◌⊎◌, refl, sym, subst, ap, ◌∙◌, inl, inr, Option, none, some, any, All, List,
  [], ◌∷◌, ◌++◌, Bool, true, false, ◌||◌, arith, Option-cases,
}
use metagenda.Base.Text.{lit, text_eq}
use metagenda.Base.Value.{Value, obj, get_field, max_safe_integer}
use metagenda.Base.Reverse.{reverse-last, All-reverse}
use metagenda.Compaction.Types.{
  RequestedReason, manual, threshold, CompactionReason, requested, overflow, SafeCompactionState,
  idle, preparing, ready, forced, Completed, CompactionResumeMode, host_retry, agent_settled,
  manual_complete,
}
use metagenda.Compaction.Decode.{
  is_compaction, entry_state, after_compaction, restored, restore_from,
  restore_safe_compaction_state,
}
use metagenda.Compaction.Transition.{
  before_compaction_transition, requested_transition, forced_state, overflow_notes, unready_notes,
  compaction_resume_mode,
}
use metagenda.Compaction.Session.{Session, state_entry, persist, session_start, complete, finish}
use metagenda.Compaction.Restore.{IsStorable, decode-stored_state}
use metagenda.Compaction.Soundness.{decode-IsStorable}

entry-stored : (s : SafeCompactionState) → IsStorable s → entry_state (state_entry s) ≡ some s
unfolding entry_state text_eq lit
entry-stored s v = decode-stored_state s v

pub restore-persisted :
    (log : List Value) (s : SafeCompactionState)
    → IsStorable s
    → restore_safe_compaction_state (log ++ state_entry s ∷ []) ≡ s
unfolding restore_safe_compaction_state restore_from
restore-persisted log s v =
    let read = entry-stored s v in
    ap (restore_from false) (reverse-last log [] (state_entry s)) ∙ ground arith

restored-IsStorable :
    (b : Bool) (s : SafeCompactionState) → IsStorable s → IsStorable (restored b s)
restored-IsStorable false s v = v
restored-IsStorable true (idle b) v = tt
restored-IsStorable true (preparing manual at) v = tt
restored-IsStorable true (preparing threshold at) v = tt
restored-IsStorable true (ready manual at on n) v = tt
restored-IsStorable true (ready threshold at on n) v = tt
restored-IsStorable true (forced (requested manual) at n b) v = tt
restored-IsStorable true (forced (requested threshold) at n b) v = tt
restored-IsStorable true (forced overflow at n b) v = tt

entry_state-IsStorable :
    (v : Value) (s : SafeCompactionState) → entry_state v ≡ some s → IsStorable s
unfolding entry_state
entry_state-IsStorable (obj fs) s e = decode-IsStorable (get_field "data" fs) s (ground arith)
entry_state-IsStorable _ s e = absurd (cc)

restore_from-IsStorable : (b : Bool) (log : List Value) → IsStorable (restore_from b log)
unfolding restore_from
restore_from-IsStorable b [] = tt
restore_from-IsStorable b (v ∷ vs) = elim (Option-cases (entry_state v)) [
  | inl e ↦
      let same : restore_from b (v ∷ vs) ≡ restore_from (b || is_compaction v) vs = ground arith in
      rw same (restore_from-IsStorable (b || is_compaction v) vs)
  | inr (s, e) ↦
      let same : restore_from b (v ∷ vs) ≡ restored b s = ground arith in
      rw same (restored-IsStorable b s (entry_state-IsStorable v s e))
]

-- An entry that records no state and no compaction.
abbrev pub IsForeign : Value → Type 0
IsForeign v = (entry_state v ≡ none) × (is_compaction v ≡ false)

pub restore-foreign :
    (log : List Value) (v : Value)
    → IsForeign v
    → restore_safe_compaction_state (log ++ v ∷ []) ≡ restore_safe_compaction_state log
unfolding restore_safe_compaction_state restore_from
restore-foreign log v (e, c) = ap (restore_from false) (reverse-last log [] v) ∙ ground arith

after_compaction_idem :
    (b : Bool) (s : SafeCompactionState) → after_compaction (restored b s) ≡ after_compaction s
after_compaction_idem false s = refl
after_compaction_idem true (idle b) = refl
after_compaction_idem true (preparing manual at) = refl
after_compaction_idem true (preparing threshold at) = refl
after_compaction_idem true (ready manual at on n) = refl
after_compaction_idem true (ready threshold at on n) = refl
after_compaction_idem true (forced (requested manual) at n b) = refl
after_compaction_idem true (forced (requested threshold) at n b) = refl
after_compaction_idem true (forced overflow at n b) = refl

restore_from-observed :
    (b : Bool) (log : List Value) → restore_from true log ≡ after_compaction (restore_from b log)
unfolding restore_from
restore_from-observed b [] = refl
restore_from-observed b (v ∷ vs) = elim (Option-cases (entry_state v)) [
  | inl e ↦ ground (arith, restore_from-observed (b || is_compaction v) vs)
  | inr (s, e) ↦ ground (arith, after_compaction_idem b s)
]

-- Why a state was requested; an idle one was not.
abbrev pub reason_of : SafeCompactionState → Option CompactionReason
reason_of (idle b) = none
reason_of (preparing r at) = some (requested r)
reason_of (ready r at on n) = some (requested r)
reason_of (forced r at n b) = some r

-- Threshold compactions go on after the state: it blocks none, or the user asked for it.
abbrev pub GoesOn : SafeCompactionState → Type 0
GoesOn s = (s ≡ idle false) ⊎ (reason_of s ≡ some (requested manual))

-- An idle state that blocks unless the other state goes on.
abbrev pub IdleAfter : SafeCompactionState → SafeCompactionState → Type 0
IdleAfter s s' = (b : Bool) × (s' ≡ idle b) × ((b ≡ false) ↔ GoesOn s)

after_compaction-IdleAfter : (s : SafeCompactionState) → IdleAfter s (after_compaction s)
after_compaction-IdleAfter (idle false) = (false, refl, (λ e. inl refl, λ e. refl))
after_compaction-IdleAfter (idle true) = (true, refl, (λ e. absurd (cc), λ g. ground arith))
after_compaction-IdleAfter (preparing manual at) = (false, refl, (λ e. inr refl, λ g. refl))
after_compaction-IdleAfter (preparing threshold at) =
    (true, refl, (λ e. absurd (cc), λ g. ground arith))
after_compaction-IdleAfter (ready manual at on n) = (false, refl, (λ e. inr refl, λ g. refl))
after_compaction-IdleAfter (ready threshold at on n) =
    (true, refl, (λ e. absurd (cc), λ g. ground arith))
after_compaction-IdleAfter (forced (requested manual) at n b) =
    (false, refl, (λ e. inr refl, λ g. refl))
after_compaction-IdleAfter (forced (requested threshold) at n b) =
    (true, refl, (λ e. absurd (cc), λ g. ground arith))
after_compaction-IdleAfter (forced overflow at n b) =
    (true, refl, (λ e. absurd (cc), λ g. ground arith))

abbrev pub NoState : Value → Type 0
NoState v = entry_state v ≡ none

-- Entries without a state are passed over.
restore_from-passes :
    (vs ws : List Value) (b : Bool)
    → All NoState vs
    → restore_from b (vs ++ ws) ≡ restore_from (b || any is_compaction vs) ws
unfolding restore_from
restore_from-passes [] ws b h = ground arith
restore_from-passes (v ∷ vs) ws b (e, h) =
    ground (arith, restore_from-passes vs ws (b || is_compaction v) h)

-- A compaction in the log that no state follows, whatever else does, leads to an idle state. That
-- state lets threshold compactions go on exactly where the state restored before the compaction was
-- idle without a block, or had been requested by the user.
pub restore-compacted :
    (log newer : List Value) (v : Value)
    → NoState v
    → is_compaction v ≡ true
    → All NoState newer
    → IdleAfter
        (restore_safe_compaction_state log)
        (restore_safe_compaction_state (log ++ v ∷ newer))
unfolding restore_safe_compaction_state restore_from
restore-compacted log newer v e c h =
    let passed =
      restore_from-passes (reverse newer) (v ∷ reverse log) false (All-reverse NoState newer h) in
    let observed : restore_from (any is_compaction (reverse newer)) (v ∷ reverse log)
        ≡ after_compaction (restore_from false (reverse log)) =
      ground (arith, restore_from-observed false (reverse log)) in
    let same = ap (restore_from false) (reverse-last log newer v) ∙ passed ∙ observed in
    subst (IdleAfter (restore_from false (reverse log))) (sym same)
      (after_compaction-IdleAfter (restore_from false (reverse log)))

-- The variable holds what a restart would restore, and that state is storable.
pub record IsDurable (s : Session) : Type 0 where
  pub restores : restore_safe_compaction_state s.log ≡ s.state
  pub storable : IsStorable s.state

pub persist-IsDurable :
    (s : Session) (next : SafeCompactionState) → IsStorable next → IsDurable (persist s next)
persist-IsDurable s next v = record { restores = restore-persisted s.log next v; storable = v }

pub session_start-IsDurable : (log : List Value) → IsDurable (session_start log).0
unfolding session_start restore_safe_compaction_state
session_start-IsDurable log = record {
  restores = refl;
  storable = restore_from-IsStorable false (reverse log);
}

forced_state-IsStorable :
    (s : SafeCompactionState) (now : ℕ)
    → IsStorable s
    → now ≤ max_safe_integer
    → IsStorable (forced_state s now)
unfolding overflow_notes lit
forced_state-IsStorable (idle b) now v h = (h, omega arith)
forced_state-IsStorable (preparing r at) now v h = (v, omega arith)
forced_state-IsStorable (ready r at on n) now v h = v
forced_state-IsStorable (forced r at n b) now v h = v

requested_transition-IsStorable :
    (s : SafeCompactionState) (r : RequestedReason) (now : ℕ)
    → IsStorable s
    → now ≤ max_safe_integer
    → IsStorable (requested_transition s r now).state
unfolding requested_transition unready_notes lit
requested_transition-IsStorable (idle true) threshold now v h = tt
requested_transition-IsStorable (idle true) manual now v h = h
requested_transition-IsStorable (idle false) r now v h = h
requested_transition-IsStorable (preparing q at) r now v h = (v, omega arith)
requested_transition-IsStorable (ready q at on n) r now v h = v
requested_transition-IsStorable (forced q at n b) r now v h = v

pub transition-IsStorable :
    (s : SafeCompactionState) (r : CompactionReason) (now : ℕ)
    → IsStorable s
    → now ≤ max_safe_integer
    → IsStorable (before_compaction_transition s r now).state
unfolding before_compaction_transition
transition-IsStorable s overflow now v h = forced_state-IsStorable s now v h
transition-IsStorable s (requested r) now v h = requested_transition-IsStorable s r now v h

finish-IsDurable :
    (s : Session) (m : CompactionResumeMode) (c : Completed) (b : Bool)
    → IsDurable (finish s m c b).0
finish-IsDurable s host_retry c b = persist-IsDurable s (idle true) tt
finish-IsDurable s agent_settled c true = persist-IsDurable s (idle true) tt
finish-IsDurable s agent_settled c false =
    let d = persist-IsDurable s (idle true) tt in
    record { restores = d.restores; storable = d.storable }
finish-IsDurable s manual_complete c b = persist-IsDurable s (idle false) tt

pub complete-IsDurable :
    (s : Session) (t : SafeCompactionState) (r : CompactionReason) (b : Bool)
    → IsDurable (complete s t r b).0
complete-IsDurable s (idle k) r b = persist-IsDurable s (idle k) tt
complete-IsDurable s (preparing q at) r b = persist-IsDurable s (idle false) tt
complete-IsDurable s (ready q at on n) r b =
    finish-IsDurable s (compaction_resume_mode r b)
      (record { reason = requested q; resume_notes = n }) false
complete-IsDurable s (forced q at n k) r b =
    finish-IsDurable s (compaction_resume_mode r b) (record { reason = q; resume_notes = n }) k
