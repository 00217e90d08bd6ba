-- ===== src/Compaction/Checkpoint.antt =====
-- The transitions of pi/extensions/safe-compaction/state.ts, and a whole overflow in
-- pi/extensions/safe-compaction/index.ts.
use metagenda.Base.{ℕ, ◌≡◌, refl, Option, none, some, List, [], ◌∷◌, Bool, true, false, arith}
use metagenda.Compaction.Types.{
  manual, threshold, CompactionReason, requested, overflow, SafeCompactionState, idle, preparing,
  ready, forced, Completed,
}
use metagenda.Compaction.Transition.{
  before_compaction_transition, requested_transition, overflow_notes, compaction_resume_mode,
}
use metagenda.Compaction.Session.{
  Session, Output, resume, BeforeCompact, session_before_compact, session_compact, on_agent_settled,
}

-- Two compactions in a row are both cancelled only where the first was a threshold compaction that is
-- blocked until the user's next input: a preparation holds back one compaction and no more.
pub cancelled_once :
    (s : SafeCompactionState) (r q : CompactionReason) (now later : ℕ)
    → (before_compaction_transition s r now).cancel ≡ true
    → (before_compaction_transition (before_compaction_transition s r now).state q later).cancel
      ≡ true
    → (s ≡ idle true) × (r ≡ requested threshold)
unfolding before_compaction_transition requested_transition
cancelled_once (idle true) (requested threshold) q now later h k = (refl, refl)
cancelled_once (idle true) (requested manual) (requested q) now later h k = absurd (cc)
cancelled_once (idle true) (requested manual) overflow now later h k = absurd (cc)
cancelled_once (idle false) (requested r) (requested q) now later h k = absurd (cc)
cancelled_once (idle false) (requested r) overflow now later h k = absurd (cc)
cancelled_once (preparing p at) (requested r) q now later h k = absurd (cc)
cancelled_once (ready p at on notes) (requested r) q now later h k = absurd (cc)
cancelled_once (forced p at notes b) (requested r) q now later h k = absurd (cc)
cancelled_once s overflow q now later h k = absurd (cc)

-- The time at which a state was asked for.
abbrev pub requested_at : SafeCompactionState → Option ℕ
requested_at (idle _) = none
requested_at (preparing _ at) = some at
requested_at (ready _ at _ _) = some at
requested_at (forced _ at _ _) = some at

-- A request in progress keeps its time through a transition, for whatever reason the compaction
-- comes, and that compaction is neither cancelled nor prepared for again.
pub before_compaction_transition-requested_at :
    (s : SafeCompactionState) (r : CompactionReason) (now at : ℕ)
    → requested_at s ≡ some at
    → (requested_at (before_compaction_transition s r now).state ≡ some at)
      × ((before_compaction_transition s r now).cancel ≡ false)
      × ((before_compaction_transition s r now).notify_preparation ≡ false)
unfolding before_compaction_transition requested_transition
before_compaction_transition-requested_at (idle b) r now at h = absurd (cc)
before_compaction_transition-requested_at (preparing p t) (requested r) now at h = (h, refl, refl)
before_compaction_transition-requested_at (preparing p t) overflow now at h = (h, refl, refl)
before_compaction_transition-requested_at (ready p t on n) (requested r) now at h = (h, refl, refl)
before_compaction_transition-requested_at (ready p t on n) overflow now at h = (h, refl, refl)
before_compaction_transition-requested_at (forced p t n b) (requested r) now at h = (h, refl, refl)
before_compaction_transition-requested_at (forced p t n b) overflow now at h = (h, refl, refl)

abbrev pub overflow_of : BeforeCompact → BeforeCompact
overflow_of event = record event { reason = overflow }

abbrev pub after_overflow : Session → BeforeCompact → ℕ → Session
after_overflow s event now =
    (session_compact (session_before_compact s (overflow_of event) now).0 overflow false).0

abbrev pub interrupted : Completed
interrupted = record { reason = overflow; resume_notes = overflow_notes }

abbrev pub expected_resume : Bool → List Output
expected_resume true = []
expected_resume false = resume interrupted ∷ []

-- An overflow of an idle session that has no resume pending, and that the host does not retry, leaves
-- threshold compactions blocked and resumes the agent once, when it settles; where they already were
-- blocked it resumes nothing.
pub overflow_resumes_once :
    (s : Session) (event : BeforeCompact) (now : ℕ) (blocked : Bool)
    → s.state ≡ idle blocked
    → s.pending_automatic_resume ≡ none
    → ((after_overflow s event now).state ≡ idle true)
      × ((on_agent_settled (after_overflow s event now)).1 ≡ expected_resume blocked)
      × ((on_agent_settled (on_agent_settled (after_overflow s event now)).0).1 ≡ [])
unfolding session_compact session_before_compact on_agent_settled before_compaction_transition
    compaction_resume_mode
overflow_resumes_once s event now true e p = (ground arith, ground arith, ground arith)
overflow_resumes_once s event now false e p = (ground arith, ground arith, ground arith)
