-- ===== src/Compaction/Soundness.antt =====
-- What `decodeSafeCompactionState` of pi/extensions/safe-compaction/state.ts reads.
use metagenda.Base.{
  ℕ, ◌≤◌, ◌≡◌, inl, inr, some, length, take, length-take, arith, Option-cases, Bool-cases,
}
use metagenda.Base.Text.{Text}
use metagenda.Base.Value.{Value, obj, Fields, get_field, as_text, has_tag, max_safe_integer}
use metagenda.Compaction.Types.{
  RequestedReason, CompactionReason, requested, overflow, SafeCompactionState, idle, preparing,
  ready, forced, max_resume_notes,
}
use metagenda.Compaction.Decode.{
  as_timestamp, as_flag, decode_reason, decode_ready, decode_forced, decode_phase, decode_requested,
  decode_idle, decode_fields, decode_safe_compaction_state,
}
use metagenda.Compaction.Restore.{IsStorable}

take-bound : (n : ℕ) (xs : Text) → length (take n xs) ≤ n
take-bound n xs = omega (arith, length-take n xs)

decode_ready-IsStorable :
    (fs : Fields) (r : RequestedReason) (at : ℕ) (s : SafeCompactionState)
    → at ≤ max_safe_integer
    → decode_ready fs r at ≡ some s
    → IsStorable s
unfolding decode_ready as_timestamp
decode_ready-IsStorable fs r at s h e =
    elim (Option-cases (as_timestamp (get_field "readyAt" fs))) [
      | inl q ↦ absurd (ground arith)
      | inr (on, q) ↦ elim (Option-cases (as_text (get_field "resumeNotes" fs))) [
        | inl k ↦ absurd (ground arith)
        | inr (notes, k) ↦
            let same : s ≡ ready r at on (take max_resume_notes notes) = ground arith in
            let safe : on ≤ max_safe_integer = ground arith in
            rw same (h, safe, take-bound max_resume_notes notes)
      ]
    ]

decode_forced-IsStorable :
    (fs : Fields) (r : CompactionReason) (at : ℕ) (s : SafeCompactionState)
    → at ≤ max_safe_integer
    → decode_forced fs r at ≡ some s
    → IsStorable s
unfolding decode_forced
decode_forced-IsStorable fs r at s h e =
    elim (Option-cases (as_text (get_field "resumeNotes" fs))) [
      | inl k ↦ absurd (ground arith)
      | inr (notes, k) ↦ elim (Option-cases (as_flag (get_field "suppressAutomaticResume" fs))) [
        | inl q ↦ absurd (ground arith)
        | inr (b, q) ↦
            let same : s ≡ forced r at (take max_resume_notes notes) b = ground arith in
            rw same (h, take-bound max_resume_notes notes)
      ]
    ]

decode_phase-IsStorable :
    (fs : Fields) (v : Value) (r : CompactionReason) (at : ℕ) (s : SafeCompactionState)
    → at ≤ max_safe_integer
    → decode_phase fs v r at ≡ some s
    → IsStorable s
unfolding decode_phase
decode_phase-IsStorable fs v (requested r) at s h e = elim (Bool-cases (has_tag "preparing" v)) [
  | inl p ↦ let same : s ≡ preparing r at = ground arith in rw same h
  | inr p ↦ elim (Bool-cases (has_tag "ready" v)) [
    | inl q ↦ decode_ready-IsStorable fs r at s h (ground arith)
    | inr q ↦ elim (Bool-cases (has_tag "forced" v)) [
      | inl k ↦ decode_forced-IsStorable fs (requested r) at s h (ground arith)
      | inr k ↦ absurd (ground arith)
    ]
  ]
]
decode_phase-IsStorable fs v overflow at s h e = elim (Bool-cases (has_tag "forced" v)) [
  | inl k ↦ decode_forced-IsStorable fs overflow at s h (ground arith)
  | inr k ↦ absurd (ground arith)
]

decode_requested-IsStorable :
    (fs : Fields) (v : Value) (s : SafeCompactionState)
    → decode_requested fs v ≡ some s
    → IsStorable s
unfolding decode_requested as_timestamp
decode_requested-IsStorable fs v s e =
    elim (Option-cases (as_timestamp (get_field "requestedAt" fs))) [
      | inl q ↦ absurd (ground arith)
      | inr (at, q) ↦ elim (Option-cases (decode_reason (get_field "reason" fs))) [
        | inl k ↦ absurd (ground arith)
        | inr (r, k) ↦
            let safe : at ≤ max_safe_integer = ground arith in
            decode_phase-IsStorable fs v r at s safe (ground arith)
      ]
    ]

decode_idle-IsStorable :
    (fs : Fields) (s : SafeCompactionState) → decode_idle fs ≡ some s → IsStorable s
decode_idle-IsStorable fs s e =
    elim (Option-cases (as_flag (get_field "thresholdBlockedUntilInput" fs))) [
      | inl q ↦ absurd (ground arith)
      | inr (b, q) ↦ let same : s ≡ idle b = ground arith in rw same tt
    ]

-- Whatever is stored, a state that is read has safe times and notes of at most 4000 characters.
pub decode-IsStorable :
    (v : Value) (s : SafeCompactionState) → decode_safe_compaction_state v ≡ some s → IsStorable s
unfolding decode_safe_compaction_state decode_fields
decode-IsStorable (obj fs) s e = elim (Bool-cases (has_tag "idle" (get_field "phase" fs))) [
  | inl p ↦ decode_idle-IsStorable fs s (ground arith)
  | inr p ↦ decode_requested-IsStorable fs (get_field "phase" fs) s (ground arith)
]
decode-IsStorable _ s e = absurd (cc)
