-- ===== src/Compaction/Restore.antt =====
-- The session log of pi/extensions/safe-compaction: what is restored from it is the state that the
-- handlers left.
use metagenda.Base.{
  ℕ, zero, suc, ◌≤◌, ◌≡◌, refl, ap, some, List, [], ◌∷◌, Bool, true, false, length, take, arith,
}
use metagenda.Base.Text.{Text, lit, text_eq}
use metagenda.Base.Value.{max_safe_integer}
use metagenda.Compaction.Types.{
  RequestedReason, manual, threshold, CompactionReason, requested, overflow, SafeCompactionState,
  idle, preparing, ready, forced, max_resume_notes,
}
use metagenda.Compaction.Decode.{
  as_timestamp, decode_reason, decode_ready, decode_forced, decode_phase, decode_requested,
  decode_fields, decode_safe_compaction_state, stored_state,
}

-- A state whose stored form is read back: its times are safe integers and its notes are bounded.
abbrev pub IsStorable : SafeCompactionState → Type 0
IsStorable (idle _) = Unit
IsStorable (preparing _ at) = at ≤ max_safe_integer
IsStorable (ready _ at on notes) =
    (at ≤ max_safe_integer) × (on ≤ max_safe_integer) × (length notes ≤ max_resume_notes)
IsStorable (forced _ at notes _) = (at ≤ max_safe_integer) × (length notes ≤ max_resume_notes)

take-all {ℓ} : {A : Type ℓ} (n : ℕ) (xs : List A) → length xs ≤ n → take n xs ≡ xs
take-all zero [] h = refl
take-all zero (x ∷ xs) h = absurd (omega arith)
take-all (suc n) [] h = refl
take-all (suc n) (x ∷ xs) h = ap (◌∷◌ x) (take-all n xs (omega arith))

decode-idle : (b : Bool) → decode_safe_compaction_state (stored_state (idle b)) ≡ some (idle b)
unfolding decode_safe_compaction_state decode_fields text_eq lit
decode-idle true = refl
decode-idle false = refl

decode-preparing :
    (r : RequestedReason) (at : ℕ)
    → at ≤ max_safe_integer
    → decode_safe_compaction_state (stored_state (preparing r at)) ≡ some (preparing r at)
unfolding decode_safe_compaction_state decode_fields decode_requested decode_phase decode_reason
    as_timestamp text_eq lit
decode-preparing manual at h = ground arith
decode-preparing threshold at h = ground arith

decode-ready :
    (r : RequestedReason) (at on : ℕ) (notes : Text)
    → at ≤ max_safe_integer
    → on ≤ max_safe_integer
    → take max_resume_notes notes ≡ notes
    → decode_safe_compaction_state (stored_state (ready r at on notes)) ≡ some (ready r at on notes)
unfolding decode_safe_compaction_state decode_fields decode_requested decode_phase decode_reason
    decode_ready as_timestamp text_eq lit
decode-ready manual at on notes h k e = ground arith
decode-ready threshold at on notes h k e = ground arith

decode-forced :
    (r : CompactionReason) (at : ℕ) (notes : Text) (b : Bool)
    → at ≤ max_safe_integer
    → take max_resume_notes notes ≡ notes
    → decode_safe_compaction_state (stored_state (forced r at notes b)) ≡ some (forced r at notes b)
unfolding decode_safe_compaction_state decode_fields decode_requested decode_phase decode_reason
    decode_forced as_timestamp text_eq lit
decode-forced (requested manual) at notes true h e = ground arith
decode-forced (requested manual) at notes false h e = ground arith
decode-forced (requested threshold) at notes true h e = ground arith
decode-forced (requested threshold) at notes false h e = ground arith
decode-forced overflow at notes true h e = ground arith
decode-forced overflow at notes false h e = ground arith

-- A state whose times are safe integers and whose notes have at most 4000 characters is read back
-- from its stored form.
pub decode-stored_state :
    (s : SafeCompactionState)
    → IsStorable s
    → decode_safe_compaction_state (stored_state s) ≡ some s
decode-stored_state (idle b) v = decode-idle b
decode-stored_state (preparing r at) v = decode-preparing r at v
decode-stored_state (ready r at on notes) (h, k, n) =
    decode-ready r at on notes h k (take-all max_resume_notes notes n)
decode-stored_state (forced r at notes b) (h, n) =
    decode-forced r at notes b h (take-all max_resume_notes notes n)
