-- ===== src/Backlog/Pieces.antt =====
-- The requirements that pi/extensions/shared/canonical-backlog.ts cuts a text into.
use metagenda.Base.{
  ℕ, zero, suc, ◌≤◌, ◌≡◌, refl, inl, inr, List, [], ◌∷◌, Bool, true, false, ◌||◌, ◌==◌, leb, ltb,
  length, take, drop, any, All, All-append, length-take, arith, Bool-cases,
}
use metagenda.Base.Text.{Text}
use metagenda.Base.Value.{max_safe_integer}
use metagenda.Backlog.Requirements.{
  is_unsafe, is_blank, max_requirement, safe_requirement, piece_length, ends_high, push, cut_from,
  backlog_requirements_from_text,
}

any-take : (p : ℕ → Bool) (n : ℕ) (s : Text) → any p s ≡ false → any p (take n s) ≡ false
any-take p zero s h = refl
any-take p (suc n) [] h = refl
any-take p (suc n) (c ∷ cs) h = elim (Bool-cases (p c)) [
  | inl t ↦ absurd (ground arith)
  | inr t ↦ rw t (any-take p n cs (ground arith))
]

any-drop : (p : ℕ → Bool) (n : ℕ) (s : Text) → any p s ≡ false → any p (drop n s) ≡ false
any-drop p zero s h = h
any-drop p (suc n) [] h = refl
any-drop p (suc n) (c ∷ cs) h = elim (Bool-cases (p c)) [
  | inl t ↦ absurd (ground arith)
  | inr t ↦ any-drop p n cs (ground arith)
]

piece_length-le : (s : Text) → piece_length s ≤ max_requirement
unfolding piece_length
piece_length-le s = elim (Bool-cases (leb (length s) max_requirement)) [
  | inl t ↦ ground arith
  | inr t ↦ elim (Bool-cases (ends_high 3999 s)) [ inl e ↦ ground arith | inr e ↦ ground arith ]
]

abbrev pub AllSafe : List Text → Type 0
AllSafe rs = All (λ s. safe_requirement s ≡ true) rs

piece-safe :
    (n : ℕ) (s : Text)
    → n ≤ max_requirement
    → any is_unsafe s ≡ false
    → is_blank (take n s) ≡ false
    → safe_requirement (take n s) ≡ true
unfolding safe_requirement
piece-safe n s k h b =
    let fits : leb (length (take n s)) max_requirement ≡ true = ground (arith, length-take n s) in
    let clean = any-take is_unsafe n s h in rw (b, fits, clean) refl

push-AllSafe :
    (maximum n : ℕ) (rs : List Text) (s : Text)
    → n ≤ max_requirement
    → any is_unsafe s ≡ false
    → AllSafe rs
    → AllSafe (push maximum rs (take n s)).0
push-AllSafe maximum n rs s k h a = elim (Bool-cases (is_blank (take n s))) [
  | inl t ↦ rw t a
  | inr t ↦ elim (Bool-cases (length rs == maximum)) [
    | inl e ↦ rw (t, e) tt
    | inr e ↦
        rw (t, e)
          (All-append (λ r. safe_requirement r ≡ true) rs (take n s ∷ []) a
            (piece-safe n s k h t, tt))
  ]
]

cut_from-AllSafe :
    (fuel maximum : ℕ) (rs : List Text) (s : Text)
    → any is_unsafe s ≡ false
    → AllSafe rs
    → AllSafe (cut_from fuel maximum rs s)
unfolding cut_from
cut_from-AllSafe zero maximum rs s h a = a
cut_from-AllSafe (suc fuel) maximum rs [] h a = a
cut_from-AllSafe (suc fuel) maximum rs (c ∷ cs) h a =
    let n = piece_length (c ∷ cs) in
    let next = push maximum rs (take n (c ∷ cs)) in
    elim (Bool-cases next.1) [
      | inl t ↦ rw t (
          cut_from-AllSafe fuel maximum next.0 (drop n (c ∷ cs)) (any-drop is_unsafe n (c ∷ cs) h)
            (push-AllSafe maximum n rs (c ∷ cs) (piece_length-le (c ∷ cs)) h a))
      | inr t ↦ rw t tt
    ]

-- Every requirement that is cut out of a text passes the check of a requirement: it is not blank, has
-- at most 4000 characters and no unsafe control character.
pub backlog_requirements_from_text-AllSafe :
    (text : Text) (maximum : ℕ) → AllSafe (backlog_requirements_from_text text maximum)
unfolding backlog_requirements_from_text
backlog_requirements_from_text-AllSafe text maximum =
    elim (Bool-cases (ltb max_safe_integer maximum || any is_unsafe text)) [
      | inl t ↦ rw t tt
      | inr t ↦ rw t (cut_from-AllSafe (length text) maximum [] text (ground arith) tt)
    ]
