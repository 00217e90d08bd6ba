-- ===== src/Backlog/Lossless.antt =====
-- No character of a text is lost when pi/extensions/shared/canonical-backlog.ts cuts it.
use mathlib.Core.List.{append_assoc, append-nil}
use metagenda.Base.{
  ℕ, zero, suc, ◌+◌, ◌≤◌, ◌≡◌, refl, sym, ap, ◌∙◌, inl, inr, List, [], ◌∷◌, ◌++◌, true, false, not,
  ◌||◌, ◌==◌, leb, ltb, length, take, drop, keep, any, length-drop, length-append, arith,
  Bool-cases, if◌then◌else◌,
}
use metagenda.Base.Text.{Text, is_space, trim_start, trim_cons, trim_end, trim, is_empty}
use metagenda.Base.Value.{max_safe_integer}
use metagenda.Backlog.Requirements.{
  is_unsafe, is_blank, max_requirement, piece_length, ends_high, push, cut_from,
  backlog_requirements_from_text,
}

-- The characters that are not white space.
abbrev pub solid : Text → Text
solid s = keep (λ c. not (is_space c)) s

abbrev pub joined : List Text → Text
joined [] = []
joined (s ∷ ss) = s ++ joined ss

solid-append : (s t : Text) → solid (s ++ t) ≡ solid s ++ solid t
solid-append [] t = refl
solid-append (c ∷ s) t = elim (Bool-cases (is_space c)) [
  | inl e ↦ rw e (solid-append s t)
  | inr e ↦ rw e (ap (◌∷◌ c) (solid-append s t))
]

solid-trim_start : (s : Text) → solid (trim_start s) ≡ solid s
unfolding trim_start
solid-trim_start [] = refl
solid-trim_start (c ∷ s) = elim (Bool-cases (is_space c)) [
  | inl e ↦ rw e (solid-trim_start s)
  | inr e ↦ rw e (rw e refl)
]

solid-trim_cons : (c : ℕ) (s : Text) → solid (trim_cons c s) ≡ solid (c ∷ s)
unfolding trim_cons
solid-trim_cons c [] = elim (Bool-cases (is_space c)) [
  | inl e ↦ rw e refl
  | inr e ↦ rw e (rw e refl)
]
solid-trim_cons c (d ∷ s) = refl

solid-trim_end : (s : Text) → solid (trim_end s) ≡ solid s
unfolding trim_end
solid-trim_end [] = refl
solid-trim_end (c ∷ s) =
    let rest = solid-trim_end s in
    solid-trim_cons c (trim_end s) ∙ ap (λ t. if not (is_space c) then c ∷ t else t) rest

blank-solid : (s : Text) → is_blank s ≡ true → solid s ≡ []
unfolding trim
blank-solid s h =
    let same : solid (trim s) ≡ solid s = solid-trim_end (trim_start s) ∙ solid-trim_start s in
    let gone : solid (trim s) ≡ [] = empty-solid (trim s) h in sym same ∙ gone
  where
    empty-solid : (t : Text) → is_empty t ≡ true → solid t ≡ []
    empty-solid [] e = refl
    empty-solid (c ∷ t) e = absurd (cc)

take-append-drop : (n : ℕ) (s : Text) → take n s ++ drop n s ≡ s
take-append-drop zero s = refl
take-append-drop (suc n) [] = refl
take-append-drop (suc n) (c ∷ s) = ap (◌∷◌ c) (take-append-drop n s)

solid-split : (n : ℕ) (s : Text) → solid (take n s) ++ solid (drop n s) ≡ solid s
solid-split n s = sym (solid-append (take n s) (drop n s)) ∙ ap solid (take-append-drop n s)

piece_length_pos : (c : ℕ) (s : Text) → 1 ≤ piece_length (c ∷ s)
unfolding piece_length
piece_length_pos c s = elim (Bool-cases (leb (length (c ∷ s)) max_requirement)) [
  | inl t ↦ ground arith
  | inr t ↦ elim (Bool-cases (ends_high 3999 (c ∷ s))) [
    | inl e ↦ ground arith
    | inr e ↦ ground arith
  ]
]

solid-joined_last :
    (rs : List Text) (s : Text) → solid (joined (rs ++ s ∷ [])) ≡ solid (joined rs) ++ solid s
solid-joined_last [] s = ap solid (append-nil s)
solid-joined_last (r ∷ rs) s =
    solid-append r (joined (rs ++ s ∷ []))
    ∙ ap (λ z. solid r ++ z) (solid-joined_last rs s)
    ∙ sym (append_assoc (solid r) (solid (joined rs)) (solid s))
    ∙ ap (λ z. z ++ solid s) (sym (solid-append r (joined rs)))

cut_from-next :
    (fuel maximum c : ℕ) (rs xs : List Text) (s : Text)
    → push maximum rs (take (piece_length (c ∷ s)) (c ∷ s)) ≡ (xs, true)
    → cut_from (suc fuel) maximum rs (c ∷ s)
      ≡ cut_from fuel maximum xs (drop (piece_length (c ∷ s)) (c ∷ s))
unfolding cut_from
cut_from-next fuel maximum c rs xs s e = rw e refl

cut_from-solid :
    (fuel maximum : ℕ) (rs : List Text) (s : Text)
    → length s ≤ fuel
    → length rs + length s ≤ maximum
    → solid (joined (cut_from fuel maximum rs s)) ≡ solid (joined rs) ++ solid s
unfolding cut_from
cut_from-solid zero maximum rs [] f m = sym (append-nil (solid (joined rs)))
cut_from-solid zero maximum rs (c ∷ s) f m = absurd (omega arith)
cut_from-solid (suc fuel) maximum rs [] f m = sym (append-nil (solid (joined rs)))
cut_from-solid (suc fuel) maximum rs (c ∷ s) f m =
    let n = piece_length (c ∷ s) in
    let p = take n (c ∷ s) in
    let rest = drop n (c ∷ s) in
    let pos = piece_length_pos c s in
    let shorter = length-drop n (c ∷ s) in
    elim (Bool-cases (is_blank p)) [
      | inl t ↦
          let pushed : push maximum rs p ≡ (rs, true) = rw t refl in
          ap (λ z. solid (joined z)) (cut_from-next fuel maximum c rs rs s pushed)
          ∙ cut_from-solid fuel maximum rs rest (omega arith) (omega arith)
          ∙ ap (λ z. solid (joined rs) ++ (z ++ solid rest)) (sym (blank-solid p t))
          ∙ ap (λ z. solid (joined rs) ++ z) (solid-split n (c ∷ s))
      | inr t ↦
          let room : (length rs == maximum) ≡ false = ground arith in
          let pushed : push maximum rs p ≡ (rs ++ p ∷ [], true) = rw (t, room) refl in
          ap (λ z. solid (joined z)) (cut_from-next fuel maximum c rs (rs ++ p ∷ []) s pushed)
          ∙ cut_from-solid fuel maximum (rs ++ p ∷ []) rest (omega arith)
              (omega (arith, length-append rs (p ∷ [])))
          ∙ ap (λ z. z ++ solid rest) (solid-joined_last rs p)
          ∙ append_assoc (solid (joined rs)) (solid p) (solid rest)
          ∙ ap (λ z. solid (joined rs) ++ z) (solid-split n (c ∷ s))
    ]

-- A text without unsafe control characters, and of at most as many characters as requirements are
-- allowed, is cut without a loss: its requirements have the characters of the text that are not white
-- space, all of them and in their order.
pub backlog_requirements_from_text-solid :
    (text : Text) (maximum : ℕ)
    → any is_unsafe text ≡ false
    → length text ≤ maximum
    → maximum ≤ max_safe_integer
    → solid (joined (backlog_requirements_from_text text maximum)) ≡ solid text
unfolding backlog_requirements_from_text
backlog_requirements_from_text-solid text maximum u m k =
    let open_now : (ltb max_safe_integer maximum || any is_unsafe text) ≡ false = ground arith in
    rw open_now (cut_from-solid (length text) maximum [] text (omega arith) (omega arith))
