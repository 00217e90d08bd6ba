-- ===== src/Base/Trim.antt =====
-- Trimming a text twice trims it once.
use metagenda.Base.{ℕ, ◌≡◌, refl, ap, ◌∙◌, inl, inr, false, [], ◌∷◌, arith, Bool-cases}
use metagenda.Base.Text.{Text, is_space, trim_start, trim_end, trim_cons, trim}

-- No white space in front.
abbrev Starts : Text → Type 0
Starts [] = Unit
Starts (c ∷ s) = is_space c ≡ false

trim_start-Starts : (s : Text) → Starts (trim_start s)
unfolding trim_start
trim_start-Starts [] = tt
trim_start-Starts (c ∷ s) = elim (Bool-cases (is_space c)) [
  | inl e ↦ rw e (trim_start-Starts s)
  | inr e ↦ rw e e
]

trim_start-eq : (s : Text) → Starts s → trim_start s ≡ s
unfolding trim_start
trim_start-eq [] h = refl
trim_start-eq (c ∷ s) h = rw h refl

trim_cons-Starts : (c : ℕ) (s : Text) → is_space c ≡ false → Starts (trim_cons c s)
unfolding trim_cons
trim_cons-Starts c [] h = rw h h
trim_cons-Starts c (d ∷ s) h = h

trim_end-Starts : (s : Text) → Starts s → Starts (trim_end s)
unfolding trim_end
trim_end-Starts [] h = tt
trim_end-Starts (c ∷ s) h = trim_cons-Starts c (trim_end s) h

trim_cons_idem : (c : ℕ) (s : Text) → trim_end s ≡ s → trim_end (trim_cons c s) ≡ trim_cons c s
unfolding trim_end trim_cons
trim_cons_idem c [] h = ground arith
trim_cons_idem c (d ∷ s) h = rw h refl

trim_end_idem : (s : Text) → trim_end (trim_end s) ≡ trim_end s
unfolding trim_end
trim_end_idem [] = refl
trim_end_idem (c ∷ s) = trim_cons_idem c (trim_end s) (trim_end_idem s)

pub trim_idem : (s : Text) → trim (trim s) ≡ trim s
unfolding trim
trim_idem s =
    ap trim_end (trim_start-eq _ (trim_end-Starts _ (trim_start-Starts s)))
    ∙ trim_end_idem (trim_start s)
