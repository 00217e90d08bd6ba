-- ===== src/Base/Digits.antt =====
-- Decimal digits: reading a number, and reading back what `decimal` writes.
use metagenda.Base.{
  ℕ, zero, suc, ◌+◌, ◌-◌, ◌*◌, ◌/◌, ◌%◌, ◌^◌, ◌<◌, ◌≡◌, refl, ap, ◌∙◌, inl, inr, Bool, true, ◌&&◌,
  [], ◌∷◌, leb, ltb, if◌then◌else◌, All, arith, Bool-cases,
}
use metagenda.Base.Text.{Text, decimal, digits_from}

unfoldable pub is_digit : ℕ → Bool
is_digit c = leb 48 c && leb c 57

-- `(\d+)` at the front: the number and the rest.
unfoldable pub digits : ℕ → Text → ℕ × Text
unfolding is_digit
digits n [] = (n, [])
digits n (c ∷ s) =
    let more = digits (n * 10 + (c - 48)) s in if is_digit c then more else (n, c ∷ s)

pub IsDigit-add : (d : ℕ) → d < 10 → is_digit (48 + d) ≡ true
unfolding is_digit
IsDigit-add d h = ground arith

digits-cons : (d m : ℕ) (s : Text) → d < 10 → digits m ((48 + d) ∷ s) ≡ digits (m * 10 + d) s
unfolding digits
digits-cons d m s h = let e : 48 + d - 48 ≡ d = omega arith in rw (IsDigit-add d h, e) refl

digits-digits_from :
    (f n : ℕ) (acc : Text) → n < 10 ^ f → digits 0 (digits_from f n acc) ≡ digits n acc
unfolding digits_from
digits-digits_from zero n acc h = let e : n ≡ 0 = omega arith in rw e refl
digits-digits_from (suc f) n acc h = elim (Bool-cases (ltb n 10)) [
  | inl e ↦
      let d : n % 10 ≡ n = ground arith in
      rw (e, d) (digits-cons n 0 acc (ground arith) ∙ ap (λ k. digits k acc) (omega arith))
  | inr e ↦ rw e (
      digits-digits_from f (n / 10) ((48 + n % 10) ∷ acc) (tenth f n h)
      ∙ digits-cons (n % 10) (n / 10) acc (omega arith)
      ∙ ap (λ k. digits k acc) (omega arith))
]
  where
    tenth : (f n : ℕ) → n < 10 ^ suc f → n / 10 < 10 ^ f
    tenth f n h = omega arith

pub digits_from-All :
    (f n : ℕ) (acc : Text)
    → All (λ c. is_digit c ≡ true) acc
    → All (λ c. is_digit c ≡ true) (digits_from f n acc)
unfolding digits_from
digits_from-All zero n acc h = h
digits_from-All (suc f) n acc h = elim (Bool-cases (ltb n 10)) [
  | inl e ↦ rw e (IsDigit-add (n % 10) (omega arith), h)
  | inr e ↦
      rw e
        (digits_from-All f (n / 10) ((48 + n % 10) ∷ acc) (IsDigit-add (n % 10) (omega arith), h))
]

pub decimal-All : (n : ℕ) → All (λ c. is_digit c ≡ true) (decimal n)
unfolding decimal
decimal-All n = digits_from-All 20 n [] tt

-- `Number(…)` of a printed number of at most twenty digits.
pub digits-decimal : (n : ℕ) → n < 10 ^ 20 → digits 0 (decimal n) ≡ (n, [])
unfolding decimal digits
digits-decimal n h = digits-digits_from 20 n [] h

digits_from-front :
    (f n : ℕ) (acc : Text) → (c : ℕ) × (s : Text) × (digits_from (suc f) n acc ≡ c ∷ s)
unfolding digits_from
digits_from-front zero n acc = (48 + n % 10, acc, ground arith)
digits_from-front (suc f) n acc = elim (Bool-cases (ltb n 10)) [
  | inl e ↦ (48 + n % 10, acc, rw e refl)
  | inr e ↦ let (c, s, h) = digits_from-front f (n / 10) ((48 + n % 10) ∷ acc) in (c, s, rw e h)
]

pub decimal-front : (n : ℕ) → (c : ℕ) × (s : Text) × (decimal n ≡ c ∷ s) × (is_digit c ≡ true)
unfolding decimal
decimal-front n =
    let (c, s, h) = digits_from-front 19 n [] in
    let d : All (λ k. is_digit k ≡ true) (c ∷ s) = rw h at (decimal-All n) in (c, s, h, d.0)
