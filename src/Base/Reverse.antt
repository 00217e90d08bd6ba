-- ===== src/Base/Reverse.antt =====
-- Lists read from the last element to the first.
use mathlib.Core.List.{reverse, reverse-append, reverse-reverse, reverse-cons, append_assoc}
use metagenda.Base.{
  ◌≡◌, refl, sym, ap, ◌∙◌, subst, inl, inr, some, List, [], ◌∷◌, ◌++◌, Bool, true, false, arith,
  Bool-cases, find, All, All-append,
}

module _ {A : Type 0} where
  pub reverse-last :
      (older newer : List A) (a : A)
      → reverse (older ++ a ∷ newer) ≡ reverse newer ++ a ∷ reverse older
  reverse-last older newer a =
      reverse-append older (a ∷ newer)
      ∙ ap (λ z. z ++ reverse older) (reverse-cons a newer)
      ∙ append_assoc (reverse newer) (a ∷ []) (reverse older)

  pub All-reverse : (P : A → Type 0) (xs : List A) → All P xs → All P (reverse xs)
  All-reverse P [] h = tt
  All-reverse P (x ∷ xs) (p, h) =
      subst (All P) (sym (reverse-cons x xs))
        (All-append P (reverse xs) (x ∷ []) (All-reverse P xs h) (p, tt))

  -- The last element that passes a test: nothing after it passes.
  pub LastOf : (A → Bool) → List A → A → Type 0
  LastOf p xs a =
      (older : List A) × (newer : List A) × (xs ≡ older ++ a ∷ newer)
      × (p a ≡ true)
      × All (λ x. p x ≡ false) newer

  find-skips :
      (p : A → Bool) (xs ys : List A) → All (λ x. p x ≡ false) xs → find p (xs ++ ys) ≡ find p ys
  find-skips p [] ys h = refl
  find-skips p (x ∷ xs) ys (q, h) = ground (arith, find-skips p xs ys h)

  find-splits :
      (p : A → Bool) (a : A) (xs : List A)
      → find p xs ≡ some a
      → (before : List A) × (after : List A) × (xs ≡ before ++ a ∷ after)
        × (p a ≡ true)
        × All (λ x. p x ≡ false) before
  find-splits p a [] h = absurd (cc)
  find-splits p a (x ∷ xs) h = elim (Bool-cases (p x)) [
    | inl e ↦
        let same : x ≡ a = ground arith in ([], xs, ap (λ z. z ∷ xs) same, ap p (sym same) ∙ e, tt)
    | inr e ↦
        let (before, after, q, t, k) = find-splits p a xs (ground arith) in
        (x ∷ before, after, ap (◌∷◌ x) q, t, (e, k))
  ]

  pub find-reverse-LastOf :
      (p : A → Bool) (a : A) (xs : List A) → find p (reverse xs) ≡ some a → LastOf p xs a
  unfolding LastOf
  find-reverse-LastOf p a xs h =
      let (before, after, q, t, k) = find-splits p a (reverse xs) h in
      let split : xs ≡ reverse after ++ a ∷ reverse before =
        sym (reverse-reverse xs) ∙ ap reverse q ∙ reverse-last before after a in
      (reverse after, reverse before, split, t, All-reverse (λ x. p x ≡ false) before k)

  pub LastOf-find-reverse :
      (p : A → Bool) (a : A) (xs : List A) → LastOf p xs a → find p (reverse xs) ≡ some a
  unfolding LastOf
  LastOf-find-reverse p a xs (older, newer, q, t, k) =
      ap (λ z. find p (reverse z)) q
      ∙ ap (find p) (reverse-last older newer a)
      ∙ find-skips p (reverse newer) (a ∷ reverse older) (All-reverse (λ x. p x ≡ false) newer k)
      ∙ ground arith
