-- ===== src/Base/Sort.antt =====
-- `Array.prototype.sort` with a comparator: the sort of the language is stable, and a stable sort by
-- a total preorder has one result, which insertion computes.
use metagenda.Base.{
  suc, ◌≡◌, refl, ap, ◌∙◌, ◌⊎◌, inl, inr, Bool, true, false, List, [], ◌∷◌, arith, if◌then◌else◌,
  length, All, In, Bool-cases,
}

module _ {A : Type 0} (le : A → A → Bool) where
  -- Before the first element that does not precede `a`.
  unfoldable pub insert_sorted : A → List A → List A
  insert_sorted a [] = a ∷ []
  insert_sorted a (x ∷ xs) = if le a x then a ∷ x ∷ xs else x ∷ insert_sorted a xs

  unfoldable pub sort : List A → List A
  unfolding insert_sorted
  sort [] = []
  sort (x ∷ xs) = insert_sorted x (sort xs)

  length-insert_sorted : (a : A) (xs : List A) → length (insert_sorted a xs) ≡ suc (length xs)
  unfolding insert_sorted
  length-insert_sorted a [] = refl
  length-insert_sorted a (x ∷ xs) = ground (arith, length-insert_sorted a xs)

  pub length-sort : (xs : List A) → length (sort xs) ≡ length xs
  unfolding sort
  length-sort [] = refl
  length-sort (x ∷ xs) = length-insert_sorted x (sort xs) ∙ ap suc (length-sort xs)

  In-insert_sorted : (b a : A) (xs : List A) → (b ≡ a) ⊎ In b xs → In b (insert_sorted a xs)
  unfolding insert_sorted
  In-insert_sorted b a [] m = m
  In-insert_sorted b a (x ∷ xs) (inl e) = ground (arith, In-insert_sorted b a xs (inl e))
  In-insert_sorted b a (x ∷ xs) (inr (inl e)) = elim (Bool-cases (le a x)) [
    | inl h ↦ rw h (inr (inl e))
    | inr h ↦ rw h (inl e)
  ]
  In-insert_sorted b a (x ∷ xs) (inr (inr m)) = elim (Bool-cases (le a x)) [
    | inl h ↦ rw h (inr (inr m))
    | inr h ↦ rw h (inr (In-insert_sorted b a xs (inr m)))
  ]

  insert_sorted-In : (b a : A) (xs : List A) → In b (insert_sorted a xs) → (b ≡ a) ⊎ In b xs
  unfolding insert_sorted
  insert_sorted-In b a [] m = m
  insert_sorted-In b a (x ∷ xs) m = elim (Bool-cases (le a x)) [
    | inl h ↦ let k : In b (a ∷ x ∷ xs) = rw h at m in k
    | inr h ↦ elim (let k : In b (x ∷ insert_sorted a xs) = rw h at m in k) [
      | inl e ↦ inr (inl e)
      | inr k ↦ elim (insert_sorted-In b a xs k) [ inl e ↦ inl e | inr n ↦ inr (inr n) ]
    ]
  ]

  -- Sorting keeps the elements.
  pub In-sort : (b : A) (xs : List A) → In b xs → In b (sort xs)
  unfolding sort
  In-sort b [] m = elim m [ ]
  In-sort b (x ∷ xs) (inl e) = In-insert_sorted b x (sort xs) (inl e)
  In-sort b (x ∷ xs) (inr m) = In-insert_sorted b x (sort xs) (inr (In-sort b xs m))

  pub sort-In : (b : A) (xs : List A) → In b (sort xs) → In b xs
  unfolding sort
  sort-In b [] m = m
  sort-In b (x ∷ xs) m = elim (insert_sorted-In b x (sort xs) m) [
    | inl e ↦ inl e
    | inr k ↦ inr (sort-In b xs k)
  ]

  -- Every element precedes those behind it.
  abbrev pub IsSorted : List A → Type 0
  IsSorted [] = Unit
  IsSorted (x ∷ xs) = All (λ y. le x y ≡ true) xs × IsSorted xs

  module _ (trans : (a b c : A) → le a b ≡ true → le b c ≡ true → le a c ≡ true)
      (total : (a b : A) → le a b ≡ false → le b a ≡ true) where
    All-below :
        (a b : A) (xs : List A)
        → le a b ≡ true
        → All (λ y. le b y ≡ true) xs
        → All (λ y. le a y ≡ true) xs
    All-below a b [] h k = tt
    All-below a b (x ∷ xs) h (p, k) = (trans a b x h p, All-below a b xs h k)

    All-insert_sorted :
        (c a : A) (xs : List A)
        → le c a ≡ true
        → All (λ y. le c y ≡ true) xs
        → All (λ y. le c y ≡ true) (insert_sorted a xs)
    unfolding insert_sorted
    All-insert_sorted c a [] h k = (h, tt)
    All-insert_sorted c a (x ∷ xs) h (p, k) = ground (arith, All-insert_sorted c a xs h k)

    insert_sorted-IsSorted : (a : A) (xs : List A) → IsSorted xs → IsSorted (insert_sorted a xs)
    unfolding insert_sorted
    insert_sorted-IsSorted a [] s = (tt, tt)
    insert_sorted-IsSorted a (x ∷ xs) (p, s) = elim (Bool-cases (le a x)) [
      | inl h ↦ rw h ((h, All-below a x xs h p), (p, s))
      | inr h ↦ rw h (All-insert_sorted x a xs (total a x h) p, insert_sorted-IsSorted a xs s)
    ]

    pub sort-IsSorted : (xs : List A) → IsSorted (sort xs)
    unfolding sort
    sort-IsSorted [] = tt
    sort-IsSorted (x ∷ xs) = insert_sorted-IsSorted x (sort xs) (sort-IsSorted xs)
