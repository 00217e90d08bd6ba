-- ===== src/Questions/Invariant.antt =====
-- What every action on the question queue of pi/extensions/questions/state.ts keeps.
use metagenda.Base.{
  ℕ, ◌+◌, ◌<◌, ◌≡◌, ◌≢◌, refl, sym, ap, ◌∙◌, List, [], ◌∷◌, ◌++◌, map, keep, Bool, All, All-append,
  inl, inr, arith, Bool-cases,
}
use metagenda.Base.Text.{Text}
use metagenda.Questions.Types.{
  Asked, Question, QuestionState, QuestionAction, list, clear_resolved, ask, resolve, withdraw,
  replace, reopen,
}
use metagenda.Questions.Action.{
  new_question, is_pending, resolve_one, withdraw_one, reopen_one, pending_questions,
  apply_question_action,
}

abbrev pub ids : List Question → List ℕ
ids [] = []
ids (q ∷ qs) = q.id ∷ ids qs

abbrev pub texts : List Question → List (ℕ × Text)
texts [] = []
texts (q ∷ qs) = (q.id, q.asked.question) ∷ texts qs

abbrev pub Unique : List ℕ → Type 0
Unique [] = Unit
Unique (n ∷ ns) = All (λ m. m ≢ n) ns × Unique ns

-- The IDs differ and lie below the next one.
pub record IsValid (s : QuestionState) : Type 0 where
  pub unique : Unique (ids s.questions)
  pub below : All (λ n. n < s.next_id) (ids s.questions)

-- A change of single questions that keeps what identifies them.
abbrev KeepsText : (Question → Question) → Type 0
KeepsText f = (q : Question) → ((f q).id ≡ q.id) × ((f q).asked.question ≡ q.asked.question)

resolve_one-KeepsText : (id : ℕ) (t : Text) → KeepsText (resolve_one id t)
resolve_one-KeepsText id t q = (ground arith, ground arith)

withdraw_one-KeepsText : (id : ℕ) (t : Text) → KeepsText (withdraw_one id t)
withdraw_one-KeepsText id t q = (ground arith, ground arith)

reopen_one-KeepsText : (id : ℕ) → KeepsText (reopen_one id)
reopen_one-KeepsText id q = (ground arith, ground arith)

ids-map : (f : Question → Question) (qs : List Question) → KeepsText f → ids (map f qs) ≡ ids qs
ids-map f [] k = refl
ids-map f (q ∷ qs) k = let (h, _) = k q in ground (arith, ids-map f qs k)

texts-map :
    (f : Question → Question) (qs : List Question) → KeepsText f → texts (map f qs) ≡ texts qs
texts-map f [] k = refl
texts-map f (q ∷ qs) k = let (h, t) = k q in ground (arith, texts-map f qs k)

ids-append : (xs ys : List Question) → ids (xs ++ ys) ≡ ids xs ++ ids ys
ids-append [] ys = refl
ids-append (x ∷ xs) ys = ap (◌∷◌ x.id) (ids-append xs ys)

texts-append : (xs ys : List Question) → texts (xs ++ ys) ≡ texts xs ++ texts ys
texts-append [] ys = refl
texts-append (x ∷ xs) ys = ap (◌∷◌ (x.id, x.asked.question)) (texts-append xs ys)

Unique-append : (ns : List ℕ) (n : ℕ) → Unique ns → All (λ m. m < n) ns → Unique (ns ++ n ∷ [])
Unique-append [] n u b = (tt, tt)
Unique-append (m ∷ ns) n (d, u) (h, b) = (
  All-append (λ k. k ≢ m) ns (n ∷ []) d ((λ e. absurd (omega (arith, e))), tt),
  Unique-append ns n u b,
)

below-suc : (ns : List ℕ) (n : ℕ) → All (λ m. m < n) ns → All (λ m. m < n + 1) ns
below-suc [] n b = tt
below-suc (m ∷ ns) n (h, b) = (omega arith, below-suc ns n b)

ids-keep :
    (P : ℕ → Type 0) (p : Question → Bool) (qs : List Question)
    → All P (ids qs)
    → All P (ids (keep p qs))
ids-keep P p [] h = tt
ids-keep P p (q ∷ qs) (x, h) = ground (arith, ids-keep P p qs h)

Unique-keep :
    (p : Question → Bool) (qs : List Question) → Unique (ids qs) → Unique (ids (keep p qs))
Unique-keep p [] u = tt
Unique-keep p (q ∷ qs) (d, u) =
    let rest = Unique-keep p qs u in
    let kept = ids-keep (λ m. m ≢ q.id) p qs d in
    elim (Bool-cases (p q)) [ inl e ↦ rw e (kept, rest) | inr e ↦ rw e rest ]

mapped-IsValid :
    (s : QuestionState) (f : Question → Question)
    → KeepsText f
    → IsValid s
    → IsValid (record s { questions = map f s.questions })
mapped-IsValid s f k v =
    let same = ids-map f s.questions k in
    record { unique = rw same v.unique; below = rw same v.below }

asked-IsValid :
    (s : QuestionState) (a : Asked)
    → IsValid s
    → IsValid (record {
      questions = s.questions ++ new_question s.next_id a ∷ [];
      next_id = s.next_id + 1;
    })
asked-IsValid s a v =
    let same = ids-append s.questions (new_question s.next_id a ∷ []) in
    record {
      unique = rw same (Unique-append (ids s.questions) s.next_id v.unique v.below);
      below = rw same (
          All-append (λ m. m < s.next_id + 1) (ids s.questions) (s.next_id ∷ [])
            (below-suc (ids s.questions) s.next_id v.below) (omega arith, tt));
    }

-- Every action keeps the IDs of the questions different and below the next ID.
pub apply_question_action-IsValid :
    (s : QuestionState) (a : QuestionAction) → IsValid s → IsValid (apply_question_action s a)
unfolding apply_question_action pending_questions
apply_question_action-IsValid s list v = v
apply_question_action-IsValid s (ask a) v = asked-IsValid s a v
apply_question_action-IsValid s (resolve id t) v =
    mapped-IsValid s (resolve_one id t) (resolve_one-KeepsText id t) v
apply_question_action-IsValid s (withdraw id t) v =
    mapped-IsValid s (withdraw_one id t) (withdraw_one-KeepsText id t) v
apply_question_action-IsValid s (replace id t a) v =
    asked-IsValid (record s { questions = map (withdraw_one id t) s.questions }) a
      (mapped-IsValid s (withdraw_one id t) (withdraw_one-KeepsText id t) v)
apply_question_action-IsValid s (reopen id) v =
    mapped-IsValid s (reopen_one id) (reopen_one-KeepsText id) v
apply_question_action-IsValid s clear_resolved v = record {
  unique = Unique-keep (λ q. is_pending q.status) s.questions v.unique;
  below = ids-keep (λ n. n < s.next_id) (λ q. is_pending q.status) s.questions v.below;
}

append-nil : (xs : List (ℕ × Text)) → xs ++ [] ≡ xs
append-nil [] = refl
append-nil (x ∷ xs) = ap (◌∷◌ x) (append-nil xs)

-- No action but the clearing of resolved questions loses a question: the old ones keep their IDs,
-- texts and order in front of the new ones.
pub apply_question_action-texts :
    (s : QuestionState) (a : QuestionAction)
    → a ≢ clear_resolved
    → (extra : List (ℕ × Text)) × (texts (apply_question_action s a).questions
        ≡ texts s.questions ++ extra)
unfolding apply_question_action
apply_question_action-texts s list n = ([], sym (append-nil (texts s.questions)))
apply_question_action-texts s (ask a) n = (
  texts (new_question s.next_id a ∷ []),
  texts-append s.questions (new_question s.next_id a ∷ []),
)
apply_question_action-texts s (resolve id t) n = (
  [],
  texts-map (resolve_one id t) s.questions (resolve_one-KeepsText id t)
      ∙ sym (append-nil (texts s.questions)),
)
apply_question_action-texts s (withdraw id t) n = (
  [],
  texts-map (withdraw_one id t) s.questions (withdraw_one-KeepsText id t)
      ∙ sym (append-nil (texts s.questions)),
)
apply_question_action-texts s (replace id t a) n = (
  texts (new_question s.next_id a ∷ []),
  texts-append (map (withdraw_one id t) s.questions) (new_question s.next_id a ∷ [])
      ∙ ap (λ z. z ++ texts (new_question s.next_id a ∷ []))
          (texts-map (withdraw_one id t) s.questions (withdraw_one-KeepsText id t)),
)
apply_question_action-texts s (reopen id) n = (
  [],
  texts-map (reopen_one id) s.questions (reopen_one-KeepsText id)
      ∙ sym (append-nil (texts s.questions)),
)
apply_question_action-texts s clear_resolved n = absurd (n refl)
