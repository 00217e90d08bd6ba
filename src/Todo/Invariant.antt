-- ===== src/Todo/Invariant.antt =====
-- What the transitions of pi/extensions/todo/state.ts keep: distinct IDs below the next one, closing
-- times on closed todos alone, and the text and replies of every todo.
use mathlib.Core.Option
use metagenda.Base.{
  ℕ, ◌<◌, ◌≡◌, ◌≢◌, refl, sym, inl, inr, ◌↔◌, Option, none, some, List, [], ◌∷◌, ◌++◌, map, ◌==◌,
  find, Outcome, succeed, fail, ◌>>=◌, arith, All, All-append, Bool-cases,
}
use metagenda.Base.Text.{Text}
use mathlib.Core.List.{append-nil, map-append}
use metagenda.Todo.Types.{Todo, TodoState, TodoAction, TodoTransition, TodoNotFoundError}
use metagenda.Todo.Types.{action_name}
use metagenda.Todo.Transition.{not_found}
use metagenda.Todo.Transition.{has_id, find_target, change_todo, replies_of, transition_todo_state}
use metagenda.Todo.Changes.{
  ids, Distinct, Stamped, IsValid, Keeps, Change, same, grown, changed, cleared, transition-Change,
  All-find, find-has_id, find_target-cases,
}

ids-change :
    (id : ℕ) (f : Todo → Todo) (ts : List Todo)
    → ((t : Todo) → t.id ≡ id → (f t).id ≡ id)
    → ids (map (change_todo id f) ts) ≡ ids ts
ids-change id f [] h = refl
ids-change id f (t ∷ ts) h = ground (arith, h t, ids-change id f ts h)

All-mono : {P Q : ℕ → Type 0} (ns : List ℕ) → ((n : ℕ) → P n → Q n) → All P ns → All Q ns
All-mono [] f h = tt
All-mono (n ∷ ns) f (p, h) = (f n p, All-mono ns f h)

Distinct-append :
    (ns : List ℕ) (m : ℕ) → Distinct ns → All (λ n. n < m) ns → Distinct (ns ++ m ∷ [])
Distinct-append [] m d b = (tt, tt)
Distinct-append (n ∷ ns) m (p, d) (lt, b) =
    (All-append _ ns (m ∷ []) p ((λ e. absurd (omega arith)), tt), Distinct-append ns m d b)

Stamped-change :
    (target : Todo) (f : Todo → Todo) (ts : List Todo)
    → Keeps target f
    → Stamped target
    → All Stamped ts
    → All Stamped (map (change_todo target.id f) ts)
Stamped-change target f [] k h a = tt
Stamped-change target f (t ∷ ts) k h (p, a) = (
  elim (Bool-cases (t.id == target.id)) [ inl e ↦ rw e (k.stamps t p h) | inr e ↦ rw e p ],
  Stamped-change target f ts k h a,
)

Change-IsValid :
    (s : TodoState) (a : TodoAction) (r : TodoState) → IsValid s → Change s a r → IsValid r
Change-IsValid s a r v (same e) = rw e v
Change-IsValid s a r v (grown todo id st e) = rw e (record {
  distinct =
      rw (map-append (λ (t : Todo). t.id) s.todos (todo ∷ []), id)
        (Distinct-append (ids s.todos) s.next_id v.distinct v.below);
  below =
      rw (map-append (λ (t : Todo). t.id) s.todos (todo ∷ []), id)
        (All-append _ (ids s.todos) (s.next_id ∷ [])
          (All-mono (ids s.todos) (λ n h. omega arith) v.below) (omega arith, tt));
  stamped = All-append _ s.todos (todo ∷ []) v.stamped (st, tt);
})
Change-IsValid s a r v (changed target f found k e) = rw e (record {
  distinct = rw (ids-change target.id f s.todos k.same_id) v.distinct;
  below = rw (ids-change target.id f s.todos k.same_id) v.below;
  stamped =
      Stamped-change target f s.todos k (All-find Stamped target.id s.todos target v.stamped found)
        v.stamped;
})
Change-IsValid s a r v (cleared _ e) = rw e (record { distinct = tt; below = tt; stamped = tt })

-- Every transition keeps the IDs distinct and below the next one, and gives a closing time to closed
-- todos only.
pub transition-IsValid :
    (s : TodoState) (a : TodoAction) (at : Option ℕ) (r : TodoTransition)
    → IsValid s
    → transition_todo_state s a at ≡ succeed r
    → IsValid r.state
transition-IsValid s a at r v h = Change-IsValid s a r.state v (transition-Change s a at r h)

find-change :
    (k id : ℕ) (f : Todo → Todo) (ts : List Todo)
    → ((t : Todo) → t.id ≡ id → (f t).id ≡ id)
    → find (has_id k) (map (change_todo id f) ts)
      ≡ Option.map (change_todo id f) (find (has_id k) ts)
find-change k id f [] h = refl
find-change k id f (t ∷ ts) h = ground (arith, h t, find-change k id f ts h)

find-append :
    (k : ℕ) (ts us : List Todo) (t : Todo)
    → find (has_id k) ts ≡ some t
    → find (has_id k) (ts ++ us) ≡ some t
find-append k [] us t h = cc
find-append k (u ∷ ts) us t h = ground (arith, find-append k ts us t)

-- A todo that comes from another: the same ID and text, and its replies with others behind them.
pub record Extends (t u : Todo) : Type 0 where
  pub same_id : u.id ≡ t.id
  pub same_text : u.text ≡ t.text
  pub replies : (extra : List Text) × (replies_of u ≡ replies_of t ++ extra)

Extends-refl : (t u : Todo) → u ≡ t → Extends t u
Extends-refl t u e = record {
  same_id = ground arith;
  same_text = ground arith;
  replies = ([], rw e (sym (append-nil _)));
}

Change-Extends :
    (s : TodoState) (a : TodoAction) (r : TodoState) (k : ℕ) (t : Todo)
    → Change s a r
    → a ≢ TodoAction.clear
    → find (has_id k) s.todos ≡ some t
    → (u : Todo) × (find (has_id k) r.todos ≡ some u) × Extends t u
Change-Extends s a r k t (same e) ne h = (t, rw e h, Extends-refl t t refl)
Change-Extends s a r k t (grown todo id st e) ne h =
    (t, rw e (find-append k s.todos (todo ∷ []) t h), Extends-refl t t refl)
Change-Extends s a r k t (changed target f found keeps e) ne h = (
  change_todo target.id f t,
  rw (e, find-change k target.id f s.todos keeps.same_id, h) refl,
  elim (Bool-cases (t.id == target.id)) [
    | inl q ↦
        let same_todo : t ≡ target = ground (arith, find-has_id k s.todos t h) in
        rw (q, same_todo)
          (record {
            same_id = keeps.same_id target refl;
            same_text = keeps.same_text;
            replies = keeps.grown_replies;
          })
    | inr q ↦ rw q (Extends-refl t t refl)
  ],
)
Change-Extends s a r k t (cleared c e) ne h = absurd (ne c)

-- No action but `clear` loses a todo: one that is found under an ID before is found under it after,
-- with the same text and with the replies that it had, in order, in front.
pub transition-Extends :
    (s : TodoState) (a : TodoAction) (at : Option ℕ) (r : TodoTransition) (k : ℕ) (t : Todo)
    → transition_todo_state s a at ≡ succeed r
    → a ≢ TodoAction.clear
    → find (has_id k) s.todos ≡ some t
    → (u : Todo) × (find (has_id k) r.state.todos ≡ some u) × Extends t u
transition-Extends s a at r k t h ne f =
    Change-Extends s a r.state k t (transition-Change s a at r h) ne f

-- The ID that an action needs to be in the list.
abbrev pub needed_id : TodoAction → Option ℕ
needed_id (TodoAction.detail id) = some id
needed_id (TodoAction.toggle id) = some id
needed_id (TodoAction.status id _ _) = some id
needed_id (TodoAction.block id _) = some id
needed_id (TodoAction.reply id _) = some id
needed_id (TodoAction.unblock id) = some id
needed_id _ = none

-- The failures of an action that looks a todo up.
abbrev pub Missing : TodoState → TodoAction → TodoNotFoundError → Type 0
Missing s a e =
    (id : ℕ) × (needed_id a ≡ some id)
    × (find (has_id id) s.todos ≡ none)
    × (e ≡ not_found (action_name a) id)

needs :
    (s : TodoState) (a : TodoAction) (id : ℕ) (k : Todo → TodoTransition) (e : TodoNotFoundError)
    → needed_id a ≡ some id
    → ((find_target s (action_name a) id >>= λ t. succeed (k t)) ≡ fail e) ↔ Missing s a e
needs s a id k e n = elim (find_target-cases s (action_name a) id) [
  | inl (missing, q) ↦ (λ h. (id, n, missing, ground arith), λ m. ground (arith, m.1, m.3))
  | inr (t, q, same_id, found) ↦ (
    λ h. absurd (ground arith),
    λ m. let same : m.0 ≡ id = ground (arith, m.1) in absurd (ground (arith, m.2)),
  )
]

no_need :
    (s : TodoState) (a : TodoAction) (r : TodoTransition) (e : TodoNotFoundError)
    → needed_id a ≡ none
    → (◌≡◌ {A = Outcome TodoNotFoundError TodoTransition} (succeed r) (fail e)) ↔ Missing s a e
no_need s a r e n = (λ h. absurd (ground arith), λ m. absurd (ground (arith, m.1)))

-- A transition fails exactly when its action names an ID that no todo has, and then with the
-- `not found` error of that action and ID.
pub transition-eq-fail_iff :
    (s : TodoState) (a : TodoAction) (at : Option ℕ) (e : TodoNotFoundError)
    → (transition_todo_state s a at ≡ fail e) ↔ Missing s a e
unfolding transition_todo_state
transition-eq-fail_iff s TodoAction.list at e = no_need s TodoAction.list _ e refl
transition-eq-fail_iff s (TodoAction.detail id) at e = needs s (TodoAction.detail id) id _ e refl
transition-eq-fail_iff s (TodoAction.add text) at e = no_need s (TodoAction.add text) _ e refl
transition-eq-fail_iff s (TodoAction.toggle id) at e = needs s (TodoAction.toggle id) id _ e refl
transition-eq-fail_iff s (TodoAction.status id st remind) at e =
    needs s (TodoAction.status id st remind) id _ e refl
transition-eq-fail_iff s (TodoAction.block id reason) at e =
    needs s (TodoAction.block id reason) id _ e refl
transition-eq-fail_iff s (TodoAction.reply id text) at e =
    needs s (TodoAction.reply id text) id _ e refl
transition-eq-fail_iff s (TodoAction.unblock id) at e = needs s (TodoAction.unblock id) id _ e refl
transition-eq-fail_iff s TodoAction.clear at e = no_need s TodoAction.clear _ e refl
