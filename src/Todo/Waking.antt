-- ===== src/Todo/Waking.antt =====
-- The wake of pi/extensions/todo/state.ts against a description that uses none of its functions.
use metagenda.Base.{
  ℕ, ◌≤◌, ◌≡◌, ◌⊎◌, refl, sym, ap, subst, inl, inr, Option, none, some, List, [], ◌∷◌, map, true,
  false, keep, arith, Bool-cases,
}
use metagenda.Base.Text.{Text}
use metagenda.Todo.Types.{
  Progress, immediate, pending, Todo, TodoState, kept_replies, todo_with_status, pending_todo,
}
use metagenda.Todo.Wake.{is_due, DeferredTodoWake, wake_due_deferred_todos}
use metagenda.Todo.Changes.{ids, Distinct}
use metagenda.Todo.Reminders.{woken_todo, wake-eq-map, due-deferred}

-- A deferred todo whose reminder is not in the future.
abbrev pub Due : ℕ → Todo → Type 0
Due now t = (at : ℕ) × (t.progress ≡ Progress.deferred (some at)) × (at ≤ now)

-- The todo as a pending one: an empty list of replies is dropped, and so is the time of a change.
pub record IsPended (t t' : Todo) : Type 0 where
  pub same_id : t'.id ≡ t.id
  pub same_text : t'.text ≡ t.text
  pub replies : (t'.replies ≡ t.replies) ⊎ ((t.replies ≡ some []) × (t'.replies ≡ none))
  pub unstamped : t'.status_changed_at ≡ none
  pub is_pending : t'.progress ≡ immediate pending

abbrev pub Wakes : ℕ → Todo → Todo → Type 0
Wakes now t t' = (Due now t × IsPended t t') ⊎ ((Due now t → ⊥) × (t' ≡ t))

-- Each todo and the one in its place.
abbrev pub EachWakes : ℕ → List Todo → List Todo → Type 0
EachWakes now [] [] = Unit
EachWakes now (t ∷ ts) (u ∷ us) = Wakes now t u × EachWakes now ts us
EachWakes now _ _ = ⊥

-- The due todos of a list, in their order.
pub data Picks (now : ℕ) : List Todo → List Todo → Type 0 where
  ends : Picks now [] []
  picks : {t : Todo} {ts us : List Todo} → Due now t → Picks now ts us → Picks now (t ∷ ts) (t ∷ us)
  skips : {t : Todo} {ts us : List Todo} → (Due now t → ⊥) → Picks now ts us → Picks now (t ∷ ts) us

-- What a wake does to a state.
pub record Waking (now : ℕ) (s : TodoState) (w : DeferredTodoWake) : Type 0 where
  pub wakes : EachWakes now s.todos w.state.todos
  pub same_next : w.state.next_id ≡ s.next_id
  pub reports : Picks now s.todos w.woken

Due-is_due : (now : ℕ) (t : Todo) → Due now t → is_due now t ≡ true
Due-is_due now t (at, e, le) = rw e (ground arith)

is_due-not_Due : (now : ℕ) (t : Todo) → is_due now t ≡ false → Due now t → ⊥
is_due-not_Due now t e d = let q = Due-is_due now t d in absurd (cc)

kept_replies-cases :
    (rs : Option (List Text)) → (kept_replies rs ≡ rs) ⊎ ((rs ≡ some []) × (kept_replies rs ≡ none))
kept_replies-cases none = inl refl
kept_replies-cases (some []) = inr (refl, refl)
kept_replies-cases (some (r ∷ rs)) = inl refl

pending_todo-IsPended : (t : Todo) → IsPended t (pending_todo t)
unfolding pending_todo todo_with_status
pending_todo-IsPended t = record {
  same_id = refl;
  same_text = refl;
  replies = kept_replies-cases t.replies;
  unstamped = refl;
  is_pending = refl;
}

woken_todo-Wakes : (now : ℕ) (t : Todo) → Wakes now t (woken_todo now t)
woken_todo-Wakes now t = elim (Bool-cases (is_due now t)) [
  | inl e ↦ rw e (inl (due-deferred now t e, pending_todo-IsPended t))
  | inr e ↦ rw e (inr (is_due-not_Due now t e, refl))
]

map-EachWakes : (now : ℕ) (ts : List Todo) → EachWakes now ts (map (woken_todo now) ts)
map-EachWakes now [] = tt
map-EachWakes now (t ∷ ts) = (woken_todo-Wakes now t, map-EachWakes now ts)

keep-Picks : (now : ℕ) (ts : List Todo) → Picks now ts (keep (is_due now) ts)
keep-Picks now [] = ends
keep-Picks now (t ∷ ts) = elim (Bool-cases (is_due now t)) [
  | inl e ↦ rw e (picks (due-deferred now t e) (keep-Picks now ts))
  | inr e ↦ rw e (skips (is_due-not_Due now t e) (keep-Picks now ts))
]

-- With distinct IDs, a wake turns each deferred todo whose reminder is not in the future into a
-- pending one with its ID, its text and its replies (an empty list of them is dropped), and with no
-- time of change. It leaves every other todo as it is, all in their places, keeps the next ID, and
-- reports the todos that were due, in their order.
pub wake-Waking :
    (s : TodoState) (now : ℕ)
    → Distinct (ids s.todos)
    → Waking now s (wake_due_deferred_todos s now)
wake-Waking s now d =
    let (state, woken) = wake-eq-map s now d in
    record {
      wakes =
          subst (λ (z : TodoState). EachWakes now s.todos z.todos) (sym state)
            (map-EachWakes now s.todos);
      same_next = ap (λ (z : TodoState). z.next_id) state;
      reports = subst (Picks now s.todos) (sym woken) (keep-Picks now s.todos);
    }
