-- ===== src/Todo/Changes.antt =====
-- The shape of every transition of pi/extensions/todo/state.ts: it keeps the state, adds a todo,
-- changes one, or clears the list.
use metagenda.Base.{
  ℕ, ◌+◌, ◌<◌, ◌≡◌, ◌≢◌, refl, sym, ◌∙◌, ◌⊎◌, inl, inr, Option, none, some, List, [], ◌∷◌, ◌++◌,
  map, false, ◌==◌, find, succeed, fail, ◌>>=◌, arith, All, Bool-cases, Option-cases, subst,
}
use mathlib.Core.List.{append-nil}
use metagenda.Base.Text.{Text}
use metagenda.Todo.Types.{
  Todo, TodoState, Settable, TodoAction, ActionName, TodoTransition, empty_todo_state, kept_replies,
  todo_with_status, pending_todo,
}
use metagenda.Todo.Format.{is_closed}
use metagenda.Todo.Transition.{
  not_found, has_id, not_found, new_todo, find_target, update_todo, toggled, changed_at,
  blocked_todo, replied_todo, replies_of, transition_todo_state,
}

abbrev pub ids : List Todo → List ℕ
ids = map λ t. t.id

abbrev pub Distinct : List ℕ → Type 0
Distinct [] = Unit
Distinct (n ∷ ns) = All (λ m. m ≢ n) ns × Distinct ns

-- An open todo has no closing time.
abbrev pub Stamped : Todo → Type 0
Stamped t = is_closed t ≡ false → t.status_changed_at ≡ none

pub record IsValid (s : TodoState) : Type 0 where
  pub distinct : Distinct (ids s.todos)
  pub below : All (λ n. n < s.next_id) (ids s.todos)
  pub stamped : All Stamped s.todos

-- What a change of one todo keeps.
pub record Keeps (target : Todo) (f : Todo → Todo) : Type 0 where
  pub same_id : (t : Todo) → t.id ≡ target.id → (f t).id ≡ target.id
  pub stamps : (t : Todo) → Stamped t → Stamped target → Stamped (f t)
  pub same_text : (f target).text ≡ target.text
  pub grown_replies : (extra : List Text) × (replies_of (f target) ≡ replies_of target ++ extra)

-- How a successful transition relates its two states.
pub data Change (s : TodoState) (a : TodoAction) (r : TodoState) : Type 0 where
  same : r ≡ s → Change s a r
  grown :
      (todo : Todo)
      → todo.id ≡ s.next_id
      → Stamped todo
      → r ≡ record { todos = s.todos ++ todo ∷ []; next_id = s.next_id + 1 }
      → Change s a r
  changed :
      (target : Todo) (f : Todo → Todo)
      → find (has_id target.id) s.todos ≡ some target
      → Keeps target f
      → r ≡ update_todo s target.id f
      → Change s a r
  cleared : a ≡ TodoAction.clear → r ≡ empty_todo_state → Change s a r

pub find-has_id : (k : ℕ) (ts : List Todo) (t : Todo) → find (has_id k) ts ≡ some t → t.id ≡ k
find-has_id k [] t h = cc
find-has_id k (u ∷ ts) t h = ground (arith, find-has_id k ts t)

pub All-find {κ} :
    (P : Todo → Type κ) (k : ℕ) (ts : List Todo) (t : Todo)
    → All P ts
    → find (has_id k) ts ≡ some t
    → P t
All-find P k [] t a h = absurd (cc)
All-find P k (u ∷ ts) t (p, a) h = elim (Bool-cases (u.id == k)) [
  | inl e ↦ let q : u ≡ t = ground arith in subst P q p
  | inr e ↦ All-find P k ts t a (rw e at h)
]

replies_of-kept : (t u : Todo) → u.replies ≡ kept_replies t.replies → replies_of u ≡ replies_of t
replies_of-kept t u e = split t.replies refl
  where
    split : (o : Option (List Text)) → t.replies ≡ o → replies_of u ≡ replies_of t
    split none q = ground arith
    split (some []) q = ground arith
    split (some (r ∷ rs)) q = ground arith

-- A change that keeps ID, text and replies and sets its own closing time.
rebuilt-Keeps :
    (target : Todo) (f : Todo → Todo)
    → ((t : Todo) → t.id ≡ target.id → (f t).id ≡ target.id)
    → ((t : Todo) → Stamped (f t))
    → (f target).text ≡ target.text
    → (f target).replies ≡ kept_replies target.replies
    → Keeps target f
rebuilt-Keeps target f same_id stamps same_text kept = record {
  same_id = same_id;
  stamps = λ t _ _. stamps t;
  same_text = same_text;
  grown_replies = ([], replies_of-kept target (f target) kept ∙ sym (append-nil _));
}

toggled-Stamped : (at : Option ℕ) (t : Todo) → Stamped (toggled at t)
unfolding pending_todo todo_with_status
toggled-Stamped at t h = ground arith

todo_with_status-Stamped :
    (t : Todo) (st : Settable) (at remind : Option ℕ)
    → Stamped (todo_with_status t st (changed_at st at) remind)
unfolding todo_with_status
todo_with_status-Stamped t st at remind h = ground arith

toggled-kept :
    (at : Option ℕ) (t : Todo)
    → ((toggled at t).id ≡ t.id)
      × ((toggled at t).text ≡ t.text)
      × ((toggled at t).replies ≡ kept_replies t.replies)
unfolding pending_todo todo_with_status
toggled-kept at t = ground arith

replied-Keeps : (target : Todo) (text : Text) → Keeps target (λ _. replied_todo text target)
replied-Keeps target text = record {
  same_id = λ t _. refl;
  stamps = λ t _ h. h;
  same_text = refl;
  grown_replies = (text ∷ [], refl);
}

pending_todo-Keeps : (target : Todo) → Keeps target pending_todo
unfolding pending_todo todo_with_status
pending_todo-Keeps target = rebuilt-Keeps target pending_todo (λ t e. e) (λ t _. refl) refl refl

pub find_target-cases :
    (s : TodoState) (a : ActionName) (id : ℕ)
    → ((find (has_id id) s.todos ≡ none) × (find_target s a id ≡ fail (not_found a id)))
      ⊎ ((t : Todo) × (find_target s a id ≡ succeed t)
          × (t.id ≡ id)
          × (find (has_id t.id) s.todos ≡ some t))
unfolding find_target
find_target-cases s a id = elim (Option-cases (find (has_id id) s.todos)) [
  | inl e ↦ inl (e, rw (e, find_target) refl)
  | inr (t, e) ↦
      let q = find-has_id id s.todos t e in
      inr (t, rw (e, find_target) refl, q, subst (λ m. find (has_id m) s.todos ≡ some t) (sym q) e)
]

-- A transition that looks its todo up and changes it.
targeted :
    (s : TodoState) (act : TodoAction) (a : ActionName) (id : ℕ) (k : Todo → TodoTransition)
    (f : Todo → Todo → Todo) (r : TodoTransition)
    → ((t : Todo) → (k t).state ≡ update_todo s t.id (f t))
    → ((t : Todo) → Keeps t (f t))
    → (find_target s a id >>= λ t. succeed (k t)) ≡ succeed r
    → Change s act r.state
targeted s act a id k f r state keeps h = elim (find_target-cases s a id) [
  | inl (_, e) ↦ absurd (ground arith)
  | inr (t, q, same_id, found) ↦
      let e : k t ≡ r = ground arith in changed t (f t) found (keeps t) (rw (← e) (state t))
]

looked_up :
    (s : TodoState) (act : TodoAction) (a : ActionName) (id : ℕ) (k : Todo → TodoTransition)
    (r : TodoTransition)
    → ((t : Todo) → (k t).state ≡ s)
    → (find_target s a id >>= λ t. succeed (k t)) ≡ succeed r
    → Change s act r.state
looked_up s act a id k r state h = elim (find_target-cases s a id) [
  | inl (_, e) ↦ absurd (ground arith)
  | inr (t, q, same_id, found) ↦ let e : k t ≡ r = ground arith in same (rw (← e) (state t))
]

-- Every successful transition is one of the four changes.
pub transition-Change :
    (s : TodoState) (a : TodoAction) (at : Option ℕ) (r : TodoTransition)
    → transition_todo_state s a at ≡ succeed r
    → Change s a r.state
unfolding transition_todo_state
transition-Change s TodoAction.list at r h = same (ground arith)
transition-Change s (TodoAction.detail id) at r h = looked_up s _ _ id _ r (λ t. refl) h
transition-Change s (TodoAction.add text) at r h =
    grown (new_todo s text) refl (λ _. refl) (ground arith)
transition-Change s (TodoAction.toggle id) at r h =
    targeted s _ _ id _ (λ t _. toggled at t) r (λ t. refl)
      (λ t.
        rebuilt-Keeps t _ (λ _ _. (toggled-kept at t).0) (λ _. toggled-Stamped at t)
          (toggled-kept at t).1 (toggled-kept at t).2)
      h
transition-Change s (TodoAction.status id st remind) at r h =
    targeted s _ _ id _ (λ t _. todo_with_status t st (changed_at st at) remind) r (λ t. refl)
      (λ t.
        rebuilt-Keeps t _ (λ _ _. unfold todo_with_status in refl)
          (λ _. todo_with_status-Stamped t st at remind) (unfold todo_with_status in refl)
          (unfold todo_with_status in refl))
      h
transition-Change s (TodoAction.block id reason) at r h =
    targeted s _ _ id _ (λ t _. blocked_todo reason t) r (λ t. refl)
      (λ t. rebuilt-Keeps t _ (λ _ _. refl) (λ _ _. refl) refl refl) h
transition-Change s (TodoAction.reply id text) at r h =
    targeted s _ _ id _ (λ t _. replied_todo text t) r (λ t. refl) (λ t. replied-Keeps t text) h
transition-Change s (TodoAction.unblock id) at r h =
    targeted s _ _ id _ (λ t. pending_todo) r (λ t. refl) pending_todo-Keeps h
transition-Change s TodoAction.clear at r h = cleared refl (ground arith)
