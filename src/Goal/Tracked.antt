-- ===== src/Goal/Tracked.antt =====
-- Tracked work and the goal: `todoWorkSnapshot` with `applyGoalEvaluation` and
-- `taskContinuationMessage` of pi/extensions/classified-workflows/goal.ts.
use mathlib.Core.List.{reverse}
use metagenda.Base.{
  ℕ, ◌+◌, ◌<◌, ◌≡◌, ◌≢◌, refl, ap, ◌∙◌, Option, none, some, List, [], ◌∷◌, ◌++◌, Bool, true, false,
  ◌&&◌, ◌||◌, length, keep, arith, All, In, In-keep, length-append,
}
use metagenda.Base.Int.{ℤ}
use metagenda.Base.Text.{Text}
use metagenda.Base.Value.{Value, obj, Fields, Items, items, get_field, as_text, as_count, has_tag}
use metagenda.Goal.Types.{GoalFields, EndStatus, ended, GoalEvaluation, TodoWorkSnapshot}
use metagenda.Goal.Evaluation.{apply_goal_evaluation, task_continuation_message}
use metagenda.Goal.Session.{
  entry_todos, add_pending, add_blocked, add_completed, add_known, add_todo, add_todos,
  latest_todos, no_work, todo_work_snapshot, stored_replies, todo_line,
}
use metagenda.Base.Reverse.{reverse-last, All-reverse}
use metagenda.Goal.Progress.{apply_goal_evaluation-eq-ended_iff}

-- A stored todo that has a number, a text and one of the statuses given.
abbrev pub is_known : Fields → Bool
is_known todo = elim (as_count (get_field "id" todo)) [
  | none ↦ false
  | some id ↦ elim (as_text (get_field "text" todo)) [ none ↦ false | some text ↦ true ]
]

-- Work in progress or pending.
abbrev pub is_open : Value → Bool
is_open (obj todo) =
    is_known todo
    && (has_tag "in_progress" (get_field "status" todo)
        || has_tag "pending" (get_field "status" todo))
is_open _ = false

abbrev pub is_completed : Value → Bool
is_completed (obj todo) = is_known todo && has_tag "completed" (get_field "status" todo)
is_completed _ = false

abbrev pub count : Bool → ℕ
count true = 1
count false = 0

add_pending-length :
    (v : Value) (l : Text) (s : TodoWorkSnapshot)
    → (length (add_pending v l s).pending
        ≡ length s.pending + count (has_tag "in_progress" v || has_tag "pending" v))
      × ((add_pending v l s).completed ≡ s.completed)
add_pending-length v l s = (ground (arith, length-append s.pending (l ∷ [])), ground arith)

add_blocked-same :
    (v : Value) (o : Option Text) (id : ℕ) (t : Text) (rs : List Text) (s : TodoWorkSnapshot)
    → ((add_blocked v o id t rs s).pending ≡ s.pending)
      × ((add_blocked v o id t rs s).completed ≡ s.completed)
add_blocked-same v none id t rs s = (refl, refl)
add_blocked-same v (some r) id t rs s = (ground arith, ground arith)

add_completed-length :
    (v : Value) (l : Text) (s : TodoWorkSnapshot)
    → (length (add_completed v l s).completed ≡ length s.completed + count (has_tag "completed" v))
      × ((add_completed v l s).pending ≡ s.pending)
add_completed-length v l s = (ground (arith, length-append s.completed (l ∷ [])), ground arith)

add_known-length :
    (todo : Fields) (s : TodoWorkSnapshot) (id : ℕ) (t : Text)
    → (length (add_known s todo (some id) (some t)).pending
        ≡ length s.pending
          + count (
              has_tag "in_progress" (get_field "status" todo)
              || has_tag "pending" (get_field "status" todo)))
      × (length (add_known s todo (some id) (some t)).completed
          ≡ length s.completed + count (has_tag "completed" (get_field "status" todo)))
add_known-length todo s id t =
    let v = get_field "status" todo in
    let rs = stored_replies (get_field "replies" todo) in
    let l = todo_line id t rs in
    let p = add_pending v l s in
    let o = as_text (get_field "reason" todo) in
    let b = add_blocked v o id t rs p in
    let (h, k) = add_pending-length v l s in
    let (h1, k1) = add_blocked-same v o id t rs p in
    let (h2, k2) = add_completed-length v l b in
    (
      ap length k2 ∙ ap length h1 ∙ h,
      h2 ∙ ap (λ z. length z + count (has_tag "completed" v)) (k1 ∙ k),
    )

-- One todo's part of the two counts.
abbrev IsCounted : TodoWorkSnapshot → Value → Type 0
IsCounted s v =
    (length (add_todo s v).pending ≡ length s.pending + count (is_open v))
    × (length (add_todo s v).completed ≡ length s.completed + count (is_completed v))

unchanged :
    (s : TodoWorkSnapshot)
    → (length s.pending ≡ length s.pending + 0) × (length s.completed ≡ length s.completed + 0)
unchanged s = (omega arith, omega arith)

add_todo-length : (s : TodoWorkSnapshot) (v : Value) → IsCounted s v
unfolding add_todo
add_todo-length s (obj todo) =
    split (as_count (get_field "id" todo)) (as_text (get_field "text" todo)) refl refl
  where
    split :
        (n : Option ℕ) (t : Option Text)
        → as_count (get_field "id" todo) ≡ n
        → as_text (get_field "text" todo) ≡ t
        → IsCounted s (obj todo)
    split none t e f = (ground arith, ground arith)
    split (some id) none e f = (ground arith, ground arith)
    split (some id) (some t) e f =
        let known : is_known todo ≡ true = ground arith in
        let (h, k) = add_known-length todo s id t in (ground arith, ground arith)
add_todo-length s _ = unchanged s

add_todos-length :
    (s : TodoWorkSnapshot) (vs : List Value)
    → (length (add_todos s vs).pending ≡ length s.pending + length (keep is_open vs))
      × (length (add_todos s vs).completed ≡ length s.completed + length (keep is_completed vs))
unfolding add_todos
add_todos-length s [] = unchanged s
add_todos-length s (v ∷ vs) =
    let (h, k) = add_todo-length s v in
    let (h1, k1) = add_todos-length (add_todo s v) vs in (ground arith, ground arith)

latest_todos-skips :
    (xs ys : List Value)
    → All (λ e. entry_todos e ≡ none) xs
    → latest_todos (xs ++ ys) ≡ latest_todos ys
unfolding latest_todos
latest_todos-skips [] ys h = refl
latest_todos-skips (x ∷ xs) ys (q, h) = ground (arith, latest_todos-skips xs ys h)

-- The snapshot is that of the last entry of the log that records todos: entries after it that record
-- none, and all before it, change nothing. It has a pending line for each todo with a number, a text
-- and a status of pending or in progress, and a completed line for each that is completed.
pub todo_work_snapshot-latest :
    (older newer : List Value) (entry : Value) (todos : Items)
    → entry_todos entry ≡ some todos
    → All (λ e. entry_todos e ≡ none) newer
    → (todo_work_snapshot (older ++ entry ∷ newer) ≡ add_todos no_work (items todos))
      × (length (add_todos no_work (items todos)).pending ≡ length (keep is_open (items todos)))
      × (length (add_todos no_work (items todos)).completed
          ≡ length (keep is_completed (items todos)))
unfolding todo_work_snapshot latest_todos
todo_work_snapshot-latest older newer entry todos e h =
    let (p, c) = add_todos-length no_work (items todos) in
    let p0 : length (add_todos no_work (items todos)).pending
        ≡ length (keep is_open (items todos)) =
      omega arith in
    let c0 : length (add_todos no_work (items todos)).completed
        ≡ length (keep is_completed (items todos)) =
      omega arith in
    let skipped =
      latest_todos-skips (reverse newer) (entry ∷ reverse older)
        (All-reverse (λ x. entry_todos x ≡ none) newer h) in
    (ap latest_todos (reverse-last older newer entry) ∙ skipped ∙ ground arith, p0, c0)

length-In : (v : Value) (vs : List Value) → In v vs → 0 < length vs
length-In v [] m = elim m [ ]
length-In v (x ∷ xs) m = omega arith

-- While the last recorded todos hold one that is pending or in progress, no evaluation ends the goal,
-- and the agent is told to continue.
pub tracked_work_continues :
    (older newer : List Value) (entry v : Value) (todos : Items)
    → entry_todos entry ≡ some todos
    → All (λ e. entry_todos e ≡ none) newer
    → In v (items todos)
    → is_open v ≡ true
    → (s f : GoalFields) (e : GoalEvaluation) (u : ℤ) (now at : ℕ) (st : EndStatus) (r : Text)
    → (apply_goal_evaluation s e u now (todo_work_snapshot (older ++ entry ∷ newer)).pending
        ≢ ended st f at r)
      × (task_continuation_message (todo_work_snapshot (older ++ entry ∷ newer)) ≢ none)
unfolding task_continuation_message
tracked_work_continues older newer entry v todos h k m o s f e u now at st r =
    let work = todo_work_snapshot (older ++ entry ∷ newer) in
    let (q, p, _) = todo_work_snapshot-latest older newer entry todos h k in
    let more : 0 < length work.pending =
      let n = length-In v (keep is_open (items todos)) (In-keep is_open v (items todos) m o) in
      let t : length work.pending ≡ length (keep is_open (items todos)) =
        ap (λ z. length z.pending) q ∙ p in
      omega arith in
    (
      λ c.
          let (none_left, _, _, _, _) =
            (apply_goal_evaluation-eq-ended_iff s f e u now at work.pending st r).0 c in
          absurd (ground (arith, ap length none_left)),
      λ c. absurd (ground arith),
    )
