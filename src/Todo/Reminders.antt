-- ===== src/Todo/Reminders.antt =====
-- What waking does to a todo list (pi/extensions/todo/state.ts), and when there is something to wake.
use metagenda.Base.{
  ℕ, ◌≤◌, ◌≡◌, ◌≢◌, refl, sym, ap, ◌∙◌, inl, inr, ◌↔◌, none, some, List, [], ◌∷◌, map, true, false,
  ◌==◌, if◌then◌else◌, leb, leb→le, keep, arith, All-In, In, In-keep, keep-In, In-append-cases,
  In-append_right, Bool-cases, ==_iff,
}
use metagenda.Base.Sort.{sort, In-sort, sort-In, sort-IsSorted, IsSorted}
use metagenda.Todo.Types.{Progress, immediate, Todo, TodoState, todo_with_status, pending_todo}
use metagenda.Todo.Wake.{
  remind_times, reminders, first, next_deferred_reminder_at, is_due, has_id_in, wake, woken_todos,
  wake_due_deferred_todos,
}
use metagenda.Todo.Changes.{ids, Distinct}

ids-In : (t : Todo) (ts : List Todo) → In t ts → In t.id (ids ts)
ids-In t [] m = elim m [ ]
ids-In t (u ∷ ts) (inl e) = inl (ap (λ (v : Todo). v.id) e)
ids-In t (u ∷ ts) (inr m) = inr (ids-In t ts m)

same_todo :
    (t u : Todo) (ts : List Todo) → Distinct (ids ts) → In t ts → In u ts → t.id ≡ u.id → t ≡ u
same_todo t u [] d m n e = elim m [ ]
same_todo t u (v ∷ ts) (p, d) (inl x) (inl y) e = x ∙ sym y
same_todo t u (v ∷ ts) (p, d) (inl x) (inr n) e =
    absurd
      (All-In (λ m. m ≢ v.id) u.id (ids ts) p (ids-In u ts n) (sym e ∙ ap (λ (w : Todo). w.id) x))
same_todo t u (v ∷ ts) (p, d) (inr m) (inl y) e =
    absurd (All-In (λ n. n ≢ v.id) t.id (ids ts) p (ids-In t ts m) (e ∙ ap (λ (w : Todo). w.id) y))
same_todo t u (v ∷ ts) (p, d) (inr m) (inr n) e = same_todo t u ts d m n e

has_id_in-In : (t : Todo) (ts : List Todo) → In t ts → has_id_in ts t.id ≡ true
has_id_in-In t [] m = elim m [ ]
has_id_in-In t (u ∷ ts) (inl e) = ground (arith, ap (λ (v : Todo). v.id) e)
has_id_in-In t (u ∷ ts) (inr m) = ground (arith, has_id_in-In t ts m)

In-has_id_in : (k : ℕ) (ts : List Todo) → has_id_in ts k ≡ true → (t : Todo) × In t ts × (t.id ≡ k)
In-has_id_in k [] h = absurd (cc)
In-has_id_in k (u ∷ ts) h = elim (Bool-cases (u.id == k)) [
  | inl e ↦ (u, inl refl, (==_iff _ _).0 e)
  | inr e ↦ let (t, m, q) = In-has_id_in k ts (rw e at h) in (t, inr m, q)
]

-- A todo's ID is among the due ones exactly when the todo is due.
has_id_in-due :
    (now : ℕ) (t : Todo) (ts : List Todo)
    → Distinct (ids ts)
    → In t ts
    → has_id_in (keep (is_due now) ts) t.id ≡ is_due now t
has_id_in-due now t ts d m = elim (Bool-cases (is_due now t)) [
  | inl due ↦ rw due (has_id_in-In t (keep (is_due now) ts) (In-keep (is_due now) t ts m due))
  | inr idle ↦ elim (Bool-cases (has_id_in (keep (is_due now) ts) t.id)) [
    | inl found ↦
        let (u, n, q) = In-has_id_in t.id (keep (is_due now) ts) found in
        let (k, due) = keep-In (is_due now) u ts n in
        let e : u ≡ t = same_todo u t ts d k m q in absurd (ground (arith, ap (is_due now) e))
    | inr lost ↦ lost ∙ sym idle
  ]
]

map-ext :
    (f g : Todo → Todo) (ts : List Todo) → ((t : Todo) → In t ts → f t ≡ g t) → map f ts ≡ map g ts
map-ext f g [] h = refl
map-ext f g (t ∷ ts) h = cc (h t (inl refl), map-ext f g ts (λ u m. h u (inr m)))

-- A due todo as a pending one, any other as it is.
abbrev pub woken_todo : ℕ → Todo → Todo
woken_todo now t = if is_due now t then pending_todo t else t

map-woken_todo_idle :
    (now : ℕ) (ts : List Todo) → keep (is_due now) ts ≡ [] → map (woken_todo now) ts ≡ ts
map-woken_todo_idle now [] h = refl
map-woken_todo_idle now (t ∷ ts) h = elim (Bool-cases (is_due now t)) [
  | inl e ↦ absurd (ground arith)
  | inr e ↦ rw e (ap (λ us. t ∷ us) (map-woken_todo_idle now ts (rw e at h)))
]

woken_todos-eq :
    (now : ℕ) (ts due : List Todo)
    → keep (is_due now) ts ≡ due
    → ((t : Todo) → In t ts → has_id_in due t.id ≡ is_due now t)
    → woken_todos due ts ≡ map (woken_todo now) ts
woken_todos-eq now ts [] e h = sym (map-woken_todo_idle now ts e)
woken_todos-eq now ts (u ∷ due) e h =
    map-ext (wake (u ∷ due)) (woken_todo now) ts (λ t m. rw (h t m))

-- The todos after a wake are the due ones made pending by the code's own function, in their places.
pub wake-eq-map :
    (s : TodoState) (now : ℕ)
    → Distinct (ids s.todos)
    → ((wake_due_deferred_todos s now).state ≡ record s { todos = map (woken_todo now) s.todos })
      × ((wake_due_deferred_todos s now).woken ≡ keep (is_due now) s.todos)
unfolding wake_due_deferred_todos
wake-eq-map s now d = (
  ap (λ ts. record s { todos = ts })
      (woken_todos-eq now s.todos _ refl (λ t m. has_id_in-due now t s.todos d m)),
  refl,
)

none_due : (now : ℕ) (ts : List Todo) → keep (is_due now) (map (woken_todo now) ts) ≡ []
unfolding pending_todo todo_with_status
none_due now [] = refl
none_due now (t ∷ ts) = elim (Bool-cases (is_due now t)) [
  | inl e ↦ rw e (none_due now ts)
  | inr e ↦ rw (e, e) (none_due now ts)
]

rewake :
    (now : ℕ) (s : TodoState)
    → keep (is_due now) s.todos ≡ []
    → ((wake_due_deferred_todos s now).state ≡ s) × ((wake_due_deferred_todos s now).woken ≡ [])
unfolding wake_due_deferred_todos
rewake now s e = (rw e refl, e)

-- After a wake nothing is due: waking again at the same time changes nothing.
pub wake_idempotent :
    (s : TodoState) (now : ℕ)
    → Distinct (ids s.todos)
    → let s' = (wake_due_deferred_todos s now).state in
      ((wake_due_deferred_todos s' now).state ≡ s') × ((wake_due_deferred_todos s' now).woken ≡ [])
wake_idempotent s now d = rewake now _ (rw (wake-eq-map s now d).0 (none_due now s.todos))

In-reminders :
    (m : ℕ) (ts : List Todo)
    → In m (reminders ts)
    → (t : Todo) × In t ts × (t.progress ≡ Progress.deferred (some m))
unfolding reminders
In-reminders m [] h = absurd (elim h [ ])
In-reminders m (t ∷ ts) h = elim (In-append-cases m (remind_times t.progress) (reminders ts) h) [
  | inl here ↦ (t, inl refl, here_lem t.progress here)
  | inr k ↦ let (u, n, q) = In-reminders m ts k in (u, inr n, q)
]
  where
    here_lem : (p : Progress) → In m (remind_times p) → p ≡ Progress.deferred (some m)
    here_lem (Progress.deferred (some at)) (inl e) = rw e refl
    here_lem (Progress.deferred (some at)) (inr n) = elim n [ ]
    here_lem (Progress.deferred none) n = elim n [ ]
    here_lem (Progress.blocked r) n = elim n [ ]
    here_lem (immediate i) n = elim n [ ]

reminders-In :
    (m : ℕ) (t : Todo) (ts : List Todo)
    → In t ts
    → t.progress ≡ Progress.deferred (some m)
    → In m (reminders ts)
unfolding reminders
reminders-In m t [] n e = elim n [ ]
reminders-In m t (u ∷ ts) (inl q) e =
    let p : u.progress ≡ Progress.deferred (some m) = sym (ap (λ (v : Todo). v.progress) q) ∙ e in
    rw p (inl refl)
reminders-In m t (u ∷ ts) (inr n) e =
    In-append_right m (remind_times u.progress) (reminders ts) (reminders-In m t ts n e)

pub due-deferred :
    (now : ℕ) (t : Todo)
    → is_due now t ≡ true
    → (m : ℕ) × (t.progress ≡ Progress.deferred (some m)) × (m ≤ now)
due-deferred now t h = split t.progress refl
  where
    split :
        (p : Progress)
        → t.progress ≡ p
        → (m : ℕ) × (t.progress ≡ Progress.deferred (some m)) × (m ≤ now)
    split (Progress.deferred (some at)) e = (at, e, ground arith)
    split (Progress.deferred none) e = absurd (ground arith)
    split (Progress.blocked r) e = absurd (ground arith)
    split (immediate i) e = absurd (ground arith)

leb_trans : (a b c : ℕ) → leb a b ≡ true → leb b c ≡ true → leb a c ≡ true
leb_trans a b c h k = ground arith

leb-total : (a b : ℕ) → leb a b ≡ false → leb b a ≡ true
leb-total a b h = ground arith

first-sort :
    (ns : List ℕ) (n : ℕ) → In n ns → (m : ℕ) × (first (sort leb ns) ≡ some m) × In m ns × (m ≤ n)
first-sort ns n h = split (sort leb ns) refl
  where
    split :
        (s : List ℕ)
        → sort leb ns ≡ s
        → (m : ℕ) × (first (sort leb ns) ≡ some m) × In m ns × (m ≤ n)
    split [] e = let k : In n [] = rw e at (In-sort leb n ns h) in elim k [ ]
    split (m ∷ rest) e =
        let placed : In n (m ∷ rest) = rw e at (In-sort leb n ns h) in
        let sorted : IsSorted leb (m ∷ rest) = rw e at (sort-IsSorted leb leb_trans leb-total ns) in
        let least : In m ns = sort-In leb m ns (rw e (inl refl)) in
        (
          m,
          rw e refl,
          least,
          elim placed [
            | inl q ↦ omega arith
            | inr k ↦ leb→le m n (All-In (λ x. leb m x ≡ true) n rest sorted.0 k)
          ],
        )

first-In : (ns : List ℕ) (m : ℕ) → first (sort leb ns) ≡ some m → In m ns
first-In ns m h = split (sort leb ns) refl
  where
    split : (s : List ℕ) → sort leb ns ≡ s → In m ns
    split [] e = absurd (ground arith)
    split (k ∷ rest) e = let q : m ≡ k = ground arith in sort-In leb m ns (rw e (inl q))

-- There is something to wake exactly when the next reminder is not in the future.
pub wake_when_reminder :
    (s : TodoState) (now : ℕ)
    → ((t : Todo) × In t (wake_due_deferred_todos s now).woken)
      ↔ ((m : ℕ) × (next_deferred_reminder_at s ≡ some m) × (m ≤ now))
unfolding wake_due_deferred_todos next_deferred_reminder_at
wake_when_reminder s now = (
  λ (t, m).
      let (n, due) = keep-In (is_due now) t s.todos m in
      let (at, e, le) = due-deferred now t due in
      let (least, f, _, below) =
        first-sort (reminders s.todos) at (reminders-In at t s.todos n e) in
      (least, f, omega arith),
  λ (m, f, le).
      let (t, n, e) = In-reminders m s.todos (first-In (reminders s.todos) m f) in
      (t, In-keep (is_due now) t s.todos n (ground arith)),
)
