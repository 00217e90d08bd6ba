-- ===== src/Todo/Format.antt =====
-- How pi/extensions/todo/state.ts prints todos: `todoStatusMark`, `formatTodoList` and
-- `formatTodoDetail`.
use metagenda.Base.{
  ℕ, suc, ◌-◌, String, Option, none, some, List, [], ◌∷◌, ◌++◌, map, Bool, true, false, not, ◌&&◌,
  ◌||◌, leb, ltb, ◌==◌, if◌then◌else◌, length, keep, take_last,
}
use metagenda.Base.Text.{Text, lit, decimal, join, is_empty}
use metagenda.Base.Date.{to_iso}
use metagenda.Base.Sort.{sort}
use metagenda.Todo.Types.{
  pending, in_progress, in_review, completed, cancelled, Progress, immediate, Todo, TodoStatus,
  status_of,
}

unfoldable pub todo_status_mark : TodoStatus → Text
unfolding lit
todo_status_mark (TodoStatus.active pending) = lit "[ ]"
todo_status_mark (TodoStatus.active in_progress) = lit "[/]"
todo_status_mark (TodoStatus.active in_review) = lit "[~]"
todo_status_mark (TodoStatus.active completed) = lit "[x]"
todo_status_mark (TodoStatus.active cancelled) = lit "[-]"
todo_status_mark TodoStatus.blocked = lit "[!]"
todo_status_mark TodoStatus.deferred = lit "[:]"

abbrev pub completed_history_limit : ℕ
completed_history_limit = 10

-- ` — blocked: …` and ` — deferred until …`
unfoldable pub progress_detail : Progress → Text
unfolding lit to_iso
progress_detail (Progress.blocked reason) = lit " — blocked: " ++ reason
progress_detail (Progress.deferred (some at)) = lit " — deferred until " ++ to_iso at
progress_detail _ = []

abbrev pub reply_count : Option (List Text) → ℕ
reply_count none = 0
reply_count (some rs) = length rs

-- `${count} ${count === 1 ? one : many}`
unfoldable pub counted : ℕ → String → String → Text
unfolding decimal lit
counted n one many = decimal n ++ lit " " ++ (if n == 1 then lit one else lit many)

unfoldable pub headline : Todo → Text
unfolding decimal lit progress_detail todo_status_mark
headline todo =
    todo_status_mark (status_of todo.progress)
    ++ lit " #"
    ++ decimal todo.id
    ++ lit ": "
    ++ todo.text
    ++ progress_detail todo.progress

unfoldable pub format_todo : Todo → Text
unfolding headline counted
format_todo todo =
    headline todo
    ++ (if ltb 0 (reply_count todo.replies)
        then lit " · " ++ counted (reply_count todo.replies) "reply" "replies"
        else [])

abbrev pub is_closed_progress : Progress → Bool
is_closed_progress (immediate completed) = true
is_closed_progress (immediate cancelled) = true
is_closed_progress _ = false

abbrev pub is_closed : Todo → Bool
is_closed todo = is_closed_progress todo.progress

-- `-Infinity` where no time is known.
abbrev pub time_le : Option ℕ → Option ℕ → Bool
time_le none _ = true
time_le (some a) none = false
time_le (some a) (some b) = leb a b

-- `(left.statusChangedAt ?? -Infinity) - (right.statusChangedAt ?? -Infinity) || left.index -
-- right.index` is not positive. Two unknown times have the difference NaN, which `||` passes over.
unfoldable pub closed_le : ℕ × Todo → ℕ × Todo → Bool
closed_le (i, a) (j, b) =
    time_le a.status_changed_at b.status_changed_at
    && (not (time_le b.status_changed_at a.status_changed_at) || leb i j)

-- `xs.map((todo, index) => ({ todo, index }))`
unfoldable pub indexed_from : ℕ → List Todo → List (ℕ × Todo)
indexed_from n [] = []
indexed_from n (t ∷ ts) = (n, t) ∷ indexed_from (suc n) ts

unfoldable pub by_recency : List Todo → List Todo
unfolding closed_le indexed_from sort
by_recency closed = map (λ p. p.1) (sort closed_le (indexed_from 0 closed))

abbrev pub visible_closed : List Todo → List Todo
visible_closed todos = take_last completed_history_limit (by_recency (keep is_closed todos))

abbrev pub omitted_closed : List Todo → ℕ
omitted_closed todos = length (keep is_closed todos) - length (visible_closed todos)

unfoldable pub omitted_line : List Todo → Text
unfolding decimal lit
omitted_line todos =
    lit "… "
    ++ decimal (omitted_closed todos)
    ++ lit " earlier closed "
    ++ (if omitted_closed todos == 1 then lit "todo" else lit "todos")
    ++ lit " omitted"

-- The lines of a listing that has todos.
unfoldable pub list_lines : List Todo → List Text
list_lines todos =
    map format_todo (keep (λ t. not (is_closed t)) todos)
    ++ map format_todo (visible_closed todos)
    ++ (if ltb 0 (omitted_closed todos) then omitted_line todos ∷ [] else [])

unfoldable pub format_todo_list : List Todo → Text
unfolding list_lines format_todo by_recency omitted_line join
format_todo_list [] = lit "No todos"
format_todo_list (t ∷ ts) = join (10 ∷ []) (list_lines (t ∷ ts))

unfoldable pub reply_lines : Option (List Text) → Text
unfolding join lit
reply_lines none = []
reply_lines (some rs) = join (10 ∷ []) (map (λ r. lit "  ↳ reply: " ++ r) rs)

unfoldable pub format_todo_detail : Option Todo → Text
unfolding headline reply_lines
format_todo_detail none = lit "todo not found"
format_todo_detail (some todo) = join (10 ∷ []) (
    headline todo
    ∷ (if is_empty (reply_lines todo.replies) then [] else reply_lines todo.replies ∷ []))
