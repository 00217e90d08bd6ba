-- ===== src/Goal/Session.antt =====
-- What pi/extensions/classified-workflows/goal.ts reads from the session log: `todoWorkSnapshot`,
-- `todoClassifierIntent`, `latestCompactionSummary`, `assistantUsageTokens` and
-- `recoverLatestIndependentGoal`. A loop from the last entry to the first runs over the reversed log.
use mathlib.Core.List.{reverse}
use metagenda.Base.{
  ℕ, ◌+◌, ◌-◌, Option, none, some, List, [], ◌∷◌, ◌++◌, map, Bool, not, if◌then◌else◌, length, take,
  take_last, find,
}
use metagenda.Base.Text.{Text, lit, trim, is_empty, decimal, join}
use metagenda.Base.Value.{
  Value, str, obj, arr, Fields, Items, items, get_field, ◌>>=◌, ◌>>◌, require, as_record, as_items,
  as_text, as_count, has_tag,
}
use metagenda.Goal.Types.{GoalFields, GoalState, active, ended, TodoWorkSnapshot}

-- `entry.type === "custom" && entry.customType === "todo.state" && isRecord(entry.data)`
unfoldable pub custom_state : Fields → Option Fields
custom_state entry = do
  require (has_tag "custom" (get_field "type" entry))
  require (has_tag "todo.state" (get_field "customType" entry))
  as_record (get_field "data" entry)

unfoldable pub message_state : Fields → Option Fields
message_state entry = do
  require (has_tag "message" (get_field "type" entry))
  message ← as_record (get_field "message" entry)
  require (has_tag "toolResult" (get_field "role" message))
  require (has_tag "todo" (get_field "toolName" message))
  details ← as_record (get_field "details" message)
  as_record (get_field "state" details)

abbrev pub or_else {ℓ} : {A : Type ℓ} → Option A → Option A → Option A
or_else none b = b
or_else (some a) b = some a

-- The todos that an entry records.
unfoldable pub entry_todos : Value → Option Items
unfolding custom_state message_state
entry_todos value = do
  entry ← as_record value
  state ← or_else (custom_state entry) (message_state entry)
  as_items (get_field "todos" state)

abbrev pub texts_of : List Value → List Text
texts_of [] = []
texts_of (str s ∷ vs) = s ∷ texts_of vs
texts_of (_ ∷ vs) = texts_of vs

abbrev pub stored_replies : Value → List Text
stored_replies (arr vs) = texts_of (items vs)
stored_replies _ = []

-- `replies.toReversed().map((reply, index) => `[${replies.length - index}] ${reply}`)`
unfoldable pub numbered : ℕ → List Text → List Text
numbered n [] = []
numbered n (r ∷ rs) = (lit "[" ++ decimal n ++ lit "] " ++ r) ∷ numbered (n - 1) rs

unfoldable pub evidence : List Text → Text
evidence [] = []
evidence (r ∷ rs) =
    lit " — Replies (newest first): "
    ++ join (lit "; ") (numbered (length (r ∷ rs)) (reverse (r ∷ rs)))

unfoldable pub todo_line : ℕ → Text → List Text → Text
todo_line id text replies = lit "#" ++ decimal id ++ lit " " ++ text ++ evidence replies

unfoldable pub blocked_line : ℕ → Text → Text → List Text → Text
blocked_line id text reason replies =
    lit "#" ++ decimal id ++ lit " " ++ text ++ lit " — " ++ reason ++ evidence replies

-- `snapshot.pending` after one todo: work in progress goes to the front.
abbrev pub add_pending : Value → Text → TodoWorkSnapshot → TodoWorkSnapshot
add_pending status line s =
    if has_tag "in_progress" status
    then record s { pending = line ∷ s.pending }
    else if has_tag "pending" status
    then record s { pending = s.pending ++ line ∷ [] }
    else s

abbrev pub add_blocked :
    Value → Option Text → ℕ → Text → List Text → TodoWorkSnapshot → TodoWorkSnapshot
add_blocked status none id text replies s = s
add_blocked status (some reason) id text replies s =
    if has_tag "blocked" status
    then record s { blocked = s.blocked ++ blocked_line id text reason replies ∷ [] }
    else s

abbrev pub add_completed : Value → Text → TodoWorkSnapshot → TodoWorkSnapshot
add_completed status line s =
    if has_tag "completed" status then record s { completed = s.completed ++ line ∷ [] } else s

abbrev pub add_known : TodoWorkSnapshot → Fields → Option ℕ → Option Text → TodoWorkSnapshot
add_known s todo none text = s
add_known s todo (some id) none = s
add_known s todo (some id) (some text) =
    let status = get_field "status" todo in
    let replies = stored_replies (get_field "replies" todo) in
    let line = todo_line id text replies in
    add_completed status line (
      add_blocked status (as_text (get_field "reason" todo)) id text replies
        (add_pending status line s))

-- One round of the `reduce`.
unfoldable pub add_todo : TodoWorkSnapshot → Value → TodoWorkSnapshot
add_todo s (obj todo) =
    add_known s todo (as_count (get_field "id" todo)) (as_text (get_field "text" todo))
add_todo s _ = s

unfoldable pub add_todos : TodoWorkSnapshot → List Value → TodoWorkSnapshot
add_todos s [] = s
add_todos s (v ∷ vs) = add_todos (add_todo s v) vs

abbrev pub no_work : TodoWorkSnapshot
no_work = record { pending = []; blocked = []; completed = [] }

unfoldable pub latest_todos : List Value → TodoWorkSnapshot
latest_todos [] = no_work
latest_todos (entry ∷ older) = elim (entry_todos entry) [
  | none ↦ latest_todos older
  | some todos ↦ add_todos no_work (items todos)
]

unfoldable pub todo_work_snapshot : List Value → TodoWorkSnapshot
todo_work_snapshot entries = latest_todos (reverse entries)

unfoldable pub todo_classifier_intent : TodoWorkSnapshot → List Text
todo_classifier_intent s =
    map (λ t. lit "Current typed active todo: " ++ take 2000 t) (take 20 s.pending)
    ++ map (λ t. lit "Current typed blocked todo: " ++ take 2000 t) (take 20 s.blocked)
    ++ map (λ t. lit "Current typed completed todo (not active scope): " ++ take 2000 t)
        (take_last 20 s.completed)

unfoldable pub compaction_summary : Value → Option Text
compaction_summary value = do
  entry ← as_record value
  require (has_tag "compaction" (get_field "type" entry))
  summary ← as_text (get_field "summary" entry)
  require (not (is_empty (trim summary)))
  some summary

abbrev pub latest {ℓ} : {A : Type ℓ} → (Value → Option A) → List Value → Option A
latest read [] = none
latest read (v ∷ vs) = or_else (read v) (latest read vs)

unfoldable pub latest_compaction_summary : List Value → Option Text
latest_compaction_summary entries = latest compaction_summary (reverse entries)

unfoldable pub message_tokens : Value → Option ℕ
message_tokens value = do
  message ← as_record value
  require (has_tag "assistant" (get_field "role" message))
  usage ← as_record (get_field "usage" message)
  as_count (get_field "totalTokens" usage)

unfoldable pub assistant_usage_tokens : List Value → ℕ
assistant_usage_tokens [] = 0
assistant_usage_tokens (v ∷ vs) = elim (message_tokens v) [
  | none ↦ assistant_usage_tokens vs
  | some n ↦ n + assistant_usage_tokens vs
]

abbrev pub condition_of : GoalState → Text
condition_of (active s _) = s.condition
condition_of (ended _ s _ _) = s.condition

abbrev pub active_only : Option GoalState → Option (GoalFields × Option Text)
active_only (some (active s reason)) = some (s, reason)
active_only _ = none

unfoldable pub recover_latest_independent_goal :
    List GoalState → (Text → Bool) → Option (GoalFields × Option Text)
recover_latest_independent_goal states is_legacy =
    active_only (find (λ s. not (is_legacy (condition_of s))) (reverse states))
