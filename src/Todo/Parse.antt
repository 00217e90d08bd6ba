-- ===== src/Todo/Parse.antt =====
-- `parseTodoAction` of pi/extensions/todo/state.ts. `date_parse` is `Date.parse`, whose result on
-- the forms that the pattern lets through is up to the implementation: `none` is NaN.
use metagenda.Base.{
  ℕ, Option, none, some, [], ◌∷◌, Bool, true, false, not, ◌&&◌, ◌||◌, leb, ◌==◌, if◌then◌else◌, all,
  Outcome, succeed, fail, String,
}
use metagenda.Base.Int.{ℤ, pos, negsuc}
use metagenda.Base.Text.{Text, lit, trim, is_empty}
use mathlib.Core.List.{reverse}
use metagenda.Todo.Types.{Settable, now, later, TodoRequest, TodoAction, ActionName, TodoInputError}

unfoldable pub is_digit : ℕ → Bool
is_digit c = leb 48 c && leb c 57

-- `.` of a pattern: no line terminator.
unfoldable pub is_dot : ℕ → Bool
is_dot c = not (c == 10 || c == 13 || c == 0x2028 || c == 0x2029)

abbrev pub some_dots : Text → Bool
some_dots s = not (is_empty s) && all is_dot s

-- `.+(?:Z|[+-]\d{2}:\d{2})$` on a reversed text.
unfoldable pub zone_reversed : Text → Bool
unfolding is_digit is_dot
zone_reversed (m2 ∷ m1 ∷ colon ∷ h2 ∷ h1 ∷ sign ∷ body) =
    (m2 == b'Z' && some_dots (m1 ∷ colon ∷ h2 ∷ h1 ∷ sign ∷ body))
    || (is_digit m2
        && is_digit m1
        && colon == b':'
        && is_digit h2
        && is_digit h1
        && (sign == b'+' || sign == b'-')
        && some_dots body)
zone_reversed (z ∷ body) = z == b'Z' && some_dots body
zone_reversed [] = false

-- `/^\d{4}-\d{2}-\d{2}T.+(?:Z|[+-]\d{2}:\d{2})$/`
unfoldable pub timezone_qualified_iso : Text → Bool
unfolding is_digit zone_reversed
timezone_qualified_iso (y1 ∷ y2 ∷ y3 ∷ y4 ∷ s1 ∷ m1 ∷ m2 ∷ s2 ∷ d1 ∷ d2 ∷ t ∷ rest) =
    all is_digit (y1 ∷ y2 ∷ y3 ∷ y4 ∷ m1 ∷ m2 ∷ d1 ∷ d2 ∷ [])
    && s1 == b'-'
    && s2 == b'-'
    && t == b'T'
    && zone_reversed (reverse rest)
timezone_qualified_iso _ = false

unfoldable pub refuse : ActionName → String → Outcome TodoInputError TodoAction
refuse action message = fail (record { action = action; message = lit message })

-- `request.text?.trim()`, where an empty text counts as none.
unfoldable pub trimmed : Option Text → Option Text
unfolding trim
trimmed none = none
trimmed (some t) = if is_empty (trim t) then none else some (trim t)

abbrev pub need_id :
    ActionName
    → String
    → Option ℕ
    → (ℕ → Outcome TodoInputError TodoAction)
    → Outcome TodoInputError TodoAction
need_id action message none k = refuse action message
need_id action message (some id) k = k id

abbrev pub need_text :
    ActionName
    → String
    → Option Text
    → (Text → Outcome TodoInputError TodoAction)
    → Outcome TodoInputError TodoAction
need_text action message text k = elim (trimmed text) [
  | none ↦ refuse action message
  | some t ↦ k t
]

abbrev pub is_later : Settable → Bool
is_later later = true
is_later (now _) = false

-- `!Number.isFinite(remindAt) || remindAt <= now` fails.
abbrev pub future : ℕ → Option ℤ → Option ℕ
future at none = none
future at (some (negsuc _)) = none
future at (some (pos t)) = if leb t at then none else some t

module _ (date_parse : Text → Option ℤ) where
  unfoldable pub parse_remind_at : ℕ → Settable → Text → ℕ → Outcome TodoInputError TodoAction
  parse_remind_at id status text at =
      if not (is_later status)
      then refuse ActionName.status "remindAt is valid only for deferred status"
      else if not (timezone_qualified_iso text)
      then refuse ActionName.status "remindAt must be a timezone-qualified ISO-8601 time"
      else elim (future at (date_parse text)) [
        | none ↦ refuse ActionName.status "remindAt must be a valid future time"
        | some t ↦ succeed (TodoAction.status id status (some t))
      ]

  unfoldable pub parse_status :
      ℕ → Option Settable → Option Text → ℕ → Outcome TodoInputError TodoAction
  parse_status id none remind_at at = refuse ActionName.status "status required for status"
  parse_status id (some status) none at = succeed (TodoAction.status id status none)
  parse_status id (some status) (some text) at = parse_remind_at id status text at

  unfoldable pub parse_todo_action : TodoRequest → ℕ → Outcome TodoInputError TodoAction
  parse_todo_action TodoRequest.list at = succeed TodoAction.list
  parse_todo_action (TodoRequest.detail id) at =
      need_id ActionName.detail "id required for detail" id (λ n. succeed (TodoAction.detail n))
  parse_todo_action (TodoRequest.add text) at =
      need_text ActionName.add "text required for add" text (λ t. succeed (TodoAction.add t))
  parse_todo_action (TodoRequest.toggle id) at =
      need_id ActionName.toggle "id required for toggle" id (λ n. succeed (TodoAction.toggle n))
  parse_todo_action (TodoRequest.status id status remind_at) at =
      need_id ActionName.status "id required for status" id
        (λ n. parse_status n status remind_at at)
  parse_todo_action (TodoRequest.block id reason) at =
      need_id ActionName.block "id required for block" id (λ n.
        need_text ActionName.block "reason required for block" reason
          (λ t. succeed (TodoAction.block n t)))
  parse_todo_action (TodoRequest.reply id text) at =
      need_id ActionName.reply "id required for reply" id (λ n.
        need_text ActionName.reply "text required for reply" text
          (λ t. succeed (TodoAction.reply n t)))
  parse_todo_action (TodoRequest.unblock id) at =
      need_id ActionName.unblock "id required for unblock" id (λ n. succeed (TodoAction.unblock n))
  parse_todo_action (TodoRequest.clear none) at = succeed TodoAction.clear
  parse_todo_action (TodoRequest.clear (some _)) at =
      refuse ActionName.clear "id is not valid for clear"
