-- ===== src/Todo/Requests.antt =====
-- What `parseTodoAction` of pi/extensions/todo/state.ts lets through.
use metagenda.Base.{
  String, ℕ, ◌<◌, ◌≡◌, refl, subst, inl, inr, Option, none, some, false, arith, Bool-cases,
  Option-cases, Outcome, succeed,
}
use metagenda.Base.Int.{ℤ, pos, negsuc}
use metagenda.Base.Text.{Text, trim, is_empty}
use metagenda.Base.Trim.{trim_idem}
use metagenda.Todo.Types.{Settable, now, later, TodoRequest, TodoAction, TodoInputError, ActionName}
use metagenda.Todo.Parse.{
  refuse, trimmed, need_text, parse_remind_at, parse_status, parse_todo_action,
}

-- A text that is not empty, with no white space at its ends.
abbrev pub IsTrimmed : Text → Type 0
IsTrimmed t = (is_empty t ≡ false) × (trim t ≡ t)

abbrev pub IsWellFormed : ℕ → TodoAction → Type 0
IsWellFormed at (TodoAction.add t) = IsTrimmed t
IsWellFormed at (TodoAction.block _ t) = IsTrimmed t
IsWellFormed at (TodoAction.reply _ t) = IsTrimmed t
IsWellFormed at (TodoAction.status _ st (some remind)) = (st ≡ later) × (at < remind)
IsWellFormed at _ = Unit

trimmed-IsTrimmed : (o : Option Text) (t : Text) → trimmed o ≡ some t → IsTrimmed t
unfolding trimmed
trimmed-IsTrimmed none t h = absurd (cc)
trimmed-IsTrimmed (some s) t h = elim (Bool-cases (is_empty (trim s))) [
  | inl e ↦ absurd (ground arith)
  | inr e ↦ let q : trim s ≡ t = ground arith in rw (← q) (e, trim_idem s)
]

sent :
    {a b : TodoAction} → ◌≡◌ {A = Outcome TodoInputError TodoAction} (succeed a) (succeed b) → a ≡ b
sent h = cc

need_text-IsTrimmed :
    (a : ActionName) (m : String) (o : Option Text) (k : Text → TodoAction) (r : TodoAction)
    (P : TodoAction → Type 0)
    → ((t : Text) → IsTrimmed t → P (k t))
    → need_text a m o (λ t. succeed (k t)) ≡ succeed r
    → P r
unfolding refuse
need_text-IsTrimmed a m o k r P h e = elim (Option-cases (trimmed o)) [
  | inl q ↦ absurd (ground arith)
  | inr (t, q) ↦ let same : k t ≡ r = ground arith in subst P same (h t (trimmed-IsTrimmed o t q))
]

parse_remind_at-IsWellFormed :
    (date_parse : Text → Option ℤ) (id : ℕ) (st : Settable) (text : Text) (at : ℕ) (r : TodoAction)
    → parse_remind_at date_parse id st text at ≡ succeed r
    → IsWellFormed at r
unfolding parse_remind_at refuse
parse_remind_at-IsWellFormed date_parse id (now i) text at r h = absurd (ground arith)
parse_remind_at-IsWellFormed date_parse id later text at r h = split (date_parse text) refl
  where
    split : (o : Option ℤ) → date_parse text ≡ o → IsWellFormed at r
    split none e = absurd (ground arith)
    split (some (negsuc n)) e = absurd (ground arith)
    split (some (pos n)) e =
        let same : r ≡ TodoAction.status id later (some n) = ground arith in
        rw same (refl, ground arith)

parse_status-IsWellFormed :
    (date_parse : Text → Option ℤ) (id : ℕ) (st : Option Settable) (text : Option Text) (at : ℕ)
    (r : TodoAction)
    → parse_status date_parse id st text at ≡ succeed r
    → IsWellFormed at r
unfolding parse_status refuse
parse_status-IsWellFormed date_parse id none text at r h = absurd (cc)
parse_status-IsWellFormed date_parse id (some st) none at r h =
    let same : r ≡ TodoAction.status id st none = cc in rw same tt
parse_status-IsWellFormed date_parse id (some st) (some text) at r h =
    parse_remind_at-IsWellFormed date_parse id st text at r h

-- An accepted request is a well-formed action: its text is trimmed and not empty, and a reminder
-- comes only with the deferred status and lies in the future.
pub parse-IsWellFormed :
    (date_parse : Text → Option ℤ) (q : TodoRequest) (at : ℕ) (r : TodoAction)
    → parse_todo_action date_parse q at ≡ succeed r
    → IsWellFormed at r
unfolding parse_todo_action refuse
parse-IsWellFormed d TodoRequest.list at r h = subst (IsWellFormed at) (sent h) tt
parse-IsWellFormed d (TodoRequest.detail (some n)) at r h = subst (IsWellFormed at) (sent h) tt
parse-IsWellFormed d (TodoRequest.add text) at r h =
    need_text-IsTrimmed ActionName.add _ text TodoAction.add r (IsWellFormed at) (λ t k. k) h
parse-IsWellFormed d (TodoRequest.toggle (some n)) at r h = subst (IsWellFormed at) (sent h) tt
parse-IsWellFormed d (TodoRequest.status (some n) st remind) at r h =
    parse_status-IsWellFormed d n st remind at r h
parse-IsWellFormed d (TodoRequest.block (some n) reason) at r h =
    need_text-IsTrimmed ActionName.block _ reason (TodoAction.block n) r (IsWellFormed at)
      (λ t k. k) h
parse-IsWellFormed d (TodoRequest.reply (some n) text) at r h =
    need_text-IsTrimmed ActionName.reply _ text (TodoAction.reply n) r (IsWellFormed at) (λ t k. k)
      h
parse-IsWellFormed d (TodoRequest.unblock (some n)) at r h = subst (IsWellFormed at) (sent h) tt
parse-IsWellFormed d (TodoRequest.clear none) at r h = subst (IsWellFormed at) (sent h) tt
parse-IsWellFormed d _ at r h = absurd (cc)
