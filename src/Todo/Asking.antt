-- ===== src/Todo/Asking.antt =====
-- Which requests `parseTodoAction` of pi/extensions/todo/state.ts accepts, and as which actions.
use metagenda.Base.{
  ℕ, ◌<◌, ◌≡◌, ◌↔◌, refl, subst, inl, inr, Option, none, some, true, false, String, Outcome,
  succeed, arith, Bool-cases,
}
use metagenda.Base.Int.{ℤ, pos, negsuc}
use metagenda.Base.Text.{Text, trim, is_empty}
use metagenda.Todo.Types.{Settable, now, later, TodoRequest, TodoAction, TodoInputError, ActionName}
use metagenda.Todo.Parse.{
  refuse, trimmed, need_text, timezone_qualified_iso, parse_remind_at, parse_status,
  parse_todo_action,
}
use metagenda.Todo.Timestamp.{Qualified, timezone_qualified_iso_iff}

-- The text has something in it but white space.
abbrev pub Filled : Text → Type 0
Filled s = is_empty (trim s) ≡ false

-- What a request asks for at a time. Only the deferred status has a reminder: a time of the accepted
-- form, with its zone, that `Date.parse` reads as a later one.
pub data Asks (date_parse : Text → Option ℤ) (at : ℕ) : TodoRequest → TodoAction → Type 0 where
  lists : Asks date_parse at TodoRequest.list TodoAction.list
  details : (n : ℕ) → Asks date_parse at (TodoRequest.detail (some n)) (TodoAction.detail n)
  adds :
      (s : Text)
      → Filled s
      → Asks date_parse at (TodoRequest.add (some s)) (TodoAction.add (trim s))
  toggles : (n : ℕ) → Asks date_parse at (TodoRequest.toggle (some n)) (TodoAction.toggle n)
  settles :
      (n : ℕ) (st : Settable)
      → Asks date_parse at
          (TodoRequest.status (some n) (some st) none)
          (TodoAction.status n st none)
  reminds :
      (n m : ℕ) (s : Text)
      → Qualified s
      → date_parse s ≡ some (pos m)
      → at < m
      → Asks date_parse at
          (TodoRequest.status (some n) (some later) (some s))
          (TodoAction.status n later (some m))
  blocks :
      (n : ℕ) (s : Text)
      → Filled s
      → Asks date_parse at (TodoRequest.block (some n) (some s)) (TodoAction.block n (trim s))
  replies :
      (n : ℕ) (s : Text)
      → Filled s
      → Asks date_parse at (TodoRequest.reply (some n) (some s)) (TodoAction.reply n (trim s))
  unblocks : (n : ℕ) → Asks date_parse at (TodoRequest.unblock (some n)) (TodoAction.unblock n)
  clears : Asks date_parse at (TodoRequest.clear none) TodoAction.clear

sent :
    {a b : TodoAction} → ◌≡◌ {A = Outcome TodoInputError TodoAction} (succeed a) (succeed b) → a ≡ b
sent h = cc

trimmed-Filled : (s : Text) → Filled s → trimmed (some s) ≡ some (trim s)
unfolding trimmed
trimmed-Filled s h = rw h refl

-- A text that is needed was there, and filled.
need_text-Filled :
    (a : ActionName) (m : String) (o : Option Text) (k : Text → TodoAction) (r : TodoAction)
    → need_text a m o (λ t. succeed (k t)) ≡ succeed r
    → (s : Text) × (o ≡ some s) × Filled s × (k (trim s) ≡ r)
unfolding refuse trimmed
need_text-Filled a m none k r e = absurd (cc)
need_text-Filled a m (some s) k r e = elim (Bool-cases (is_empty (trim s))) [
  | inl t ↦ absurd (ground arith)
  | inr t ↦ (s, refl, t, ground arith)
]

module _ (date_parse : Text → Option ℤ) (at : ℕ) where
  remind-Asks :
      (n : ℕ) (st : Settable) (s : Text) (r : TodoAction)
      → parse_remind_at date_parse n st s at ≡ succeed r
      → Asks date_parse at (TodoRequest.status (some n) (some st) (some s)) r
  unfolding parse_remind_at refuse
  remind-Asks n (now i) s r e = absurd (ground arith)
  remind-Asks n later s r e = elim (Bool-cases (timezone_qualified_iso s)) [
    | inr f ↦ absurd (ground arith)
    | inl t ↦ split t (date_parse s) refl
  ]
    where
      split :
          timezone_qualified_iso s ≡ true
          → (o : Option ℤ) → date_parse s ≡ o
          → Asks date_parse at (TodoRequest.status (some n) (some later) (some s)) r
      split t none d = absurd (ground arith)
      split t (some (negsuc m)) d = absurd (ground arith)
      split t (some (pos m)) d =
          let same : TodoAction.status n later (some m) ≡ r = ground arith in
          let late : at < m = ground arith in
          subst (Asks date_parse at (TodoRequest.status (some n) (some later) (some s))) same
            (reminds n m s ((timezone_qualified_iso_iff s).0 t) d late)

  status-Asks :
      (n : ℕ) (st : Option Settable) (o : Option Text) (r : TodoAction)
      → parse_status date_parse n st o at ≡ succeed r
      → Asks date_parse at (TodoRequest.status (some n) st o) r
  unfolding parse_status refuse
  status-Asks n none o r e = absurd (cc)
  status-Asks n (some st) none r e =
      subst (Asks date_parse at (TodoRequest.status (some n) (some st) none)) (sent e)
        (settles n st)
  status-Asks n (some st) (some s) r e = remind-Asks n st s r e

  parse-Asks :
      (q : TodoRequest) (r : TodoAction)
      → parse_todo_action date_parse q at ≡ succeed r
      → Asks date_parse at q r
  unfolding parse_todo_action refuse
  parse-Asks TodoRequest.list r e = subst (Asks date_parse at TodoRequest.list) (sent e) lists
  parse-Asks (TodoRequest.detail (some n)) r e =
      subst (Asks date_parse at (TodoRequest.detail (some n))) (sent e) (details n)
  parse-Asks (TodoRequest.add o) r e =
      let (s, q, f, k) = need_text-Filled ActionName.add _ o TodoAction.add r e in
      rw q (subst (Asks date_parse at (TodoRequest.add (some s))) k (adds s f))
  parse-Asks (TodoRequest.toggle (some n)) r e =
      subst (Asks date_parse at (TodoRequest.toggle (some n))) (sent e) (toggles n)
  parse-Asks (TodoRequest.status (some n) st o) r e = status-Asks n st o r e
  parse-Asks (TodoRequest.block (some n) o) r e =
      let (s, q, f, k) = need_text-Filled ActionName.block _ o (TodoAction.block n) r e in
      rw q (subst (Asks date_parse at (TodoRequest.block (some n) (some s))) k (blocks n s f))
  parse-Asks (TodoRequest.reply (some n) o) r e =
      let (s, q, f, k) = need_text-Filled ActionName.reply _ o (TodoAction.reply n) r e in
      rw q (subst (Asks date_parse at (TodoRequest.reply (some n) (some s))) k (replies n s f))
  parse-Asks (TodoRequest.unblock (some n)) r e =
      subst (Asks date_parse at (TodoRequest.unblock (some n))) (sent e) (unblocks n)
  parse-Asks (TodoRequest.clear none) r e =
      subst (Asks date_parse at (TodoRequest.clear none)) (sent e) clears
  parse-Asks _ r e = absurd (cc)

  Asks-parse :
      (q : TodoRequest) (r : TodoAction)
      → Asks date_parse at q r
      → parse_todo_action date_parse q at ≡ succeed r
  unfolding parse_todo_action parse_status parse_remind_at
  Asks-parse _ _ lists = refl
  Asks-parse _ _ (details n) = refl
  Asks-parse _ _ (adds s f) = rw (trimmed-Filled s f, need_text)
  Asks-parse _ _ (toggles n) = refl
  Asks-parse _ _ (settles n st) = refl
  Asks-parse _ _ (reminds n m s q d l) =
      let form = (timezone_qualified_iso_iff s).1 q in rw (form, d) (ground arith)
  Asks-parse _ _ (blocks n s f) = rw (trimmed-Filled s f, need_text)
  Asks-parse _ _ (replies n s f) = rw (trimmed-Filled s f, need_text)
  Asks-parse _ _ (unblocks n) = refl
  Asks-parse _ _ clears = refl

  -- A request is accepted as an action exactly where it asks for it: with the ID that the action
  -- needs, with a text or a reason that is not blank, which is trimmed, with a status, with a reminder
  -- for the deferred status only, of the form yyyy-mm-ddT... in one line with Z or an offset of hours
  -- and minutes, which `Date.parse` reads as a time in the future, and with no ID for a clear. Any
  -- other request is refused.
  pub parse_todo_action-eq-succeed_iff :
      (q : TodoRequest) (r : TodoAction)
      → (parse_todo_action date_parse q at ≡ succeed r) ↔ Asks date_parse at q r
  parse_todo_action-eq-succeed_iff q r = (parse-Asks q r, Asks-parse q r)
