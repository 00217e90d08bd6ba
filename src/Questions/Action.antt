-- ===== src/Questions/Action.antt =====
-- `applyQuestionAction` and `pendingQuestions` of pi/extensions/questions/state.ts.
use metagenda.Base.{
  ℕ, ◌+◌, Option, none, some, List, [], ◌∷◌, ◌++◌, map, keep, Bool, true, false, not, ◌&&◌, ◌==◌,
  if◌then◌else◌,
}
use metagenda.Base.Text.{Text, trim}
use metagenda.Questions.Types.{
  QuestionOption, QuestionStatus, pending, resolved, Asked, Question, QuestionState, QuestionAction,
  list, clear_resolved, ask, resolve, withdraw, replace, reopen,
}

-- `...(text ? { [name]: text } : {})`
abbrev pub present : Option Text → Option Text
present none = none
present (some []) = none
present (some (c ∷ cs)) = some (c ∷ cs)

abbrev pub trimmed : Option Text → Option Text
trimmed none = none
trimmed (some t) = present (some (trim t))

abbrev pub present_options : Option (List QuestionOption) → Option (List QuestionOption)
present_options none = none
present_options (some []) = none
present_options (some (o ∷ os)) = some (o ∷ os)

abbrev pub new_question : ℕ → Asked → Question
new_question id a = record {
  id = id;
  asked = record {
    question = trim a.question;
    header = trimmed a.header;
    guess = trimmed a.guess;
    options = present_options a.options;
  };
  status = pending;
}

abbrev pub is_pending : QuestionStatus → Bool
is_pending pending = true
is_pending (resolved _ _) = false

abbrev pub resolve_one : ℕ → Text → Question → Question
resolve_one id answer q =
    if q.id == id && is_pending q.status
    then record q { status = resolved (trim answer) false }
    else q

abbrev pub withdraw_one : ℕ → Text → Question → Question
withdraw_one id reason q =
    if q.id == id then record q { status = resolved (trim reason) true } else q

abbrev pub reopened : Question → Question
reopened q = record {
  id = q.id;
  asked = record {
    question = q.asked.question;
    header = present q.asked.header;
    guess = present q.asked.guess;
    options = q.asked.options;
  };
  status = pending;
}

abbrev pub reopen_one : ℕ → Question → Question
reopen_one id q = if q.id == id && not (is_pending q.status) then reopened q else q

unfoldable pub pending_questions : QuestionState → List Question
pending_questions state = keep (λ q. is_pending q.status) state.questions

unfoldable pub apply_question_action : QuestionState → QuestionAction → QuestionState
unfolding pending_questions
apply_question_action s list = s
apply_question_action s (ask a) = record {
  questions = s.questions ++ new_question s.next_id a ∷ [];
  next_id = s.next_id + 1;
}
apply_question_action s (resolve id answer) = record s {
  questions = map (resolve_one id answer) s.questions;
}
apply_question_action s (withdraw id reason) = record s {
  questions = map (withdraw_one id reason) s.questions;
}
apply_question_action s (replace id reason a) = record {
  questions = map (withdraw_one id reason) s.questions ++ new_question s.next_id a ∷ [];
  next_id = s.next_id + 1;
}
apply_question_action s (reopen id) = record s { questions = map (reopen_one id) s.questions }
apply_question_action s clear_resolved = record s { questions = pending_questions s }
