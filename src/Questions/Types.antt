-- ===== src/Questions/Types.antt =====
-- The data of pi/extensions/questions/state.ts.
use metagenda.Base.{ℕ, Option, List, [], Bool}
use metagenda.Base.Text.{Text}

pub record QuestionOption : Type 0 where
  pub label : Text
  pub description : Option Text

-- `pending`, or `resolved` with `answer` and `withdrawn`.
pub data QuestionStatus : Type 0 where
  pending : QuestionStatus
  resolved : Text → Bool → QuestionStatus

-- What a question asks.
pub record Asked : Type 0 where
  pub question : Text
  pub header : Option Text
  pub guess : Option Text
  pub options : Option (List QuestionOption)

pub record Question : Type 0 where
  pub id : ℕ
  pub asked : Asked
  pub status : QuestionStatus

pub record QuestionState : Type 0 where
  pub questions : List Question
  pub next_id : ℕ

pub data QuestionAction : Type 0 where
  list clear_resolved : QuestionAction
  ask : Asked → QuestionAction
  resolve withdraw : ℕ → Text → QuestionAction
  replace : ℕ → Text → Asked → QuestionAction
  reopen : ℕ → QuestionAction

abbrev pub empty_question_state : QuestionState
empty_question_state = record { questions = []; next_id = 1 }
