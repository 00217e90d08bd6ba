-- ===== src/Questions/Tests.antt =====
-- A question queue at work: runs of the code, and the theorems at inputs that meet their hypotheses.
use metagenda.Base.{◌≡◌, ◌≢◌, refl, none, some, [], ◌∷◌, false, arith}
use metagenda.Base.Text.{lit, trim, trim_start, trim_end, is_space}
use metagenda.Questions.Types.{
  pending, resolved, Asked, QuestionState, clear_resolved, ask, replace, empty_question_state,
}
use metagenda.Questions.Action.{apply_question_action}
use metagenda.Questions.Invariant.{IsValid, apply_question_action-IsValid}

abbrev which_name : Asked
which_name = record {
  question = lit " Which name? ";
  header = some (lit "  ");
  guess = none;
  options = some [];
}

abbrev two : QuestionState
two = record {
  questions =
      record {
        id = 1;
        asked = record which_name { question = lit "Which port?"; header = none; options = none };
        status = pending;
      }
      ∷ record {
        id = 3;
        asked = record which_name { question = lit "Which host?"; header = none; options = none };
        status = resolved (lit "local") false;
      }
      ∷ [];
  next_id = 4;
}

two-IsValid : IsValid two
two-IsValid = record {
  unique = ((omega arith, tt), (tt, tt));
  below = (omega arith, (omega arith, tt));
}

apply_question_action-IsValid_example :
    IsValid (apply_question_action two (replace 1 (lit "Moot") which_name))
apply_question_action-IsValid_example =
    apply_question_action-IsValid two (replace 1 (lit "Moot") which_name) two-IsValid

ask-ne : ask which_name ≢ clear_resolved
ask-ne e = absurd (cc)

ask_run : apply_question_action empty_question_state (ask which_name) ≡ record {
  questions =
      record {
        id = 1;
        asked = record {
          question = lit "Which name?";
          header = none;
          guess = none;
          options = none;
        };
        status = pending;
      }
      ∷ [];
  next_id = 2;
}
unfolding apply_question_action trim trim_start trim_end is_space lit
ask_run = refl

clear_run : (apply_question_action two clear_resolved).next_id ≡ 4
unfolding apply_question_action
clear_run = refl
