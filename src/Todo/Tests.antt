-- ===== src/Todo/Tests.antt =====
-- A todo list at work: runs of the code, and the theorems at inputs that meet their hypotheses.
use metagenda.Base.{
  ℕ, ◌≡◌, refl, ◌↔◌, Option, none, some, [], ◌∷◌, if◌then◌else◌, find, succeed, fail, arith,
}
use metagenda.Base.Int.{ℤ, pos}
use metagenda.Base.Text.{Text, lit, text_eq, trim, decimal, trim_start, trim_end, is_space}
use metagenda.Base.Date.{to_iso}
use metagenda.Base.Sort.{sort}
use metagenda.Todo.Types.{
  in_progress, completed, Progress, immediate, Todo, TodoState, later, TodoRequest, TodoAction,
  ActionName, TodoTransition,
}
use metagenda.Todo.Format.{format_todo_list}
use metagenda.Todo.Transition.{has_id, not_found, find_target, transition_todo_state}
use metagenda.Todo.Wake.{wake_due_deferred_todos}
use metagenda.Todo.Parse.{
  parse_status, parse_remind_at, timezone_qualified_iso, trimmed, parse_todo_action,
}
use metagenda.Todo.Changes.{IsValid}
use metagenda.Todo.Invariant.{
  Extends, Missing, transition-IsValid, transition-Extends, transition-eq-fail_iff,
}
use metagenda.Todo.Waking.{Waking, wake-Waking}
use metagenda.Todo.Asking.{Asks, parse_todo_action-eq-succeed_iff}

abbrev sample : TodoState
sample = record {
  todos =
      (record {
        id = 1;
        text = lit "ship";
        replies = some (lit "why?" ∷ []);
        status_changed_at = none;
        progress = immediate in_progress;
      })
      ∷ (record {
        id = 2;
        text = lit "wait";
        replies = none;
        status_changed_at = none;
        progress = Progress.deferred (some 1000);
      })
      ∷ (record {
        id = 3;
        text = lit "done";
        replies = none;
        status_changed_at = some 900;
        progress = immediate completed;
      })
      ∷ [];
  next_id = 4;
}

sample-IsValid : IsValid sample
sample-IsValid = record {
  distinct = omega arith;
  below = omega arith;
  stamped = ((λ _. refl), ((λ _. refl), ((λ h. cc), tt)));
}

listing :
    format_todo_list sample.todos
    ≡ lit
        "[/] #1: ship · 1 reply\n[:] #2: wait — deferred until 1970-01-01T00:00:01.000Z\n[x] #3: done"
unfolding format_todo_list sort to_iso
listing = refl

replied : TodoTransition
replied = record {
  action = ActionName.reply;
  state = record sample {
    todos =
        (record {
          id = 1;
          text = lit "ship";
          replies = some (lit "why?" ∷ lit "because" ∷ []);
          status_changed_at = none;
          progress = immediate in_progress;
        })
        ∷ (record {
          id = 2;
          text = lit "wait";
          replies = none;
          status_changed_at = none;
          progress = Progress.deferred (some 1000);
        })
        ∷ (record {
          id = 3;
          text = lit "done";
          replies = none;
          status_changed_at = some 900;
          progress = immediate completed;
        })
        ∷ [];
  };
  message = lit "Reply attached to todo #1";
}

reply_run : transition_todo_state sample (TodoAction.reply 1 (lit "because")) none ≡ succeed replied
unfolding transition_todo_state find_target replied lit decimal
reply_run = refl

transition-IsValid_example : IsValid replied.state
transition-IsValid_example =
    transition-IsValid sample (TodoAction.reply 1 (lit "because")) none replied sample-IsValid
      reply_run

transition-Extends_example :
    (u : Todo) × (find (has_id 3) replied.state.todos ≡ some u)
    × Extends
        (record {
          id = 3;
          text = lit "done";
          replies = none;
          status_changed_at = some 900;
          progress = immediate completed;
        })
        u
transition-Extends_example =
    transition-Extends sample (TodoAction.reply 1 (lit "because")) none replied 3 _ reply_run
      (λ e. cc) refl

transition-eq-fail_iff_example :
    (transition_todo_state sample (TodoAction.toggle 9) (some 5)
      ≡ fail (not_found ActionName.toggle 9))
    ↔ Missing sample (TodoAction.toggle 9) (not_found ActionName.toggle 9)
transition-eq-fail_iff_example =
    transition-eq-fail_iff sample (TodoAction.toggle 9) (some 5) (not_found ActionName.toggle 9)

wake-Waking_example : Waking 1000 sample (wake_due_deferred_todos sample 1000)
wake-Waking_example = wake-Waking sample 1000 sample-IsValid.distinct

abbrev reminder : ℕ
reminder = 1709164799999

abbrev date_parse : Text → Option ℤ
date_parse t = if text_eq t (to_iso reminder) then some (pos reminder) else none

parse_run :
    parse_todo_action date_parse (TodoRequest.block (some 2) (some (lit "  no access "))) 0
    ≡ succeed (TodoAction.block 2 (lit "no access"))
unfolding parse_todo_action trimmed lit trim trim_start trim_end is_space
parse_run = refl

reminder_run :
    parse_todo_action date_parse
      (TodoRequest.status (some 2) (some later) (some (to_iso reminder)))
      0
    ≡ succeed (TodoAction.status 2 later (some reminder))
unfolding parse_todo_action parse_status parse_remind_at timezone_qualified_iso to_iso text_eq
reminder_run = refl

parse_todo_action-eq-succeed_iff_example :
    (parse_todo_action date_parse
        (TodoRequest.status (some 2) (some later) (some (to_iso reminder)))
        0
      ≡ succeed (TodoAction.status 2 later (some reminder)))
    ↔ Asks date_parse 0
        (TodoRequest.status (some 2) (some later) (some (to_iso reminder)))
        (TodoAction.status 2 later (some reminder))
parse_todo_action-eq-succeed_iff_example =
    parse_todo_action-eq-succeed_iff date_parse 0
      (TodoRequest.status (some 2) (some later) (some (to_iso reminder)))
      (TodoAction.status 2 later (some reminder))
