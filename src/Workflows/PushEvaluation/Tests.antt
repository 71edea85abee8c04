-- ===== src/Workflows/PushEvaluation/Tests.antt =====
-- Push evaluations on small concrete inputs.
use kai_daemon.State.Tests.{rows_yaml}
use kai_daemon.Base.{◌*◌, ◌≡◌, refl, none, List, [], ◌∷◌, arith}
use kai_daemon.Base.Outcome.{return}
use kai_daemon.Base.Text.{Unicode, chars, starts_with}
use kai_daemon.Base.Time.{aware, day}
use kai_daemon.State.Table.{rows, PlainYaml}
use kai_daemon.State.PushHistory.{PushRecord, load_history}
use kai_daemon.Workflows.PushEvaluation.{
  Insight, Chance, Stores, push, parse_outcome, inner_life_push_evaluation,
}
use kai_daemon.Workflows.PushEvaluation.Spacing.{
  Event, evaluates, restarts, IsSpaced, run, run-IsSpaced,
}
use kai_daemon.Workflows.PushEvaluation.Verdict.{Verdict, evaluation-Verdict}

-- Blanks are the only space, and every letter is upper case.
abbrev plain : Unicode
plain = record {
  is_space = λ c. starts_with (c ∷ []) (chars " ");
  upper = λ c. c ∷ [];
  lower = λ c. c ∷ [];
}

abbrev records : PlainYaml PushRecord
records = record {
  Document = List PushRecord;
  dump = λ l. l;
  parse = λ l. rows l;
  parse-dump = λ l h. refl;
}

abbrev insight : Insight
insight = record {
  thought_content = "a thought";
  fascination_topic = none;
  threads_pollinated = [];
  now = 0;
  push_ceiling_days = 7;
}

abbrev chance : Chance
chance = record {
  infer = λ p. return (chars "PUSH: now");
  item_id = "i";
  item_created = aware 1;
  record_id = "r";
  record_time = aware 1;
}

abbrev later : Chance
later = record chance { item_id = "j"; record_id = "q"; record_time = aware (8 * day) }

abbrev empty : Stores plain rows_yaml records
empty = record {
  history = record { records = []; file = none };
  holding = record { items = []; file = none };
  prompts = [];
}

evaluation-Verdict_example :
    Verdict plain rows_yaml records insight chance empty
      (inner_life_push_evaluation plain rows_yaml records insight chance empty)
evaluation-Verdict_example = evaluation-Verdict plain rows_yaml records insight chance empty

abbrev events : List Event
events =
    evaluates insight chance ∷ restarts ∷ evaluates (record insight { now = 8 * day }) later ∷ []

empty-IsSpaced : IsSpaced plain rows_yaml records 7 empty.history
unfolding load_history
empty-IsSpaced = record { spaced = tt; reloads = refl }

run-IsSpaced_example :
    IsSpaced plain rows_yaml records 7 (run plain rows_yaml records empty events).history
run-IsSpaced_example =
    run-IsSpaced plain rows_yaml records 7 events empty
      ((omega arith, 1, refl, omega arith), (tt, ((omega arith, 8 * day, refl, omega arith), tt)))
      empty-IsSpaced

pushed : parse_outcome plain (chars " PUSH: now") ≡ (push, chars "now")
unfolding parse_outcome chars starts_with
pushed = refl
