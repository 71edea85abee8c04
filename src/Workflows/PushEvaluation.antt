-- ===== src/Workflows/PushEvaluation.antt =====
-- src/kai_daemon/workflows/inner_life_push_evaluation.py: whether an insight of the inner life is
-- kept quiet, held, or pushed to the user.
pub mod Spacing
pub mod Verdict
mod Tests
use Prim.Native.Char.{Char}
use Prim.Native.String.{◌++◌ as ◌<>◌}
use kai_daemon.Base.{
  ℕ, String, Bool, true, false, Option, none, some, List, [], ◌∷◌, ◌++◌, ◌||◌, length, take,
  if◌then◌else◌,
}
use kai_daemon.Base.Outcome.{Outcome, return, raise}
use kai_daemon.Base.Text.{
  Unicode, chars, joined, same_char, strip, to_upper, starts_with, same_text, first_token, after,
  text_or,
}
use kai_daemon.Base.Time.{Stamp}
use kai_daemon.State.Types.{inner_life_pipeline}
use kai_daemon.State.Table.{PlainYaml}
use kai_daemon.State.Holding.{
  HoldingYaml, HoldingItem, HoldingStore, connection, reflective, medium, high, Urgency, new_item,
  write,
}
use kai_daemon.State.PushHistory.{PushRecord, PushHistory, record_push, within_ceiling}

pub data PushOutcome : Type 0 where
  silence holding_item push : PushOutcome

pub record PushEvaluationResult : Type 0 where
  pub outcome : PushOutcome
  pub skipped_ceiling : Bool

-- the characters of `.strip(": ")`
unfoldable pub is_colon_or_blank : Char → Bool
unfolding chars
is_colon_or_blank c = starts_with (chars ":") (c ∷ []) || starts_with (chars " ") (c ∷ [])

unfoldable pub parse_outcome : Unicode → List Char → PushOutcome × List Char
unfolding chars strip to_upper starts_with same_text first_token after is_colon_or_blank
parse_outcome u response =
    let stripped = strip u.is_space response in
    let upper = to_upper u stripped in
    let first = first_token u.is_space upper in
    if starts_with upper (chars "PUSH:")
    then (push, strip u.is_space (after "PUSH:" stripped))
    else if starts_with upper (chars "HOLDING_ITEM:")
    then (holding_item, strip u.is_space (after "HOLDING_ITEM:" stripped))
    else if same_text upper (chars "SILENCE")
    then (silence, [])
    else if same_text first (chars "PUSH")
    then (push, strip is_colon_or_blank (after "PUSH" stripped))
    else if same_text first (chars "HOLDING_ITEM")
    then (holding_item, strip is_colon_or_blank (after "HOLDING_ITEM" stripped))
    else (silence, [])

-- What the prompt's template is filled with.
pub record Prompt : Type 0 where
  pub thought : String
  pub fascination : String
  pub thread_count : ℕ

-- The arguments of the workflow beside its stores; `now` is given or read from the clock.
pub record Insight : Type 0 where
  pub thought_content : String
  pub fascination_topic : Option String
  pub threads_pollinated : List String
  pub now : ℕ
  pub push_ceiling_days : ℕ

-- What comes from outside in one evaluation: the model's answer or exception, the new ids, and the
-- clock as it is read for the item and for the record.
pub record Chance : Type 0 where
  pub infer : Prompt → Outcome (List Char)
  pub item_id : String
  pub item_created : Stamp
  pub record_id : String
  pub record_time : Stamp

-- `fascination_topic or "(none)"`
abbrev pub topic_or_none : Option String → String
topic_or_none none = "(none)"
topic_or_none (some topic) = if same_text (chars topic) [] then "(none)" else topic

abbrev pub trigger_of : Option String → String
trigger_of none = "Inner life insight"
trigger_of (some topic) =
    if same_text (chars topic) [] then "Inner life insight" else "Inner life fascination: " <> topic

abbrev pub prompt_of : Insight → Prompt
prompt_of i = record {
  thought = i.thought_content;
  fascination = topic_or_none i.fascination_topic;
  thread_count = length i.threads_pollinated;
}

abbrev pub urgency_of : PushOutcome → Urgency
urgency_of push = high
urgency_of holding_item = medium
urgency_of silence = medium

abbrev pub item_of : Insight → Chance → PushOutcome → List Char → HoldingItem
item_of i c outcome description = record {
  id = c.item_id;
  content = text_or description i.thought_content;
  type = connection;
  relevance_trigger = trigger_of i.fascination_topic;
  register_needed = reflective;
  urgency = urgency_of outcome;
  created = c.item_created;
  surfaced = none;
  discharge_notes = none;
  source_workflow = "inner_life_push_evaluation";
  epistemic_origin = inner_life_pipeline;
  thread_ids = i.threads_pollinated;
  contradiction_id = none;
}

-- `content[:200]`
unfoldable pub summary_of : String → String
unfolding chars
summary_of content = joined (take 200 (chars content))

module _ (u : Unicode) (holding_yaml : HoldingYaml) (history_yaml : PlainYaml PushRecord) where
  -- The two stores, and the prompts that were sent to the model.
  pub record Stores : Type 0 where
    pub history : PushHistory history_yaml
    pub holding : HoldingStore holding_yaml
    pub prompts : List Prompt

  -- `if outcome == PushOutcome.PUSH`
  unfoldable pub record_if_push : Chance → PushOutcome → String → Stores → Stores
  unfolding record_push summary_of
  record_if_push c push content s = record s {
    history = record_push history_yaml c.record_id c.record_time (summary_of content) s.history;
  }
  record_if_push c holding_item content s = s
  record_if_push c silence content s = s

  -- the rest of the workflow once the item is constructed and written, or not
  unfoldable pub after_write :
      Chance
      → PushOutcome
      → String
      → Outcome HoldingItem × HoldingStore holding_yaml
      → Stores
      → Outcome PushEvaluationResult × Stores
  unfolding record_if_push
  after_write c outcome content (raise e, holding) s = (raise e, record s { holding = holding })
  after_write c outcome content (return item, holding) s = (
    return (record { outcome = outcome; skipped_ceiling = false }),
    record_if_push c outcome content (record s { holding = holding }),
  )

  abbrev pub try_write :
      Outcome HoldingItem
      → HoldingStore holding_yaml
      → Outcome HoldingItem × HoldingStore holding_yaml
  try_write (raise e) holding = (raise e, holding)
  try_write (return item) holding = write holding_yaml item holding

  -- from the parsed answer on
  unfoldable pub act_on :
      Insight → Chance → PushOutcome × List Char → Stores → Outcome PushEvaluationResult × Stores
  unfolding new_item write after_write
  act_on i c (silence, description) s =
      (return (record { outcome = silence; skipped_ceiling = false }), s)
  act_on i c (holding_item, description) s =
      after_write c holding_item (text_or description i.thought_content)
        (try_write (new_item (item_of i c holding_item description)) s.holding) s
  act_on i c (push, description) s =
      after_write c push (text_or description i.thought_content)
        (try_write (new_item (item_of i c push description)) s.holding) s

  -- from the prompt on
  unfoldable pub ask : Insight → Chance → Stores → Outcome PushEvaluationResult × Stores
  unfolding parse_outcome act_on
  ask i c s =
      let sent = record s { prompts = s.prompts ++ prompt_of i ∷ [] } in
      elim (c.infer (prompt_of i)) [
        | raise e ↦ (raise e, sent)
        | return response ↦ act_on i c (parse_outcome u response) sent
      ]

  unfoldable pub inner_life_push_evaluation :
      Insight → Chance → Stores → Outcome PushEvaluationResult × Stores
  unfolding within_ceiling ask
  inner_life_push_evaluation i c s =
      elim (within_ceiling i.push_ceiling_days i.now s.history.records) [
        | raise e ↦ (raise e, s)
        | return true ↦ (return (record { outcome = silence; skipped_ceiling = true }), s)
        | return false ↦ ask i c s
      ]
