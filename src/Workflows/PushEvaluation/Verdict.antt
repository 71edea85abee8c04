-- ===== src/Workflows/PushEvaluation/Verdict.antt =====
-- What each outcome of an evaluation has done to the stores.
use Prim.Native.Char.{Char}
use kai_daemon.Base.{
  refl, ◌≡◌, ◌⊎◌, String, Bool, Bool-cases, inl, inr, subst, true, false, none, List, [], ◌∷◌, ◌++◌,
  arith,
}
use kai_daemon.Base.Dict
use kai_daemon.Base.Outcome.{Outcome, Exception, value_error, return, raise, Outcome-cases}
use kai_daemon.Base.Text.{
  Unicode, chars, strip, to_upper, starts_with, first_token, same_text, text_or,
}
use kai_daemon.State.Table.{store, PlainYaml}
use kai_daemon.State.Holding.{HoldingYaml, HoldingItem, Urgency, medium, high, new_item}
use kai_daemon.State.Holding.Lifecycle.{write_lem}
use kai_daemon.State.PushHistory.{PushRecord, record_push, within_ceiling}
use kai_daemon.Workflows.PushEvaluation.{
  Insight, Chance, Stores, PushOutcome, push, holding_item, silence, PushEvaluationResult,
  prompt_of, urgency_of, item_of, parse_outcome, record_if_push, after_write, act_on, ask,
  inner_life_push_evaluation, summary_of,
}

module _ (u : Unicode) (holding_yaml : HoldingYaml) (history_yaml : PlainYaml PushRecord) where
  abbrev AllStores : Type 0
  AllStores = Stores u holding_yaml history_yaml

  -- The stores with the prompt sent, and then with an item held.
  abbrev pub sent : Insight → AllStores → AllStores
  sent i s = record s { prompts = s.prompts ++ prompt_of i ∷ [] }

  abbrev pub held : HoldingItem → AllStores → AllStores
  held item s = record s { holding = store holding_yaml item.id item s.holding }

  abbrev pub result : PushOutcome → Outcome PushEvaluationResult
  result outcome = return (record { outcome = outcome; skipped_ceiling = false })

  -- How the answer reads once it is stripped and in upper case: as a push where it starts with
  -- "PUSH:", or its first word is "PUSH"; else as an item to hold in the same way. "SILENCE" alone
  -- is neither.
  abbrev pub upper_of : List Char → List Char
  upper_of response = to_upper u (strip u.is_space response)

  abbrev pub starts : List Char → String → Bool
  starts response label = starts_with (upper_of response) (chars label)

  abbrev pub is_word : List Char → String → Bool
  is_word response word = same_text (first_token u.is_space (upper_of response)) (chars word)

  abbrev pub is_silence : List Char → Bool
  is_silence response = same_text (upper_of response) (chars "SILENCE")

  pub data Reads (response : List Char) : PushOutcome → Type 0 where
    labelled_push : starts response "PUSH:" ≡ true → Reads response push
    labelled_hold :
        starts response "PUSH:" ≡ false
        → starts response "HOLDING_ITEM:" ≡ true
        → Reads response holding_item
    word_push :
        starts response "HOLDING_ITEM:" ≡ false
        → is_silence response ≡ false
        → is_word response "PUSH" ≡ true
        → Reads response push
    word_hold :
        starts response "PUSH:" ≡ false
        → is_silence response ≡ false
        → is_word response "PUSH" ≡ false
        → is_word response "HOLDING_ITEM" ≡ true
        → Reads response holding_item
    neither :
        starts response "PUSH:" ≡ false
        → starts response "HOLDING_ITEM:" ≡ false
        → (is_silence response ≡ true)
          ⊎ ((is_word response "PUSH" ≡ false) × (is_word response "HOLDING_ITEM" ≡ false))
        → Reads response silence

  parse_outcome-Reads : (response : List Char) → Reads response (parse_outcome u response).0
  unfolding parse_outcome
  parse_outcome-Reads response = elim (Bool-cases (starts response "PUSH:")) [
    | inl p ↦ rw p (labelled_push p)
    | inr np ↦ rw np (elim (Bool-cases (starts response "HOLDING_ITEM:")) [
      | inl h ↦ rw h (labelled_hold np h)
      | inr nh ↦ rw nh (elim (Bool-cases (is_silence response)) [
        | inl s ↦ rw s (neither np nh (inl s))
        | inr ns ↦ rw ns (elim (Bool-cases (is_word response "PUSH")) [
          | inl w ↦ rw w (word_push nh ns w)
          | inr nw ↦ rw nw (elim (Bool-cases (is_word response "HOLDING_ITEM")) [
            | inl v ↦ rw v (word_hold np ns nw v)
            | inr nv ↦ rw nv (neither np nh (inr (nw, nv)))
          ])
        ])
      ])
    ])
  ]

  -- The item that is held: what the answer says, or else the thought, waiting under the new id.
  pub record IsItem (i : Insight) (c : Chance) (description : List Char) (level : Urgency)
      (item : HoldingItem) : Type 0 where
    pub id : item.id ≡ c.item_id
    pub content : item.content ≡ text_or description i.thought_content
    pub urgency : item.urgency ≡ level
    pub created : item.created ≡ c.item_created
    pub waits : item.surfaced ≡ none
    pub thread_ids : item.thread_ids ≡ i.threads_pollinated
    pub source_workflow : item.source_workflow ≡ "inner_life_push_evaluation"

  item_of-IsItem :
      (i : Insight) (c : Chance) (outcome : PushOutcome) (description : List Char)
      → IsItem i c description (urgency_of outcome) (item_of i c outcome description)
  item_of-IsItem i c outcome description = record {
    id = refl;
    content = refl;
    urgency = refl;
    created = refl;
    waits = refl;
    thread_ids = refl;
    source_workflow = refl;
  }

  -- The ceiling is passed, and the model answers so.
  abbrev pub Asked : Insight → Chance → AllStores → PushOutcome → Type 0
  Asked i c s outcome =
      (within_ceiling i.push_ceiling_days i.now s.history.records ≡ return false)
      × ((response : List Char) × (c.infer (prompt_of i) ≡ return response)
          × Reads response outcome)

  -- What an evaluation may come to.
  pub data Verdict (i : Insight) (c : Chance) (s : AllStores)
      : Outcome PushEvaluationResult × AllStores → Type 0 where
    unread :
        (e : Exception)
        → within_ceiling i.push_ceiling_days i.now s.history.records ≡ raise e
        → Verdict i c s (raise e, s)
    gated :
        within_ceiling i.push_ceiling_days i.now s.history.records ≡ return true
        → Verdict i c s (return (record { outcome = silence; skipped_ceiling = true }), s)
    fails :
        (e : Exception)
        → within_ceiling i.push_ceiling_days i.now s.history.records ≡ return false
        → (c.infer (prompt_of i) ≡ raise e) ⊎ (Dict.has s.holding.items c.item_id ≡ true)
        → Verdict i c s (raise e, sent i s)
    quiet : Asked i c s silence → Verdict i c s (result silence, sent i s)
    holds :
        (description : List Char) (item : HoldingItem)
        → IsItem i c description medium item
        → Asked i c s holding_item
        → Dict.get s.holding.items c.item_id ≡ none
        → Verdict i c s (result holding_item, held item (sent i s))
    pushes :
        (description : List Char) (item : HoldingItem)
        → IsItem i c description high item
        → Asked i c s push
        → Dict.get s.holding.items c.item_id ≡ none
        → Verdict i c s (
          result push,
          record (held item (sent i s)) {
            history =
                record_push history_yaml c.record_id c.record_time
                  (summary_of (text_or description i.thought_content))
                  s.history;
          },
        )

  act_on-Verdict :
      (i : Insight) (c : Chance) (parsed : PushOutcome × List Char) (s : AllStores)
      → Asked i c s parsed.0
      → Verdict i c s (act_on u holding_yaml history_yaml i c parsed (sent i s))
  unfolding act_on after_write record_if_push new_item
  act_on-Verdict i c (silence, d) s asked = quiet asked
  act_on-Verdict i c (holding_item, d) s asked =
      elim (write_lem holding_yaml (item_of i c holding_item d) s.holding) [
        | inl (v, there, e) ↦
            subst (Verdict i c s) (ground arith) (fails value_error asked.0 (inr (ground arith)))
        | inr (absent, e) ↦
            subst (Verdict i c s) (ground arith) (
              holds d (item_of i c holding_item d) (item_of-IsItem i c holding_item d) asked absent)
      ]
  act_on-Verdict i c (push, d) s asked =
      elim (write_lem holding_yaml (item_of i c push d) s.holding) [
        | inl (v, there, e) ↦
            subst (Verdict i c s) (ground arith) (fails value_error asked.0 (inr (ground arith)))
        | inr (absent, e) ↦
            subst (Verdict i c s) (ground arith)
              (pushes d (item_of i c push d) (item_of-IsItem i c push d) asked absent)
      ]

  ask-Verdict :
      (i : Insight) (c : Chance) (s : AllStores)
      → within_ceiling i.push_ceiling_days i.now s.history.records ≡ return false
      → Verdict i c s (ask u holding_yaml history_yaml i c s)
  unfolding ask
  ask-Verdict i c s passed = elim (Outcome-cases (c.infer (prompt_of i))) [
    | inl (e, failed) ↦ subst (Verdict i c s) (ground arith) (fails e passed (inl failed))
    | inr (response, answered) ↦ subst (Verdict i c s) (ground arith) (
        act_on-Verdict i c (parse_outcome u response) s
          (passed, (response, answered, parse_outcome-Reads response)))
  ]

  -- An evaluation within the ceiling, or where the last push has no time that parses, sends no
  -- prompt and changes nothing. Otherwise exactly one prompt is sent, the outcome is as the answer
  -- reads, and the stores change with the outcome and in no other way: silence changes neither, nor
  -- does an exception, which is the model's or one of an id that is taken; a held item is one new
  -- item of medium urgency in the holding store, and a push is one new item of high urgency there
  -- and one new record of the history.
  pub evaluation-Verdict :
      (i : Insight) (c : Chance) (s : AllStores)
      → Verdict i c s (inner_life_push_evaluation u holding_yaml history_yaml i c s)
  unfolding inner_life_push_evaluation
  evaluation-Verdict i c s =
      elim (Outcome-cases (within_ceiling i.push_ceiling_days i.now s.history.records)) [
        | inl (e, failed) ↦ subst (Verdict i c s) (ground arith) (unread e failed)
        | inr (true, within) ↦ subst (Verdict i c s) (ground arith) (gated within)
        | inr (false, passed) ↦ subst (Verdict i c s) (ground arith) (ask-Verdict i c s passed)
      ]
