-- ===== src/Workflows/PushEvaluation/Spacing.antt =====
-- The ceiling: how far apart the recorded pushes are.
use Prim.Native.Char.{Char}
use kai_daemon.Base.{
  ℕ, ◌+◌, ◌*◌, ◌≤◌, ◌≡◌, ◌⊎◌, inl, inr, refl, sym, ap, ◌∙◌, subst, true, false, some, List, [], ◌∷◌,
  ◌++◌, arith, All, All-append, String, Option-cases,
}
use kai_daemon.Base.Outcome.{Outcome, return, raise, Outcome-cases}
use kai_daemon.Base.Time.{aware, day}
use kai_daemon.Base.Text.{Unicode, text_or}
use kai_daemon.State.Table.{PlainYaml, All-plain}
use kai_daemon.State.Holding.{HoldingYaml, HoldingItem, HoldingStore}
use kai_daemon.State.PushHistory.{
  PushRecord, PushHistory, last, last_push_timestamp, within_ceiling, instant, record_push,
  save_history, load_history, restore_records,
}
use kai_daemon.Workflows.PushEvaluation.{
  Insight, Chance, Stores, PushOutcome, push, holding_item, silence, prompt_of, parse_outcome,
  record_if_push, after_write, act_on, ask, inner_life_push_evaluation, summary_of,
}

abbrev pub At : PushRecord → ℕ → Type 0
At r t = instant r.timestamp ≡ return t

-- The second record is at least so many days after the first.
abbrev pub Apart : ℕ → PushRecord → PushRecord → Type 0
Apart days r r' = (t : ℕ) × (t' : ℕ) × At r t × At r' t' × (t + days * day ≤ t')

-- Any two records are so far apart, in the order of the log.
abbrev pub Spaced : ℕ → List PushRecord → Type 0
Spaced days [] = Unit
Spaced days (r ∷ rs) = All (Apart days r) rs × Spaced days rs

Apart-last :
    (days : ℕ) (r l : PushRecord) (rs : List PushRecord)
    → All (Apart days r) rs
    → last rs ≡ some l
    → Apart days r l
unfolding last
Apart-last days r l [] h e = cc
Apart-last days r l (q ∷ rs) h e = elim (Option-cases (last rs)) [
  | inl only ↦ let it : q ≡ l = ground arith in subst (Apart days r) it h.0
  | inr (m, more) ↦ Apart-last days r l rs h.1 (ground arith)
]

Apart-trans : (days : ℕ) (r l q : PushRecord) → Apart days r l → Apart days l q → Apart days r q
Apart-trans days r l q (t, t', at_r, at_l, le) (t'', t3, at_l', at_q, le') =
    let same_time : t' ≡ t'' = ground (arith, at_l, at_l') in (t, t3, at_r, at_q, omega arith)

-- A record that is far enough from the last one is far enough from all.
Spaced-snoc :
    (days : ℕ) (rs : List PushRecord) (new : PushRecord)
    → Spaced days rs
    → ((l : PushRecord) → last rs ≡ some l → Apart days l new)
    → Spaced days (rs ++ new ∷ [])
unfolding last
Spaced-snoc days [] new h far = (tt, tt)
Spaced-snoc days (r ∷ rs) new h far = elim (Option-cases (last rs)) [
  | inl only ↦ (
    All-append (Apart days r) rs (new ∷ []) h.0 (far r (ground arith), tt),
    Spaced-snoc days rs new h.1 (λ l e. cc),
  )
  | inr (l, more) ↦
      let far_l = far l (ground arith) in
      let far_r = Apart-trans days r l new (Apart-last days r l rs h.0 more) far_l in
      (
        All-append (Apart days r) rs (new ∷ []) h.0 (far_r, tt),
        Spaced-snoc days rs new h.1
            (λ l' e. let it : l ≡ l' = ground arith in subst (λ x. Apart days x new) it far_l),
      )
]

-- Outside the ceiling the last record is far enough back.
ceiling_passed :
    (days now : ℕ) (rs : List PushRecord) (l : PushRecord)
    → within_ceiling days now rs ≡ return false
    → last rs ≡ some l
    → (t : ℕ) × At l t × (t + days * day ≤ now)
unfolding within_ceiling last_push_timestamp
ceiling_passed days now rs l passed e = elim (Outcome-cases (instant l.timestamp)) [
  | inl (x, failed) ↦ ground arith
  | inr (t, at_t) ↦ (t, at_t, ground arith)
]

-- One evaluation with what comes from outside, or a start of the process, which reads the history
-- from its file.
pub data Event : Type 0 where
  evaluates : Insight → Chance → Event
  restarts : Event

-- The evaluation asks for at least so many days, and the clock does not go back between its gate
-- and its record.
abbrev pub IsTimely : ℕ → Event → Type 0
IsTimely days (evaluates i c) =
    (days ≤ i.push_ceiling_days) × (t : ℕ) × (c.record_time ≡ aware t) × (i.now ≤ t)
IsTimely days restarts = Unit

module _ (u : Unicode) (holding_yaml : HoldingYaml) (history_yaml : PlainYaml PushRecord) where
  -- Either the history is as it was, or the ceiling was passed and one push is recorded.
  data Effect (i : Insight) (c : Chance) (h h' : PushHistory history_yaml) : Type 0 where
    kept : h' ≡ h → Effect i c h h'
    pushed :
        (summary : String)
        → within_ceiling i.push_ceiling_days i.now h.records ≡ return false
        → h' ≡ record_push history_yaml c.record_id c.record_time summary h
        → Effect i c h h'

  abbrev Evaluated : Insight → Chance → Stores u holding_yaml history_yaml → Type 0
  Evaluated i c s =
      Effect i c s.history (inner_life_push_evaluation u holding_yaml history_yaml i c s).1.history

  abbrev Grows :
      Chance → Stores u holding_yaml history_yaml → Stores u holding_yaml history_yaml → Type 0
  Grows c s s' =
      (s'.history ≡ s.history)
      ⊎ ((summary : String) × (s'.history
            ≡ record_push history_yaml c.record_id c.record_time summary s.history))

  after_write-Grows :
      (c : Chance) (outcome : PushOutcome) (content : String)
      (o : Outcome HoldingItem × HoldingStore holding_yaml) (s : Stores u holding_yaml history_yaml)
      → Grows c s (after_write u holding_yaml history_yaml c outcome content o s).1
  unfolding after_write record_if_push
  after_write-Grows c outcome content (raise e, t) s = inl refl
  after_write-Grows c push content (return item, t) s = inr (summary_of content, refl)
  after_write-Grows c holding_item content (return item, t) s = inl refl
  after_write-Grows c silence content (return item, t) s = inl refl

  act_on-Grows :
      (i : Insight) (c : Chance) (parsed : PushOutcome × List Char)
      (s : Stores u holding_yaml history_yaml)
      → Grows c s (act_on u holding_yaml history_yaml i c parsed s).1
  unfolding act_on
  act_on-Grows i c (silence, d) s = inl refl
  act_on-Grows i c (holding_item, d) s =
      after_write-Grows c holding_item (text_or d i.thought_content) _ s
  act_on-Grows i c (push, d) s = after_write-Grows c push (text_or d i.thought_content) _ s

  ask-Grows :
      (i : Insight) (c : Chance) (s : Stores u holding_yaml history_yaml)
      → Grows c s (ask u holding_yaml history_yaml i c s).1
  unfolding ask
  ask-Grows i c s = elim (Outcome-cases (c.infer (prompt_of i))) [
    | inl (e, failed) ↦ inl (ground arith)
    | inr (response, answered) ↦
        let sent : Stores u holding_yaml history_yaml = record s {
          prompts = s.prompts ++ prompt_of i ∷ [];
        } in
        let e : ask u holding_yaml history_yaml i c s
            ≡ act_on u holding_yaml history_yaml i c (parse_outcome u response) sent =
          ground arith in
        subst (Grows c s) (sym (ap (λ o. o.1) e)) (act_on-Grows i c (parse_outcome u response) sent)
  ]

  evaluation-Effect :
      (i : Insight) (c : Chance) (s : Stores u holding_yaml history_yaml) → Evaluated i c s
  unfolding inner_life_push_evaluation
  evaluation-Effect i c s =
      elim (Outcome-cases (within_ceiling i.push_ceiling_days i.now s.history.records)) [
        | inl (e, failed) ↦ kept (ground arith)
        | inr (true, within) ↦ kept (ground arith)
        | inr (false, passed) ↦
            let e : inner_life_push_evaluation u holding_yaml history_yaml i c s
                ≡ ask u holding_yaml history_yaml i c s =
              ground arith in
            elim (ask-Grows i c s) [
              | inl same ↦ kept (ap (λ o. o.1.history) e ∙ same)
              | inr (summary, grown) ↦ pushed summary passed (ap (λ o. o.1.history) e ∙ grown)
            ]
      ]

  abbrev reread :
      Outcome (List PushRecord)
      → Stores u holding_yaml history_yaml
      → Stores u holding_yaml history_yaml
  reread (return records) s = record s { history = record s.history { records = records } }
  reread (raise e) s = s

  unfoldable pub happen :
      Event → Stores u holding_yaml history_yaml → Stores u holding_yaml history_yaml
  happen (evaluates i c) s = (inner_life_push_evaluation u holding_yaml history_yaml i c s).1
  happen restarts s = reread (load_history history_yaml s.history.file) s

  unfoldable pub run :
      Stores u holding_yaml history_yaml → List Event → Stores u holding_yaml history_yaml
  unfolding happen
  run s [] = s
  run s (e ∷ es) = run (happen e s) es

  -- The pushes are spaced, and the file holds them all.
  pub record IsSpaced (days : ℕ) (h : PushHistory history_yaml) : Type 0 where
    pub spaced : Spaced days h.records
    pub reloads : load_history history_yaml h.file ≡ return h.records

  Effect-IsSpaced :
      (days : ℕ) (i : Insight) (c : Chance) (h h' : PushHistory history_yaml)
      → IsTimely days (evaluates i c)
      → Effect i c h h'
      → IsSpaced days h
      → IsSpaced days h'
  unfolding record_push save_history load_history
  Effect-IsSpaced days i c h h' timely (kept e) ok = subst (IsSpaced days) (sym e) ok
  Effect-IsSpaced days i c h h' (enough, t, at_t, later) (pushed summary passed e) ok =
      subst (IsSpaced days) (sym e) (record {
        spaced = Spaced-snoc days h.records _ ok.spaced (λ l it.
            let (t0, at_t0, gap) = ceiling_passed i.push_ceiling_days i.now h.records l passed it in
            (t0, t, at_t0, ap instant at_t, omega arith));
        reloads =
            ap (restore_records history_yaml)
              (history_yaml.parse-dump (h.records ++ _ ∷ []) (All-plain _));
      })

  happen-IsSpaced :
      (days : ℕ) (e : Event) (s : Stores u holding_yaml history_yaml)
      → IsTimely days e
      → IsSpaced days s.history
      → IsSpaced days (happen e s).history
  unfolding happen
  happen-IsSpaced days (evaluates i c) s timely ok =
      Effect-IsSpaced days i c s.history _ timely (evaluation-Effect i c s) ok
  happen-IsSpaced days restarts s timely ok =
      subst (λ o. IsSpaced days (reread o s).history) (sym ok.reloads)
        (record { spaced = ok.spaced; reloads = ok.reloads })

  -- Whatever the insights and the model's answers, and across restarts of the process: where every
  -- evaluation asks for a ceiling of at least so many days and the clock does not go back between
  -- its gate and its record, any two recorded pushes are at least so many days apart, and the file
  -- holds every record.
  pub run-IsSpaced :
      (days : ℕ) (es : List Event) (s : Stores u holding_yaml history_yaml)
      → All (IsTimely days) es
      → IsSpaced days s.history
      → IsSpaced days (run s es).history
  unfolding run
  run-IsSpaced days [] s timely ok = ok
  run-IsSpaced days (e ∷ es) s timely ok =
      run-IsSpaced days es (happen e s) timely.1 (happen-IsSpaced days e s timely.0 ok)
