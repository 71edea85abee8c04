-- ===== src/Workflows/HealthCheck/Alerts.antt =====
-- When a health check holds an alert.
use Prim.Native.String.{◌++◌ as ◌<>◌}
use kai_daemon.Workflows.Pollination.{join}
use kai_daemon.Workflows.HealthCheck.Signals.{AreTold, parse_signals-AreTold}
use kai_daemon.State.Types.{internal}
use kai_daemon.Base.{
  ◌≡◌, ◌⊎◌, map, none, Bool, refl, sym, ap, subst, inl, inr, String, true, false, List, [], ◌∷◌,
  length, ltb, Bool-cases,
}
use kai_daemon.Base.Dict
use kai_daemon.Base.Text.{Unicode}
use kai_daemon.Base.Outcome.{
  Exception, value_error, Outcome, return, raise, bind_raises, bind_goes, Outcome-cases,
}
use kai_daemon.State.Table.{store, PlainYaml}
use kai_daemon.State.Holding.{
  HoldingYaml, HoldingItem, observation, medium, reflective, new_item, write,
}
use kai_daemon.State.DistillationMetrics.{
  DistillationSignal, convergence, flattery_drift, oscillation, DistillationCycleRecord,
  load_recent,
}
use kai_daemon.Workflows.HealthCheck.{
  value, HealthCheckResult, World, Settings, alert, parse_signals, ask, conclude, after_answer,
  compare, distillation_health_check,
}

abbrev pub name : DistillationSignal → String
name convergence = "convergence"
name flattery_drift = "flattery_drift"
name oscillation = "oscillation"

name-value : (signals : List DistillationSignal) → map value signals ≡ map name signals
name-value [] = refl
name-value (convergence ∷ ss) = ap (λ l. "convergence" ∷ l) (name-value ss)
name-value (flattery_drift ∷ ss) = ap (λ l. "flattery_drift" ∷ l) (name-value ss)
name-value (oscillation ∷ ss) = ap (λ l. "oscillation" ∷ l) (name-value ss)

module _ (u : Unicode) (metrics : PlainYaml DistillationCycleRecord) (holding : HoldingYaml)
    (I : Type 0) (c : Settings u metrics holding I) where
  abbrev pub recent : List DistillationCycleRecord
  recent = load_recent metrics c.check_last_n_cycles c.metrics_store

  -- An observation that is waiting, and that names the signals and the cycles.
  pub record IsAlert (signals : List DistillationSignal) (item : HoldingItem) : Type 0 where
    pub content :
        item.content
        ≡ "Distillation health check detected signal(s): "
          <> join (map name signals)
          <> ". Examined cycles: "
          <> c.list_str (map (λ r. r.cycle_number) recent)
          <> "."
    pub type : item.type ≡ observation
    pub urgency : item.urgency ≡ medium
    pub register_needed : item.register_needed ≡ reflective
    pub waits : item.surfaced ≡ none
    pub source_workflow : item.source_workflow ≡ "distillation_health_check"
    pub epistemic_origin : item.epistemic_origin ≡ internal

  -- Nothing is held where there is no signal; else one alert is, under an id that was free.
  abbrev pub Holds :
      List DistillationSignal
      → Bool
      → World u metrics holding I
      → World u metrics holding I
      → Type 0
  Holds [] healthy w w' = (healthy ≡ true) × (w'.held ≡ w.held)
  Holds (s ∷ ss) healthy w w' =
      (Dict.has w.held.items c.item_id ≡ false)
      × (healthy ≡ false)
      × ((item : HoldingItem) × IsAlert (s ∷ ss) item
          × (w'.held ≡ store holding c.item_id item w.held))

  alert-IsAlert :
      (signals : List DistillationSignal)
      → IsAlert signals (alert u metrics holding I c recent signals)
  alert-IsAlert signals = record {
    content =
        ap
          (λ l.
            "Distillation health check detected signal(s): "
            <> join l
            <> ". Examined cycles: "
            <> c.list_str (map (λ r. r.cycle_number) recent)
            <> ".")
          (name-value signals);
    type = refl;
    urgency = refl;
    register_needed = refl;
    waits = refl;
    source_workflow = refl;
    epistemic_origin = refl;
  }

  -- What a health check comes to: too few records, an error, or the signals of the model's answer.
  pub data Checked (w : World u metrics holding I)
      : Outcome HealthCheckResult → World u metrics holding I → Type 0 where
    too_few :
        (r : HealthCheckResult)
        → ltb (length recent) 2 ≡ true
        → r.skipped_insufficient_data ≡ true
        → r.healthy ≡ true
        → Checked w (return r) w
    broken :
        (e : Exception) (w' : World u metrics holding I)
        → ltb (length recent) 2 ≡ false
        → ((c.infer recent w.model).0 ≡ raise e) ⊎ (Dict.has w.held.items c.item_id ≡ true)
        → w'.held ≡ w.held
        → Checked w (raise e) w'
    compared :
        (answer : String) (r : HealthCheckResult) (w' : World u metrics holding I)
        → ltb (length recent) 2 ≡ false
        → (c.infer recent w.model).0 ≡ return answer
        → AreTold u c.split_lines answer r.signals
        → r.skipped_insufficient_data ≡ false
        → Holds r.signals r.healthy w w'
        → Checked w (return r) w'

  abbrev Ends :
      World u metrics holding I → Outcome HealthCheckResult × World u metrics holding I → Type 0
  Ends w o = Checked w o.0 o.1

  conclude-Checked :
      (answer : String) (signals : List DistillationSignal) (w w₁ : World u metrics holding I)
      → ltb (length recent) 2 ≡ false
      → (c.infer recent w.model).0 ≡ return answer
      → AreTold u c.split_lines answer signals
      → w₁.held ≡ w.held
      → Ends w (conclude u metrics holding I c recent answer signals w₁)
  unfolding conclude new_item write
  conclude-Checked answer [] w w₁ enough a p h = compared answer _ w₁ enough a p refl (refl, h)
  conclude-Checked answer (s ∷ ss) w w₁ enough a p h =
      elim (Bool-cases (Dict.has w₁.held.items c.item_id)) [
        | inl taken ↦ rw taken (
            broken value_error w₁ enough
              (inr (subst (λ t. Dict.has t.items c.item_id ≡ true) h taken)) h)
        | inr free ↦ rw free (
            compared answer _ _ enough a p refl (
              subst (λ t. Dict.has t.items c.item_id ≡ false) h free,
              refl,
              (
                alert u metrics holding I c recent (s ∷ ss),
                alert-IsAlert (s ∷ ss),
                ap (store holding c.item_id (alert u metrics holding I c recent (s ∷ ss))) h,
              ),
            ))
      ]

  compare-Checked :
      (w : World u metrics holding I)
      → ltb (length recent) 2 ≡ false
      → Ends w (compare u metrics holding I c recent w)
  unfolding compare ask after_answer
  compare-Checked w enough =
      let m = ask u metrics holding I c recent in
      let f = after_answer u metrics holding I c recent in
      elim (Outcome-cases (m w).0) [
        | inl (x, failed) ↦
            subst (Ends w) (sym (bind_raises m f w x failed)) (broken x _ enough (inl failed) refl)
        | inr (answer, answered) ↦ subst (Ends w) (sym (bind_goes m f w answer answered)) (
            conclude-Checked answer (parse_signals u c.split_lines answer) w (m w).1 enough answered
              (parse_signals-AreTold u c.split_lines answer) refl)
      ]

  -- A health check of fewer than two records changes nothing. Otherwise, it raises
  -- only where the model does or the id is taken, and then nothing is held; and where it returns, it
  -- gives the signals that a line of the model's answer names, is healthy exactly where there are none, and then nothing is held: else one
  -- alert that names the signals and the cycles is, under an id that was free.
  pub distillation_health_check-Checked :
      (w : World u metrics holding I)
      → let o = distillation_health_check u metrics holding I c w in Checked w o.0 o.1
  unfolding distillation_health_check
  distillation_health_check-Checked w = elim (Bool-cases (ltb (length recent) 2)) [
    | inl few ↦ rw few (too_few _ few refl refl)
    | inr enough ↦ rw enough (compare-Checked w enough)
  ]
