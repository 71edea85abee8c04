-- ===== src/Workflows/HealthCheck.antt =====
-- src/kai_daemon/workflows/distillation_health_check.py: signals of drift in the recent cycles are
-- held as an alert.
pub mod Signals
pub mod Alerts
mod Tests
use Prim.Native.Char.{Char}
use Prim.Native.String.{◌++◌ as ◌<>◌}
use kai_daemon.Base.{
  ℕ, String, Bool, true, false, List, [], ◌∷◌, none, map, length, ltb, if◌then◌else◌,
}
use kai_daemon.Base.Outcome.{Outcome, return, raise, Method, continue, ◌>>=◌}
use kai_daemon.Base.Text.{Unicode, chars, joined, strip, to_upper, same_text}
use kai_daemon.Base.Time.{Stamp}
use kai_daemon.State.Types.{internal}
use kai_daemon.State.Table.{PlainYaml}
use kai_daemon.State.Holding.{
  HoldingYaml, HoldingItem, HoldingStore, observation, reflective, medium, new_item, write,
}
use kai_daemon.State.DistillationMetrics.{
  DistillationSignal, convergence, flattery_drift, oscillation, DistillationCycleRecord,
  DistillationMetricsStore, load_recent,
}
use kai_daemon.Workflows.Pollination.{join}

pub record HealthCheckResult : Type 0 where
  pub signals : List DistillationSignal
  pub healthy : Bool
  pub detail : String
  pub skipped_insufficient_data : Bool

abbrev pub value : DistillationSignal → String
value convergence = "convergence"
value flattery_drift = "flattery_drift"
value oscillation = "oscillation"

-- `.upper()` of the value
abbrev pub token_of : DistillationSignal → String
token_of convergence = "CONVERGENCE"
token_of flattery_drift = "FLATTERY_DRIFT"
token_of oscillation = "OSCILLATION"

unfoldable pub add_signal : List Char → List DistillationSignal → List DistillationSignal
unfolding chars same_text
add_signal token rest =
    if same_text token (chars (token_of convergence))
    then convergence ∷ rest
    else if same_text token (chars (token_of flattery_drift))
    then flattery_drift ∷ rest
    else if same_text token (chars (token_of oscillation))
    then oscillation ∷ rest
    else rest

-- the loop of `_parse_signals`
unfoldable pub signals_of : Unicode → List (List Char) → List DistillationSignal
unfolding add_signal strip to_upper
signals_of u [] = []
signals_of u (line ∷ lines) = add_signal (to_upper u (strip u.is_space line)) (signals_of u lines)

-- `split_lines` is Python's `splitlines`.
unfoldable pub parse_signals :
    Unicode → (List Char → List (List Char)) → String → List DistillationSignal
unfolding signals_of chars strip to_upper same_text
parse_signals u split_lines response =
    let stripped = strip u.is_space (chars response) in
    let signals = signals_of u (split_lines stripped) in
    if same_text (to_upper u stripped) (chars "HEALTHY") then [] else signals

module _ (u : Unicode) (metrics : PlainYaml DistillationCycleRecord) (holding : HoldingYaml)
    (I : Type 0) where
  -- The store that is written to, and the state of the model.
  pub record World : Type 0 where
    pub held : HoldingStore holding
    pub model : I

  -- The arguments, with what is read from outside. The template is filled with the records of the
  -- recent cycles; `list_str` is Python's text for a list of integers.
  pub record Settings : Type 0 where
    pub metrics_store : DistillationMetricsStore metrics
    pub infer : List DistillationCycleRecord → Method I String
    pub check_last_n_cycles : ℕ
    pub item_id : String
    pub created : Stamp
    pub split_lines : List Char → List (List Char)
    pub list_str : List ℕ → String

  abbrev pub alert : Settings → List DistillationCycleRecord → List DistillationSignal → HoldingItem
  alert c records signals = record {
    id = c.item_id;
    content =
        "Distillation health check detected signal(s): "
        <> join (map value signals)
        <> ". Examined cycles: "
        <> c.list_str (map (λ r. r.cycle_number) records)
        <> ".";
    type = observation;
    relevance_trigger = "Distillation cycle health check";
    register_needed = reflective;
    urgency = medium;
    created = c.created;
    surfaced = none;
    discharge_notes = none;
    source_workflow = "distillation_health_check";
    epistemic_origin = internal;
    thread_ids = [];
    contradiction_id = none;
  }

  abbrev pub is_empty : List DistillationSignal → Bool
  is_empty [] = true
  is_empty (s ∷ ss) = false

  abbrev pub checked : String → List DistillationSignal → HealthCheckResult
  checked response signals = record {
    signals = signals;
    healthy = is_empty signals;
    detail = joined (strip u.is_space (chars response));
    skipped_insufficient_data = false;
  }

  abbrev pub after_alert :
      HealthCheckResult
      → Outcome HoldingItem × HoldingStore holding
      → World
      → Outcome HealthCheckResult × World
  after_alert r (return i, held) w = (return r, record w { held = held })
  after_alert r (raise e, held) w = (raise e, record w { held = held })

  -- `if not healthy` to the end
  unfoldable pub conclude :
      Settings
      → List DistillationCycleRecord
      → String
      → List DistillationSignal
      → Method World HealthCheckResult
  unfolding new_item write join chars strip
  conclude c records response [] w = (return (checked response []), w)
  conclude c records response (s ∷ ss) w =
      after_alert (checked response (s ∷ ss))
        (continue (new_item (alert c records (s ∷ ss))) (write holding) w.held) w

  unfoldable pub ask : Settings → List DistillationCycleRecord → Method World String
  ask c records w = let (r, model) = c.infer records w.model in (r, record w { model = model })

  unfoldable pub after_answer :
      Settings → List DistillationCycleRecord → String → Method World HealthCheckResult
  unfolding conclude parse_signals
  after_answer c records response =
      conclude c records response (parse_signals u c.split_lines response)

  unfoldable pub compare : Settings → List DistillationCycleRecord → Method World HealthCheckResult
  unfolding ask after_answer
  compare c records = ask c records >>= after_answer c records

  unfoldable pub distillation_health_check : Settings → Method World HealthCheckResult
  unfolding load_recent compare
  distillation_health_check c w =
      let records = load_recent metrics c.check_last_n_cycles c.metrics_store in
      if ltb (length records) 2
      then (
        return (record {
          signals = [];
          healthy = true;
          detail = "";
          skipped_insufficient_data = true;
        }),
        w,
      )
      else compare c records w
