-- ===== src/Workflows/HealthCheck/Tests.antt =====
-- A health check of two cycles, on concrete inputs.
use kai_daemon.State.Tests.{rows_yaml}
use kai_daemon.Base.{ℕ, suc, ◌≡◌, refl, none, false, List, [], ◌∷◌}
use kai_daemon.Base.Dict
use kai_daemon.Base.Outcome.{Outcome, return}
use kai_daemon.Base.Time.{aware}
use kai_daemon.Base.Text.{Unicode, chars, starts_with}
use kai_daemon.State.Table.{PlainYaml, rows}
use kai_daemon.State.DistillationMetrics.{oscillation, DistillationCycleRecord}
use kai_daemon.Workflows.HealthCheck.{World, Settings, HealthCheckResult, distillation_health_check}
use kai_daemon.Workflows.HealthCheck.Alerts.{Checked, distillation_health_check-Checked}

abbrev roman : Unicode
roman = record {
  is_space = λ c. starts_with (c ∷ []) (chars " ");
  upper = λ c. c ∷ [];
  lower = λ c. c ∷ [];
}

abbrev listed : PlainYaml DistillationCycleRecord
listed = record {
  Document = List DistillationCycleRecord;
  dump = λ l. l;
  parse = rows;
  parse-dump = λ l h. refl;
}

abbrev cycle : ℕ → DistillationCycleRecord
cycle n = record {
  cycle_number = n;
  timestamp = aware n;
  daemon_self_version = 1;
  content_snapshot = "calm";
  notes = "";
}

abbrev settings : Settings roman listed rows_yaml ℕ
settings = record {
  metrics_store = record { records = cycle 1 ∷ cycle 2 ∷ []; file = none };
  infer = λ records n. (return "OSCILLATION ", suc n);
  check_last_n_cycles = 3;
  item_id = "i";
  created = aware 9;
  split_lines = λ text. text ∷ [];
  list_str = λ ns. "[1, 2]";
}

abbrev world : World roman listed rows_yaml ℕ
world = record { held = record { items = []; file = none }; model = 0 }

abbrev outcome : Outcome HealthCheckResult × World roman listed rows_yaml ℕ
outcome = distillation_health_check roman listed rows_yaml ℕ settings world

alerted :
    outcome.0
    ≡ return (record {
      signals = oscillation ∷ [];
      healthy = false;
      detail = "OSCILLATION";
      skipped_insufficient_data = false;
    })
unfolding distillation_health_check starts_with Dict.get
alerted = refl

distillation_health_check_example :
    Checked roman listed rows_yaml ℕ settings world outcome.0 outcome.1
distillation_health_check_example =
    distillation_health_check-Checked roman listed rows_yaml ℕ settings world
