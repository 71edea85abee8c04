-- ===== src/State/DistillationMetrics/Tests.antt =====
-- The distillation metrics on small concrete inputs.
use kai_daemon.Base.{ℕ, suc, ◌+◌, ◌≡◌, refl, true, none, List, [], ◌∷◌, ◌++◌, All, leb}
use kai_daemon.Base.Outcome.{return}
use kai_daemon.Base.Time.{aware}
use kai_daemon.State.Table.{rows, PlainYaml}
use kai_daemon.State.DistillationMetrics.{
  DistillationCycleRecord, sorted, number_after, DistillationMetricsStore, load_cycles,
  record_cycle, all_records, load_recent, next_cycle_number,
}
use kai_daemon.State.DistillationMetrics.Cycles.{IsSorted, record_cycle_lem}

abbrev plain : PlainYaml DistillationCycleRecord
plain = record {
  Document = List DistillationCycleRecord;
  dump = λ l. l;
  parse = rows;
  parse-dump = λ l h. refl;
}

abbrev cycle : ℕ → DistillationCycleRecord
cycle n = record {
  cycle_number = n;
  timestamp = aware n;
  daemon_self_version = 1;
  content_snapshot = "calm";
  notes = "";
}

-- The second and the first cycle, in the order of the file.
abbrev two : DistillationMetricsStore plain
two = record { records = cycle 2 ∷ cycle 1 ∷ []; file = none }

third : next_cycle_number plain two ≡ 3
unfolding next_cycle_number all_records sorted number_after
third = refl

-- A count of 0 gives every record.
recent_none : load_recent plain 0 two ≡ cycle 1 ∷ cycle 2 ∷ []
unfolding load_recent all_records sorted
recent_none = refl

record_cycle_example :
    let after = record_cycle plain (cycle 3) two in
    All (λ q. leb (q.cycle_number + 1) 3 ≡ true) two.records
    × IsSorted (all_records plain after)
    × (all_records plain after ≡ all_records plain two ++ cycle 3 ∷ [])
    × ((n : ℕ)
        → load_recent plain (suc (suc n)) after ≡ load_recent plain (suc n) two ++ cycle 3 ∷ [])
    × (load_cycles plain after.file ≡ return after.records)
unfolding next_cycle_number all_records sorted number_after
record_cycle_example = record_cycle_lem plain (cycle 3) two refl
