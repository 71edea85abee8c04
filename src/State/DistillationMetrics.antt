-- ===== src/State/DistillationMetrics.antt =====
-- src/kai_daemon/state/distillation_metrics.py: the records of the distillation cycles. A cycle's
-- number is natural.
pub mod Cycles
mod Tests
use kai_daemon.Base.{
  ℕ, zero, suc, ◌+◌, ◌-◌, String, List, [], ◌∷◌, ◌++◌, Option, none, some, leb, nat_eq, length,
  drop, if◌then◌else◌,
}
use kai_daemon.Base.Outcome.{Outcome, return, raise, value_error}
use kai_daemon.Base.Time.{Stamp}
use kai_daemon.State.Table.{Parsed, rows, corrupt, invalid, PlainYaml}

pub data DistillationSignal : Type 0 where
  convergence flattery_drift oscillation : DistillationSignal

pub record DistillationCycleRecord : Type 0 where
  pub cycle_number : ℕ
  pub timestamp : Stamp
  pub daemon_self_version : ℕ
  pub content_snapshot : String
  pub notes : String

-- `sorted(..., key=lambda r: r.cycle_number)`, which keeps the order of equal keys
unfoldable pub insert :
    DistillationCycleRecord → List DistillationCycleRecord → List DistillationCycleRecord
insert r [] = r ∷ []
insert r (s ∷ ss) =
    let rest = insert r ss in if leb r.cycle_number s.cycle_number then r ∷ s ∷ ss else s ∷ rest

unfoldable pub sorted : List DistillationCycleRecord → List DistillationCycleRecord
unfolding insert
sorted [] = []
sorted (r ∷ rs) = insert r (sorted rs)

unfoldable pub number_after : List DistillationCycleRecord → ℕ
number_after [] = 1
number_after (r ∷ []) = r.cycle_number + 1
number_after (r ∷ s ∷ rest) = number_after (s ∷ rest)

-- `[-n:]`, which is everything for 0
abbrev pub last_of : ℕ → List DistillationCycleRecord → List DistillationCycleRecord
last_of zero rs = rs
last_of (suc n) rs = drop (length rs - suc n) rs

module _ (yaml : PlainYaml DistillationCycleRecord) where
  pub record DistillationMetricsStore : Type 0 where
    pub records : List DistillationCycleRecord
    pub file : Option yaml.Document

  abbrev pub restore_cycles :
      Parsed DistillationCycleRecord → Outcome (List DistillationCycleRecord)
  restore_cycles (rows records) = return records
  restore_cycles corrupt = return []
  restore_cycles invalid = raise value_error

  unfoldable pub load_cycles : Option yaml.Document → Outcome (List DistillationCycleRecord)
  load_cycles none = return []
  load_cycles (some d) = restore_cycles (yaml.parse d)

  unfoldable pub save_cycles : DistillationMetricsStore → DistillationMetricsStore
  save_cycles s = record s { file = some (yaml.dump s.records) }

  unfoldable pub record_cycle :
      DistillationCycleRecord → DistillationMetricsStore → DistillationMetricsStore
  unfolding save_cycles
  record_cycle r s = save_cycles (record s { records = s.records ++ r ∷ [] })

  unfoldable pub all_records : DistillationMetricsStore → List DistillationCycleRecord
  unfolding sorted
  all_records s = sorted s.records

  unfoldable pub load_recent : ℕ → DistillationMetricsStore → List DistillationCycleRecord
  unfolding all_records
  load_recent n s = last_of n (all_records s)

  unfoldable pub next_cycle_number : DistillationMetricsStore → ℕ
  unfolding all_records number_after
  next_cycle_number s = number_after (all_records s)
