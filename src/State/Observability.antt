-- ===== src/State/Observability.antt =====
-- src/kai_daemon/state/observability.py: the entries of the run log and of the correction log. A
-- log is the list of its entries, oldest first; `metadata`, which the engine leaves empty, is left
-- out.
use kai_daemon.Base.{Bool, String}
use kai_daemon.Base.Time.{Stamp}

pub data WorkflowStatus : Type 0 where
  success failure abandoned : WorkflowStatus

pub record WorkflowRunEntry {ℓ} (Trigger : Type ℓ) : Type ℓ where
  pub workflow_name : String
  pub trigger : Trigger
  pub started_at : Stamp
  pub completed_at : Stamp
  pub status : WorkflowStatus
  pub memory_server_available : Bool
