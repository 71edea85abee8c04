-- ===== src/Engine/Types.antt =====
-- src/kai_daemon/engine.py: trigger types, lifecycles, specifications, and the fields of
-- `WorkflowEngine`.
use kai_daemon.Base.{ℕ, Bool, false, Option, none, String, List, []}
use mathlib.Core.List.{Perm}
use kai_daemon.Base.Dict.{Dict}
use kai_daemon.Base.Time.{Stamp}
use kai_daemon.State.Observability.{WorkflowRunEntry}
use kai_daemon.Workflows.Preemption.{PreemptionMode, PreemptionContext}

pub data TriggerType : Type 0 where
  startup_condition workflow_completed cron cron_random_window cron_nightly : TriggerType
  cron_nightly_or_write_threshold cron_weekly conversation_ended workflow_request : TriggerType

pub data WorkflowLifecycle : Type 0 where
  not_needed waiting pending running completed failed : WorkflowLifecycle

-- The trigger string of a run: a trigger type, or `workflow_completed:<name>`.
pub data Trigger : Type 0 where
  of_type : TriggerType → Trigger
  after : String → Trigger

-- `condition_fn` is the value that it returns; `fn` is the environment's, and no field.
pub record WorkflowSpec : Type 0 where
  pub name : String
  pub trigger : TriggerType
  pub priority : ℕ
  pub preemption_mode : PreemptionMode
  pub condition : Option String
  pub condition_fn : Option Bool
  pub requires : Option String
  pub trigger_after : Option String
  pub cron_hour : Option ℕ
  pub cron_window_start : Option ℕ
  pub cron_window_end : Option ℕ
  pub push_signal_required : Bool
  pub allowed_tools : List String

pub record QueueItem : Type 0 where
  pub priority : ℕ
  pub sequence : ℕ
  pub spec_name : String
  pub trigger : Trigger

-- `_active_ctx` and `_active_spec_name`, which are set and cleared together.
pub record Active : Type 0 where
  pub ctx : PreemptionContext
  pub spec_name : String

-- `WorkflowContext` of sdk.py.
pub record WorkflowContext : Type 0 where
  pub workflow_id : String
  pub allowed_tools : List String

-- The local variables of `_run_workflow` while `fn` runs; `token` is the SDK context that was set
-- before.
pub record Running : Type 0 where
  pub spec : WorkflowSpec
  pub trigger : Trigger
  pub started_at : Stamp
  pub token : Option WorkflowContext

-- `run_log` is what was given to `WorkflowRunLogger.append`, which only warns where the file cannot
-- be written.
pub record Engine : Type 0 where
  pub specs : Dict WorkflowSpec
  pub queue : List QueueItem
  pub sequence_counter : ℕ
  pub lifecycle : Dict WorkflowLifecycle
  pub waiting : List String
  pub active : Option Active
  pub shutdown : Bool
  pub run_log : List (WorkflowRunEntry Trigger)
  pub sdk_context : Option WorkflowContext
  pub worker : Option Running

-- `WorkflowEngine()`
unfoldable pub new_engine : Engine
new_engine = record {
  specs = [];
  queue = [];
  sequence_counter = 0;
  lifecycle = [];
  waiting = [];
  active = none;
  shutdown = false;
  run_log = [];
  sdk_context = none;
  worker = none;
}

-- How `fn` ends: it returns, it raises `WorkflowCancelledError`, or it raises something else.
pub data FnResult : Type 0 where
  returns cancels raises : FnResult

-- What the engine is told from outside: the state behind the two named startup conditions, the
-- push signal as it is read for each workflow, the memory server, and the order in which Python
-- iterates over a set, which misses none and repeats none.
pub record World : Type 0 where
  pub no_daemon_self : Bool
  pub user_yaml_empty : Bool
  pub push_signal : String → Bool
  pub memory_server_available : Bool
  pub set_order : List String → List String
  pub set_order_perm : (names : List String) → Perm (set_order names) names
