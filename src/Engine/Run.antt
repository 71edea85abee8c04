-- ===== src/Engine/Run.antt =====
-- The worker of `WorkflowEngine`: `_worker_loop`, `_run_workflow` and `_fire_chained_triggers`.
-- `_run_workflow` is `begin_run` up to the call of `spec.fn()` and `finish_run` after it, so that
-- other threads may submit in between.
use kai_daemon.Base.{
  Bool, not, ◌&&◌, Option, none, some, String, List, [], ◌∷◌, ◌++◌, filter, if◌then◌else◌,
}
use kai_daemon.Base.Dict
use kai_daemon.Base.Time.{Stamp}
use kai_daemon.State.Observability.{WorkflowStatus, success, failure, abandoned}
use kai_daemon.Workflows.Preemption.{new_context}
use kai_daemon.Engine.Types.{
  QueueItem, WorkflowLifecycle, pending, running, completed, failed, Trigger, after, WorkflowSpec,
  Running, Engine, FnResult, returns, cancels, raises, World,
}
use kai_daemon.Engine.Queue.{get_least}
use kai_daemon.Engine.Operations.{submit, unblock_waiters, names}

unfoldable pub chains : World → String → WorkflowSpec → Bool
chains world completed_name spec =
    names spec.trigger_after completed_name
    && not (spec.push_signal_required && not (world.push_signal spec.name))

unfoldable pub submit_all : Trigger → Engine → List WorkflowSpec → Engine
unfolding submit
submit_all trigger e [] = e
submit_all trigger e (spec ∷ specs) = submit_all trigger (submit spec.name trigger e) specs

unfoldable pub fire_chained_triggers : World → String → Engine → Engine
unfolding chains submit_all
fire_chained_triggers world name e =
    submit_all (after name) e (filter (chains world name) (Dict.values e.specs))

-- `_run_workflow` up to `spec.fn()`
unfoldable pub begin_run : Stamp → WorkflowSpec → Trigger → Engine → Engine
begin_run now spec trigger e = record e {
  lifecycle = Dict.put e.lifecycle spec.name running;
  active = some (record { ctx = new_context spec.preemption_mode; spec_name = spec.name });
  sdk_context = some (record { workflow_id = spec.name; allowed_tools = spec.allowed_tools });
  worker =
      some (record { spec = spec; trigger = trigger; started_at = now; token = e.sdk_context });
}

abbrev pub status_of : FnResult → WorkflowStatus
status_of returns = success
status_of cancels = abandoned
status_of raises = failure

abbrev pub lifecycle_of : FnResult → WorkflowLifecycle
lifecycle_of returns = completed
lifecycle_of cancels = pending
lifecycle_of raises = failed

-- the `except` clauses: a cancelled run is submitted again
unfoldable pub resubmit : FnResult → Running → Engine → Engine
unfolding submit
resubmit cancels r e = submit r.spec.name r.trigger e
resubmit returns r e = e
resubmit raises r e = e

-- the `finally` clause
unfoldable pub settle : World → Stamp → FnResult → Running → Engine → Engine
settle world now result r e = record e {
  sdk_context = r.token;
  active = none;
  lifecycle = Dict.put e.lifecycle r.spec.name (lifecycle_of result);
  run_log =
      e.run_log
      ++ record {
        workflow_name = r.spec.name;
        trigger = r.trigger;
        started_at = r.started_at;
        completed_at = now;
        status = status_of result;
        memory_server_available = world.memory_server_available;
      }
        ∷ [];
  worker = none;
}

-- what follows the `try` statement
unfoldable pub follow_up : World → FnResult → Running → Engine → Engine
unfolding unblock_waiters fire_chained_triggers
follow_up world returns r e =
    fire_chained_triggers world r.spec.name (unblock_waiters world r.spec.name e)
follow_up world cancels r e = e
follow_up world raises r e = e

-- `_run_workflow` after `spec.fn()` has ended
unfoldable pub finish_run : World → Stamp → FnResult → Running → Engine → Engine
unfolding resubmit settle follow_up
finish_run world now result r e =
    follow_up world result r (settle world now result r (resubmit result r e))

abbrev pub begin_item : Stamp → Option WorkflowSpec → Trigger → Engine → Engine
begin_item now none trigger e = e
begin_item now (some spec) trigger e = begin_run now spec trigger e

abbrev pub take_next : Stamp → Option (QueueItem × List QueueItem) → Engine → Engine
take_next now none e = e
take_next now (some (item, rest)) e =
    begin_item now (Dict.get e.specs item.spec_name) item.trigger (record e { queue = rest })

-- one pass of `_worker_loop`, up to `spec.fn()`: an empty queue times out
unfoldable pub take_item : Stamp → Engine → Engine
unfolding begin_run
take_item now e = if e.shutdown then e else take_next now (get_least e.queue) e
