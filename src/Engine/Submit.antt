-- ===== src/Engine/Submit.antt =====
-- What `submit` changes: one item at the end of the queue, and the preemption signal.
use kai_daemon.Base.{◌+◌, ◌≡◌, ◌||◌, none, some, String, [], ◌∷◌, ◌++◌, arith, ltb}
use kai_daemon.Base.Dict
use kai_daemon.Workflows.Preemption.{preempt}
use kai_daemon.Engine.Types.{Trigger, WorkflowSpec, QueueItem, Active, Engine}
use kai_daemon.Engine.Operations.{submit}

-- The item of the next submission.
abbrev pub new_item : WorkflowSpec → String → Trigger → Engine → QueueItem
new_item spec name trigger e = record {
  priority = spec.priority;
  sequence = e.sequence_counter;
  spec_name = name;
  trigger = trigger;
}

-- All that a submission leaves alone.
pub record SameRest (e e' : Engine) : Type 0 where
  pub specs : e'.specs ≡ e.specs
  pub lifecycle : e'.lifecycle ≡ e.lifecycle
  pub waiting : e'.waiting ≡ e.waiting
  pub run_log : e'.run_log ≡ e.run_log
  pub shutdown : e'.shutdown ≡ e.shutdown
  pub sdk_context : e'.sdk_context ≡ e.sdk_context
  pub worker : e'.worker ≡ e.worker

-- The run whose specification is found keeps its context, but for the preemption event.
abbrev pub preempts_below : WorkflowSpec → WorkflowSpec → Active → Active
preempts_below spec current a = record a {
  ctx = record (a.ctx) {
    preempt_event = a.ctx.preempt_event || ltb spec.priority current.priority;
  };
}

module _ (name : String) (trigger : Trigger) (e : Engine) where
  pub submit_unknown : Dict.get e.specs name ≡ none → submit name trigger e ≡ e
  unfolding submit
  submit_unknown h = rw (h, submit)

  pub submit_idle :
      (spec : WorkflowSpec)
      → Dict.get e.specs name ≡ some spec
      → e.active ≡ none
      → (submit name trigger e).active ≡ none
  unfolding submit
  submit_idle spec h a = ground arith

  pub submit-queue :
      (spec : WorkflowSpec)
      → Dict.get e.specs name ≡ some spec
      → ((submit name trigger e).queue ≡ e.queue ++ new_item spec name trigger e ∷ [])
        × ((submit name trigger e).sequence_counter ≡ e.sequence_counter + 1)
  unfolding submit
  submit-queue spec h = ground arith

  pub submit-SameRest : SameRest e (submit name trigger e)
  unfolding submit
  submit-SameRest = ground arith

  pub submit-active :
      (spec current : WorkflowSpec) (a : Active)
      → Dict.get e.specs name ≡ some spec
      → e.active ≡ some a
      → Dict.get e.specs a.spec_name ≡ some current
      → (submit name trigger e).active ≡ some (preempts_below spec current a)
  unfolding submit preempt
  submit-active spec current a h k l = ground arith
