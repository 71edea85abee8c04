-- ===== src/Engine/System.antt =====
-- The engine among its threads: the steps that any thread may take, and the states they reach.
use kai_daemon.Base.{◌≡◌, true, none, some, String}
use kai_daemon.Base.Dict
use kai_daemon.Base.Time.{Stamp}
use kai_daemon.Engine.Types.{WorkflowSpec, Trigger, Engine, Running, FnResult, World, new_engine}
use kai_daemon.Engine.Operations.{register, enqueue, signal, start_spec}
use kai_daemon.Engine.Run.{take_item, finish_run}

-- A step of one thread. The main thread registers specifications, evaluates the startup condition
-- of one after the other, and shuts down. Any thread submits, in two steps with the steps of others
-- between them: the item, then the preemption signal. The worker takes an item when it is idle, and
-- ends the run that it is in. What is outside may be another at each step.
pub data Step : Engine → Engine → Type 0 where
  registers : (spec : WorkflowSpec) (e : Engine) → e.worker ≡ none → Step e (register spec e)
  starts :
      (world : World) (spec : WorkflowSpec) (e : Engine)
      → Dict.get e.specs spec.name ≡ some spec
      → Step e (start_spec world e spec)
  enqueues :
      (name : String) (spec : WorkflowSpec) (trigger : Trigger) (e : Engine)
      → Dict.get e.specs name ≡ some spec
      → Step e (enqueue spec name trigger e)
  signals : (spec : WorkflowSpec) (e : Engine) → Step e (signal spec e)
  takes : (now : Stamp) (e : Engine) → e.worker ≡ none → Step e (take_item now e)
  finishes :
      (world : World) (now : Stamp) (result : FnResult) (r : Running) (e : Engine)
      → e.worker ≡ some r
      → Step e (finish_run world now result r e)
  shuts_down : (e : Engine) → Step e (record e { shutdown = true })

-- The states that an engine reaches from its constructor.
pub data Reach : Engine → Type 0 where
  here : Reach new_engine
  next : {e e' : Engine} → Reach e → Step e e' → Reach e'
