-- ===== src/Lib.antt =====
-- Verification of the kai daemon.
--
-- The daemon (src/kai_daemon) is a background process that keeps a self across conversations. Its
-- workflow engine runs one workflow at a time from a priority queue that the startup conditions,
-- the cron thread, finished workflows and other threads submit to; a submission of higher priority
-- signals preemption to the run that is active, through that run's preemption context. Workflows
-- and conversations work on stores, each one dictionary or directory of pydantic records in YAML
-- files, and on pure functions that decide what a turn of a conversation surfaces.
--
-- Parts of the program and the modules that model them:
--   src/kai_daemon/engine.py: Engine. Its state is the record `Engine.Types.Engine`, with the
--     field `worker` for the local variables of `_run_workflow`; each method is a function on it
--     (Engine.Operations, Engine.Run), and Engine.System has the steps that threads interleave.
--     `submit` of another thread is two steps, the item and the signal; `_run_workflow` is two,
--     `begin_run` up to the call of `fn` and `finish_run` after it. The evaluation of one startup
--     condition is one step. Engine.Queue is the priority queue, Engine.Schedule the cron times.
--   src/kai_daemon/workflows/preemption.py: Workflows.Preemption. The three events are Booleans;
--     a wait on an event that is not set is an ending of the call.
--   src/kai_daemon/state/holding.py: State.Holding, on State.Table, the dictionary with its file.
--   src/kai_daemon/state/borderline.py: State.Borderline, on State.Table too.
--   src/kai_daemon/state/scratch.py: State.Scratch.
--   src/kai_daemon/state/push_history.py: State.PushHistory.
--   src/kai_daemon/workflows/inner_life_push_evaluation.py: Workflows.PushEvaluation, on the push
--     history and the holding store.
--   src/kai_daemon/workflows/inner_life_thread_pollination.py: Workflows.Pollination, on the thread
--     store and the scratch store.
--   src/kai_daemon/state/distillation_metrics.py: State.DistillationMetrics.
--   src/kai_daemon/workflows/distillation_health_check.py: Workflows.HealthCheck, on those metrics
--     and the holding store.
--   src/kai_daemon/workflows/episodic_flush.py: Workflows.EpisodicFlush, over callables on any state;
--     the trace of the writes that returned stands beside that state. The rest of the function
--     after each of its calls is a definition of its own (`step_two` to `step_six`).
--   src/kai_daemon/state/local_episodic_store.py, src/kai_daemon/state/episodic.py,
--     src/kai_daemon/state/working_memory.py: State.LocalEpisodic, State.Episodic,
--     State.WorkingMemory.
--   src/kai_daemon/workflows/session_end.py, and `end_session` of
--     src/kai_daemon/workflows/personal_assistant.py: Workflows.SessionEnd.
--   src/kai_daemon/state/retrieval.py: State.Retrieval, with its client as a parameter.
--   src/kai_daemon/sdk.py: Sdk. The code of a workflow is a tree of acts and calls of tools.
--   src/kai_daemon/state/discharge.py: State.Discharge.
--   src/kai_daemon/state/threads.py: State.Threads.
--   src/kai_daemon/state/thread_stack.py: State.ThreadStack.
--   src/kai_daemon/state/register_inference.py: State.Register, without the scoring of words.
--   src/kai_daemon/state/observability.py, src/kai_daemon/state/_types.py: State.Observability,
--     State.Types.
-- Base has Python's dictionaries, exceptions, times, texts and the lemmas on lists.
--
-- Conventions: a method is a function from the object to its outcome, a value or an exception, and
-- the object after it. A time is a count of microseconds. A timestamp that is read is an instant
-- with an offset, one without, or a text that does not parse. Values of `_utcnow()` are arguments.
-- Turn numbers are natural: the turns since the last touch are 0 if that lies ahead. Nothing runs
-- on fuel: every loop is over a list.
--
-- Parameters, for code outside the repository: PyYAML with pydantic's validation
-- (State.Table.Yaml, State.Threads.Files: what was dumped parses back, where the model's
-- validators take it), ChromaDB (State.Threads.Chroma, which may raise), the float operations
-- with the laws of IEEE comparison (State.Floats, State.ThreadStack and State.Register, the last
-- two with laws only where a theorem asks for them), `random.randint`, the order of iteration
-- over a set, the memory server, the answer of a language model, white space and upper case as
-- Unicode has them (Base.Text.Unicode), new ids, `re.finditer`, `splitlines`, `str` of a number,
-- and SQLite as a list of rows that an insert extends or, where it raises, leaves.
--
-- Not modelled: the HTTP servers, the entry point, prompts and calls of language models, the
-- workflows that are made of those, and the stores of the self; the cron thread but for its times;
-- the time of a wait; a write of a store's file that fails; and what other threads do inside
-- one of the engine's steps, so between a prerequisite's check and the addition to the waiting
-- set, or among the submissions that follow a run.
pub mod Base
pub mod State
pub mod Workflows
pub mod Engine
pub mod Sdk
