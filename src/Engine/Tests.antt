-- ===== src/Engine/Tests.antt =====
-- The engine on three workflows: `seeding` at start, `greeting` that requires it, and `digest` that
-- is chained after it.
use kai_daemon.Base.{
  ◌≡◌, refl, ℕ, ◌+◌, ◌*◌, ◌≤◌, ◌<◌, ◌%◌, ◌/◌, true, false, none, some, [], ◌∷◌, ◌⊎◌, arith, filter,
}
use mathlib.Core.List.Perm
use kai_daemon.Base.Dict
use kai_daemon.Base.Time.{aware, second, hour, day}
use kai_daemon.Base.Outcome.{return}
use kai_daemon.Workflows.Preemption.{suspend, restart, new_context}
use kai_daemon.Engine.Types.{
  startup_condition, cron_weekly, workflow_completed, pending, of_type, after, WorkflowSpec,
  Running, Engine, World, new_engine, FnResult, returns, cancels,
}
use kai_daemon.Engine.Operations.{
  register, submit, enqueue, signal, start_spec, eval_condition, builtin_condition, get_lifecycle,
  add_name, enqueue_spec, unblock_waiters, is_unblocked, find_specs, enqueue_all,
}
use kai_daemon.Engine.Queue.{get_least}
use kai_daemon.Engine.Run.{
  chains, submit_all, fire_chained_triggers, begin_run, settle, resubmit, follow_up, finish_run,
  take_item,
}
use kai_daemon.Engine.System.{registers, starts, enqueues, signals, takes, Reach, here, next}
use kai_daemon.Engine.Submit.{new_item, SameRest}
use kai_daemon.Engine.Sound.{IsSound}
use kai_daemon.Engine.Sound.Steps.{Reach-IsSound}
use kai_daemon.Engine.Order.{Takes, Takes-first}
use kai_daemon.Engine.Preempting.{Preempts, submit_lem}
use kai_daemon.Engine.Completion.{runs}
use kai_daemon.Engine.Endings.{IsSettled, finish_cancelled, finish_succeeded}
use kai_daemon.Engine.Schedule.{
  seconds_until_next_run, next_run_lem, seconds_until_random_window, random_window_lem, target_hour,
}

abbrev here_world : World
here_world = record {
  no_daemon_self = true;
  user_yaml_empty = false;
  push_signal = λ _. true;
  memory_server_available = true;
  set_order = λ l. l;
  set_order_perm = λ l. Perm.rfl;
}

abbrev base : WorkflowSpec
base = record {
  name = "seeding";
  trigger = startup_condition;
  priority = 5;
  preemption_mode = suspend;
  condition = some "no_daemon_self";
  condition_fn = none;
  requires = none;
  trigger_after = none;
  cron_hour = none;
  cron_window_start = none;
  cron_window_end = none;
  push_signal_required = false;
  allowed_tools = [];
}

abbrev greeting : WorkflowSpec
greeting = record base {
  name = "greeting";
  priority = 1;
  preemption_mode = restart;
  requires = some "seeding";
}

abbrev digest : WorkflowSpec
digest = record base {
  name = "digest";
  trigger = workflow_completed;
  trigger_after = some "seeding";
}

abbrev registered : Engine
registered = register digest (register greeting (register base new_engine))

abbrev started : Engine
started = start_spec here_world (start_spec here_world registered base) greeting

abbrev busy : Engine
busy = take_item (aware 7) started

abbrev seeding_run : Running
seeding_run = record {
  spec = base;
  trigger = of_type startup_condition;
  started_at = aware 7;
  token = none;
}

started-Reach : Reach started
unfolding register new_engine start_spec eval_condition builtin_condition get_lifecycle add_name
    enqueue_spec submit enqueue signal Dict.get Dict.put
started-Reach =
    let s0 : Reach (register base new_engine) = next here (registers base _ refl) in
    let s1 : Reach (register greeting (register base new_engine)) =
      next s0 (registers greeting _ refl) in
    let s2 : Reach registered = next s1 (registers digest _ refl) in
    let s3 : Reach (start_spec here_world registered base) =
      next s2 (starts here_world base _ refl) in
    next s3 (starts here_world greeting _ refl)

busy-Reach : Reach busy
unfolding register new_engine start_spec eval_condition builtin_condition get_lifecycle add_name
    enqueue_spec submit enqueue signal Dict.get Dict.put
busy-Reach = next started-Reach (takes (aware 7) _ refl)

Reach-IsSound_example : IsSound busy
Reach-IsSound_example = Reach-IsSound busy-Reach

Takes-first_example : Takes (aware 7) started
unfolding register new_engine start_spec eval_condition builtin_condition get_lifecycle add_name
    enqueue_spec submit enqueue signal Dict.get Dict.put
Takes-first_example =
    Takes-first (aware 7)
      (record {
        priority = 5;
        sequence = 0;
        spec_name = "seeding";
        trigger = of_type startup_condition;
      })
      [] started-Reach refl refl

abbrev finished : FnResult → Engine
finished result = finish_run here_world (aware 9) result seeding_run busy

finish_succeeded_example :
    IsSettled here_world (aware 9) returns seeding_run busy (finished returns)
    × (runs (finished returns).queue
        ≡ ("greeting", of_type startup_condition) ∷ ("digest", after "seeding") ∷ [])
    × ((finished returns).waiting ≡ [])
unfolding register new_engine start_spec eval_condition builtin_condition get_lifecycle add_name
    enqueue_spec submit enqueue signal Dict.get Dict.put take_item get_least begin_run new_context
    finish_run settle resubmit follow_up unblock_waiters is_unblocked find_specs enqueue_all
    fire_chained_triggers chains submit_all filter
finish_succeeded_example = finish_succeeded here_world (aware 9) seeding_run busy-Reach refl

finish_cancelled_example :
    IsSettled here_world (aware 9) cancels seeding_run busy (finished cancels)
    × (runs (finished cancels).queue ≡ ("seeding", of_type startup_condition) ∷ [])
    × ((finished cancels).waiting ≡ "greeting" ∷ [])
    × (Dict.get (finished cancels).lifecycle "seeding" ≡ some pending)
unfolding register new_engine start_spec eval_condition builtin_condition get_lifecycle add_name
    enqueue_spec submit enqueue signal Dict.get Dict.put take_item get_least begin_run new_context
finish_cancelled_example = finish_cancelled here_world (aware 9) seeding_run busy-Reach refl

abbrev hurried : Engine
hurried = submit "greeting" (of_type startup_condition) busy

submit_example :
    (hurried.queue ≡ new_item greeting "greeting" (of_type startup_condition) busy ∷ [])
    × (hurried.sequence_counter ≡ 2)
    × SameRest busy hurried
    × (((busy.worker ≡ none) × (hurried.active ≡ none))
        ⊎ ((r : Running) × (busy.worker ≡ some r) × Preempts greeting r busy hurried))
unfolding register new_engine start_spec eval_condition builtin_condition get_lifecycle add_name
    enqueue_spec submit enqueue signal Dict.get Dict.put take_item get_least begin_run new_context
submit_example = submit_lem "greeting" (of_type startup_condition) greeting busy-Reach refl

hurried-Reach : Reach hurried
unfolding register new_engine start_spec eval_condition builtin_condition get_lifecycle add_name
    enqueue_spec submit enqueue signal Dict.get Dict.put take_item get_least begin_run new_context
hurried-Reach =
    let s : Reach (enqueue greeting "greeting" (of_type startup_condition) busy) =
      next busy-Reach (enqueues "greeting" greeting (of_type startup_condition) _ refl) in
    next s (signals greeting _)

abbrev weekly : WorkflowSpec
weekly = record base { name = "weekly"; trigger = cron_weekly; cron_hour = some 3 }

next_run_example :
    (d : ℕ) × (seconds_until_next_run (5 * hour) weekly ≡ return (some d))
    × (0 < d)
    × (d ≤ day)
    × ((5 * hour + d) % day ≡ 3 * hour)
unfolding target_hour
next_run_example = next_run_lem (5 * hour) 3 weekly refl (omega arith)

random_window_example :
    (d : ℕ) × (seconds_until_random_window (λ n. n / 2) (5 * hour) 9 17 ≡ return d)
    × (second / 10 ≤ d)
    × (((9 * hour ≤ (5 * hour + d) % day) × ((5 * hour + d) % day ≤ 17 * hour))
        ⊎ ((9 * hour ≤ 5 * hour % day)
            × (5 * hour % day < 17 * hour)
            × (17 * hour < 5 * hour % day + 11 * second)
            × (d ≤ 11 * second)))
random_window_example =
    random_window_lem (λ n. n / 2) (5 * hour) 9 17 (λ n. omega arith) (omega arith) (omega arith)
