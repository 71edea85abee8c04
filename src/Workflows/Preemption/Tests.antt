-- ===== src/Workflows/Preemption/Tests.antt =====
-- A workflow that is preempted, checkpoints, is resumed and rolls back.
use kai_daemon.Base.{refl, ◌≡◌, ◌+◌, ◌<◌, ◌⊎◌, true, false, List, [], ◌∷◌, ◌++◌}
use kai_daemon.Workflows.Preemption.{
  suspend, restart, Callables, checkpoint, rollback, cancelled, cooperate, wait_for_checkpoint,
}
use kai_daemon.Workflows.Preemption.Cycle.{
  Session, step, Event, preempts, resumes, cooperates, wakes, run, start, restart_untouched,
}
use kai_daemon.Workflows.Preemption.Suspension.{blocked_until_resumed}
use kai_daemon.Workflows.Preemption.Paired.{tally, failures, one_if, run_paired}

abbrev willing : Callables
willing = record { checkpoint_ok = true; rollback_ok = true }

abbrev cycle : List Event
cycle = preempts ∷ cooperates willing ∷ resumes ∷ wakes willing ∷ []

run_paired_example :
    (tally checkpoint (run (start suspend) cycle).calls
      ≡ tally rollback (run (start suspend) cycle).calls
        + failures (run (start suspend) cycle).endings
        + one_if (run (start suspend) cycle).is_blocked)
    × ((wait_for_checkpoint (run (start suspend) cycle).ctx ≡ false)
        ⊎ (failures (run (start suspend) cycle).endings
            < tally checkpoint (run (start suspend) cycle).calls))
run_paired_example = run_paired suspend cycle

restart_untouched_example :
    ((run (start restart) cycle).calls ≡ [])
    × ((run (start restart) cycle).is_blocked ≡ false)
    × ((run (start restart) cycle).ctx.checkpoint_done_event ≡ false)
    × ((run (start restart) (cycle ++ preempts ∷ cycle)).ctx.preempt_event ≡ true)
    × ((cooperate (run (start restart) (cycle ++ preempts ∷ cycle)).ctx willing).ending ≡ cancelled)
restart_untouched_example = restart_untouched cycle cycle willing

abbrev tries : List Event
tries = cooperates willing ∷ preempts ∷ wakes willing ∷ []

abbrev waiting : Session
waiting = run (step (run (start suspend) (tries ++ preempts ∷ [])) (cooperates willing)) tries

blocked_until_resumed_example :
    (waiting.is_blocked ≡ true)
    × ((step (step waiting resumes) (wakes willing)).is_blocked ≡ false)
    × ((step (step waiting resumes) (wakes willing)).calls ≡ waiting.calls ++ rollback ∷ [])
blocked_until_resumed_example =
    blocked_until_resumed tries [] tries willing willing (tt, (tt, (tt, (tt, tt))))
      (tt, (tt, (tt, tt))) refl
