-- ===== src/Workflows/Preemption/Paired.antt =====
-- Every checkpoint that a context's workflow takes is accounted for.
use kai_daemon.Base.{
  ℕ, suc, ◌+◌, ◌<◌, ◌≤◌, ◌≡◌, refl, ◌⊎◌, inl, inr, Bool, true, false, List, [], ◌∷◌, ◌++◌, arith,
  Bool-cases,
}
use kai_daemon.Workflows.Preemption.{
  PreemptionMode, PreemptionContext, new_context, preempt, resume, Callables, Effect, checkpoint,
  rollback, Ending, checkpoint_error, Cooperation, wake, cooperate, wait_for_checkpoint,
}
use kai_daemon.Workflows.Preemption.Cycle.{
  Session, Event, preempts, resumes, cooperates, wakes, note, is_waiting, step, run, start,
}

abbrev pub tally : Effect → List Effect → ℕ
tally checkpoint [] = 0
tally checkpoint (checkpoint ∷ l) = suc (tally checkpoint l)
tally checkpoint (rollback ∷ l) = tally checkpoint l
tally rollback [] = 0
tally rollback (rollback ∷ l) = suc (tally rollback l)
tally rollback (checkpoint ∷ l) = tally rollback l

abbrev failed : Ending → ℕ
failed checkpoint_error = 1
failed _ = 0

abbrev pub failures : List Ending → ℕ
failures [] = 0
failures (e ∷ l) = failed e + failures l

abbrev pub one_if : Bool → ℕ
one_if true = 1
one_if false = 0

tally-append : (f : Effect) (l m : List Effect) → tally f (l ++ m) ≡ tally f l + tally f m
tally-append checkpoint [] m = omega arith
tally-append checkpoint (checkpoint ∷ l) m = omega (arith, tally-append checkpoint l m)
tally-append checkpoint (rollback ∷ l) m = omega (arith, tally-append checkpoint l m)
tally-append rollback [] m = omega arith
tally-append rollback (rollback ∷ l) m = omega (arith, tally-append rollback l m)
tally-append rollback (checkpoint ∷ l) m = omega (arith, tally-append rollback l m)

-- Each checkpoint is rolled back, or raised, or is the one that a blocked workflow waits on.
record IsPaired (s : Session) : Type 0 where
  paired :
      tally checkpoint s.calls ≡ tally rollback s.calls + failures s.endings + one_if s.is_blocked
  confirmed :
      (s.ctx.checkpoint_done_event ≡ false) ⊎ (failures s.endings < tally checkpoint s.calls)

-- The calls of one cooperation, where `open_before` checkpoints wait before it.
abbrev Counts : ℕ → PreemptionContext → Cooperation → Type 0
Counts open_before ctx c =
    (open_before + tally checkpoint c.calls
      ≡ tally rollback c.calls + failed c.ending + one_if (is_waiting c.ending))
    × ((c.ctx.checkpoint_done_event ≡ ctx.checkpoint_done_event)
          × (failed c.ending ≤ tally checkpoint c.calls)
        ⊎ (failed c.ending < tally checkpoint c.calls))

wake_lem : (ctx : PreemptionContext) (fns : Callables) → Counts 1 ctx (wake ctx fns)
unfolding wake
wake_lem ctx fns = ground arith

cooperate_lem : (ctx : PreemptionContext) (fns : Callables) → Counts 0 ctx (cooperate ctx fns)
unfolding cooperate
cooperate_lem ctx fns = ground arith

note-IsPaired :
    (s : Session) (c : Cooperation) (n : ℕ)
    → one_if s.is_blocked ≡ n
    → IsPaired s
    → Counts n s.ctx c
    → IsPaired (note s c)
note-IsPaired s c n e h k = record {
  paired =
      omega (arith, tally-append checkpoint s.calls c.calls, tally-append rollback s.calls c.calls);
  confirmed = ground (arith, tally-append checkpoint s.calls c.calls, k.1, h.confirmed);
}

step-IsPaired : (e : Event) (s : Session) → IsPaired s → IsPaired (step s e)
unfolding step cooperate preempt resume
step-IsPaired preempts s h = ground arith
step-IsPaired resumes s h = ground arith
step-IsPaired (cooperates fns) s h = elim (Bool-cases s.is_blocked) [
  | inl stays ↦ simp stays h
  | inr free ↦
      simp free (note-IsPaired s (cooperate s.ctx fns) 0 (rw free) h (cooperate_lem s.ctx fns))
]
step-IsPaired (wakes fns) s h = elim (Bool-cases s.is_blocked) [
  | inl waits ↦ simp waits (note-IsPaired s (wake s.ctx fns) 1 (rw waits) h (wake_lem s.ctx fns))
  | inr free ↦ simp free h
]

run-IsPaired : (s : Session) (es : List Event) → IsPaired s → IsPaired (run s es)
unfolding run
run-IsPaired s [] h = h
run-IsPaired s (e ∷ es) h = run-IsPaired (step s e) es (step-IsPaired e s h)

-- Whatever the engine and the workflow do, in either mode: every checkpoint call was rolled back,
-- or raised, or is the one that the workflow is blocked on; and `wait_for_checkpoint` reports a
-- checkpoint only if some checkpoint call did not raise.
pub run_paired :
    (mode : PreemptionMode) (es : List Event)
    → (tally checkpoint (run (start mode) es).calls
        ≡ tally rollback (run (start mode) es).calls
          + failures (run (start mode) es).endings
          + one_if (run (start mode) es).is_blocked)
      × ((wait_for_checkpoint (run (start mode) es).ctx ≡ false)
          ⊎ (failures (run (start mode) es).endings < tally checkpoint (run (start mode) es).calls))
unfolding start new_context
run_paired mode es =
    let p = run-IsPaired (start mode) es (record { paired = refl; confirmed = inl refl }) in
    (p.paired, p.confirmed)
