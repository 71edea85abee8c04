-- ===== src/Workflows/Preemption/Suspension.antt =====
-- A workflow that is suspended waits for `resume`, and for nothing else.
use kai_daemon.Base.{
  Never, ◌≡◌, refl, true, false, List, [], ◌∷◌, ◌++◌, All, arith, Bool-cases, inl, inr,
}
use kai_daemon.Workflows.Preemption.{
  suspend, new_context, preempt, resume, Callables, rollback, wake, cooperate,
}
use kai_daemon.Workflows.Preemption.Cycle.{
  Session, Event, preempts, resumes, cooperates, wakes, step, run, start, preempted_stays,
}

abbrev pub IsNoResume : Event → Type 0
IsNoResume resumes = Never
IsNoResume _ = Unit

record IsWaiting (s : Session) : Type 0 where
  mode : s.ctx.mode ≡ suspend
  silent : s.ctx.resume_event ≡ false

step-IsWaiting : (s : Session) (e : Event) → IsNoResume e → IsWaiting s → IsWaiting (step s e)
unfolding step cooperate preempt wake
step-IsWaiting s preempts n h = ground arith
step-IsWaiting s resumes n h = elim n [ ]
step-IsWaiting s (cooperates fns) n h = ground arith
step-IsWaiting s (wakes fns) n h = ground arith

run-IsWaiting :
    (s : Session) (es : List Event) → All IsNoResume es → IsWaiting s → IsWaiting (run s es)
unfolding run
run-IsWaiting s [] n h = h
run-IsWaiting s (e ∷ es) n h = run-IsWaiting (step s e) es n.1 (step-IsWaiting s e n.0 h)

step-blocked :
    (s : Session) (e : Event)
    → IsNoResume e
    → IsWaiting s
    → s.is_blocked ≡ true
    → (step s e).is_blocked ≡ true
unfolding step cooperate preempt wake
step-blocked s preempts n h b = b
step-blocked s resumes n h b = elim n [ ]
step-blocked s (cooperates fns) n h b = ground arith
step-blocked s (wakes fns) n h b = ground arith

run-blocked :
    (s : Session) (es : List Event)
    → All IsNoResume es
    → IsWaiting s
    → s.is_blocked ≡ true
    → (run s es).is_blocked ≡ true
unfolding run
run-blocked s [] n h b = b
run-blocked s (e ∷ es) n h b =
    run-blocked (step s e) es n.1 (step-IsWaiting s e n.0 h) (step-blocked s e n.0 h b)

cooperate_blocks :
    (s : Session) (fns : Callables)
    → IsWaiting s
    → s.ctx.preempt_event ≡ true
    → fns.checkpoint_ok ≡ true
    → (step s (cooperates fns)).is_blocked ≡ true
unfolding step cooperate wake
cooperate_blocks s fns h p ok = elim (Bool-cases s.is_blocked) [
  | inl blocked_now ↦ ground arith
  | inr free ↦ ground arith
]

wake_after_resume :
    (s : Session) (fns : Callables)
    → s.is_blocked ≡ true
    → ((step (step s resumes) (wakes fns)).is_blocked ≡ false)
      × ((step (step s resumes) (wakes fns)).calls ≡ s.calls ++ rollback ∷ [])
unfolding step resume wake
wake_after_resume s fns b = (ground arith, ground arith)

start-IsWaiting : IsWaiting (start suspend)
unfolding start new_context
start-IsWaiting = record { mode = refl; silent = refl }

-- In suspend mode, a workflow that cooperates after it was preempted, with a checkpoint that
-- returns, is blocked, and stays so through any preemptions, cooperations and wakes as long as
-- `resume` is not called; once it is, the next wake rolls back and leaves it unblocked.
pub blocked_until_resumed :
    (before after es : List Event) (fns later : Callables)
    → All IsNoResume (before ++ preempts ∷ after)
    → All IsNoResume es
    → fns.checkpoint_ok ≡ true
    → let s = run (step (run (start suspend) (before ++ preempts ∷ after)) (cooperates fns)) es in
      (s.is_blocked ≡ true)
      × ((step (step s resumes) (wakes later)).is_blocked ≡ false)
      × ((step (step s resumes) (wakes later)).calls ≡ s.calls ++ rollback ∷ [])
blocked_until_resumed before after es fns later n m ok =
    let s₁ = run (start suspend) (before ++ preempts ∷ after) in
    let h₁ = run-IsWaiting (start suspend) (before ++ preempts ∷ after) n start-IsWaiting in
    let b₁ = cooperate_blocks s₁ fns h₁ (preempted_stays (start suspend) before after) ok in
    let h₂ = step-IsWaiting s₁ (cooperates fns) tt h₁ in
    let b = run-blocked (step s₁ (cooperates fns)) es m h₂ b₁ in
    let w = wake_after_resume (run (step s₁ (cooperates fns)) es) later b in (b, w.0, w.1)
