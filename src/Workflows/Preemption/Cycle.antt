-- ===== src/Workflows/Preemption/Cycle.antt =====
-- A context between an engine that preempts and resumes when it likes and a workflow that
-- cooperates when it is not blocked.
use kai_daemon.Base.{
  refl, ap, ◌∙◌, ◌≢◌, ◌≡◌, Bool, true, false, List, [], ◌∷◌, ◌++◌, arith, if◌then◌else◌,
}
use kai_daemon.Workflows.Preemption.{
  cancelled, PreemptionMode, restart, PreemptionContext, new_context, preempt, resume, Callables,
  Effect, Ending, blocked, Cooperation, wake, cooperate,
}

-- One round of the protocol: `calls` is every callable that was called and returned or raised, in
-- order, and `fns` the callables of the `cooperate` call that is blocked, if one is.
pub record Session : Type 0 where
  pub ctx : PreemptionContext
  pub is_blocked : Bool
  pub calls : List Effect
  pub endings : List Ending

abbrev pub is_waiting : Ending → Bool
is_waiting blocked = true
is_waiting _ = false

pub data Event : Type 0 where
  preempts resumes : Event
  cooperates : Callables → Event
  wakes : Callables → Event

abbrev pub note : Session → Cooperation → Session
note s c = record {
  ctx = c.ctx;
  is_blocked = is_waiting c.ending;
  calls = s.calls ++ c.calls;
  endings = c.ending ∷ s.endings;
}

-- The workflow's thread can cooperate only when it is not blocked, and wake only when it is.
unfoldable pub step : Session → Event → Session
step s preempts = record s { ctx = preempt s.ctx }
step s resumes = record s { ctx = resume s.ctx }
step s (cooperates fns) = if s.is_blocked then s else note s (cooperate s.ctx fns)
step s (wakes fns) = if s.is_blocked then note s (wake s.ctx fns) else s

unfoldable pub run : Session → List Event → Session
run s [] = s
run s (e ∷ es) = run (step s e) es

unfoldable pub start : PreemptionMode → Session
start mode = record { ctx = new_context mode; is_blocked = false; calls = []; endings = [] }

-- A context in restart mode that no `cooperate` has changed.
record IsUntouched (s : Session) : Type 0 where
  restarts : s.ctx.mode ≡ restart
  free : s.is_blocked ≡ false
  quiet : s.calls ≡ []
  unsaved : s.ctx.checkpoint_done_event ≡ false

step-IsUntouched : (e : Event) (s : Session) → IsUntouched s → IsUntouched (step s e)
unfolding step cooperate preempt resume
step-IsUntouched preempts s h = ground arith
step-IsUntouched resumes s h = ground arith
step-IsUntouched (cooperates fns) s h = ground arith
step-IsUntouched (wakes fns) s h = ground arith

run-IsUntouched : (s : Session) (es : List Event) → IsUntouched s → IsUntouched (run s es)
unfolding run
run-IsUntouched s [] h = h
run-IsUntouched s (e ∷ es) h = run-IsUntouched (step s e) es (step-IsUntouched e s h)

step-preempted :
    (s : Session) (e : Event) → s.ctx.preempt_event ≡ true → (step s e).ctx.preempt_event ≡ true
unfolding step cooperate preempt resume
step-preempted s preempts h = ground arith
step-preempted s resumes h = ground arith
step-preempted s (cooperates fns) h = ground arith
step-preempted s (wakes fns) h = ground arith

run-preempted :
    (s : Session) (es : List Event)
    → s.ctx.preempt_event ≡ true
    → (run s es).ctx.preempt_event ≡ true
unfolding run
run-preempted s [] h = h
run-preempted s (e ∷ es) h = run-preempted (step s e) es (step-preempted s e h)

run-append : (s : Session) (es fs : List Event) → run s (es ++ fs) ≡ run (run s es) fs
unfolding run
run-append s [] fs = refl
run-append s (e ∷ es) fs = run-append (step s e) es fs

-- Once it was preempted, a context stays so.
pub preempted_stays :
    (s : Session) (before es : List Event)
    → (run s (before ++ preempts ∷ es)).ctx.preempt_event ≡ true
unfolding run step preempt
preempted_stays s before es =
    ap (λ r. r.ctx.preempt_event) (run-append s before (preempts ∷ es))
    ∙ run-preempted (step (run s before) preempts) es refl

start-IsUntouched : IsUntouched (start restart)
unfolding start new_context
start-IsUntouched = record { restarts = refl; free = refl; quiet = refl; unsaved = refl }

-- In restart mode, whatever the engine and the workflow do, no checkpoint or rollback is ever
-- called, the workflow is never blocked and no checkpoint is confirmed; and once the context has
-- been preempted, after any other events and before any, a `cooperate` raises the cancellation.
pub restart_untouched :
    (before es : List Event) (fns : Callables)
    → ((run (start restart) es).calls ≡ [])
      × ((run (start restart) es).is_blocked ≡ false)
      × ((run (start restart) es).ctx.checkpoint_done_event ≡ false)
      × ((run (start restart) (before ++ preempts ∷ es)).ctx.preempt_event ≡ true)
      × ((cooperate (run (start restart) (before ++ preempts ∷ es)).ctx fns).ending ≡ cancelled)
unfolding start new_context run step preempt cooperate
restart_untouched before es fns =
    let u = run-IsUntouched (start restart) es start-IsUntouched in
    let p = preempted_stays (start restart) before es in
    let v = run-IsUntouched (start restart) (before ++ preempts ∷ es) start-IsUntouched in
    (u.quiet, u.free, u.unsaved, p, ground arith)

step-resumed :
    (s : Session) (e : Event) → s.ctx.resume_event ≡ true → (step s e).ctx.resume_event ≡ true
unfolding step cooperate preempt resume
step-resumed s preempts h = ground arith
step-resumed s resumes h = refl
step-resumed s (cooperates fns) h = ground arith
step-resumed s (wakes fns) h = ground arith

run-resumed :
    (s : Session) (es : List Event) → s.ctx.resume_event ≡ true → (run s es).ctx.resume_event ≡ true
unfolding run
run-resumed s [] h = h
run-resumed s (e ∷ es) h = run-resumed (step s e) es (step-resumed s e h)

-- Once `resume` was called, before or after the workflow blocks, no later wake or cooperation
-- leaves the workflow blocked.
pub resume_unblocks :
    (s : Session) (es : List Event) (fns : Callables)
    → ((step (run (step s resumes) es) (wakes fns)).is_blocked ≡ false)
      × ((cooperate (run (step s resumes) es).ctx fns).ending ≢ blocked)
unfolding step cooperate
resume_unblocks s es fns =
    let r = run-resumed (step s resumes) es (unfold resume in refl) in (ground arith, ground arith)
