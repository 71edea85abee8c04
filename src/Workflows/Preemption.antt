-- ===== src/Workflows/Preemption.antt =====
-- src/kai_daemon/workflows/preemption.py: the three events of a `PreemptionContext`, and what
-- `cooperate` does with them. A thread that waits for `resume` is a `blocked` ending; what it does
-- once the event is set is `wake`.
pub mod Cycle
pub mod Suspension
pub mod Paired
mod Tests
use kai_daemon.Base.{Bool, true, false, List, [], ◌∷◌, ◌++◌, if◌then◌else◌}

pub data PreemptionMode : Type 0 where
  suspend restart : PreemptionMode

pub record PreemptionContext : Type 0 where
  pub mode : PreemptionMode
  pub preempt_event : Bool
  pub checkpoint_done_event : Bool
  pub resume_event : Bool

unfoldable pub new_context : PreemptionMode → PreemptionContext
new_context mode = record {
  mode = mode;
  preempt_event = false;
  checkpoint_done_event = false;
  resume_event = false;
}

abbrev pub is_preempted : PreemptionContext → Bool
is_preempted ctx = ctx.preempt_event

unfoldable pub preempt : PreemptionContext → PreemptionContext
preempt ctx = record ctx { preempt_event = true }

unfoldable pub resume : PreemptionContext → PreemptionContext
resume ctx = record ctx { resume_event = true }

-- What `wait_for_checkpoint` returns, if the event is not set while it waits.
abbrev pub wait_for_checkpoint : PreemptionContext → Bool
wait_for_checkpoint ctx = ctx.checkpoint_done_event

-- The two callables that a workflow gives to `cooperate`: whether they return or raise.
pub record Callables : Type 0 where
  pub checkpoint_ok : Bool
  pub rollback_ok : Bool

pub data Effect : Type 0 where
  checkpoint rollback : Effect

pub data Ending : Type 0 where
  returned cancelled checkpoint_error rollback_error blocked : Ending

-- The context after the call, the callables that it called, and how the call ended.
pub record Cooperation : Type 0 where
  pub ctx : PreemptionContext
  pub calls : List Effect
  pub ending : Ending

-- `self._resume_event.wait(); rollback_fn()`
unfoldable pub wake : PreemptionContext → Callables → Cooperation
wake ctx fns =
    if ctx.resume_event
    then record {
      ctx = ctx;
      calls = rollback ∷ [];
      ending = if fns.rollback_ok then returned else rollback_error;
    }
    else record { ctx = ctx; calls = []; ending = blocked }

abbrev pub after_call : Effect → Cooperation → Cooperation
after_call f c = record c { calls = f ∷ c.calls }

abbrev suspend_run : PreemptionContext → Callables → Cooperation
suspend_run ctx fns =
    if fns.checkpoint_ok
    then after_call checkpoint (wake (record ctx { checkpoint_done_event = true }) fns)
    else record { ctx = ctx; calls = checkpoint ∷ []; ending = checkpoint_error }

abbrev by_mode : PreemptionMode → PreemptionContext → Callables → Cooperation
by_mode restart ctx fns = record { ctx = ctx; calls = []; ending = cancelled }
by_mode suspend ctx fns = suspend_run ctx fns

unfoldable pub cooperate : PreemptionContext → Callables → Cooperation
unfolding wake
cooperate ctx fns =
    if ctx.preempt_event
    then by_mode ctx.mode ctx fns
    else record { ctx = ctx; calls = []; ending = returned }
