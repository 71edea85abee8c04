-- ===== src/Engine/Sound.antt =====
-- The invariant of the engine's state, kept by every step of every thread.
pub mod Atoms
pub mod Steps
use kai_daemon.Base.{ℕ, ◌<◌, ◌≡◌, false, Option, none, some, String, List, [], ◌∷◌, All}
use kai_daemon.Base.Dict
use kai_daemon.Base.Dict.{Dict, IsKeyed, IsDistinct}
use kai_daemon.Engine.Queue.{IsAscending}
use kai_daemon.Engine.Types.{WorkflowSpec, QueueItem, Active, Running, Engine}

abbrev pub IsRegistered : Dict WorkflowSpec → String → Type 0
IsRegistered specs name = (spec : WorkflowSpec) × (Dict.get specs name ≡ some spec)

-- The active context is that of the worker's run; its `resume` was never called.
abbrev pub IsCurrent : Dict WorkflowSpec → Option Running → Option Active → Type 0
IsCurrent specs none none = Unit
IsCurrent specs (some r) (some a) =
    (a.spec_name ≡ r.spec.name)
    × (Dict.get specs r.spec.name ≡ some r.spec)
    × (a.ctx.mode ≡ r.spec.preemption_mode)
    × (a.ctx.resume_event ≡ false)
    × (a.ctx.checkpoint_done_event ≡ false)
IsCurrent specs none (some a) = ⊥
IsCurrent specs (some r) none = ⊥

pub record IsSound (e : Engine) : Type 0 where
  pub keyed : IsKeyed (λ s. s.name) e.specs
  pub distinct : IsDistinct e.specs
  pub numbered : All (λ i. i.sequence < e.sequence_counter) e.queue
  pub ascending : IsAscending e.queue
  pub queued : All (λ i. IsRegistered e.specs i.spec_name) e.queue
  pub waiters : All (IsRegistered e.specs) e.waiting
  pub current : IsCurrent e.specs e.worker e.active
