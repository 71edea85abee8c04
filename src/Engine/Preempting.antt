-- ===== src/Engine/Preempting.antt =====
-- When a submission preempts the run that the worker is in, and what then becomes of the run.
use kai_daemon.Base.{
  ap, ◌∙◌, ◌+◌, ◌≡◌, refl, ◌⊎◌, inl, inr, Option, none, some, String, [], ◌∷◌, ◌++◌,
}
use kai_daemon.Base.Dict
use kai_daemon.Base.Dict.{Dict}
use kai_daemon.Engine.Types.{Trigger, WorkflowSpec, Active, Running, Engine}
use kai_daemon.Engine.Operations.{submit}
use kai_daemon.Engine.System.{Reach}
use kai_daemon.Engine.Sound.{IsCurrent}
use kai_daemon.Engine.Sound.Steps.{Reach-IsSound}
use kai_daemon.Engine.Submit.{
  new_item, SameRest, preempts_below, submit-queue, submit-SameRest, submit-active, submit_idle,
}

-- The active run after a submission of `spec` while `r` runs.
pub record Preempts (spec : WorkflowSpec) (r : Running) (e e' : Engine) : Type 0 where
  pub old : Active
  pub was_active : e.active ≡ some old
  pub is_active : e'.active ≡ some (preempts_below spec r.spec old)

-- A submission of a registered workflow in a reachable state puts one item at the end of the queue,
-- under the next sequence number; it sets the preemption event of the active context exactly when
-- the running workflow has a greater priority number (and clears it never); with no run there is no
-- active context; nothing else changes.
pub submit_lem :
    {e : Engine} (name : String) (trigger : Trigger) (spec : WorkflowSpec)
    → Reach e
    → Dict.get e.specs name ≡ some spec
    → ((submit name trigger e).queue ≡ e.queue ++ new_item spec name trigger e ∷ [])
      × ((submit name trigger e).sequence_counter ≡ e.sequence_counter + 1)
      × SameRest e (submit name trigger e)
      × (((e.worker ≡ none) × ((submit name trigger e).active ≡ none))
          ⊎ ((r : Running) × (e.worker ≡ some r) × Preempts spec r e (submit name trigger e)))
submit_lem {e} name trigger spec reach found =
    let (q, n) = submit-queue name trigger e spec found in
    (
      q,
      n,
      submit-SameRest name trigger e,
      by_worker e.worker e.active refl refl (Reach-IsSound reach).current,
    )
  where
    by_worker :
        (w : Option Running) (o : Option Active)
        → e.worker ≡ w
        → e.active ≡ o
        → IsCurrent e.specs w o
        → ((e.worker ≡ none) × ((submit name trigger e).active ≡ none))
          ⊎ ((r : Running) × (e.worker ≡ some r) × Preempts spec r e (submit name trigger e))
    by_worker none none pw po h = inl (pw, submit_idle name trigger e spec found po)
    by_worker none (some a) pw po h = absurd h
    by_worker (some r) none pw po h = absurd h
    by_worker (some r) (some a) pw po h = inr (
      r,
      pw,
      record {
        old = a;
        was_active = po;
        is_active =
            submit-active name trigger e spec r.spec a found po (ap (Dict.get e.specs) h.0 ∙ h.1);
      },
    )
