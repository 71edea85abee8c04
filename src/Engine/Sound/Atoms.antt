-- ===== src/Engine/Sound/Atoms.antt =====
-- The invariant through the smallest changes of the engine's state.
use kai_daemon.Base.{
  ℕ, ◌+◌, ◌<◌, ◌≡◌, not, inl, inr, Option, none, some, String, List, [], ◌∷◌, ◌++◌, arith, All,
  All-map, All-append, All-filter, filter, Option-cases,
}
use kai_daemon.Base.Dict
use kai_daemon.Base.Dict.{Dict, get-put, put-IsKeyed, get-IsKeyed}
use kai_daemon.Workflows.Preemption.{preempt}
use kai_daemon.Engine.Types.{
  WorkflowSpec, WorkflowLifecycle, pending, Trigger, QueueItem, Active, Running, Engine, World,
  new_engine,
}
use kai_daemon.Engine.Queue.{IsAscending}
use kai_daemon.Engine.Operations.{
  set_lifecycle, enqueue, signal, submit, enqueue_spec, enqueue_all, preempt_below, preempt_active,
  unblock_waiters, is_unblocked, find_specs,
}
use kai_daemon.Engine.Run.{submit_all}
use kai_daemon.Engine.Sound.{IsRegistered, IsCurrent, IsSound}

pub new_engine-IsSound : IsSound new_engine
unfolding new_engine
new_engine-IsSound = record {
  keyed = tt;
  distinct = tt;
  numbered = tt;
  ascending = tt;
  queued = tt;
  waiters = tt;
  current = tt;
}

pub set_lifecycle-IsSound :
    (name : String) (state : WorkflowLifecycle) (e : Engine)
    → IsSound e
    → IsSound (set_lifecycle name state e)
set_lifecycle-IsSound name state e h = record {
  keyed = h.keyed;
  distinct = h.distinct;
  numbered = h.numbered;
  ascending = h.ascending;
  queued = h.queued;
  waiters = h.waiters;
  current = h.current;
}

IsAscending-snoc :
    (q : List QueueItem) (i : QueueItem)
    → All (λ j. j.sequence < i.sequence) q
    → IsAscending q
    → IsAscending (q ++ i ∷ [])
IsAscending-snoc [] i h a = (tt, tt)
IsAscending-snoc (j ∷ q) i h a = (
  All-append (λ k. j.sequence < k.sequence) q (i ∷ []) a.0 (h.0, tt),
  IsAscending-snoc q i h.1 a.1,
)

pub enqueue-IsSound :
    (spec : WorkflowSpec) (name : String) (trigger : Trigger) (e : Engine)
    → Dict.get e.specs name ≡ some spec
    → IsSound e
    → IsSound (enqueue spec name trigger e)
unfolding enqueue
enqueue-IsSound spec name trigger e found h = record {
  keyed = h.keyed;
  distinct = h.distinct;
  numbered =
      All-append (λ i. i.sequence < e.sequence_counter + 1) e.queue _
        (All-map (λ i. i.sequence < e.sequence_counter) (λ i. i.sequence < e.sequence_counter + 1)
          e.queue (λ i lt. omega arith) h.numbered)
        (omega arith, tt);
  ascending = IsAscending-snoc e.queue _ h.numbered h.ascending;
  queued =
      All-append (λ i. IsRegistered e.specs i.spec_name) e.queue _ h.queued ((spec, found), tt);
  waiters = h.waiters;
  current = h.current;
}

preempt_below-IsCurrent :
    (specs : Dict WorkflowSpec) (w : Option Running) (a : Active) (n : ℕ) (o : Option WorkflowSpec)
    → IsCurrent specs w (some a)
    → IsCurrent specs w (some (preempt_below n o a))
unfolding preempt
preempt_below-IsCurrent specs none a n o h = absurd h
preempt_below-IsCurrent specs (some r) a n none h = h
preempt_below-IsCurrent specs (some r) a n (some s) h = ground arith

preempt_active-IsCurrent :
    (specs : Dict WorkflowSpec) (w : Option Running) (n : ℕ) (o : Option Active)
    → IsCurrent specs w o
    → IsCurrent specs w (preempt_active specs n o)
preempt_active-IsCurrent specs none n none h = h
preempt_active-IsCurrent specs (some r) n none h = h
preempt_active-IsCurrent specs w n (some a) h =
    preempt_below-IsCurrent specs w a n (Dict.get specs a.spec_name) h

pub signal-IsSound : (spec : WorkflowSpec) (e : Engine) → IsSound e → IsSound (signal spec e)
unfolding signal
signal-IsSound spec e h = record {
  keyed = h.keyed;
  distinct = h.distinct;
  numbered = h.numbered;
  ascending = h.ascending;
  queued = h.queued;
  waiters = h.waiters;
  current = preempt_active-IsCurrent e.specs e.worker spec.priority e.active h.current;
}

pub submit-IsSound :
    (name : String) (trigger : Trigger) (e : Engine) → IsSound e → IsSound (submit name trigger e)
unfolding submit
submit-IsSound name trigger e h = elim (Option-cases (Dict.get e.specs name)) [
  | inl unknown ↦ rw (unknown, submit) h
  | inr (spec, found) ↦
      rw (found, submit)
        (signal-IsSound spec (enqueue spec name trigger e)
          (enqueue-IsSound spec name trigger e found h))
]

pub enqueue_spec-IsSound :
    (e : Engine) (spec : WorkflowSpec) → IsSound e → IsSound (enqueue_spec e spec)
unfolding enqueue_spec
enqueue_spec-IsSound e spec h =
    submit-IsSound spec.name _ (set_lifecycle spec.name pending e)
      (set_lifecycle-IsSound spec.name pending e h)

pub enqueue_all-IsSound :
    (e : Engine) (specs : List WorkflowSpec) → IsSound e → IsSound (enqueue_all e specs)
unfolding enqueue_all
enqueue_all-IsSound e [] h = h
enqueue_all-IsSound e (spec ∷ specs) h =
    enqueue_all-IsSound (enqueue_spec e spec) specs (enqueue_spec-IsSound e spec h)

pub submit_all-IsSound :
    (trigger : Trigger) (e : Engine) (specs : List WorkflowSpec)
    → IsSound e
    → IsSound (submit_all trigger e specs)
unfolding submit_all
submit_all-IsSound trigger e [] h = h
submit_all-IsSound trigger e (spec ∷ specs) h =
    submit_all-IsSound trigger (submit spec.name trigger e) specs
      (submit-IsSound spec.name trigger e h)

-- An engine with fewer waiting names is as sound.
pub waiting-IsSound :
    (e : Engine) (names : List String)
    → All (IsRegistered e.specs) names
    → IsSound e
    → IsSound (record e { waiting = names })
waiting-IsSound e names w h = record {
  keyed = h.keyed;
  distinct = h.distinct;
  numbered = h.numbered;
  ascending = h.ascending;
  queued = h.queued;
  waiters = w;
  current = h.current;
}

pub unblock_waiters-IsSound :
    (world : World) (name : String) (e : Engine)
    → IsSound e
    → IsSound (unblock_waiters world name e)
unfolding unblock_waiters
unblock_waiters-IsSound world name e h =
    enqueue_all-IsSound _ (find_specs e (filter (is_unblocked name e) (world.set_order e.waiting)))
      (waiting-IsSound e _ (All-filter (λ n. not (is_unblocked name e n)) _ e.waiting h.waiters) h)
