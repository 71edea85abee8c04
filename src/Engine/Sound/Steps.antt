-- ===== src/Engine/Sound/Steps.antt =====
-- The invariant through each step of the engine's threads.
use kai_daemon.Base.{
  if_ind, ap, ◌∙◌, filter, ◌<◌, true, Option-cases, ◌≡◌, refl, inl, inr, Option, none, some, String,
  List, [], ◌∷◌, ◌==◌, All, All-map, Bool-cases,
}
use kai_daemon.Base.Dict
use kai_daemon.Base.Dict.{put-IsDistinct, get-IsKeyed, Dict, get-put, put-IsKeyed, get-IsKeyed}
use kai_daemon.Base.Time.{Stamp}
use kai_daemon.Workflows.Preemption.{new_context}
use kai_daemon.Engine.Types.{
  after, QueueItem, WorkflowSpec, not_needed, waiting, Trigger, Active, Running, Engine, World,
  FnResult, returns, cancels, raises,
}
use kai_daemon.Engine.Operations.{
  unblock_waiters, register, set_lifecycle, start_spec, add_name, is_startup, eval_condition,
  prerequisite_open,
}
use kai_daemon.Engine.Run.{
  take_next, chains, begin_item, take_item, finish_run, begin_run, settle, resubmit, follow_up,
  fire_chained_triggers,
}
use kai_daemon.Engine.Queue.{get_least, get_least-All, get_least-IsFirst, OnPop, IsFirst}
use kai_daemon.Engine.System.{
  Step, Reach, registers, starts, enqueues, signals, takes, finishes, shuts_down, here, next,
}
use kai_daemon.Engine.Sound.{IsRegistered, IsCurrent, IsSound}
use kai_daemon.Engine.Sound.Atoms.{
  new_engine-IsSound, enqueue-IsSound, signal-IsSound, set_lifecycle-IsSound, submit-IsSound,
  enqueue_spec-IsSound, submit_all-IsSound, waiting-IsSound, unblock_waiters-IsSound,
}

put-IsRegistered :
    (specs : Dict WorkflowSpec) (k n : String) (s : WorkflowSpec)
    → IsRegistered specs n
    → IsRegistered (Dict.put specs k s) n
put-IsRegistered specs k n s (spec, found) = elim (Bool-cases (k == n)) [
  | inl same ↦ (s, rw get-put (rw same))
  | inr other ↦ (spec, rw get-put (rw other found))
]

idle-IsCurrent :
    (specs specs' : Dict WorkflowSpec) (w : Option Running) (o : Option Active)
    → w ≡ none
    → IsCurrent specs w o
    → IsCurrent specs' w o
idle-IsCurrent specs specs' none none e h = tt
idle-IsCurrent specs specs' none (some a) e h = h
idle-IsCurrent specs specs' (some r) o e h = cc

register-IsSound :
    (spec : WorkflowSpec) (e : Engine) → e.worker ≡ none → IsSound e → IsSound (register spec e)
unfolding register
register-IsSound spec e idle h = record {
  keyed = put-IsKeyed (λ s. s.name) e.specs spec h.keyed;
  distinct = put-IsDistinct e.specs spec.name spec h.distinct;
  numbered = h.numbered;
  ascending = h.ascending;
  queued =
      All-map (λ i. IsRegistered e.specs i.spec_name) _ e.queue
        (λ i r. put-IsRegistered e.specs spec.name i.spec_name spec r) h.queued;
  waiters =
      All-map (IsRegistered e.specs) _ e.waiting
        (λ n r. put-IsRegistered e.specs spec.name n spec r) h.waiters;
  current = idle-IsCurrent e.specs _ e.worker e.active idle h.current;
}

All-add_name :
    (P : String → Type 0) (name : String) (names : List String)
    → P name
    → All P names
    → All P (add_name name names)
unfolding add_name
All-add_name P name [] p h = (p, tt)
All-add_name P name (n ∷ ns) p h = elim (Bool-cases (n == name)) [
  | inl same ↦ rw same h
  | inr other ↦ rw other (h.0, All-add_name P name ns p h.1)
]

start_spec-IsSound :
    (world : World) (spec : WorkflowSpec) (e : Engine)
    → Dict.get e.specs spec.name ≡ some spec
    → IsSound e
    → IsSound (start_spec world e spec)
unfolding start_spec
start_spec-IsSound world spec e found h = elim (Bool-cases (is_startup spec.trigger)) [
  | inr other ↦ rw (other, start_spec) h
  | inl startup ↦ elim (Bool-cases (eval_condition world spec)) [
    | inr unmet ↦
        rw (startup, unmet, start_spec)
          (unblock_waiters-IsSound world spec.name _
            (set_lifecycle-IsSound spec.name not_needed e h))
    | inl met ↦ elim (Bool-cases (prerequisite_open spec.requires e)) [
      | inl open_yet ↦
          rw (startup, met, open_yet, start_spec)
            (waiting-IsSound (set_lifecycle spec.name waiting e) _
              (All-add_name (IsRegistered e.specs) spec.name e.waiting (spec, found) h.waiters)
              (set_lifecycle-IsSound spec.name waiting e h))
      | inr ready ↦ rw (startup, met, ready, start_spec) (enqueue_spec-IsSound e spec h)
    ]
  ]
]

begin_run-IsSound :
    (now : Stamp) (spec : WorkflowSpec) (trigger : Trigger) (e : Engine)
    → Dict.get e.specs spec.name ≡ some spec
    → IsSound e
    → IsSound (begin_run now spec trigger e)
unfolding begin_run new_context
begin_run-IsSound now spec trigger e found h = record {
  keyed = h.keyed;
  distinct = h.distinct;
  numbered = h.numbered;
  ascending = h.ascending;
  queued = h.queued;
  waiters = h.waiters;
  current = (refl, found, refl, refl, refl);
}

pub settle-IsSound :
    (world : World) (now : Stamp) (result : FnResult) (r : Running) (e : Engine)
    → IsSound e
    → IsSound (settle world now result r e)
unfolding settle
settle-IsSound world now result r e h = record {
  keyed = h.keyed;
  distinct = h.distinct;
  numbered = h.numbered;
  ascending = h.ascending;
  queued = h.queued;
  waiters = h.waiters;
  current = tt;
}

follow_up-IsSound :
    (world : World) (result : FnResult) (r : Running) (e : Engine)
    → IsSound e
    → IsSound (follow_up world result r e)
unfolding follow_up fire_chained_triggers
follow_up-IsSound world returns r e h =
    submit_all-IsSound (after r.spec.name) (unblock_waiters world r.spec.name e)
      (filter (chains world r.spec.name) (Dict.values (unblock_waiters world r.spec.name e).specs))
      (unblock_waiters-IsSound world r.spec.name e h)
follow_up-IsSound world cancels r e h = h
follow_up-IsSound world raises r e h = h

resubmit-IsSound :
    (result : FnResult) (r : Running) (e : Engine) → IsSound e → IsSound (resubmit result r e)
unfolding resubmit
resubmit-IsSound cancels r e h = submit-IsSound r.spec.name r.trigger e h
resubmit-IsSound returns r e h = h
resubmit-IsSound raises r e h = h

finish_run-IsSound :
    (world : World) (now : Stamp) (result : FnResult) (r : Running) (e : Engine)
    → IsSound e
    → IsSound (finish_run world now result r e)
unfolding finish_run
finish_run-IsSound world now result r e h =
    follow_up-IsSound world result r _
      (settle-IsSound world now result r (resubmit result r e) (resubmit-IsSound result r e h))

rest-IsSound :
    (e : Engine) (m : QueueItem) (rest : List QueueItem)
    → get_least e.queue ≡ some (m, rest)
    → IsSound e
    → IsSound (record e { queue = rest })
rest-IsSound e m rest found h =
    let numbered : OnPop (λ i. i.sequence < e.sequence_counter) (some (m, rest)) =
      rw found at (get_least-All (λ i. i.sequence < e.sequence_counter) e.queue h.numbered) in
    let queued : OnPop (λ i. IsRegistered e.specs i.spec_name) (some (m, rest)) =
      rw found at (get_least-All (λ i. IsRegistered e.specs i.spec_name) e.queue h.queued) in
    let first : IsFirst (some (m, rest)) = rw found at (get_least-IsFirst e.queue h.ascending) in
    record {
      keyed = h.keyed;
      distinct = h.distinct;
      numbered = numbered.1;
      ascending = first.1;
      queued = queued.1;
      waiters = h.waiters;
      current = h.current;
    }

begin_item-IsSound :
    (now : Stamp) (name : String) (trigger : Trigger) (e : Engine)
    → IsSound e
    → IsSound (begin_item now (Dict.get e.specs name) trigger e)
begin_item-IsSound now name trigger e h = elim (Option-cases (Dict.get e.specs name)) [
  | inl unknown ↦ rw unknown h
  | inr (spec, found) ↦
      let named : spec.name ≡ name = get-IsKeyed (λ s. s.name) e.specs name spec h.keyed found in
      rw found (begin_run-IsSound now spec trigger e (ap (Dict.get e.specs) named ∙ found) h)
]

take_next-IsSound :
    (now : Stamp) (e : Engine) → IsSound e → IsSound (take_next now (get_least e.queue) e)
take_next-IsSound now e h = elim (Option-cases (get_least e.queue)) [
  | inl empty ↦ rw empty h
  | inr ((m, rest), found) ↦ rw found (
      begin_item-IsSound now m.spec_name m.trigger (record e { queue = rest })
        (rest-IsSound e m rest found h))
]

take_item-IsSound : (now : Stamp) (e : Engine) → IsSound e → IsSound (take_item now e)
unfolding take_item
take_item-IsSound now e h = if_ind IsSound e.shutdown h (take_next-IsSound now e h)

shut_down-IsSound : (e : Engine) → IsSound e → IsSound (record e { shutdown = true })
shut_down-IsSound e h = record {
  keyed = h.keyed;
  distinct = h.distinct;
  numbered = h.numbered;
  ascending = h.ascending;
  queued = h.queued;
  waiters = h.waiters;
  current = h.current;
}

pub Step-IsSound : {e e' : Engine} → Step e e' → IsSound e → IsSound e'
Step-IsSound (registers spec e idle) h = register-IsSound spec e idle h
Step-IsSound (starts world spec e found) h = start_spec-IsSound world spec e found h
Step-IsSound (enqueues name spec trigger e found) h = enqueue-IsSound spec name trigger e found h
Step-IsSound (signals spec e) h = signal-IsSound spec e h
Step-IsSound (takes now e idle) h = take_item-IsSound now e h
Step-IsSound (finishes world now result r e busy) h = finish_run-IsSound world now result r e h
Step-IsSound (shuts_down e) h = shut_down-IsSound e h

-- In every state that the engine's threads reach together: the sequence numbers in the queue rise
-- and are below the counter; every name in the queue, in the waiting set and of the active run is
-- registered, so that no lookup of a specification misses; and an active context is there exactly
-- while the worker runs a workflow, in that workflow's mode, and neither resumed nor checkpointed.
pub Reach-IsSound : {e : Engine} → Reach e → IsSound e
Reach-IsSound here = new_engine-IsSound
Reach-IsSound (next r st) = Step-IsSound st (Reach-IsSound r)
