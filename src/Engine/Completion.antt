-- ===== src/Engine/Completion.antt =====
-- What the end of a run does, for each way that it ends.
use kai_daemon.Base.{
  fun_ext, All-filter, ◌≡◌, refl, ap, ◌∙◌, Bool, true, false, not, ◌&&◌, ◌||◌, some, String, List,
  [], ◌∷◌, ◌++◌, map, All, filter, Option-cases, inl, inr,
}
use mathlib.Core.List.{append_assoc, map-append, append-nil}
use kai_daemon.Base.Dict
use kai_daemon.Base.Dict.{Dict, get-put, get-put_self, IsKeyed, get-IsKeyed, values-get}
use kai_daemon.Base.Time.{Stamp}
use kai_daemon.State.Observability.{WorkflowRunEntry}
use kai_daemon.Engine.Types.{
  pending, Trigger, of_type, after, WorkflowSpec, QueueItem, Running, Engine, World, FnResult,
  returns,
}
use kai_daemon.Engine.Operations.{
  submit, enqueue_spec, enqueue_all, set_lifecycle, unblock_waiters, is_unblocked, find_specs,
  requires_it, get_lifecycle, names,
}
use kai_daemon.Engine.Run.{chains, submit_all, fire_chained_triggers, settle, status_of}
use kai_daemon.Engine.Submit.{submit-queue, submit-SameRest}
use kai_daemon.Engine.Sound.{IsSound}

-- What is to run, in the order of submission.
abbrev pub runs : List QueueItem → List (String × Trigger)
runs = map (λ i. (i.spec_name, i.trigger))

-- Each specification is found under its name.
abbrev pub AreKnown : Dict WorkflowSpec → List WorkflowSpec → Type 0
AreKnown specs = All (λ s. Dict.get specs s.name ≡ some s)

pub submit-runs :
    (name : String) (trigger : Trigger) (e : Engine) (spec : WorkflowSpec)
    → Dict.get e.specs name ≡ some spec
    → runs (submit name trigger e).queue ≡ runs e.queue ++ (name, trigger) ∷ []
submit-runs name trigger e spec found =
    ap runs (submit-queue name trigger e spec found).0 ∙ map-append _ e.queue _

submit_all-runs :
    (trigger : Trigger) (e : Engine) (specs : List WorkflowSpec)
    → AreKnown e.specs specs
    → runs (submit_all trigger e specs).queue ≡ runs e.queue ++ map (λ s. (s.name, trigger)) specs
unfolding submit_all
submit_all-runs trigger e [] h = rw append-nil
submit_all-runs trigger e (s ∷ specs) h =
    let same = (submit-SameRest s.name trigger e).specs in
    submit_all-runs trigger (submit s.name trigger e) specs (rw same h.1)
    ∙ ap (λ q. q ++ map (λ s. (s.name, trigger)) specs) (submit-runs s.name trigger e s h.0)
    ∙ append_assoc (runs e.queue) ((s.name, trigger) ∷ []) _

enqueue_all-runs :
    (e : Engine) (specs : List WorkflowSpec)
    → AreKnown e.specs specs
    → (runs (enqueue_all e specs).queue
        ≡ runs e.queue ++ map (λ s. (s.name, of_type s.trigger)) specs)
      × ((enqueue_all e specs).specs ≡ e.specs)
      × ((enqueue_all e specs).waiting ≡ e.waiting)
      × ((enqueue_all e specs).run_log ≡ e.run_log)
      × ((enqueue_all e specs).worker ≡ e.worker)
unfolding enqueue_all enqueue_spec
enqueue_all-runs e [] h = (rw append-nil, refl, refl, refl, refl)
enqueue_all-runs e (s ∷ specs) h =
    let pend = set_lifecycle s.name pending e in
    let one = submit-SameRest s.name (of_type s.trigger) pend in
    let rest = enqueue_all-runs (submit s.name (of_type s.trigger) pend) specs (rw one.specs h.1) in
    (
      rest.0
          ∙ ap (λ q. q ++ map (λ s. (s.name, of_type s.trigger)) specs)
              (submit-runs s.name (of_type s.trigger) pend s h.0)
          ∙ append_assoc (runs e.queue) ((s.name, of_type s.trigger) ∷ []) _,
      rest.1 ∙ one.specs,
      rest.2 ∙ one.waiting,
      rest.3 ∙ one.run_log,
      rest.4 ∙ one.worker,
    )

find_specs-AreKnown :
    (e : Engine) (ns : List String) → IsSound e → AreKnown e.specs (find_specs e ns)
unfolding find_specs
find_specs-AreKnown e [] h = tt
find_specs-AreKnown e (n ∷ ns) h = elim (Option-cases (Dict.get e.specs n)) [
  | inl unknown ↦ rw unknown (find_specs-AreKnown e ns h)
  | inr (spec, found) ↦
      let named = get-IsKeyed (λ s. s.name) e.specs n spec h.keyed found in
      rw found (ap (Dict.get e.specs) named ∙ found, find_specs-AreKnown e ns h)
]

pub unblock_waiters_lem :
    (world : World) (name : String) (e : Engine)
    → IsSound e
    → (runs (unblock_waiters world name e).queue
        ≡ runs e.queue
          ++ map
              (λ s. (s.name, of_type s.trigger))
              (find_specs e (filter (is_unblocked name e) (world.set_order e.waiting))))
      × ((unblock_waiters world name e).specs ≡ e.specs)
      × ((unblock_waiters world name e).waiting
          ≡ filter (λ n. not (is_unblocked name e n)) e.waiting)
      × ((unblock_waiters world name e).run_log ≡ e.run_log)
      × ((unblock_waiters world name e).worker ≡ e.worker)
unfolding unblock_waiters
unblock_waiters_lem world name e h =
    let freed = find_specs e (filter (is_unblocked name e) (world.set_order e.waiting)) in
    enqueue_all-runs (record e { waiting = filter (λ n. not (is_unblocked name e n)) e.waiting })
      freed (find_specs-AreKnown e _ h)

AreKnown-filter :
    (specs : Dict WorkflowSpec) (p : WorkflowSpec → Bool) (l : List WorkflowSpec)
    → AreKnown specs l
    → AreKnown specs (filter p l)
AreKnown-filter specs p l h = All-filter p (λ s. Dict.get specs s.name ≡ some s) l h

-- The waiting names whose specification requires `name`, as Python's iteration gives them.
abbrev pub dependents : World → String → Engine → List WorkflowSpec
dependents world name e =
    find_specs e (filter (λ n. requires_it name (Dict.get e.specs n)) (world.set_order e.waiting))

-- Whether a specification is chained after `name`: its push signal is set, or it needs none.
abbrev pub is_chained : World → String → WorkflowSpec → Bool
is_chained world name s =
    names s.trigger_after name && (not s.push_signal_required || world.push_signal s.name)

abbrev pub chained : World → String → Engine → List WorkflowSpec
chained world name e = filter (is_chained world name) (Dict.values e.specs)

not-and : (a b : Bool) → not (a && not b) ≡ (not a || b)
not-and true true = refl
not-and true false = refl
not-and false b = refl

chains-is_chained : (world : World) (name : String) → chains world name ≡ is_chained world name
unfolding chains
chains-is_chained world name = fun_ext λ s.
    ap (λ b. names s.trigger_after name && b)
      (not-and s.push_signal_required (world.push_signal s.name))

-- The entry that `_run_workflow` logs.
abbrev pub entry : World → Stamp → FnResult → Running → WorkflowRunEntry Trigger
entry world now result r = record {
  workflow_name = r.spec.name;
  trigger = r.trigger;
  started_at = r.started_at;
  completed_at = now;
  status = status_of result;
  memory_server_available = world.memory_server_available;
}

and-true : (b : Bool) → (b && true) ≡ b
and-true true = refl
and-true false = refl

pub settled-is_unblocked :
    (world : World) (now : Stamp) (r : Running) (e : Engine)
    → is_unblocked r.spec.name (settle world now returns r e)
      ≡ (λ n. requires_it r.spec.name (Dict.get e.specs n))
unfolding is_unblocked settle get_lifecycle
settled-is_unblocked world now r e =
    fun_ext λ n. simp get-put_self (and-true (requires_it r.spec.name (Dict.get e.specs n)))

pub fire_chained_triggers_lem :
    (world : World) (name : String) (e : Engine)
    → IsSound e
    → runs (fire_chained_triggers world name e).queue
      ≡ runs e.queue ++ map (λ s. (s.name, after name)) (chained world name e)
unfolding fire_chained_triggers
fire_chained_triggers_lem world name e h =
    submit_all-runs (after name) e (filter (chains world name) (Dict.values e.specs)) (
      AreKnown-filter e.specs (chains world name) (Dict.values e.specs)
        (values-get (λ s. s.name) e.specs h.keyed h.distinct))
    ∙ ap (λ p. runs e.queue ++ map (λ s. (s.name, after name)) (filter p (Dict.values e.specs)))
        (chains-is_chained world name)
