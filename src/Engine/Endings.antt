-- ===== src/Engine/Endings.antt =====
-- The three endings of a run, in a state that the engine reaches.
use kai_daemon.Base.{
  ◌≡◌, refl, ap, ap₂, subst, ◌∙◌, not, Option, none, some, String, List, [], ◌∷◌, ◌++◌, map, filter,
}
use kai_daemon.Base.Dict
use kai_daemon.Base.Dict.{get-put_self}
use kai_daemon.Base.Time.{Stamp}
use kai_daemon.Engine.Types.{
  pending, Trigger, of_type, after, WorkflowSpec, Active, Running, Engine, World, FnResult, returns,
  cancels,
}
use kai_daemon.Engine.Operations.{submit, unblock_waiters, find_specs, requires_it, cons_found}
use kai_daemon.Engine.Run.{
  chains, submit_all, fire_chained_triggers, settle, resubmit, follow_up, finish_run,
}
use kai_daemon.Engine.Submit.{submit-SameRest}
use kai_daemon.Engine.System.{Reach}
use kai_daemon.Engine.Sound.{IsSound, IsCurrent}
use kai_daemon.Engine.Sound.Atoms.{unblock_waiters-IsSound}
use kai_daemon.Engine.Sound.Steps.{Reach-IsSound, settle-IsSound}
use kai_daemon.Engine.Completion.{
  is_chained, runs, dependents, chained, entry, submit-runs, unblock_waiters_lem,
  fire_chained_triggers_lem, settled-is_unblocked,
}

-- What every ending does: the worker is idle again, and the log has one more entry.
pub record IsSettled (world : World) (now : Stamp) (result : FnResult) (r : Running) (e e' : Engine)
    : Type 0 where
  pub idle : e'.worker ≡ none
  pub specs : e'.specs ≡ e.specs
  pub logged : e'.run_log ≡ e.run_log ++ entry world now result r ∷ []

submit_all-rest :
    (trigger : Trigger) (e : Engine) (specs : List WorkflowSpec)
    → ((submit_all trigger e specs).waiting ≡ e.waiting)
      × ((submit_all trigger e specs).run_log ≡ e.run_log)
      × ((submit_all trigger e specs).worker ≡ e.worker)
      × ((submit_all trigger e specs).specs ≡ e.specs)
unfolding submit_all
submit_all-rest trigger e [] = (refl, refl, refl, refl)
submit_all-rest trigger e (s ∷ specs) =
    let one = submit-SameRest s.name trigger e in
    let rest = submit_all-rest trigger (submit s.name trigger e) specs in
    (rest.0 ∙ one.waiting, rest.1 ∙ one.run_log, rest.2 ∙ one.worker, rest.3 ∙ one.specs)

find_specs-settle :
    (world : World) (now : Stamp) (r : Running) (e : Engine) (ns : List String)
    → find_specs (settle world now returns r e) ns ≡ find_specs e ns
unfolding find_specs settle
find_specs-settle world now r e [] = refl
find_specs-settle world now r e (n ∷ ns) =
    ap (cons_found (Dict.get e.specs n)) (find_specs-settle world now r e ns)

current-known :
    (e : Engine) (r : Running)
    → e.worker ≡ some r
    → IsSound e
    → Dict.get e.specs r.spec.name ≡ some r.spec
current-known e r busy h = known e.worker e.active busy h.current
  where
    known :
        (w : Option Running) (o : Option Active)
        → w ≡ some r
        → IsCurrent e.specs w o
        → Dict.get e.specs r.spec.name ≡ some r.spec
    known none o p c = cc
    known (some r') none p c = absurd c
    known (some r') (some a) p c =
        let same : r' ≡ r = cc in
        subst (λ (q : Running). Dict.get e.specs q.spec.name ≡ some q.spec) same c.1

-- In a reachable state, the worker's run is cancelled: it is queued again, behind what is there,
-- under the trigger that it had. Its lifecycle is `pending`, the waiting set is as it was, and the
-- log has one entry more.
pub finish_cancelled :
    {e : Engine} (world : World) (now : Stamp) (r : Running)
    → Reach e
    → e.worker ≡ some r
    → IsSettled world now cancels r e (finish_run world now cancels r e)
      × (runs (finish_run world now cancels r e).queue
          ≡ runs e.queue ++ (r.spec.name, r.trigger) ∷ [])
      × ((finish_run world now cancels r e).waiting ≡ e.waiting)
      × (Dict.get (finish_run world now cancels r e).lifecycle r.spec.name ≡ some pending)
unfolding finish_run follow_up settle resubmit
finish_cancelled {e} world now r reach busy =
    let same = submit-SameRest r.spec.name r.trigger e in
    (
      record {
        idle = refl;
        specs = same.specs;
        logged = ap (λ l. l ++ entry world now cancels r ∷ []) same.run_log;
      },
      submit-runs r.spec.name r.trigger e r.spec (current-known e r busy (Reach-IsSound reach)),
      same.waiting,
      get-put_self (submit r.spec.name r.trigger e).lifecycle _ _,
    )

-- In a reachable state, the worker's run returns: queued are then, behind what is there, first
-- every waiting workflow that requires it, under its own trigger, then every registered workflow
-- that is chained after it and whose push signal, where it requires one, is set, in the order of
-- registration. None that requires it is left waiting, the others wait on, and the log has one
-- entry more.
pub finish_succeeded :
    {e : Engine} (world : World) (now : Stamp) (r : Running)
    → Reach e
    → e.worker ≡ some r
    → IsSettled world now returns r e (finish_run world now returns r e)
      × (runs (finish_run world now returns r e).queue
          ≡ runs e.queue
            ++ map (λ s. (s.name, of_type s.trigger)) (dependents world r.spec.name e)
            ++ map (λ s. (s.name, after r.spec.name)) (chained world r.spec.name e))
      × ((finish_run world now returns r e).waiting
          ≡ filter (λ n. not (requires_it r.spec.name (Dict.get e.specs n))) e.waiting)
unfolding finish_run follow_up resubmit settle fire_chained_triggers
finish_succeeded {e} world now r reach busy =
    let e1 = settle world now returns r e in
    let s1 : IsSound e1 = settle-IsSound world now returns r e (Reach-IsSound reach) in
    let u = unblock_waiters_lem world r.spec.name e1 s1 in
    let e2 = unblock_waiters world r.spec.name e1 in
    let s2 : IsSound e2 = unblock_waiters-IsSound world r.spec.name e1 s1 in
    let f = fire_chained_triggers_lem world r.spec.name e2 s2 in
    let rest =
      submit_all-rest (after r.spec.name) e2
        (filter (chains world r.spec.name) (Dict.values e2.specs)) in
    let same = settled-is_unblocked world now r e in
    (
      record { idle = rest.2 ∙ u.4; specs = rest.3 ∙ u.1; logged = rest.1 ∙ u.3 },
      f
          ∙ ap₂
              (λ q specs.
                q
                ++ map (λ s. (s.name, after r.spec.name))
                    (filter (is_chained world r.spec.name) (Dict.values specs)))
              (u.0
                ∙ ap (λ l. runs e.queue ++ map (λ s. (s.name, of_type s.trigger)) l)
                    (find_specs-settle world now r e _
                      ∙ ap (λ g. find_specs e (filter g (world.set_order e.waiting))) same))
              u.1,
      rest.0 ∙ u.2 ∙ ap (λ g. filter (λ n. not (g n)) e.waiting) same,
    )
