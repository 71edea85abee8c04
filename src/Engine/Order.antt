-- ===== src/Engine/Order.antt =====
-- Which run the worker starts.
use kai_daemon.Base.{
  ◌<◌, ◌⊎◌, arith, ltb, Bool-cases, All-map, ◌≡◌, ap, ◌∙◌, true, false, some, List, [], ◌∷◌, All,
  Option-cases, inl, inr, if◌then◌else◌,
}
use kai_daemon.Base.Dict
use kai_daemon.Base.Time.{Stamp}
use mathlib.Core.List.{Perm}
use kai_daemon.Engine.Types.{WorkflowSpec, QueueItem, Engine}
use kai_daemon.Engine.Queue.{
  before, get_least, get_least-IsPop, get_least-IsFirst, get_least-All, IsPop, OnPop, IsFirst,
}
use kai_daemon.Engine.Run.{begin_run, begin_item, take_item, take_next}
use kai_daemon.Engine.System.{Reach}
use kai_daemon.Engine.Sound.{IsSound, IsRegistered}
use kai_daemon.Engine.Sound.Steps.{Reach-IsSound}

-- Of a smaller priority number, or of the same and submitted earlier.
abbrev pub IsAhead : QueueItem → QueueItem → Type 0
IsAhead i j = (i.priority < j.priority) ⊎ ((i.priority ≡ j.priority) × (i.sequence < j.sequence))

before-IsAhead : (i j : QueueItem) → before i j ≡ true → IsAhead i j
before-IsAhead i j h = elim (Bool-cases (ltb i.priority j.priority)) [
  | inl less ↦ inl (ground arith)
  | inr not_less ↦ inr (ground arith, ground arith)
]

-- What the worker does with the queue of `e`.
pub record Takes (now : Stamp) (e : Engine) : Type 0 where
  pub item : QueueItem
  pub rest : List QueueItem
  pub spec : WorkflowSpec
  pub known : Dict.get e.specs item.spec_name ≡ some spec
  pub begins : take_item now e ≡ begin_run now spec item.trigger (record e { queue = rest })
  pub same_items : Perm (item ∷ rest) e.queue
  pub first : All (IsAhead item) rest

Takes-of_least :
    (now : Stamp) (e : Engine) (m : QueueItem) (rest : List QueueItem)
    → IsSound e
    → e.shutdown ≡ false
    → get_least e.queue ≡ some (m, rest)
    → Takes now e
unfolding take_item
Takes-of_least now e m rest h going found =
    let pop : IsPop e.queue (some (m, rest)) = rw found at (get_least-IsPop e.queue) in
    let first : IsFirst (some (m, rest)) = rw found at (get_least-IsFirst e.queue h.ascending) in
    let queued : OnPop (λ i. IsRegistered e.specs i.spec_name) (some (m, rest)) =
      rw found at (get_least-All (λ i. IsRegistered e.specs i.spec_name) e.queue h.queued) in
    record {
      item = m;
      rest = rest;
      spec = queued.0.0;
      known = queued.0.1;
      begins =
          ap (λ b. if b then e else take_next now (get_least e.queue) e) going
          ∙ ap (λ o. take_next now o e) found
          ∙ ap (λ o. begin_item now o m.trigger (record e { queue = rest })) queued.0.1;
      same_items = pop.1;
      first =
          All-map (λ j. before m j ≡ true) (IsAhead m) rest (λ j b. before-IsAhead m j b) first.0;
    }

-- In a reachable state that is not shut down, with an item in the queue, the worker starts the run
-- of the one item that is before every other: of least priority number, and among those the one
-- that was submitted first. Its specification is found, and the other items stay in the queue.
pub Takes-first :
    {e : Engine} (now : Stamp) (i : QueueItem) (q : List QueueItem)
    → Reach e
    → e.shutdown ≡ false
    → e.queue ≡ i ∷ q
    → Takes now e
Takes-first {e} now i q r going queue = elim (Option-cases (get_least e.queue)) [
  | inl empty ↦ (let e' : e.queue ≡ [] = rw empty at (get_least-IsPop e.queue) in cc)
  | inr ((m, rest), found) ↦ Takes-of_least now e m rest (Reach-IsSound r) going found
]
