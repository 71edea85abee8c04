-- ===== src/Engine/Operations.antt =====
-- The methods of `WorkflowEngine` that register, submit, start and unblock, each a function on
-- `Engine`. Names in the queue, in the waiting set and of the
-- active run are keys of `specs`, so where the source reads `self._specs[name]` a missing key,
-- which would raise a KeyError, changes nothing here.
use kai_daemon.Base.{
  ℕ, ◌+◌, Bool, true, false, not, ◌&&◌, Option, none, some, String, List, [], ◌∷◌, ◌++◌, ◌==◌,
  filter, ltb, or_else, if◌then◌else◌,
}
use kai_daemon.Base.Dict
use kai_daemon.Base.Dict.{Dict}
use kai_daemon.Workflows.Preemption.{preempt}
use kai_daemon.Engine.Types.{
  TriggerType, startup_condition, WorkflowLifecycle, not_needed, waiting, pending, completed,
  Trigger, of_type, WorkflowSpec, Active, Engine, World,
}

unfoldable pub register : WorkflowSpec → Engine → Engine
register spec e = record e {
  specs = Dict.put e.specs spec.name spec;
  lifecycle = Dict.put e.lifecycle spec.name pending;
}

abbrev pub set_lifecycle : String → WorkflowLifecycle → Engine → Engine
set_lifecycle name state e = record e { lifecycle = Dict.put e.lifecycle name state }

-- the first half of `submit`: a sequence number, and the item
unfoldable pub enqueue : WorkflowSpec → String → Trigger → Engine → Engine
enqueue spec spec_name trigger e = record e {
  sequence_counter = e.sequence_counter + 1;
  queue =
      e.queue
      ++ record {
        priority = spec.priority;
        sequence = e.sequence_counter;
        spec_name = spec_name;
        trigger = trigger;
      }
        ∷ [];
}

abbrev pub preempt_if : Bool → Active → Active
preempt_if due a = if due then record a { ctx = preempt a.ctx } else a

abbrev pub preempt_below : ℕ → Option WorkflowSpec → Active → Active
preempt_below priority none a = a
preempt_below priority (some current) a = preempt_if (ltb priority current.priority) a

abbrev pub preempt_active : Dict WorkflowSpec → ℕ → Option Active → Option Active
preempt_active specs priority none = none
preempt_active specs priority (some a) =
    some (preempt_below priority (Dict.get specs a.spec_name) a)

-- the second half of `submit`, under the active lock
unfoldable pub signal : WorkflowSpec → Engine → Engine
signal spec e = record e { active = preempt_active e.specs spec.priority e.active }

unfoldable pub submit : String → Trigger → Engine → Engine
unfolding enqueue signal
submit spec_name trigger e = elim (Dict.get e.specs spec_name) [
  | none ↦ e
  | some spec ↦ signal spec (enqueue spec spec_name trigger e)
]

unfoldable pub enqueue_spec : Engine → WorkflowSpec → Engine
unfolding submit
enqueue_spec e spec = submit spec.name (of_type spec.trigger) (set_lifecycle spec.name pending e)

unfoldable pub get_lifecycle : String → Engine → WorkflowLifecycle
get_lifecycle name e = or_else (Dict.get e.lifecycle name) not_needed

abbrev pub is_resolved : WorkflowLifecycle → Bool
is_resolved completed = true
is_resolved not_needed = true
is_resolved _ = false

abbrev pub names : Option String → String → Bool
names none name = false
names (some n) name = n == name

abbrev pub requires_it : String → Option WorkflowSpec → Bool
requires_it name none = false
requires_it name (some spec) = names spec.requires name

-- the test of the first loop of `_unblock_waiters`, on a name of the waiting set
unfoldable pub is_unblocked : String → Engine → String → Bool
unfolding get_lifecycle
is_unblocked name e waiter =
    requires_it name (Dict.get e.specs waiter) && is_resolved (get_lifecycle name e)

abbrev pub cons_found : Option WorkflowSpec → List WorkflowSpec → List WorkflowSpec
cons_found none specs = specs
cons_found (some spec) specs = spec ∷ specs

unfoldable pub find_specs : Engine → List String → List WorkflowSpec
find_specs e [] = []
find_specs e (n ∷ ns) = cons_found (Dict.get e.specs n) (find_specs e ns)

unfoldable pub enqueue_all : Engine → List WorkflowSpec → Engine
unfolding enqueue_spec
enqueue_all e [] = e
enqueue_all e (spec ∷ specs) = enqueue_all (enqueue_spec e spec) specs

unfoldable pub unblock_waiters : World → String → Engine → Engine
unfolding is_unblocked find_specs enqueue_all
unblock_waiters world name e =
    let freed = filter (is_unblocked name e) (world.set_order e.waiting) in
    enqueue_all (record e { waiting = filter (λ n. not (is_unblocked name e n)) e.waiting })
      (find_specs e freed)

unfoldable pub builtin_condition : World → Option String → Bool
builtin_condition world none = true
builtin_condition world (some name) =
    if name == "no_daemon_self"
    then world.no_daemon_self
    else if name == "user_yaml_empty"
    then world.user_yaml_empty
    else false

unfoldable pub eval_condition : World → WorkflowSpec → Bool
unfolding builtin_condition
eval_condition world spec = or_else spec.condition_fn (builtin_condition world spec.condition)

abbrev pub is_startup : TriggerType → Bool
is_startup startup_condition = true
is_startup _ = false

abbrev pub prerequisite_open : Option String → Engine → Bool
prerequisite_open none e = false
prerequisite_open (some name) e = not (is_resolved (get_lifecycle name e))

-- `self._waiting.add(name)`
unfoldable pub add_name : String → List String → List String
add_name name [] = name ∷ []
add_name name (n ∷ ns) = if n == name then n ∷ ns else n ∷ add_name name ns

-- the body of the loop of `_evaluate_startup_conditions`
unfoldable pub start_spec : World → Engine → WorkflowSpec → Engine
unfolding eval_condition unblock_waiters add_name enqueue_spec get_lifecycle
start_spec world e spec =
    if not (is_startup spec.trigger)
    then e
    else if not (eval_condition world spec)
    then unblock_waiters world spec.name (set_lifecycle spec.name not_needed e)
    else if prerequisite_open spec.requires e
    then record (set_lifecycle spec.name waiting e) { waiting = add_name spec.name e.waiting }
    else enqueue_spec e spec

unfoldable pub start_specs : World → Engine → List WorkflowSpec → Engine
unfolding start_spec
start_specs world e [] = e
start_specs world e (spec ∷ specs) = start_specs world (start_spec world e spec) specs

unfoldable pub evaluate_startup_conditions : World → Engine → Engine
unfolding start_specs
evaluate_startup_conditions world e = start_specs world e (Dict.values e.specs)
