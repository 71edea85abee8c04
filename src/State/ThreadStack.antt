-- ===== src/State/ThreadStack.antt =====
-- src/kai_daemon/state/thread_stack.py: which threads a conversation keeps in mind. The lists of
-- the source hold each entry object once, so updating an entry in place is updating the list.
pub mod Ranks
pub mod Room
pub mod Tests
use kai_daemon.Base.{
  ℕ, ◌+◌, ◌-◌, String, Bool, true, false, ◌&&◌, List, [], ◌∷◌, ◌++◌, length, take, ltb, leb, nat_eq,
  if◌then◌else◌,
}

pub data ThreadStackState : Type 0 where
  foreground peripheral : ThreadStackState

-- The arithmetic of floats; `power` is `**` with a turn count.
pub record Arithmetic : Type 1 where
  pub Float : Type 0
  pub gt : Float → Float → Bool
  pub ge : Float → Float → Bool
  pub plus : Float → Float → Float
  pub minus : Float → Float → Float
  pub times : Float → Float → Float
  pub power : Float → ℕ → Float
  pub least : Float → Float → Float
  pub zero : Float
  pub half : Float
  pub one : Float

module _ (floats : Arithmetic) where
  pub record ThreadStackEntry : Type 0 where
    pub thread_id : String
    pub state : ThreadStackState
    pub salience : floats.Float
    pub engagement_depth : floats.Float
    pub last_touched_turn : ℕ
    pub entered_turn : ℕ
    pub is_floating : Bool

  pub record SalienceConfig : Type 0 where
    pub recency_decay : floats.Float
    pub recency_floor : floats.Float
    pub depth_decay : floats.Float
    pub depth_boost_reference : floats.Float
    pub depth_boost_stance : floats.Float
    pub recency_weight : floats.Float
    pub depth_weight : floats.Float
    pub drop_threshold : floats.Float
    pub floating_depth_decay : floats.Float
    pub floating_recency_floor : floats.Float
    pub floating_drop_threshold : floats.Float
    pub floating_max_turns_unresolved : ℕ

-- What a turn refers to, and where a stance moved.
pub record Turn : Type 0 where
  pub current_turn : ℕ
  pub was_referenced : String → Bool
  pub had_stance_movement : String → Bool

module _ (floats : Arithmetic) where
  unfoldable pub new_depth : SalienceConfig floats → Turn → ThreadStackEntry floats → floats.Float
  new_depth config turn entry =
      if turn.was_referenced entry.thread_id
      then floats.least floats.one (
          floats.plus entry.engagement_depth (
            if turn.had_stance_movement entry.thread_id
            then config.depth_boost_stance
            else config.depth_boost_reference))
      else floats.times entry.engagement_depth config.depth_decay

  -- `floor + (1.0 - floor) * decay ** turns`
  unfoldable pub recency : floats.Float → floats.Float → ℕ → floats.Float
  recency floor decay turns =
      floats.plus floor (floats.times (floats.minus floats.one floor) (floats.power decay turns))

  unfoldable pub weighted : SalienceConfig floats → floats.Float → floats.Float → floats.Float
  weighted config r depth =
      floats.plus (floats.times config.recency_weight r) (floats.times config.depth_weight depth)

  -- the entry after `update_salience`
  unfoldable pub update_salience :
      SalienceConfig floats → Turn → ThreadStackEntry floats → ThreadStackEntry floats
  unfolding new_depth recency weighted
  update_salience config turn entry = record entry {
    engagement_depth = new_depth config turn entry;
    salience = floats.least floats.one (
        weighted config
          (recency config.recency_floor config.recency_decay
            (turn.current_turn - entry.last_touched_turn))
          (new_depth config turn entry));
    last_touched_turn =
        if turn.was_referenced entry.thread_id then turn.current_turn else entry.last_touched_turn;
  }

  -- `sorted(l, key=salience, reverse=True)`, which keeps the order of equal entries; `key` gives
  -- the entry of a member of the list.
  module _ {A : Type 0} (key : A → ThreadStackEntry floats) where
    unfoldable pub insert : A → List A → List A
    insert x [] = x ∷ []
    insert x (y ∷ ys) =
        let rest = insert x ys in
        if floats.gt (key y).salience (key x).salience then y ∷ rest else x ∷ y ∷ ys

    unfoldable pub sorted : List A → List A
    unfolding insert
    sorted [] = []
    sorted (x ∷ xs) = insert x (sorted xs)

  -- The entries with their positions, from `n`.
  unfoldable pub enumerate {ℓ} : {A : Type ℓ} → ℕ → List A → List (ℕ × A)
  enumerate n [] = []
  enumerate n (x ∷ xs) = (n, x) ∷ enumerate (n + 1) xs

  abbrev pub state_of : Bool → ThreadStackState
  state_of true = foreground
  state_of false = peripheral

  abbrev pub is_head : ℕ → List (ℕ × ThreadStackEntry floats) → Bool
  is_head k [] = false
  is_head k ((j, e) ∷ ranked) = nat_eq k j

  abbrev pub with_state : Bool → ThreadStackEntry floats → ThreadStackEntry floats
  with_state top entry = record entry {
    state = if entry.is_floating then entry.state else state_of top;
  }

  -- The loop over the ranked entries: the one at the head is the foreground.
  unfoldable pub assign_all :
      List (ℕ × ThreadStackEntry floats)
      → List (ℕ × ThreadStackEntry floats)
      → List (ThreadStackEntry floats)
  assign_all ranked [] = []
  assign_all ranked ((k, e) ∷ rest) = with_state (is_head k ranked) e ∷ assign_all ranked rest

  unfoldable pub assign_states : List (ThreadStackEntry floats) → List (ThreadStackEntry floats)
  unfolding enumerate sorted assign_all
  assign_states stack = assign_all (sorted (λ p. p.1) (enumerate 0 stack)) (enumerate 0 stack)

  -- the first loop of `update_stack`
  unfoldable pub refresh :
      SalienceConfig floats → Turn → List (ThreadStackEntry floats) → List (ThreadStackEntry floats)
  unfolding update_salience
  refresh config turn [] = []
  refresh config turn (entry ∷ stack) =
      let rest = refresh config turn stack in
      let e = update_salience config turn entry in
      if floats.ge e.salience config.drop_threshold then e ∷ rest else rest

  -- the cap of 2
  unfoldable pub capped : List (ThreadStackEntry floats) → List (ThreadStackEntry floats)
  unfolding sorted
  capped stack = if ltb 2 (length stack) then take 2 (sorted (λ e. e) stack) else stack

  -- a floating entry after its decay
  unfoldable pub decay_floating :
      SalienceConfig floats → Turn → ThreadStackEntry floats → ThreadStackEntry floats
  unfolding recency weighted
  decay_floating config turn entry =
      let depth = floats.times entry.engagement_depth config.floating_depth_decay in
      record entry {
        engagement_depth = depth;
        salience =
            weighted config
              (recency config.floating_recency_floor config.recency_decay
                (turn.current_turn - entry.last_touched_turn))
              depth;
      }

  -- the second loop of `update_stack`
  unfoldable pub refresh_floating :
      SalienceConfig floats → Turn → List (ThreadStackEntry floats) → List (ThreadStackEntry floats)
  unfolding decay_floating
  refresh_floating config turn [] = []
  refresh_floating config turn (entry ∷ floating) =
      let rest = refresh_floating config turn floating in
      let e = decay_floating config turn entry in
      if leb (turn.current_turn - entry.last_touched_turn) config.floating_max_turns_unresolved
        && floats.ge e.salience config.floating_drop_threshold
      then e ∷ rest
      else rest

  unfoldable pub update_stack :
      SalienceConfig floats
      → Turn
      → List (ThreadStackEntry floats)
      → List (ThreadStackEntry floats)
      → List (ThreadStackEntry floats) × List (ThreadStackEntry floats)
  unfolding refresh capped assign_states refresh_floating
  update_stack config turn stack floating =
      (assign_states (capped (refresh config turn stack)), refresh_floating config turn floating)

  unfoldable pub new_entry : String → ℕ → Bool → ThreadStackEntry floats
  new_entry thread_id current_turn is_floating = record {
    thread_id = thread_id;
    state = foreground;
    salience = floats.half;
    engagement_depth = floats.zero;
    last_touched_turn = current_turn;
    entered_turn = current_turn;
    is_floating = is_floating;
  }

  -- `stack = [ranked[0]]` where the stack is full
  unfoldable pub make_room : List (ThreadStackEntry floats) → List (ThreadStackEntry floats)
  unfolding sorted
  make_room stack = if leb 2 (length stack) then take 1 (sorted (λ e. e) stack) else stack

  unfoldable pub add_thread_to_stack :
      List (ThreadStackEntry floats) → String → ℕ → List (ThreadStackEntry floats)
  unfolding make_room new_entry assign_states
  add_thread_to_stack stack thread_id current_turn =
      assign_states (make_room stack ++ new_entry thread_id current_turn false ∷ [])

  unfoldable pub add_floating_thread :
      List (ThreadStackEntry floats) → String → ℕ → List (ThreadStackEntry floats)
  unfolding new_entry
  add_floating_thread floating thread_id current_turn =
      floating ++ new_entry thread_id current_turn true ∷ []
