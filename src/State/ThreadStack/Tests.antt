-- ===== src/State/ThreadStack/Tests.antt =====
-- A turn over a small stack, with natural numbers in the place of floats.
use kai_daemon.Base.{
  ℕ, ◌⊎◌, ◌≡◌, refl, arith, ◌+◌, ◌-◌, ◌*◌, ◌&&◌, true, false, String, List, [], ◌∷◌, ◌++◌, map,
  filter, All, leb, ltb, ◌==◌, if◌then◌else◌,
}
use kai_daemon.State.ThreadStack.{
  foreground, Arithmetic, ThreadStackEntry, SalienceConfig, Turn, decay_floating, update_stack,
  add_thread_to_stack,
}
use kai_daemon.State.ThreadStack.Ranks.{IsRanked, update_stack_lem}
use kai_daemon.State.ThreadStack.Room.{Comparison, Kept, add_thread_to_stack_lem}

abbrev pub whole : Arithmetic
whole = record {
  Float = ℕ;
  gt = λ a b. ltb b a;
  ge = λ a b. leb b a;
  plus = λ a b. a + b;
  minus = λ a b. a - b;
  times = λ a b. a * b;
  power = λ a n. 1;
  least = λ a b. if leb a b then a else b;
  zero = 0;
  half = 50;
  one = 100;
}

abbrev settings : SalienceConfig whole
settings = record {
  recency_decay = 1;
  recency_floor = 20;
  depth_decay = 1;
  depth_boost_reference = 10;
  depth_boost_stance = 20;
  recency_weight = 1;
  depth_weight = 1;
  drop_threshold = 30;
  floating_depth_decay = 1;
  floating_recency_floor = 50;
  floating_drop_threshold = 5;
  floating_max_turns_unresolved = 200;
}

abbrev turn : Turn
turn = record { current_turn = 4; was_referenced = λ k. k == "b"; had_stance_movement = λ k. false }

abbrev pub entry : String → ℕ → ThreadStackEntry whole
entry k depth = record {
  thread_id = k;
  state = foreground;
  salience = 50;
  engagement_depth = depth;
  last_touched_turn = 3;
  entered_turn = 1;
  is_floating = false;
}

abbrev three : List (ThreadStackEntry whole)
three = entry "a" 1 ∷ entry "b" 2 ∷ entry "c" 3 ∷ []

abbrev held : List (ThreadStackEntry whole)
held = record (entry "d" 9) { is_floating = true } ∷ []

update_stack_example :
    IsRanked whole (update_stack whole settings turn three held).0
    × All
        (λ e. leb settings.drop_threshold e.salience ≡ true)
        (update_stack whole settings turn three held).0
    × ((update_stack whole settings turn three held).1
        ≡ map (decay_floating whole settings turn) (
            filter
              (λ e.
                leb (turn.current_turn - e.last_touched_turn) settings.floating_max_turns_unresolved
                && leb settings.floating_drop_threshold
                    (decay_floating whole settings turn e).salience)
              held))
update_stack_example = update_stack_lem whole settings turn three held (refl, (refl, (refl, tt)))

pub later_not_earlier : (a b : ℕ) → ltb b a ≡ true → ltb a b ≡ false
later_not_earlier a b p = ground arith

pub split_at : (a b c : ℕ) → ltb b a ≡ true → (ltb b c ≡ true) ⊎ (ltb c a ≡ true)
split_at a b c p = ground arith

abbrev naturals : Comparison whole
naturals = record {
  is_number = λ n. true;
  gt_asym = later_not_earlier;
  gt_split = λ a b c _ p. split_at a b c p;
}

add_thread_to_stack_example :
    IsRanked whole (add_thread_to_stack whole three "e" 5)
    × ((kept : List (ThreadStackEntry whole)) × Kept whole three kept
        × (map (λ e. e.thread_id) (add_thread_to_stack whole three "e" 5)
            ≡ map (λ e. e.thread_id) kept ++ "e" ∷ []))
add_thread_to_stack_example =
    add_thread_to_stack_lem whole naturals three "e" 5 (refl, (refl, (refl, tt)))
      (refl, (refl, (refl, tt)))
