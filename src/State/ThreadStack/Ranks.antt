-- ===== src/State/ThreadStack/Ranks.antt =====
-- The cap, the threshold and the foreground of the thread stack, and which floating threads stay.
use kai_daemon.Base.{
  Never, ◌≤◌, ◌+◌, ◌-◌, ◌≡◌, refl, ap, ℕ, zero, suc, Bool, true, false, ◌&&◌, arith, List, [], ◌∷◌,
  map, filter, take, length, length-take-le, All, All-map, leb, ltb, Bool-cases, inl, inr, ◌⊎◌,
}
use kai_daemon.State.ThreadStack.{
  foreground, peripheral, Arithmetic, ThreadStackEntry, SalienceConfig, Turn, update_salience,
  insert, sorted, enumerate, assign_all, assign_states, with_state, refresh, capped, decay_floating,
  refresh_floating, update_stack,
}

module _ (floats : Arithmetic) where
  -- At most two entries. One alone is in the foreground; of two it is the one of greater salience,
  -- the first where neither is greater, and the other is peripheral.
  abbrev pub IsRanked : List (ThreadStackEntry floats) → Type 0
  IsRanked [] = Unit
  IsRanked (a ∷ []) = a.state ≡ foreground
  IsRanked (a ∷ b ∷ []) =
      ((floats.gt b.salience a.salience ≡ false) × (a.state ≡ foreground) × (b.state ≡ peripheral))
      ⊎ ((floats.gt b.salience a.salience ≡ true) × (a.state ≡ peripheral) × (b.state ≡ foreground))
  IsRanked (a ∷ b ∷ c ∷ l) = Never

  abbrev pub IsOnStack : ThreadStackEntry floats → Type 0
  IsOnStack e = e.is_floating ≡ false

  pub assign_states-IsRanked :
      (stack : List (ThreadStackEntry floats))
      → All IsOnStack stack
      → length stack ≤ 2
      → IsRanked (assign_states floats stack)
  unfolding assign_states assign_all enumerate sorted insert
  assign_states-IsRanked [] h n = tt
  assign_states-IsRanked (a ∷ []) h n = ground arith
  assign_states-IsRanked (a ∷ b ∷ []) h n = elim (Bool-cases (floats.gt b.salience a.salience)) [
    | inl greater ↦ inr (ground arith, ground arith, ground arith)
    | inr not_greater ↦ inl (ground arith, ground arith, ground arith)
  ]
  assign_states-IsRanked (a ∷ b ∷ c ∷ l) h n = ground arith

  module _ (P : ThreadStackEntry floats → Type 0) where
    insert-All :
        (x : ThreadStackEntry floats) (l : List (ThreadStackEntry floats))
        → P x
        → All P l
        → All P (insert floats (λ e. e) x l)
    unfolding insert
    insert-All x [] p h = (p, tt)
    insert-All x (y ∷ l) p h = elim (Bool-cases (floats.gt y.salience x.salience)) [
      | inl greater ↦ rw greater (h.0, insert-All x l p h.1)
      | inr not_greater ↦ rw not_greater (p, h)
    ]

    pub sorted-All :
        (l : List (ThreadStackEntry floats)) → All P l → All P (sorted floats (λ e. e) l)
    unfolding sorted
    sorted-All [] h = tt
    sorted-All (x ∷ l) h = insert-All x (sorted floats (λ e. e) l) h.0 (sorted-All l h.1)

    pub take-All : (n : ℕ) (l : List (ThreadStackEntry floats)) → All P l → All P (take n l)
    take-All zero l h = tt
    take-All (suc n) [] h = tt
    take-All (suc n) (x ∷ l) h = (h.0, take-All n l h.1)

    capped-All : (l : List (ThreadStackEntry floats)) → All P l → All P (capped floats l)
    unfolding capped
    capped-All l h = elim (Bool-cases (ltb 2 (length l))) [
      | inl full ↦ rw (full, capped) (take-All 2 _ (sorted-All l h))
      | inr room ↦ rw (room, capped) h
    ]

    -- What does not depend on the state is kept by `assign_states`.
    assign_states-All :
        (stack : List (ThreadStackEntry floats))
        → ((e : ThreadStackEntry floats) (top : Bool) → P e → P (with_state floats top e))
        → All P stack
        → All P (assign_states floats stack)
    unfolding assign_states assign_all enumerate
    assign_states-All stack keep h = each 0 stack _ h
      where
        each :
            (n : ℕ) (l : List (ThreadStackEntry floats))
            (ranked : List (ℕ × ThreadStackEntry floats))
            → All P l
            → All P (assign_all floats ranked (enumerate floats n l))
        each n [] ranked h = tt
        each n (e ∷ l) ranked h = (keep e _ h.0, each (n + 1) l ranked h.1)

  capped-length : (l : List (ThreadStackEntry floats)) → length (capped floats l) ≤ 2
  unfolding capped
  capped-length l = ground (arith, length-take-le 2 (sorted floats (λ e. e) l))

  refresh-All :
      (config : SalienceConfig floats) (turn : Turn) (stack : List (ThreadStackEntry floats))
      → All IsOnStack stack
      → All
          (λ e. IsOnStack e × (floats.ge e.salience config.drop_threshold ≡ true))
          (refresh floats config turn stack)
  unfolding refresh update_salience
  refresh-All config turn [] h = tt
  refresh-All config turn (e ∷ stack) h =
      let e' = update_salience floats config turn e in
      elim (Bool-cases (floats.ge e'.salience config.drop_threshold)) [
        | inl stays ↦ rw (stays, refresh) ((h.0, stays), refresh-All config turn stack h.1)
        | inr drops ↦ rw (drops, refresh) (refresh-All config turn stack h.1)
      ]

  floating_lem :
      (config : SalienceConfig floats) (turn : Turn) (floating : List (ThreadStackEntry floats))
      → refresh_floating floats config turn floating
        ≡ map (decay_floating floats config turn) (
            filter
              (λ e.
                leb (turn.current_turn - e.last_touched_turn) config.floating_max_turns_unresolved
                && floats.ge
                    (decay_floating floats config turn e).salience
                    config.floating_drop_threshold)
              floating)
  unfolding refresh_floating filter
  floating_lem config turn [] = refl
  floating_lem config turn (e ∷ floating) =
      elim (Bool-cases (
        leb (turn.current_turn - e.last_touched_turn) config.floating_max_turns_unresolved
        && floats.ge (decay_floating floats config turn e).salience
            config.floating_drop_threshold)) [
              | inl stays ↦
                  rw (stays, refresh_floating, filter)
                    (ap (λ l. decay_floating floats config turn e ∷ l)
                      (floating_lem config turn floating))
              | inr goes ↦ rw (goes, refresh_floating, filter) (floating_lem config turn floating)
            ]

  -- A turn over a stack without floating entries leaves a stack of at most two entries, in which
  -- each has at least the salience of the threshold, one alone is in the foreground, and of two it
  -- is the one of greater salience, the first where neither is greater. A floating thread stays
  -- exactly when it has been unresolved for at most the configured turns and its salience, after
  -- its decay, is at least the floating threshold; those that stay keep their order.
  pub update_stack_lem :
      (config : SalienceConfig floats) (turn : Turn)
      (stack floating : List (ThreadStackEntry floats))
      → All IsOnStack stack
      → IsRanked (update_stack floats config turn stack floating).0
        × All
            (λ e. floats.ge e.salience config.drop_threshold ≡ true)
            (update_stack floats config turn stack floating).0
        × ((update_stack floats config turn stack floating).1
            ≡ map (decay_floating floats config turn) (
                filter
                  (λ e.
                    leb
                      (turn.current_turn - e.last_touched_turn)
                      config.floating_max_turns_unresolved
                    && floats.ge
                        (decay_floating floats config turn e).salience
                        config.floating_drop_threshold)
                  floating))
  unfolding update_stack
  update_stack_lem config turn stack floating h =
      let kept = refresh-All config turn stack h in
      let few =
        capped-All (λ e. IsOnStack e × (floats.ge e.salience config.drop_threshold ≡ true))
          (refresh floats config turn stack) kept in
      (
        assign_states-IsRanked (capped floats (refresh floats config turn stack))
            (All-map _ IsOnStack _ (λ e p. p.0) few)
            (capped-length (refresh floats config turn stack)),
        assign_states-All (λ e. floats.ge e.salience config.drop_threshold ≡ true)
            (capped floats (refresh floats config turn stack)) (λ e top p. p)
            (All-map _ (λ e. floats.ge e.salience config.drop_threshold ≡ true) _ (λ e p. p.1) few),
        floating_lem config turn floating,
      )
