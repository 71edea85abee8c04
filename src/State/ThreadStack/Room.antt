-- ===== src/State/ThreadStack/Room.antt =====
-- Adding a thread to the stack: what there is room for.
use kai_daemon.Base.{
  In, sym, subst, if◌then◌else◌, ◌≤◌, ◌+◌, ◌≡◌, refl, ap, ◌∙◌, ℕ, String, Bool, true, false, arith,
  List, [], ◌∷◌, ◌++◌, map, take, length, length-append, length-take-le, All, All-append, All-map,
  leb, Bool-cases, inl, inr, ◌⊎◌,
}
use mathlib.Core.List.{map-append}
use kai_daemon.State.ThreadStack.{
  Arithmetic, ThreadStackEntry, insert, sorted, enumerate, assign_all, assign_states, make_room,
  new_entry, add_thread_to_stack,
}
use kai_daemon.State.ThreadStack.Ranks.{
  IsRanked, IsOnStack, assign_states-IsRanked, sorted-All, take-All,
}

module _ (floats : Arithmetic) where
  make_room-length : (stack : List (ThreadStackEntry floats)) → length (make_room floats stack) ≤ 1
  unfolding make_room
  make_room-length stack = ground (arith, length-take-le 1 (sorted floats (λ e. e) stack))

  make_room-All :
      (stack : List (ThreadStackEntry floats))
      → All (IsOnStack floats) stack
      → All (IsOnStack floats) (make_room floats stack)
  unfolding make_room
  make_room-All stack h = elim (Bool-cases (leb 2 (length stack))) [
    | inl full ↦
        rw (full, make_room)
          (take-All floats (IsOnStack floats) 1 _ (sorted-All floats (IsOnStack floats) stack h))
    | inr room ↦ rw (room, make_room) h
  ]

  assign_states-ids :
      (stack : List (ThreadStackEntry floats))
      → map (λ e. e.thread_id) (assign_states floats stack) ≡ map (λ e. e.thread_id) stack
  unfolding assign_states assign_all enumerate
  assign_states-ids stack = each 0 stack _
    where
      each :
          (n : ℕ) (l : List (ThreadStackEntry floats)) (ranked : List (ℕ × ThreadStackEntry floats))
          → map (λ e. e.thread_id) (assign_all floats ranked (enumerate floats n l))
            ≡ map (λ e. e.thread_id) l
      each n [] ranked = refl
      each n (e ∷ l) ranked = ap (λ ids. e.thread_id ∷ ids) (each (n + 1) l ranked)

  -- What IEEE comparison gives, for NaN too where it does not ask for a number.
  pub record Comparison : Type 0 where
    pub is_number : floats.Float → Bool
    pub gt_asym : (a b : floats.Float) → floats.gt a b ≡ true → floats.gt b a ≡ false
    pub gt_split :
        (a b c : floats.Float)
        → is_number c ≡ true
        → floats.gt a b ≡ true
        → (floats.gt c b ≡ true) ⊎ (floats.gt a c ≡ true)

  -- No entry of the stack has more salience than this one of it.
  abbrev pub IsGreatest : List (ThreadStackEntry floats) → ThreadStackEntry floats → Type 0
  IsGreatest stack m = In m stack × All (λ e. floats.gt e.salience m.salience ≡ false) stack

  -- What there was room for: all of fewer than two threads, else one of greatest salience.
  pub data Kept (stack : List (ThreadStackEntry floats))
      : List (ThreadStackEntry floats) → Type 0 where
    all_of_it : leb 2 (length stack) ≡ false → Kept stack stack
    greatest :
        (m : ThreadStackEntry floats)
        → leb 2 (length stack) ≡ true
        → IsGreatest stack m
        → Kept stack (m ∷ [])

  module _ (ieee : Comparison) where
    not_above :
        (e m x : ThreadStackEntry floats)
        → ieee.is_number m.salience ≡ true
        → floats.gt e.salience m.salience ≡ false
        → floats.gt m.salience x.salience ≡ false
        → floats.gt e.salience x.salience ≡ false
    not_above e m x number p q = elim (Bool-cases (floats.gt e.salience x.salience)) [
      | inr f ↦ f
      | inl above ↦ elim (ieee.gt_split e.salience x.salience m.salience number above) [
        | inl f ↦ cc
        | inr f ↦ cc
      ]
    ]

    not_above_self : (x : ThreadStackEntry floats) → floats.gt x.salience x.salience ≡ false
    not_above_self x = elim (Bool-cases (floats.gt x.salience x.salience)) [
      | inr f ↦ f
      | inl t ↦ ieee.gt_asym x.salience x.salience t
    ]

    sorted-IsGreatest :
        (x : ThreadStackEntry floats) (xs : List (ThreadStackEntry floats))
        → All (λ e. ieee.is_number e.salience ≡ true) (x ∷ xs)
        → (m : ThreadStackEntry floats) × (take 1 (sorted floats (λ e. e) (x ∷ xs)) ≡ m ∷ [])
          × ((l : List (ThreadStackEntry floats)) × (sorted floats (λ e. e) (x ∷ xs) ≡ m ∷ l))
          × (ieee.is_number m.salience ≡ true)
          × IsGreatest (x ∷ xs) m
    unfolding sorted insert
    sorted-IsGreatest x [] n = (x, refl, ([], refl), n.0, (inl refl, (not_above_self x, tt)))
    sorted-IsGreatest x (y ∷ ys) n =
        let (m, first, (l, eq), number, (there, top)) = sorted-IsGreatest y ys n.1 in
        elim (Bool-cases (floats.gt m.salience x.salience)) [
          | inl above ↦
              let whole : sorted floats (λ e. e) (x ∷ y ∷ ys) ≡ m ∷ insert floats (λ e. e) x l =
                ap (insert floats (λ e. e) x) eq ∙ (rw above refl) in
              (
                m,
                ap (take 1) whole,
                (insert floats (λ e. e) x l, whole),
                number,
                (inr there, (ieee.gt_asym m.salience x.salience above, top)),
              )
          | inr not_so ↦
              let whole : sorted floats (λ e. e) (x ∷ y ∷ ys) ≡ x ∷ m ∷ l =
                ap (insert floats (λ e. e) x) eq ∙ (rw not_so refl) in
              (
                x,
                ap (take 1) whole,
                (m ∷ l, whole),
                n.0,
                (
                  inl refl,
                  (
                    not_above_self x,
                    All-map (λ e. floats.gt e.salience m.salience ≡ false)
                        (λ e. floats.gt e.salience x.salience ≡ false) (y ∷ ys)
                        (λ e p. not_above e m x number p not_so) top,
                  ),
                ),
              )
        ]

    make_room-Kept :
        (stack : List (ThreadStackEntry floats))
        → All (λ e. ieee.is_number e.salience ≡ true) stack
        → Kept stack (make_room floats stack)
    unfolding make_room
    make_room-Kept [] n = all_of_it refl
    make_room-Kept (x ∷ xs) n = elim (Bool-cases (leb 2 (length (x ∷ xs)))) [
      | inr few ↦ subst (Kept (x ∷ xs)) (ap (pick (x ∷ xs)) (sym few)) (all_of_it few)
      | inl full ↦
          let (m, first, whole, number, top) = sorted-IsGreatest x xs n in
          subst (Kept (x ∷ xs)) (sym (ap (pick (x ∷ xs)) full ∙ first)) (greatest m full top)
    ]
      where
        pick : List (ThreadStackEntry floats) → Bool → List (ThreadStackEntry floats)
        pick l b = if b then take 1 (sorted floats (λ e. e) l) else l

  -- Where comparison is as IEEE has it and every salience is a number, adding a thread to a stack
  -- without floating entries gives a stack of at most two entries, with
  -- the foreground as after a turn, in which the new thread stands last, behind the threads that
  -- there was room for: all of fewer than two, else one of greatest salience.
  pub add_thread_to_stack_lem :
      (ieee : Comparison) (stack : List (ThreadStackEntry floats)) (thread_id : String)
      (current_turn : ℕ)
      → All (IsOnStack floats) stack
      → All (λ e. ieee.is_number e.salience ≡ true) stack
      → IsRanked floats (add_thread_to_stack floats stack thread_id current_turn)
        × ((kept : List (ThreadStackEntry floats)) × Kept stack kept
            × (map (λ e. e.thread_id) (add_thread_to_stack floats stack thread_id current_turn)
                ≡ map (λ e. e.thread_id) kept ++ thread_id ∷ []))
  unfolding add_thread_to_stack new_entry
  add_thread_to_stack_lem ieee stack thread_id current_turn h numbers =
      let entry = new_entry floats thread_id current_turn false in
      (
        assign_states-IsRanked floats (make_room floats stack ++ entry ∷ [])
            (All-append (IsOnStack floats) (make_room floats stack) (entry ∷ [])
              (make_room-All stack h) (refl, tt))
            (omega
              (arith, length-append (make_room floats stack) (entry ∷ []), make_room-length stack)),
        (
          make_room floats stack,
          make_room-Kept ieee stack numbers,
          assign_states-ids (make_room floats stack ++ entry ∷ [])
              ∙ map-append (λ e. e.thread_id) (make_room floats stack) (entry ∷ []),
        ),
      )
