-- ===== src/Workflows/EpisodicFlush/FirstSeen.antt =====
-- The threads of a session in the order in which they were first seen.
use kai_daemon.Base.{
  ◌≡◌, refl, sym, ap, ◌∙◌, inl, inr, String, Bool, true, false, not, ◌||◌, ◌==◌, eq_iff, List, [],
  ◌∷◌, ◌++◌, map, filter, arith, Bool-cases, if◌then◌else◌, or_else,
}
use mathlib.Core.List.{append_assoc, append-nil}
use kai_daemon.Base.Dict
use kai_daemon.Base.Dict.{Dict}
use kai_daemon.State.WorkingMemory.{TurnNote}
use kai_daemon.Workflows.EpisodicFlush.Compile.{
  is_in, add_key, add_keys, concat_map, append_turn, append_turns, group_turns,
}

-- Each name once, where it comes first.
unfoldable pub first_seen : List String → List String
unfolding filter
first_seen [] = []
first_seen (x ∷ xs) = x ∷ filter (λ y. not (y == x)) (first_seen xs)

-- The threads that were active in the turns, and in the notable ones.
unfoldable pub threads_in : List TurnNote → List String
threads_in [] = []
threads_in (tn ∷ tns) = tn.thread_ids_active ++ threads_in tns

unfoldable pub noted_threads : List TurnNote → List String
noted_threads [] = []
noted_threads (tn ∷ tns) =
    let rest = noted_threads tns in if tn.notable then tn.thread_ids_active ++ rest else rest

abbrev new_in : List String → List String → List String
new_in keys xs = filter (λ x. not (is_in x keys)) xs

is_in-snoc :
    (keys : List String) (x y : String) → is_in y (keys ++ x ∷ []) ≡ is_in y keys || (x == y)
unfolding is_in
is_in-snoc [] x y = ground arith
is_in-snoc (k ∷ keys) x y = ground (arith, is_in-snoc keys x y)

new_in-known :
    (keys : List String) (x : String) (ys : List String)
    → is_in x keys ≡ true
    → new_in keys (filter (λ y. not (y == x)) ys) ≡ new_in keys ys
unfolding filter
new_in-known keys x [] h = refl
new_in-known keys x (y ∷ ys) h = elim (Bool-cases (y == x)) [
  | inl same ↦
      let known : is_in y keys ≡ true = ap (λ z. is_in z keys) (ground (arith, eq_iff y x)) ∙ h in
      rw (same, known) (new_in-known keys x ys h)
  | inr other ↦ elim (Bool-cases (is_in y keys)) [
    | inl known ↦ rw (other, known) (new_in-known keys x ys h)
    | inr fresh ↦ rw (other, fresh) (ap (λ l. y ∷ l) (new_in-known keys x ys h))
  ]
]

new_in-snoc :
    (keys : List String) (x : String) (ys : List String)
    → new_in (keys ++ x ∷ []) ys ≡ new_in keys (filter (λ y. not (y == x)) ys)
unfolding filter
new_in-snoc keys x [] = refl
new_in-snoc keys x (y ∷ ys) = elim (Bool-cases (y == x)) [
  | inl same ↦
      let known : is_in y (keys ++ x ∷ []) ≡ true =
        ground (arith, is_in-snoc keys x y, eq_iff y x, eq_iff x y) in
      rw (same, known) (new_in-snoc keys x ys)
  | inr other ↦
      let as_before : is_in y (keys ++ x ∷ []) ≡ is_in y keys =
        ground (arith, is_in-snoc keys x y, eq_iff y x, eq_iff x y) in
      elim (Bool-cases (is_in y keys)) [
        | inl known ↦ rw (other, as_before, known) (new_in-snoc keys x ys)
        | inr fresh ↦ rw (other, as_before, fresh) (ap (λ l. y ∷ l) (new_in-snoc keys x ys))
      ]
]

add_keys-new : (keys xs : List String) → add_keys keys xs ≡ keys ++ new_in keys (first_seen xs)
unfolding add_keys add_key first_seen filter
add_keys-new keys [] = sym (append-nil keys)
add_keys-new keys (x ∷ xs) = elim (Bool-cases (is_in x keys)) [
  | inl known ↦
      rw known (
        add_keys-new keys xs
        ∙ ap (λ l. keys ++ l) (sym (new_in-known keys x (first_seen xs) known)))
  | inr fresh ↦ rw fresh (
      add_keys-new (keys ++ x ∷ []) xs
      ∙ append_assoc keys (x ∷ []) (new_in (keys ++ x ∷ []) (first_seen xs))
      ∙ ap (λ l. keys ++ x ∷ l) (new_in-snoc keys x (first_seen xs)))
]

new_in-none : (xs : List String) → new_in [] xs ≡ xs
unfolding filter is_in
new_in-none [] = refl
new_in-none (x ∷ xs) = ap (λ l. x ∷ l) (new_in-none xs)

pub fromkeys-first_seen : (xs : List String) → add_keys [] xs ≡ first_seen xs
fromkeys-first_seen xs = add_keys-new [] xs ∙ new_in-none (first_seen xs)

pub concat_map-threads_in :
    (tns : List TurnNote) → concat_map (λ tn. tn.thread_ids_active) tns ≡ threads_in tns
unfolding concat_map threads_in
concat_map-threads_in [] = refl
concat_map-threads_in (tn ∷ tns) = ap (λ l. tn.thread_ids_active ++ l) (concat_map-threads_in tns)

abbrev keys_of : Dict (List TurnNote) → List String
keys_of d = map (λ e. e.0) d

put-keys_of :
    (d : Dict (List TurnNote)) (k : String) (v : List TurnNote)
    → keys_of (Dict.put d k v) ≡ add_key (keys_of d) k
unfolding Dict.put add_key is_in
put-keys_of [] k v = refl
put-keys_of ((j, u) ∷ d) k v = elim (Bool-cases (j == k)) [
  | inl same ↦ rw same refl
  | inr other ↦ elim (Bool-cases (is_in k (keys_of d))) [
    | inl known ↦ rw (other, known) (ap (λ l. j ∷ l) (put-keys_of d k v ∙ (rw known refl)))
    | inr fresh ↦ rw (other, fresh) (ap (λ l. j ∷ l) (put-keys_of d k v ∙ (rw fresh refl)))
  ]
]

append_turns-keys :
    (d : Dict (List TurnNote)) (tn : TurnNote) (tids : List String)
    → keys_of (append_turns d tn tids) ≡ add_keys (keys_of d) tids
unfolding append_turns append_turn add_keys
append_turns-keys d tn [] = refl
append_turns-keys d tn (tid ∷ tids) =
    append_turns-keys (append_turn d tn tid) tn tids
    ∙ ap (λ l. add_keys l tids) (put-keys_of d tid (or_else (Dict.get d tid) [] ++ tn ∷ []))

add_keys-append :
    (keys xs ys : List String) → add_keys keys (xs ++ ys) ≡ add_keys (add_keys keys xs) ys
unfolding add_keys
add_keys-append keys [] ys = refl
add_keys-append keys (x ∷ xs) ys = add_keys-append (add_key keys x) xs ys

group_turns-keys :
    (d : Dict (List TurnNote)) (tns : List TurnNote)
    → keys_of (group_turns d tns) ≡ add_keys (keys_of d) (noted_threads tns)
unfolding group_turns noted_threads add_keys
group_turns-keys d [] = refl
group_turns-keys d (tn ∷ tns) =
    by_flag tn.notable
      (group_turns-keys (append_turns d tn tn.thread_ids_active) tns
        ∙ ap (λ l. add_keys l (noted_threads tns)) (append_turns-keys d tn tn.thread_ids_active)
        ∙ sym (add_keys-append (keys_of d) tn.thread_ids_active (noted_threads tns)))
      (group_turns-keys d tns)
  where
    by_flag :
        (b : Bool)
        → keys_of (group_turns (append_turns d tn tn.thread_ids_active) tns)
          ≡ add_keys (keys_of d) (tn.thread_ids_active ++ noted_threads tns)
        → keys_of (group_turns d tns) ≡ add_keys (keys_of d) (noted_threads tns)
        → keys_of (group_turns (if b then append_turns d tn tn.thread_ids_active else d) tns)
          ≡ add_keys
              (keys_of d)
              (if b then tn.thread_ids_active ++ noted_threads tns else noted_threads tns)
    by_flag true p q = p
    by_flag false p q = q

pub group_turns-first_seen :
    (tns : List TurnNote) → keys_of (group_turns [] tns) ≡ first_seen (noted_threads tns)
group_turns-first_seen tns = group_turns-keys [] tns ∙ fromkeys-first_seen (noted_threads tns)
