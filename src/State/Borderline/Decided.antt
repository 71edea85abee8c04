-- ===== src/State/Borderline/Decided.antt =====
-- That a decision on an item is final, and when the pool's file is in step with memory.
use kai_daemon.Base.{
  In, filter, length, eq_iff, ◌≡◌, refl, subst, ap, ◌∙◌, sym, ℕ, ◌⊎◌, inl, inr, String, Bool, true,
  false, arith, some, List, [], ◌∷◌, ◌==◌, All, All-map, Bool-cases, Option-cases, nat_eq,
  if◌then◌else◌,
}
use kai_daemon.Base.Dict
use kai_daemon.Base.Dict.{
  Dict, get-put, get-put_ne, values-get, get-IsKeyed, from_rows-values, values-HasDistinctIds,
}
use kai_daemon.Base.Outcome.{Outcome, return, raise, value_error, type_error}
use kai_daemon.State.Table.{save, store, PlainYaml, All-plain}
use kai_daemon.State.Borderline.{
  BorderlineItem, is_pending, item_id_of, promoted_copy, discarded_copy, Expiry, expire_all,
  expired_pool, BorderlinePool, load_pool, restore_pool, append, get_item, promote, discard,
  expire_old,
}
use kai_daemon.State.Borderline.Overdue.{is_overdue, blocks, aged, stops, finishes, loop-Ends}
use kai_daemon.State.Borderline.Final.{
  Call, appends, promotes, discards, expires, Spares, IsKept, put-IsKept, broken, done, loop,
  loop-get,
}

module _ (yaml : PlainYaml BorderlineItem) where
  unfoldable pub call : Call → BorderlinePool yaml → BorderlinePool yaml
  unfolding append promote discard expire_old
  call (appends k created raw_output) s = (append yaml k created raw_output s).1
  call (promotes k now) s = (promote yaml k now s).1
  call (discards k now) s = (discard yaml k now s).1
  call (expires now) s = (expire_old yaml now s).1

  unfoldable pub run : List Call → BorderlinePool yaml → BorderlinePool yaml
  unfolding call
  run [] s = s
  run (c ∷ cs) s = run cs (call c s)

  -- The file reads back as the items in memory.
  pub record InStep (s : BorderlinePool yaml) : Type 0 where
    pub kept : IsKept s.items
    pub reloads : load_pool yaml s.file ≡ return s.items

  save-InStep : (s : BorderlinePool yaml) → IsKept s.items → InStep (save yaml s)
  unfolding save load_pool
  save-InStep s h = record {
    kept = h;
    reloads =
        ap restore_pool (yaml.parse-dump (Dict.values s.items) (All-plain (Dict.values s.items)))
        ∙ ap return (from_rows-values item_id_of s.items h.keyed h.distinct);
  }

  -- How `expire_old` ends after the loop, by the test on the count.
  abbrev ended : Expiry → BorderlinePool yaml → Bool → Outcome ℕ × BorderlinePool yaml
  ended y s none_expired =
      if none_expired
      then (return 0, record s { items = y.items })
      else (return y.expired, save yaml (record s { items = y.items }))

  expire_old-InStep :
      (now : ℕ) (s : BorderlinePool yaml)
      → InStep s
      → ((n : ℕ) × ((expire_old yaml now s).0 ≡ return n) × InStep (expire_old yaml now s).1)
        ⊎ (((expire_old yaml now s).0 ≡ raise type_error)
            × ((expire_old yaml now s).1.file ≡ s.file))
  unfolding expire_old
  expire_old-InStep now s h =
      elim (loop now (Dict.values s.items) (record { items = s.items; expired = 0 }) h.kept) [
        | broken y e k ↦
            inr (ap (λ r. (expired_pool yaml s r).0) e, ap (λ r. (expired_pool yaml s r).1.file) e)
        | done y e k le same ↦ elim (Bool-cases (nat_eq y.expired 0)) [
          | inl zero_expired ↦
              let whole : expire_old yaml now s ≡ (return 0, record s { items = y.items }) =
                ap (expired_pool yaml s) e ∙ ap (ended y s) zero_expired in
              let unchanged : y.items ≡ s.items = same (ground arith) in
              let stays : InStep (record s { items = y.items }) = record {
                kept = k;
                reloads = h.reloads ∙ ap return (sym unchanged);
              } in
              inl (0, ap (λ r. r.0) whole, subst (λ r. InStep r.1) (sym whole) stays)
          | inr some_expired ↦
              let whole : expire_old yaml now s
                  ≡ (return y.expired, save yaml (record s { items = y.items })) =
                ap (expired_pool yaml s) e ∙ ap (ended y s) some_expired in
              inl (
                y.expired,
                ap (λ r. r.0) whole,
                subst (λ r. InStep r.1) (sym whole) (save-InStep (record s { items = y.items }) k),
              )
        ]
      ]

  ended-count :
      (y : Expiry) (s : BorderlinePool yaml) → (ended y s (nat_eq y.expired 0)).0 ≡ return y.expired
  ended-count y s = elim (Bool-cases (nat_eq y.expired 0)) [
    | inl none_expired ↦ let n : 0 ≡ y.expired = ground arith in rw none_expired (ap return n)
    | inr some_expired ↦ rw some_expired refl
  ]

  ended-items : (y : Expiry) (s : BorderlinePool yaml) (b : Bool) → (ended y s b).1.items ≡ y.items
  unfolding save
  ended-items y s true = refl
  ended-items y s false = refl

  -- Expiry of a pool whose file is in step. Where every pending item has a time with an offset, or
  -- one that does not parse, it returns the number of pending items of 30 days or more, discards
  -- these now, leaves every other item as it is, and the file is in step again. Else it meets a
  -- pending item whose time has no offset and raises a TypeError, and the file is as it was,
  -- whatever items were discarded in memory.
  pub expire_old_lem :
      (now : ℕ) (s : BorderlinePool yaml)
      → InStep s
      → (All (λ i. blocks now i ≡ false) (Dict.values s.items)
          × ((expire_old yaml now s).0
              ≡ return (length (filter (is_overdue now) (Dict.values s.items))))
          × All
              (λ i. Dict.get (expire_old yaml now s).1.items i.id ≡ some (aged now i))
              (Dict.values s.items)
          × InStep (expire_old yaml now s).1)
        ⊎ (((i : BorderlineItem) × In i (Dict.values s.items) × (blocks now i ≡ true))
            × ((expire_old yaml now s).0 ≡ raise type_error)
            × ((expire_old yaml now s).1.file ≡ s.file))
  unfolding expire_old
  expire_old_lem now s h =
      let items = Dict.values s.items in
      elim (loop-Ends now items (record { items = s.items; expired = 0 })
        (values-HasDistinctIds item_id_of s.items h.kept.keyed h.kept.distinct)
        (values-get item_id_of s.items h.kept.keyed h.kept.distinct)) [
          | stops y i e there b ↦ inr (
            (i, there, b),
            ap (λ r. (expired_pool yaml s r).0) e,
            ap (λ r. (expired_pool yaml s r).1.file) e,
          )
          | finishes y e free count found frame ↦
              let whole : expire_old yaml now s ≡ ended y s (nat_eq y.expired 0) =
                ap (expired_pool yaml s) e in
              let left : (expire_old yaml now s).1.items ≡ y.items =
                ap (λ r. r.1.items) whole ∙ ended-items y s (nat_eq y.expired 0) in
              let total : y.expired ≡ length (filter (is_overdue now) items) =
                omega (arith, count) in
              let returned : (expire_old yaml now s).0 ≡ return y.expired =
                ap (λ r. r.0) whole ∙ ended-count y s in
              inl (
                free,
                returned ∙ ap return total,
                subst (λ d. All (λ i. Dict.get d i.id ≡ some (aged now i)) items) (sym left) found,
                in_step now s h y.expired returned,
              )
        ]
    where
      in_step :
          (now : ℕ) (s : BorderlinePool yaml)
          → InStep s
          → (n : ℕ) → (expire_old yaml now s).0 ≡ return n
          → InStep (expire_old yaml now s).1
      in_step now s h n returned = elim (expire_old-InStep now s h) [
        | inl (m, r, again) ↦ again
        | inr (raised, same) ↦ cc
      ]

  -- What `promote` and `discard` do to the items.
  data Decision (k : String) (s s' : BorderlinePool yaml) : Type 0 where
    refuses : s' ≡ s → Decision k s s'
    decides :
        (v w : BorderlineItem)
        → Dict.get s.items k ≡ some v
        → is_pending v.status ≡ true
        → w.id ≡ v.id
        → s' ≡ store yaml k w s
        → Decision k s s'

  promote_cases :
      (k : String) (now : ℕ) (s : BorderlinePool yaml) → Decision k s (promote yaml k now s).1
  unfolding promote get_item
  promote_cases k now s = elim (Option-cases (Dict.get s.items k)) [
    | inl absent ↦ refuses (ground arith)
    | inr (v, found) ↦ elim (Bool-cases (is_pending v.status)) [
      | inl waits ↦
          decides v (promoted_copy now v) found waits (unfold promoted_copy in refl) (ground arith)
      | inr decided ↦ refuses (ground arith)
    ]
  ]

  discard_cases :
      (k : String) (now : ℕ) (s : BorderlinePool yaml) → Decision k s (discard yaml k now s).1
  unfolding discard get_item
  discard_cases k now s = elim (Option-cases (Dict.get s.items k)) [
    | inl absent ↦ refuses (ground arith)
    | inr (v, found) ↦ elim (Bool-cases (is_pending v.status)) [
      | inl waits ↦
          decides v (discarded_copy now v) found waits (unfold discarded_copy in refl)
            (ground arith)
      | inr decided ↦ refuses (ground arith)
    ]
  ]

  Decision-IsKept :
      (k : String) (s s' : BorderlinePool yaml) → Decision k s s' → IsKept s.items → IsKept s'.items
  unfolding store save
  Decision-IsKept k s s' (refuses e) h = rw e h
  Decision-IsKept k s s' (decides v w found waits id e) h =
      let named : w.id ≡ k = id ∙ get-IsKeyed item_id_of s.items k v h.keyed found in
      rw e (subst (λ j. IsKept (Dict.put s.items j w)) named (put-IsKept s.items w h))

  -- A decided item is out of reach of a decision.
  Decision-get :
      (k j : String) (s s' : BorderlinePool yaml) (v : BorderlineItem)
      → Decision j s s'
      → Dict.get s.items k ≡ some v
      → is_pending v.status ≡ false
      → Dict.get s'.items k ≡ some v
  unfolding store save
  Decision-get k j s s' v (refuses e) found gone = rw e found
  Decision-get k j s s' v (decides u w there waits id e) found gone =
      rw e (ground (arith, get-put s.items j k w, eq_iff j k))

  -- Expiry leaves in memory what the loop leaves.
  expired-items :
      (now : ℕ) (s : BorderlinePool yaml)
      → IsKept s.items
      → ((expire_old yaml now s).1.items
          ≡ (expire_all now
              (Dict.values s.items)
              (record { items = s.items; expired = 0 })).1.items)
        × IsKept (expire_old yaml now s).1.items
  unfolding expire_old save
  expired-items now s h =
      elim (loop now (Dict.values s.items) (record { items = s.items; expired = 0 }) h) [
        | broken y e k ↦
            let left = ap (λ r. (expired_pool yaml s r).1.items) e in
            (left ∙ sym (ap (λ r. r.1.items) e), subst IsKept (sym left) k)
        | done y e k le same ↦
            let left : (expire_old yaml now s).1.items ≡ y.items =
              ap (λ r. (expired_pool yaml s r).1.items) e ∙ if_same (nat_eq y.expired 0) y s in
            (left ∙ sym (ap (λ r. r.1.items) e), subst IsKept (sym left) k)
      ]
    where
      if_same : (b : Bool) (y : Expiry) (s : BorderlinePool yaml) → (ended y s b).1.items ≡ y.items
      if_same true y s = refl
      if_same false y s = refl

  call-IsKept : (c : Call) (s : BorderlinePool yaml) → IsKept s.items → IsKept (call c s).items
  unfolding call append store save
  call-IsKept (appends k created raw_output) s h = put-IsKept s.items _ h
  call-IsKept (promotes k now) s h = Decision-IsKept k s _ (promote_cases k now s) h
  call-IsKept (discards k now) s h = Decision-IsKept k s _ (discard_cases k now s) h
  call-IsKept (expires now) s h = (expired-items now s h).1

  -- No pending item is named as a decided one.
  others :
      (d : Dict BorderlineItem) (k : String) (v : BorderlineItem) (l : List BorderlineItem)
      → Dict.get d k ≡ some v
      → is_pending v.status ≡ false
      → All (λ i. Dict.get d i.id ≡ some i) l
      → All (λ i. is_pending i.status ≡ true → (i.id == k) ≡ false) l
  others d k v l found gone h =
      All-map (λ i. Dict.get d i.id ≡ some i)
        (λ i. is_pending i.status ≡ true → (i.id == k) ≡ false) l
        (λ i there waits. apart i there waits) h
    where
      apart :
          (i : BorderlineItem)
          → Dict.get d i.id ≡ some i
          → is_pending i.status ≡ true
          → (i.id == k) ≡ false
      apart i there waits = elim (Bool-cases (i.id == k)) [
        | inr other ↦ other
        | inl same ↦
            let named : i.id ≡ k = ground (arith, eq_iff i.id k) in
            let here : Dict.get d k ≡ some i = sym (ap (Dict.get d) named) ∙ there in ground arith
      ]

  call-get :
      (c : Call) (s : BorderlinePool yaml) (k : String) (v : BorderlineItem)
      → Spares k c
      → IsKept s.items
      → Dict.get s.items k ≡ some v
      → is_pending v.status ≡ false
      → Dict.get (call c s).items k ≡ some v
  unfolding call append store save
  call-get (appends j created raw_output) s k v spares h found gone =
      get-put_ne s.items j k _ spares ∙ found
  call-get (promotes j now) s k v spares h found gone =
      Decision-get k j s _ v (promote_cases j now s) found gone
  call-get (discards j now) s k v spares h found gone =
      Decision-get k j s _ v (discard_cases j now s) found gone
  call-get (expires now) s k v spares h found gone =
      ap (λ d. Dict.get d k) (expired-items now s h).0
      ∙ loop-get now (Dict.values s.items) _ k (
          others s.items k v (Dict.values s.items) found gone
            (values-get item_id_of s.items h.keyed h.distinct))
      ∙ found

  run-get :
      (cs : List Call) (s : BorderlinePool yaml) (k : String) (v : BorderlineItem)
      → All (Spares k) cs
      → IsKept s.items
      → Dict.get s.items k ≡ some v
      → is_pending v.status ≡ false
      → Dict.get (run cs s).items k ≡ some v
  unfolding run
  run-get [] s k v spares h found gone = found
  run-get (c ∷ cs) s k v spares h found gone =
      run-get cs (call c s) k v spares.1 (call-IsKept c s h)
        (call-get c s k v spares.0 h found gone) gone

  -- A decision is final: in a pool where each item stands under its own id, once, an item that was
  -- promoted or discarded stays as it is under any appends of items with other ids, promotions,
  -- discards and expiries, and to promote or to discard it raises a ValueError and changes nothing.
  pub decided_final :
      (cs : List Call) (s : BorderlinePool yaml) (k : String) (v : BorderlineItem) (now : ℕ)
      → All (Spares k) cs
      → IsKept s.items
      → Dict.get s.items k ≡ some v
      → is_pending v.status ≡ false
      → (Dict.get (run cs s).items k ≡ some v)
        × (promote yaml k now (run cs s) ≡ (raise value_error, run cs s))
        × (discard yaml k now (run cs s) ≡ (raise value_error, run cs s))
  unfolding promote discard get_item
  decided_final cs s k v now spares h found gone =
      let still = run-get cs s k v spares h found gone in (still, ground arith, ground arith)
