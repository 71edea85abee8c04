-- ===== src/State/DistillationMetrics/Cycles.antt =====
-- A cycle that takes the next number comes after all the others.
use kai_daemon.Base.{
  ℕ, zero, suc, ◌+◌, ◌-◌, ◌≡◌, refl, sym, ap, ◌∙◌, subst, inl, inr, true, List, [], ◌∷◌, ◌++◌, All,
  All-map, leb, length, length-append, drop, Bool-cases, arith,
}
use kai_daemon.Base.Outcome.{return}
use kai_daemon.State.Table.{PlainYaml, All-plain}
use kai_daemon.State.DistillationMetrics.{
  DistillationCycleRecord, insert, sorted, number_after, DistillationMetricsStore, record_cycle,
  last_of, load_cycles, restore_cycles, all_records, load_recent, next_cycle_number, save_cycles,
}

-- Every record's number is at most `k`.
abbrev IsUpTo : ℕ → List DistillationCycleRecord → Type 0
IsUpTo k rs = All (λ r. leb r.cycle_number k ≡ true) rs

abbrev IsFrom : ℕ → List DistillationCycleRecord → Type 0
IsFrom k rs = All (λ r. leb k r.cycle_number ≡ true) rs

abbrev pub IsSorted : List DistillationCycleRecord → Type 0
IsSorted [] = Unit
IsSorted (r ∷ rs) = IsFrom r.cycle_number rs × IsSorted rs

insert-All :
    (P : DistillationCycleRecord → Type 0) (r : DistillationCycleRecord)
    (rs : List DistillationCycleRecord)
    → P r
    → All P rs
    → All P (insert r rs)
unfolding insert
insert-All P r [] p h = (p, tt)
insert-All P r (s ∷ ss) p h = elim (Bool-cases (leb r.cycle_number s.cycle_number)) [
  | inl first ↦ rw first (p, h)
  | inr later ↦ rw later (h.0, insert-All P r ss p (h.1))
]

All-insert :
    (P : DistillationCycleRecord → Type 0) (r : DistillationCycleRecord)
    (rs : List DistillationCycleRecord)
    → All P (insert r rs)
    → P r × All P rs
unfolding insert
All-insert P r [] h = h
All-insert P r (s ∷ ss) h = elim (Bool-cases (leb r.cycle_number s.cycle_number)) [
  | inl first ↦ let g : All P (r ∷ s ∷ ss) = rw first at h in (g.0, g.1)
  | inr later ↦
      let g : All P (s ∷ insert r ss) = rw later at h in
      let rest = All-insert P r ss (g.1) in (rest.0, (g.0, rest.1))
]

insert-IsSorted :
    (r : DistillationCycleRecord) (rs : List DistillationCycleRecord)
    → IsSorted rs
    → IsSorted (insert r rs)
unfolding insert
insert-IsSorted r [] h = (tt, tt)
insert-IsSorted r (s ∷ ss) h = elim (Bool-cases (leb r.cycle_number s.cycle_number)) [
  | inl first ↦ rw first (
    (
      first,
      All-map (λ q. leb s.cycle_number q.cycle_number ≡ true)
          (λ q. leb r.cycle_number q.cycle_number ≡ true) ss (λ q i. ground arith) (h.0),
    ),
    h,
  )
  | inr later ↦ rw later (
    insert-All (λ q. leb s.cycle_number q.cycle_number ≡ true) r ss (ground arith) (h.0),
    insert-IsSorted r ss (h.1),
  )
]

sorted-IsSorted : (rs : List DistillationCycleRecord) → IsSorted (sorted rs)
unfolding sorted
sorted-IsSorted [] = tt
sorted-IsSorted (r ∷ rs) = insert-IsSorted r (sorted rs) (sorted-IsSorted rs)

All-sorted :
    (P : DistillationCycleRecord → Type 0) (rs : List DistillationCycleRecord)
    → All P (sorted rs)
    → All P rs
unfolding sorted
All-sorted P [] h = tt
All-sorted P (r ∷ rs) h = let g = All-insert P r (sorted rs) h in (g.0, All-sorted P rs (g.1))

-- The last number is above all of a sorted list.
below_number_after :
    (rs : List DistillationCycleRecord)
    → IsSorted rs
    → All (λ r. leb (r.cycle_number + 1) (number_after rs) ≡ true) rs
unfolding number_after
below_number_after [] h = tt
below_number_after (r ∷ []) h = (ground arith, tt)
below_number_after (r ∷ s ∷ rest) h =
    let g = below_number_after (s ∷ rest) (h.1) in
    (
      let a : leb (s.cycle_number + 1) (number_after (s ∷ rest)) ≡ true = g.0 in
          let b : leb r.cycle_number s.cycle_number ≡ true = h.0.0 in ground arith,
      g,
    )

insert-append :
    (r q : DistillationCycleRecord) (rs : List DistillationCycleRecord)
    → leb r.cycle_number q.cycle_number ≡ true
    → insert r (rs ++ q ∷ []) ≡ insert r rs ++ q ∷ []
unfolding insert
insert-append r q [] h = rw h refl
insert-append r q (s ∷ ss) h = elim (Bool-cases (leb r.cycle_number s.cycle_number)) [
  | inl first ↦ rw first refl
  | inr later ↦ rw later (ap (λ l. s ∷ l) (insert-append r q ss h))
]

sorted-append :
    (rs : List DistillationCycleRecord) (q : DistillationCycleRecord)
    → IsUpTo q.cycle_number rs
    → sorted (rs ++ q ∷ []) ≡ sorted rs ++ q ∷ []
unfolding sorted
sorted-append [] q h = refl
sorted-append (r ∷ rs) q h =
    ap (insert r) (sorted-append rs q (h.1)) ∙ insert-append r q (sorted rs) (h.0)

drop-snoc :
    (m : ℕ) (rs : List DistillationCycleRecord) (q : DistillationCycleRecord)
    → leb m (length rs) ≡ true
    → drop m (rs ++ q ∷ []) ≡ drop m rs ++ q ∷ []
drop-snoc zero rs q h = refl
drop-snoc (suc m) [] q h = ground arith
drop-snoc (suc m) (r ∷ rs) q h = drop-snoc m rs q (ground arith)

module _ (yaml : PlainYaml DistillationCycleRecord) where
  next_cycle_number-above :
      (s : DistillationMetricsStore yaml)
      → All (λ r. leb (r.cycle_number + 1) (next_cycle_number yaml s) ≡ true) s.records
  unfolding next_cycle_number all_records
  next_cycle_number-above s =
      All-sorted (λ r. leb (r.cycle_number + 1) (next_cycle_number yaml s) ≡ true) s.records
        (below_number_after (sorted s.records) (sorted-IsSorted s.records))

  all_records-record_cycle :
      (r : DistillationCycleRecord) (s : DistillationMetricsStore yaml)
      → r.cycle_number ≡ next_cycle_number yaml s
      → all_records yaml (record_cycle yaml r s) ≡ all_records yaml s ++ r ∷ []
  unfolding all_records record_cycle save_cycles
  all_records-record_cycle r s e = sorted-append s.records r (
      All-map (λ q. leb (q.cycle_number + 1) (next_cycle_number yaml s) ≡ true)
        (λ q. leb q.cycle_number r.cycle_number ≡ true) s.records (λ q i. ground arith)
        (next_cycle_number-above s))

  load_recent-record_cycle :
      (r : DistillationCycleRecord) (s : DistillationMetricsStore yaml) (n : ℕ)
      → all_records yaml (record_cycle yaml r s) ≡ all_records yaml s ++ r ∷ []
      → load_recent yaml (suc (suc n)) (record_cycle yaml r s)
        ≡ load_recent yaml (suc n) s ++ r ∷ []
  unfolding load_recent
  load_recent-record_cycle r s n e =
      let all = all_records yaml s in
      let m = length all - suc n in
      let f : length (all ++ r ∷ []) - suc (suc n) ≡ m =
        let l = length-append all (r ∷ []) in omega arith in
      ap (λ l. last_of (suc (suc n)) l) e
      ∙ ap (λ k. drop k (all ++ r ∷ [])) f
      ∙ drop-snoc m all r (ground arith)

  -- A cycle recorded with the next number: its number is above that of every record before; the
  -- records in ascending order are those before, then it; the most recent ones are one fewer of
  -- those before, then it; and the file reads back.
  pub record_cycle_lem :
      (r : DistillationCycleRecord) (s : DistillationMetricsStore yaml)
      → r.cycle_number ≡ next_cycle_number yaml s
      → let after = record_cycle yaml r s in
        All (λ q. leb (q.cycle_number + 1) r.cycle_number ≡ true) s.records
        × IsSorted (all_records yaml after)
        × (all_records yaml after ≡ all_records yaml s ++ r ∷ [])
        × ((n : ℕ) → load_recent yaml (suc (suc n)) after ≡ load_recent yaml (suc n) s ++ r ∷ [])
        × (load_cycles yaml after.file ≡ return after.records)
  unfolding load_cycles record_cycle save_cycles all_records
  record_cycle_lem r s e =
      let last = all_records-record_cycle r s e in
      (
        subst (λ k. All (λ q. leb (q.cycle_number + 1) k ≡ true) s.records) (sym e)
            (next_cycle_number-above s),
        sorted-IsSorted (s.records ++ r ∷ []),
        last,
        (λ n. load_recent-record_cycle r s n last),
        ap (restore_cycles yaml)
            (yaml.parse-dump (s.records ++ r ∷ []) (All-plain (s.records ++ r ∷ []))),
      )
