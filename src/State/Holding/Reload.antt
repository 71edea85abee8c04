-- ===== src/State/Holding/Reload.antt =====
-- The file of the holding store, and what every stored item has.
use kai_daemon.Base.{inl, inr, List, [], ◌∷◌, All}
use kai_daemon.Base.Dict
use kai_daemon.Base.Dict.{All-values-put, All-values-get, get-IsKeyed, put-IsKeyed}
use kai_daemon.State.Table.{IsStored, store, store-IsStored}
use kai_daemon.State.Holding.{
  IsSupported, HoldingYaml, HoldingItem, HoldingStore, id_of, mark_surfaced,
}
use kai_daemon.State.Holding.Lifecycle.{
  Call, writes, discharges, new_item-IsSupported, new_item_cases, missing, again, done,
  discharge_cases, write_lem, call, run,
}

module _ (yaml : HoldingYaml) where
  -- The file is in step with memory, and each reasoned disagreement names its contradiction.
  pub record IsSound (s : HoldingStore yaml) : Type 0 where
    pub stored : IsStored yaml id_of s
    pub supported : All IsSupported (Dict.values s.items)

  store-IsSound :
      (v : HoldingItem) (s : HoldingStore yaml)
      → IsSound s
      → IsSupported v
      → IsSound (store yaml v.id v s)
  unfolding store
  store-IsSound v s h ok = record {
    stored =
        store-IsStored yaml id_of v s h.stored
          (All-values-put IsSupported s.items v.id v h.supported ok);
    supported = All-values-put IsSupported s.items v.id v h.supported ok;
  }

  call-IsSound : (c : Call) (s : HoldingStore yaml) → IsSound s → IsSound (call yaml c s).1
  unfolding call
  call-IsSound (writes item) s h = elim (new_item_cases item) [
    | inl refused ↦ rw refused h
    | inr made ↦ elim (write_lem yaml item s) [
      | inl (w, there, e) ↦ rw (made, e) h
      | inr (absent, e) ↦
          rw (made, e) (store-IsSound item s h (new_item-IsSupported item item made).1)
    ]
  ]
  call-IsSound (discharges now k notes) s h = elim (discharge_cases yaml now k notes s) [
    | missing absent e ↦ rw e h
    | again item there old e ↦ rw e h
    | done item there waits e ↦
        let named = get-IsKeyed id_of s.items k item h.stored.keyed there in
        rw (e, ← named)
          (store-IsSound (mark_surfaced yaml now notes item) s h
            (All-values-get IsSupported s.items k item h.supported there))
  ]

  -- A sound store stays sound through any writes and discharges, whether they succeed or raise: a
  -- process that starts again reads from the file the items that memory holds, in the same order,
  -- each id once, and every reasoned disagreement names its contradiction.
  pub run-IsSound : (s : HoldingStore yaml) (cs : List Call) → IsSound s → IsSound (run yaml s cs)
  unfolding run
  run-IsSound s [] h = h
  run-IsSound s (c ∷ cs) h = run-IsSound (call yaml c s).1 cs (call-IsSound c s h)
