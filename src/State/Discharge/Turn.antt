-- ===== src/State/Discharge/Turn.antt =====
-- A turn: an item is selected from the holding store, and discharged there.
use kai_daemon.Base.{
  ◌≡◌, ap, ◌∙◌, sym, String, true, false, ◌&&◌, arith, Option, some, List, [], ◌∷◌, In, All-In,
  is_some, Bool-cases, inl, inr, ◌⊎◌,
}
use kai_daemon.Base.Dict
use kai_daemon.Base.Dict.{Dict, values-get}
use kai_daemon.Base.Outcome.{return}
use kai_daemon.Base.Time.{Stamp}
use kai_daemon.State.Holding.{
  HoldingYaml, HoldingItem, HoldingStore, id_of, read, discharge, mark_surfaced,
}
use kai_daemon.State.Holding.Lifecycle.{Call, discharges, call, run, discharge_final}
use kai_daemon.State.Holding.Reload.{IsSound, run-IsSound}
use kai_daemon.State.Floats.{Floats}
use kai_daemon.State.Discharge.{
  Best, score_of, passes, consider, consider_all, select_discharge_candidate,
}

module _ (floats : Floats) (register : String) (scores : Dict floats.Float)
    (threshold : floats.Float) where
  -- What the loop returns was there before, or is an item of the list that passes.
  loop-passes :
      (items : List HoldingItem) (b : Best floats) (i : HoldingItem)
      → (consider_all floats register scores threshold items b).item ≡ some i
      → (b.item ≡ some i) ⊎ (In i items × (passes floats register scores threshold i ≡ true))
  unfolding consider_all consider
  loop-passes [] b i h = inl h
  loop-passes (j ∷ items) b i h =
      elim (loop-passes items (consider floats register scores threshold j b) i h) [
        | inr (there, ok) ↦ inr (inr there, ok)
        | inl e ↦
            elim (Bool-cases (
              passes floats register scores threshold j
              && floats.gt (score_of floats register scores threshold j) b.score)) [
                | inl took ↦
                    let same : j ≡ i = ground arith in inr (inl (ground arith), ground arith)
                | inr left ↦ inl (ground arith)
              ]
      ]

  selected-passes :
      (items : List HoldingItem) (i : HoldingItem)
      → select_discharge_candidate floats register scores threshold items ≡ some i
      → In i items × (passes floats register scores threshold i ≡ true)
  unfolding select_discharge_candidate
  selected-passes items i h = elim (loop-passes items _ i h) [ inl e ↦ cc | inr r ↦ r ]

  passes-surfaced :
      (i : HoldingItem)
      → passes floats register scores threshold i ≡ true
      → is_some i.surfaced ≡ false
  unfolding passes
  passes-surfaced i h = ground arith

  selected-get :
      (yaml : HoldingYaml) (s : HoldingStore yaml) (i : HoldingItem)
      → IsSound yaml s
      → select_discharge_candidate floats register scores threshold (Dict.values s.items) ≡ some i
      → (Dict.get s.items i.id ≡ some i) × (is_some i.surfaced ≡ false)
  selected-get yaml s i h e =
      let (there, ok) = selected-passes (Dict.values s.items) i e in
      (
        All-In (λ v. Dict.get s.items v.id ≡ some v) i (Dict.values s.items)
            (values-get id_of s.items h.stored.keyed h.stored.distinct) there,
        passes-surfaced i ok,
      )

module _ (floats : Floats) (yaml : HoldingYaml) where
  -- The discharge of an item that was selected from a sound store succeeds, with the time and the
  -- notes that are given; and after any further writes and discharges no turn, whatever its
  -- register, scores and threshold, selects an item with that id.
  pub selected_once :
      (register register' : String) (scores scores' : Dict floats.Float)
      (threshold threshold' : floats.Float) (s : HoldingStore yaml) (item other : HoldingItem)
      (now : Stamp) (notes : Option String) (cs : List Call)
      → IsSound yaml s
      → select_discharge_candidate floats register scores threshold (Dict.values s.items)
        ≡ some item
      → ((discharge yaml now item.id notes s).0 ≡ return (mark_surfaced yaml now notes item))
        × ¬ (
            (select_discharge_candidate floats register' scores' threshold'
                (Dict.values (run yaml (discharge yaml now item.id notes s).1 cs).items)
              ≡ some other)
            × (other.id ≡ item.id))
  unfolding discharge read run call
  selected_once register register' scores scores' threshold threshold' s item other now notes cs h
        e =
      let (found, waits) = selected-get floats register scores threshold yaml s item h e in
      let done : (discharge yaml now item.id notes s).0
          ≡ return (mark_surfaced yaml now notes item) =
        ground arith in
      let s' = run yaml (discharge yaml now item.id notes s).1 cs in
      let (stamped, still, again) =
        discharge_final yaml now now item.id notes notes s cs (mark_surfaced yaml now notes item)
          done in
      (
        done,
        λ (chosen, same).
            let (there, waits') =
              selected-get floats register' scores' threshold' yaml s' other
                (run-IsSound yaml s (discharges now item.id notes ∷ cs) h) chosen in
            let there' : Dict.get s'.items item.id ≡ some other =
              sym (ap (Dict.get s'.items) same) ∙ there in
            ground arith,
      )
