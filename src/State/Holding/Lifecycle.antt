-- ===== src/State/Holding/Lifecycle.antt =====
-- What `write` and `discharge` of the holding store do, branch by branch, and that a discharge is
-- final.
use kai_daemon.Base.{
  String, ◌≡◌, ◌⊎◌, inl, inr, true, Option, none, some, List, [], ◌∷◌, arith, ◌==◌, eq_iff, eq_refl,
  is_some, if◌then◌else◌, Option-cases,
}
use kai_daemon.Base.Dict
use kai_daemon.Base.Dict.{get-put}
use kai_daemon.Base.Outcome.{return, raise, value_error, key_error, Method, continue}
use kai_daemon.Base.Time.{Stamp}
use kai_daemon.State.Table.{store}
use kai_daemon.State.Holding.{
  IsSupported, HoldingYaml, HoldingItem, HoldingStore, new_item, write, read, discharge,
  mark_surfaced,
}

-- The calls of a client: an item is constructed and then written, or discharged.
pub data Call : Type 0 where
  writes : HoldingItem → Call
  discharges : Stamp → String → Option String → Call

pub new_item-IsSupported :
    (item made : HoldingItem) → new_item item ≡ return made → (made ≡ item) × IsSupported item
unfolding new_item
new_item-IsSupported item made h = (ground arith, ground arith)

pub new_item_cases :
    (item : HoldingItem) → (new_item item ≡ raise value_error) ⊎ (new_item item ≡ return item)
unfolding new_item
new_item_cases item = ground arith

module _ (yaml : HoldingYaml) where
  unfoldable pub call : Call → Method (HoldingStore yaml) HoldingItem
  call (writes item) s = continue (new_item item) (write yaml) s
  call (discharges now item_id notes) s = discharge yaml now item_id notes s

  unfoldable pub run : HoldingStore yaml → List Call → HoldingStore yaml
  run s [] = s
  run s (c ∷ cs) = run (call c s).1 cs

  pub write_lem :
      (item : HoldingItem) (s : HoldingStore yaml)
      → ((v : HoldingItem) × (Dict.get s.items item.id ≡ some v)
          × (write yaml item s ≡ (raise value_error, s)))
        ⊎ ((Dict.get s.items item.id ≡ none)
            × (write yaml item s ≡ (return item, store yaml item.id item s)))
  unfolding write
  write_lem item s = elim (Option-cases (Dict.get s.items item.id)) [
    | inl absent ↦ inr (absent, rw absent)
    | inr (v, found) ↦ inl (v, found, rw found)
  ]

  -- What an absent key, a surfaced item and an item that waits each lead to.
  pub data DischargeCase (now : Stamp) (k : String) (notes : Option String) (s : HoldingStore yaml)
      : Type 0 where
    missing :
        Dict.get s.items k ≡ none
        → discharge yaml now k notes s ≡ (raise key_error, s)
        → DischargeCase now k notes s
    again :
        (item : HoldingItem)
        → Dict.get s.items k ≡ some item
        → is_some item.surfaced ≡ true
        → discharge yaml now k notes s ≡ (raise value_error, s)
        → DischargeCase now k notes s
    done :
        (item : HoldingItem)
        → Dict.get s.items k ≡ some item
        → item.surfaced ≡ none
        → discharge yaml now k notes s ≡ (
          return (mark_surfaced yaml now notes item),
          store yaml k (mark_surfaced yaml now notes item) s,
        )
        → DischargeCase now k notes s

  pub discharge_cases :
      (now : Stamp) (k : String) (notes : Option String) (s : HoldingStore yaml)
      → DischargeCase now k notes s
  unfolding discharge
  discharge_cases now k notes s = elim (Option-cases (Dict.get s.items k)) [
    | inl absent ↦ missing absent (ground arith)
    | inr (item, found) ↦ elim (Option-cases item.surfaced) [
      | inl waits ↦ done item found waits (ground arith)
      | inr (t, gone) ↦ again item found (ground arith) (ground arith)
    ]
  ]

  get-store :
      (s : HoldingStore yaml) (k j : String) (v : HoldingItem)
      → Dict.get (store yaml k v s).items j ≡ (if k == j then some v else Dict.get s.items j)
  unfolding store
  get-store s k j v = get-put s.items k j v

  -- A surfaced item is out of reach of every call.
  call-get_surfaced :
      (c : Call) (s : HoldingStore yaml) (k : String) (v : HoldingItem)
      → Dict.get s.items k ≡ some v
      → is_some v.surfaced ≡ true
      → Dict.get (call c s).1.items k ≡ some v
  unfolding call
  call-get_surfaced (writes item) s k v found gone = elim (new_item_cases item) [
    | inl refused ↦ rw refused found
    | inr made ↦ elim (write_lem item s) [
      | inl (w, there, e) ↦ rw (made, e) found
      | inr (absent, e) ↦
          rw (made, e) (ground (arith, get-store s item.id k item, eq_iff item.id k))
    ]
  ]
  call-get_surfaced (discharges now j notes) s k v found gone =
      elim (discharge_cases now j notes s) [
        | missing absent e ↦ rw e found
        | again item there old e ↦ rw e found
        | done item there waits e ↦
            rw e (ground (arith, get-store s j k (mark_surfaced yaml now notes item), eq_iff j k))
      ]

  run-get_surfaced :
      (s : HoldingStore yaml) (cs : List Call) (k : String) (v : HoldingItem)
      → Dict.get s.items k ≡ some v
      → is_some v.surfaced ≡ true
      → Dict.get (run s cs).items k ≡ some v
  unfolding run
  run-get_surfaced s [] k v found gone = found
  run-get_surfaced s (c ∷ cs) k v found gone =
      run-get_surfaced (call c s).1 cs k v (call-get_surfaced c s k v found gone) gone

  discharge-get :
      (now : Stamp) (k : String) (notes : Option String) (s : HoldingStore yaml)
      (item : HoldingItem)
      → (discharge yaml now k notes s).0 ≡ return item
      → (item.surfaced ≡ some now) × (Dict.get (discharge yaml now k notes s).1.items k ≡ some item)
  discharge-get now k notes s item h = elim (discharge_cases now k notes s) [
    | missing absent e ↦ cc e
    | again item' there old e ↦ cc e
    | done item' there waits e ↦
        ground (arith, e, get-store s k k (mark_surfaced yaml now notes item'), eq_refl k)
  ]

  discharge_surfaced :
      (now : Stamp) (k : String) (notes : Option String) (s : HoldingStore yaml) (v : HoldingItem)
      → Dict.get s.items k ≡ some v
      → is_some v.surfaced ≡ true
      → discharge yaml now k notes s ≡ (raise value_error, s)
  unfolding discharge
  discharge_surfaced now k notes s v found gone = ground arith

  -- An item is discharged at most once: after a discharge that succeeded, and any further writes
  -- and discharges, the store still holds the item as it was returned, with the time of that
  -- discharge, and another discharge of it raises a ValueError and changes nothing.
  pub discharge_final :
      (now later : Stamp) (k : String) (notes notes' : Option String) (s : HoldingStore yaml)
      (cs : List Call) (item : HoldingItem)
      → (discharge yaml now k notes s).0 ≡ return item
      → (item.surfaced ≡ some now)
        × (read yaml k (run (discharge yaml now k notes s).1 cs)
            ≡ (return item, run (discharge yaml now k notes s).1 cs))
        × (discharge yaml later k notes' (run (discharge yaml now k notes s).1 cs)
            ≡ (raise value_error, run (discharge yaml now k notes s).1 cs))
  unfolding read
  discharge_final now later k notes notes' s cs item h =
      let (stamped, found) = discharge-get now k notes s item h in
      let gone : is_some item.surfaced ≡ true = rw stamped in
      let still = run-get_surfaced (discharge yaml now k notes s).1 cs k item found gone in
      (stamped, rw (still, read), discharge_surfaced later k notes' _ item still gone)
