-- ===== src/State/Discharge/Selection.antt =====
-- That the selection is the best: the first of greatest score among the items that pass.
use kai_daemon.Base.{
  filter, All-filter_when, ◌≡◌, refl, ap, ◌∙◌, String, Bool, true, false, ◌&&◌, arith, Option, none,
  some, List, [], ◌∷◌, ◌++◌, All, Bool-cases, inl, inr, ◌⊎◌,
}
use kai_daemon.Base.Dict.{Dict}
use kai_daemon.State.Holding.{HoldingItem}
use kai_daemon.State.Floats.{Floats}
use kai_daemon.State.Discharge.{
  Best, score_of, passes, consider, consider_all, select_discharge_candidate,
}

module _ (floats : Floats) (register : String) (scores : Dict floats.Float)
    (threshold : floats.Float) where
  -- Every item's score is a number.
  abbrev pub AreNumbers : List HoldingItem → Type 0
  AreNumbers = All (λ i. floats.is_number (score_of floats register scores threshold i) ≡ true)

  abbrev passing : HoldingItem → Bool
  passing = passes floats register scores threshold

  abbrev score : HoldingItem → floats.Float
  score = score_of floats register scores threshold

  -- Those that pass score less than `item`.
  abbrev AreBelow : HoldingItem → List HoldingItem → Type 0
  AreBelow item = All (λ i. passing i ≡ true → floats.gt (score item) (score i) ≡ true)

  -- Those that pass do not score more than `item`.
  abbrev AreNotAbove : HoldingItem → List HoldingItem → Type 0
  AreNotAbove item = All (λ i. passing i ≡ true → floats.gt (score i) (score item) ≡ false)

  -- `item` is in the list and passes; those before it score less, those after it not more.
  record Leads (items : List HoldingItem) (item : HoldingItem) : Type 0 where
    pub before : List HoldingItem
    pub behind : List HoldingItem
    pub splits : items ≡ before ++ item ∷ behind
    pub passed : passing item ≡ true
    pub below : AreBelow item before
    pub not_above : AreNotAbove item behind

  Leads-cons :
      (i j : HoldingItem) (items : List HoldingItem)
      → Leads items j
      → (passing i ≡ true → floats.gt (score j) (score i) ≡ true)
      → Leads (i ∷ items) j
  Leads-cons i j items b low = record {
    before = i ∷ b.before;
    behind = b.behind;
    splits = ap (λ l. i ∷ l) b.splits;
    passed = b.passed;
    below = (low, b.below);
    not_above = b.not_above;
  }

  abbrev holds : HoldingItem → Best floats
  holds item = record { item = some item; score = score item }

  taken :
      (i : HoldingItem) (b : Best floats)
      → (passing i && floats.gt (score i) b.score) ≡ true
      → consider floats register scores threshold i b ≡ holds i
  unfolding consider
  taken i b h = simp h

  skipped :
      (i : HoldingItem) (b : Best floats)
      → (passing i && floats.gt (score i) b.score) ≡ false
      → consider floats register scores threshold i b ≡ b
  unfolding consider
  skipped i b h = simp h

  abbrev result : List HoldingItem → Best floats → Option HoldingItem
  result items b = (consider_all floats register scores threshold items b).item

  -- The loop with a best item so far: it stays, or the result is the best of the others, above it.
  scan :
      (best : HoldingItem) (items : List HoldingItem)
      → AreNumbers items
      → ((result items (holds best) ≡ some best) × AreNotAbove best items)
        ⊎ ((item : HoldingItem) × (result items (holds best) ≡ some item)
            × Leads items item
            × (floats.gt (score item) (score best) ≡ true))
  unfolding consider_all consider
  scan best [] h = inl (refl, tt)
  scan best (i ∷ items) h = elim (Bool-cases (passing i && floats.gt (score i) (score best))) [
    | inl better ↦ elim (scan i items h.1) [
      | inl (e, rest) ↦ inr (
        i,
        ap (result items) (taken i (holds best) better) ∙ e,
        record {
          before = [];
          behind = items;
          splits = refl;
          passed = ground arith;
          below = tt;
          not_above = rest;
        },
        ground arith,
      )
      | inr (j, e, b, above) ↦ inr (
        j,
        ap (result items) (taken i (holds best) better) ∙ e,
        Leads-cons i j items b (λ _. above),
        floats.gt_trans (score j) (score i) (score best) above (ground arith),
      )
    ]
    | inr worse ↦ elim (scan best items h.1) [
      | inl (e, rest) ↦
          inl (ap (result items) (skipped i (holds best) worse) ∙ e, (λ p. ground arith, rest))
      | inr (j, e, b, above) ↦ inr (
        j,
        ap (result items) (skipped i (holds best) worse) ∙ e,
        Leads-cons i j items b (λ p.
            elim (floats.gt_split (score j) (score best) (score i) h.0 above) [
              | inl higher ↦ ground arith
              | inr lower ↦ lower
            ]),
        above,
      )
    ]
  ]

  passes-gt :
      (i : HoldingItem)
      → floats.is_number (score i) ≡ true
      → floats.is_number threshold ≡ true
      → passing i ≡ true
      → floats.gt (score i) floats.minus_infinity ≡ true
  unfolding passes
  passes-gt i number limit p =
      floats.gt_lowest (score i) threshold
        (ground (arith, floats.le-gt (score i) threshold number limit))

  abbrev nothing : Best floats
  nothing = record { item = none; score = floats.minus_infinity }

  first :
      (items : List HoldingItem)
      → AreNumbers items
      → floats.is_number threshold ≡ true
      → ((result items nothing ≡ none) × All (λ i. passing i ≡ false) items)
        ⊎ ((item : HoldingItem) × (result items nothing ≡ some item) × Leads items item)
  unfolding consider_all
  first [] h limit = inl (refl, tt)
  first (i ∷ items) h limit = elim (Bool-cases (passing i)) [
    | inr out ↦
        let skip = ap (result items) (skipped i nothing (ground arith)) in
        elim (first items h.1 limit) [
          | inl (e, rest) ↦ inl (skip ∙ e, (out, rest))
          | inr (j, e, b) ↦ inr (j, skip ∙ e, Leads-cons i j items b (λ p. ground arith))
        ]
    | inl ok ↦
        let take = ap (result items) (taken i nothing (ground (arith, passes-gt i h.0 limit ok))) in
        elim (scan i items h.1) [
          | inl (e, rest) ↦ inr (
            i,
            take ∙ e,
            record {
              before = [];
              behind = items;
              splits = refl;
              passed = ok;
              below = tt;
              not_above = rest;
            },
          )
          | inr (j, e, b, above) ↦ inr (j, take ∙ e, Leads-cons i j items b (λ p. above))
        ]
  ]

  -- `item` is in the list and passes; of the others that pass, those before it score less, and
  -- those after it not more.
  pub record IsBest (items : List HoldingItem) (item : HoldingItem) : Type 0 where
    pub before : List HoldingItem
    pub behind : List HoldingItem
    pub splits : items ≡ before ++ item ∷ behind
    pub passed : passes floats register scores threshold item ≡ true
    pub below :
        All
          (λ i. floats.gt (score item) (score i) ≡ true)
          (filter (passes floats register scores threshold) before)
    pub not_above :
        All
          (λ i. floats.gt (score i) (score item) ≡ false)
          (filter (passes floats register scores threshold) behind)

  -- The selection, where the threshold and all scores are numbers: either nothing is selected and
  -- no item passes the gates, or one item is, which passes them, scores more than every item before
  -- it that passes, and not less than every one after it.
  pub select-IsBest :
      (items : List HoldingItem)
      → AreNumbers items
      → floats.is_number threshold ≡ true
      → ((select_discharge_candidate floats register scores threshold items ≡ none)
          × All (λ i. passes floats register scores threshold i ≡ false) items)
        ⊎ ((item : HoldingItem) × (select_discharge_candidate floats register scores threshold items
              ≡ some item)
            × IsBest items item)
  unfolding select_discharge_candidate
  select-IsBest items h limit = elim (first items h limit) [
    | inl none_passes ↦ inl none_passes
    | inr (item, e, b) ↦ inr (
      item,
      e,
      record {
        before = b.before;
        behind = b.behind;
        splits = b.splits;
        passed = b.passed;
        below =
            All-filter_when passing (λ i. floats.gt (score item) (score i) ≡ true) b.before b.below;
        not_above =
            All-filter_when passing (λ i. floats.gt (score i) (score item) ≡ false) b.behind
              b.not_above;
      },
    )
  ]
