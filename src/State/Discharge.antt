-- ===== src/State/Discharge.antt =====
-- src/kai_daemon/state/discharge.py: which holding item is surfaced in a turn.
pub mod Selection
pub mod Turn
use kai_daemon.Base.{
  String, Bool, true, false, not, ◌&&◌, ◌||◌, ◌==◌, Option, none, some, List, [], ◌∷◌, is_some,
  or_else, if◌then◌else◌,
}
use kai_daemon.Base.Dict
use kai_daemon.Base.Dict.{Dict}
use kai_daemon.State.Holding.{
  HoldingItem, RegisterNeeded, exploratory, reflective, casual, any, is_disagreement,
}
use kai_daemon.State.Floats.{Floats}

-- `RegisterNeeded.value`
abbrev pub register_value : RegisterNeeded → String
register_value exploratory = "exploratory"
register_value reflective = "reflective"
register_value casual = "casual"
register_value any = "any"

abbrev pub is_any : RegisterNeeded → Bool
is_any any = true
is_any _ = false

unfoldable pub register_matches : RegisterNeeded → String → Bool
register_matches register_needed inferred_register =
    is_any register_needed || register_value register_needed == inferred_register

unfoldable pub is_contradiction : HoldingItem → Bool
is_contradiction item = is_disagreement item.type

module _ (floats : Floats) where
  -- The best item so far and its score.
  pub record Best : Type 0 where
    pub item : Option HoldingItem
    pub score : floats.Float

module _ (floats : Floats) (register : String) (scores : Dict floats.Float)
    (threshold : floats.Float) where
  -- `scores.get(item.id, 0.0)`
  abbrev pub score_of : HoldingItem → floats.Float
  score_of item = or_else (Dict.get scores item.id) floats.zero

  -- The gates: an item that fails one is skipped.
  unfoldable pub passes : HoldingItem → Bool
  unfolding is_contradiction register_matches
  passes item =
      if is_some item.surfaced
      then false
      else if (register == "urgent") && is_contradiction item
      then false
      else if floats.le (score_of item) threshold
      then false
      else register_matches item.register_needed register

  -- The body of the loop.
  unfoldable pub consider : HoldingItem → Best floats → Best floats
  unfolding passes
  consider item best =
      if passes item && floats.gt (score_of item) best.score
      then record { item = some item; score = score_of item }
      else best

  unfoldable pub consider_all : List HoldingItem → Best floats → Best floats
  unfolding consider
  consider_all [] best = best
  consider_all (item ∷ items) best = consider_all items (consider item best)

  unfoldable pub select_discharge_candidate : List HoldingItem → Option HoldingItem
  unfolding consider_all
  select_discharge_candidate items =
      (consider_all items (record { item = none; score = floats.minus_infinity })).item

pub record ContradictionRecord : Type 0 where
  pub id : String
  pub item_a_id : String
  pub item_b_id : String
  pub conflict_summary : String

-- What the memory server makes of a request.
pub data Answer : Type 0 where
  answers : Option ContradictionRecord → Answer
  unavailable : Answer

-- What is returned, and the ids that were asked for.
pub record Hydration : Type 0 where
  pub result : Option ContradictionRecord
  pub asked : List String

abbrev pub answered : Answer → Option ContradictionRecord
answered (answers r) = r
answered unavailable = none

unfoldable pub hydrate_contradiction : (String → Answer) → HoldingItem → Hydration
hydrate_contradiction client item = elim item.contradiction_id [
  | none ↦ record { result = none; asked = [] }
  | some k ↦ record { result = answered (client k); asked = k ∷ [] }
]
