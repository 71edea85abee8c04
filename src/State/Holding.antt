-- ===== src/State/Holding.antt =====
-- src/kai_daemon/state/holding.py: things that are not ready for conversation.
pub mod Lifecycle
pub mod Reload
pub mod Surface
use kai_daemon.Base.{
  ℕ, ◌≡◌, ◌⊎◌, ◌+◌, ◌*◌, String, Bool, true, false, ◌&&◌, Option, none, some, List, [], ◌∷◌, filter,
  is_none, is_some, leb, if◌then◌else◌,
}
use kai_daemon.Base.Dict
use kai_daemon.Base.Dict.{Dict}
use kai_daemon.Base.Outcome.{
  Outcome, return, raise, prepend, value_error, key_error, type_error, Method, ◌>>=◌,
}
use kai_daemon.Base.Time.{Stamp, aware, naive, malformed, day}
use kai_daemon.State.Types.{EpistemicOrigin}
use kai_daemon.State.Table.{Table, Yaml, store}

pub data HoldingType : Type 0 where
  observation connection challenge daemon_curiosity : HoldingType
  open_loop_follow_up reasoned_disagreement : HoldingType

pub data RegisterNeeded : Type 0 where
  exploratory reflective casual any : RegisterNeeded

pub data Urgency : Type 0 where
  low medium high : Urgency

-- `_FORCED_SURFACE_DAYS`
unfoldable pub forced_surface_days : Urgency → Option ℕ
forced_surface_days high = some 7
forced_surface_days medium = some 21
forced_surface_days low = none

pub record HoldingItem : Type 0 where
  pub id : String
  pub content : String
  pub type : HoldingType
  pub relevance_trigger : String
  pub register_needed : RegisterNeeded
  pub urgency : Urgency
  pub created : Stamp
  pub surfaced : Option Stamp
  pub discharge_notes : Option String
  pub source_workflow : String
  pub epistemic_origin : EpistemicOrigin
  pub thread_ids : List String
  pub contradiction_id : Option String

abbrev pub is_disagreement : HoldingType → Bool
is_disagreement reasoned_disagreement = true
is_disagreement _ = false

-- The constructor runs `_validate_reasoned_disagreement`.
unfoldable pub new_item : HoldingItem → Outcome HoldingItem
new_item item =
    if is_disagreement item.type && is_none item.contradiction_id
    then raise value_error
    else return item

-- What the validator asks of an item.
abbrev pub IsSupported : HoldingItem → Type 0
IsSupported item =
    (is_disagreement item.type ≡ false) ⊎ ((c : String) × (item.contradiction_id ≡ some c))

abbrev pub HoldingYaml : Type 1
HoldingYaml = Yaml HoldingItem IsSupported

abbrev pub id_of : HoldingItem → String
id_of item = item.id

module _ (yaml : HoldingYaml) where
  abbrev pub HoldingStore : Type 0
  HoldingStore = Table HoldingItem yaml.Document

  unfoldable pub write : HoldingItem → Method HoldingStore HoldingItem
  write item s =
      if Dict.has s.items item.id
      then (raise value_error, s)
      else (return item, store yaml item.id item s)

  unfoldable pub read : String → Method HoldingStore HoldingItem
  read item_id s = elim (Dict.get s.items item_id) [
    | none ↦ (raise key_error, s)
    | some item ↦ (return item, s)
  ]

  unfoldable pub list_unsurfaced : HoldingStore → List HoldingItem
  list_unsurfaced s = filter (λ i. is_none i.surfaced) (Dict.values s.items)

  -- the `model_copy` of `discharge`
  abbrev pub mark_surfaced : Stamp → Option String → HoldingItem → HoldingItem
  mark_surfaced now notes item = record item { surfaced = some now; discharge_notes = notes }

  -- `now` is the value of `_utcnow()`.
  unfoldable pub discharge : Stamp → String → Option String → Method HoldingStore HoldingItem
  unfolding read
  discharge now item_id notes = do
    item ← read item_id
    λ s. if is_some item.surfaced then (raise value_error, s) else (
      return (mark_surfaced now notes item),
      store yaml item_id (mark_surfaced now notes item) s,
    )

-- The body of the loop of `forced_surface`, before what the rest of the loop gives.
unfoldable pub surface_one :
    ℕ → HoldingItem → Outcome (List HoldingItem) → Outcome (List HoldingItem)
unfolding forced_surface_days
surface_one now item rest = elim (forced_surface_days item.urgency) [
  | none ↦ rest
  | some days ↦ elim item.created [
    | malformed _ ↦ raise value_error
    | naive _ ↦ raise type_error
    | aware t ↦ if leb (t + days * day) now then prepend item rest else rest
  ]
]

unfoldable pub surface_all : ℕ → List HoldingItem → Outcome (List HoldingItem)
unfolding surface_one
surface_all now [] = return []
surface_all now (item ∷ items) = surface_one now item (surface_all now items)

unfoldable pub forced_surface :
    (yaml : HoldingYaml) → ℕ → HoldingStore yaml → Outcome (List HoldingItem)
unfolding surface_all list_unsurfaced
forced_surface yaml now s = surface_all now (list_unsurfaced yaml s)
