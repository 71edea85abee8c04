-- ===== src/State/Borderline.antt =====
-- src/kai_daemon/state/borderline.py: the pool of outputs that wait for review.
pub mod Final
pub mod Overdue
pub mod Decided
mod Tests
use kai_daemon.Base.{
  ℕ, ◌+◌, ◌*◌, String, Bool, true, false, not, Option, none, some, List, [], ◌∷◌, filter, nat_eq,
  leb, if◌then◌else◌,
}
use kai_daemon.Base.Dict
use kai_daemon.Base.Dict.{Dict, from_rows}
use kai_daemon.Base.Outcome.{
  Outcome, return, raise, value_error, key_error, type_error, Method, ◌>>=◌,
}
use kai_daemon.Base.Time.{Stamp, aware, naive, malformed, day}
use kai_daemon.State.Table.{Table, Parsed, rows, corrupt, invalid, save, store, PlainYaml}

-- `BORDERLINE_EXPIRY_DAYS`
abbrev pub borderline_expiry_days : ℕ
borderline_expiry_days = 30

pub data BorderlineStatus : Type 0 where
  pending promoted discarded : BorderlineStatus

pub record BorderlineItem : Type 0 where
  pub id : String
  pub raw_output : String
  pub created : Stamp
  pub status : BorderlineStatus
  pub promoted_at : Option Stamp
  pub discarded_at : Option Stamp

abbrev pub is_pending : BorderlineStatus → Bool
is_pending pending = true
is_pending _ = false

abbrev pub item_id_of : BorderlineItem → String
item_id_of item = item.id

abbrev pub restore_pool : Parsed BorderlineItem → Outcome (Dict BorderlineItem)
restore_pool (rows items) = return (from_rows item_id_of [] items)
restore_pool corrupt = return []
restore_pool invalid = raise value_error

-- the `model_copy` of `promote`
unfoldable pub promoted_copy : ℕ → BorderlineItem → BorderlineItem
promoted_copy now item = record item { status = promoted; promoted_at = some (aware now) }

-- the `model_copy` of `discard` and of `expire_old`
unfoldable pub discarded_copy : ℕ → BorderlineItem → BorderlineItem
discarded_copy now item = record item { status = discarded; discarded_at = some (aware now) }

-- `created_dt <= cutoff` in the loop of `expire_old`; a text that does not parse is skipped, and an
-- instant without an offset cannot be compared.
unfoldable pub is_due : ℕ → Stamp → Outcome Bool
is_due now (malformed text) = return false
is_due now (naive t) = raise type_error
is_due now (aware t) = return (leb (t + borderline_expiry_days * day) now)

-- The pool, and the count of the items that are expired so far.
pub record Expiry : Type 0 where
  pub items : Dict BorderlineItem
  pub expired : ℕ

-- One pass of the loop, before what the rest of the loop does.
abbrev pub expire_if : ℕ → BorderlineItem → Outcome Bool → Expiry → Outcome Expiry
expire_if now item (raise e) x = raise e
expire_if now item (return false) x = return x
expire_if now item (return true) x =
    return (record {
      items = Dict.put x.items item.id (discarded_copy now item);
      expired = x.expired + 1;
    })

unfoldable pub expire_one : ℕ → BorderlineItem → Expiry → Outcome Expiry
unfolding is_due discarded_copy
expire_one now item x =
    if is_pending item.status then expire_if now item (is_due now item.created) x else return x

-- What the loop leaves, and whether it was broken off by an exception.
abbrev pub and_then :
    Outcome Expiry → Expiry → (Expiry → Outcome Expiry × Expiry) → Outcome Expiry × Expiry
and_then (raise e) x k = (raise e, x)
and_then (return y) x k = k y

unfoldable pub expire_all : ℕ → List BorderlineItem → Expiry → Outcome Expiry × Expiry
unfolding expire_one
expire_all now [] x = (return x, x)
expire_all now (item ∷ items) x = and_then (expire_one now item x) x (λ y. expire_all now items y)

module _ (yaml : PlainYaml BorderlineItem) where
  abbrev pub BorderlinePool : Type 0
  BorderlinePool = Table BorderlineItem yaml.Document

  -- `_load`: a corrupt file gives an empty pool, with a warning.
  unfoldable pub load_pool : Option yaml.Document → Outcome (Dict BorderlineItem)
  load_pool none = return []
  load_pool (some d) = restore_pool (yaml.parse d)

  -- `item_id` is the new UUID, `created` the value of `_utcnow()`.
  unfoldable pub append : String → Stamp → String → Method BorderlinePool BorderlineItem
  append item_id created raw_output s =
      let item : BorderlineItem = record {
        id = item_id;
        raw_output = raw_output;
        created = created;
        status = pending;
        promoted_at = none;
        discarded_at = none;
      } in
      (return item, store yaml item_id item s)

  unfoldable pub get_item : String → Method BorderlinePool BorderlineItem
  get_item item_id s = elim (Dict.get s.items item_id) [
    | none ↦ (raise key_error, s)
    | some item ↦ (return item, s)
  ]

  unfoldable pub list_pending : BorderlinePool → List BorderlineItem
  list_pending s = filter (λ i. is_pending i.status) (Dict.values s.items)

  unfoldable pub promote : String → ℕ → Method BorderlinePool BorderlineItem
  unfolding get_item promoted_copy
  promote item_id now = do
    item ← get_item item_id
    λ s.
        if is_pending item.status
        then (return (promoted_copy now item), store yaml item_id (promoted_copy now item) s)
        else (raise value_error, s)

  unfoldable pub discard : String → ℕ → Method BorderlinePool BorderlineItem
  unfolding get_item discarded_copy
  discard item_id now = do
    item ← get_item item_id
    λ s.
        if is_pending item.status
        then (return (discarded_copy now item), store yaml item_id (discarded_copy now item) s)
        else (raise value_error, s)

  -- The end of `expire_old`: the pool is saved only here, and only if an item expired.
  abbrev pub expired_pool : BorderlinePool → Outcome Expiry × Expiry → Outcome ℕ × BorderlinePool
  expired_pool s (raise e, x) = (raise e, record s { items = x.items })
  expired_pool s (return y, x) =
      if nat_eq y.expired 0
      then (return 0, record s { items = y.items })
      else (return y.expired, save yaml (record s { items = y.items }))

  unfoldable pub expire_old : ℕ → Method BorderlinePool ℕ
  unfolding expire_all
  expire_old now s =
      expired_pool s
        (expire_all now (Dict.values s.items) (record { items = s.items; expired = 0 }))
