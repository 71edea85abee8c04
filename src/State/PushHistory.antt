-- ===== src/State/PushHistory.antt =====
-- src/kai_daemon/state/push_history.py: the log of pushes and its ceiling. Days are counted in
-- microseconds from the same origin as all times.
use kai_daemon.Base.{ℕ, ◌+◌, ◌*◌, String, Bool, false, Option, none, some, List, [], ◌∷◌, ◌++◌, ltb}
use kai_daemon.Base.Outcome.{Outcome, return, raise, value_error}
use kai_daemon.Base.Time.{Stamp, aware, naive, malformed, day}
use kai_daemon.State.Table.{Parsed, rows, corrupt, invalid, PlainYaml}

-- `PUSH_CEILING_DAYS`
abbrev pub push_ceiling_days : ℕ
push_ceiling_days = 7

pub record PushRecord : Type 0 where
  pub id : String
  pub timestamp : Stamp
  pub content_summary : String

unfoldable pub last : List PushRecord → Option PushRecord
last [] = none
last (r ∷ rs) = elim (last rs) [ none ↦ some r | some s ↦ some s ]

module _ (yaml : PlainYaml PushRecord) where
  pub record PushHistory : Type 0 where
    pub records : List PushRecord
    pub file : Option yaml.Document

  -- a file that is no YAML warns, and counts as empty
  abbrev pub restore_records : Parsed PushRecord → Outcome (List PushRecord)
  restore_records (rows records) = return records
  restore_records corrupt = return []
  restore_records invalid = raise value_error

  unfoldable pub load_history : Option yaml.Document → Outcome (List PushRecord)
  load_history none = return []
  load_history (some d) = restore_records (yaml.parse d)

  unfoldable pub save_history : PushHistory → PushHistory
  save_history h = record h { file = some (yaml.dump h.records) }

  -- `id` and `timestamp` are the defaults of the new record's fields.
  unfoldable pub record_push : String → Stamp → String → PushHistory → PushHistory
  unfolding save_history
  record_push id timestamp content_summary h = save_history (record h {
    records =
        h.records
        ++ record { id = id; timestamp = timestamp; content_summary = content_summary } ∷ [];
  })

-- An instant with its offset, UTC where the text has none.
abbrev pub instant : Stamp → Outcome ℕ
instant (aware t) = return t
instant (naive t) = return t
instant (malformed _) = raise value_error

abbrev pub map_some : Outcome ℕ → Outcome (Option ℕ)
map_some (return t) = return (some t)
map_some (raise e) = raise e

unfoldable pub last_push_timestamp : List PushRecord → Outcome (Option ℕ)
unfolding last
last_push_timestamp records = elim (last records) [
  | none ↦ return none
  | some r ↦ map_some (instant r.timestamp)
]

-- `(now - last) < timedelta(days=days)`
unfoldable pub within_ceiling : ℕ → ℕ → List PushRecord → Outcome Bool
unfolding last_push_timestamp
within_ceiling days now records = elim (last_push_timestamp records) [
  | raise e ↦ raise e
  | return none ↦ return false
  | return (some t) ↦ return (ltb now (t + days * day))
]
