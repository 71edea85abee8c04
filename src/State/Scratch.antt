-- ===== src/State/Scratch.antt =====
-- src/kai_daemon/state/scratch.py: the notes that workflows leave for each other.
pub mod Follows
pub mod Calls
pub mod Reload
pub mod Expiry
pub mod Tests
use kai_daemon.Base.{
  ℕ, ◌+◌, String, Bool, true, false, not, ◌&&◌, ◌||◌, Option, none, some, List, [], ◌∷◌, ◌++◌, ◌≡◌,
  ◌==◌, map, filter, ltb, if◌then◌else◌, All,
}
use kai_daemon.Base.Dict
use kai_daemon.Base.Dict.{Dict, from_rows}
use kai_daemon.Base.Outcome.{
  Outcome, return, raise, value_error, key_error, type_error, yaml_error, Method, pure, throw,
  ◌>>=◌,
}
use kai_daemon.Base.Time.{Stamp}
use kai_daemon.State.Types.{EpistemicOrigin}
use kai_daemon.State.Table.{Table, Parsed, rows, corrupt, invalid}

pub data ScratchType : Type 0 where
  signal observation insight flag candidate : ScratchType

pub data Lifecycle : Type 0 where
  active archived : Lifecycle

-- The text of a `ttl`, seen as what `datetime.fromisoformat` makes of it: an instant in UTC, one at
-- another offset, one without an offset, or a `ValueError`.
pub data Ttl : Type 0 where
  utc elsewhere naive : ℕ → Ttl
  malformed : String → Ttl

pub record ScratchNote : Type 0 where
  pub id : String
  pub workflow_id : String
  pub session_id : String
  pub timestamp : Stamp
  pub content : String
  pub type : ScratchType
  pub target_workflow : Option String
  pub ttl : Option Ttl
  pub acknowledged_by : List String
  pub lifecycle : Lifecycle
  pub epistemic_origin : EpistemicOrigin
  pub thread_ids : List String

-- `_validate_ttl`: whether it returns its argument
unfoldable pub validate_ttl : Option Ttl → Bool
validate_ttl none = true
validate_ttl (some (utc t)) = true
validate_ttl (some (elsewhere t)) = false
validate_ttl (some (naive t)) = false
validate_ttl (some (malformed text)) = false

-- The constructor of a note runs the validator.
unfoldable pub new_note : ScratchNote → Outcome ScratchNote
unfolding validate_ttl
new_note note = if validate_ttl note.ttl then return note else raise value_error

-- PyYAML and pydantic on the notes. `model_validate` runs the validator on every row, so that a
-- document reads back where each of its notes has a `ttl` that the validator takes.
pub record NoteYaml : Type 1 where
  pub Document : Type 0
  pub dump : List ScratchNote → Document
  pub parse : Document → Parsed ScratchNote
  pub parse-dump :
      (notes : List ScratchNote)
      → All (λ n. validate_ttl n.ttl ≡ true) notes
      → parse (dump notes) ≡ rows notes

abbrev pub is_archived : ScratchNote → Bool
is_archived note = elim note.lifecycle [ active ↦ false | archived ↦ true ]

-- `workflow_id in note.acknowledged_by`
unfoldable pub contains : String → List String → Bool
contains x [] = false
contains x (y ∷ ys) = (y == x) || contains x ys

-- A keyword argument of `update_content`: a field of the note with its value, or the name of
-- another keyword.
pub data Update : Type 0 where
  sets_content : String → Update
  sets_type : ScratchType → Update
  sets_target_workflow : Option String → Update
  sets_ttl : Option Ttl → Update
  sets_thread_ids : List String → Update
  sets_id sets_workflow_id sets_session_id : String → Update
  sets_timestamp : Stamp → Update
  sets_epistemic_origin : EpistemicOrigin → Update
  sets_lifecycle : Lifecycle → Update
  sets_acknowledged_by : List String → Update
  sets_other : String → Update

-- `_IMMUTABLE_FIELDS`
abbrev pub immutable_fields : List String
immutable_fields =
    "id" ∷ "workflow_id" ∷ "session_id" ∷ "timestamp" ∷ "epistemic_origin" ∷ "lifecycle"
    ∷ "acknowledged_by" ∷ []

-- the keyword
abbrev pub key_of : Update → String
key_of (sets_content _) = "content"
key_of (sets_type _) = "type"
key_of (sets_target_workflow _) = "target_workflow"
key_of (sets_ttl _) = "ttl"
key_of (sets_thread_ids _) = "thread_ids"
key_of (sets_id _) = "id"
key_of (sets_workflow_id _) = "workflow_id"
key_of (sets_session_id _) = "session_id"
key_of (sets_timestamp _) = "timestamp"
key_of (sets_epistemic_origin _) = "epistemic_origin"
key_of (sets_lifecycle _) = "lifecycle"
key_of (sets_acknowledged_by _) = "acknowledged_by"
key_of (sets_other key) = key

unfoldable pub is_immutable : Update → Bool
unfolding contains
is_immutable u = contains (key_of u) immutable_fields

-- `model_copy(update=...)`, which validates nothing; a keyword that is no field changes no field.
unfoldable pub with_update : ScratchNote → Update → ScratchNote
with_update note (sets_content v) = record note { content = v }
with_update note (sets_type v) = record note { type = v }
with_update note (sets_target_workflow v) = record note { target_workflow = v }
with_update note (sets_ttl v) = record note { ttl = v }
with_update note (sets_thread_ids v) = record note { thread_ids = v }
with_update note (sets_id v) = record note { id = v }
with_update note (sets_workflow_id v) = record note { workflow_id = v }
with_update note (sets_session_id v) = record note { session_id = v }
with_update note (sets_timestamp v) = record note { timestamp = v }
with_update note (sets_epistemic_origin v) = record note { epistemic_origin = v }
with_update note (sets_lifecycle v) = record note { lifecycle = v }
with_update note (sets_acknowledged_by v) = record note { acknowledged_by = v }
with_update note (sets_other key) = note

unfoldable pub with_updates : ScratchNote → List Update → ScratchNote
unfolding with_update
with_updates note [] = note
with_updates note (u ∷ us) = with_updates (with_update note u) us

-- the loop of `update_content` over its keywords
unfoldable pub any_immutable : List Update → Bool
unfolding is_immutable
any_immutable [] = false
any_immutable (u ∷ us) = is_immutable u || any_immutable us

-- the test of `expire_ttl`, which compares with an instant that has an offset
unfoldable pub is_expired : ℕ → ScratchNote → Outcome Bool
is_expired now note = elim note.ttl [
  | none ↦ return false
  | some ttl ↦ if is_archived note then return false else elim ttl [
    | utc t ↦ return (ltb t now)
    | elsewhere t ↦ return (ltb t now)
    | naive _ ↦ raise type_error
    | malformed _ ↦ raise value_error
  ]
]

module _ (yaml : NoteYaml) where
  abbrev pub ScratchStore : Type 0
  ScratchStore = Table ScratchNote yaml.Document

  -- `self._notes[k] = note; self._save()`
  unfoldable pub save_note : String → ScratchNote → ScratchStore → ScratchStore
  save_note k note s =
      let notes = Dict.put s.items k note in
      record { items = notes; file = some (yaml.dump (Dict.values notes)) }

  abbrev pub restore_notes : Parsed ScratchNote → Outcome (Dict ScratchNote)
  restore_notes (rows notes) = return (from_rows (λ n. n.id) [] notes)
  restore_notes corrupt = raise yaml_error
  restore_notes invalid = raise value_error

  unfoldable pub load_notes : Option yaml.Document → Outcome (Dict ScratchNote)
  load_notes none = return []
  load_notes (some d) = restore_notes (yaml.parse d)

  unfoldable pub write : ScratchNote → Method ScratchStore ScratchNote
  unfolding save_note
  write note s =
      if Dict.has s.items note.id
      then (raise value_error, s)
      else (return note, save_note note.id note s)

  unfoldable pub read : String → Method ScratchStore ScratchNote
  read note_id s = elim (Dict.get s.items note_id) [
    | none ↦ (raise key_error, s)
    | some note ↦ (return note, s)
  ]

  -- `self._notes[note_id] = updated; self._save(); return updated`
  abbrev pub replace : String → ScratchNote → Method ScratchStore ScratchNote
  replace note_id updated s = (return updated, save_note note_id updated s)

  unfoldable pub archive : String → Method ScratchStore ScratchNote
  unfolding read save_note
  archive note_id = do
    note ← read note_id
    if is_archived note
        then throw value_error
        else replace note_id (record note { lifecycle = archived })

  unfoldable pub unarchive : String → Method ScratchStore Unit
  unarchive note_id = throw value_error

  unfoldable pub acknowledge : String → String → Method ScratchStore ScratchNote
  unfolding read contains save_note
  acknowledge note_id workflow_id = do
    note ← read note_id
    if contains workflow_id note.acknowledged_by
        then pure note
        else replace note_id
            (record note { acknowledged_by = note.acknowledged_by ++ workflow_id ∷ [] })

  unfoldable pub update_content : String → List Update → Method ScratchStore ScratchNote
  unfolding read any_immutable with_updates save_note
  update_content note_id us s =
      if any_immutable us
      then (raise value_error, s)
      else (do note ← read note_id; replace note_id (with_updates note us)) s

  unfoldable pub list_active : ScratchStore → List ScratchNote
  list_active s = filter (λ n. not (is_archived n)) (Dict.values s.items)

  unfoldable pub list_by_session : String → ScratchStore → List ScratchNote
  list_by_session session_id s = filter (λ n. n.session_id == session_id) (Dict.values s.items)

  unfoldable pub list_by_workflow : String → ScratchStore → List ScratchNote
  list_by_workflow workflow_id s = filter (λ n. n.workflow_id == workflow_id) (Dict.values s.items)

  -- the body of the loop of `expire_ttl`, with the count so far
  unfoldable pub expire_note : ℕ → ScratchNote → ℕ → Method ScratchStore ℕ
  unfolding is_expired archive
  expire_note now note count s = elim (is_expired now note) [
    | raise e ↦ (raise e, s)
    | return due ↦ if due then (archive note.id >>= λ _. pure (count + 1)) s else (return count, s)
  ]

  unfoldable pub expire_notes : ℕ → List ScratchNote → ℕ → Method ScratchStore ℕ
  unfolding expire_note
  expire_notes now [] count = pure count
  expire_notes now (note ∷ notes) count = do
    counted ← expire_note now note count
    expire_notes now notes counted

  unfoldable pub expire_ttl : ℕ → Method ScratchStore ℕ
  unfolding expire_notes
  expire_ttl now s = expire_notes now (Dict.values s.items) 0 s
