-- ===== src/State/Threads/Model.antt =====
-- src/kai_daemon/state/threads.py: threads and pickup notes, what a thread becomes under each
-- operation, and the services that the store is built on.
use kai_daemon.Base.{
  ◌≡◌, String, ℕ, Bool, true, false, Option, none, some, List, [], ◌∷◌, ◌++◌, All, if◌then◌else◌,
}
use kai_daemon.Base.Outcome.{Outcome, return, raise, value_error}
use kai_daemon.Base.Time.{Stamp}

pub data ThreadStatus : Type 0 where
  nascent active dormant archived : ThreadStatus

pub data EpistemicStatus : Type 0 where
  live accepted rejected suspended uncertain : EpistemicStatus

-- `new_status in _VALID_TRANSITIONS[status]`
unfoldable pub valid_transition : ThreadStatus → ThreadStatus → Bool
valid_transition nascent active = true
valid_transition active dormant = true
valid_transition dormant active = true
valid_transition dormant archived = true
valid_transition _ _ = false

pub record Stance : Type 0 where
  pub position : String
  pub epistemic_status : EpistemicStatus

pub record DaemonPerspective : Type 0 where
  pub content : String
  pub from_fascination : String
  pub written_at : Stamp
  pub thread_status_at_writing : ThreadStatus
  pub surfaced : Bool

abbrev pub may_write : ThreadStatus → Bool
may_write active = true
may_write dormant = true
may_write _ = false

-- The constructor runs `_validate_writing_status`.
unfoldable pub new_perspective : DaemonPerspective → Outcome DaemonPerspective
new_perspective p = if may_write p.thread_status_at_writing then return p else raise value_error

pub record HandoffNote : Type 0 where
  pub content : String
  pub written_at : Stamp

pub record Thread : Type 0 where
  pub id : String
  pub title : String
  pub central_question : String
  pub status : ThreadStatus
  pub created : Stamp
  pub last_touched : Stamp
  pub dormant_since : Option Stamp
  pub current_state : String
  pub unresolved : String
  pub key_tension : Option String
  pub stance : Stance
  pub daemon_is_watching : Option String
  pub daemon_perspectives : List DaemonPerspective
  pub handoff_notes : List HandoffNote

pub record PickupNote : Type 0 where
  pub thread_id : String
  pub content : String
  pub written_at : Stamp
  pub dormant_since : Stamp
  pub time_gap_quality : Option String

-- What the validation of a thread asks beyond the types of its fields.
abbrev pub IsValid : Thread → Type 0
IsValid t = All (λ p. may_write p.thread_status_at_writing ≡ true) t.daemon_perspectives

-- `dormant_since` after a transition, `now` being a later `_utcnow()`
abbrev pub dormancy : ThreadStatus → ThreadStatus → Stamp → Option Stamp → Option Stamp
dormancy old dormant now since = some now
dormancy dormant active now since = none
dormancy _ _ now since = since

-- the `model_copy` of `transition`
unfoldable pub moved : ThreadStatus → Stamp → Stamp → Thread → Thread
moved new_status touched now t = record t {
  status = new_status;
  last_touched = touched;
  dormant_since = dormancy t.status new_status now t.dormant_since;
}

unfoldable pub with_perspective : DaemonPerspective → Stamp → Thread → Thread
with_perspective p now t = record t {
  daemon_perspectives = t.daemon_perspectives ++ p ∷ [];
  last_touched = now;
}

unfoldable pub with_note : HandoffNote → Stamp → Thread → Thread
with_note n now t = record t { handoff_notes = t.handoff_notes ++ n ∷ []; last_touched = now }

-- PyYAML and pydantic: a file is what `yaml.dump` of a model gives, and reading it parses and
-- validates.
pub record Files (A : Type 0) (IsOk : A → Type 0) : Type 1 where
  pub Document : Type 0
  pub dump : A → Document
  pub parse : Document → Outcome A
  pub parse-dump : (a : A) → IsOk a → parse (dump a) ≡ return a
  pub parse-valid : (d : Document) (a : A) → parse d ≡ return a → IsOk a

-- The ids under which ChromaDB keeps documents: `{thread_id}`, and `{thread_id}:{index}`.
pub data DocumentId : Type 0 where
  question_of : String → DocumentId
  note_of : String → ℕ → DocumentId

pub data Metadata : Type 0 where
  question_metadata : String → String → Metadata
  note_metadata : String → Stamp → Metadata

-- ChromaDB: `upsert` of an id, a document and its metadata; `none` where it raises.
pub record Chroma : Type 1 where
  pub Collection : Type 0
  pub upsert : DocumentId → String → Metadata → Collection → Option Collection

pub record Services : Type 1 where
  pub threads : Files Thread IsValid
  pub notes : Files PickupNote (λ _. Unit)
  pub chroma : Chroma
