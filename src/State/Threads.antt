-- ===== src/State/Threads.antt =====
-- src/kai_daemon/state/threads.py: conversation threads, one file each, and their pickup notes.
pub mod Model
pub mod Calls
pub mod History
pub mod Effects
pub mod Transitions
pub mod Pickup
pub mod Tests
unfoldable pub use Model.*
use kai_daemon.Base.{
  ◌≡◌, String, ℕ, Bool, true, false, Option, none, some, List, [], ◌∷◌, ◌++◌, All, length, is_some,
  if◌then◌else◌,
}
use kai_daemon.Base.Dict
use kai_daemon.Base.Dict.{Dict}
use kai_daemon.Base.Outcome.{Outcome, return, raise, prepend, value_error, key_error, Method, ◌>>=◌}
use kai_daemon.Base.Time.{Stamp}

module _ (env : Services) where
  -- The two directories, and the two collections where there is a client.
  pub record ThreadStore : Type 0 where
    pub threads : Dict env.threads.Document
    pub pickup_notes : Dict env.notes.Document
    pub questions : Option env.chroma.Collection
    pub handoffs : Option env.chroma.Collection

module _ (env : Services) where
  unfoldable pub write_thread : Thread → ThreadStore env → ThreadStore env
  write_thread t s = record s { threads = Dict.put s.threads t.id (env.threads.dump t) }

  abbrev pub parse_thread : Option env.threads.Document → Outcome Thread
  parse_thread none = raise key_error
  parse_thread (some d) = env.threads.parse d

  unfoldable pub thread_at : Dict env.threads.Document → String → Outcome Thread
  thread_at d thread_id = parse_thread (Dict.get d thread_id)

  unfoldable pub read_thread : String → Method (ThreadStore env) Thread
  unfolding thread_at
  read_thread thread_id s = (thread_at s.threads thread_id, s)

  unfoldable pub write_pickup : PickupNote → ThreadStore env → ThreadStore env
  write_pickup n s = record s {
    pickup_notes = Dict.put s.pickup_notes n.thread_id (env.notes.dump n);
  }

  abbrev pub parse_note : Option env.notes.Document → Outcome PickupNote
  parse_note none = raise key_error
  parse_note (some d) = env.notes.parse d

  unfoldable pub note_at : Dict env.notes.Document → String → Outcome PickupNote
  note_at d thread_id = parse_note (Dict.get d thread_id)

  unfoldable pub read_pickup : String → Method (ThreadStore env) PickupNote
  unfolding note_at
  read_pickup thread_id s = (note_at s.pickup_notes thread_id, s)

  -- A collection after an upsert: a failure is logged, and no more.
  abbrev pub or_warn : env.chroma.Collection → Option env.chroma.Collection → env.chroma.Collection
  or_warn c none = c
  or_warn c (some c') = c'

  abbrev pub upsert_question : Thread → Option env.chroma.Collection → Option env.chroma.Collection
  upsert_question t none = none
  upsert_question t (some c) = some (
      or_warn c (
        env.chroma.upsert (question_of t.id) t.central_question (question_metadata t.id t.title) c))

  unfoldable pub embed_central_question : Thread → ThreadStore env → ThreadStore env
  embed_central_question t s = record s { questions = upsert_question t s.questions }

  abbrev pub upsert_note :
      String → HandoffNote → ℕ → Option env.chroma.Collection → Option env.chroma.Collection
  upsert_note thread_id n index none = none
  upsert_note thread_id n index (some c) = some (
      or_warn c (
        env.chroma.upsert (note_of thread_id index) n.content (note_metadata thread_id n.written_at)
          c))

  unfoldable pub embed_handoff_note : String → HandoffNote → ℕ → ThreadStore env → ThreadStore env
  embed_handoff_note thread_id n index s = record s {
    handoffs = upsert_note thread_id n index s.handoffs;
  }

  unfoldable pub create : Thread → Method (ThreadStore env) Thread
  unfolding write_thread embed_central_question
  create t s =
      if Dict.has s.threads t.id
      then (raise value_error, s)
      else (return t, embed_central_question t (write_thread t s))

  unfoldable pub update : Thread → Method (ThreadStore env) Thread
  unfolding write_thread embed_central_question
  update t s =
      if Dict.has s.threads t.id
      then (return t, embed_central_question t (write_thread t s))
      else (raise key_error, s)

  unfoldable pub load_all : List env.threads.Document → Outcome (List Thread)
  load_all [] = return []
  load_all (d ∷ ds) =
      let rest = load_all ds in
      elim (env.threads.parse d) [ raise e ↦ raise e | return t ↦ prepend t rest ]

  -- `glob` lists the files in an order of its own.
  unfoldable pub list_all :
      (List env.threads.Document → List env.threads.Document)
      → ThreadStore env
      → Outcome (List Thread)
  unfolding load_all
  list_all glob s = load_all (glob (Dict.values s.threads))

  unfoldable pub transition :
      String → ThreadStatus → Stamp → Stamp → Method (ThreadStore env) Thread
  unfolding read_thread valid_transition moved write_thread
  transition thread_id new_status touched now = do
    t ← read_thread thread_id
    λ s.
        if valid_transition t.status new_status
        then (
          return (moved new_status touched now t),
          write_thread (moved new_status touched now t) s,
        )
        else (raise value_error, s)

  unfoldable pub add_perspective :
      String → DaemonPerspective → Stamp → Method (ThreadStore env) Thread
  unfolding read_thread with_perspective write_thread
  add_perspective thread_id p now = do
    t ← read_thread thread_id
    λ s. (return (with_perspective p now t), write_thread (with_perspective p now t) s)

  -- The index is that of the new note, `len(new_notes) - 1`.
  unfoldable pub add_handoff_note : String → HandoffNote → Stamp → Method (ThreadStore env) Thread
  unfolding read_thread with_note write_thread embed_handoff_note
  add_handoff_note thread_id n now = do
    t ← read_thread thread_id
    λ s. (
      return (with_note n now t),
      embed_handoff_note thread_id n (length t.handoff_notes) (write_thread (with_note n now t) s),
    )

  unfoldable pub write_pickup_note : PickupNote → Method (ThreadStore env) PickupNote
  unfolding read_thread write_pickup
  write_pickup_note n =
      if is_some n.time_gap_quality
      then (λ s. (raise value_error, s))
      else (do t ← read_thread n.thread_id; λ s. (return n, write_pickup n s))

  unfoldable pub fill_time_gap_quality : String → String → Method (ThreadStore env) PickupNote
  unfolding read_pickup write_pickup
  fill_time_gap_quality thread_id quality = do
    n ← read_pickup thread_id
    λ s. (
      return (record n { time_gap_quality = some quality }),
      write_pickup (record n { time_gap_quality = some quality }) s,
    )
