-- ===== src/State/LocalEpisodic.antt =====
-- src/kai_daemon/state/local_episodic_store.py: the episodic record in local files. A JSONL file is
-- the list of its lines, and an append is one line or, where the file system fails, none.
use kai_daemon.Base.{
  Bool, true, false, String, Option, none, some, List, [], ◌∷◌, ◌++◌, map, or_else,
}
use kai_daemon.Base.Dict
use kai_daemon.Base.Dict.{Dict}
use kai_daemon.Base.Outcome.{return, raise, os_error, Method}
use kai_daemon.Base.Time.{Stamp}
use kai_daemon.State.Episodic.{ThreadEpisode, HandoffNote, SessionRecord}
use kai_daemon.Workflows.EpisodicFlush.Outside.{
  Write, thread_episode, cooccurrence, handoff_note, session_record, session_thread_index,
}

-- A row of the table `session_cooccurrence`.
pub record CooccurrenceRow : Type 0 where
  pub session_id : String
  pub thread_id : Option String
  pub artifact_id : Option String
  pub inquiry_id : Option String

pub record IndexLine : Type 0 where
  pub session_id : String
  pub thread_ids : List String
  pub occurred_at : Stamp

-- The files under `episodic_root`; `thread_episodes` has a file for each thread.
pub record EpisodicFiles : Type 0 where
  pub thread_episodes : Dict (List ThreadEpisode)
  pub cooccurrence_db : List CooccurrenceRow
  pub handoff_notes : List HandoffNote
  pub session_records : List SessionRecord
  pub session_thread_index_lines : List IndexLine

abbrev pub thread_row : String → String → CooccurrenceRow
thread_row id tid = record {
  session_id = id;
  thread_id = some tid;
  artifact_id = none;
  inquiry_id = none;
}

abbrev pub artifact_row : String → String → CooccurrenceRow
artifact_row id aid = record {
  session_id = id;
  thread_id = none;
  artifact_id = some aid;
  inquiry_id = none;
}

abbrev pub inquiry_row : String → String → CooccurrenceRow
inquiry_row id iid = record {
  session_id = id;
  thread_id = none;
  artifact_id = none;
  inquiry_id = some iid;
}

-- the rows that `update_cooccurrence` inserts, in one transaction
unfoldable pub cooccurrence_rows :
    String → List String → List String → List String → List CooccurrenceRow
cooccurrence_rows id tids aids iids =
    map (thread_row id) tids ++ map (artifact_row id) aids ++ map (inquiry_row id) iids

-- what each of the five functions makes of the files where it does not raise
unfoldable pub apply_write : Write → EpisodicFiles → EpisodicFiles
unfolding cooccurrence_rows
apply_write (thread_episode e) f = record f {
  thread_episodes =
      Dict.put f.thread_episodes e.thread_id
        (or_else (Dict.get f.thread_episodes e.thread_id) [] ++ e ∷ []);
}
apply_write (cooccurrence id tids aids iids) f = record f {
  cooccurrence_db = f.cooccurrence_db ++ cooccurrence_rows id tids aids iids;
}
apply_write (handoff_note n) f = record f { handoff_notes = f.handoff_notes ++ n ∷ [] }
apply_write (session_record r) f = record f { session_records = f.session_records ++ r ∷ [] }
apply_write (session_thread_index id tids at) f = record f {
  session_thread_index_lines =
      f.session_thread_index_lines
      ++ record { session_id = id; thread_ids = tids; occurred_at = at } ∷ [];
}

-- The files, and whether the file system fails at each of the next calls.
pub record LocalStore : Type 0 where
  pub files : EpisodicFiles
  pub faults : List Bool

-- the five functions
unfoldable pub write_local : Write → Method LocalStore Unit
unfolding apply_write
write_local w s = elim s.faults [
  | [] ↦ (return tt, record { files = apply_write w s.files; faults = [] })
  | false ∷ rest ↦ (return tt, record { files = apply_write w s.files; faults = rest })
  | true ∷ rest ↦ (raise os_error, record { files = s.files; faults = rest })
]

-- What a list of writes makes of the files, one after the other.
unfoldable pub replay : List Write → EpisodicFiles → EpisodicFiles
unfolding apply_write
replay [] f = f
replay (w ∷ ws) f = replay ws (apply_write w f)
