-- ===== src/State/Episodic.antt =====
-- src/kai_daemon/state/episodic.py: what a session leaves.
use kai_daemon.Base.{ℕ, String, Bool, Option, List}
use kai_daemon.Base.Time.{Stamp}

pub record RegisterArcEntry : Type 0 where
  pub turn : ℕ
  pub register : String
  pub corrected : Bool

pub record ThreadEpisode : Type 0 where
  pub id : String
  pub thread_id : String
  pub session_id : String
  pub occurred_at : Stamp
  pub status_at_start : String
  pub status_at_end : String
  pub stance_movement : Option String
  pub what_was_said : String
  pub what_moved : Option String
  pub what_didnt_move : Option String
  pub daemon_was_watching : Option String
  pub embedding_id : Option String

pub record HandoffNote : Type 0 where
  pub id : String
  pub session_id : String
  pub written_at : Stamp
  pub thread_ids : List String
  pub where_we_are : String
  pub what_matters : String
  pub open_threads : String
  pub register_notes : String
  pub daemon_observations : String
  pub embedding_id : Option String

pub record SessionRecord : Type 0 where
  pub id : String
  pub started_at : Stamp
  pub ended_at : Stamp
  pub duration_seconds : ℕ
  pub thread_ids : List String
  pub topics : List String
  pub dominant_register : String
  pub register_arc : List RegisterArcEntry
  pub register_shifts : ℕ
  pub corrections_made : ℕ
  pub new_open_loops : List String
  pub resolved_open_loops : List String
  pub new_threads : List String
  pub dormant_threads_touched : List String
  pub artifacts_ingested : List String
  pub shared_layer_additions : List String
  pub contradictions_surfaced : List String
  pub commissioned_inquiries : List String
  pub embedding_id : Option String
  pub handoff_note_id : Option String
