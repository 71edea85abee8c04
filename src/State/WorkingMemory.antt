-- ===== src/State/WorkingMemory.antt =====
-- src/kai_daemon/state/working_memory.py: the notes of a session's turns. The thread stack, the
-- floating threads, the relational shadow and the turn count, which the end of a session does not
-- read, are left out.
use kai_daemon.Base.{ℕ, String, Bool, Option, List}
use kai_daemon.Base.Time.{Stamp}

pub record TurnNote : Type 0 where
  pub turn_id : String
  pub session_id : String
  pub turn_number : ℕ
  pub timestamp : Stamp
  pub thread_ids_active : List String
  pub register : String
  pub register_corrected : Bool
  pub topics_touched : List String
  pub stance_movements : List String
  pub artifacts_referenced : List String
  pub notable : Bool
  pub note : Option String

pub record WorkingMemory : Type 0 where
  pub session_id : String
  pub started_at : Stamp
  pub turn_notes : List TurnNote
  pub artifacts_this_session : List String
  pub shared_layer_additions : List String
  pub contradictions_surfaced : List String
  pub commissioned_inquiries : List String
