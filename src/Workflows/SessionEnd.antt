-- ===== src/Workflows/SessionEnd.antt =====
-- src/kai_daemon/workflows/session_end.py, and `end_session` of
-- src/kai_daemon/workflows/personal_assistant.py. The two workflows run at once, each on a state of
-- its own, so their order does not matter; `str(exc)` is the exception.
pub mod Replay
pub mod Lossless
mod Tests
use kai_daemon.Base.{
  ℕ, String, Bool, true, false, Option, none, some, List, [], ◌∷◌, ◌++◌, if◌then◌else◌,
}
use kai_daemon.Base.Outcome.{Outcome, Exception, return, raise, runtime_error, Method}
use kai_daemon.Base.Text.{Unicode}
use kai_daemon.State.WorkingMemory.{WorkingMemory}
use kai_daemon.State.LocalEpisodic.{LocalStore, write_local}
use kai_daemon.Workflows.EpisodicFlush.Outside.{Prompt, Embedded, Callables, Flushing}
use kai_daemon.Workflows.EpisodicFlush.Compile.{Section}
use kai_daemon.Workflows.EpisodicFlush.{EpisodicFlushResult, episodic_flush}

pub record RelationalUpdateResult : Type 0 where
  pub session_id : String
  pub relational_version : ℕ
  pub fields_updated : List String

pub record SessionEndResult : Type 0 where
  pub session_id : String
  pub flush_succeeded : Bool
  pub relational_update_result : Option RelationalUpdateResult
  pub flush_result : Option EpisodicFlushResult
  pub relational_update_error : Option Exception
  pub flush_error : Option Exception
  pub sequence_errors : List (String × Exception)

abbrev pub started_result : String → SessionEndResult
started_result session_id = record {
  session_id = session_id;
  flush_succeeded = false;
  relational_update_result = none;
  flush_result = none;
  relational_update_error = none;
  flush_error = none;
  sequence_errors = [];
}

-- the first `try` statement
unfoldable pub collect_relational :
    Outcome RelationalUpdateResult → SessionEndResult → SessionEndResult
collect_relational (return v) r = record r { relational_update_result = some v }
collect_relational (raise e) r = record r {
  relational_update_error = some e;
  sequence_errors = r.sequence_errors ++ ("relational_update", e) ∷ [];
}

-- the second `try` statement
unfoldable pub collect_flush : Outcome EpisodicFlushResult → SessionEndResult → SessionEndResult
collect_flush (return v) r = record r { flush_result = some v; flush_succeeded = true }
collect_flush (raise e) r = record r {
  flush_error = some e;
  sequence_errors = r.sequence_errors ++ ("episodic_flush", e) ∷ [];
}

module _ {R F : Type 0} (relational_update_fn : WorkingMemory → Method R RelationalUpdateResult)
    (episodic_flush_fn : WorkingMemory → ℕ → Method F EpisodicFlushResult) where
  -- The snapshot is the value of the working memory at the start.
  unfoldable pub run_session_end : WorkingMemory → ℕ → R × F → SessionEndResult × (R × F)
  unfolding collect_relational collect_flush
  run_session_end wm ended_at (r, f) =
      let (updated, r') = relational_update_fn wm r in
      let (flushed, f') = episodic_flush_fn wm ended_at f in
      (collect_flush flushed (collect_relational updated (started_result wm.session_id)), (r', f'))

  -- The assistant's working memory, and what is outside.
  pub record Assistant : Type 0 where
    pub working_memory : Option WorkingMemory
    pub outer : R × F

  abbrev pub clear_if :
      SessionEndResult × (R × F) → WorkingMemory → Outcome SessionEndResult × Assistant
  clear_if (result, outer) wm = (
    return result,
    record { working_memory = if result.flush_succeeded then none else some wm; outer = outer },
  )

  unfoldable pub end_session : ℕ → Method Assistant SessionEndResult
  unfolding run_session_end
  end_session ended_at a = elim a.working_memory [
    | none ↦ (raise runtime_error, a)
    | some wm ↦ clear_if (run_session_end wm ended_at a.outer) wm
  ]

-- What the flush calls beside the local files, on a state of its own.
pub record Services (O : Type 0) : Type 0 where
  pub infer : Prompt → Method O String
  pub embed : Option (Embedded → Method O (Option String))
  pub checkpoint : Option (Method O Unit)
  pub new_id : Method O String
  pub find_sections : String → List (Section × String)
  pub str : ℕ → String

module _ {O A : Type 0} where
  unfoldable pub on_services : Method O A → Method (LocalStore × O) A
  on_services m (store, o) = let (r, o') = m o in (r, (store, o'))

module _ {O : Type 0} where
  unfoldable pub on_store : Method LocalStore Unit → Method (LocalStore × O) Unit
  on_store m (store, o) = let (r, store') = m store in (r, (store', o))

  abbrev pub embed_on_services :
      Option (Embedded → Method O (Option String))
      → Option (Embedded → Method (LocalStore × O) (Option String))
  embed_on_services none = none
  embed_on_services (some embed) = some (λ text. on_services (embed text))

  abbrev pub checkpoint_on_services : Option (Method O Unit) → Option (Method (LocalStore × O) Unit)
  checkpoint_on_services none = none
  checkpoint_on_services (some m) = some (on_services m)

  -- `make_episodic_flush_fn` with the functions of the local store
  unfoldable pub local_callables : Services O → Callables (LocalStore × O)
  unfolding on_services on_store write_local
  local_callables v = record {
    infer = λ p. on_services (v.infer p);
    embed = embed_on_services v.embed;
    write = λ w. on_store (write_local w);
    checkpoint = checkpoint_on_services v.checkpoint;
    new_id = on_services v.new_id;
    find_sections = v.find_sections;
    str = v.str;
  }

  unfoldable pub make_episodic_flush_fn :
      Unicode
      → Services O
      → WorkingMemory
      → ℕ
      → Method (Flushing (LocalStore × O)) EpisodicFlushResult
  unfolding local_callables episodic_flush
  make_episodic_flush_fn u v = episodic_flush u (local_callables v)
