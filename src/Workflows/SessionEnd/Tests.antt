-- ===== src/Workflows/SessionEnd/Tests.antt =====
-- The end of a session with one notable turn on two threads, on concrete inputs.
use kai_daemon.Base.{ℕ, ◌≡◌, refl, true, false, none, some, String, List, [], ◌∷◌, ◌++◌}
use kai_daemon.Base.Dict
use kai_daemon.Base.Outcome.{Outcome, return}
use kai_daemon.Base.Text.{Unicode, chars, starts_with}
use kai_daemon.Base.Time.{aware}
use kai_daemon.State.LocalEpisodic.{LocalStore}
use kai_daemon.State.WorkingMemory.{TurnNote, WorkingMemory}
use kai_daemon.Workflows.EpisodicFlush.Outside.{Flushing, Write}
use kai_daemon.Workflows.EpisodicFlush.FirstSeen.{first_seen, threads_in}
use kai_daemon.Workflows.EpisodicFlush.{episodic_flush}
use kai_daemon.Workflows.EpisodicFlush.Compile.{dominant_register, register_shifts}
use kai_daemon.Workflows.EpisodicFlush.Order.{Flushed, episodic_flush-Flushed}
use kai_daemon.Workflows.SessionEnd.{
  Services, RelationalUpdateResult, Assistant, local_callables, make_episodic_flush_fn,
}
use kai_daemon.Workflows.SessionEnd.Lossless.{Ending, ended, end_session-Ending}

abbrev plain : Unicode
plain = record {
  is_space = λ c. starts_with (c ∷ []) (chars " ");
  upper = λ c. c ∷ [];
  lower = λ c. c ∷ [];
}

-- Every id is the state, and every answer the same.
abbrev services : Services String
services = record {
  infer = λ p s. (return "said", s);
  embed = none;
  checkpoint = none;
  new_id = λ s. (return s, s);
  find_sections = λ s. [];
  str = λ n. "n";
}

abbrev turn : TurnNote
turn = record {
  turn_id = "s:1";
  session_id = "s";
  turn_number = 1;
  timestamp = aware 5;
  thread_ids_active = "a" ∷ "b" ∷ [];
  register = "casual";
  register_corrected = false;
  topics_touched = "tea" ∷ [];
  stance_movements = [];
  artifacts_referenced = [];
  notable = true;
  note = some "note";
}

abbrev memory : WorkingMemory
memory = record {
  session_id = "s";
  started_at = aware 0;
  turn_notes = turn ∷ [];
  artifacts_this_session = [];
  shared_layer_additions = [];
  contradictions_surfaced = [];
  commissioned_inquiries = [];
}

-- The file system fails at the third write.
abbrev store : LocalStore
store = record {
  files = record {
    thread_episodes = [];
    cooccurrence_db = [];
    handoff_notes = [];
    session_records = [];
    session_thread_index_lines = [];
  };
  faults = false ∷ false ∷ true ∷ [];
}

abbrev fresh : Flushing (LocalStore × String)
fresh = record { world = (store, "i"); written = [] }

abbrev update : WorkingMemory → ℕ → Outcome RelationalUpdateResult × ℕ
update wm n = (return (record { session_id = "s"; relational_version = 1; fields_updated = [] }), n)

episodic_flush_example :
    (out : List Write) × ((episodic_flush plain (local_callables services) memory 9 fresh).1.written
      ≡ fresh.written ++ out)
    × Flushed
        (first_seen (threads_in memory.turn_notes))
        memory
        9
        (episodic_flush plain (local_callables services) memory 9 fresh).0
        out
episodic_flush_example = episodic_flush-Flushed plain (local_callables services) memory 9 fresh

abbrev after : Assistant update (make_episodic_flush_fn plain services)
after =
    (ended plain services update 9 (record { working_memory = some memory; outer = (0, fresh) })).1

end_session_example :
    Ending plain services update memory 9 store.files after.working_memory
      after.outer.1.world.0.files
end_session_example = end_session-Ending plain services update memory 9 0 fresh refl

shifted : register_shifts (turn ∷ record turn { register = "reflective" } ∷ turn ∷ []) ≡ 2
unfolding register_shifts
shifted = refl

dominant : dominant_register (turn ∷ record turn { register = "reflective" } ∷ turn ∷ []) ≡ "casual"
unfolding dominant_register Dict.put Dict.get
dominant = refl
