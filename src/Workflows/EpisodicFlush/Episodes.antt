-- ===== src/Workflows/EpisodicFlush/Episodes.antt =====
-- `_compile_thread_episodes` of episodic_flush.py: an episode for each thread.
use Prim.Native.String.{◌++◌ as ◌<>◌}
use kai_daemon.Base.{String, Option, none, some, List, [], ◌∷◌, ltb, if◌then◌else◌}
use kai_daemon.Base.Outcome.{Method, pure, ◌>>=◌}
use kai_daemon.Base.Text.{Unicode}
use kai_daemon.Base.Time.{Stamp}
use kai_daemon.State.Episodic.{ThreadEpisode}
use kai_daemon.State.WorkingMemory.{TurnNote}
use kai_daemon.Workflows.EpisodicFlush.Compile.{
  Fields, no_fields, read_fields, said_or_response, count_movements,
}
use kai_daemon.Workflows.EpisodicFlush.Outside.{
  episode_prompt, prose, Callables, Flushing, outside, embed_or_null,
}

module _ (u : Unicode) {W : Type 0} (c : Callables W) where
  -- the stance that the answer gives, or else the count of the turns' movements
  unfoldable pub stance_of : Fields → String → List TurnNote → Option String
  unfolding count_movements
  stance_of fields thread_id turns = elim fields.stance [
    | some text ↦ some text
    | none ↦
        let n = count_movements thread_id turns in
        if ltb 0 n then some ("Epistemic status shifted in " <> c.str n <> " turn(s)") else none
  ]

  unfoldable pub fields_of : String → Fields
  unfolding read_fields
  fields_of response = read_fields u no_fields (c.find_sections response)

  abbrev pub said_in : String → String
  said_in response = said_or_response u (fields_of response) response

  unfoldable pub new_episode :
      String → Stamp → String → List TurnNote → String → String → Option String → ThreadEpisode
  unfolding fields_of said_or_response stance_of
  new_episode session_id occurred_at thread_id turns response id embedding_id = record {
    id = id;
    thread_id = thread_id;
    session_id = session_id;
    occurred_at = occurred_at;
    status_at_start = "active";
    status_at_end = "active";
    stance_movement = stance_of (fields_of response) thread_id turns;
    what_was_said = said_in response;
    what_moved = (fields_of response).moved;
    what_didnt_move = (fields_of response).didnt_move;
    daemon_was_watching = (fields_of response).was_watching;
    embedding_id = embedding_id;
  }

  unfoldable pub embed_episode :
      String → Stamp → String → List TurnNote → String → String → Method (Flushing W) ThreadEpisode
  unfolding new_episode embed_or_null
  embed_episode session_id occurred_at thread_id turns response id =
      embed_or_null u c (prose (said_in response)) >>= λ v.
      pure (new_episode session_id occurred_at thread_id turns response id v)

  unfoldable pub name_episode :
      String → Stamp → String → List TurnNote → String → Method (Flushing W) ThreadEpisode
  unfolding embed_episode outside
  name_episode session_id occurred_at thread_id turns response =
      outside c.new_id >>= embed_episode session_id occurred_at thread_id turns response

  -- the body of the second loop of `_compile_thread_episodes`
  unfoldable pub compile_thread :
      String → Stamp → String → List TurnNote → Method (Flushing W) ThreadEpisode
  unfolding outside name_episode
  compile_thread session_id occurred_at thread_id turns =
      outside (c.infer (episode_prompt thread_id turns))
      >>= name_episode session_id occurred_at thread_id turns

  -- the rest of the loop, after an episode
  unfoldable pub prepend_to :
      Method (Flushing W) (List ThreadEpisode)
      → ThreadEpisode
      → Method (Flushing W) (List ThreadEpisode)
  prepend_to rest e = rest >>= λ es. pure (e ∷ es)

  unfoldable pub compile_threads :
      String → Stamp → List (String × List TurnNote) → Method (Flushing W) (List ThreadEpisode)
  unfolding compile_thread prepend_to
  compile_threads session_id occurred_at [] = pure []
  compile_threads session_id occurred_at ((thread_id, turns) ∷ threads) =
      compile_thread session_id occurred_at thread_id turns
      >>= prepend_to (compile_threads session_id occurred_at threads)
