-- ===== src/Workflows/EpisodicFlush/Record.antt =====
-- `_synthesize_handoff_note` and `_compile_session_record` of episodic_flush.py.
use kai_daemon.Base.{ℕ, String, Option, some, List, [], map, length, take}
use kai_daemon.Base.Outcome.{Outcome, Method, pure, ◌>>=◌}
use kai_daemon.Base.Text.{Unicode, chars, joined, strip}
use kai_daemon.Base.Time.{Stamp, aware}
use kai_daemon.State.Episodic.{ThreadEpisode, HandoffNote, SessionRecord}
use kai_daemon.State.WorkingMemory.{TurnNote, WorkingMemory}
use kai_daemon.Workflows.EpisodicFlush.Compile.{
  add_keys, fromkeys, concat_map, dominant_register, register_shifts, corrections_made, arc_entry,
  duration_seconds,
}
use kai_daemon.Workflows.EpisodicFlush.Outside.{
  handoff_prompt, prose, summary, Callables, Flushing, outside, embed_or_null,
}

module _ (u : Unicode) {W : Type 0} (c : Callables W) where
  unfoldable pub prose_of : String → String
  unfolding strip chars
  prose_of response = joined (strip u.is_space (chars response))

  unfoldable pub new_note :
      String → List ThreadEpisode → Stamp → String → Option String → String → HandoffNote
  unfolding prose_of
  new_note session_id episodes written_at response embedding_id id = record {
    id = id;
    session_id = session_id;
    written_at = written_at;
    thread_ids = map (λ e. e.thread_id) episodes;
    where_we_are = prose_of response;
    what_matters = "";
    open_threads = "";
    register_notes = "";
    daemon_observations = "";
    embedding_id = embedding_id;
  }

  unfoldable pub name_note :
      String → List ThreadEpisode → Stamp → String → Option String → Method (Flushing W) HandoffNote
  unfolding new_note outside
  name_note session_id episodes written_at response v =
      outside c.new_id >>= λ id. pure (new_note session_id episodes written_at response v id)

  unfoldable pub embed_note :
      String → List ThreadEpisode → Stamp → String → Method (Flushing W) HandoffNote
  unfolding name_note embed_or_null prose_of
  embed_note session_id episodes written_at response =
      embed_or_null u c (prose (prose_of response))
      >>= name_note session_id episodes written_at response

  unfoldable pub synthesize_handoff_note :
      String → List ThreadEpisode → List TurnNote → Stamp → Method (Flushing W) HandoffNote
  unfolding outside embed_note
  synthesize_handoff_note session_id episodes notable_turns written_at =
      outside (c.infer (handoff_prompt episodes notable_turns))
      >>= embed_note session_id episodes written_at

  abbrev pub raise_or : Outcome ℕ → Method (Flushing W) ℕ
  raise_or r s = (r, s)

  unfoldable pub all_thread_ids : WorkingMemory → List String
  unfolding add_keys concat_map
  all_thread_ids wm = fromkeys (concat_map (λ tn. tn.thread_ids_active) wm.turn_notes)

  unfoldable pub all_topics : WorkingMemory → List String
  unfolding add_keys concat_map
  all_topics wm = fromkeys (concat_map (λ tn. tn.topics_touched) wm.turn_notes)

  unfoldable pub new_record :
      WorkingMemory → ℕ → String → ℕ → Option String → String → SessionRecord
  unfolding all_thread_ids all_topics dominant_register register_shifts corrections_made
  new_record wm ended_at handoff_note_id duration embedding_id id = record {
    id = id;
    started_at = wm.started_at;
    ended_at = aware ended_at;
    duration_seconds = duration;
    thread_ids = all_thread_ids wm;
    topics = all_topics wm;
    dominant_register = dominant_register wm.turn_notes;
    register_arc = map arc_entry wm.turn_notes;
    register_shifts = register_shifts wm.turn_notes;
    corrections_made = corrections_made wm.turn_notes;
    new_open_loops = [];
    resolved_open_loops = [];
    new_threads = [];
    dormant_threads_touched = [];
    artifacts_ingested = wm.artifacts_this_session;
    shared_layer_additions = wm.shared_layer_additions;
    contradictions_surfaced = wm.contradictions_surfaced;
    commissioned_inquiries = wm.commissioned_inquiries;
    embedding_id = embedding_id;
    handoff_note_id = some handoff_note_id;
  }

  unfoldable pub name_record :
      WorkingMemory → ℕ → String → ℕ → Option String → Method (Flushing W) SessionRecord
  unfolding new_record outside
  name_record wm ended_at handoff_note_id duration v =
      outside c.new_id >>= λ id. pure (new_record wm ended_at handoff_note_id duration v id)

  unfoldable pub embed_record : WorkingMemory → ℕ → String → ℕ → Method (Flushing W) SessionRecord
  unfolding name_record embed_or_null all_thread_ids all_topics
  embed_record wm ended_at handoff_note_id duration =
      embed_or_null u c (
        summary wm.session_id (length wm.turn_notes) (length (all_thread_ids wm))
          (take 5 (all_topics wm)))
      >>= name_record wm ended_at handoff_note_id duration

  unfoldable pub compile_session_record :
      WorkingMemory → ℕ → String → Method (Flushing W) SessionRecord
  unfolding duration_seconds embed_record
  compile_session_record wm ended_at handoff_note_id =
      raise_or (duration_seconds wm.started_at ended_at)
      >>= embed_record wm ended_at handoff_note_id
