-- ===== src/Workflows/EpisodicFlush/Parts.antt =====
-- The parts of the flush that write nothing, and what they return.
use kai_daemon.Base.{
  ℕ, ◌≡◌, refl, ap₂, String, Option, some, none, take, List, [], ◌∷◌, map, length,
}
use kai_daemon.Base.Outcome.{Method, pure, on_return}
use kai_daemon.Base.Text.{Unicode}
use kai_daemon.Base.Time.{Stamp}
use kai_daemon.State.Episodic.{ThreadEpisode}
use kai_daemon.State.WorkingMemory.{TurnNote, WorkingMemory}
use kai_daemon.Workflows.EpisodicFlush.Compile.{duration_seconds}
use kai_daemon.Workflows.EpisodicFlush.Outside.{
  Callables, outside, embed_or_null, episode_prompt, handoff_prompt, prose, summary,
}
use kai_daemon.Workflows.EpisodicFlush.Episodes.{
  compile_thread, compile_threads, name_episode, embed_episode, new_episode, prepend_to, said_in,
}
use kai_daemon.Workflows.EpisodicFlush.Record.{
  synthesize_handoff_note, embed_note, name_note, new_note, prose_of, raise_or,
  compile_session_record, embed_record, name_record, new_record, all_thread_ids, all_topics,
}
use kai_daemon.Workflows.EpisodicFlush.{checkpoint_if}
use kai_daemon.Workflows.EpisodicFlush.Emits.{
  Silent, outside-Silent, Silent-bind, embed_or_null-Silent,
}

module _ (u : Unicode) {W : Type 0} (c : Callables W) where
  pub compile_thread-Silent :
      (session_id : String) (at : Stamp) (thread_id : String) (turns : List TurnNote)
      → Silent (compile_thread u c session_id at thread_id turns) (λ e. e.thread_id ≡ thread_id)
  unfolding compile_thread name_episode embed_episode new_episode
  compile_thread-Silent session_id at thread_id turns =
      Silent-bind (outside (c.infer (episode_prompt thread_id turns)))
        (name_episode u c session_id at thread_id turns) (λ _. Unit) _
        (outside-Silent (c.infer (episode_prompt thread_id turns)))
        (λ response _.
          Silent-bind (outside c.new_id) (embed_episode u c session_id at thread_id turns response)
            (λ _. Unit) _ (outside-Silent c.new_id)
            (λ id _.
              Silent-bind (embed_or_null u c (prose (said_in u c response)))
                (λ v. pure (new_episode u c session_id at thread_id turns response id v))
                (λ _. Unit) _ (embed_or_null-Silent u c _) (λ v _ s. (refl, refl))))

  pub compile_threads-Silent :
      (session_id : String) (at : Stamp) (threads : List (String × List TurnNote))
      → Silent
          (compile_threads u c session_id at threads)
          (λ es. map (λ e. e.thread_id) es ≡ map (λ t. t.0) threads)
  unfolding compile_threads prepend_to
  compile_threads-Silent session_id at [] = λ s. (refl, refl)
  compile_threads-Silent session_id at ((thread_id, turns) ∷ threads) =
      Silent-bind (compile_thread u c session_id at thread_id turns)
        (prepend_to u c (compile_threads u c session_id at threads)) (λ e. e.thread_id ≡ thread_id)
        _ (compile_thread-Silent session_id at thread_id turns)
        (λ e it.
          Silent-bind (compile_threads u c session_id at threads) (λ es. pure (e ∷ es))
            (λ es. map (λ e. e.thread_id) es ≡ map (λ t. t.0) threads) _
            (compile_threads-Silent session_id at threads)
            (λ es them s. (refl, ap₂ (λ i is. i ∷ is) it them)))

  pub synthesize-Silent :
      (session_id : String) (episodes : List ThreadEpisode) (turns : List TurnNote) (at : Stamp)
      → Silent
          (synthesize_handoff_note u c session_id episodes turns at)
          (λ n. n.thread_ids ≡ map (λ e. e.thread_id) episodes)
  unfolding synthesize_handoff_note embed_note name_note new_note
  synthesize-Silent session_id episodes turns at =
      Silent-bind (outside (c.infer (handoff_prompt episodes turns)))
        (embed_note u c session_id episodes at) (λ _. Unit) _
        (outside-Silent (c.infer (handoff_prompt episodes turns)))
        (λ response _.
          Silent-bind (embed_or_null u c (prose (prose_of u c response)))
            (name_note u c session_id episodes at response) (λ _. Unit) _
            (embed_or_null-Silent u c _)
            (λ v _.
              Silent-bind (outside c.new_id)
                (λ id. pure (new_note u c session_id episodes at response v id)) (λ _. Unit) _
                (outside-Silent c.new_id) (λ id _ s. (refl, refl))))

  pub compile_record-Silent :
      (wm : WorkingMemory) (ended_at : ℕ) (note_id : String)
      → Silent
          (compile_session_record u c wm ended_at note_id)
          (λ r. (r.handoff_note_id ≡ some note_id) × (r.thread_ids ≡ all_thread_ids u c wm))
  unfolding compile_session_record embed_record name_record new_record
  compile_record-Silent wm ended_at note_id =
      Silent-bind (raise_or u c (duration_seconds wm.started_at ended_at))
        (embed_record u c wm ended_at note_id) (λ _. Unit) _
        (λ s. (refl, on_return (duration_seconds wm.started_at ended_at) (λ _. Unit) (λ a e. tt)))
        (λ duration _.
          Silent-bind
            (embed_or_null u c (
              summary wm.session_id (length wm.turn_notes) (length (all_thread_ids u c wm))
                (take 5 (all_topics u c wm))))
            (name_record u c wm ended_at note_id duration) (λ _. Unit) _
            (embed_or_null-Silent u c _)
            (λ v _.
              Silent-bind (outside c.new_id)
                (λ id. pure (new_record u c wm ended_at note_id duration v id)) (λ _. Unit) _
                (outside-Silent c.new_id) (λ id _ s. (refl, (refl, refl)))))

  pub checkpoint-Silent : (o : Option (Method W Unit)) → Silent (checkpoint_if u c o) (λ _. Unit)
  checkpoint-Silent none = λ s. (refl, tt)
  checkpoint-Silent (some m) = outside-Silent m
