-- ===== src/Workflows/EpisodicFlush.antt =====
-- src/kai_daemon/workflows/episodic_flush.py: what the end of a session writes.
pub mod Compile
pub mod Outside
pub mod Episodes
pub mod Record
pub mod Emits
pub mod Parts
pub mod FirstSeen
pub mod Order
use Prim.Native.String.{◌++◌ as ◌<>◌}
use kai_daemon.Base.{
  ℕ, String, Bool, true, false, Option, none, some, List, [], ◌∷◌, ◌++◌, map, filter, length, take,
  is_some, ltb, if◌then◌else◌,
}
use kai_daemon.Base.Outcome.{Outcome, return, raise, Method, pure, ◌>>=◌, ◌>>◌}
use kai_daemon.Base.Text.{Unicode, chars, joined, strip}
use kai_daemon.Base.Time.{Stamp, aware}
use kai_daemon.State.Episodic.{ThreadEpisode, HandoffNote, SessionRecord}
use kai_daemon.State.WorkingMemory.{TurnNote, WorkingMemory}
use kai_daemon.Workflows.EpisodicFlush.Compile.{
  add_keys, fromkeys, concat_map, group_turns, Section, Fields, no_fields, read_fields,
  said_or_response, count_movements, dominant_register, register_shifts, corrections_made,
  arc_entry, duration_seconds,
}
use kai_daemon.Workflows.EpisodicFlush.Outside.{
  Prompt, episode_prompt, handoff_prompt, Embedded, prose, summary, Write, thread_episode,
  cooccurrence, handoff_note, session_record, session_thread_index, Callables, Flushing, outside,
  emit, embed_or_null,
}
use kai_daemon.Workflows.EpisodicFlush.Episodes.{compile_threads}
use kai_daemon.Workflows.EpisodicFlush.Record.{
  synthesize_handoff_note, compile_session_record, all_thread_ids,
}

pub record EpisodicFlushResult : Type 0 where
  pub session_id : String
  pub session_record_id : String
  pub handoff_note_id : String
  pub thread_episode_count : ℕ
  pub embeddings_available : Bool

module _ (u : Unicode) {W : Type 0} (c : Callables W) where
  -- step 2
  unfoldable pub write_episodes : List ThreadEpisode → Method (Flushing W) Unit
  unfolding emit
  write_episodes [] = pure tt
  write_episodes (e ∷ es) = emit u c (thread_episode e) >>= λ _. write_episodes es

  abbrev pub checkpoint_if : Option (Method W Unit) → Method (Flushing W) Unit
  checkpoint_if none = pure tt
  checkpoint_if (some m) = outside m

  abbrev pub result_of :
      WorkingMemory → List ThreadEpisode → HandoffNote → SessionRecord → EpisodicFlushResult
  result_of wm episodes note rec = record {
    session_id = wm.session_id;
    session_record_id = rec.id;
    handoff_note_id = note.id;
    thread_episode_count = length episodes;
    embeddings_available = is_some c.embed;
  }

  module _ (wm : WorkingMemory) (ended_at : ℕ) (episodes : List ThreadEpisode) where
    -- step 6
    unfoldable pub step_six :
        HandoffNote → SessionRecord → Unit {0} → Method (Flushing W) EpisodicFlushResult
    unfolding emit all_thread_ids
    step_six note rec _ =
        emit u c (session_thread_index wm.session_id (all_thread_ids u c wm) (aware ended_at))
        >>= λ _. pure (result_of wm episodes note rec)

    -- the write of step 5
    unfoldable pub write_record :
        HandoffNote → SessionRecord → Method (Flushing W) EpisodicFlushResult
    unfolding emit step_six
    write_record note rec = emit u c (session_record rec) >>= step_six note rec

    -- step 5
    unfoldable pub step_five : HandoffNote → Unit {0} → Method (Flushing W) EpisodicFlushResult
    unfolding compile_session_record write_record
    step_five note _ = compile_session_record u c wm ended_at note.id >>= write_record note

    -- the write of step 4
    unfoldable pub write_note : HandoffNote → Method (Flushing W) EpisodicFlushResult
    unfolding emit step_five
    write_note note = emit u c (handoff_note note) >>= step_five note

    -- step 4
    unfoldable pub step_four : Unit {0} → Method (Flushing W) EpisodicFlushResult
    unfolding synthesize_handoff_note write_note
    step_four _ =
        synthesize_handoff_note u c wm.session_id episodes (filter (λ tn. tn.notable) wm.turn_notes)
          (aware ended_at)
        >>= write_note

    -- the checkpoint
    unfoldable pub then_checkpoint : Unit {0} → Method (Flushing W) EpisodicFlushResult
    unfolding step_four outside
    then_checkpoint _ = checkpoint_if c.checkpoint >>= step_four

    -- step 3
    unfoldable pub step_three : Unit {0} → Method (Flushing W) EpisodicFlushResult
    unfolding emit all_thread_ids then_checkpoint
    step_three _ =
        emit u c (
          cooccurrence wm.session_id (all_thread_ids u c wm) wm.artifacts_this_session
            wm.commissioned_inquiries)
        >>= then_checkpoint

    -- step 2
    unfoldable pub step_two : Method (Flushing W) EpisodicFlushResult
    unfolding write_episodes step_three
    step_two = write_episodes episodes >>= step_three

  -- `ended_at` has an offset.
  unfoldable pub episodic_flush : WorkingMemory → ℕ → Method (Flushing W) EpisodicFlushResult
  unfolding group_turns compile_threads step_two
  episodic_flush wm ended_at =
      compile_threads u c wm.session_id (aware ended_at) (group_turns [] wm.turn_notes)
      >>= step_two wm ended_at
