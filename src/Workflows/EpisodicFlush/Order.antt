-- ===== src/Workflows/EpisodicFlush/Order.antt =====
-- The order of the six steps.
use kai_daemon.Base.{
  ℕ, ◌≡◌, refl, sym, ap, ◌∙◌, subst, String, Never, some, List, [], ◌∷◌, ◌++◌, map, filter, length,
  All, All-append,
}
use kai_daemon.Base.Outcome.{Outcome, Exception, return, raise, pure}
use kai_daemon.Base.Text.{Unicode}
use kai_daemon.Base.Time.{aware}
use kai_daemon.State.Episodic.{ThreadEpisode, HandoffNote, SessionRecord}
use kai_daemon.State.WorkingMemory.{WorkingMemory}
use kai_daemon.Workflows.EpisodicFlush.Compile.{group_turns, concat_map}
use kai_daemon.Workflows.EpisodicFlush.FirstSeen.{
  first_seen, threads_in, noted_threads, fromkeys-first_seen, concat_map-threads_in,
  group_turns-first_seen,
}
use kai_daemon.Workflows.EpisodicFlush.Outside.{
  Callables, Write, thread_episode, cooccurrence, handoff_note, session_record,
  session_thread_index,
}
use kai_daemon.Workflows.EpisodicFlush.Episodes.{compile_threads}
use kai_daemon.Workflows.EpisodicFlush.Record.{
  synthesize_handoff_note, compile_session_record, all_thread_ids,
}
use kai_daemon.Workflows.EpisodicFlush.{
  EpisodicFlushResult, result_of, write_episodes, checkpoint_if, step_two, step_three,
  then_checkpoint, step_four, write_note, step_five, write_record, step_six, episodic_flush,
}
use kai_daemon.Workflows.EpisodicFlush.Parts.{
  compile_threads-Silent, synthesize-Silent, compile_record-Silent, checkpoint-Silent,
}
use kai_daemon.Workflows.EpisodicFlush.Emits.{Emits, pure-Emits, Silent-then, Emits-then, emit-then}

abbrev pub IsBeforeIndex : Write → Type 0
IsBeforeIndex (session_thread_index id ids at) = Never
IsBeforeIndex _ = Unit

-- What a flush has written when it ends.
pub data Flushed (thread_ids : List String) (wm : WorkingMemory) (ended_at : ℕ)
    : Outcome EpisodicFlushResult → List Write → Type 0 where
  complete :
      (episodes : List ThreadEpisode) (note : HandoffNote) (rec : SessionRecord)
      (r : EpisodicFlushResult)
      → map (λ e. e.thread_id) episodes ≡ first_seen (noted_threads wm.turn_notes)
      → note.thread_ids ≡ map (λ e. e.thread_id) episodes
      → rec.handoff_note_id ≡ some note.id
      → rec.thread_ids ≡ thread_ids
      → (r.session_record_id ≡ rec.id)
        × (r.handoff_note_id ≡ note.id)
        × (r.thread_episode_count ≡ length episodes)
      → Flushed thread_ids wm ended_at (return r) (
          map thread_episode episodes
          ++ cooccurrence wm.session_id thread_ids wm.artifacts_this_session
              wm.commissioned_inquiries
            ∷ handoff_note note
            ∷ session_record rec
            ∷ session_thread_index wm.session_id thread_ids (aware ended_at)
            ∷ [])
  partial :
      (e : Exception) (out : List Write)
      → All IsBeforeIndex out
      → Flushed thread_ids wm ended_at (raise e) out

module _ (u : Unicode) {W : Type 0} (c : Callables W) where
  episodes-All : (es : List ThreadEpisode) → All IsBeforeIndex (map thread_episode es)
  episodes-All [] = tt
  episodes-All (e ∷ es) = (tt, episodes-All es)

  -- All the episodes are written, or a part of them.
  abbrev WroteEpisodes : List ThreadEpisode → Outcome {0} Unit → List Write → Type 0
  WroteEpisodes es (return x) out = out ≡ map thread_episode es
  WroteEpisodes es (raise e) out = All IsBeforeIndex out

  cons-WroteEpisodes :
      (e : ThreadEpisode) (es : List ThreadEpisode) (r : Outcome {0} Unit) (out : List Write)
      → WroteEpisodes es r out
      → WroteEpisodes (e ∷ es) r (thread_episode e ∷ out)
  cons-WroteEpisodes e es (return x) out h = ap (λ l. thread_episode e ∷ l) h
  cons-WroteEpisodes e es (raise x) out h = (tt, h)

  write_episodes-Emits :
      (es : List ThreadEpisode) → Emits (write_episodes u c es) (WroteEpisodes es)
  unfolding write_episodes
  write_episodes-Emits [] = pure-Emits (WroteEpisodes []) tt refl
  write_episodes-Emits (e ∷ es) =
      emit-then u c (thread_episode e) (λ _. write_episodes u c es) (WroteEpisodes (e ∷ es))
        (λ x. tt)
        (λ s.
          let (out, grown, wrote) = write_episodes-Emits es s in
          (out, grown, cons-WroteEpisodes e es (write_episodes u c es s).0 out wrote))

  module _ (wm : WorkingMemory) (ended_at : ℕ) (es : List ThreadEpisode)
      (named : map (λ e. e.thread_id) es ≡ first_seen (noted_threads wm.turn_notes)) where
    abbrev Done : Outcome EpisodicFlushResult → List Write → Type 0
    Done r out = Flushed (all_thread_ids u c wm) wm ended_at r (map thread_episode es ++ out)

    abbrev cooc : Write
    cooc =
        cooccurrence wm.session_id (all_thread_ids u c wm) wm.artifacts_this_session
          wm.commissioned_inquiries

    stopped : (out : List Write) → All IsBeforeIndex out → (e : Exception) → Done (raise e) out
    stopped out h e =
        partial e _ (All-append IsBeforeIndex (map thread_episode es) out (episodes-All es) h)

    step_six-Emits :
        (note : HandoffNote) (rec : SessionRecord)
        → note.thread_ids ≡ map (λ e. e.thread_id) es
        → (rec.handoff_note_id ≡ some note.id) × (rec.thread_ids ≡ all_thread_ids u c wm)
        → Emits
            (step_six u c wm ended_at es note rec tt)
            (λ r out. Done r (cooc ∷ handoff_note note ∷ session_record rec ∷ out))
    unfolding step_six
    step_six-Emits note rec same fits =
        emit-then u c (session_thread_index wm.session_id (all_thread_ids u c wm) (aware ended_at))
          (λ _. pure (result_of u c wm es note rec))
          (λ r out. Done r (cooc ∷ handoff_note note ∷ session_record rec ∷ out))
          (stopped (cooc ∷ handoff_note note ∷ session_record rec ∷ []) (tt, (tt, (tt, tt))))
          (pure-Emits
            (λ r out. Done r (
              cooc
              ∷ handoff_note note
              ∷ session_record rec
              ∷ session_thread_index wm.session_id (all_thread_ids u c wm) (aware ended_at)
              ∷ out))
            (result_of u c wm es note rec)
            (complete es note rec (result_of u c wm es note rec) named same fits.0 fits.1
              (refl, refl, refl)))

    step_five-Emits :
        (note : HandoffNote)
        → note.thread_ids ≡ map (λ e. e.thread_id) es
        → Emits
            (step_five u c wm ended_at es note tt)
            (λ r out. Done r (cooc ∷ handoff_note note ∷ out))
    unfolding step_five write_record
    step_five-Emits note same =
        Silent-then (compile_session_record u c wm ended_at note.id)
          (write_record u c wm ended_at es note)
          (λ r. (r.handoff_note_id ≡ some note.id) × (r.thread_ids ≡ all_thread_ids u c wm))
          (λ r out. Done r (cooc ∷ handoff_note note ∷ out))
          (compile_record-Silent u c wm ended_at note.id)
          (stopped (cooc ∷ handoff_note note ∷ []) (tt, (tt, tt)))
          (λ rec fits.
            emit-then u c (session_record rec) (step_six u c wm ended_at es note rec)
              (λ r out. Done r (cooc ∷ handoff_note note ∷ out))
              (stopped (cooc ∷ handoff_note note ∷ []) (tt, (tt, tt)))
              (step_six-Emits note rec same fits))

    step_four-Emits : Emits (step_four u c wm ended_at es tt) (λ r out. Done r (cooc ∷ out))
    unfolding step_four write_note
    step_four-Emits =
        Silent-then
          (synthesize_handoff_note u c wm.session_id es (filter (λ tn. tn.notable) wm.turn_notes)
            (aware ended_at))
          (write_note u c wm ended_at es) (λ n. n.thread_ids ≡ map (λ e. e.thread_id) es)
          (λ r out. Done r (cooc ∷ out))
          (synthesize-Silent u c wm.session_id es (filter (λ tn. tn.notable) wm.turn_notes)
            (aware ended_at))
          (stopped (cooc ∷ []) (tt, tt))
          (λ note same.
            emit-then u c (handoff_note note) (step_five u c wm ended_at es note)
              (λ r out. Done r (cooc ∷ out)) (stopped (cooc ∷ []) (tt, tt))
              (step_five-Emits note same))

    step_three-Emits : Emits (step_three u c wm ended_at es tt) Done
    unfolding step_three then_checkpoint
    step_three-Emits =
        emit-then u c cooc (then_checkpoint u c wm ended_at es) Done (stopped [] tt) (
          Silent-then (checkpoint_if u c c.checkpoint) (step_four u c wm ended_at es) (λ _. Unit)
            (λ r out. Done r (cooc ∷ out)) (checkpoint-Silent u c c.checkpoint)
            (stopped (cooc ∷ []) (tt, tt)) (λ _ _. step_four-Emits))

    step_two-Emits :
        Emits (step_two u c wm ended_at es) (Flushed (all_thread_ids u c wm) wm ended_at)
    unfolding step_two
    step_two-Emits =
        Emits-then (write_episodes u c es) (step_three u c wm ended_at es) (WroteEpisodes es)
          (Flushed (all_thread_ids u c wm) wm ended_at) (write_episodes-Emits es)
          (λ e out h. partial e out h)
          (λ x out h.
            subst
              (λ o.
                Emits (step_three u c wm ended_at es x)
                  (λ r more. Flushed (all_thread_ids u c wm) wm ended_at r (o ++ more)))
              (sym h) step_three-Emits)

  flushes :
      (wm : WorkingMemory) (ended_at : ℕ)
      → Emits (episodic_flush u c wm ended_at) (Flushed (all_thread_ids u c wm) wm ended_at)
  unfolding episodic_flush
  flushes wm ended_at =
      Silent-then
        (compile_threads u c wm.session_id (aware ended_at) (group_turns [] wm.turn_notes))
        (step_two u c wm ended_at)
        (λ es. map (λ e. e.thread_id) es ≡ map (λ t. t.0) (group_turns [] wm.turn_notes))
        (Flushed (all_thread_ids u c wm) wm ended_at)
        (compile_threads-Silent u c wm.session_id (aware ended_at) (group_turns [] wm.turn_notes))
        (λ e. partial e [] tt)
        (λ es named. step_two-Emits wm ended_at es (named ∙ group_turns-first_seen wm.turn_notes))

  all_thread_ids-first_seen :
      (wm : WorkingMemory) → all_thread_ids u c wm ≡ first_seen (threads_in wm.turn_notes)
  unfolding all_thread_ids
  all_thread_ids-first_seen wm =
      fromkeys-first_seen (concat_map (λ tn. tn.thread_ids_active) wm.turn_notes)
      ∙ ap first_seen (concat_map-threads_in wm.turn_notes)

  -- Whatever the callables do, and whichever raises: a flush that returns has written, in this
  -- order and nothing else, one episode for each thread with notable turns in the order in which
  -- they were first seen, the co-occurrence, a handoff note on these threads, a session record that
  -- names that note and all threads of the session in the order in which they were first seen, and last the thread index; its result names the
  -- record and the note and counts the episodes. A flush that raises has not written the index.
  pub episodic_flush-Flushed :
      (wm : WorkingMemory) (ended_at : ℕ)
      → Emits
          (episodic_flush u c wm ended_at)
          (Flushed (first_seen (threads_in wm.turn_notes)) wm ended_at)
  episodic_flush-Flushed wm ended_at =
      subst (λ ids. Emits (episodic_flush u c wm ended_at) (Flushed ids wm ended_at))
        (all_thread_ids-first_seen wm) (flushes wm ended_at)
