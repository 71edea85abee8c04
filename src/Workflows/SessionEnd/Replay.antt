-- ===== src/Workflows/SessionEnd/Replay.antt =====
-- The files of the local store are what the flush's writes make of them.
use kai_daemon.Base.{
  ℕ, ◌≡◌, refl, ◌⊎◌, sym, ap, ◌∙◌, subst, inl, inr, String, Bool, true, false, List, [], ◌∷◌, ◌++◌,
  filter, length, take, arith, Option-cases,
}
use kai_daemon.Base.Outcome.{return, raise, os_error, Method, pure, ◌>>=◌, Outcome-cases}
use kai_daemon.Base.Text.{Unicode}
use kai_daemon.Base.Time.{Stamp, aware}
use kai_daemon.State.Episodic.{ThreadEpisode}
use kai_daemon.State.LocalEpisodic.{EpisodicFiles, LocalStore, apply_write, write_local, replay}
use kai_daemon.State.WorkingMemory.{TurnNote, WorkingMemory}
use kai_daemon.Workflows.EpisodicFlush.Compile.{group_turns, duration_seconds}
use kai_daemon.Workflows.EpisodicFlush.Outside.{
  Callables, Flushing, Write, thread_episode, handoff_note, session_record, outside, or_null,
  embed_or_null, emit, note_write, Embedded, episode_prompt, handoff_prompt, prose, summary,
}
use kai_daemon.Workflows.EpisodicFlush.Episodes.{
  compile_thread, compile_threads, name_episode, embed_episode, new_episode, prepend_to, said_in,
}
use kai_daemon.Workflows.EpisodicFlush.Record.{
  synthesize_handoff_note, embed_note, name_note, new_note, prose_of, raise_or,
  compile_session_record, embed_record, name_record, new_record, all_thread_ids, all_topics,
}
use kai_daemon.Workflows.EpisodicFlush.{
  result_of, write_episodes, checkpoint_if, step_two, step_three, then_checkpoint, step_four,
  write_note, step_five, write_record, step_six, episodic_flush,
}
use kai_daemon.Base.Outcome.{bind_raises, bind_goes}
use kai_daemon.Workflows.SessionEnd.{Services, on_services, on_store, local_callables}

replay-snoc :
    (ws : List Write) (w : Write) (f : EpisodicFiles)
    → replay (ws ++ w ∷ []) f ≡ apply_write w (replay ws f)
unfolding replay
replay-snoc [] w f = refl
replay-snoc (v ∷ ws) w f = replay-snoc ws w (apply_write v f)

Faults-cases :
    (l : List Bool)
    → (l ≡ [])
      ⊎ ((rest : List Bool) × (l ≡ true ∷ rest))
      ⊎ ((rest : List Bool) × (l ≡ false ∷ rest))
Faults-cases [] = inl refl
Faults-cases (true ∷ rest) = inr (inl (rest, refl))
Faults-cases (false ∷ rest) = inr (inr (rest, refl))

write_local_cases :
    (w : Write) (d : LocalStore)
    → (((write_local w d).0 ≡ raise os_error) × ((write_local w d).1.files ≡ d.files))
      ⊎ (((write_local w d).0 ≡ return tt) × ((write_local w d).1.files ≡ apply_write w d.files))
unfolding write_local
write_local_cases w d = elim (Faults-cases d.faults) [
  | inl none_left ↦ inr (ground arith, ground arith)
  | inr (inl (rest, fails)) ↦ inl (ground arith, ground arith)
  | inr (inr (rest, works)) ↦ inr (ground arith, ground arith)
]

-- The files are the base with every write so far.
abbrev pub InStep : {O : Type 0} → EpisodicFiles → Flushing (LocalStore × O) → Type 0
InStep base s = s.world.0.files ≡ replay s.written base

module _ {O A : Type 0} (base : EpisodicFiles) where
  abbrev pub Keeps : Method (Flushing (LocalStore × O)) A → Type 0
  Keeps m = (s : Flushing (LocalStore × O)) → InStep base s → InStep base (m s).1

  outside-Keeps : (m : Method O A) → Keeps (outside (on_services m))
  unfolding outside on_services
  outside-Keeps m s h = h

module _ {O A B : Type 0} (base : EpisodicFiles) (m : Method (Flushing (LocalStore × O)) A)
    (f : A → Method (Flushing (LocalStore × O)) B) where
  bind-Keeps : Keeps base m → ((a : A) → Keeps base (f a)) → Keeps base (m >>= f)
  bind-Keeps h k s i = elim (Outcome-cases (m s).0) [
    | inl (e, failed) ↦ subst (λ o. InStep base o.1) (sym (bind_raises m f s e failed)) (h s i)
    | inr (a, went) ↦
        subst (λ o. InStep base o.1) (sym (bind_goes m f s a went)) (k a (m s).1 (h s i))
  ]

module _ (u : Unicode) {O : Type 0} (v : Services O) (base : EpisodicFiles) where
  abbrev c : Callables (LocalStore × O)
  c = local_callables v

  emit-Keeps : (w : Write) → Keeps base (emit u c w)
  unfolding emit local_callables on_store
  emit-Keeps w s h =
      let (r, d) = write_local w s.world.0 in
      elim (write_local_cases w s.world.0) [
        | inl (failed, same) ↦
            subst (λ o. InStep base (note_write u c w (o, (d, s.world.1)) s).1) (sym failed)
              (same ∙ h)
        | inr (went, done) ↦
            subst (λ o. InStep base (note_write u c w (o, (d, s.world.1)) s).1) (sym went)
              (done ∙ ap (apply_write w) h ∙ sym (replay-snoc s.written w base))
      ]

  embed-Keeps : (text : Embedded) → Keeps base (embed_or_null u c text)
  unfolding embed_or_null local_callables outside or_null on_services
  embed-Keeps text s h = elim (Option-cases v.embed) [
    | inl absent ↦ ground arith
    | inr (embed, there) ↦ elim (Outcome-cases (embed text s.world.1).0) [
      | inl (e, failed) ↦ ground arith
      | inr (x, went) ↦ ground arith
    ]
  ]

  compile_thread-Keeps :
      (session_id : String) (at : Stamp) (thread_id : String) (turns : List TurnNote)
      → Keeps base (compile_thread u c session_id at thread_id turns)
  unfolding compile_thread name_episode embed_episode local_callables
  compile_thread-Keeps session_id at thread_id turns =
      bind-Keeps base (outside (c.infer (episode_prompt thread_id turns)))
        (name_episode u c session_id at thread_id turns)
        (outside-Keeps base (v.infer (episode_prompt thread_id turns)))
        (λ response.
          bind-Keeps base (outside c.new_id)
            (embed_episode u c session_id at thread_id turns response) (outside-Keeps base v.new_id)
            (λ id.
              bind-Keeps base (embed_or_null u c (prose (said_in u c response)))
                (λ x. pure (new_episode u c session_id at thread_id turns response id x))
                (embed-Keeps (prose (said_in u c response))) (λ x s h. h)))

  compile_threads-Keeps :
      (session_id : String) (at : Stamp) (threads : List (String × List TurnNote))
      → Keeps base (compile_threads u c session_id at threads)
  unfolding compile_threads prepend_to
  compile_threads-Keeps session_id at [] = λ s h. h
  compile_threads-Keeps session_id at ((thread_id, turns) ∷ threads) =
      bind-Keeps base (compile_thread u c session_id at thread_id turns)
        (prepend_to u c (compile_threads u c session_id at threads))
        (compile_thread-Keeps session_id at thread_id turns)
        (λ e.
          bind-Keeps base (compile_threads u c session_id at threads) (λ es. pure (e ∷ es))
            (compile_threads-Keeps session_id at threads) (λ es s h. h))

  synthesize-Keeps :
      (session_id : String) (episodes : List ThreadEpisode) (turns : List TurnNote) (at : Stamp)
      → Keeps base (synthesize_handoff_note u c session_id episodes turns at)
  unfolding synthesize_handoff_note embed_note name_note local_callables
  synthesize-Keeps session_id episodes turns at =
      bind-Keeps base (outside (c.infer (handoff_prompt episodes turns)))
        (embed_note u c session_id episodes at)
        (outside-Keeps base (v.infer (handoff_prompt episodes turns)))
        (λ response.
          bind-Keeps base (embed_or_null u c (prose (prose_of u c response)))
            (name_note u c session_id episodes at response)
            (embed-Keeps (prose (prose_of u c response)))
            (λ x.
              bind-Keeps base (outside c.new_id)
                (λ id. pure (new_note u c session_id episodes at response x id))
                (outside-Keeps base v.new_id) (λ id s h. h)))

  compile_record-Keeps :
      (wm : WorkingMemory) (ended_at : ℕ) (note_id : String)
      → Keeps base (compile_session_record u c wm ended_at note_id)
  unfolding compile_session_record embed_record name_record local_callables
  compile_record-Keeps wm ended_at note_id =
      bind-Keeps base (raise_or u c (duration_seconds wm.started_at ended_at))
        (embed_record u c wm ended_at note_id) (λ s h. h)
        (λ duration.
          let text =
            summary wm.session_id (length wm.turn_notes) (length (all_thread_ids u c wm))
              (take 5 (all_topics u c wm)) in
          bind-Keeps base (embed_or_null u c text) (name_record u c wm ended_at note_id duration)
            (embed-Keeps text)
            (λ x.
              bind-Keeps base (outside c.new_id)
                (λ id. pure (new_record u c wm ended_at note_id duration x id))
                (outside-Keeps base v.new_id) (λ id s h. h)))

  write_episodes-Keeps : (es : List ThreadEpisode) → Keeps base (write_episodes u c es)
  unfolding write_episodes
  write_episodes-Keeps [] = λ s h. h
  write_episodes-Keeps (e ∷ es) =
      bind-Keeps base (emit u c (thread_episode e)) (λ _. write_episodes u c es)
        (emit-Keeps (thread_episode e)) (λ _. write_episodes-Keeps es)

  checkpoint-Keeps : Keeps base (checkpoint_if u c c.checkpoint)
  unfolding local_callables on_services outside
  checkpoint-Keeps s h = elim (Option-cases v.checkpoint) [
    | inl absent ↦ ground arith
    | inr (m, there) ↦ ground arith
  ]

  -- The flush, from its first step on.
  pub flush-Keeps :
      (wm : WorkingMemory) (ended_at : ℕ) → Keeps base (episodic_flush u c wm ended_at)
  unfolding episodic_flush step_two step_three then_checkpoint step_four write_note step_five
      write_record step_six
  flush-Keeps wm ended_at =
      bind-Keeps base
        (compile_threads u c wm.session_id (aware ended_at) (group_turns [] wm.turn_notes))
        (step_two u c wm ended_at) (compile_threads-Keeps wm.session_id (aware ended_at) _)
        (λ es.
          bind-Keeps base (write_episodes u c es) (step_three u c wm ended_at es)
            (write_episodes-Keeps es)
            (λ _.
              bind-Keeps base (emit u c _) (then_checkpoint u c wm ended_at es) (emit-Keeps _) (λ _.
                bind-Keeps base (checkpoint_if u c c.checkpoint) (step_four u c wm ended_at es)
                  checkpoint-Keeps
                  (λ _.
                    bind-Keeps base
                      (synthesize_handoff_note u c wm.session_id es
                        (filter (λ tn. tn.notable) wm.turn_notes) (aware ended_at))
                      (write_note u c wm ended_at es) (synthesize-Keeps wm.session_id es _ _)
                      (λ note.
                        bind-Keeps base (emit u c (handoff_note note))
                          (step_five u c wm ended_at es note) (emit-Keeps (handoff_note note))
                          (λ _.
                            bind-Keeps base (compile_session_record u c wm ended_at note.id)
                              (write_record u c wm ended_at es note)
                              (compile_record-Keeps wm ended_at note.id)
                              (λ rec.
                                bind-Keeps base (emit u c (session_record rec))
                                  (step_six u c wm ended_at es note rec)
                                  (emit-Keeps (session_record rec))
                                  (λ _.
                                    bind-Keeps base (emit u c _)
                                      (λ _. pure (result_of u c wm es note rec)) (emit-Keeps _)
                                      (λ _ s h. h)))))))))
