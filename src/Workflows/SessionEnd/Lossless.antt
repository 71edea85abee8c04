-- ===== src/Workflows/SessionEnd/Lossless.antt =====
-- What is left of a session when it ends: its record in the local files, or its working memory.
use kai_daemon.Base.{
  ℕ, ◌≡◌, refl, sym, ap, ◌∙◌, subst, inl, inr, ◌⊎◌, String, if◌then◌else◌, true, false, Option,
  or_else, map, filter, ◌==◌, eq_iff, arith, Bool-cases, none, some, List, [], ◌∷◌, ◌++◌, All,
}
use kai_daemon.Base.Outcome.{Outcome, Exception, return, raise, Method}
use kai_daemon.Base.Text.{Unicode}
use kai_daemon.State.LocalEpisodic.{
  EpisodicFiles, LocalStore, IndexLine, thread_row, artifact_row, inquiry_row, cooccurrence_rows,
  apply_write, replay,
}
use kai_daemon.State.WorkingMemory.{WorkingMemory}
use kai_daemon.Workflows.EpisodicFlush.Outside.{
  Flushing, Write, thread_episode, cooccurrence, handoff_note, session_record, session_thread_index,
}
use kai_daemon.Workflows.EpisodicFlush.FirstSeen.{first_seen, threads_in, noted_threads}
use kai_daemon.Base.Dict
use kai_daemon.Base.Dict.{Dict, get-put}
use kai_daemon.Base.Time.{aware}
use mathlib.Core.List.{append_assoc, append-nil}
use kai_daemon.State.Episodic.{ThreadEpisode, HandoffNote, SessionRecord}
use kai_daemon.Workflows.EpisodicFlush.{EpisodicFlushResult}
use kai_daemon.Workflows.EpisodicFlush.Order.{
  Flushed, complete, partial, IsBeforeIndex, episodic_flush-Flushed,
}
use kai_daemon.Workflows.SessionEnd.{
  RelationalUpdateResult, SessionEndResult, started_result, Assistant, Services, local_callables,
  make_episodic_flush_fn, run_session_end, end_session, collect_flush, collect_relational,
}
use kai_daemon.Workflows.SessionEnd.Replay.{flush-Keeps}

apply_write-index :
    (w : Write) (f : EpisodicFiles)
    → IsBeforeIndex w
    → (apply_write w f).session_thread_index_lines ≡ f.session_thread_index_lines
unfolding apply_write
apply_write-index (thread_episode e) f h = refl
apply_write-index (cooccurrence id tids aids iids) f h = refl
apply_write-index (handoff_note n) f h = refl
apply_write-index (session_record r) f h = refl
apply_write-index (session_thread_index id tids at) f h = elim h [ ]

replay-index :
    (ws : List Write) (f : EpisodicFiles)
    → All IsBeforeIndex ws
    → (replay ws f).session_thread_index_lines ≡ f.session_thread_index_lines
unfolding replay
replay-index [] f h = refl
replay-index (w ∷ ws) f h = replay-index ws (apply_write w f) h.1 ∙ apply_write-index w f h.0

flush_succeeded_iff :
    (flush : Outcome EpisodicFlushResult) (r : SessionEndResult)
    → r.flush_succeeded ≡ false
    → ((e : Exception) × (flush ≡ raise e) × ((collect_flush flush r).flush_succeeded ≡ false))
      ⊎ ((x : EpisodicFlushResult) × (flush ≡ return x)
          × ((collect_flush flush r).flush_succeeded ≡ true))
unfolding collect_flush
flush_succeeded_iff (return x) r h = inr (x, refl, refl)
flush_succeeded_iff (raise e) r h = inl (e, refl, h)

collect_relational_fails :
    (o : Outcome RelationalUpdateResult) (r : SessionEndResult)
    → r.flush_succeeded ≡ false
    → (collect_relational o r).flush_succeeded ≡ false
unfolding collect_relational
collect_relational_fails (return x) r h = h
collect_relational_fails (raise e) r h = h

Flushed-raise :
    (ids : List String) (wm : WorkingMemory) (ended_at : ℕ) (o : Outcome EpisodicFlushResult)
    (out : List Write) (e : Exception)
    → Flushed ids wm ended_at o out
    → o ≡ raise e
    → All IsBeforeIndex out
Flushed-raise ids wm ended_at _ _ e (complete es note rec r _ _ _ _ _) failed = cc
Flushed-raise ids wm ended_at _ _ e (partial x out h) failed = h

-- The files have the session: an episode for each thread with notable turns, behind those of that
-- thread, one handoff note on these threads, one session record that names the note and all
-- threads of the session, its co-occurrences, and one new line of the thread index.
pub record Recorded (wm : WorkingMemory) (ended_at : ℕ) (base files : EpisodicFiles) : Type 0 where
  pub written : List ThreadEpisode
  pub note : HandoffNote
  pub session : SessionRecord
  pub threads : map (λ e. e.thread_id) written ≡ first_seen (noted_threads wm.turn_notes)
  pub note_threads : note.thread_ids ≡ map (λ e. e.thread_id) written
  pub names_note : session.handoff_note_id ≡ some note.id
  pub names_threads : session.thread_ids ≡ first_seen (threads_in wm.turn_notes)
  pub episodes :
      (k : String)
      → or_else (Dict.get files.thread_episodes k) []
        ≡ or_else (Dict.get base.thread_episodes k) [] ++ filter (λ e. e.thread_id == k) written
  pub rows :
      files.cooccurrence_db
      ≡ base.cooccurrence_db
        ++ (map (thread_row wm.session_id) (first_seen (threads_in wm.turn_notes))
            ++ map (artifact_row wm.session_id) wm.artifacts_this_session
            ++ map (inquiry_row wm.session_id) wm.commissioned_inquiries)
  pub notes : files.handoff_notes ≡ base.handoff_notes ++ note ∷ []
  pub sessions : files.session_records ≡ base.session_records ++ session ∷ []
  pub index :
      files.session_thread_index_lines
      ≡ base.session_thread_index_lines
        ++ record {
          session_id = wm.session_id;
          thread_ids = first_seen (threads_in wm.turn_notes);
          occurred_at = aware ended_at;
        }
          ∷ []

replay-append :
    (ws vs : List Write) (f : EpisodicFiles) → replay (ws ++ vs) f ≡ replay vs (replay ws f)
unfolding replay
replay-append [] vs f = refl
replay-append (w ∷ ws) vs f = replay-append ws vs (apply_write w f)

-- Episodes change no other file.
record IsAside (f g : EpisodicFiles) : Type 0 where
  rows : g.cooccurrence_db ≡ f.cooccurrence_db
  notes : g.handoff_notes ≡ f.handoff_notes
  sessions : g.session_records ≡ f.session_records
  index : g.session_thread_index_lines ≡ f.session_thread_index_lines

episodes-IsAside :
    (es : List ThreadEpisode) (f : EpisodicFiles) → IsAside f (replay (map thread_episode es) f)
unfolding replay apply_write
episodes-IsAside [] f = record { rows = refl; notes = refl; sessions = refl; index = refl }
episodes-IsAside (e ∷ es) f =
    let h = episodes-IsAside es (apply_write (thread_episode e) f) in
    record { rows = h.rows; notes = h.notes; sessions = h.sessions; index = h.index }

episode_step :
    (d : Dict (List ThreadEpisode)) (e : ThreadEpisode) (tid k : String) (m : List ThreadEpisode)
    → or_else (Dict.get (Dict.put d tid (or_else (Dict.get d tid) [] ++ e ∷ [])) k) [] ++ m
      ≡ or_else (Dict.get d k) [] ++ (if tid == k then e ∷ m else m)
episode_step d e tid k m =
    ap (λ o. or_else o [] ++ m) (get-put d tid k (or_else (Dict.get d tid) [] ++ e ∷ []))
    ∙ elim (Bool-cases (tid == k)) [
      | inl same ↦
          let named : tid ≡ k = ground (arith, eq_iff tid k) in
          rw same (
            ap (λ j. (or_else (Dict.get d j) [] ++ e ∷ []) ++ m) named
            ∙ append_assoc (or_else (Dict.get d k) []) (e ∷ []) m)
      | inr other ↦ rw other refl
    ]

episodes-get :
    (es : List ThreadEpisode) (f : EpisodicFiles) (k : String)
    → or_else (Dict.get (replay (map thread_episode es) f).thread_episodes k) []
      ≡ or_else (Dict.get f.thread_episodes k) [] ++ filter (λ e. e.thread_id == k) es
unfolding replay apply_write filter
episodes-get [] f k = sym (append-nil _)
episodes-get (e ∷ es) f k =
    episodes-get es (apply_write (thread_episode e) f) k
    ∙ episode_step f.thread_episodes e e.thread_id k (filter (λ x. x.thread_id == k) es)

Flushed-Recorded :
    (wm : WorkingMemory) (ended_at : ℕ) (base : EpisodicFiles) (o : Outcome EpisodicFlushResult)
    (out : List Write) (r : EpisodicFlushResult)
    → Flushed (first_seen (threads_in wm.turn_notes)) wm ended_at o out
    → o ≡ return r
    → Recorded wm ended_at base (replay out base)
unfolding replay apply_write cooccurrence_rows
Flushed-Recorded wm ended_at base _ _ r (partial x out h) went = cc
Flushed-Recorded wm ended_at base _ _ r (complete es note session q named same fits_note fits_ids _)
      went =
    let ids = first_seen (threads_in wm.turn_notes) in
    let rest =
      cooccurrence wm.session_id ids wm.artifacts_this_session wm.commissioned_inquiries
      ∷ handoff_note note
      ∷ session_record session
      ∷ session_thread_index wm.session_id ids (aware ended_at)
      ∷ [] in
    let h = episodes-IsAside es base in
    let line : IndexLine = record {
      session_id = wm.session_id;
      thread_ids = ids;
      occurred_at = aware ended_at;
    } in
    subst (Recorded wm ended_at base) (sym (replay-append (map thread_episode es) rest base))
      (record {
        written = es;
        note = note;
        session = session;
        threads = named;
        note_threads = same;
        names_note = fits_note;
        names_threads = fits_ids;
        episodes = λ k. episodes-get es base k;
        rows =
            ap
              (λ l.
                l
                ++ cooccurrence_rows wm.session_id ids wm.artifacts_this_session
                    wm.commissioned_inquiries)
              h.rows;
        notes = ap (λ l. l ++ note ∷ []) h.notes;
        sessions = ap (λ l. l ++ session ∷ []) h.sessions;
        index = ap (λ l. l ++ line ∷ []) h.index;
      })

module _ (u : Unicode) {R O : Type 0} (v : Services O)
    (relational_update_fn : WorkingMemory → Method R RelationalUpdateResult) where
  abbrev pub Local : Type 0
  Local = Flushing (LocalStore × O)

  abbrev pub ended :
      ℕ
      → Assistant relational_update_fn (make_episodic_flush_fn u v)
      → Outcome SessionEndResult × Assistant relational_update_fn (make_episodic_flush_fn u v)
  ended = end_session relational_update_fn (make_episodic_flush_fn u v)

  -- How a session ended: with its record complete, or with its memory kept.
  pub data Ending (wm : WorkingMemory) (ended_at : ℕ) (base : EpisodicFiles)
      : Option WorkingMemory → EpisodicFiles → Type 0 where
    recorded :
        (files : EpisodicFiles)
        → Recorded wm ended_at base files
        → Ending wm ended_at base none files
    retained :
        (files : EpisodicFiles)
        → files.session_thread_index_lines ≡ base.session_thread_index_lines
        → Ending wm ended_at base (some wm) files

  abbrev flushed : WorkingMemory → ℕ → Local → Outcome EpisodicFlushResult × Local
  flushed = make_episodic_flush_fn u v

  -- The end of a session loses nothing: on the local store, from a flush that has written nothing
  -- yet, either the working memory is cleared and the files are those of before with the complete
  -- record of the session behind, or the working memory is kept and the thread index has no new line. So
  -- it is whatever the relational update, the model, the embeddings and the file system do.
  pub end_session-Ending :
      (wm : WorkingMemory) (ended_at : ℕ) (r : R) (f : Local)
      → f.written ≡ []
      → let a' = (ended ended_at (record { working_memory = some wm; outer = (r, f) })).1 in
        Ending wm ended_at f.world.0.files a'.working_memory a'.outer.1.world.0.files
  unfolding end_session run_session_end make_episodic_flush_fn replay
  end_session-Ending wm ended_at r f fresh =
      let base = f.world.0.files in
      let o = flushed wm ended_at f in
      let before =
        collect_relational (relational_update_fn wm r).0 (started_result wm.session_id) in
      let (out, grown, fl) = episodic_flush-Flushed u (local_callables v) wm ended_at f in
      let all_written : o.1.written ≡ out = grown ∙ ap (λ l. l ++ out) fresh in
      let in_step : base ≡ replay f.written base = ap (λ l. replay l base) (sym fresh) in
      let same_files : o.1.world.0.files ≡ replay out base =
        flush-Keeps u v base wm ended_at f in_step ∙ ap (λ l. replay l base) all_written in
      elim (flush_succeeded_iff o.0 before (collect_relational_fails _ _ refl)) [
        | inl (e, failed, no_flush) ↦
            subst (λ b. Ending wm ended_at base (if b then none else some wm) o.1.world.0.files)
              (sym no_flush)
              (retained o.1.world.0.files (
                ap (λ fs. fs.session_thread_index_lines) same_files
                ∙ replay-index out base (Flushed-raise _ wm ended_at o.0 out e fl failed)))
        | inr (x, went, flushed_all) ↦
            subst (λ b. Ending wm ended_at base (if b then none else some wm) o.1.world.0.files)
              (sym flushed_all)
              (recorded o.1.world.0.files (
                subst (Recorded wm ended_at base) (sym same_files)
                  (Flushed-Recorded wm ended_at base o.0 out x fl went)))
      ]
