-- ===== src/Workflows/EpisodicFlush/Outside.antt =====
-- The callables that `episodic_flush` is given.
use kai_daemon.Base.{ℕ, String, Option, none, some, List, [], ◌∷◌, ◌++◌}
use kai_daemon.Base.Outcome.{Outcome, return, raise, Method, pure}
use kai_daemon.Base.Text.{Unicode}
use kai_daemon.Base.Time.{Stamp}
use kai_daemon.State.Episodic.{ThreadEpisode, HandoffNote, SessionRecord}
use kai_daemon.State.WorkingMemory.{TurnNote}
use kai_daemon.Workflows.EpisodicFlush.Compile.{Section}

-- What the two prompts' templates are filled with.
pub data Prompt : Type 0 where
  episode_prompt : String → List TurnNote → Prompt
  handoff_prompt : List ThreadEpisode → List TurnNote → Prompt

-- A text to embed, and the summary of a session by what it is made of.
pub data Embedded : Type 0 where
  prose : String → Embedded
  summary : String → ℕ → ℕ → List String → Embedded

-- A call of one of the five functions that write.
pub data Write : Type 0 where
  thread_episode : ThreadEpisode → Write
  cooccurrence : String → List String → List String → List String → Write
  handoff_note : HandoffNote → Write
  session_record : SessionRecord → Write
  session_thread_index : String → List String → Stamp → Write

-- The callables, on a state of what is outside; each may raise. `checkpoint` is the call of
-- `preemption_ctx.cooperate`, `find_sections` is `re.finditer` with the pattern of the labels, and
-- `str` is Python's.
pub record Callables (W : Type 0) : Type 0 where
  pub infer : Prompt → Method W String
  pub embed : Option (Embedded → Method W (Option String))
  pub write : Write → Method W Unit
  pub checkpoint : Option (Method W Unit)
  pub new_id : Method W String
  pub find_sections : String → List (Section × String)
  pub str : ℕ → String

-- What is outside, and the writes that returned, in their order.
pub record Flushing (W : Type 0) : Type 0 where
  pub world : W
  pub written : List Write

module _ {W A : Type 0} where
  -- a call that writes nothing
  unfoldable pub outside : Method W A → Method (Flushing W) A
  outside m s = let (r, w) = m s.world in (r, record s { world = w })

  -- `try: ... except Exception: return None`
  unfoldable pub or_null : Method W (Option A) → Method W (Option A)
  or_null m w = elim (m w).0 [ return v ↦ (return v, (m w).1) | raise e ↦ (return none, (m w).1) ]

module _ (u : Unicode) {W : Type 0} (c : Callables W) where
  -- one call of a function that writes
  abbrev pub note_write : Write → Outcome {0} Unit × W → Flushing W → Outcome {0} Unit × Flushing W
  note_write w (return x, world) s =
      (return x, record { world = world; written = s.written ++ w ∷ [] })
  note_write w (raise e, world) s = (raise e, record { world = world; written = s.written })

  unfoldable pub emit : Write → Method (Flushing W) Unit
  emit w s = note_write w (c.write w s.world) s

  unfoldable pub embed_or_null : Embedded → Method (Flushing W) (Option String)
  unfolding outside or_null
  embed_or_null text = elim c.embed [
    | none ↦ pure none
    | some embed ↦ outside (or_null (embed text))
  ]
