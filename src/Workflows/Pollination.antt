-- ===== src/Workflows/Pollination.antt =====
-- src/kai_daemon/workflows/inner_life_thread_pollination.py: an insight is noted on the threads
-- that it is relevant to, and signalled. IntegrationRoute and IntegrationResult are of
-- src/kai_daemon/workflows/daemon_integration.py.
pub mod Perspectives
pub mod Sequence
pub mod Tests
use Prim.Native.String.{◌++◌ as ◌<>◌}
use kai_daemon.Base.{
  ℕ, ◌+◌, ◌*◌, String, Bool, true, false, not, ◌||◌, ◌&&◌, Option, none, some, List, [], ◌∷◌,
  filter, length, leb, if◌then◌else◌,
}
use kai_daemon.Base.Outcome.{Outcome, return, raise, Method, pure, continue, ◌>>=◌}
use kai_daemon.Base.Text.{Unicode, chars, joined, strip, to_lower, to_upper, same_text, first_token}
use kai_daemon.Base.Time.{Stamp, aware, naive, malformed, hour}
use kai_daemon.State.Types.{inner_life_pipeline}
use kai_daemon.State.Threads.{
  Thread, DaemonPerspective, ThreadStatus, may_write, new_perspective, Services, ThreadStore,
  list_all, add_perspective,
}
use kai_daemon.State.Scratch.{
  ScratchNote, signal, utc, Lifecycle, new_note, NoteYaml, ScratchStore, write,
}

pub data IntegrationRoute : Type 0 where
  new_fascination develops_existing aesthetic_reaction inert : IntegrationRoute

pub record IntegrationResult : Type 0 where
  pub route : IntegrationRoute
  pub fascination_topic : Option String
  pub lifecycle_promoted : Bool
  pub thought_content : String

pub record PollinationResult : Type 0 where
  pub threads_pollinated : List String
  pub signal_written : Bool
  pub skipped_no_fascination : Bool

-- What the two prompts are filled with.
pub data Prompt : Type 0 where
  relevance_prompt : String → Thread → Prompt
  reflection_prompt : String → String → Prompt

-- The perspective was written no earlier than so many hours before now; a time without an offset is
-- in UTC, and one that does not parse is passed over.
unfoldable pub is_recent : ℕ → ℕ → Stamp → Bool
is_recent now dedup_hours (aware t) = leb now (t + dedup_hours * hour)
is_recent now dedup_hours (naive t) = leb now (t + dedup_hours * hour)
is_recent now dedup_hours (malformed text) = false

unfoldable pub same_topic : Unicode → String → String → Bool
unfolding chars to_lower same_text
same_topic u a b = same_text (to_lower u (chars a)) (to_lower u (chars b))

-- the loop of `_is_duplicate`
unfoldable pub has_recent : Unicode → String → ℕ → ℕ → List DaemonPerspective → Bool
unfolding same_topic is_recent
has_recent u topic now dedup_hours [] = false
has_recent u topic now dedup_hours (p ∷ ps) =
    (same_topic u p.from_fascination topic && is_recent now dedup_hours p.written_at)
    || has_recent u topic now dedup_hours ps

unfoldable pub is_duplicate : Unicode → Thread → String → ℕ → ℕ → Bool
unfolding has_recent
is_duplicate u thread topic now dedup_hours =
    has_recent u topic now dedup_hours thread.daemon_perspectives

-- `_is_relevant` of the model's answer
unfoldable pub says_relevant : Unicode → String → Bool
unfolding chars strip to_upper first_token same_text
says_relevant u response =
    same_text (first_token u.is_space (to_upper u (strip u.is_space (chars response))))
      (chars "RELEVANT")

-- the candidates are the active and the dormant threads
abbrev pub is_candidate : Thread → Bool
is_candidate thread = may_write thread.status

-- `", ".join(...)`
unfoldable pub join : List String → String
join [] = ""
join (x ∷ []) = x
join (x ∷ y ∷ rest) = x <> ", " <> join (y ∷ rest)

-- The fascination that a result carries to other threads.
abbrev pub topic_of : IntegrationResult → Option String
topic_of r = elim r.route [
  | new_fascination ↦ r.fascination_topic
  | develops_existing ↦ r.fascination_topic
  | aesthetic_reaction ↦ none
  | inert ↦ none
]

module _ (u : Unicode) (env : Services) (yaml : NoteYaml) (I : Type 0) where
  -- The stores, and the state of the model.
  pub record World : Type 0 where
    pub threads : ThreadStore env
    pub scratch : ScratchStore yaml
    pub model : I

  -- The arguments beside the stores, with what is read from outside: `now` is in UTC, `touched` is
  -- the clock as `add_perspective` reads it, and `str` is Python's.
  pub record Settings : Type 0 where
    pub infer : Prompt → Method I String
    pub glob : List env.threads.Document → List env.threads.Document
    pub now : ℕ
    pub touched : Stamp
    pub dedup_hours : ℕ
    pub signal_ttl_hours : ℕ
    pub session_id : String
    pub note_id : String
    pub note_time : Stamp
    pub str : ℕ → String

  unfoldable pub ask : Settings → Prompt → Method World String
  ask c p w = let (r, model) = c.infer p w.model in (r, record w { model = model })

  abbrev pub perspective_of : Settings → String → Thread → String → DaemonPerspective
  perspective_of c topic t response = record {
    content = joined (strip u.is_space (chars response));
    from_fascination = topic;
    written_at = aware c.now;
    thread_status_at_writing = t.status;
    surfaced = false;
  }

  -- `thread_store.add_perspective(...)` and `pollinated.append(...)`
  abbrev pub after_add :
      Thread → Outcome Thread × ThreadStore env → World → Outcome (Option String) × World
  after_add t (return u, threads) w = (return (some t.id), record w { threads = threads })
  after_add t (raise e, threads) w = (raise e, record w { threads = threads })

  unfoldable pub write_perspective :
      Settings → String → Thread → String → Method World (Option String)
  unfolding new_perspective add_perspective chars strip
  write_perspective c topic t response w =
      after_add t
        (continue (new_perspective (perspective_of c topic t response))
          (λ p. add_perspective env t.id p c.touched) w.threads)
        w

  unfoldable pub reflect :
      Settings → String → String → Thread → String → Method World (Option String)
  unfolding ask write_perspective says_relevant
  reflect c topic thought t response =
      if says_relevant u response
      then ask c (reflection_prompt thought topic) >>= write_perspective c topic t
      else pure none

  -- the body of the loop: the id of the thread, if it is pollinated
  unfoldable pub visit : Settings → String → String → Thread → Method World (Option String)
  unfolding is_duplicate ask reflect
  visit c topic thought t =
      if is_duplicate u t topic c.now c.dedup_hours
      then pure none
      else ask c (relevance_prompt topic t) >>= reflect c topic thought t

  abbrev pub add_id : Option String → List String → List String
  add_id none ids = ids
  add_id (some id) ids = id ∷ ids

  unfoldable pub and_then : Method World (List String) → Option String → Method World (List String)
  and_then rest id = rest >>= λ ids. pure (add_id id ids)

  unfoldable pub visit_all : Settings → String → String → List Thread → Method World (List String)
  unfolding visit and_then
  visit_all c topic thought [] = pure []
  visit_all c topic thought (t ∷ ts) =
      visit c topic thought t >>= and_then (visit_all c topic thought ts)

  abbrev pub signal_of : Settings → String → List String → ScratchNote
  signal_of c topic ids = record {
    id = c.note_id;
    workflow_id = "inner_life_thread_pollination";
    session_id = c.session_id;
    timestamp = c.note_time;
    content =
        "Pollinated "
        <> c.str (length ids)
        <> " thread(s) from fascination '"
        <> topic
        <> "': "
        <> join ids;
    type = signal;
    target_workflow = some "inner_life_push_evaluation";
    ttl = some (utc (c.now + c.signal_ttl_hours * hour));
    acknowledged_by = [];
    lifecycle = Lifecycle.active;
    epistemic_origin = inner_life_pipeline;
    thread_ids = ids;
  }

  abbrev pub after_signal :
      List String
      → Outcome ScratchNote × ScratchStore yaml
      → World
      → Outcome PollinationResult × World
  after_signal ids (raise e, scratch) w = (raise e, record w { scratch = scratch })
  after_signal ids (return n, scratch) w = (
    return (record {
      threads_pollinated = ids;
      signal_written = true;
      skipped_no_fascination = false;
    }),
    record w { scratch = scratch },
  )

  -- step 4
  unfoldable pub emit_signal : Settings → String → List String → Method World PollinationResult
  unfolding new_note write join
  emit_signal c topic [] w = (
    return (record {
      threads_pollinated = [];
      signal_written = false;
      skipped_no_fascination = false;
    }),
    w,
  )
  emit_signal c topic (id ∷ ids) w =
      after_signal (id ∷ ids)
        (continue (new_note (signal_of c topic (id ∷ ids))) (write yaml) w.scratch) w

  unfoldable pub pollinate :
      Settings → String → String → Outcome (List Thread) → Method World PollinationResult
  unfolding visit_all emit_signal
  pollinate c topic thought (raise e) w = (raise e, w)
  pollinate c topic thought (return threads) w =
      (visit_all c topic thought (filter is_candidate threads) >>= emit_signal c topic) w

  unfoldable pub pollinate_from : Settings → String → Option String → Method World PollinationResult
  unfolding pollinate list_all
  pollinate_from c thought none w = (
    return
        (record { threads_pollinated = []; signal_written = false; skipped_no_fascination = true }),
    w,
  )
  pollinate_from c thought (some topic) w =
      pollinate c topic thought (list_all env c.glob w.threads) w

  unfoldable pub inner_life_thread_pollination :
      Settings → IntegrationResult → Method World PollinationResult
  unfolding pollinate_from
  inner_life_thread_pollination c result = pollinate_from c result.thought_content (topic_of result)
