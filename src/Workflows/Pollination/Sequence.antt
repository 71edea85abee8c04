-- ===== src/Workflows/Pollination/Sequence.antt =====
-- The loop of a pollination over the candidates, and the signal at its end.
use Prim.Native.String.{◌++◌ as ◌<>◌}
use kai_daemon.Base.{length, ◌⊎◌, Bool, false, ◌+◌, ◌*◌}
use kai_daemon.Base.Time.{hour}
use kai_daemon.State.Types.{inner_life_pipeline}
use kai_daemon.State.Scratch.{ScratchNote, signal, utc, Lifecycle}
use kai_daemon.State.Threads.{ThreadStatus, nascent, active, dormant, archived}
use kai_daemon.Workflows.Pollination.{join}
use kai_daemon.Workflows.Pollination.Perspectives.{IsPassed, Cause}
use kai_daemon.Base.{◌≡◌, String, Bool, true, false, Option, none, some, List, [], ◌∷◌, All, In}
use kai_daemon.Base.Outcome.{Outcome, Exception, return, raise}
use kai_daemon.Base.Dict
use kai_daemon.Base.Text.{Unicode}
use kai_daemon.State.Threads.{Thread, Services}
use kai_daemon.State.Threads.Calls.{Call, call, run, IsConstructed}
use kai_daemon.State.Scratch.{NoteYaml, save_note}
use kai_daemon.Workflows.Pollination.{World, Settings, PollinationResult}
use kai_daemon.Workflows.Pollination.Perspectives.{adds, IsChosen}

module _ (u : Unicode) (env : Services) (yaml : NoteYaml) (I : Type 0) (c : Settings u env yaml I)
    (topic : String) where
  -- The perspectives written, each with the answer that it is made of.
  abbrev pub calls : List (Thread × String) → List Call
  calls [] = []
  calls ((t, response) ∷ done) = adds u env yaml I c topic t response ∷ calls done

  abbrev pub ids : List (Thread × String) → List String
  ids [] = []
  ids ((t, response) ∷ done) = t.id ∷ ids done

  -- The note about these threads, for the evaluation of pushes, which lasts for some hours.
  pub record IsSignal (names : List String) (note : ScratchNote) : Type 0 where
    pub id : note.id ≡ c.note_id
    pub content :
        note.content
        ≡ "Pollinated "
          <> c.str (length names)
          <> " thread(s) from fascination '"
          <> topic
          <> "': "
          <> join names
    pub thread_ids : note.thread_ids ≡ names
    pub type : note.type ≡ signal
    pub target_workflow : note.target_workflow ≡ some "inner_life_push_evaluation"
    pub ttl : note.ttl ≡ some (utc (c.now + c.signal_ttl_hours * hour))
    pub unread : note.acknowledged_by ≡ []
    pub live : note.lifecycle ≡ Lifecycle.active
    pub epistemic_origin : note.epistemic_origin ≡ inner_life_pipeline

  -- A thread was passed over, or written to.
  abbrev pub IsAccounted : List (Thread × String) → Thread → Type 0
  IsAccounted done t =
      IsPassed u env yaml I c topic t ⊎ ((response : String) × In (t, response) done)

  module _ (listed : List Thread) where
    abbrev pub Chosen : List (Thread × String) → Type 0
    Chosen = All (λ d. IsChosen u env yaml I c topic listed d.0)

    -- Where the loop over these threads stands after the perspectives `done`.
    pub data Trail (ts : List Thread) (w : World u env yaml I)
        : Outcome (List String) → World u env yaml I → Type 0 where
      finished :
          (done : List (Thread × String)) (w' : World u env yaml I)
          → Chosen done
          → All (IsAccounted done) ts
          → w'.threads ≡ run env (calls done) w.threads
          → w'.scratch ≡ w.scratch
          → Trail ts w (return (ids done)) w'
      broken_off :
          (done : List (Thread × String)) (e : Exception) (w' : World u env yaml I)
          → Cause u env yaml I c topic e
          → Chosen done
          → w'.threads ≡ run env (calls done) w.threads
          → w'.scratch ≡ w.scratch
          → Trail ts w (raise e) w'

    abbrev Stands :
        List Thread → World u env yaml I → Outcome (List String) × World u env yaml I → Type 0
    Stands ts w o = Trail ts w o.0 o.1

    abbrev id_of : Thread → Option String → Option String
    id_of t none = none
    id_of t (some response) = some t.id

    -- What a visit did: nothing, or one perspective.
    abbrev Did : Thread → Option String → World u env yaml I → World u env yaml I → Type 0
    Did t none w w₁ = IsPassed u env yaml I c topic t × (w₁.threads ≡ w.threads)
    Did t (some response) w w₁ =
        IsChosen u env yaml I c topic listed t
        × (w₁.threads ≡ call env (adds u env yaml I c topic t response) w.threads)

    -- One signal about the threads that were written to is saved, or none where there are none.
    abbrev pub Signalled :
        List (Thread × String)
        → World u env yaml I
        → World u env yaml I
        → PollinationResult
        → Type 0
    Signalled [] w w' r = (w'.scratch ≡ w.scratch) × (r.signal_written ≡ false)
    Signalled (d ∷ done) w w' r =
        (r.signal_written ≡ true)
        × ((note : ScratchNote) × IsSignal (ids (d ∷ done)) note
            × (w'.scratch ≡ save_note yaml c.note_id note w.scratch))

    -- How it ends after the perspectives `done` on threads of these.
    abbrev pub Closing :
        List (Thread × String)
        → List Thread
        → World u env yaml I
        → Outcome PollinationResult
        → World u env yaml I
        → Type 0
    Closing done ts w (raise e) w' = Cause u env yaml I c topic e × (w'.scratch ≡ w.scratch)
    Closing done ts w (return r) w' =
        Signalled done w w' r
        × (r.threads_pollinated ≡ ids done)
        × (r.skipped_no_fascination ≡ false)
        × All (IsAccounted done) ts

    pub record Pollinated (ts : List Thread) (w : World u env yaml I)
        (o : Outcome PollinationResult) (w' : World u env yaml I) : Type 0 where
      pub done : List (Thread × String)
      pub chosen : Chosen done
      pub perspectives : w'.threads ≡ run env (calls done) w.threads
      pub constructed : All IsConstructed (calls done)
      pub closing : Closing done ts w o w'

  abbrev pub is_open : ThreadStatus → Bool
  is_open nascent = false
  is_open active = true
  is_open dormant = true
  is_open archived = false
