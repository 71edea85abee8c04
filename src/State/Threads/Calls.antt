-- ===== src/State/Threads/Calls.antt =====
-- Sequences of calls on the thread store, and what every call keeps.
use kai_daemon.Base.{
  ◌≡◌, String, true, ◌==◌, Option, none, some, List, [], ◌∷◌, if◌then◌else◌, Bool-cases, inl, inr,
}
use kai_daemon.Base.Dict
use kai_daemon.Base.Dict.{Dict, get-put}
use kai_daemon.Base.Outcome.{return}
use kai_daemon.Base.Time.{Stamp}
use kai_daemon.State.Threads.{
  ThreadStatus, Thread, PickupNote, DaemonPerspective, HandoffNote, IsValid, may_write, Services,
  ThreadStore, thread_at, parse_thread, create, update, transition, add_perspective,
  add_handoff_note, write_pickup_note, fill_time_gap_quality,
}

-- The calls that write.
pub data Call : Type 0 where
  creates : Thread → Call
  updates : Thread → Call
  transitions : String → ThreadStatus → Stamp → Stamp → Call
  adds_perspective : String → DaemonPerspective → Stamp → Call
  adds_handoff_note : String → HandoffNote → Stamp → Call
  writes_pickup_note : PickupNote → Call
  fills_time_gap_quality : String → String → Call

module _ (env : Services) where
  -- The store after a call, whether it returned or raised.
  unfoldable pub call : Call → ThreadStore env → ThreadStore env
  unfolding create update transition add_perspective add_handoff_note write_pickup_note
      fill_time_gap_quality
  call (creates t) s = (create env t s).1
  call (updates t) s = (update env t s).1
  call (transitions k new touched now) s = (transition env k new touched now s).1
  call (adds_perspective k p now) s = (add_perspective env k p now s).1
  call (adds_handoff_note k n now) s = (add_handoff_note env k n now s).1
  call (writes_pickup_note n) s = (write_pickup_note env n s).1
  call (fills_time_gap_quality k q) s = (fill_time_gap_quality env k q s).1

  unfoldable pub run : List Call → ThreadStore env → ThreadStore env
  unfolding call
  run [] s = s
  run (c ∷ cs) s = run cs (call c s)

-- The models that a caller passes were constructed, so their validators ran.
abbrev pub IsConstructed : Call → Type 0
IsConstructed (creates t) = IsValid t
IsConstructed (updates t) = IsValid t
IsConstructed (adds_perspective k p now) = may_write p.thread_status_at_writing ≡ true
IsConstructed _ = Unit

module _ (env : Services) where
  -- Each thread file that reads holds the thread that it is named for.
  abbrev pub IsSound : ThreadStore env → Type 0
  IsSound s = (k : String) (t : Thread) → thread_at env s.threads k ≡ return t → t.id ≡ k

  pub thread_at-put :
      (d : Dict env.threads.Document) (t : Thread) (k : String)
      → IsValid t
      → thread_at env (Dict.put d t.id (env.threads.dump t)) k
        ≡ (if t.id == k then return t else thread_at env d k)
  unfolding thread_at
  thread_at-put d t k h = elim (Bool-cases (t.id == k)) [
    | inl same ↦ simp (get-put, same, env.threads.parse-dump t h)
    | inr other ↦ simp (get-put, other)
  ]

  pub thread_at-IsValid :
      (d : Dict env.threads.Document) (k : String) (t : Thread)
      → thread_at env d k ≡ return t
      → IsValid t
  unfolding thread_at
  thread_at-IsValid d k t h = by_file (Dict.get d k) h
    where
      by_file : (o : Option env.threads.Document) → parse_thread env o ≡ return t → IsValid t
      by_file none e = cc
      by_file (some file) e = env.threads.parse-valid file t e
