-- ===== src/State/Threads/Transitions.antt =====
-- What `transition` does, and that archiving is for good.
use kai_daemon.Base.{
  ◌≡◌, refl, some, none, String, true, false, ◌==◌, arith, All, if◌then◌else◌, Bool-cases, inl, inr,
  ◌⊎◌, List,
}
use kai_daemon.Base.Outcome.{Exception, return, raise, Outcome-cases, value_error}
use kai_daemon.Base.Time.{Stamp}
use kai_daemon.State.Threads.{
  ThreadStatus, nascent, active, dormant, archived, Thread, Services, ThreadStore, thread_at,
  read_thread, write_thread, transition, moved, valid_transition,
}
use kai_daemon.State.Threads.Calls.{
  Call, run, IsConstructed, IsSound, thread_at-put, thread_at-IsValid,
}
use kai_daemon.State.Threads.History.{Walk, stays, moves}
use kai_daemon.State.Threads.Effects.{Spares, run-Later}

-- The thread under another status: touched, and dated as dormant from its coming to rest until it
-- is active again; all else is as it was.
pub record Moved (new_status : ThreadStatus) (touched now : Stamp) (t t' : Thread) : Type 0 where
  pub status : t'.status ≡ new_status
  pub last_touched : t'.last_touched ≡ touched
  pub rests : new_status ≡ dormant → t'.dormant_since ≡ some now
  pub wakes : t.status ≡ dormant → new_status ≡ active → t'.dormant_since ≡ none
  pub gone : new_status ≡ archived → t'.dormant_since ≡ t.dormant_since
  pub starts : t.status ≡ nascent → t'.dormant_since ≡ t.dormant_since
  pub rest : t' ≡ record t {
    status = t'.status;
    last_touched = t'.last_touched;
    dormant_since = t'.dormant_since;
  }

moved-Moved :
    (new_status : ThreadStatus) (touched now : Stamp) (t : Thread)
    → valid_transition t.status new_status ≡ true
    → Moved new_status touched now t (moved new_status touched now t)
unfolding moved valid_transition
moved-Moved new_status touched now t v = record {
  status = refl;
  last_touched = refl;
  rests = λ e. ground arith;
  wakes = λ d e. rw (d, e) refl;
  gone = λ e. ground arith;
  starts = λ e. ground arith;
  rest = refl;
}

module _ (env : Services) where
  -- A transition that the table allows: what it returns, and what is read afterwards.
  pub record Transitions (k : String) (new_status : ThreadStatus) (touched now : Stamp)
      (s : ThreadStore env) (t : Thread) : Type 0 where
    pub after : Thread
    pub moved : Moved new_status touched now t after
    pub returned : (transition env k new_status touched now s).0 ≡ return after
    pub files :
        (j : String)
        → thread_at env (transition env k new_status touched now s).1.threads j
          ≡ (if k == j then return after else thread_at env s.threads j)
    pub notes : (transition env k new_status touched now s).1.pickup_notes ≡ s.pickup_notes
    pub questions : (transition env k new_status touched now s).1.questions ≡ s.questions
    pub handoffs : (transition env k new_status touched now s).1.handoffs ≡ s.handoffs

  -- In a store where each thread file holds the thread that it is named for, a transition of a
  -- thread that cannot be read raises the error of the read; one that the table does not allow
  -- raises a ValueError; both leave the store as it was. One that it allows returns the thread
  -- under the new status, touched, and dated as dormant from now if it comes to rest, undated if it
  -- is active again and else as it was; all else of it is unchanged, and that is what is read from
  -- then on under its id; every other thread reads as before, and neither the pickup notes nor the
  -- collections change.
  pub transition_lem :
      (k : String) (new_status : ThreadStatus) (touched now : Stamp) (s : ThreadStore env)
      → IsSound env s
      → ((x : Exception) × (thread_at env s.threads k ≡ raise x)
          × (transition env k new_status touched now s ≡ (raise x, s)))
        ⊎ ((t : Thread) × (thread_at env s.threads k ≡ return t)
            × (((valid_transition t.status new_status ≡ false)
                  × (transition env k new_status touched now s ≡ (raise value_error, s)))
                ⊎ ((valid_transition t.status new_status ≡ true)
                    × Transitions k new_status touched now s t)))
  unfolding transition read_thread write_thread moved
  transition_lem k new_status touched now s sound =
      elim (Outcome-cases (thread_at env s.threads k)) [
        | inl (x, failed) ↦ inl (x, failed, ground arith)
        | inr (t, found) ↦ elim (Bool-cases (valid_transition t.status new_status)) [
          | inr refused ↦ inr (t, found, inl (refused, ground arith))
          | inl valid ↦
              let put = λ (j : String).
                thread_at-put env s.threads (moved new_status touched now t) j
                  (thread_at-IsValid env s.threads k t found) in
              inr (
                t,
                found,
                inr (
                  valid,
                  record {
                    after = moved new_status touched now t;
                    moved = moved-Moved new_status touched now t valid;
                    returned = ground arith;
                    files = λ j. ground (arith, put j, sound k t found);
                    notes = ground arith;
                    questions = ground arith;
                    handoffs = ground arith;
                  },
                ),
              )
        ]
      ]

  Walk-archived : {a b : ThreadStatus} → Walk a b → a ≡ archived → b ≡ archived
  unfolding valid_transition
  Walk-archived stays h = h
  Walk-archived (moves {b} {c} w v) h =
      let at : b ≡ archived = Walk-archived w h in
      let no : valid_transition archived c ≡ true = rw at at v in cc no

  -- Archiving is final: from a store where each thread file holds the thread that it is named for,
  -- after any calls whose models were constructed and of which no `update` is for this thread, an
  -- archived thread is still read, is still archived, and a transition to any status raises a
  -- ValueError and changes nothing.
  pub archived_final :
      (cs : List Call) (s : ThreadStore env) (k : String) (t : Thread) (new_status : ThreadStatus)
      (touched now : Stamp)
      → All IsConstructed cs
      → All (Spares env k) cs
      → IsSound env s
      → thread_at env s.threads k ≡ return t
      → t.status ≡ archived
      → ((t' : Thread) × (thread_at env (run env cs s).threads k ≡ return t')
          × (t'.status ≡ archived))
        × (transition env k new_status touched now (run env cs s)
            ≡ (raise value_error, run env cs s))
  unfolding transition read_thread valid_transition
  archived_final cs s k t new_status touched now made spares sound found gone =
      let (t', still, d) = run-Later env cs s k t made spares sound found in
      let same : t'.status ≡ archived = Walk-archived d.status gone in
      ((t', still, same), ground arith)
