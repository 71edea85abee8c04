-- ===== src/State/Threads/Tests.antt =====
-- A thread from its creation to the archive, and its pickup note.
use kai_daemon.Base.{
  ◌≡◌, refl, ◌&&◌, arith, ◌⊎◌, Bool, true, false, none, some, List, [], ◌∷◌, All, if◌then◌else◌,
}
use kai_daemon.Base.Dict
use kai_daemon.Base.Time.{aware}
use kai_daemon.Base.Outcome.{Exception, return, raise, value_error, OnReturn, Outcome}
use kai_daemon.State.Threads.{
  active, dormant, archived, live, Thread, PickupNote, HandoffNote, DaemonPerspective, IsValid,
  may_write, Services, ThreadStore, thread_at, note_at, transition, valid_transition, write_thread,
  create, embed_central_question,
}
use kai_daemon.State.Threads.Calls.{
  call, Call, creates, transitions, adds_handoff_note, writes_pickup_note, call, run, IsSound,
}
use kai_daemon.State.Threads.Effects.{call-IsSound, Later, Reads, run-Later}
use kai_daemon.State.Threads.Transitions.{Transitions, transition_lem, archived_final}
use kai_daemon.State.Threads.Pickup.{null_until_filled}

abbrev all_ok : List DaemonPerspective → Bool
all_ok [] = true
all_ok (p ∷ l) = may_write p.thread_status_at_writing && all_ok l

all_ok-true :
    (l : List DaemonPerspective)
    → All (λ p. may_write p.thread_status_at_writing ≡ true) l
    → all_ok l ≡ true
all_ok-true [] h = refl
all_ok-true (p ∷ l) h = ground (arith, all_ok-true l h.1)

all_ok-All :
    (l : List DaemonPerspective)
    → all_ok l ≡ true
    → All (λ p. may_write p.thread_status_at_writing ≡ true) l
all_ok-All [] h = tt
all_ok-All (p ∷ l) h = (ground arith, all_ok-All l (ground arith))

abbrev validated : Thread → Outcome Thread
validated t = if all_ok t.daemon_perspectives then return t else raise value_error

pub validated-valid : (t : Thread) → IsValid t → validated t ≡ return t
validated-valid t h = ground (arith, all_ok-true t.daemon_perspectives h)

pub IsValid-validated : (t u : Thread) → validated t ≡ return u → IsValid u
IsValid-validated t u h =
    let ok : all_ok u.daemon_perspectives ≡ true = ground arith in
    all_ok-All u.daemon_perspectives ok

-- Services whose documents are the models themselves, without ChromaDB.
abbrev pub plain : Services
plain = record {
  threads = record {
    Document = Thread;
    dump = λ t. t;
    parse = validated;
    parse-dump = validated-valid;
    parse-valid = IsValid-validated;
  };
  notes = record {
    Document = PickupNote;
    dump = λ n. n;
    parse = λ n. return n;
    parse-dump = λ n h. refl;
    parse-valid = λ n m h. tt;
  };
  chroma = record { Collection = Unit; upsert = λ k d m c. some c };
}

abbrev pub thread : Thread
thread = record {
  id = "t";
  title = "walks";
  central_question = "where to";
  status = archived;
  created = aware 0;
  last_touched = aware 4;
  dormant_since = some (aware 3);
  current_state = "";
  unresolved = "";
  key_tension = none;
  stance = record { position = ""; epistemic_status = live };
  daemon_is_watching = none;
  daemon_perspectives = [];
  handoff_notes = [];
}

abbrev pub empty : ThreadStore plain
empty = record { threads = []; pickup_notes = []; questions = none; handoffs = none }

empty-IsSound : IsSound plain empty
unfolding thread_at Dict.get
empty-IsSound k t h = cc

abbrev pub one : ThreadStore plain
one = call plain (creates thread) empty

one-IsSound : IsSound plain one
one-IsSound = call-IsSound plain (creates thread) empty tt empty-IsSound

abbrev note : HandoffNote
note = record { content = "next"; written_at = aware 5 }

abbrev pickup : PickupNote
pickup = record {
  thread_id = "t";
  content = "back";
  written_at = aware 5;
  dormant_since = aware 3;
  time_gap_quality = none;
}

abbrev later : List Call
later =
    adds_handoff_note "t" note (aware 6)
    ∷ transitions "t" active (aware 7) (aware 7)
    ∷ writes_pickup_note pickup
    ∷ []

archived_final_example :
    ((t' : Thread) × (thread_at plain (run plain later one).threads "t" ≡ return t')
      × (t'.status ≡ archived))
    × (transition plain "t" active (aware 8) (aware 8) (run plain later one)
        ≡ (raise value_error, run plain later one))
unfolding call create write_thread embed_central_question thread_at Dict.get Dict.put
archived_final_example =
    archived_final plain later one "t" thread active (aware 8) (aware 8) (tt, (tt, (tt, tt)))
      (tt, (tt, (tt, tt))) one-IsSound refl refl

run-Later_example : Later plain "t" thread (run plain later one)
unfolding call create write_thread embed_central_question thread_at Dict.get Dict.put
run-Later_example =
    run-Later plain later one "t" thread (tt, (tt, (tt, tt))) (tt, (tt, (tt, tt))) one-IsSound refl

abbrev resting : ThreadStore plain
resting = call plain (creates (record thread { status = dormant })) empty

resting-IsSound : IsSound plain resting
resting-IsSound =
    call-IsSound plain (creates (record thread { status = dormant })) empty tt empty-IsSound

transition_example :
    ((x : Exception) × (thread_at plain resting.threads "t" ≡ raise x)
      × (transition plain "t" active (aware 8) (aware 8) resting ≡ (raise x, resting)))
    ⊎ ((t : Thread) × (thread_at plain resting.threads "t" ≡ return t)
        × (((valid_transition t.status active ≡ false)
              × (transition plain "t" active (aware 8) (aware 8) resting
                  ≡ (raise value_error, resting)))
            ⊎ ((valid_transition t.status active ≡ true)
                × Transitions plain "t" active (aware 8) (aware 8) resting t)))
transition_example = transition_lem plain "t" active (aware 8) (aware 8) resting resting-IsSound

null_until_filled_example :
    OnReturn (note_at plain (run plain later one).pickup_notes "t") (λ n.
      (n.time_gap_quality ≡ none) × (n.thread_id ≡ "t") × Reads plain "t" (run plain later one))
unfolding call create write_thread embed_central_question note_at Dict.get
null_until_filled_example =
    null_until_filled plain later one "t" (tt, (tt, (tt, tt))) (tt, (tt, (tt, tt))) (λ k n h. cc)
      (λ n h. cc)
