-- ===== src/State/Threads/History.antt =====
-- What any sequence of calls does to a thread.
use kai_daemon.Base.{◌≡◌, refl, ap, ◌∙◌, sym, Bool, true, List, [], ◌∷◌, ◌++◌, is_some, is_none}
use mathlib.Core.List.{append_assoc, append-nil}
use kai_daemon.Base.Time.{Stamp}
use kai_daemon.State.Threads.{
  ThreadStatus, nascent, active, dormant, archived, Thread, DaemonPerspective, HandoffNote, moved,
  with_perspective, with_note, valid_transition,
}

-- A thread is dated exactly while it is dormant, or has been archived from there.
unfoldable pub is_dated : Thread → Bool
is_dated t = elim t.status [
  | nascent ↦ is_none t.dormant_since
  | active ↦ is_none t.dormant_since
  | dormant ↦ is_some t.dormant_since
  | archived ↦ is_some t.dormant_since
]

-- A sequence of valid transitions.
pub data Walk (a : ThreadStatus) : ThreadStatus → Type 0 where
  stays : Walk a a
  moves : {b c : ThreadStatus} → Walk a b → valid_transition b c ≡ true → Walk a c

-- A later state of the same thread.
pub record Descends (t t' : Thread) : Type 0 where
  pub id : t'.id ≡ t.id
  pub created : t'.created ≡ t.created
  pub central_question : t'.central_question ≡ t.central_question
  pub status : Walk t.status t'.status
  pub perspectives :
      (l : List DaemonPerspective) × (t'.daemon_perspectives ≡ t.daemon_perspectives ++ l)
  pub notes : (l : List HandoffNote) × (t'.handoff_notes ≡ t.handoff_notes ++ l)
  pub dated : is_dated t ≡ true → is_dated t' ≡ true

Walk-append : {a b c : ThreadStatus} → Walk a b → Walk b c → Walk a c
Walk-append v stays = v
Walk-append v (moves w h) = moves (Walk-append v w) h

pub Descends-self : (t : Thread) → Descends t t
Descends-self t = record {
  id = refl;
  created = refl;
  central_question = refl;
  status = stays;
  perspectives = ([], sym (append-nil t.daemon_perspectives));
  notes = ([], sym (append-nil t.handoff_notes));
  dated = λ h. h;
}

grows :
    {A : Type 0} (a b c : List A)
    → (l : List A) × (b ≡ a ++ l)
    → (l : List A) × (c ≡ b ++ l)
    → (l : List A) × (c ≡ a ++ l)
grows a b c (l, p) (m, q) = (l ++ m, q ∙ ap (λ x. x ++ m) p ∙ append_assoc a l m)

pub Descends-trans : (t u v : Thread) → Descends t u → Descends u v → Descends t v
Descends-trans t u v a b = record {
  id = b.id ∙ a.id;
  created = b.created ∙ a.created;
  central_question = b.central_question ∙ a.central_question;
  status = Walk-append a.status b.status;
  perspectives =
      grows t.daemon_perspectives u.daemon_perspectives v.daemon_perspectives a.perspectives
        b.perspectives;
  notes = grows t.handoff_notes u.handoff_notes v.handoff_notes a.notes b.notes;
  dated = λ h. b.dated (a.dated h);
}

moved-is_dated :
    (new_status : ThreadStatus) (touched now : Stamp) (t : Thread)
    → valid_transition t.status new_status ≡ true
    → is_dated t ≡ true
    → is_dated (moved new_status touched now t) ≡ true
unfolding moved is_dated valid_transition
moved-is_dated new_status touched now t = by_status t.status new_status
  where
    by_status :
        (a b : ThreadStatus)
        → valid_transition a b ≡ true
        → is_dated (record t { status = a }) ≡ true
        → is_dated (moved b touched now (record t { status = a })) ≡ true
    by_status nascent active v h = h
    by_status active dormant v h = refl
    by_status dormant active v h = refl
    by_status dormant archived v h = h
    by_status nascent nascent v h = cc
    by_status nascent dormant v h = cc
    by_status nascent archived v h = cc
    by_status active nascent v h = cc
    by_status active active v h = cc
    by_status active archived v h = cc
    by_status dormant nascent v h = cc
    by_status dormant dormant v h = cc
    by_status archived b v h = cc

pub moved-Descends :
    (new_status : ThreadStatus) (touched now : Stamp) (t : Thread)
    → valid_transition t.status new_status ≡ true
    → Descends t (moved new_status touched now t)
unfolding moved
moved-Descends new_status touched now t v = record {
  id = refl;
  created = refl;
  central_question = refl;
  status = moves stays v;
  perspectives = ([], sym (append-nil t.daemon_perspectives));
  notes = ([], sym (append-nil t.handoff_notes));
  dated = moved-is_dated new_status touched now t v;
}

pub with_perspective-Descends :
    (p : DaemonPerspective) (now : Stamp) (t : Thread) → Descends t (with_perspective p now t)
unfolding with_perspective is_dated
with_perspective-Descends p now t = record {
  id = refl;
  created = refl;
  central_question = refl;
  status = stays;
  perspectives = (p ∷ [], refl);
  notes = ([], sym (append-nil t.handoff_notes));
  dated = λ h. h;
}

pub with_note-Descends :
    (n : HandoffNote) (now : Stamp) (t : Thread) → Descends t (with_note n now t)
unfolding with_note is_dated
with_note-Descends n now t = record {
  id = refl;
  created = refl;
  central_question = refl;
  status = stays;
  perspectives = ([], sym (append-nil t.daemon_perspectives));
  notes = (n ∷ [], refl);
  dated = λ h. h;
}
