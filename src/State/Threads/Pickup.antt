-- ===== src/State/Threads/Pickup.antt =====
-- The pickup notes: whose they are, and when `time_gap_quality` is set.
use kai_daemon.Base.{
  eq_iff, ◌≡◌, refl, subst, sym, ◌∙◌, String, false, ◌==◌, arith, none, some, All, is_some,
  if◌then◌else◌, Bool-cases, inl, inr, List, [], ◌∷◌,
}
use kai_daemon.Base.Dict
use kai_daemon.Base.Dict.{Dict, get-put}
use kai_daemon.Base.Outcome.{OnReturn, on_return, return, Outcome-cases}
use kai_daemon.State.Threads.{
  PickupNote, Services, ThreadStore, thread_at, note_at, read_thread, read_pickup, create, update,
  transition, add_perspective, add_handoff_note, write_thread, embed_central_question,
  embed_handoff_note, write_pickup, write_pickup_note, fill_time_gap_quality,
}
use kai_daemon.State.Threads.Calls.{
  Call, creates, updates, transitions, adds_perspective, adds_handoff_note, writes_pickup_note,
  fills_time_gap_quality, call, run, IsConstructed,
}
use kai_daemon.State.Threads.Effects.{Reads, call-Reads}

module _ (env : Services) where
  note_at-put :
      (d : Dict env.notes.Document) (n : PickupNote) (k : String)
      → note_at env (Dict.put d n.thread_id (env.notes.dump n)) k
        ≡ (if n.thread_id == k then return n else note_at env d k)
  unfolding note_at
  note_at-put d n k = elim (Bool-cases (n.thread_id == k)) [
    | inl same ↦ simp (get-put, same, env.notes.parse-dump n tt)
    | inr other ↦ simp (get-put, other)
  ]

  data NoteEffect (c : Call) (s : ThreadStore env) : Type 0 where
    keeps : (call env c s).pickup_notes ≡ s.pickup_notes → NoteEffect c s
    writes :
        (n : PickupNote)
        → n.time_gap_quality ≡ none
        → Reads env n.thread_id s
        → (call env c s).pickup_notes ≡ Dict.put s.pickup_notes n.thread_id (env.notes.dump n)
        → NoteEffect c s
    fills :
        (k q : String) (n n' : PickupNote)
        → c ≡ fills_time_gap_quality k q
        → note_at env s.pickup_notes k ≡ return n
        → n'.thread_id ≡ n.thread_id
        → (call env c s).pickup_notes ≡ Dict.put s.pickup_notes n'.thread_id (env.notes.dump n')
        → NoteEffect c s

  note_effect : (c : Call) (s : ThreadStore env) → NoteEffect c s
  unfolding call create update transition add_perspective add_handoff_note write_pickup_note
      fill_time_gap_quality write_thread embed_central_question read_thread write_pickup
      embed_handoff_note read_pickup
  note_effect (creates t) s = keeps (ground arith)
  note_effect (updates t) s = keeps (ground arith)
  note_effect (transitions k new touched now) s = keeps (ground arith)
  note_effect (adds_perspective k p now) s = keeps (ground arith)
  note_effect (adds_handoff_note k n now) s = keeps (ground arith)
  note_effect (writes_pickup_note n) s = elim (Bool-cases (is_some n.time_gap_quality)) [
    | inl set ↦ keeps (ground arith)
    | inr unset ↦ elim (Outcome-cases (thread_at env s.threads n.thread_id)) [
      | inl (x, failed) ↦ keeps (ground arith)
      | inr (t, found) ↦ writes n (ground arith) (t, found) (ground arith)
    ]
  ]
  note_effect (fills_time_gap_quality k q) s = elim (Outcome-cases (note_at env s.pickup_notes k)) [
    | inl (x, failed) ↦ keeps (ground arith)
    | inr (n, found) ↦
        fills k q n (record n { time_gap_quality = some q }) refl found refl (ground arith)
  ]

  -- Each note that reads is for the thread that its file is named for, and that thread reads.
  abbrev pub IsNoted : ThreadStore env → Type 0
  IsNoted s =
      (k : String) (n : PickupNote)
      → note_at env s.pickup_notes k ≡ return n
      → (n.thread_id ≡ k) × Reads env k s

  put-IsNoted :
      (s s' : ThreadStore env) (n : PickupNote)
      → ((k : String) → Reads env k s → Reads env k s')
      → IsNoted s
      → Reads env n.thread_id s
      → s'.pickup_notes ≡ Dict.put s.pickup_notes n.thread_id (env.notes.dump n)
      → IsNoted s'
  put-IsNoted s s' n stay h r e k m found = elim (Bool-cases (n.thread_id == k)) [
    | inl same ↦
        let k_id : n.thread_id ≡ k = ground (arith, eq_iff n.thread_id k) in
        (
          ground (arith, note_at-put s.pickup_notes n k, e),
          stay k (subst (λ j. Reads env j s) k_id r),
        )
    | inr other ↦
        let old = h k m (ground (arith, note_at-put s.pickup_notes n k, e)) in (old.0, stay k old.1)
  ]

  call-IsNoted :
      (c : Call) (s : ThreadStore env) → IsConstructed c → IsNoted s → IsNoted (call env c s)
  call-IsNoted c s made h =
      let stay : (k : String) → Reads env k s → Reads env k (call env c s) =
        λ k. call-Reads env c s k made in
      elim (note_effect c s) [
        | keeps e ↦ λ k n found. let old = h k n (rw e at found) in (old.0, stay k old.1)
        | writes n unset r e ↦ put-IsNoted s (call env c s) n stay h r e
        | fills k q n n' same found id e ↦
            put-IsNoted s (call env c s) n' stay h
              (subst (λ j. Reads env j s) (sym (id ∙ (h k n found).0)) (h k n found).1) e
      ]

  -- Whether a call fills the quality of the note for `k`.
  abbrev pub Leaves : String → Call → Type 0
  Leaves k (fills_time_gap_quality j q) = (j == k) ≡ false
  Leaves k _ = Unit

  -- The note for `k`, where it reads, has no quality.
  abbrev pub IsUnfilled : String → ThreadStore env → Type 0
  IsUnfilled k s =
      (n : PickupNote) → note_at env s.pickup_notes k ≡ return n → n.time_gap_quality ≡ none

  call-IsUnfilled :
      (c : Call) (s : ThreadStore env) (k : String)
      → Leaves k c
      → IsNoted s
      → IsUnfilled k s
      → IsUnfilled k (call env c s)
  call-IsUnfilled c s k leaves noted h m found = elim (note_effect c s) [
    | keeps e ↦ h m (rw e at found)
    | writes n unset r e ↦ elim (Bool-cases (n.thread_id == k)) [
      | inl same ↦ ground (arith, note_at-put s.pickup_notes n k, e)
      | inr other ↦ h m (ground (arith, note_at-put s.pickup_notes n k, e))
    ]
    | fills j q n n' same there id e ↦
        let apart : (j == k) ≡ false = subst (Leaves k) same leaves in
        h m (ground (arith, note_at-put s.pickup_notes n' k, e, (noted j n there).0, id))
  ]

  run-IsUnfilled :
      (cs : List Call) (s : ThreadStore env) (k : String)
      → All IsConstructed cs
      → All (Leaves k) cs
      → IsNoted s
      → IsUnfilled k s
      → IsUnfilled k (run env cs s) × IsNoted (run env cs s)
  unfolding run
  run-IsUnfilled [] s k made leaves noted h = (h, noted)
  run-IsUnfilled (c ∷ cs) s k made leaves noted h =
      run-IsUnfilled cs (call env c s) k made.1 leaves.1 (call-IsNoted c s made.0 noted)
        (call-IsUnfilled c s k leaves.0 noted h)

  -- The quality of a pickup note is null until it is filled: in a store where each note is for the
  -- thread that its file is named for, which is there, and where the note for `k`, if there is one,
  -- has none, after any calls whose models were constructed and of which none fills that note, it
  -- has none if it reads, and is still for the thread `k`, which is there.
  pub null_until_filled :
      (cs : List Call) (s : ThreadStore env) (k : String)
      → All IsConstructed cs
      → All (Leaves k) cs
      → IsNoted s
      → IsUnfilled k s
      → OnReturn
          (note_at env (run env cs s).pickup_notes k)
          (λ n. (n.time_gap_quality ≡ none) × (n.thread_id ≡ k) × Reads env k (run env cs s))
  null_until_filled cs s k made leaves noted h =
      let (unfilled, kept) = run-IsUnfilled cs s k made leaves noted h in
      on_return (note_at env (run env cs s).pickup_notes k) _
        λ n found. (unfilled n found, (kept k n found).0, (kept k n found).1)
