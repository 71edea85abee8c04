-- ===== src/State/Threads/Effects.antt =====
-- What one call, and then any sequence of calls, does to the thread files.
use kai_daemon.Base.{
  eq_iff, ◌≡◌, refl, subst, String, true, false, ◌==◌, arith, none, List, [], ◌∷◌, All, All-append,
  Bool-cases, inl, inr,
}
use kai_daemon.Base.Dict
use kai_daemon.Base.Dict.{Dict, get-put}
use kai_daemon.Base.Outcome.{return, Outcome-cases}
use kai_daemon.State.Threads.{
  Thread, IsValid, may_write, Services, ThreadStore, thread_at, read_thread, read_pickup,
  write_thread, write_pickup, create, update, transition, moved, add_perspective, with_perspective,
  add_handoff_note, with_note, write_pickup_note, fill_time_gap_quality, valid_transition,
  embed_central_question, embed_handoff_note,
}
use kai_daemon.State.Threads.Calls.{
  Call, creates, updates, transitions, adds_perspective, adds_handoff_note, writes_pickup_note,
  fills_time_gap_quality, call, run, IsConstructed, IsSound, thread_at-put, thread_at-IsValid,
}
use kai_daemon.State.Threads.History.{
  Descends, Descends-self, Descends-trans, moved-Descends, with_perspective-Descends,
  with_note-Descends,
}

module _ (env : Services) where
  data Effect (c : Call) (s : ThreadStore env) : Type 0 where
    keeps : (call env c s).threads ≡ s.threads → Effect c s
    adds :
        (t : Thread)
        → Dict.get s.threads t.id ≡ none
        → IsValid t
        → (call env c s).threads ≡ Dict.put s.threads t.id (env.threads.dump t)
        → Effect c s
    overwrites :
        (t : Thread)
        → c ≡ updates t
        → IsValid t
        → (call env c s).threads ≡ Dict.put s.threads t.id (env.threads.dump t)
        → Effect c s
    advances :
        (k : String) (t t' : Thread)
        → thread_at env s.threads k ≡ return t
        → Descends t t'
        → IsValid t'
        → (call env c s).threads ≡ Dict.put s.threads t'.id (env.threads.dump t')
        → Effect c s

  effect : (c : Call) (s : ThreadStore env) → IsConstructed c → Effect c s
  unfolding call create update transition add_perspective add_handoff_note write_pickup_note
      fill_time_gap_quality write_thread embed_central_question read_thread write_pickup
      embed_handoff_note read_pickup
  effect (creates t) s h = elim (Bool-cases (Dict.has s.threads t.id)) [
    | inl there ↦ keeps (ground arith)
    | inr absent ↦ adds t (ground arith) h (ground arith)
  ]
  effect (updates t) s h = elim (Bool-cases (Dict.has s.threads t.id)) [
    | inl there ↦ overwrites t refl h (ground arith)
    | inr absent ↦ keeps (ground arith)
  ]
  effect (transitions k new touched now) s h = elim (Outcome-cases (thread_at env s.threads k)) [
    | inl (x, failed) ↦ keeps (ground arith)
    | inr (t, found) ↦ elim (Bool-cases (valid_transition t.status new)) [
      | inl valid ↦
          advances k t (moved new touched now t) found (moved-Descends new touched now t valid)
            (thread_at-IsValid env s.threads k t found) (ground arith)
      | inr refused ↦ keeps (ground arith)
    ]
  ]
  effect (adds_perspective k p now) s h = elim (Outcome-cases (thread_at env s.threads k)) [
    | inl (x, failed) ↦ keeps (ground arith)
    | inr (t, found) ↦
        advances k t (with_perspective p now t) found (with_perspective-Descends p now t)
          (All-append (λ q. may_write q.thread_status_at_writing ≡ true) t.daemon_perspectives
            (p ∷ []) (thread_at-IsValid env s.threads k t found) (h, tt))
          (ground arith)
  ]
  effect (adds_handoff_note k n now) s h = elim (Outcome-cases (thread_at env s.threads k)) [
    | inl (x, failed) ↦ keeps (ground arith)
    | inr (t, found) ↦
        advances k t (with_note n now t) found (with_note-Descends n now t)
          (thread_at-IsValid env s.threads k t found) (ground arith)
  ]
  effect (writes_pickup_note n) s h = keeps (ground arith)
  effect (fills_time_gap_quality k q) s h = keeps (ground arith)

  -- Whether a call may overwrite the thread with the id `k`: only `update` does.
  abbrev pub Spares : String → Call → Type 0
  Spares k (updates t) = (t.id == k) ≡ false
  Spares k _ = Unit

  put-IsSound :
      (s : ThreadStore env) (d : Dict env.threads.Document) (t : Thread)
      → IsSound env s
      → IsValid t
      → d ≡ Dict.put s.threads t.id (env.threads.dump t)
      → (k : String) (u : Thread) → thread_at env d k ≡ return u
      → u.id ≡ k
  put-IsSound s d t sound valid e k u h = elim (Bool-cases (t.id == k)) [
    | inl same ↦ ground (arith, e, thread_at-put env s.threads t k valid, eq_iff t.id k)
    | inr other ↦ sound k u (ground (arith, e, thread_at-put env s.threads t k valid))
  ]

  pub call-IsSound :
      (c : Call) (s : ThreadStore env)
      → IsConstructed c
      → IsSound env s
      → IsSound env (call env c s)
  call-IsSound c s made sound = elim (effect c s made) [
    | keeps e ↦ λ k u h. sound k u (rw e at h)
    | adds t absent valid e ↦ put-IsSound s _ t sound valid e
    | overwrites t same valid e ↦ put-IsSound s _ t sound valid e
    | advances j t t' found d valid e ↦ put-IsSound s _ t' sound valid e
  ]

  -- The thread that is found under `k`, and what became of it.
  abbrev pub Later : String → Thread → ThreadStore env → Type 0
  Later k t s = (t' : Thread) × (thread_at env s.threads k ≡ return t') × Descends t t'

  call-Later :
      (c : Call) (s : ThreadStore env) (k : String) (t : Thread)
      → IsConstructed c
      → Spares k c
      → IsSound env s
      → thread_at env s.threads k ≡ return t
      → Later k t (call env c s)
  unfolding thread_at
  call-Later c s k t made spares sound found = elim (effect c s made) [
    | keeps e ↦ (t, rw e found, Descends-self t)
    | adds u absent valid e ↦ (
      t,
      ground (arith, e, thread_at-put env s.threads u k valid, eq_iff u.id k),
      Descends-self t,
    )
    | overwrites u same valid e ↦
        let other : (u.id == k) ≡ false = subst (Spares k) same spares in
        (t, ground (arith, e, thread_at-put env s.threads u k valid, found), Descends-self t)
    | advances j u u' there d valid e ↦ elim (Bool-cases (u'.id == k)) [
      | inl same ↦
          let jk : j ≡ k = ground (arith, sound j u there, d.id, eq_iff u'.id k) in
          let here : thread_at env s.threads k ≡ return u = rw jk at there in
          let one : u ≡ t = ground arith in
          (
            u',
            ground (arith, e, thread_at-put env s.threads u' k valid),
            subst (λ x. Descends x u') one d,
          )
      | inr other ↦ (t, ground (arith, e, thread_at-put env s.threads u' k valid), Descends-self t)
    ]
  ]

  -- In a store where each thread file holds the thread that it is named for, after any calls whose
  -- models were constructed and of which no `update` is for this thread, it is still read, with the
  -- same id, question and time of creation, a status that valid transitions lead to, and the old
  -- perspectives and handoff notes before any new ones; and if it had a `dormant_since` exactly in
  -- the statuses dormant and archived, it still does.
  pub run-Later :
      (cs : List Call) (s : ThreadStore env) (k : String) (t : Thread)
      → All IsConstructed cs
      → All (Spares k) cs
      → IsSound env s
      → thread_at env s.threads k ≡ return t
      → Later k t (run env cs s)
  unfolding run
  run-Later [] s k t made spares sound found = (t, found, Descends-self t)
  run-Later (c ∷ cs) s k t made spares sound found =
      let (u, found', d) = call-Later c s k t made.0 spares.0 sound found in
      let (v, there, d') =
        run-Later cs (call env c s) k u made.1 spares.1 (call-IsSound c s made.0 sound) found' in
      (v, there, Descends-trans t u v d d')

  -- The thread file `k` is there and reads.
  abbrev pub Reads : String → ThreadStore env → Type 0
  Reads k s = (t : Thread) × (thread_at env s.threads k ≡ return t)

  put-Reads :
      (s : ThreadStore env) (d : Dict env.threads.Document) (t : Thread) (k : String)
      → IsValid t
      → d ≡ Dict.put s.threads t.id (env.threads.dump t)
      → Reads k s
      → (u : Thread) × (thread_at env d k ≡ return u)
  put-Reads s d t k valid e (u, found) = elim (Bool-cases (t.id == k)) [
    | inl same ↦ (t, ground (arith, e, thread_at-put env s.threads t k valid))
    | inr other ↦ (u, ground (arith, e, thread_at-put env s.threads t k valid))
  ]

  -- No call removes a thread, or makes it unreadable.
  pub call-Reads :
      (c : Call) (s : ThreadStore env) (k : String)
      → IsConstructed c
      → Reads k s
      → Reads k (call env c s)
  call-Reads c s k made r = elim (effect c s made) [
    | keeps e ↦ (r.0, rw e r.1)
    | adds t absent valid e ↦ put-Reads s _ t k valid e r
    | overwrites t same valid e ↦ put-Reads s _ t k valid e r
    | advances j t t' found d valid e ↦ put-Reads s _ t' k valid e r
  ]
