-- ===== src/State/Retrieval/Turn.antt =====
-- What a turn retrieves, whatever fails.
use kai_daemon.Base.{
  All, ◌⊎◌, ◌++◌, ◌∙◌, true, false, if◌then◌else◌, ◌≡◌, refl, sym, ap, subst, inl, inr, String,
  Option, none, some, List, [], ◌∷◌, filter, not, Bool-cases,
}
use kai_daemon.Base.Outcome.{Outcome, Exception, return, raise, Method}
use kai_daemon.State.ThreadStack.{ThreadStackState, ThreadStackEntry, Arithmetic}
use kai_daemon.State.Threads.{Services, ThreadStore, thread_at}
use kai_daemon.State.Threads.Model.{Thread}
use kai_daemon.State.Retrieval.{
  ScoreFloats, SemanticQuery, SemanticResult, RetrievalContext, merge, is_pending,
  partition_pending, primary_query, secondary_query, merge_secondary, query_secondary,
  add_secondary, context_of, after_primary, find_peripheral, conversational_retrieval,
}

partition_pending_lem :
    (n : ScoreFloats) (rs : List (SemanticResult n))
    → partition_pending n rs ≡ (filter (λ r. not (is_pending n r)) rs, filter (is_pending n) rs)
unfolding partition_pending filter
partition_pending_lem n [] = refl
partition_pending_lem n (r ∷ rs) = elim (Bool-cases (is_pending n r)) [
  | inl waits ↦ rw waits (ap (λ p. (p.0, r ∷ p.1)) (partition_pending_lem n rs))
  | inr ready ↦ rw ready (ap (λ p. (r ∷ p.0, p.1)) (partition_pending_lem n rs))
]

module _ (n : ScoreFloats) (f : Arithmetic) (env : Services) {C : Type 0}
    (semantic_query : SemanticQuery n → Method C (List (SemanticResult n))) where
  -- The context that splits these results into the ready and the pending ones.
  abbrev pub split_of : List (SemanticResult n) → RetrievalContext n
  split_of rs = record {
    semantic = filter (λ r. not (is_pending n r)) rs;
    pending_artifacts = filter (is_pending n) rs;
  }

  -- The first peripheral entry of the stack.
  abbrev pub IsFirst : List (ThreadStackEntry f) → ThreadStackEntry f → Type 0
  IsFirst stack entry =
      (before : List (ThreadStackEntry f)) × (after : List (ThreadStackEntry f)) × (stack
        ≡ before ++ entry ∷ after)
      × All (λ e. e.state ≡ ThreadStackState.foreground) before
      × (entry.state ≡ ThreadStackState.peripheral)

  -- The thread that a secondary query is for: that of the first peripheral entry, where there is a
  -- store, as the store has it.
  abbrev pub IsFor : List (ThreadStackEntry f) → Option (ThreadStore env) → Outcome Thread → Type 0
  IsFor stack threads loaded =
      (entry : ThreadStackEntry f) × (store : ThreadStore env) × IsFirst stack entry
      × (threads ≡ some store)
      × (thread_at env store.threads entry.thread_id ≡ loaded)

  -- Why there is no answer to a secondary query, where `c` is the client after the primary one.
  pub data Alone (stack : List (ThreadStackEntry f)) (threads : Option (ThreadStore env)) (c : C)
      : Type 0 where
    no_peripheral : All (λ e. e.state ≡ ThreadStackState.foreground) stack → Alone stack threads c
    no_store : threads ≡ none → Alone stack threads c
    unread : (x : Exception) → IsFor stack threads (raise x) → Alone stack threads c
    refused :
        (thread : Thread) (x : Exception)
        → IsFor stack threads (return thread)
        → (semantic_query (secondary_query n thread) c).0 ≡ raise x
        → Alone stack threads c

  -- What a turn may retrieve, by what the client does.
  pub data Retrieved (message : String) (stack : List (ThreadStackEntry f))
      (threads : Option (ThreadStore env)) (c : C) : RetrievalContext n → Type 0 where
    unavailable :
        (e : Exception)
        → (semantic_query (primary_query n message) c).0 ≡ raise e
        → Retrieved message stack threads c (split_of [])
    primary_only :
        (raw : List (SemanticResult n))
        → (semantic_query (primary_query n message) c).0 ≡ return raw
        → Alone stack threads (semantic_query (primary_query n message) c).1
        → Retrieved message stack threads c (split_of raw)
    with_secondary :
        (raw secondary : List (SemanticResult n)) (thread : Thread)
        → (semantic_query (primary_query n message) c).0 ≡ return raw
        → IsFor stack threads (return thread)
        → (semantic_query
            (secondary_query n thread)
            (semantic_query (primary_query n message) c).1).0
          ≡ return secondary
        → Retrieved message stack threads c (split_of (merge n raw secondary (n.literal "0.4")))

  state_cases :
      (s : ThreadStackState) → (s ≡ ThreadStackState.foreground) ⊎ (s ≡ ThreadStackState.peripheral)
  state_cases ThreadStackState.foreground = inl refl
  state_cases ThreadStackState.peripheral = inr refl

  find_peripheral_cases :
      (stack : List (ThreadStackEntry f))
      → ((find_peripheral n f env semantic_query stack ≡ none)
          × All (λ e. e.state ≡ ThreadStackState.foreground) stack)
        ⊎ ((entry : ThreadStackEntry f) × (find_peripheral n f env semantic_query stack
              ≡ some entry)
            × IsFirst stack entry)
  unfolding find_peripheral
  find_peripheral_cases [] = inl (refl, tt)
  find_peripheral_cases (e ∷ es) = elim (state_cases e.state) [
    | inr at ↦ inr (e, found e es e.state at, ([], es, refl, tt, at))
    | inl at ↦ elim (find_peripheral_cases es) [
      | inl (none_there, rest) ↦ inl (passed e es e.state at ∙ none_there, (at, rest))
      | inr (entry, there, (before, after, parts, rest, low)) ↦ inr (
        entry,
        passed e es e.state at ∙ there,
        (e ∷ before, after, ap (λ l. e ∷ l) parts, (at, rest), low),
      )
    ]
  ]
    where
      choose :
          ThreadStackEntry f
          → List (ThreadStackEntry f)
          → ThreadStackState
          → Option (ThreadStackEntry f)
      choose e es s =
          if (elim s [ ThreadStackState.foreground ↦ false | ThreadStackState.peripheral ↦ true ])
          then some e
          else find_peripheral n f env semantic_query es

      found :
          (e : ThreadStackEntry f) (es : List (ThreadStackEntry f)) (s : ThreadStackState)
          → s ≡ ThreadStackState.peripheral
          → choose e es s ≡ some e
      found e es s at = ap (choose e es) at

      passed :
          (e : ThreadStackEntry f) (es : List (ThreadStackEntry f)) (s : ThreadStackState)
          → s ≡ ThreadStackState.foreground
          → choose e es s ≡ find_peripheral n f env semantic_query es
      passed e es s at = ap (choose e es) at

  module _ (message : String) (stack : List (ThreadStackEntry f))
      (threads : Option (ThreadStore env)) (c : C) where
    abbrev Turn : RetrievalContext n → Type 0
    Turn = Retrieved message stack threads c

    abbrev asked : C
    asked = (semantic_query (primary_query n message) c).1

    context_of-Retrieved :
        (o : List (SemanticResult n) × C)
        → Turn (split_of o.0)
        → Turn (context_of n f env semantic_query o).0
    unfolding context_of
    context_of-Retrieved (raw, c') h =
        subst (λ p. Turn (record { semantic = p.0; pending_artifacts = p.1 }))
          (sym (partition_pending_lem n raw)) h

    module _ (raw : List (SemanticResult n))
        (answered : (semantic_query (primary_query n message) c).0 ≡ return raw) where
      by_answer :
          (thread : Thread) (o : Outcome (List (SemanticResult n)) × C)
          → IsFor stack threads (return thread)
          → semantic_query (secondary_query n thread) asked ≡ o
          → Turn (split_of (merge_secondary n f env semantic_query raw o).0)
      by_answer thread (return secondary, c') h e =
          with_secondary raw secondary thread answered h (ap (λ o. o.0) e)
      by_answer thread (raise x, c') h e =
          primary_only raw answered (refused thread x h (ap (λ o. o.0) e))

      by_thread :
          (loaded : Outcome Thread)
          → IsFor stack threads loaded
          → Turn (split_of (query_secondary n f env semantic_query raw loaded asked).0)
      by_thread (return thread) h = by_answer thread _ h refl
      by_thread (raise x) h = primary_only raw answered (unread x h)

      by_store :
          (entry : ThreadStackEntry f) (ts : Option (ThreadStore env))
          → IsFirst stack entry
          → threads ≡ ts
          → Turn (split_of (add_secondary n f env semantic_query (some entry) ts raw asked).0)
      by_store entry none first e = primary_only raw answered (no_store e)
      by_store entry (some store) first e =
          by_thread (thread_at env store.threads entry.thread_id) (entry, store, first, e, refl)

      add_secondary-Retrieved : Turn (
          split_of
            (add_secondary n f env semantic_query
              (find_peripheral n f env semantic_query stack)
              threads
              raw
              asked).0)
      add_secondary-Retrieved = elim (find_peripheral_cases stack) [
        | inl (none_there, rest) ↦ rw none_there (primary_only raw answered (no_peripheral rest))
        | inr (entry, there, first) ↦ rw there (by_store entry threads first refl)
      ]

    after_primary-Retrieved :
        (o : Outcome (List (SemanticResult n)))
        → (semantic_query (primary_query n message) c).0 ≡ o
        → Turn (after_primary n f env semantic_query stack threads (o, asked)).0
    unfolding after_primary filter
    after_primary-Retrieved (return raw) e =
        context_of-Retrieved
          (add_secondary n f env semantic_query (find_peripheral n f env semantic_query stack)
            threads raw asked)
          (add_secondary-Retrieved raw e)
    after_primary-Retrieved (raise x) e = unavailable x e

  -- A turn retrieves something whatever the client and the thread store raise: nothing where the
  -- primary query raises; the primary results, merged with those of a secondary query for the
  -- thread of the first peripheral entry, where there is one, a store that has its thread, and an
  -- answer; and else the primary results alone. The ready and the pending results are told apart.
  pub conversational_retrieval-Retrieved :
      (message : String) (stack : List (ThreadStackEntry f)) (threads : Option (ThreadStore env))
      (c : C)
      → Retrieved message stack threads c
          (conversational_retrieval n f env semantic_query message stack threads c).0
  unfolding conversational_retrieval
  conversational_retrieval-Retrieved message stack threads c =
      after_primary-Retrieved message stack threads c (semantic_query (primary_query n message) c).0
        refl
