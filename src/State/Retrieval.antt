-- ===== src/State/Retrieval.antt =====
-- src/kai_daemon/state/retrieval.py: what a turn of a conversation retrieves.
pub mod Merging
pub mod Ranking
pub mod Turn
mod Tests
use kai_daemon.Base.{
  ℕ, String, Bool, true, false, not, Option, none, some, List, [], ◌∷◌, ◌==◌, filter, is_none,
  if◌then◌else◌,
}
use kai_daemon.Base.Dict
use kai_daemon.Base.Dict.{Dict}
use kai_daemon.Base.Outcome.{Outcome, return, raise, Method}
use kai_daemon.State.Floats.{Floats}
use kai_daemon.State.ThreadStack.{ThreadStackEntry, ThreadStackState, Arithmetic}
use kai_daemon.State.Threads.{Services, ThreadStore, thread_at}
use kai_daemon.State.Threads.Model.{Thread}

-- Floats with their product, and the float of a literal.
pub record ScoreFloats : Type 1 where
  pub floats : Floats
  pub times : floats.Float → floats.Float → floats.Float
  pub literal : String → floats.Float

module _ (n : ScoreFloats) where
  pub record SemanticQuery : Type 0 where
    pub query_text : String
    pub spaces : List String
    pub space_weights : Dict n.floats.Float
    pub always_include_shared : Bool
    pub top_k : ℕ

  pub record SemanticResult : Type 0 where
    pub document_id : String
    pub text : String
    pub score : n.floats.Float
    pub space : String
    pub metadata : Dict String

  pub record RetrievalContext : Type 0 where
    pub semantic : List SemanticResult
    pub pending_artifacts : List SemanticResult

  abbrev pub id_of : SemanticResult → String
  id_of r = r.document_id

  -- the first loop of `_merge`
  unfoldable pub put_all : Dict SemanticResult → List SemanticResult → Dict SemanticResult
  put_all merged [] = merged
  put_all merged (r ∷ rs) = put_all (Dict.put merged r.document_id r) rs

  abbrev pub scaled : n.floats.Float → SemanticResult → SemanticResult
  scaled weight r = record r { score = n.times r.score weight }

  -- the body of the second loop, on a result that is scaled
  unfoldable pub put_better : Dict SemanticResult → SemanticResult → Dict SemanticResult
  put_better merged r = elim (Dict.get merged r.document_id) [
    | none ↦ Dict.put merged r.document_id r
    | some existing ↦
        if n.floats.gt r.score existing.score then Dict.put merged r.document_id r else merged
  ]

  unfoldable pub put_scaled :
      n.floats.Float → Dict SemanticResult → List SemanticResult → Dict SemanticResult
  unfolding put_better
  put_scaled weight merged [] = merged
  put_scaled weight merged (r ∷ rs) = put_scaled weight (put_better merged (scaled weight r)) rs

  -- `sorted(..., key=lambda r: r.score, reverse=True)`, which keeps the order of equal scores
  unfoldable pub insert : SemanticResult → List SemanticResult → List SemanticResult
  insert r [] = r ∷ []
  insert r (s ∷ ss) =
      let rest = insert r ss in if n.floats.gt s.score r.score then s ∷ rest else r ∷ s ∷ ss

  unfoldable pub sort_by_score : List SemanticResult → List SemanticResult
  unfolding insert
  sort_by_score [] = []
  sort_by_score (r ∷ rs) = insert r (sort_by_score rs)

  unfoldable pub merge :
      List SemanticResult → List SemanticResult → n.floats.Float → List SemanticResult
  unfolding put_all put_scaled sort_by_score
  merge primary secondary peripheral_weight =
      sort_by_score (Dict.values (put_scaled peripheral_weight (put_all [] primary) secondary))

  -- `result.metadata.get("chunk_status") == "pending"`
  unfoldable pub is_pending : SemanticResult → Bool
  is_pending r = elim (Dict.get r.metadata "chunk_status") [
    | none ↦ false
    | some status ↦ status == "pending"
  ]

  -- `_partition_pending`: the results that are ready, and those that are pending
  unfoldable pub partition_pending : List SemanticResult → List SemanticResult × List SemanticResult
  unfolding is_pending
  partition_pending [] = ([], [])
  partition_pending (r ∷ rs) =
      let (ready, pending) = partition_pending rs in
      if is_pending r then (ready, r ∷ pending) else (r ∷ ready, pending)

  abbrev pub all_spaces : List String
  all_spaces = "user_pkm" ∷ "daemon" ∷ "shared" ∷ []

  abbrev pub weights : String → String → String → Dict n.floats.Float
  weights user_pkm daemon shared =
      ("user_pkm", n.literal user_pkm)
      ∷ ("daemon", n.literal daemon)
      ∷ ("shared", n.literal shared)
      ∷ []

  abbrev pub primary_query : String → SemanticQuery
  primary_query message = record {
    query_text = message;
    spaces = all_spaces;
    space_weights = weights "1.0" "0.3" "0.8";
    always_include_shared = true;
    top_k = 5;
  }

  abbrev pub secondary_query : Thread → SemanticQuery
  secondary_query thread = record {
    query_text = thread.central_question;
    spaces = all_spaces;
    space_weights = weights "0.6" "0.2" "0.8";
    always_include_shared = true;
    top_k = 3;
  }

module _ (n : ScoreFloats) (f : Arithmetic) (env : Services) {C : Type 0}
    (semantic_query : SemanticQuery n → Method C (List (SemanticResult n))) where
  abbrev pub is_peripheral : ThreadStackEntry f → Bool
  is_peripheral e = elim e.state [
    | ThreadStackState.foreground ↦ false
    | ThreadStackState.peripheral ↦ true
  ]

  -- `next((t for t in thread_stack if ...), None)`
  unfoldable pub find_peripheral : List (ThreadStackEntry f) → Option (ThreadStackEntry f)
  find_peripheral [] = none
  find_peripheral (e ∷ es) =
      let rest = find_peripheral es in if is_peripheral e then some e else rest

  -- the second `try` statement, once the thread is loaded or not
  abbrev pub merge_secondary :
      List (SemanticResult n) → Outcome (List (SemanticResult n)) × C → List (SemanticResult n) × C
  merge_secondary raw (return secondary, c) = (merge n raw secondary (n.literal "0.4"), c)
  merge_secondary raw (raise e, c) = (raw, c)

  abbrev pub query_secondary :
      List (SemanticResult n) → Outcome Thread → C → List (SemanticResult n) × C
  query_secondary raw (return thread) c =
      merge_secondary raw (semantic_query (secondary_query n thread) c)
  query_secondary raw (raise e) c = (raw, c)

  -- `if peripheral is not None and thread_store is not None`
  abbrev pub add_secondary :
      Option (ThreadStackEntry f)
      → Option (ThreadStore env)
      → List (SemanticResult n)
      → C
      → List (SemanticResult n) × C
  add_secondary none threads raw c = (raw, c)
  add_secondary (some entry) none raw c = (raw, c)
  add_secondary (some entry) (some store) raw c =
      query_secondary raw (thread_at env store.threads entry.thread_id) c

  unfoldable pub context_of : List (SemanticResult n) × C → RetrievalContext n × C
  unfolding partition_pending
  context_of (raw, c) =
      let (ready, pending) = partition_pending n raw in
      (record { semantic = ready; pending_artifacts = pending }, c)

  unfoldable pub after_primary :
      List (ThreadStackEntry f)
      → Option (ThreadStore env)
      → Outcome (List (SemanticResult n)) × C
      → RetrievalContext n × C
  unfolding find_peripheral merge thread_at context_of
  after_primary stack threads (return raw, c) =
      context_of (add_secondary (find_peripheral stack) threads raw c)
  after_primary stack threads (raise e, c) = (record { semantic = []; pending_artifacts = [] }, c)

  -- It returns a context whatever the client and the thread store raise.
  unfoldable pub conversational_retrieval :
      String → List (ThreadStackEntry f) → Option (ThreadStore env) → C → RetrievalContext n × C
  unfolding after_primary
  conversational_retrieval message stack threads c =
      after_primary stack threads (semantic_query (primary_query n message) c)
