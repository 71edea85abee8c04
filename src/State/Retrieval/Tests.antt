-- ===== src/State/Retrieval/Tests.antt =====
-- A retrieval on concrete inputs, with natural numbers for scores.
use kai_daemon.Base.{ℕ, ◌≡◌, refl, some, List, [], ◌∷◌, All, ◌*◌, ◌++◌, ◌==◌, false}
use kai_daemon.Base.Dict.{HasDistinctIds}
use kai_daemon.Base.Outcome.{Outcome, return}
use kai_daemon.State.Tests.{counts}
use kai_daemon.State.ThreadStack.Tests.{whole, entry}
use kai_daemon.State.ThreadStack.{ThreadStackState, ThreadStackEntry}
use kai_daemon.State.Threads.Tests.{plain, one}
use kai_daemon.State.Retrieval.{
  ScoreFloats, SemanticQuery, SemanticResult, id_of, scaled, merge, conversational_retrieval,
}
use kai_daemon.State.Retrieval.Merging.{IsRanked}
use kai_daemon.State.Retrieval.Ranking.{IsFrom, Keeps, merge_lem}
use kai_daemon.State.Retrieval.Turn.{Retrieved, conversational_retrieval-Retrieved}

abbrev numbers : ScoreFloats
numbers = record { floats = counts; times = λ a b. a * b; literal = λ s. 1 }

abbrev low : SemanticResult numbers
low = record { document_id = "a"; text = "t"; score = 1; space = "shared"; metadata = [] }

abbrev high : SemanticResult numbers
high = record { document_id = "b"; text = "t"; score = 3; space = "shared"; metadata = [] }

abbrev merged : List (SemanticResult numbers)
merged = merge numbers (low ∷ []) (high ∷ low ∷ []) 2

merge_example :
    IsRanked numbers merged
    × HasDistinctIds (id_of numbers) merged
    × All (IsFrom numbers (low ∷ []) (high ∷ low ∷ []) 2) merged
    × All (λ r. Keeps numbers merged (scaled numbers 2 r)) (high ∷ low ∷ [])
    × ((p : SemanticResult numbers)
        → (before after : List (SemanticResult numbers)) → low ∷ [] ≡ before ++ p ∷ after
        → All (λ r. (r.document_id == p.document_id) ≡ false) after
        → Keeps numbers merged p)
merge_example = merge_lem numbers (low ∷ []) (high ∷ low ∷ []) 2 (refl, tt) (refl, (refl, tt))

abbrev client : SemanticQuery numbers → ℕ → Outcome (List (SemanticResult numbers)) × ℕ
client query calls = (return (low ∷ high ∷ []), calls)

abbrev aside : ThreadStackEntry whole
aside = record (entry "t" 1) { state = ThreadStackState.peripheral }

conversational_retrieval_example :
    Retrieved numbers whole plain client "hello"
      (entry "u" 2 ∷ aside ∷ [])
      (some one)
      0
      (conversational_retrieval numbers whole plain client "hello"
        (entry "u" 2 ∷ aside ∷ [])
        (some one)
        0).0
conversational_retrieval_example =
    conversational_retrieval-Retrieved numbers whole plain client "hello" (entry "u" 2 ∷ aside ∷ [])
      (some one) 0
