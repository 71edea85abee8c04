-- ===== src/Sdk/Tests.antt =====
-- A workflow that may search but not write, on small concrete inputs.
use kai_daemon.Base.{ℕ, suc, ◌≡◌, refl, true, none, some, [], ◌∷◌}
use kai_daemon.Engine.Types.{WorkflowContext}
use kai_daemon.Sdk.{Code, ends, acts, calls, returned, World, is_allowed, run}
use kai_daemon.Sdk.Permitted.{Agrees, both_end, both_call, Logged, run-Logged, run-Agrees}

abbrev searcher : WorkflowContext
searcher = record { workflow_id = "searcher"; allowed_tools = "search" ∷ [] }

abbrev world : World ℕ ℕ
world = record { ctx = some searcher; log = []; writable = true; warned = []; state = 0 }

-- It searches, and the search tries to write; what follows ignores the results.
abbrev code : Code ℕ ℕ ℕ → Code ℕ ℕ ℕ
code body = calls "search" none (calls "write" none body (λ r. ends r)) (λ r. ends (returned 1))

run-Logged_example : Logged searcher world (run (code (acts suc (ends (returned 2)))) world).1
run-Logged_example = run-Logged searcher (code (acts suc (ends (returned 2)))) world refl

agree : Agrees ("search" ∷ []) (code (acts suc (ends (returned 2)))) (code (ends (returned 3)))
unfolding is_allowed
agree =
    both_call "search" none _ _ _ _
      (λ _. both_call "write" none _ _ _ _ (λ e. cc) (λ r. both_end r)) (λ r. both_end (returned 1))

run-Agrees_example :
    run (code (acts suc (ends (returned 2)))) world ≡ run (code (ends (returned 3))) world
run-Agrees_example =
    run-Agrees searcher (code (acts suc (ends (returned 2)))) (code (ends (returned 3))) world refl
      agree
