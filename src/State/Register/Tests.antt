-- ===== src/State/Register/Tests.antt =====
-- A correction, and a prior, on concrete values.
use kai_daemon.Base.{
  ℕ, String, inl, ◌≡◌, refl, ◌⊎◌, ◌+◌, ◌-◌, ◌&&◌, true, false, none, List, [], ◌∷◌, ◌++◌, map,
}
use kai_daemon.Base.Dict
use kai_daemon.Base.Dict.{Dict}
use kai_daemon.Base.Time.{aware}
use kai_daemon.Base.Outcome.{raise, value_error}
use kai_daemon.State.Register.{
  RegisterCorrectionEntry, is_valid, Weights, apply_correction_history_prior, Corrections,
  apply_correction,
}
use kai_daemon.State.Register.Prior.{mapped, moved_by_all, prior_recent}
use kai_daemon.State.Register.Correction.{Corrects, apply_correction_lem}

abbrev fresh : Corrections
fresh = record { log = []; corrections_this_session = [] }

apply_correction_example :
    (((is_valid "casual" && is_valid "urgent") ≡ false)
      × (apply_correction true (aware 3) "casual" "urgent" none fresh ≡ (raise value_error, fresh)))
    ⊎ (((is_valid "casual" && is_valid "urgent") ≡ true)
        × Corrects true (aware 3) "casual" "urgent" none fresh)
apply_correction_example = apply_correction_lem true (aware 3) "casual" "urgent" none fresh

abbrev counts : Weights
counts = record { Float = ℕ; raised = λ n. n + 15; lowered = λ n. n - 15 }

abbrev misread : RegisterCorrectionEntry
misread = record {
  inferred_register = "casual";
  corrected_register = "urgent";
  thread_id = none;
  corrected_at = aware 1;
}

abbrev five : List RegisterCorrectionEntry
five = misread ∷ misread ∷ misread ∷ misread ∷ misread ∷ []

abbrev twenty : List RegisterCorrectionEntry
twenty = five ++ five ++ five ++ five

abbrev scores : Dict ℕ
scores = ("urgent", 0) ∷ ("casual", 500) ∷ []

prior_recent_example :
    ((r : String)
      → Dict.get (apply_correction_history_prior counts scores (five ++ twenty)) r
        ≡ mapped counts (moved_by_all counts twenty r) (Dict.get scores r))
    × (map (λ e. e.0) (apply_correction_history_prior counts scores (five ++ twenty))
        ≡ "urgent" ∷ "casual" ∷ [])
prior_recent_example = prior_recent counts scores five twenty (inl refl)
