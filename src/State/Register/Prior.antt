-- ===== src/State/Register/Prior.antt =====
-- What past corrections make of the prior.
use kai_daemon.Base.{
  eq_iff, ◌≤◌, ◌≡◌, refl, ap, ◌∙◌, ◌-◌, String, Bool, true, false, ◌==◌, arith, Option, none, some,
  List, [], ◌∷◌, ◌++◌, map, length, drop, drop-append, length-append, if◌then◌else◌, Bool-cases,
  Option-cases, inl, inr, ◌⊎◌,
}
use kai_daemon.Base.Dict
use kai_daemon.Base.Dict.{Dict, get-put}
use kai_daemon.State.Register.{
  RegisterCorrectionEntry, Weights, adjust, adjust_entry, adjust_all,
  apply_correction_history_prior,
}

abbrev keys {ℓ} : {V : Type ℓ} → Dict V → List String
keys = map (λ e. e.0)

put-keys :
    {V : Type 0} (d : Dict V) (k : String) (v w : V)
    → Dict.get d k ≡ some v
    → keys (Dict.put d k w) ≡ keys d
unfolding Dict.get Dict.put
put-keys [] k v w h = cc
put-keys ((j, u) ∷ d) k v w h = elim (Bool-cases (j == k)) [
  | inl same ↦ rw same refl
  | inr other ↦ rw other (ap (λ l. j ∷ l) (put-keys d k v w (ground arith)))
]

module _ (weights : Weights) where
  adjust-keys :
      (f : weights.Float → weights.Float) (r : String) (scores : Dict weights.Float)
      → keys (adjust weights f r scores) ≡ keys scores
  unfolding adjust
  adjust-keys f r scores = elim (Option-cases (Dict.get scores r)) [
    | inl absent ↦ rw (absent, adjust) refl
    | inr (x, found) ↦ rw (found, adjust) (put-keys scores r x (f x) found)
  ]

  adjust_all-keys :
      (entries : List RegisterCorrectionEntry) (scores : Dict weights.Float)
      → keys (adjust_all weights entries scores) ≡ keys scores
  unfolding adjust_all adjust_entry
  adjust_all-keys [] scores = refl
  adjust_all-keys (e ∷ entries) scores =
      adjust_all-keys entries (adjust_entry weights e scores)
      ∙ adjust-keys weights.raised e.corrected_register _
      ∙ adjust-keys weights.lowered e.inferred_register scores

  abbrev pub mapped : (weights.Float → weights.Float) → Option weights.Float → Option weights.Float
  mapped f none = none
  mapped f (some x) = some (f x)

  -- What one correction makes of the score of a register: it lowers the one that was inferred, and
  -- raises the one that it is corrected to.
  unfoldable pub moved_by : RegisterCorrectionEntry → String → weights.Float → weights.Float
  moved_by e r x =
      let y = if e.inferred_register == r then weights.lowered x else x in
      if e.corrected_register == r then weights.raised y else y

  unfoldable pub moved_by_all :
      List RegisterCorrectionEntry → String → weights.Float → weights.Float
  unfolding moved_by
  moved_by_all [] r x = x
  moved_by_all (e ∷ es) r x = moved_by_all es r (moved_by e r x)

  adjust-get :
      (f : weights.Float → weights.Float) (k r : String) (scores : Dict weights.Float)
      → Dict.get (adjust weights f k scores) r
        ≡ (if k == r then mapped f (Dict.get scores r) else Dict.get scores r)
  unfolding adjust
  adjust-get f k r scores = elim (Option-cases (Dict.get scores k)) [
    | inl absent ↦ ground (arith, eq_iff k r)
    | inr (x, found) ↦ ground (arith, eq_iff k r, get-put scores k r (f x))
  ]

  mapped-mapped :
      (f g : weights.Float → weights.Float) (o : Option weights.Float)
      → mapped f (mapped g o) ≡ mapped (λ x. f (g x)) o
  mapped-mapped f g none = refl
  mapped-mapped f g (some x) = refl

  adjust_entry-get :
      (e : RegisterCorrectionEntry) (r : String) (scores : Dict weights.Float)
      → Dict.get (adjust_entry weights e scores) r ≡ mapped (moved_by e r) (Dict.get scores r)
  unfolding adjust_entry moved_by
  adjust_entry-get e r scores =
      adjust-get weights.raised e.corrected_register r
        (adjust weights weights.lowered e.inferred_register scores)
      ∙ ap (λ o. if e.corrected_register == r then mapped weights.raised o else o)
          (adjust-get weights.lowered e.inferred_register r scores)
      ∙ both (Dict.get scores r) (e.corrected_register == r) (e.inferred_register == r)
    where
      both :
          (o : Option weights.Float) (b c : Bool)
          → (let p = if c then mapped weights.lowered o else o in
              if b then mapped weights.raised p else p)
            ≡ mapped
                (λ x.
                  let y = if c then weights.lowered x else x in if b then weights.raised y else y)
                o
      both none true true = refl
      both none true false = refl
      both none false true = refl
      both none false false = refl
      both (some x) true true = refl
      both (some x) true false = refl
      both (some x) false true = refl
      both (some x) false false = refl

  adjust_all-get :
      (es : List RegisterCorrectionEntry) (r : String) (scores : Dict weights.Float)
      → Dict.get (adjust_all weights es scores) r ≡ mapped (moved_by_all es r) (Dict.get scores r)
  unfolding adjust_all moved_by_all
  adjust_all-get [] r scores = mapped-id (Dict.get scores r)
    where
      mapped-id : (o : Option weights.Float) → o ≡ mapped (λ x. x) o
      mapped-id none = refl
      mapped-id (some x) = refl
  adjust_all-get (e ∷ es) r scores =
      adjust_all-get es r (adjust_entry weights e scores)
      ∙ ap (mapped (moved_by_all es r)) (adjust_entry-get e r scores)
      ∙ mapped-mapped (moved_by_all es r) (moved_by e r) (Dict.get scores r)

  -- The corrections that count: the last 20, or all where there are no more.
  abbrev pub AreLast : List RegisterCorrectionEntry → List RegisterCorrectionEntry → Type 0
  AreLast older recent = (length recent ≡ 20) ⊎ ((older ≡ []) × (length recent ≤ 20))

  last_twenty :
      (older recent : List RegisterCorrectionEntry)
      → AreLast older recent
      → drop (length (older ++ recent) - 20) (older ++ recent) ≡ recent
  last_twenty older recent (inl h) =
      let all : length (older ++ recent) - 20 ≡ length older =
        omega (arith, length-append older recent, h) in
      ap (λ n. drop n (older ++ recent)) all ∙ drop-append older recent
  last_twenty older recent (inr (e, h)) =
      let none_old : length recent - 20 ≡ 0 = omega (arith, h) in
      ap (λ o. drop (length (o ++ recent) - 20) (o ++ recent)) e ∙ ap (λ n. drop n recent) none_old

  -- The prior has the scores' registers in their order. Only the last 20 corrections count, or all
  -- where there are no more; each of these in turn lowers the score of the register that it
  -- inferred and raises that of the one it was corrected to, and no other score changes.
  pub prior_recent :
      (base : Dict weights.Float) (older recent : List RegisterCorrectionEntry)
      → AreLast older recent
      → ((r : String)
          → Dict.get (apply_correction_history_prior weights base (older ++ recent)) r
            ≡ mapped (moved_by_all recent r) (Dict.get base r))
        × (keys (apply_correction_history_prior weights base (older ++ recent)) ≡ keys base)
  unfolding apply_correction_history_prior
  prior_recent base older recent h = (
    λ r.
        ap (λ l. Dict.get (adjust_all weights l base) r) (last_twenty older recent h)
        ∙ adjust_all-get recent r base,
    adjust_all-keys (drop (length (older ++ recent) - 20) (older ++ recent)) base,
  )
