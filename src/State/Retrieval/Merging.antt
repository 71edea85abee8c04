-- ===== src/State/Retrieval/Merging.antt =====
-- What a merge of two queries keeps.
use kai_daemon.Base.{
  ◌≡◌, ◌⊎◌, inl, inr, sym, subst, true, false, some, List, [], ◌∷◌, ◌==◌, arith, eq_iff, All,
  Bool-cases, Option-cases,
}
use kai_daemon.Base.Dict
use kai_daemon.Base.Dict.{
  Dict, get-put, get-put_self, All-values-put, put-IsKeyed, put-IsDistinct, IsKeyed, IsDistinct,
}
use kai_daemon.State.Retrieval.{
  ScoreFloats, SemanticResult, id_of, put_all, scaled, put_better, put_scaled, insert,
}

module _ (n : ScoreFloats) where
  -- No score is above the one before it.
  abbrev pub IsRanked : List (SemanticResult n) → Type 0
  IsRanked [] = Unit
  IsRanked (r ∷ rs) = All (λ s. n.floats.gt s.score r.score ≡ false) rs × IsRanked rs

  -- The dictionary has a result for the document of this one, and one that scores no less.
  abbrev pub Covers : Dict (SemanticResult n) → SemanticResult n → Type 0
  Covers d r =
      (s : SemanticResult n) × (Dict.get d r.document_id ≡ some s)
      × (n.floats.gt r.score s.score ≡ false)

  pub insert-All {κ} :
      (P : SemanticResult n → Type κ) (r : SemanticResult n) (rs : List (SemanticResult n))
      → P r
      → All P rs
      → All P (insert n r rs)
  unfolding insert
  insert-All P r [] h k = (h, tt)
  insert-All P r (s ∷ ss) h k = elim (Bool-cases (n.floats.gt s.score r.score)) [
    | inl above ↦ rw above (k.0, insert-All P r ss h k.1)
    | inr not_above ↦ rw not_above (h, k)
  ]

  put_better_cases :
      (d : Dict (SemanticResult n)) (r : SemanticResult n)
      → ((old : SemanticResult n) × (Dict.get d r.document_id ≡ some old)
          × (n.floats.gt r.score old.score ≡ false)
          × (put_better n d r ≡ d))
        ⊎ (((old : SemanticResult n)
              → Dict.get d r.document_id ≡ some old
              → n.floats.gt r.score old.score ≡ true)
            × (put_better n d r ≡ Dict.put d r.document_id r))
  unfolding put_better
  put_better_cases d r = elim (Option-cases (Dict.get d r.document_id)) [
    | inl absent ↦ inr (λ old found. cc, ground arith)
    | inr (old, found) ↦ elim (Bool-cases (n.floats.gt r.score old.score)) [
      | inl better ↦ inr (λ old' found'. ground arith, ground arith)
      | inr worse ↦ inl (old, found, worse, ground arith)
    ]
  ]

  below_better :
      (q r old : SemanticResult n)
      → n.floats.gt q.score old.score ≡ false
      → n.floats.gt r.score old.score ≡ true
      → n.floats.gt q.score r.score ≡ false
  below_better q r old no_less better = elim (Bool-cases (n.floats.gt q.score r.score)) [
    | inl above ↦ ground (arith, n.floats.gt_trans q.score r.score old.score above better)
    | inr e ↦ e
  ]

  -- Covering goes on as results are put in.
  put_better-Covers :
      (d : Dict (SemanticResult n)) (r q : SemanticResult n)
      → Covers d q
      → Covers (put_better n d r) q
  put_better-Covers d r q (s, there, no_less) = elim (put_better_cases d r) [
    | inl (old, found, worse, e) ↦ subst (λ d'. Covers d' q) (sym e) (s, there, no_less)
    | inr (better, e) ↦
        subst (λ d'. Covers d' q) (sym e)
          (elim (Bool-cases (r.document_id == q.document_id)) [
            | inl it ↦
                let found : Dict.get d r.document_id ≡ some s =
                  ground (arith, eq_iff r.document_id q.document_id) in
                (
                  r,
                  ground (arith, get-put d r.document_id q.document_id r),
                  below_better q r s no_less (better s found),
                )
            | inr other ↦ (s, ground (arith, get-put d r.document_id q.document_id r), no_less)
          ])
  ]

  put_better-Covers_self :
      (d : Dict (SemanticResult n)) (r : SemanticResult n) → Covers (put_better n d r) r
  put_better-Covers_self d r = elim (put_better_cases d r) [
    | inl (old, found, worse, e) ↦ subst (λ d'. Covers d' r) (sym e) (old, found, worse)
    | inr (better, e) ↦
        subst (λ d'. Covers d' r) (sym e)
          (r, get-put_self d r.document_id r, n.floats.gt_irrefl r.score)
  ]

  pub put_scaled-Covers :
      (weight : n.floats.Float) (d : Dict (SemanticResult n)) (rs : List (SemanticResult n))
      (q : SemanticResult n)
      → Covers d q
      → Covers (put_scaled n weight d rs) q
  unfolding put_scaled
  put_scaled-Covers weight d [] q h = h
  put_scaled-Covers weight d (r ∷ rs) q h =
      put_scaled-Covers weight (put_better n d (scaled n weight r)) rs q
        (put_better-Covers d (scaled n weight r) q h)

  pub put_scaled-Covers_all :
      (weight : n.floats.Float) (d : Dict (SemanticResult n)) (rs : List (SemanticResult n))
      → All (λ r. Covers (put_scaled n weight d rs) (scaled n weight r)) rs
  unfolding put_scaled
  put_scaled-Covers_all weight d [] = tt
  put_scaled-Covers_all weight d (r ∷ rs) =
      let d' = put_better n d (scaled n weight r) in
      (
        put_scaled-Covers weight d' rs (scaled n weight r)
            (put_better-Covers_self d (scaled n weight r)),
        put_scaled-Covers_all weight d' rs,
      )

  -- What every put keeps: the keys, and where the results come from.
  pub record IsTidy (P : SemanticResult n → Type 0) (d : Dict (SemanticResult n)) : Type 0 where
    pub keyed : IsKeyed (id_of n) d
    pub distinct : IsDistinct d
    pub from : All P (Dict.values d)

  put-IsTidy :
      (P : SemanticResult n → Type 0) (d : Dict (SemanticResult n)) (r : SemanticResult n)
      → P r
      → IsTidy P d
      → IsTidy P (Dict.put d r.document_id r)
  put-IsTidy P d r p h = record {
    keyed = put-IsKeyed (id_of n) d r h.keyed;
    distinct = put-IsDistinct d r.document_id r h.distinct;
    from = All-values-put P d r.document_id r h.from p;
  }

  put_better-IsTidy :
      (P : SemanticResult n → Type 0) (d : Dict (SemanticResult n)) (r : SemanticResult n)
      → P r
      → IsTidy P d
      → IsTidy P (put_better n d r)
  put_better-IsTidy P d r p h = elim (put_better_cases d r) [
    | inl (old, found, worse, e) ↦ subst (IsTidy P) (sym e) h
    | inr (better, e) ↦ subst (IsTidy P) (sym e) (put-IsTidy P d r p h)
  ]

  pub put_all-IsTidy :
      (P : SemanticResult n → Type 0) (d : Dict (SemanticResult n)) (rs : List (SemanticResult n))
      → All P rs
      → IsTidy P d
      → IsTidy P (put_all n d rs)
  unfolding put_all
  put_all-IsTidy P d [] p h = h
  put_all-IsTidy P d (r ∷ rs) p h =
      put_all-IsTidy P (Dict.put d r.document_id r) rs p.1 (put-IsTidy P d r p.0 h)

  pub put_scaled-IsTidy :
      (P : SemanticResult n → Type 0) (weight : n.floats.Float) (d : Dict (SemanticResult n))
      (rs : List (SemanticResult n))
      → All (λ r. P (scaled n weight r)) rs
      → IsTidy P d
      → IsTidy P (put_scaled n weight d rs)
  unfolding put_scaled
  put_scaled-IsTidy P weight d [] p h = h
  put_scaled-IsTidy P weight d (r ∷ rs) p h =
      put_scaled-IsTidy P weight (put_better n d (scaled n weight r)) rs p.1
        (put_better-IsTidy P d (scaled n weight r) p.0 h)
