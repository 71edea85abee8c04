-- ===== src/State/Retrieval/Ranking.antt =====
-- The order of a merged answer, and what is in it.
use kai_daemon.Base.{
  ◌≡◌, ap, ◌∙◌, ◌++◌, String, ◌⊎◌, inl, inr, refl, true, false, some, List, [], ◌∷◌, ◌==◌, arith,
  eq_iff, All, All-map, All-of_In, In, Bool-cases,
}
use kai_daemon.Base.Dict
use kai_daemon.Base.Dict.{
  Dict, IsKeyed, HasDistinctIds, values-HasDistinctIds, get-In, get-IsKeyed, get-put_ne,
  get-put_self,
}
use kai_daemon.State.Retrieval.{
  ScoreFloats, SemanticResult, id_of, put_all, scaled, put_scaled, insert, sort_by_score, merge,
}
use kai_daemon.State.Retrieval.Merging.{
  IsRanked, Covers, insert-All, put_scaled-Covers, put_scaled-Covers_all, IsTidy, put_all-IsTidy,
  put_scaled-IsTidy,
}

module _ (n : ScoreFloats) where
  abbrev pub IsScored : SemanticResult n → Type 0
  IsScored r = n.floats.is_number r.score ≡ true

  not_above_trans :
      (x s r : SemanticResult n)
      → IsScored s
      → n.floats.gt x.score s.score ≡ false
      → n.floats.gt s.score r.score ≡ false
      → n.floats.gt x.score r.score ≡ false
  not_above_trans x s r number a b = elim (Bool-cases (n.floats.gt x.score r.score)) [
    | inr e ↦ e
    | inl above ↦ elim (n.floats.gt_split x.score r.score s.score number above) [
      | inl p ↦ cc
      | inr p ↦ cc
    ]
  ]

  below_if_above :
      (s r : SemanticResult n)
      → n.floats.gt s.score r.score ≡ true
      → n.floats.gt r.score s.score ≡ false
  below_if_above s r above = elim (Bool-cases (n.floats.gt r.score s.score)) [
    | inr e ↦ e
    | inl back ↦
        let p = n.floats.gt_trans s.score r.score s.score above back in
        let q = n.floats.gt_irrefl s.score in cc
  ]

  insert-IsRanked :
      (r : SemanticResult n) (rs : List (SemanticResult n))
      → All IsScored rs
      → IsRanked n rs
      → IsRanked n (insert n r rs)
  unfolding insert
  insert-IsRanked r [] numbers h = (tt, tt)
  insert-IsRanked r (s ∷ ss) numbers h = elim (Bool-cases (n.floats.gt s.score r.score)) [
    | inl above ↦ rw above (
      insert-All n (λ x. n.floats.gt x.score s.score ≡ false) r ss (below_if_above s r above) h.0,
      insert-IsRanked r ss numbers.1 h.1,
    )
    | inr not_above ↦ rw not_above (
      (
        not_above,
        All-map (λ x. n.floats.gt x.score s.score ≡ false)
            (λ x. n.floats.gt x.score r.score ≡ false) ss
            (λ x p. not_above_trans x s r numbers.0 p not_above) h.0,
      ),
      h,
    )
  ]

  sort-All :
      (P : SemanticResult n → Type 0) (rs : List (SemanticResult n))
      → All P rs
      → All P (sort_by_score n rs)
  unfolding sort_by_score
  sort-All P [] h = tt
  sort-All P (r ∷ rs) h = insert-All n P r (sort_by_score n rs) h.0 (sort-All P rs h.1)

  sort-IsRanked : (rs : List (SemanticResult n)) → All IsScored rs → IsRanked n (sort_by_score n rs)
  unfolding sort_by_score
  sort-IsRanked [] h = tt
  sort-IsRanked (r ∷ rs) h =
      insert-IsRanked r (sort_by_score n rs) (sort-All IsScored rs h.1) (sort-IsRanked rs h.1)

  insert-HasDistinctIds :
      (r : SemanticResult n) (rs : List (SemanticResult n))
      → All (λ m. (r.document_id == m.document_id) ≡ false) rs
      → HasDistinctIds (id_of n) rs
      → HasDistinctIds (id_of n) (insert n r rs)
  unfolding insert
  insert-HasDistinctIds r [] a h = (tt, tt)
  insert-HasDistinctIds r (s ∷ ss) a h = elim (Bool-cases (n.floats.gt s.score r.score)) [
    | inl above ↦ rw above (
      insert-All n (λ m. (s.document_id == m.document_id) ≡ false) r ss
          (ground
            (arith, a.0, eq_iff r.document_id s.document_id, eq_iff s.document_id r.document_id))
          h.0,
      insert-HasDistinctIds r ss a.1 h.1,
    )
    | inr not_above ↦ rw not_above (a, h)
  ]

  sort-HasDistinctIds :
      (rs : List (SemanticResult n))
      → HasDistinctIds (id_of n) rs
      → HasDistinctIds (id_of n) (sort_by_score n rs)
  unfolding sort_by_score
  sort-HasDistinctIds [] h = tt
  sort-HasDistinctIds (r ∷ rs) h =
      insert-HasDistinctIds r (sort_by_score n rs)
        (sort-All (λ m. (r.document_id == m.document_id) ≡ false) rs h.0)
        (sort-HasDistinctIds rs h.1)

  insert-In :
      (x r : SemanticResult n) (rs : List (SemanticResult n))
      → ((r ≡ x) ⊎ In x rs)
      → In x (insert n r rs)
  unfolding insert
  insert-In x r [] (inl e) = inl e
  insert-In x r [] (inr i) = elim i [ ]
  insert-In x r (s ∷ ss) i = elim (Bool-cases (n.floats.gt s.score r.score)) [
    | inl above ↦ rw above (elim i [
      | inl e ↦ inr (insert-In x r ss (inl e))
      | inr (inl e) ↦ inl e
      | inr (inr j) ↦ inr (insert-In x r ss (inr j))
    ])
    | inr not_above ↦ rw not_above i
  ]

  sort-In :
      (x : SemanticResult n) (rs : List (SemanticResult n)) → In x rs → In x (sort_by_score n rs)
  unfolding sort_by_score
  sort-In x [] i = i
  sort-In x (r ∷ rs) (inl e) = insert-In x r (sort_by_score n rs) (inl e)
  sort-In x (r ∷ rs) (inr i) = insert-In x r (sort_by_score n rs) (inr (sort-In x rs i))

  -- A result of the primary query, or a scaled one of the secondary.
  abbrev pub IsFrom :
      List (SemanticResult n) → List (SemanticResult n) → n.floats.Float → SemanticResult n → Type 0
  IsFrom primary secondary weight r =
      In r primary ⊎ ((q : SemanticResult n) × In q secondary × (r ≡ scaled n weight q))

  -- The answer has the document of this result, and scores it no less.
  abbrev pub Keeps : List (SemanticResult n) → SemanticResult n → Type 0
  Keeps out r =
      (s : SemanticResult n) × In s out
      × (s.document_id ≡ r.document_id)
      × (n.floats.gt r.score s.score ≡ false)

  merged-IsTidy :
      (P : SemanticResult n → Type 0) (primary secondary : List (SemanticResult n))
      (weight : n.floats.Float)
      → All P primary
      → All (λ r. P (scaled n weight r)) secondary
      → IsTidy n P (put_scaled n weight (put_all n [] primary) secondary)
  merged-IsTidy P primary secondary weight h k =
      put_scaled-IsTidy n P weight (put_all n [] primary) secondary k
        (put_all-IsTidy n P [] primary h (record { keyed = tt; distinct = tt; from = tt }))

  Covers-Keeps :
      (d : Dict (SemanticResult n)) (r : SemanticResult n)
      → IsKeyed (id_of n) d
      → Covers n d r
      → Keeps (sort_by_score n (Dict.values d)) r
  Covers-Keeps d r keyed (s, found, no_less) = (
    s,
    sort-In s (Dict.values d) (get-In d r.document_id s found),
    get-IsKeyed (id_of n) d r.document_id s keyed found,
    no_less,
  )

  put_all-others :
      (d : Dict (SemanticResult n)) (rs : List (SemanticResult n)) (id : String)
      → All (λ r. (r.document_id == id) ≡ false) rs
      → Dict.get (put_all n d rs) id ≡ Dict.get d id
  unfolding put_all
  put_all-others d [] id h = refl
  put_all-others d (r ∷ rs) id h =
      put_all-others (Dict.put d r.document_id r) rs id h.1 ∙ get-put_ne d r.document_id id r h.0

  -- The dictionary of a query has the last result for each document.
  put_all-last :
      (d : Dict (SemanticResult n)) (before after : List (SemanticResult n)) (p : SemanticResult n)
      → All (λ r. (r.document_id == p.document_id) ≡ false) after
      → Dict.get (put_all n d (before ++ p ∷ after)) p.document_id ≡ some p
  unfolding put_all
  put_all-last d [] after p h =
      put_all-others (Dict.put d p.document_id p) after p.document_id h
      ∙ get-put_self d p.document_id p
  put_all-last d (r ∷ before) after p h = put_all-last (Dict.put d r.document_id r) before after p h

  -- Where the scores are numbers, a merge is ranked from the highest score down and has each
  -- document once, every result of it is a primary one or a secondary one scaled by the weight, and
  -- no document is lost or scored less than it was: neither one of the secondary query, as it is
  -- scaled, nor the last result that the primary query has for a document.
  pub merge_lem :
      (primary secondary : List (SemanticResult n)) (weight : n.floats.Float)
      → All IsScored primary
      → All (λ r. IsScored (scaled n weight r)) secondary
      → IsRanked n (merge n primary secondary weight)
        × HasDistinctIds (id_of n) (merge n primary secondary weight)
        × All (IsFrom primary secondary weight) (merge n primary secondary weight)
        × All (λ r. Keeps (merge n primary secondary weight) (scaled n weight r)) secondary
        × ((p : SemanticResult n)
            → (before after : List (SemanticResult n)) → primary ≡ before ++ p ∷ after
            → All (λ r. (r.document_id == p.document_id) ≡ false) after
            → Keeps (merge n primary secondary weight) p)
  unfolding merge
  merge_lem primary secondary weight h k =
      let d = put_scaled n weight (put_all n [] primary) secondary in
      let numbers = merged-IsTidy IsScored primary secondary weight h k in
      let from =
        merged-IsTidy (IsFrom primary secondary weight) primary secondary weight
          (All-of_In (IsFrom primary secondary weight) primary (λ r i. inl i))
          (All-of_In (λ r. IsFrom primary secondary weight (scaled n weight r)) secondary
            (λ r i. inr (r, i, refl))) in
      (
        sort-IsRanked (Dict.values d) numbers.from,
        sort-HasDistinctIds (Dict.values d)
            (values-HasDistinctIds (id_of n) d numbers.keyed numbers.distinct),
        sort-All (IsFrom primary secondary weight) (Dict.values d) from.from,
        All-map (λ r. Covers n d (scaled n weight r))
            (λ r. Keeps (sort_by_score n (Dict.values d)) (scaled n weight r)) secondary
            (λ r c. Covers-Keeps d (scaled n weight r) numbers.keyed c)
            (put_scaled-Covers_all n weight (put_all n [] primary) secondary),
        λ p before after parts last. Covers-Keeps d p numbers.keyed (
            put_scaled-Covers n weight (put_all n [] primary) secondary p (
              p,
              ap (λ l. Dict.get (put_all n [] l) p.document_id) parts
                  ∙ put_all-last [] before after p last,
              n.floats.gt_irrefl p.score,
            )),
      )
