-- ===== src/State/Borderline/Overdue.antt =====
-- Which items `expire_old` discards, and when it is broken off.
use kai_daemon.Base.{
  ◌≡◌, refl, ◌∙◌, ℕ, ◌+◌, ◌*◌, leb, inl, inr, String, Bool, true, false, ◌&&◌, ◌==◌, some, eq_iff,
  arith, List, [], ◌∷◌, filter, length, All, All-map, In, Bool-cases, if◌then◌else◌,
}
use kai_daemon.Base.Dict
use kai_daemon.Base.Dict.{Dict, get-put_ne, get-put_self, HasDistinctIds}
use kai_daemon.Base.Outcome.{return, raise, type_error}
use kai_daemon.Base.Time.{Stamp, aware, naive, malformed, day}
use kai_daemon.State.Borderline.{
  BorderlineItem, discarded, is_pending, item_id_of, discarded_copy, Expiry, expire_one, expire_all,
}

module _ (now : ℕ) where
  -- 30 days or more before now; a time that does not parse is not.
  abbrev pub is_old : Stamp → Bool
  is_old (aware t) = leb (t + 30 * day) now
  is_old (naive t) = false
  is_old (malformed text) = false

  abbrev pub lacks_offset : Stamp → Bool
  lacks_offset (aware t) = false
  lacks_offset (naive t) = true
  lacks_offset (malformed text) = false

  abbrev pub is_overdue : BorderlineItem → Bool
  is_overdue i = is_pending i.status && is_old i.created

  abbrev pub blocks : BorderlineItem → Bool
  blocks i = is_pending i.status && lacks_offset i.created

  -- What becomes of an item: an overdue one is discarded now, and any other stays.
  abbrev pub aged : BorderlineItem → BorderlineItem
  aged i =
      if is_overdue i then record i { status = discarded; discarded_at = some (aware now) } else i

  -- One pass of the loop.
  data Step (i : BorderlineItem) (x : Expiry) : Type 0 where
    breaks : blocks i ≡ true → expire_one now i x ≡ raise type_error → Step i x
    skips : blocks i ≡ false → is_overdue i ≡ false → expire_one now i x ≡ return x → Step i x
    expires_it :
        blocks i ≡ false
        → is_overdue i ≡ true
        → expire_one now i x
          ≡ return (record {
            items = Dict.put x.items i.id (discarded_copy now i);
            expired = x.expired + 1;
          })
        → Step i x

  step : (i : BorderlineItem) (x : Expiry) → Step i x
  unfolding expire_one
  step i x = elim (Bool-cases (is_pending i.status)) [
    | inr decided ↦ skips (ground arith) (ground arith) (ground arith)
    | inl waits ↦ by_created i.created refl waits
  ]
    where
      by_created : (c : Stamp) → i.created ≡ c → is_pending i.status ≡ true → Step i x
      by_created (malformed text) e w = skips (ground arith) (ground arith) (ground arith)
      by_created (naive t) e w = breaks (ground arith) (ground arith)
      by_created (aware t) e w = elim (Bool-cases (leb (t + 30 * day) now)) [
        | inl due ↦ expires_it (ground arith) (ground arith) (ground arith)
        | inr early ↦ skips (ground arith) (ground arith) (ground arith)
      ]

  -- What the loop comes to.
  pub data Ends (l : List BorderlineItem) (x : Expiry) : Type 0 where
    stops :
        (y : Expiry) (i : BorderlineItem)
        → expire_all now l x ≡ (raise type_error, y)
        → In i l
        → blocks i ≡ true
        → Ends l x
    finishes :
        (y : Expiry)
        → expire_all now l x ≡ (return y, y)
        → All (λ i. blocks i ≡ false) l
        → y.expired ≡ x.expired + length (filter is_overdue l)
        → All (λ i. Dict.get y.items i.id ≡ some (aged i)) l
        → ((k : String)
            → All (λ i. (i.id == k) ≡ false) l
            → Dict.get y.items k ≡ Dict.get x.items k)
        → Ends l x

  apart :
      (i : BorderlineItem) (l : List BorderlineItem)
      → All (λ j. (i.id == j.id) ≡ false) l
      → All (λ j. (j.id == i.id) ≡ false) l
  apart i l h =
      All-map (λ j. (i.id == j.id) ≡ false) (λ j. (j.id == i.id) ≡ false) l
        (λ j p. ground (arith, p, eq_iff i.id j.id, eq_iff j.id i.id)) h

  both :
      (P Q : BorderlineItem → Type 0) (l : List BorderlineItem)
      → All (λ j. P j → Q j) l
      → All P l
      → All Q l
  both P Q [] f h = tt
  both P Q (j ∷ l) f h = (f.0 h.0, both P Q l f.1 h.1)

  pub loop-Ends :
      (l : List BorderlineItem) (x : Expiry)
      → HasDistinctIds item_id_of l
      → All (λ i. Dict.get x.items i.id ≡ some i) l
      → Ends l x
  unfolding expire_all filter
  loop-Ends [] x distinct there = finishes x refl tt (ground arith) tt (λ k h. refl)
  loop-Ends (i ∷ l) x distinct there = elim (step i x) [
    | breaks b e ↦ stops x i (rw e refl) (inl refl) b
    | skips b early e ↦ elim (loop-Ends l x distinct.1 there.1) [
      | stops y j e' in_l b' ↦ stops y j (rw e e') (inr in_l) b'
      | finishes y e' free count found frame ↦
          finishes y (rw e e') (b, free) (rw early count)
            ((rw early (frame i.id (apart i l distinct.0) ∙ there.0)), found) (λ k h. frame k h.1)
    ]
    | expires_it b due e ↦
        let z : Expiry = record {
          items = Dict.put x.items i.id (discarded_copy now i);
          expired = x.expired + 1;
        } in
        let later =
          All-map (λ j. (i.id == j.id) ≡ false)
            (λ j. Dict.get x.items j.id ≡ some j → Dict.get z.items j.id ≡ some j) l
            (λ j other h. get-put_ne x.items i.id j.id (discarded_copy now i) other ∙ h)
            distinct.0 in
        elim (loop-Ends l z distinct.1 (both _ _ l later there.1)) [
          | stops y j e' in_l b' ↦ stops y j (rw e e') (inr in_l) b'
          | finishes y e' free count found frame ↦
              finishes y (rw e e') (b, free) (rw due (ground (arith, count)))
                (
                  (rw due (
                      frame i.id (apart i l distinct.0)
                      ∙ get-put_self x.items i.id (discarded_copy now i)
                      ∙ (unfold discarded_copy in refl))),
                  found,
                )
                (λ k h. frame k h.1 ∙ get-put_ne x.items i.id k (discarded_copy now i) h.0)
        ]
  ]
