-- ===== src/State/Borderline/Final.antt =====
-- What becomes of an item of the pool, and of the pool's file.
use kai_daemon.Base.{
  ◌≡◌, refl, ◌∙◌, ℕ, ◌+◌, ◌*◌, leb, ◌≤◌, inl, inr, String, true, false, arith, List, [], ◌∷◌, ◌==◌,
  All, Bool-cases,
}
use kai_daemon.Base.Dict
use kai_daemon.Base.Dict.{
  Dict, get-put, get-put_ne, IsKeyed, IsDistinct, put-IsKeyed, put-IsDistinct, values-get,
  get-IsKeyed, from_rows-values,
}
use kai_daemon.Base.Outcome.{return, raise, type_error}
use kai_daemon.Base.Time.{Stamp, aware, naive, malformed, day}
use kai_daemon.State.Borderline.{
  BorderlineItem, borderline_expiry_days, is_pending, item_id_of, discarded_copy, Expiry,
  expire_one, expire_all,
}

-- The calls that write; the identifier of an appended item is its new UUID.
pub data Call : Type 0 where
  appends : String → Stamp → String → Call
  promotes : String → ℕ → Call
  discards : String → ℕ → Call
  expires : ℕ → Call

-- A new UUID is not the identifier `k`.
abbrev pub Spares : String → Call → Type 0
Spares k (appends item_id created raw_output) = (item_id == k) ≡ false
Spares k _ = Unit

-- Each item stands under its own id, once.
pub record IsKept (d : Dict BorderlineItem) : Type 0 where
  pub keyed : IsKeyed item_id_of d
  pub distinct : IsDistinct d

pub put-IsKept :
    (d : Dict BorderlineItem) (v : BorderlineItem) → IsKept d → IsKept (Dict.put d v.id v)
put-IsKept d v h = record {
  keyed = put-IsKeyed item_id_of d v h.keyed;
  distinct = put-IsDistinct d v.id v h.distinct;
}

-- What one pass of the loop did.
data Pass (now : ℕ) (item : BorderlineItem) (x : Expiry) : Type 0 where
  breaks : expire_one now item x ≡ raise type_error → Pass now item x
  skips : expire_one now item x ≡ return x → Pass now item x
  expires_it :
      is_pending item.status ≡ true
      → expire_one now item x
        ≡ return (record {
          items = Dict.put x.items item.id (discarded_copy now item);
          expired = x.expired + 1;
        })
      → Pass now item x

pass : (now : ℕ) (item : BorderlineItem) (x : Expiry) → Pass now item x
unfolding expire_one
pass now item x = elim (Bool-cases (is_pending item.status)) [
  | inr decided ↦ skips (ground arith)
  | inl waits ↦ by_created item.created refl waits
]
  where
    by_created : (c : Stamp) → item.created ≡ c → is_pending item.status ≡ true → Pass now item x
    by_created (malformed text) e w = skips (ground arith)
    by_created (naive t) e w = breaks (ground arith)
    by_created (aware t) e w = elim (Bool-cases (leb (t + borderline_expiry_days * day) now)) [
      | inl due ↦ expires_it w (ground arith)
      | inr early ↦ skips (ground arith)
    ]

module _ (now : ℕ) where
  -- What the loop leaves in memory, and what it returns.
  pub data Loop (l : List BorderlineItem) (x : Expiry) : Type 0 where
    broken : (y : Expiry) → expire_all now l x ≡ (raise type_error, y) → IsKept y.items → Loop l x
    done :
        (y : Expiry)
        → expire_all now l x ≡ (return y, y)
        → IsKept y.items
        → x.expired ≤ y.expired
        → (x.expired ≡ y.expired → y.items ≡ x.items)
        → Loop l x

  pub loop : (l : List BorderlineItem) (x : Expiry) → IsKept x.items → Loop l x
  unfolding expire_all
  loop [] x h = done x refl h (omega arith) (λ e. refl)
  loop (i ∷ l) x h = elim (pass now i x) [
    | breaks e ↦ broken x (rw e refl) h
    | skips e ↦ elim (loop l x h) [
      | broken y e' k ↦ broken y (rw e e') k
      | done y e' k le same ↦ done y (rw e e') k le same
    ]
    | expires_it w e ↦
        let z : Expiry = record {
          items = Dict.put x.items i.id (discarded_copy now i);
          expired = x.expired + 1;
        } in
        elim (loop l z (unfold discarded_copy in put-IsKept x.items (discarded_copy now i) h)) [
          | broken y e' k ↦ broken y (rw e e') k
          | done y e' k le same ↦ done y (rw e e') k (omega (arith, le)) (λ q. ground (arith, le))
        ]
  ]

  -- An item that no pending item of the list is named for is not changed.
  pub loop-get :
      (l : List BorderlineItem) (x : Expiry) (k : String)
      → All (λ i. is_pending i.status ≡ true → (i.id == k) ≡ false) l
      → Dict.get (expire_all now l x).1.items k ≡ Dict.get x.items k
  unfolding expire_all
  loop-get [] x k h = refl
  loop-get (i ∷ l) x k h = elim (pass now i x) [
    | breaks e ↦ rw e refl
    | skips e ↦ rw e (loop-get l x k h.1)
    | expires_it w e ↦
        let z : Expiry = record {
          items = Dict.put x.items i.id (discarded_copy now i);
          expired = x.expired + 1;
        } in
        rw e (loop-get l z k h.1 ∙ get-put_ne x.items i.id k (discarded_copy now i) (h.0 w))
  ]
