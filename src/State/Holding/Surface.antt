-- ===== src/State/Holding/Surface.antt =====
-- Which items `forced_surface` returns.
use kai_daemon.Base.{
  ℕ, ◌+◌, ◌*◌, ◌≤◌, ◌≡◌, refl, ap, ◌∙◌, inl, inr, ◌↔◌, none, List, [], ◌∷◌, arith, All, In,
  In-filter, filter-In, is_none, leb, Bool-cases, eq-none_of_is_none,
}
use kai_daemon.Base.Dict
use kai_daemon.Base.Outcome.{Outcome, return}
use kai_daemon.Base.Time.{aware, day}
use kai_daemon.State.Holding.{
  HoldingYaml, HoldingItem, HoldingStore, Urgency, low, medium, high, surface_one, surface_all,
  forced_surface, list_unsurfaced, prepend,
}

-- Seven days for an urgent item, twenty-one for one of medium urgency, never for the others.
pub data IsOverdue (now : ℕ) (item : HoldingItem) : Type 0 where
  urgent :
      (t : ℕ)
      → item.urgency ≡ high
      → item.created ≡ aware t
      → t + 7 * day ≤ now
      → IsOverdue now item
  lingering :
      (t : ℕ)
      → item.urgency ≡ medium
      → item.created ≡ aware t
      → t + 21 * day ≤ now
      → IsOverdue now item

-- The item's timestamp was written by the program.
abbrev pub HasOffset : HoldingItem → Type 0
HasOffset item = (t : ℕ) × (item.created ≡ aware t)

data OneCase (now : ℕ) (item : HoldingItem) (rest : Outcome (List HoldingItem)) : Type 0 where
  kept : IsOverdue now item → surface_one now item rest ≡ prepend item rest → OneCase now item rest
  left : ¬ IsOverdue now item → surface_one now item rest ≡ rest → OneCase now item rest

one_cases :
    (now : ℕ) (item : HoldingItem) (rest : Outcome (List HoldingItem))
    → HasOffset item
    → OneCase now item rest
unfolding surface_one
one_cases now item rest (t, e) = by_urgency item.urgency refl
  where
    by_urgency : (u : Urgency) → item.urgency ≡ u → OneCase now item rest
    by_urgency low u =
        left (λ o. elim o [ urgent t' h _ _ ↦ cc | lingering t' h _ _ ↦ cc ]) (ground arith)
    by_urgency medium u = elim (Bool-cases (leb (t + 21 * day) now)) [
      | inl due ↦ kept (lingering t u e (ground arith)) (ground arith)
      | inr early ↦
          left (λ o. elim o [ urgent t' h _ _ ↦ cc | lingering t' h e' le ↦ ground arith ])
            (ground arith)
    ]
    by_urgency high u = elim (Bool-cases (leb (t + 7 * day) now)) [
      | inl due ↦ kept (urgent t u e (ground arith)) (ground arith)
      | inr early ↦
          left (λ o. elim o [ urgent t' h e' le ↦ ground arith | lingering t' h _ _ ↦ cc ])
            (ground arith)
    ]

abbrev Surfaces : ℕ → List HoldingItem → List HoldingItem → Type 0
Surfaces now items out = (i : HoldingItem) → In i out ↔ In i items × IsOverdue now i

surface_all_lem :
    (now : ℕ) (items : List HoldingItem)
    → All HasOffset items
    → (out : List HoldingItem) × (surface_all now items ≡ return out) × Surfaces now items out
unfolding surface_all
surface_all_lem now [] h = ([], refl, λ i. (λ m. elim m [ ], λ m. elim m.0 [ ]))
surface_all_lem now (item ∷ items) h =
    let (out, e, same) = surface_all_lem now items h.1 in
    elim (one_cases now item (surface_all now items) h.0) [
      | kept due s ↦ (
        item ∷ out,
        s ∙ ap (prepend item) e,
        λ i. (
          λ m. elim m [
            | inl p ↦ (inl p, rw (← p) due)
            | inr m' ↦ let q = (same i).0 m' in (inr q.0, q.1)
          ],
          λ m. elim m.0 [ inl p ↦ inl p | inr m' ↦ inr ((same i).1 (m', m.1)) ],
        ),
      )
      | left not_due s ↦ (
        out,
        s ∙ e,
        λ i. (
          λ m. let q = (same i).0 m in (inr q.0, q.1),
          λ m. elim m.0 [ inl p ↦ absurd (not_due (rw p m.1)) | inr m' ↦ (same i).1 (m', m.1) ],
        ),
      )
    ]

-- Where every unsurfaced item has a timestamp with an offset, `forced_surface` raises nothing, and
-- returns exactly the stored items that are not surfaced and overdue: after seven days at high
-- urgency, after twenty-one at medium, never at low.
pub forced_surface_exact :
    (yaml : HoldingYaml) (now : ℕ) (s : HoldingStore yaml)
    → All HasOffset (list_unsurfaced yaml s)
    → (out : List HoldingItem) × (forced_surface yaml now s ≡ return out)
      × ((i : HoldingItem)
          → In i out ↔ In i (Dict.values s.items) × (i.surfaced ≡ none) × IsOverdue now i)
unfolding forced_surface
forced_surface_exact yaml now s h =
    let (out, e, same) = surface_all_lem now (list_unsurfaced yaml s) h in
    (
      out,
      e,
      λ i. (
        λ m.
            let (listed, due) = (same i).0 m in
            let (there, w) = In-filter (λ j. is_none j.surfaced) i (Dict.values s.items) listed in
            (there, eq-none_of_is_none i.surfaced w, due),
        λ m.
            (same i).1
              (filter-In (λ j. is_none j.surfaced) i (Dict.values s.items) m.0 (rw m.1), m.2),
      ),
    )
