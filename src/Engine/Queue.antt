-- ===== src/Engine/Queue.antt =====
-- The `queue.PriorityQueue` of engine.py: `get` returns a least item by (priority, sequence).
use kai_daemon.Base.{
  All-zip, ◌<◌, ◌≡◌, refl, Bool, true, false, ◌&&◌, ◌||◌, Option, none, some, List, [], ◌∷◌, arith,
  ltb, nat_eq, All, Bool-cases, Option-cases, inl, inr, All-map, if◌then◌else◌,
}
use mathlib.Core.List.{Perm}
use mathlib.Core.List.Perm
use kai_daemon.Engine.Types.{QueueItem}

-- The order that `@dataclass(order=True)` derives from the two compared fields.
abbrev pub before : QueueItem → QueueItem → Bool
before a b =
    ltb a.priority b.priority || (nat_eq a.priority b.priority && ltb a.sequence b.sequence)

unfoldable pub get_least : List QueueItem → Option (QueueItem × List QueueItem)
get_least [] = none
get_least (x ∷ xs) = elim (get_least xs) [
  | none ↦ some (x, [])
  | some (m, rest) ↦ if before m x then some (m, x ∷ rest) else some (x, xs)
]

-- No item of the queue is before `m`.
abbrev pub IsLeast : QueueItem → List QueueItem → Type 0
IsLeast m = All (λ x. before x m ≡ false)

before_asym : (a b : QueueItem) → before a b ≡ true → before b a ≡ false
before_asym a b h = ground arith

before_irrefl : (a : QueueItem) → before a a ≡ false
before_irrefl a = ground arith

before_trans : (a b c : QueueItem) → before a b ≡ false → before c a ≡ false → before c b ≡ false
before_trans a b c h k = ground arith

-- What `get` may return: nothing from an empty queue, else a least item and the rest.
abbrev pub IsPop : List QueueItem → Option (QueueItem × List QueueItem) → Type 0
IsPop q none = q ≡ []
IsPop q (some (m, rest)) = IsLeast m q × Perm (m ∷ rest) q

get_least-cons :
    (x l : QueueItem) (xs others : List QueueItem)
    → IsLeast l xs
    → Perm (l ∷ others) xs
    → IsPop (x ∷ xs) (if before l x then some (l, x ∷ others) else some (x, xs))
get_least-cons x l xs others least same = elim (Bool-cases (before l x)) [
  | inl sooner ↦
      rw sooner
        ((before_asym l x sooner, least), Perm.trans (Perm.swap x l others) (Perm.cons x same))
  | inr later ↦ rw later (
    (
      before_irrefl x,
      All-map (λ y. before y l ≡ false) (λ y. before y x ≡ false) xs (λ y. before_trans l x y later)
          least,
    ),
    Perm.rfl,
  )
]

pub get_least-IsPop : (q : List QueueItem) → IsPop q (get_least q)
unfolding get_least
get_least-IsPop [] = refl
get_least-IsPop (x ∷ xs) = elim (Option-cases (get_least xs)) [
  | inl empty ↦
      let e : xs ≡ [] = rw empty at (get_least-IsPop xs) in
      rw (empty, e) ((before_irrefl x, tt), Perm.rfl)
  | inr ((l, others), found) ↦
      let (least, same) : IsPop xs (some (l, others)) = rw found at (get_least-IsPop xs) in
      rw found (get_least-cons x l xs others least same)
]

-- A property of every item is one of the item that `get` returns and of the rest.
abbrev pub OnPop : (QueueItem → Type 0) → Option (QueueItem × List QueueItem) → Type 0
OnPop P none = Unit
OnPop P (some (m, rest)) = P m × All P rest

pub get_least-All : (P : QueueItem → Type 0) (q : List QueueItem) → All P q → OnPop P (get_least q)
unfolding get_least
get_least-All P [] h = tt
get_least-All P (x ∷ xs) h = elim (Option-cases (get_least xs)) [
  | inl empty ↦ rw empty (h.0, tt)
  | inr ((l, others), found) ↦
      let (here, there) : OnPop P (some (l, others)) = rw found at (get_least-All P xs h.1) in
      elim (Bool-cases (before l x)) [
        | inl sooner ↦ rw found (rw sooner (here, (h.0, there)))
        | inr later ↦ rw found (rw later h)
      ]
]

-- Sequence numbers rise along the queue.
abbrev pub IsAscending : List QueueItem → Type 0
IsAscending [] = Unit
IsAscending (i ∷ q) = All (λ j. i.sequence < j.sequence) q × IsAscending q

-- The item is before each other, and the rest keeps its order.
abbrev pub IsFirst : Option (QueueItem × List QueueItem) → Type 0
IsFirst none = Unit
IsFirst (some (m, rest)) = All (λ j. before m j ≡ true) rest × IsAscending rest

-- What is not after `l`, which is not after `x`, and was submitted after `x`, is after `x`.
before_later :
    (x l y : QueueItem)
    → before l x ≡ false
    → x.sequence < y.sequence
    → before y l ≡ false
    → before x y ≡ true
before_later x l y h lt k = ground arith

All-later :
    (x l : QueueItem) (xs : List QueueItem)
    → before l x ≡ false
    → All (λ j. x.sequence < j.sequence) xs
    → IsLeast l xs
    → All (λ j. before x j ≡ true) xs
All-later x l xs later h k =
    All-zip (λ j. x.sequence < j.sequence) (λ j. before j l ≡ false) (λ j. before x j ≡ true) xs
      (λ y lt e. before_later x l y later lt e) h k

pub get_least-IsFirst : (q : List QueueItem) → IsAscending q → IsFirst (get_least q)
unfolding get_least
get_least-IsFirst [] h = tt
get_least-IsFirst (x ∷ xs) h = elim (Option-cases (get_least xs)) [
  | inl empty ↦ rw empty (tt, tt)
  | inr ((l, others), found) ↦
      let (firsts, asc) : IsFirst (some (l, others)) = rw found at (get_least-IsFirst xs h.1) in
      let (x_l, x_others) : OnPop (λ j. x.sequence < j.sequence) (some (l, others)) =
        rw found at (get_least-All (λ j. x.sequence < j.sequence) xs h.0) in
      elim (Bool-cases (before l x)) [
        | inl sooner ↦ rw found (rw sooner ((sooner, firsts), (x_others, asc)))
        | inr later ↦ rw found (
            rw later (
              All-later x l xs later h.0
                  (let p : IsPop xs (some (l, others)) = rw found at (get_least-IsPop xs) in p.0),
              h.1,
            ))
      ]
]
