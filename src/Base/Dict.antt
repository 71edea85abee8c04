-- ===== src/Base/Dict.antt =====
-- Python's `dict` with string keys: the entries in insertion order, which is the order of
-- iteration. A write to a present key keeps its place, and a new key goes to the end.
use Prim.Native.String.{String}
use mathlib.Core.Path.{◌≡◌, refl, sym, subst, ap, ◌∙◌}
use mathlib.Core.Logic.{inl, inr}
use mathlib.Core.Bool.{Bool, false}
use mathlib.Core.Option.{Option, none, some}
use mathlib.Core.List.{List, [], ◌∷◌, ◌++◌, map, append_assoc, append-nil}
use native.Mathlib.Omega.{arith}
use text.Mathlib.Text.{◌==◌}
use text.Mathlib.TextEquality.{eq_iff}
use text.Mathlib.TextPositions.{eq_refl}
use kai_daemon.Base.Tests.{if◌then◌else◌, is_some, Bool-cases}
use kai_daemon.Base.Lists.{All, In, All-In}

abbrev pub Dict {ℓ} : Type ℓ → Type ℓ
Dict V = List (String × V)

module _ {ℓ} {V : Type ℓ} where
  -- `d.get(k)`
  unfoldable pub get : Dict V → String → Option V
  get [] k = none
  get ((j, v) ∷ d) k = if j == k then some v else get d k

  -- `d[k] = v`
  unfoldable pub put : Dict V → String → V → Dict V
  put [] k v = (k, v) ∷ []
  put ((j, w) ∷ d) k v = if j == k then (j, v) ∷ d else (j, w) ∷ put d k v

  -- `k in d`
  abbrev pub has : Dict V → String → Bool
  has d k = is_some (get d k)

  -- `list(d.values())`
  abbrev pub values : Dict V → List V
  values = map (λ e. e.1)

  pub get-put :
      (d : Dict V) (k j : String) (v : V) → get (put d k v) j ≡ (if k == j then some v else get d j)
  unfolding get put
  get-put [] k j v = refl
  get-put ((i, w) ∷ d) k j v = ground (arith, eq_iff k j, eq_iff i k, eq_iff i j, get-put d k j v)

  pub get-put_self : (d : Dict V) (k : String) (v : V) → get (put d k v) k ≡ some v
  get-put_self d k v = simp (get-put, eq_refl)

  pub get-put_ne :
      (d : Dict V) (k j : String) (v : V) → (k == j) ≡ false → get (put d k v) j ≡ get d j
  get-put_ne d k j v h = rw get-put (rw h)

  -- No key twice.
  abbrev pub IsDistinct : Dict V → Type ℓ
  IsDistinct [] = Unit
  IsDistinct ((k, v) ∷ d) = (get d k ≡ none) × IsDistinct d

  pub put-IsDistinct : (d : Dict V) (k : String) (v : V) → IsDistinct d → IsDistinct (put d k v)
  unfolding put get
  put-IsDistinct [] k v h = (refl, tt)
  put-IsDistinct ((j, w) ∷ d) k v h = elim (Bool-cases (j == k)) [
    | inl same ↦ rw same (h.0, h.1)
    | inr other ↦
        rw other (ground (arith, get-put d k j v, eq_iff k j, eq_iff j k), put-IsDistinct d k v h.1)
  ]

  pub put_absent : (d : Dict V) (k : String) (v : V) → get d k ≡ none → put d k v ≡ d ++ (k, v) ∷ []
  unfolding put get
  put_absent [] k v h = refl
  put_absent ((j, w) ∷ d) k v h = ground (arith, put_absent d k v)

  pub get-append_none : (d e : Dict V) (k : String) → get d k ≡ none → get (d ++ e) k ≡ get e k
  unfolding get
  get-append_none [] e k h = refl
  get-append_none ((j, w) ∷ d) e k h = ground (arith, get-append_none d e k)

  pub get-In : (d : Dict V) (k : String) (v : V) → get d k ≡ some v → In v (values d)
  unfolding get
  get-In [] k v h = cc
  get-In ((j, w) ∷ d) k v h = elim (Bool-cases (j == k)) [
    | inl same ↦ inl (ground arith)
    | inr other ↦ inr (get-In d k v (ground arith))
  ]

module _ {ℓ κ} {V : Type ℓ} (P : V → Type κ) where
  pub All-values-put :
      (d : Dict V) (k : String) (v : V) → All P (values d) → P v → All P (values (put d k v))
  unfolding put
  All-values-put [] k v h p = (p, tt)
  All-values-put ((j, w) ∷ d) k v h p = elim (Bool-cases (j == k)) [
    | inl same ↦ rw same (p, h.1)
    | inr other ↦ rw other (h.0, All-values-put d k v h.1 p)
  ]

  pub All-values-get : (d : Dict V) (k : String) (v : V) → All P (values d) → get d k ≡ some v → P v
  All-values-get d k v h e = All-In P v (values d) h (get-In d k v e)

module _ {ℓ} {V : Type ℓ} (id : V → String) where
  -- Each value stands under its own `id`.
  abbrev pub IsKeyed : Dict V → Type 0
  IsKeyed = All (λ e. id e.1 ≡ e.0)

  pub put-IsKeyed : (d : Dict V) (v : V) → IsKeyed d → IsKeyed (put d (id v) v)
  unfolding put
  put-IsKeyed [] v h = (refl, tt)
  put-IsKeyed ((j, w) ∷ d) v h = elim (Bool-cases (j == id v)) [
    | inl same ↦ rw same (ground (arith, eq_iff j (id v)), h.1)
    | inr other ↦ rw other (h.0, put-IsKeyed d v h.1)
  ]

  -- The record that is found under a key has that key for its id.
  pub get-IsKeyed : (d : Dict V) (k : String) (v : V) → IsKeyed d → get d k ≡ some v → id v ≡ k
  unfolding get
  get-IsKeyed [] k v h e = cc
  get-IsKeyed ((j, w) ∷ d) k v h e = elim (Bool-cases (j == k)) [
    | inl same ↦ ground (arith, eq_iff j k)
    | inr other ↦ get-IsKeyed d k v h.1 (ground arith)
  ]

  -- `for row in rows: d[row.id] = row`
  unfoldable pub from_rows : Dict V → List V → Dict V
  from_rows d [] = d
  from_rows d (v ∷ rows) = from_rows (put d (id v) v) rows

  pub from_rows-IsDistinct :
      (d : Dict V) (rows : List V) → IsDistinct d → IsDistinct (from_rows d rows)
  unfolding from_rows
  from_rows-IsDistinct d [] h = h
  from_rows-IsDistinct d (v ∷ rows) h =
      from_rows-IsDistinct (put d (id v) v) rows (put-IsDistinct d (id v) v h)

  pub from_rows-IsKeyed : (d : Dict V) (rows : List V) → IsKeyed d → IsKeyed (from_rows d rows)
  unfolding from_rows
  from_rows-IsKeyed d [] h = h
  from_rows-IsKeyed d (v ∷ rows) h = from_rows-IsKeyed (put d (id v) v) rows (put-IsKeyed d v h)

module _ {ℓ} {V : Type ℓ} where
  -- No key of the second dictionary is in the first.
  abbrev Apart : Dict V → Dict V → Type ℓ
  Apart d [] = Unit
  Apart d ((k, v) ∷ e) = (get d k ≡ none) × Apart d e

  Apart-snoc :
      (d e : Dict V) (k : String) (v : V) → Apart d e → get e k ≡ none → Apart (d ++ (k, v) ∷ []) e
  unfolding get
  Apart-snoc d [] k v h absent = tt
  Apart-snoc d ((j, w) ∷ e) k v h absent = (
    ground (arith, get-append_none d ((k, v) ∷ []) j h.0, eq_iff j k, eq_iff k j),
    Apart-snoc d e k v h.1 (ground arith),
  )

  Apart-nil : (e : Dict V) → Apart [] e
  unfolding get
  Apart-nil [] = tt
  Apart-nil ((k, v) ∷ e) = (refl, Apart-nil e)

  from_rows-values_append :
      (id : V → String) (d e : Dict V)
      → IsKeyed id e
      → IsDistinct e
      → Apart d e
      → from_rows id d (values e) ≡ d ++ e
  unfolding from_rows
  from_rows-values_append id d [] keyed distinct apart = rw append-nil
  from_rows-values_append id d ((k, v) ∷ e) keyed distinct apart =
      ap (λ j. from_rows id (put d j v) (values e)) keyed.0
      ∙ ap (λ d'. from_rows id d' (values e)) (put_absent d k v apart.0)
      ∙ from_rows-values_append id (d ++ (k, v) ∷ []) e keyed.1 distinct.1
          (Apart-snoc d e k v apart.1 distinct.0)
      ∙ append_assoc d ((k, v) ∷ []) e

  -- Reading back the rows of a dictionary rebuilds it, order included.
  pub from_rows-values :
      (id : V → String) (d : Dict V) → IsKeyed id d → IsDistinct d → from_rows id [] (values d) ≡ d
  from_rows-values id d keyed distinct =
      from_rows-values_append id [] d keyed distinct (Apart-nil d)

  values-cons_get :
      (id : V → String) (d : Dict V) (k : String) (v : V) (ws : List V)
      → get d k ≡ none
      → All (λ w. get d (id w) ≡ some w) ws
      → All (λ w. get ((k, v) ∷ d) (id w) ≡ some w) ws
  unfolding get
  values-cons_get id d k v [] h a = tt
  values-cons_get id d k v (w ∷ ws) h a =
      (ground (arith, eq_iff k (id w)), values-cons_get id d k v ws h a.1)

  -- Each value of a keyed dictionary is found under its id.
  pub values-get :
      (id : V → String) (d : Dict V)
      → IsKeyed id d
      → IsDistinct d
      → All (λ v. get d (id v) ≡ some v) (values d)
  unfolding get
  values-get id [] keyed distinct = tt
  values-get id ((k, v) ∷ d) keyed distinct = (
    rw (keyed.0, eq_refl),
    values-cons_get id d k v (values d) distinct.0 (values-get id d keyed.1 distinct.1),
  )

  -- No two records of a list have the same id.
  abbrev pub HasDistinctIds : (V → String) → List V → Type 0
  HasDistinctIds id [] = Unit
  HasDistinctIds id (v ∷ vs) = All (λ w. (id v == id w) ≡ false) vs × HasDistinctIds id vs

  absent-All :
      (id : V → String) (d : Dict V) (k : String)
      → IsKeyed id d
      → get d k ≡ none
      → All (λ w. (k == id w) ≡ false) (values d)
  unfolding get
  absent-All id [] k keyed h = tt
  absent-All id ((j, w) ∷ d) k keyed h = (
    ground (arith, eq_iff j k, eq_iff k j, eq_iff k (id w)),
    absent-All id d k keyed.1 (ground arith),
  )

  pub values-HasDistinctIds :
      (id : V → String) (d : Dict V) → IsKeyed id d → IsDistinct d → HasDistinctIds id (values d)
  values-HasDistinctIds id [] keyed distinct = tt
  values-HasDistinctIds id ((j, w) ∷ d) keyed distinct = (
    subst (λ k. All (λ v. (k == id v) ≡ false) (values d)) (sym keyed.0)
        (absent-All id d j keyed.1 distinct.0),
    values-HasDistinctIds id d keyed.1 distinct.1,
  )
