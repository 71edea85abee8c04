-- ===== src/State/Scratch/Expiry.antt =====
-- Which notes `expire_ttl` archives.
use kai_daemon.Base.{
  ℕ, ◌+◌, String, ◌≡◌, refl, sym, subst, ap, ◌∙◌, inl, inr, Bool, true, false, not, ◌&&◌, Option,
  none, some, List, [], ◌∷◌, ◌==◌, arith, eq_iff, All, All-map, All-zip, length, filter, ltb,
  Bool-cases, if◌then◌else◌,
}
use kai_daemon.Base.Dict
use kai_daemon.Base.Dict.{
  HasDistinctIds, values-HasDistinctIds, Dict, IsKeyed, IsDistinct, get-put_self, get-put_ne,
  values-get,
}
use kai_daemon.Base.Outcome.{return}
use kai_daemon.State.Scratch.{
  ScratchNote, Ttl, utc, archived, is_archived, validate_ttl, is_expired, NoteYaml, ScratchStore,
  save_note, read, archive, expire_note, expire_notes, expire_ttl,
}
use kai_daemon.State.Scratch.Reload.{id_of, HasValidTtl, IsReadable}

-- The time limit, if there is one, lies before this instant.
abbrev pub is_past : ℕ → Option Ttl → Bool
is_past now (some (utc t)) = ltb t now
is_past now _ = false

-- The note is active, and its time limit has passed.
abbrev pub is_due : ℕ → ScratchNote → Bool
is_due now n = not (is_archived n) && is_past now n.ttl

-- The note as it should be after an expiry.
abbrev pub aged : ℕ → ScratchNote → ScratchNote
aged now n = if is_due now n then record n { lifecycle = archived } else n

is_expired_due :
    (now : ℕ) (n : ScratchNote) → HasValidTtl n → is_expired now n ≡ return (is_due now n)
unfolding is_expired validate_ttl
is_expired_due now n h = ground arith

module _ (yaml : NoteYaml) where
  abbrev IsHeld : ScratchStore yaml → ScratchNote → Type 0
  IsHeld s n = Dict.get s.items n.id ≡ some n

  expire_note_due :
      (now : ℕ) (n : ScratchNote) (count : ℕ) (s : ScratchStore yaml)
      → HasValidTtl n
      → IsHeld s n
      → is_due now n ≡ true
      → expire_note yaml now n count s
        ≡ (return (count + 1), save_note yaml n.id (record n { lifecycle = archived }) s)
  unfolding expire_note archive read
  expire_note_due now n count s valid held due =
      let live : is_archived n ≡ false = ground arith in ground (arith, is_expired_due now n valid)

  expire_note_not_due :
      (now : ℕ) (n : ScratchNote) (count : ℕ) (s : ScratchStore yaml)
      → HasValidTtl n
      → is_due now n ≡ false
      → expire_note yaml now n count s ≡ (return count, s)
  unfolding expire_note
  expire_note_not_due now n count s valid not_due = ground (arith, is_expired_due now n valid)

  -- What one pass of the loop does on a note that the store holds.
  record Passed (now : ℕ) (n : ScratchNote) (count : ℕ) (s : ScratchStore yaml) : Type 0 where
    pub counts :
        (expire_note yaml now n count s).0 ≡ return (if is_due now n then count + 1 else count)
    pub here : Dict.get (expire_note yaml now n count s).1.items n.id ≡ some (aged now n)
    pub elsewhere :
        (k : String)
        → (n.id == k) ≡ false
        → Dict.get (expire_note yaml now n count s).1.items k ≡ Dict.get s.items k

  expire_note_lem :
      (now : ℕ) (n : ScratchNote) (count : ℕ) (s : ScratchStore yaml)
      → HasValidTtl n
      → IsHeld s n
      → Passed now n count s
  unfolding save_note
  expire_note_lem now n count s valid held = elim (Bool-cases (is_due now n)) [
    | inl due ↦
        let e = expire_note_due now n count s valid held due in
        record {
          counts = ap (λ o. o.0) e ∙ rw due refl;
          here = ap (λ o. Dict.get o.1.items n.id) e ∙ rw due (get-put_self s.items n.id _);
          elsewhere =
              λ k other. ap (λ o. Dict.get o.1.items k) e ∙ get-put_ne s.items n.id k _ other;
        }
    | inr not_due ↦
        let e = expire_note_not_due now n count s valid not_due in
        record {
          counts = ap (λ o. o.0) e ∙ rw not_due refl;
          here = ap (λ o. Dict.get o.1.items n.id) e ∙ held ∙ rw not_due refl;
          elsewhere = λ k other. ap (λ o. Dict.get o.1.items k) e;
        }
  ]

  record Expired (now : ℕ) (ns : List ScratchNote) (count : ℕ) (s : ScratchStore yaml)
      : Type 0 where
    pub counts :
        (expire_notes yaml now ns count s).0 ≡ return (count + length (filter (is_due now) ns))
    pub there :
        All (λ n. Dict.get (expire_notes yaml now ns count s).1.items n.id ≡ some (aged now n)) ns
    pub elsewhere :
        (k : String)
        → All (λ n. (n.id == k) ≡ false) ns
        → Dict.get (expire_notes yaml now ns count s).1.items k ≡ Dict.get s.items k

  expire_notes_lem :
      (now : ℕ) (ns : List ScratchNote) (count : ℕ) (s : ScratchStore yaml)
      → HasDistinctIds id_of ns
      → All HasValidTtl ns
      → All (IsHeld s) ns
      → Expired now ns count s
  unfolding expire_notes filter
  expire_notes_lem now [] count s distinct valid held = record {
    counts = ap return (omega arith);
    there = tt;
    elsewhere = λ k _. refl;
  }
  expire_notes_lem now (n ∷ ns) count s distinct valid held =
      let step = expire_note_lem now n count s valid.0 held.0 in
      let s' = (expire_note yaml now n count s).1 in
      let count' = if is_due now n then count + 1 else count in
      let rest_held : All (IsHeld s') ns =
        All-zip (λ m. (n.id == m.id) ≡ false) (IsHeld s) (IsHeld s') ns
          (λ m other h. step.elsewhere m.id other ∙ h) distinct.0 held.1 in
      let rest = expire_notes_lem now ns count' s' distinct.1 valid.1 rest_held in
      let e : expire_notes yaml now (n ∷ ns) count s ≡ expire_notes yaml now ns count' s' =
        rw (step.counts) refl in
      let apart_head : All (λ m. (m.id == n.id) ≡ false) ns =
        All-map (λ m. (n.id == m.id) ≡ false) (λ m. (m.id == n.id) ≡ false) ns
          (λ m h. ground (arith, eq_iff n.id m.id, eq_iff m.id n.id)) distinct.0 in
      record {
        counts = ap (λ o. o.0) e ∙ rest.counts ∙ ground arith;
        there =
            subst (λ o. All (λ m. Dict.get o.1.items m.id ≡ some (aged now m)) (n ∷ ns)) (sym e)
              (rest.elsewhere n.id apart_head ∙ step.here, rest.there);
        elsewhere = λ k apart.
            ap (λ o. Dict.get o.1.items k) e ∙ rest.elsewhere k apart.1 ∙ step.elsewhere k apart.0;
      }

  apart_from_absent :
      (k : String) (s : ScratchStore yaml) (ns : List ScratchNote)
      → Dict.get s.items k ≡ none
      → All (IsHeld s) ns
      → All (λ n. (n.id == k) ≡ false) ns
  apart_from_absent k s ns absent held =
      All-map (IsHeld s) (λ n. (n.id == k) ≡ false) ns (λ n h. ground (arith, eq_iff n.id k)) held

  -- On a sound store, `expire_ttl` raises nothing and returns the number of active notes whose time
  -- limit lies before now. It archives these and changes nothing else: each stored note is
  -- afterwards under its id, archived if it was due and as it was if not, and no key is new.
  pub expire_ttl_lem :
      (now : ℕ) (s : ScratchStore yaml)
      → IsReadable yaml s
      → ((expire_ttl yaml now s).0 ≡ return (length (filter (is_due now) (Dict.values s.items))))
        × All
            (λ n. Dict.get (expire_ttl yaml now s).1.items n.id ≡ some (aged now n))
            (Dict.values s.items)
        × ((k : String)
            → Dict.get s.items k ≡ none
            → Dict.get (expire_ttl yaml now s).1.items k ≡ none)
  unfolding expire_ttl
  expire_ttl_lem now s h =
      let held = values-get id_of s.items h.keyed h.distinct in
      let all =
        expire_notes_lem now (Dict.values s.items) 0 s
          (values-HasDistinctIds id_of s.items h.keyed h.distinct) h.valid held in
      (
        all.counts ∙ ap return (omega arith),
        all.there,
        λ k absent.
            all.elsewhere k (apart_from_absent k s (Dict.values s.items) absent held) ∙ absent,
      )
