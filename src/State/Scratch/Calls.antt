-- ===== src/State/Scratch/Calls.antt =====
-- What one call of the scratch store, and then any sequence of calls, does to the stored notes.
use kai_daemon.Base.{
  ℕ, String, ◌≡◌, refl, sym, subst, ◌++◌, ◌⊎◌, inl, inr, true, false, none, some, List, [], ◌∷◌,
  arith, ◌==◌, eq_iff, All, Bool-cases, Option-cases,
}
use kai_daemon.Base.Dict
use kai_daemon.Base.Dict.{get-put}
use kai_daemon.Base.Outcome.{Exception, value_error, return, raise, continue, Outcome-cases}
use kai_daemon.State.Scratch.{
  ScratchNote, Update, archived, is_archived, contains, validate_ttl, new_note, with_updates,
  any_immutable, is_expired, NoteYaml, ScratchStore, save_note, write, read, archive, unarchive,
  acknowledge, update_content, expire_note, expire_notes, expire_ttl,
}
use kai_daemon.State.Scratch.Follows.{
  Follows, Follows-refl, Follows-trans, with_updates-Follows, archive-Follows, acknowledge-Follows,
  IsChecked, with_updates-ttl,
}

-- The calls of workflows: a note is constructed and then written, and so on.
pub data Call : Type 0 where
  writes : ScratchNote → Call
  archives unarchives : String → Call
  acknowledges : String → String → Call
  updates : String → List Update → Call
  expires : ℕ → Call

abbrev pub ChecksTtl : Call → Type 0
ChecksTtl (updates k us) = All IsChecked us
ChecksTtl _ = Unit

new_note_cases :
    (n : ScratchNote)
    → ((e : Exception) × (new_note n ≡ raise e))
      ⊎ ((validate_ttl n.ttl ≡ true) × (new_note n ≡ return n))
unfolding new_note
new_note_cases n = elim (Bool-cases (validate_ttl n.ttl)) [
  | inl valid ↦ inr (valid, rw valid refl)
  | inr refused ↦ inl (value_error, rw refused refl)
]

module _ (yaml : NoteYaml) where
  -- The writes that make one state of the store of another: of new notes that are valid, and of
  -- later states of stored ones, valid where the caller checks time limits.
  pub data Effect (checks : Type 0) : ScratchStore yaml → ScratchStore yaml → Type 0 where
    same : (s : ScratchStore yaml) → Effect checks s s
    added :
        (n : ScratchNote) (s : ScratchStore yaml)
        → Dict.get s.items n.id ≡ none
        → validate_ttl n.ttl ≡ true
        → Effect checks s (save_note yaml n.id n s)
    changed :
        (k : String) (n n' : ScratchNote) (s : ScratchStore yaml)
        → Dict.get s.items k ≡ some n
        → Follows n n'
        → (checks → validate_ttl n.ttl ≡ true → validate_ttl n'.ttl ≡ true)
        → Effect checks s (save_note yaml k n' s)
    both : {a b c : ScratchStore yaml} → Effect checks a b → Effect checks b c → Effect checks a c

  write-Effect :
      (ok : Type 0) (n : ScratchNote) (s : ScratchStore yaml)
      → validate_ttl n.ttl ≡ true
      → Effect ok s (write yaml n s).1
  unfolding write
  write-Effect ok n s valid = elim (Option-cases (Dict.get s.items n.id)) [
    | inl absent ↦ rw absent (added n s absent valid)
    | inr (v, found) ↦ rw found (same s)
  ]

  archive-Effect :
      (ok : Type 0) (k : String) (s : ScratchStore yaml) → Effect ok s (archive yaml k s).1
  unfolding archive read
  archive-Effect ok k s = elim (Option-cases (Dict.get s.items k)) [
    | inl absent ↦ subst (Effect ok s) (ground arith) (same s)
    | inr (n, found) ↦ elim (Bool-cases (is_archived n)) [
      | inl old ↦ subst (Effect ok s) (ground arith) (same s)
      | inr live ↦
          subst (Effect ok s) (ground arith)
            (changed k n (record n { lifecycle = archived }) s found (archive-Follows n) (λ _ h. h))
    ]
  ]

  acknowledge-Effect :
      (ok : Type 0) (k w : String) (s : ScratchStore yaml) → Effect ok s (acknowledge yaml k w s).1
  unfolding acknowledge read
  acknowledge-Effect ok k w s = elim (Option-cases (Dict.get s.items k)) [
    | inl absent ↦ subst (Effect ok s) (ground arith) (same s)
    | inr (n, found) ↦ elim (Bool-cases (contains w n.acknowledged_by)) [
      | inl old ↦ subst (Effect ok s) (ground arith) (same s)
      | inr fresh ↦ subst (Effect ok s) (ground arith) (
          changed k n (record n { acknowledged_by = n.acknowledged_by ++ w ∷ [] }) s found
            (acknowledge-Follows n w) (λ _ h. h))
    ]
  ]

  update_content-Effect :
      (ok : Type 0) (k : String) (us : List Update) (s : ScratchStore yaml)
      → (ok → All IsChecked us)
      → Effect ok s (update_content yaml k us s).1
  unfolding update_content read
  update_content-Effect ok k us s checks = elim (Bool-cases (any_immutable us)) [
    | inl refused ↦ rw refused (same s)
    | inr taken ↦ elim (Option-cases (Dict.get s.items k)) [
      | inl absent ↦ subst (Effect ok s) (ground arith) (same s)
      | inr (n, found) ↦ subst (Effect ok s) (ground arith) (
          changed k n (with_updates n us) s found (with_updates-Follows n us taken)
            (λ c. with_updates-ttl n us (checks c)))
    ]
  ]

  expire_note_cases :
      (now : ℕ) (n : ScratchNote) (count : ℕ) (s : ScratchStore yaml)
      → ((expire_note yaml now n count s).1 ≡ s)
        ⊎ ((expire_note yaml now n count s).1 ≡ (archive yaml n.id s).1)
  unfolding expire_note
  expire_note_cases now n count s = elim (Outcome-cases (is_expired now n)) [
    | inl (e, failed) ↦ inl (ground arith)
    | inr (true, told) ↦ elim (Outcome-cases (archive yaml n.id s).0) [
      | inl (e, failed) ↦ inr (ground arith)
      | inr (v, went) ↦ inr (ground arith)
    ]
    | inr (false, told) ↦ inl (ground arith)
  ]

  expire_note-Effect :
      (ok : Type 0) (now : ℕ) (n : ScratchNote) (count : ℕ) (s : ScratchStore yaml)
      → Effect ok s (expire_note yaml now n count s).1
  expire_note-Effect ok now n count s = elim (expire_note_cases now n count s) [
    | inl kept ↦ subst (Effect ok s) (sym kept) (same s)
    | inr tried ↦ subst (Effect ok s) (sym tried) (archive-Effect ok n.id s)
  ]

  expire_notes-Effect :
      (ok : Type 0) (now : ℕ) (ns : List ScratchNote) (count : ℕ) (s : ScratchStore yaml)
      → Effect ok s (expire_notes yaml now ns count s).1
  unfolding expire_notes
  expire_notes-Effect ok now [] count s = same s
  expire_notes-Effect ok now (n ∷ ns) count s =
      elim (Outcome-cases (expire_note yaml now n count s).0) [
        | inl (e, failed) ↦ rw failed (expire_note-Effect ok now n count s)
        | inr (counted, went) ↦ rw went (
            both (expire_note-Effect ok now n count s)
              (expire_notes-Effect ok now ns counted (expire_note yaml now n count s).1))
      ]

  unfoldable pub call : Call → ScratchStore yaml → ScratchStore yaml
  call (writes n) s = (continue (new_note n) (write yaml) s).1
  call (archives k) s = (archive yaml k s).1
  call (unarchives k) s = (unarchive yaml k s).1
  call (acknowledges k w) s = (acknowledge yaml k w s).1
  call (updates k us) s = (update_content yaml k us s).1
  call (expires now) s = (expire_ttl yaml now s).1

  unfoldable pub run : ScratchStore yaml → List Call → ScratchStore yaml
  unfolding call
  run s [] = s
  run s (c ∷ cs) = run (call c s) cs

  pub call-Effect : (c : Call) (s : ScratchStore yaml) → Effect (ChecksTtl c) s (call c s)
  unfolding call unarchive expire_ttl
  call-Effect (writes n) s = elim (new_note_cases n) [
    | inl (e, refused) ↦ subst (Effect Unit s) (ground arith) (same s)
    | inr (valid, made) ↦ subst (Effect Unit s) (ground arith) (write-Effect Unit n s valid)
  ]
  call-Effect (archives k) s = archive-Effect Unit k s
  call-Effect (unarchives k) s = same s
  call-Effect (acknowledges k w) s = acknowledge-Effect Unit k w s
  call-Effect (updates k us) s = update_content-Effect (All IsChecked us) k us s (λ c. c)
  call-Effect (expires now) s = expire_notes-Effect Unit now (Dict.values s.items) 0 s

  -- Every stored note is still stored under its key, in a later state.
  abbrev pub Keeps : ScratchStore yaml → ScratchStore yaml → Type 0
  Keeps s s' =
      (k : String) (n : ScratchNote)
      → Dict.get s.items k ≡ some n
      → (n' : ScratchNote) × (Dict.get s'.items k ≡ some n') × Follows n n'

  Effect-Keeps : {ok : Type 0} (s s' : ScratchStore yaml) → Effect ok s s' → Keeps s s'
  unfolding save_note
  Effect-Keeps s s' (same _) k n h = (n, h, Follows-refl n)
  Effect-Keeps s s' (added m _ absent valid) k n h =
      (n, ground (arith, get-put s.items m.id k m, eq_iff m.id k), Follows-refl n)
  Effect-Keeps s s' (changed j m m' _ found follows valid) k n h = elim (Bool-cases (j == k)) [
    | inl it ↦
        let same_note : m ≡ n = ground (arith, eq_iff j k) in
        (m', ground (arith, get-put s.items j k m'), subst (λ x. Follows x m') same_note follows)
    | inr other ↦ (n, ground (arith, get-put s.items j k m'), Follows-refl n)
  ]
  Effect-Keeps s s' (both {b = b} f g) k n h =
      let (m, found, follows) = Effect-Keeps s b f k n h in
      let (n', there, then_on) = Effect-Keeps b s' g k m found in
      (n', there, Follows-trans n m n' follows then_on)

  -- Through any calls, of any arguments and whether they succeed or raise, every stored note stays
  -- stored under its key: its id, workflow, session, timestamp and epistemic origin are what they
  -- were, the list of those that acknowledged it only grows at its end, and once it is archived it
  -- is archived.
  pub run-Keeps : (s : ScratchStore yaml) (cs : List Call) → Keeps s (run s cs)
  unfolding run
  run-Keeps s [] k n h = (n, h, Follows-refl n)
  run-Keeps s (c ∷ cs) k n h =
      let (m, found, follows) = Effect-Keeps s (call c s) (call-Effect c s) k n h in
      let (n', there, then_on) = run-Keeps (call c s) cs k m found in
      (n', there, Follows-trans n m n' follows then_on)
