-- ===== src/State/Register/Correction.antt =====
-- What a correction of the register does, and the table of its acknowledgments.
use kai_daemon.Base.{
  eq_iff, ◌≡◌, refl, String, Bool, true, false, not, ◌&&◌, ◌==◌, arith, Option, [], ◌∷◌, ◌++◌,
  is_some, if◌then◌else◌, Bool-cases, inl, inr, ◌⊎◌,
}
use kai_daemon.Base.Outcome.{return, raise, value_error}
use kai_daemon.Base.Time.{Stamp}
use kai_daemon.State.Register.{
  is_valid, ack_message, acknowledgment_message, Corrections, append_entry, apply_correction,
}

data RegisterCase (r : String) : Type 0 where
  exploratory : r ≡ "exploratory" → RegisterCase r
  reflective : r ≡ "reflective" → RegisterCase r
  casual : r ≡ "casual" → RegisterCase r
  urgent : r ≡ "urgent" → RegisterCase r
  other :
      (r == "exploratory") ≡ false
      → (r == "reflective") ≡ false
      → (r == "casual") ≡ false
      → (r == "urgent") ≡ false
      → RegisterCase r

register_cases : (r : String) → RegisterCase r
register_cases r = elim (Bool-cases (r == "exploratory")) [
  | inl e ↦ exploratory (ground (arith, eq_iff r "exploratory"))
  | inr a ↦ elim (Bool-cases (r == "reflective")) [
    | inl e ↦ reflective (ground (arith, eq_iff r "reflective"))
    | inr b ↦ elim (Bool-cases (r == "casual")) [
      | inl e ↦ casual (ground (arith, eq_iff r "casual"))
      | inr c ↦ elim (Bool-cases (r == "urgent")) [
        | inl e ↦ urgent (ground (arith, eq_iff r "urgent"))
        | inr d ↦ other a b c d
      ]
    ]
  ]
]

abbrev Tabled : String → String → Type 0
Tabled a b = is_some (ack_message a b) ≡ (is_valid a && is_valid b && not (a == b))

from_exploratory : (b : String) → Tabled "exploratory" b
unfolding ack_message is_valid
from_exploratory b = elim (register_cases b) [
  | exploratory p ↦ rw p refl
  | reflective p ↦ rw p refl
  | casual p ↦ rw p refl
  | urgent p ↦ rw p refl
  | other e f g h ↦ simp (e, f, g, h)
]

from_reflective : (b : String) → Tabled "reflective" b
unfolding ack_message is_valid
from_reflective b = elim (register_cases b) [
  | exploratory p ↦ rw p refl
  | reflective p ↦ rw p refl
  | casual p ↦ rw p refl
  | urgent p ↦ rw p refl
  | other e f g h ↦ simp (e, f, g, h)
]

from_casual : (b : String) → Tabled "casual" b
unfolding ack_message is_valid
from_casual b = elim (register_cases b) [
  | exploratory p ↦ rw p refl
  | reflective p ↦ rw p refl
  | casual p ↦ rw p refl
  | urgent p ↦ rw p refl
  | other e f g h ↦ simp (e, f, g, h)
]

from_urgent : (b : String) → Tabled "urgent" b
unfolding ack_message is_valid
from_urgent b = elim (register_cases b) [
  | exploratory p ↦ rw p refl
  | reflective p ↦ rw p refl
  | casual p ↦ rw p refl
  | urgent p ↦ rw p refl
  | other e f g h ↦ simp (e, f, g, h)
]

-- The table has an acknowledgment for a pair exactly when both are registers and they differ, so
-- that `apply_correction` answers a register that was misread with the text for that pair.
pub ack_tabled :
    (a b : String) → is_some (ack_message a b) ≡ (is_valid a && is_valid b && not (a == b))
unfolding ack_message is_valid
ack_tabled a b = elim (register_cases a) [
  | exploratory p ↦ rw p (from_exploratory b)
  | reflective p ↦ rw p (from_reflective b)
  | casual p ↦ rw p (from_casual b)
  | urgent p ↦ rw p (from_urgent b)
  | other e f g h ↦ simp (e, f, g, h)
]

-- The store of the corrections after a correction that was accepted.
pub record Corrects (written : Bool) (now : Stamp) (inferred corrected : String)
    (thread_id : Option String) (s : Corrections) : Type 0 where
  pub returned :
      (apply_correction written now inferred corrected thread_id s).0
      ≡ return (acknowledgment_message inferred corrected)
  pub shadow :
      (apply_correction written now inferred corrected thread_id s).1.corrections_this_session
      ≡ s.corrections_this_session ++ (inferred, corrected) ∷ []
  pub logged : (apply_correction written now inferred corrected thread_id s).1.log ≡ (
      if written
      then s.log
        ++ record {
          inferred_register = inferred;
          corrected_register = corrected;
          thread_id = thread_id;
          corrected_at = now;
        }
          ∷ []
      else s.log)

-- A correction in which a name is no register raises a ValueError and changes nothing. Any other
-- is added behind those of the session, and behind those of the log where that can be written, and
-- its acknowledgment is returned.
pub apply_correction_lem :
    (written : Bool) (now : Stamp) (inferred corrected : String) (thread_id : Option String)
    (s : Corrections)
    → (((is_valid inferred && is_valid corrected) ≡ false)
        × (apply_correction written now inferred corrected thread_id s ≡ (raise value_error, s)))
      ⊎ (((is_valid inferred && is_valid corrected) ≡ true)
          × Corrects written now inferred corrected thread_id s)
unfolding apply_correction append_entry
apply_correction_lem written now inferred corrected thread_id s =
    elim (Bool-cases (is_valid inferred)) [
      | inr bad ↦ inl (ground arith, ground arith)
      | inl ok ↦ elim (Bool-cases (is_valid corrected)) [
        | inr bad ↦ inl (ground arith, ground arith)
        | inl good ↦ inr (
          ground arith,
          record { returned = ground arith; shadow = ground arith; logged = ground arith },
        )
      ]
    ]
