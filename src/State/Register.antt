-- ===== src/State/Register.antt =====
-- src/kai_daemon/state/register_inference.py: the prior from past corrections, the correction
-- pathway and its acknowledgments. The scoring of a message's words is not modelled.
pub mod Prior
pub mod Correction
mod Tests
use kai_daemon.Base.{
  ℕ, ◌-◌, String, Bool, true, false, ◌&&◌, ◌||◌, not, ◌==◌, Option, none, some, List, [], ◌∷◌, ◌++◌,
  length, drop, or_else, if◌then◌else◌,
}
use kai_daemon.Base.Dict
use kai_daemon.Base.Dict.{Dict}
use kai_daemon.Base.Outcome.{Outcome, return, raise, value_error, Method}
use kai_daemon.Base.Time.{Stamp}

pub record RegisterCorrectionEntry : Type 0 where
  pub inferred_register : String
  pub corrected_register : String
  pub thread_id : Option String
  pub corrected_at : Stamp

-- `register in VALID_REGISTERS`
unfoldable pub is_valid : String → Bool
is_valid r = (r == "exploratory") || (r == "reflective") || (r == "casual") || (r == "urgent")

-- The floats of the prior: a score is only raised and lowered by `_HISTORY_WEIGHT`.
pub record Weights : Type 1 where
  pub Float : Type 0
  pub raised : Float → Float
  pub lowered : Float → Float

module _ (weights : Weights) where
  -- `if register in scores: scores[register] = f(scores[register])`
  unfoldable pub adjust :
      (weights.Float → weights.Float) → String → Dict weights.Float → Dict weights.Float
  adjust f r scores = elim (Dict.get scores r) [ none ↦ scores | some x ↦ Dict.put scores r (f x) ]

  -- the body of the loop
  unfoldable pub adjust_entry : RegisterCorrectionEntry → Dict weights.Float → Dict weights.Float
  unfolding adjust
  adjust_entry entry scores =
      adjust weights.raised entry.corrected_register
        (adjust weights.lowered entry.inferred_register scores)

  unfoldable pub adjust_all : List RegisterCorrectionEntry → Dict weights.Float → Dict weights.Float
  unfolding adjust_entry
  adjust_all [] scores = scores
  adjust_all (entry ∷ entries) scores = adjust_all entries (adjust_entry entry scores)

  -- `correction_history[-20:]` is what is left without all but the last 20.
  unfoldable pub apply_correction_history_prior :
      Dict weights.Float → List RegisterCorrectionEntry → Dict weights.Float
  unfolding adjust_all
  apply_correction_history_prior base_scores correction_history =
      adjust_all (drop (length correction_history - 20) correction_history) base_scores

-- `_ACK_MESSAGES`
unfoldable pub ack_message : String → String → Option String
ack_message inferred corrected =
    if (inferred == "casual") && (corrected == "reflective")
    then some "Oh wait — you're being serious. Let me come at this differently."
    else if (inferred == "casual") && (corrected == "exploratory")
    then some
        "I read that too lightly. You're actually digging into something — let me engage properly."
    else if (inferred == "casual") && (corrected == "urgent")
    then some "Oh, this is urgent. I misread the tone — what do you need?"
    else if (inferred == "exploratory") && (corrected == "reflective")
    then some "This is weighing on you more than I clocked. I hear it."
    else if (inferred == "exploratory") && (corrected == "urgent")
    then some "This is more pressing than I caught. What's the immediate thing?"
    else if (inferred == "exploratory") && (corrected == "casual")
    then some "Lighter than I thought — got it."
    else if (inferred == "reflective") && (corrected == "casual")
    then some "Lighter than I thought — got it."
    else if (inferred == "reflective") && (corrected == "exploratory")
    then some "More of a live question than a settled one, I see."
    else if (inferred == "reflective") && (corrected == "urgent")
    then some "This is urgent. I misread the weight of it — what do you need?"
    else if (inferred == "urgent") && (corrected == "reflective")
    then some "You're not in crisis mode — more thinking out loud. I'll adjust."
    else if (inferred == "urgent") && (corrected == "casual")
    then some "Lighter than I read it. Got it."
    else if (inferred == "urgent") && (corrected == "exploratory")
    then some "More curious than pressured. I can work with that."
    else none

abbrev pub ack_default : String
ack_default = "I misread the tone there. Let me recalibrate."

unfoldable pub acknowledgment_message : String → String → String
unfolding ack_message
acknowledgment_message inferred corrected = or_else (ack_message inferred corrected) ack_default

-- The correction log and the session's shadow.
pub record Corrections : Type 0 where
  pub log : List RegisterCorrectionEntry
  pub corrections_this_session : List (String × String)

-- `RegisterInferenceLogger.append`: a write that fails is logged, and no more.
unfoldable pub append_entry : Bool → RegisterCorrectionEntry → Corrections → Corrections
append_entry written entry s = record s { log = if written then s.log ++ entry ∷ [] else s.log }

abbrev pub remember : String → String → Corrections → Corrections
remember inferred corrected s = record s {
  corrections_this_session = s.corrections_this_session ++ (inferred, corrected) ∷ [];
}

-- `written` is whether the log can be written, `now` the default of the entry's `corrected_at`; `metadata` is left out.
unfoldable pub apply_correction :
    Bool → Stamp → String → String → Option String → Method Corrections String
unfolding is_valid append_entry acknowledgment_message
apply_correction written now inferred corrected thread_id s =
    if not (is_valid inferred)
    then (raise value_error, s)
    else if not (is_valid corrected)
    then (raise value_error, s)
    else (
      return (acknowledgment_message inferred corrected),
      remember inferred corrected (
          append_entry written
            (record {
              inferred_register = inferred;
              corrected_register = corrected;
              thread_id = thread_id;
              corrected_at = now;
            })
            s),
    )
