-- ===== src/Workflows/EpisodicFlush/Compile.antt =====
-- What episodic_flush.py computes from working memory without calling anything: the turns of each
-- thread, the parsed answer of the model, and the counts of the session record.
use kai_daemon.Base.{
  ℕ, ◌+◌, ◌-◌, ◌/◌, String, Bool, false, ◌||◌, Option, none, some, List, [], ◌∷◌, ◌++◌, ◌==◌,
  filter, length, ltb, or_else, if◌then◌else◌,
}
use kai_daemon.Base.Dict
use kai_daemon.Base.Dict.{Dict}
use kai_daemon.Base.Outcome.{Outcome, return, raise, value_error, type_error}
use kai_daemon.Base.Text.{Unicode, chars, joined, strip, to_lower, same_text, text_or}
use kai_daemon.Base.Time.{Stamp, aware, naive, malformed, second}
use kai_daemon.State.Episodic.{RegisterArcEntry}
use kai_daemon.State.WorkingMemory.{TurnNote}

-- `x in xs`
unfoldable pub is_in : String → List String → Bool
is_in x [] = false
is_in x (y ∷ ys) = (y == x) || is_in x ys

-- the keys of `dict.fromkeys` so far, with one more
unfoldable pub add_key : List String → String → List String
unfolding is_in
add_key keys k = if is_in k keys then keys else keys ++ k ∷ []

unfoldable pub add_keys : List String → List String → List String
unfolding add_key
add_keys keys [] = keys
add_keys keys (x ∷ xs) = add_keys (add_key keys x) xs

-- `list(dict.fromkeys(xs))`
abbrev pub fromkeys : List String → List String
fromkeys xs = add_keys [] xs

-- `[x for tn in turn_notes for x in f(tn)]`
unfoldable pub concat_map : (TurnNote → List String) → List TurnNote → List String
concat_map f [] = []
concat_map f (tn ∷ tns) = f tn ++ concat_map f tns

-- `per_thread.setdefault(tid, []).append(tn)`
unfoldable pub append_turn : Dict (List TurnNote) → TurnNote → String → Dict (List TurnNote)
append_turn per_thread tn tid =
    Dict.put per_thread tid (or_else (Dict.get per_thread tid) [] ++ tn ∷ [])

unfoldable pub append_turns : Dict (List TurnNote) → TurnNote → List String → Dict (List TurnNote)
unfolding append_turn
append_turns per_thread tn [] = per_thread
append_turns per_thread tn (tid ∷ tids) = append_turns (append_turn per_thread tn tid) tn tids

-- the first loop of `_compile_thread_episodes`
unfoldable pub group_turns : Dict (List TurnNote) → List TurnNote → Dict (List TurnNote)
unfolding append_turns
group_turns per_thread [] = per_thread
group_turns per_thread (tn ∷ tns) =
    group_turns (if tn.notable then append_turns per_thread tn tn.thread_ids_active else per_thread)
      tns

pub data Section : Type 0 where
  what_was_said what_moved what_didnt_move daemon_was_watching stance_movement : Section

-- `fields` of `_parse_episode_response`
pub record Fields : Type 0 where
  pub said : Option String
  pub moved : Option String
  pub didnt_move : Option String
  pub was_watching : Option String
  pub stance : Option String

abbrev pub no_fields : Fields
no_fields = record {
  said = none;
  moved = none;
  didnt_move = none;
  was_watching = none;
  stance = none;
}

abbrev pub set_field : Section → Option String → Fields → Fields
set_field what_was_said v f = record f { said = v }
set_field what_moved v f = record f { moved = v }
set_field what_didnt_move v f = record f { didnt_move = v }
set_field daemon_was_watching v f = record f { was_watching = v }
set_field stance_movement v f = record f { stance = v }

-- `value if value.lower() != "null" else None`, of the stripped value
unfoldable pub field_value : Unicode → String → Option String
unfolding chars strip to_lower same_text
field_value u text =
    let value = strip u.is_space (chars text) in
    if same_text (to_lower u value) (chars "null") then none else some (joined value)

-- the loop over the matches of the pattern, each a label and the text after it
unfoldable pub read_fields : Unicode → Fields → List (Section × String) → Fields
unfolding field_value
read_fields u fields [] = fields
read_fields u fields ((key, text) ∷ found) =
    read_fields u (set_field key (field_value u text) fields) found

-- `fields["WHAT_WAS_SAID"] or response.strip()`
unfoldable pub said_or_response : Unicode → Fields → String → String
unfolding chars strip
said_or_response u fields response = elim fields.said [
  | none ↦ joined (strip u.is_space (chars response))
  | some said ↦ text_or (chars said) (joined (strip u.is_space (chars response)))
]

-- how many of `stance_movements` in the thread's turns are of the thread
unfoldable pub count_movements : String → List TurnNote → ℕ
unfolding concat_map
count_movements thread_id turns =
    length (filter (λ tid. tid == thread_id) (concat_map (λ tn. tn.stance_movements) turns))

-- `counter[register] += 1`
unfoldable pub count_register : Dict ℕ → String → Dict ℕ
count_register counter r = Dict.put counter r (or_else (Dict.get counter r) 0 + 1)

unfoldable pub count_registers : Dict ℕ → List TurnNote → Dict ℕ
unfolding count_register
count_registers counter [] = counter
count_registers counter (tn ∷ tns) = count_registers (count_register counter tn.register) tns

-- `most_common(1)`: the first entry of those that count most, against the best so far
unfoldable pub most_common : String × ℕ → Dict ℕ → String × ℕ
most_common best [] = best
most_common best ((r, n) ∷ rest) = most_common (if ltb best.1 n then (r, n) else best) rest

unfoldable pub dominant_register : List TurnNote → String
unfolding count_registers most_common
dominant_register turns = elim (count_registers [] turns) [
  | [] ↦ ""
  | e ∷ rest ↦ (most_common e rest).0
]

unfoldable pub register_shifts : List TurnNote → ℕ
register_shifts [] = 0
register_shifts (a ∷ []) = 0
register_shifts (a ∷ b ∷ rest) =
    (if a.register == b.register then 0 else 1) + register_shifts (b ∷ rest)

unfoldable pub corrections_made : List TurnNote → ℕ
corrections_made turns = length (filter (λ tn. tn.register_corrected) turns)

abbrev pub arc_entry : TurnNote → RegisterArcEntry
arc_entry tn = record {
  turn = tn.turn_number;
  register = tn.register;
  corrected = tn.register_corrected;
}

-- `max(0, int((ended_at - started).total_seconds()))`, where `ended_at` has an offset
unfoldable pub duration_seconds : Stamp → ℕ → Outcome ℕ
duration_seconds (aware started) ended = return ((ended - started) / second)
duration_seconds (naive started) ended = raise type_error
duration_seconds (malformed text) ended = raise value_error
