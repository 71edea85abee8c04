-- ===== src/State/Scratch/Tests.antt =====
-- The scratch store on small concrete inputs.
use kai_daemon.Base.{
  ◌≡◌, refl, true, if◌then◌else◌, none, some, String, List, [], ◌∷◌, All, length, filter,
}
use kai_daemon.Base.Dict
use kai_daemon.Base.Outcome.{return, raise, value_error}
use kai_daemon.Base.Time.{aware}
use kai_daemon.State.Types.{internal}
use kai_daemon.State.Table.{Parsed, rows, invalid}
use kai_daemon.State.Scratch.{
  ScratchNote, signal, active, utc, elsewhere, NoteYaml, ScratchStore, sets_ttl, sets_content,
  validate_ttl, update_content, load_notes, expire_ttl,
}
use kai_daemon.State.Scratch.Calls.{
  Call, writes, archives, acknowledges, updates, expires, run, Keeps, run-Keeps,
}
use kai_daemon.State.Scratch.Reload.{IsReadable, run-IsReadable}
use kai_daemon.State.Scratch.Expiry.{is_due, aged, expire_ttl_lem}

-- Documents are lists of notes; one with a wrong time limit does not validate.
abbrev pub parse_notes : List ScratchNote → List ScratchNote → Parsed ScratchNote
parse_notes all [] = rows all
parse_notes all (n ∷ ns) = if validate_ttl n.ttl then parse_notes all ns else invalid

pub parse_notes-valid :
    (all ns : List ScratchNote)
    → All (λ n. validate_ttl n.ttl ≡ true) ns
    → parse_notes all ns ≡ rows all
parse_notes-valid all [] h = refl
parse_notes-valid all (n ∷ ns) h = rw (h.0) (parse_notes-valid all ns h.1)

abbrev pub listed : NoteYaml
listed = record {
  Document = List ScratchNote;
  dump = λ l. l;
  parse = λ l. parse_notes l l;
  parse-dump = λ l h. parse_notes-valid l l h;
}

abbrev note : ScratchNote
note = record {
  id = "n";
  workflow_id = "w";
  session_id = "s";
  timestamp = aware 0;
  content = "c";
  type = signal;
  target_workflow = none;
  ttl = some (utc 10);
  acknowledged_by = [];
  lifecycle = active;
  epistemic_origin = internal;
  thread_ids = [];
}

abbrev empty : ScratchStore listed
empty = record { items = []; file = none }

abbrev one : ScratchStore listed
one = record { items = ("n", note) ∷ []; file = some (note ∷ []) }

abbrev calls : List Call
calls =
    acknowledges "n" "reader" ∷ updates "n" (sets_content "d" ∷ []) ∷ expires 20 ∷ archives "n" ∷ []

run-Keeps_example : Keeps listed one (run listed one calls)
run-Keeps_example = run-Keeps listed one calls

empty-IsReadable : IsReadable listed empty
unfolding load_notes
empty-IsReadable = record { keyed = tt; distinct = tt; valid = tt; reloads = refl }

run-IsReadable_example : IsReadable listed (run listed empty (writes note ∷ calls))
run-IsReadable_example =
    run-IsReadable listed empty (writes note ∷ calls) (tt, (tt, ((tt, tt), (tt, (tt, tt)))))
      empty-IsReadable

one-IsReadable : IsReadable listed one
unfolding load_notes validate_ttl Dict.get Dict.from_rows Dict.put
one-IsReadable = record {
  keyed = (refl, tt);
  distinct = (refl, tt);
  valid = (refl, tt);
  reloads = refl;
}

expire_ttl_example :
    ((expire_ttl listed 20 one).0 ≡ return (length (filter (is_due 20) (Dict.values one.items))))
    × All
        (λ n. Dict.get (expire_ttl listed 20 one).1.items n.id ≡ some (aged 20 n))
        (Dict.values one.items)
    × ((k : String)
        → Dict.get one.items k ≡ none
        → Dict.get (expire_ttl listed 20 one).1.items k ≡ none)
expire_ttl_example = expire_ttl_lem listed 20 one one-IsReadable

-- A time limit that `update_content` does not check makes the file unreadable.
unreadable :
    load_notes listed (update_content listed "n" (sets_ttl (some (elsewhere 10)) ∷ []) one).1.file
    ≡ raise value_error
unfolding load_notes update_content validate_ttl Dict.get Dict.put
unreadable = refl
