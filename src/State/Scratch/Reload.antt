-- ===== src/State/Scratch/Reload.antt =====
-- The file of the scratch store.
use kai_daemon.Base.{String, ◌≡◌, ap, ◌∙◌, subst, true, List, [], ◌∷◌, All}
use kai_daemon.Base.Dict
use kai_daemon.Base.Dict.{
  IsKeyed, IsDistinct, get-IsKeyed, put-IsKeyed, put-IsDistinct, All-values-put, All-values-get,
  from_rows-values,
}
use kai_daemon.Base.Outcome.{return}
use kai_daemon.State.Scratch.{
  ScratchNote, validate_ttl, NoteYaml, ScratchStore, save_note, load_notes, restore_notes,
}
use kai_daemon.State.Scratch.Calls.{
  Call, ChecksTtl, Effect, same, added, changed, both, call, run, call-Effect,
}

abbrev pub id_of : ScratchNote → String
id_of n = n.id

abbrev pub HasValidTtl : ScratchNote → Type 0
HasValidTtl n = validate_ttl n.ttl ≡ true

module _ (yaml : NoteYaml) where
  -- Each note stands under its id, once, with a time limit that the validator takes, and the file
  -- reads back as the notes in memory.
  pub record IsReadable (s : ScratchStore yaml) : Type 0 where
    pub keyed : IsKeyed id_of s.items
    pub distinct : IsDistinct s.items
    pub valid : All HasValidTtl (Dict.values s.items)
    pub reloads : load_notes yaml s.file ≡ return s.items

  save_note-IsReadable :
      (n : ScratchNote) (s : ScratchStore yaml)
      → IsReadable s
      → HasValidTtl n
      → IsReadable (save_note yaml n.id n s)
  unfolding save_note load_notes
  save_note-IsReadable n s h ok =
      let keyed = put-IsKeyed id_of s.items n h.keyed in
      let distinct = put-IsDistinct s.items n.id n h.distinct in
      let valid = All-values-put HasValidTtl s.items n.id n h.valid ok in
      record {
        keyed = keyed;
        distinct = distinct;
        valid = valid;
        reloads =
            ap (restore_notes yaml) (yaml.parse-dump (Dict.values (Dict.put s.items n.id n)) valid)
            ∙ ap return (from_rows-values id_of (Dict.put s.items n.id n) keyed distinct);
      }

  Effect-IsReadable :
      {checks : Type 0} (s s' : ScratchStore yaml)
      → checks
      → Effect yaml checks s s'
      → IsReadable s
      → IsReadable s'
  Effect-IsReadable s s' c (same _) h = h
  Effect-IsReadable s s' c (added n _ absent ok) h = save_note-IsReadable n s h ok
  Effect-IsReadable s s' c (changed k n n' _ found follows keeps_valid) h =
      let named = follows.same_id ∙ get-IsKeyed id_of s.items k n h.keyed found in
      subst (λ j. IsReadable (save_note yaml j n' s)) named
        (save_note-IsReadable n' s h
          (keeps_valid c (All-values-get HasValidTtl s.items k n h.valid found)))
  Effect-IsReadable s s' c (both {b = b} f g) h =
      Effect-IsReadable b s' c g (Effect-IsReadable s b c f h)

  -- A sound store stays sound through any calls, whether they succeed or raise, in which the time
  -- limits given to `update_content` are ones that the validator takes: a process that starts again
  -- reads from the file the notes that memory holds, in the same order, each under its id and once.
  pub run-IsReadable :
      (s : ScratchStore yaml) (cs : List Call)
      → All ChecksTtl cs
      → IsReadable s
      → IsReadable (run yaml s cs)
  unfolding run
  run-IsReadable s [] checks h = h
  run-IsReadable s (c ∷ cs) checks h =
      run-IsReadable (call yaml c s) cs checks.1
        (Effect-IsReadable s (call yaml c s) checks.0 (call-Effect yaml c s) h)
