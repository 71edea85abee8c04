-- ===== src/State/Borderline/Tests.antt =====
-- A pool with an item that was promoted and one that is old.
use kai_daemon.Base.{
  All, In, true, false, length, filter, ◌≡◌, refl, ◌*◌, ◌⊎◌, none, some, List, [], ◌∷◌,
}
use kai_daemon.Base.Dict
use kai_daemon.Base.Time.{aware, day}
use kai_daemon.Base.Outcome.{return, raise, value_error, type_error}
use kai_daemon.State.Table.{rows, PlainYaml}
use kai_daemon.State.Borderline.{
  BorderlineItem, pending, promoted, BorderlinePool, load_pool, promote, discard, expire_old,
}
use kai_daemon.State.Borderline.Overdue.{is_overdue, blocks, aged}
use kai_daemon.State.Borderline.Final.{Call, appends, promotes, expires, IsKept}
use kai_daemon.State.Borderline.Decided.{run, InStep, expire_old_lem, decided_final}

abbrev rows_yaml : PlainYaml BorderlineItem
rows_yaml = record {
  Document = List BorderlineItem;
  dump = λ l. l;
  parse = λ l. rows l;
  parse-dump = λ l h. refl;
}

abbrev kept : BorderlineItem
kept = record {
  id = "kept";
  raw_output = "a thought";
  created = aware 0;
  status = promoted;
  promoted_at = some (aware 4);
  discarded_at = none;
}

abbrev old : BorderlineItem
old = record kept { id = "old"; status = pending; promoted_at = none }

abbrev pool : BorderlinePool rows_yaml
pool = record { items = ("kept", kept) ∷ ("old", old) ∷ []; file = some (kept ∷ old ∷ []) }

pool-IsKept : IsKept pool.items
unfolding Dict.get
pool-IsKept = record { keyed = (refl, (refl, tt)); distinct = (refl, (refl, tt)) }

abbrev calls : List Call
calls = appends "new" (aware 9) "another" ∷ promotes "kept" 9 ∷ expires (40 * day) ∷ []

decided_final_example :
    (Dict.get (run rows_yaml calls pool).items "kept" ≡ some kept)
    × (promote rows_yaml "kept" 12 (run rows_yaml calls pool)
        ≡ (raise value_error, run rows_yaml calls pool))
    × (discard rows_yaml "kept" 12 (run rows_yaml calls pool)
        ≡ (raise value_error, run rows_yaml calls pool))
unfolding Dict.get
decided_final_example =
    decided_final rows_yaml calls pool "kept" kept 12 (refl, (tt, (tt, tt))) pool-IsKept refl refl

pool-InStep : InStep rows_yaml pool
unfolding load_pool Dict.from_rows Dict.put
pool-InStep = record { kept = pool-IsKept; reloads = refl }

expire_old_example :
    (All (λ i. blocks (40 * day) i ≡ false) (Dict.values pool.items)
      × ((expire_old rows_yaml (40 * day) pool).0
          ≡ return (length (filter (is_overdue (40 * day)) (Dict.values pool.items))))
      × All
          (λ i.
            Dict.get (expire_old rows_yaml (40 * day) pool).1.items i.id ≡ some (aged (40 * day) i))
          (Dict.values pool.items)
      × InStep rows_yaml (expire_old rows_yaml (40 * day) pool).1)
    ⊎ (((i : BorderlineItem) × In i (Dict.values pool.items) × (blocks (40 * day) i ≡ true))
        × ((expire_old rows_yaml (40 * day) pool).0 ≡ raise type_error)
        × ((expire_old rows_yaml (40 * day) pool).1.file ≡ pool.file))
expire_old_example = expire_old_lem rows_yaml (40 * day) pool pool-InStep
