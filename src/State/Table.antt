-- ===== src/State/Table.antt =====
-- What the stores of scratch.py, holding.py and borderline.py share: a dict of records by `id`,
-- of which `_save` writes every row to one YAML file, and which `_load` reads back.
use kai_daemon.Base.{String, ◌≡◌, ap, ◌∙◌, Option, none, some, List, [], All, All-of_In}
use kai_daemon.Base.Dict
use kai_daemon.Base.Dict.{Dict, IsKeyed, IsDistinct, from_rows, put-IsKeyed, put-IsDistinct}
use kai_daemon.Base.Outcome.{Outcome, return, raise, value_error, yaml_error}

-- What `yaml.safe_load` and the validation of each row make of a file.
pub data Parsed (A : Type 0) : Type 0 where
  rows : List A → Parsed A
  corrupt : Parsed A  -- `yaml.YAMLError`
  invalid : Parsed A  -- `ValidationError`, a `ValueError`

-- PyYAML and pydantic: `model_dump`, `yaml.dump`, `yaml.safe_load`, `model_validate`. The validators
-- of the model run on every row that is read, and take the rows that are `IsModel`.
pub record Yaml (A : Type 0) (IsModel : A → Type 0) : Type 1 where
  pub Document : Type 0
  pub dump : List A → Document
  pub parse : Document → Parsed A
  pub parse-dump : (items : List A) → All IsModel items → parse (dump items) ≡ rows items

-- A model without validators of its own.
abbrev pub PlainYaml : Type 0 → Type 1
PlainYaml A = Yaml A (λ _. Unit)

pub All-plain : {A : Type 0} (items : List A) → All {0, 0} (λ _. Unit) items
All-plain items = All-of_In (λ _. Unit) items (λ a i. tt)

pub record Table (A D : Type 0) : Type 0 where
  pub items : Dict A
  pub file : Option D

module _ {A : Type 0} (id : A → String) where
  abbrev pub restore : Parsed A → Outcome (Dict A)
  restore (rows items) = return (from_rows id [] items)
  restore corrupt = raise yaml_error
  restore invalid = raise value_error

module _ {A : Type 0} {IsModel : A → Type 0} (yaml : Yaml A IsModel) where
  -- `_save`
  unfoldable pub save : Table A yaml.Document → Table A yaml.Document
  save t = record t { file = some (yaml.dump (Dict.values t.items)) }

  -- `self._items[k] = v; self._save()`
  unfoldable pub store : String → A → Table A yaml.Document → Table A yaml.Document
  unfolding save
  store k v t = save (record t { items = Dict.put t.items k v })

  -- `_load`: the items of the file, or none where there is no file
  unfoldable pub load : (A → String) → Option yaml.Document → Outcome (Dict A)
  load id none = return []
  load id (some d) = restore id (yaml.parse d)

  -- Each record stands under its own id, once, and the file reads back as the items in memory.
  pub record IsStored (id : A → String) (t : Table A yaml.Document) : Type 0 where
    pub keyed : IsKeyed id t.items
    pub distinct : IsDistinct t.items
    pub reloads : load id t.file ≡ return t.items

  pub save-IsStored :
      (id : A → String) (t : Table A yaml.Document)
      → IsKeyed id t.items
      → IsDistinct t.items
      → All IsModel (Dict.values t.items)
      → IsStored id (save t)
  unfolding save load
  save-IsStored id t keyed distinct models = record {
    keyed = keyed;
    distinct = distinct;
    reloads =
        ap (restore id) (yaml.parse-dump (Dict.values t.items) models)
        ∙ ap return (Dict.from_rows-values id t.items keyed distinct);
  }

  pub store-IsStored :
      (id : A → String) (v : A) (t : Table A yaml.Document)
      → IsStored id t
      → All IsModel (Dict.values (Dict.put t.items (id v) v))
      → IsStored id (store (id v) v t)
  unfolding store
  store-IsStored id v t s models =
      save-IsStored id (record t { items = Dict.put t.items (id v) v })
        (put-IsKeyed id t.items v s.keyed) (put-IsDistinct t.items (id v) v s.distinct) models
