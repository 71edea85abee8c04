-- ===== src/State/Tests.antt =====
-- The stores on small concrete inputs.
use kai_daemon.Base.{
  inl, inr, ◌&&◌, is_none, if◌then◌else◌, ℕ, ◌≡◌, refl, ◌↔◌, ◌⊎◌, true, false, not, none, some,
  List, [], ◌∷◌, All, In, arith, ltb, ◌*◌, filter, leb,
}
use kai_daemon.Base.Dict
use kai_daemon.Base.Dict.{Dict}
use kai_daemon.Base.Time.{aware, day}
use kai_daemon.Base.Outcome.{return, raise, value_error}
use kai_daemon.State.Types.{internal}
use kai_daemon.State.Table.{Parsed, invalid, rows, store, load}
use kai_daemon.State.Holding.{
  IsSupported, is_disagreement, id_of, HoldingYaml, HoldingItem, HoldingStore,
  reasoned_disagreement, high, any, write, read, discharge, mark_surfaced, list_unsurfaced,
  forced_surface, new_item,
}
use kai_daemon.State.Holding.Lifecycle.{Call, writes, discharges, call, run, discharge_final}
use kai_daemon.State.Holding.Reload.{IsSound, run-IsSound}
use kai_daemon.State.Holding.Surface.{IsOverdue, forced_surface_exact}
use kai_daemon.State.Floats.{Floats}
use kai_daemon.State.Discharge.{select_discharge_candidate, passes, consider_all, consider}
use kai_daemon.State.Discharge.Selection.{IsBest, select-IsBest}
use kai_daemon.State.Discharge.Turn.{selected_once}

-- A YAML whose documents are the rows themselves, each of which is validated when it is read.
abbrev pub parse_items : List HoldingItem → List HoldingItem → Parsed HoldingItem
parse_items all [] = rows all
parse_items all (i ∷ is) =
    if is_disagreement i.type && is_none i.contradiction_id then invalid else parse_items all is

supported_passes :
    (i : HoldingItem)
    → IsSupported i
    → (is_disagreement i.type && is_none i.contradiction_id) ≡ false
supported_passes i (inl plain) = rw plain refl
supported_passes i (inr (c, named)) = ground arith

pub parse_items-supported :
    (all is : List HoldingItem) → All IsSupported is → parse_items all is ≡ rows all
parse_items-supported all [] h = refl
parse_items-supported all (i ∷ is) h =
    rw (supported_passes i h.0) (parse_items-supported all is h.1)

abbrev pub rows_yaml : HoldingYaml
rows_yaml = record {
  Document = List HoldingItem;
  dump = λ l. l;
  parse = λ l. parse_items l l;
  parse-dump = λ l h. parse_items-supported l l h;
}

abbrev doubt : HoldingItem
doubt = record {
  id = "doubt";
  content = "not so";
  type = reasoned_disagreement;
  relevance_trigger = "claims";
  register_needed = any;
  urgency = high;
  created = aware 0;
  surfaced = none;
  discharge_notes = none;
  source_workflow = "contradiction_detection";
  epistemic_origin = internal;
  thread_ids = [];
  contradiction_id = some "c1";
}

abbrev groundless : HoldingItem
groundless = record doubt { contradiction_id = none }

-- A file with an item that the validator refuses does not load.
groundless_file : load rows_yaml id_of (some (groundless ∷ [])) ≡ raise value_error
unfolding load
groundless_file = refl

abbrev empty : HoldingStore rows_yaml
empty = record { items = []; file = none }

abbrev one : HoldingStore rows_yaml
one = record { items = ("doubt", doubt) ∷ []; file = some (doubt ∷ []) }

abbrev told : HoldingItem
told = mark_surfaced rows_yaml (aware 5) none doubt

abbrev calls : List Call
calls = writes doubt ∷ discharges (aware 6) "doubt" none ∷ []

abbrev told_once : HoldingStore rows_yaml
told_once = (discharge rows_yaml (aware 5) "doubt" none one).1

discharge_final_example :
    (told.surfaced ≡ some (aware 5))
    × (read rows_yaml "doubt" (run rows_yaml told_once calls)
        ≡ (return told, run rows_yaml told_once calls))
    × (discharge rows_yaml (aware 7) "doubt" none (run rows_yaml told_once calls)
        ≡ (raise value_error, run rows_yaml told_once calls))
unfolding discharge read store Dict.get
discharge_final_example =
    discharge_final rows_yaml (aware 5) (aware 7) "doubt" none none one calls told refl

empty-IsSound : IsSound rows_yaml empty
unfolding load
empty-IsSound = record {
  stored = record { keyed = tt; distinct = tt; reloads = refl };
  supported = tt;
}

one-IsSound : IsSound rows_yaml (run rows_yaml empty (writes doubt ∷ []))
one-IsSound = run-IsSound rows_yaml empty (writes doubt ∷ []) empty-IsSound

run-IsSound_example : IsSound rows_yaml (run rows_yaml empty calls)
run-IsSound_example = run-IsSound rows_yaml empty calls empty-IsSound

forced_surface_example :
    (out : List HoldingItem) × (forced_surface rows_yaml (8 * day) one ≡ return out)
    × ((i : HoldingItem)
        → In i out ↔ In i (Dict.values one.items) × (i.surfaced ≡ none) × IsOverdue (8 * day) i)
unfolding list_unsurfaced filter
forced_surface_example = forced_surface_exact rows_yaml (8 * day) one ((0, refl), tt)

pub ltb_irrefl : (a : ℕ) → ltb a a ≡ false
ltb_irrefl a = ground arith

pub ltb_trans : (a b c : ℕ) → ltb b a ≡ true → ltb c b ≡ true → ltb c a ≡ true
ltb_trans a b c p q = ground arith

pub ltb_split : (a b c : ℕ) → ltb b a ≡ true → (ltb b c ≡ true) ⊎ (ltb c a ≡ true)
ltb_split a b c p = ground arith

pub ltb_lowest : (a b : ℕ) → ltb b a ≡ true → ltb 0 a ≡ true
ltb_lowest a b p = ground arith

pub leb-ltb : (a b : ℕ) → leb a b ≡ not (ltb b a)
leb-ltb a b = ground arith

-- Natural numbers in the place of floats: 0 is also the lowest.
abbrev pub counts : Floats
counts = record {
  Float = ℕ;
  is_number = λ _. true;
  gt = λ a b. ltb b a;
  le = λ a b. leb a b;
  zero = 0;
  minus_infinity = 0;
  gt_irrefl = ltb_irrefl;
  gt_trans = ltb_trans;
  gt_split = λ a b c _ p. ltb_split a b c p;
  gt_lowest = ltb_lowest;
  le-gt = λ a b _ _. leb-ltb a b;
  is_number_zero = refl;
}

abbrev likely : Dict ℕ
likely = ("doubt", 80) ∷ []

select-IsBest_example :
    ((select_discharge_candidate counts "casual" likely 72 (doubt ∷ []) ≡ none)
      × All (λ i. passes counts "casual" likely 72 i ≡ false) (doubt ∷ []))
    ⊎ ((item : HoldingItem) × (select_discharge_candidate counts "casual" likely 72 (doubt ∷ [])
          ≡ some item)
        × IsBest counts "casual" likely 72 (doubt ∷ []) item)
select-IsBest_example = select-IsBest counts "casual" likely 72 (doubt ∷ []) (refl, tt) refl

selected_once_example :
    ((discharge rows_yaml (aware 5) "doubt" none (run rows_yaml empty (writes doubt ∷ []))).0
      ≡ return told)
    × ¬ (
        (select_discharge_candidate counts "reflective" likely 10 (
            Dict.values
              (run rows_yaml
                (discharge rows_yaml
                  (aware 5)
                  "doubt"
                  none
                  (run rows_yaml empty (writes doubt ∷ []))).1
                calls).items)
          ≡ some told)
        × (told.id ≡ "doubt"))
unfolding run call write new_item store Dict.put Dict.get select_discharge_candidate consider_all
    consider passes
selected_once_example =
    selected_once counts rows_yaml "casual" "reflective" likely likely 72 10
      (run rows_yaml empty (writes doubt ∷ [])) doubt told (aware 5) none calls one-IsSound refl
