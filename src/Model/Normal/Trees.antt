-- ===== src/Model/Normal/Trees.antt =====
-- web/src/model/normalize.ts: reading a tree and a model.
use text.Mathlib.Text.{◌==◌}
use tolquane.Base.{
  ℕ, suc, show, pos, String, true, false, Option, none, some, List, [], ◌∷◌, length, or_else,
  if◌then◌else◌,
}
use tolquane.Model.Types.{
  Tree, start, ref, inline, pipeline, farm, comb, feedback, all2all, Trees, nil, cons, one, many,
  MaybeTree, nothing, just, Slot, default, exposed, block, FarmOptions, options, FlowModel, to_list,
}
use tolquane.Model.Tree.{default_settings}
use tolquane.Model.Layout.{Position, Positions, Viewport, Sample, Layout}
use tolquane.Model.Json.{
  Json, null, bool, number, string, array, object, Jsons, end, item, Members, empty, member, field,
  as_record,
}
use tolquane.Model.Normal.{
  string_or_null, as_string, as_strings, number_or_null, as_bool, normalize_node, normalize_param,
  settings_from, map_array,
}

-- A value with its tree; an array with the trees of its items, and an object with what its fields
-- give.
pub record Read : Type 0 where
  pub tree : Tree
  pub items : Option Trees
  pub slot : Slot
  pub options_of : FarmOptions
  pub raw : Json

abbrev pub read_of : String → List (String × Read) → Option Read
read_of key [] = none
read_of key ((k, r) ∷ rs) = if k == key then some r else read_of key rs

-- `normalizeTree(undefined)`
abbrev pub tree_or_none : Option Read → Tree
tree_or_none none = inline ""
tree_or_none (some r) = r.tree

-- `normalizeSlot`; `normalizeTree` on what is neither false nor null.
abbrev pub slot_or_none : Option Read → Slot
slot_or_none none = default
slot_or_none (some r) = r.slot

-- The key of the options: null, undefined and false are none.
abbrev pub key_of : Slot → MaybeTree
key_of default = nothing
key_of exposed = nothing
key_of (block t) = just t

-- `data.R === null || data.R === undefined ? null : normalizeTree(data.R)`
abbrev pub maybe_tree : Option Read → MaybeTree
maybe_tree none = nothing
maybe_tree (some r) = elim r.raw [ null ↦ nothing | _ ↦ just r.tree ]

abbrev pub items_or_none : Option Read → Option Trees
items_or_none none = none
items_or_none (some r) = r.items

abbrev pub stages_of : Option Trees → Trees
stages_of none = nil
stages_of (some ts) = ts

abbrev pub options_from : Members → List (String × Read) → FarmOptions
options_from d rs =
    options (settings_from d) (slot_or_none (read_of "emitter" rs))
      (slot_or_none (read_of "collector" rs)) (key_of (slot_or_none (read_of "key" rs)))

-- `normalizeOptions(undefined)`
abbrev pub options_or_none : Option Read → FarmOptions
options_or_none none = options default_settings default default nothing
options_or_none (some r) = r.options_of

abbrev pub farm_from : Members → Option Trees → Option Read → FarmOptions → Tree
farm_from d (some ts) w o = farm (many ts) (pos (length (to_list ts))) o
farm_from d none w o =
    farm (one (tree_or_none w)) (or_else (number_or_null (field "workers" d)) (pos 4)) o

module _ (stringify : Json → String) where
  -- The switch of `normalizeTree`, on an object.
  abbrev pub by_type : Option String → Members → List (String × Read) → Tree
  by_type none d rs = inline (as_string (field "source" d) (stringify (object d)))
  by_type (some k) d rs =
      if k == "start"
      then start
      else if k == "ref"
      then ref (as_string (field "id" d) "")
      else if k == "pipeline"
      then pipeline (stages_of (items_or_none (read_of "stages" rs)))
      else if k == "farm"
      then farm_from d (items_or_none (read_of "worker" rs)) (read_of "worker" rs)
          (options_or_none (read_of "options" rs))
      else if k == "comb"
      then comb (tree_or_none (read_of "first" rs)) (tree_or_none (read_of "second" rs))
      else if k == "feedback"
      then feedback (tree_or_none (read_of "inner" rs)) (string_or_null (field "name" d))
      else if k == "all2all"
      then all2all (tree_or_none (read_of "left" rs)) (tree_or_none (read_of "right" rs))
          (maybe_tree (read_of "R" rs)) (maybe_tree (read_of "G" rs))
          (as_bool (field "merge" d) false)
      else if k == "inline"
      then inline (as_string (field "source" d) "")
      else inline (as_string (field "source" d) (stringify (object d)))

  abbrev pub unknown : Json → Read
  unknown j = record {
    tree = inline (stringify j);
    items = none;
    slot = block (inline (stringify j));
    options_of = options default_settings default default nothing;
    raw = j;
  }

  unfoldable mutual
    pub read : Json → Read
    read null = record (unknown null) { slot = default }
    read (bool true) = unknown (bool true)
    read (bool false) = record (unknown (bool false)) { slot = exposed }
    read (number n) = unknown (number n)
    read (string s) = unknown (string s)
    read (array js) = record (unknown (array js)) { items = some (read_items js) }
    read (object d) =
        let t = by_type (string_or_null (field "type" d)) d (read_fields d) in
        record {
          tree = t;
          items = none;
          slot = block t;
          options_of = options_from d (read_fields d);
          raw = object d;
        }

    pub read_items : Jsons → Trees
    read_items end = nil
    read_items (item j js) = cons ((read j).tree) (read_items js)

    pub read_fields : Members → List (String × Read)
    read_fields empty = []
    read_fields (member k j ms) = (k, read j) ∷ read_fields ms

  unfoldable pub normalize_tree : Json → Tree
  unfolding read
  normalize_tree j = (read j).tree

  abbrev pub flow_at : Option Json → Tree
  unfolding normalize_tree
  flow_at none = inline ""
  flow_at (some j) = normalize_tree j

  abbrev pub model_from : Members → FlowModel
  unfolding normalize_tree normalize_node normalize_param
  model_from d = record {
    version = or_else (number_or_null (field "version" d)) (pos 1);
    name = as_string (field "name" d) "flow";
    doc = string_or_null (field "doc" d);
    prelude = as_strings (field "prelude" d);
    nodes = map_array normalize_node (field "nodes" d);
    flow = flow_at (field "flow" d);
    start = string_or_null (field "start" d);
    params = map_array normalize_param (field "params" d);
    main = string_or_null (field "main" d);
    epilogue = as_strings (field "epilogue" d);
    build_notes = as_strings (field "build_notes" d);
    guard = string_or_null (field "guard" d);
  }

  unfoldable pub normalize_model : Json → FlowModel
  unfolding model_from
  normalize_model raw = model_from (as_record (some raw))

  abbrev indexed : ℕ → Jsons → Members
  indexed i end = empty
  indexed i (item j js) = member (show i) j (indexed (suc i) js)

  -- `Object.entries(asRecord(value))`; those of an array go by its indices.
  abbrev entries_of : Option Json → Members
  entries_of (some (array js)) = indexed 0 js
  entries_of j = as_record j

  abbrev position_from : Members → Position
  position_from d = record {
    x = or_else (number_or_null (field "x" d)) (pos 0);
    y = or_else (number_or_null (field "y" d)) (pos 0);
  }

  abbrev positions_from : Members → Positions
  positions_from empty = []
  positions_from (member k j ms) = (k, position_from (as_record (some j))) ∷ positions_from ms

  abbrev viewport_from : Members → Viewport
  viewport_from d = record {
    x = or_else (number_or_null (field "x" d)) (pos 0);
    y = or_else (number_or_null (field "y" d)) (pos 0);
    zoom = or_else (number_or_null (field "zoom" d)) (pos 1);
  }

  abbrev viewport_of : Option Json → Option Viewport
  viewport_of none = none
  viewport_of (some null) = none
  viewport_of (some j) = some (viewport_from (as_record (some j)))

  -- An item of a sample is kept as JSON text.
  abbrev sample_from : Members → Sample
  sample_from d = record {
    name = as_string (field "name" d) "";
    items = map_array stringify (field "items" d);
  }

  abbrev layout_from : Members → Layout
  layout_from d = record {
    version = or_else (number_or_null (field "version" d)) (pos 1);
    positions = positions_from (entries_of (field "positions" d));
    viewport = viewport_of (field "viewport" d);
    samples = map_array (λ j. sample_from (as_record (some j))) (field "samples" d);
  }

  unfoldable pub normalize_layout : Json → Layout
  normalize_layout raw = layout_from (as_record (some raw))
