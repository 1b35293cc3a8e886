-- ===== src/Model/Normal/Counts.antt =====
-- web/src/model/normalize.ts: what is read counts its own workers, and reading it again changes nothing.
use text.Mathlib.Text.{◌==◌}
use tolquane.Base.{String, true, false, Option, none, some, List, [], ◌∷◌, ◌≡◌, refl, All, if_cases}
use tolquane.Model.Types.{Trees, nothing, just, Slot, default, exposed, block, FarmOptions}
use tolquane.Model.Json.{
  Json, null, bool, number, string, array, object, Jsons, end, item, Members, empty, member, field,
  as_record,
}
use tolquane.Model.Normal.{string_or_null}
use tolquane.Model.Normal.Trees.{
  Read, read, read_items, read_fields, farm_from, options_or_none, maybe_tree, key_of, slot_or_none,
  tree_or_none, items_or_none, stages_of, options_from, read_of, by_type, flow_at, normalize_tree,
  normalize_model,
}
use tolquane.Model.Normal.Print.{model_json}
use tolquane.Model.Normal.Loads.{
  CountsItself, AllCount, MaybeCounts, SlotCounts, OptionsCount, normalize_model-model_json,
}

ItemsCount : Option Trees → Type 0
unfolding CountsItself
ItemsCount none = Unit
ItemsCount (some ts) = AllCount ts

record ReadCounts (r : Read) : Type 0 where
  tree : CountsItself r.tree
  items : ItemsCount r.items
  slot : SlotCounts r.slot
  options_of : OptionsCount r.options_of

abbrev FieldsCount : List (String × Read) → Type 0
FieldsCount rs = All (λ (p : String × Read). ReadCounts p.1) rs

abbrev MaybeReadCounts : Option Read → Type 0
MaybeReadCounts none = Unit
MaybeReadCounts (some r) = ReadCounts r

read_of-Counts :
    (key : String) (rs : List (String × Read)) → FieldsCount rs → MaybeReadCounts (read_of key rs)
read_of-Counts key [] h = tt
read_of-Counts key ((k, r) ∷ rs) h =
    if_cases MaybeReadCounts (k == key) (λ e. h.0) (λ e. read_of-Counts key rs h.1)

tree_or_none-Counts : (o : Option Read) → MaybeReadCounts o → CountsItself (tree_or_none o)
unfolding CountsItself
tree_or_none-Counts none h = tt
tree_or_none-Counts (some r) h = h.tree

slot_or_none-Counts : (o : Option Read) → MaybeReadCounts o → SlotCounts (slot_or_none o)
unfolding CountsItself
slot_or_none-Counts none h = tt
slot_or_none-Counts (some r) h = h.slot

key_of-Counts : (s : Slot) → SlotCounts s → MaybeCounts (key_of s)
unfolding CountsItself
key_of-Counts default h = tt
key_of-Counts exposed h = tt
key_of-Counts (block t) h = h

stages-Counts : (o : Option Read) → MaybeReadCounts o → AllCount (stages_of (items_or_none o))
unfolding CountsItself ItemsCount
stages-Counts none h = tt
stages-Counts (some r) h = go r.items h.items
  where
    go : (o : Option Trees) → ItemsCount o → AllCount (stages_of o)
    go none h = tt
    go (some ts) h = h

maybe_tree-Counts : (o : Option Read) → MaybeReadCounts o → MaybeCounts (maybe_tree o)
unfolding CountsItself
maybe_tree-Counts none h = tt
maybe_tree-Counts (some r) h = go r.raw
  where
    go : (j : Json) → MaybeCounts (elim j [ null ↦ nothing | _ ↦ just r.tree ])
    go null = tt
    go (bool b) = h.tree
    go (number n) = h.tree
    go (string s) = h.tree
    go (array js) = h.tree
    go (object d) = h.tree

options_or_none-Counts : (o : Option Read) → MaybeReadCounts o → OptionsCount (options_or_none o)
unfolding CountsItself
options_or_none-Counts none h = (tt, (tt, tt))
options_or_none-Counts (some r) h = h.options_of

options_from-Counts :
    (d : Members) (rs : List (String × Read)) → FieldsCount rs → OptionsCount (options_from d rs)
unfolding CountsItself
options_from-Counts d rs h = (
  slot_or_none-Counts _ (read_of-Counts "emitter" rs h),
  (
    slot_or_none-Counts _ (read_of-Counts "collector" rs h),
    key_of-Counts (slot_or_none (read_of "key" rs))
        (slot_or_none-Counts (read_of "key" rs) (read_of-Counts "key" rs h)),
  ),
)

farm_from-Counts :
    (d : Members) (w : Option Read) (o : FarmOptions)
    → MaybeReadCounts w
    → OptionsCount o
    → CountsItself (farm_from d (items_or_none w) w o)
unfolding CountsItself ItemsCount
farm_from-Counts d none o h k = (tt, k)
farm_from-Counts d (some r) o h k = go r.items h.items
  where
    go : (i : Option Trees) → ItemsCount i → CountsItself (farm_from d i (some r) o)
    go none l = (h.tree, k)
    go (some ts) l = ((refl, l), k)

module _ (stringify : Json → String) where
  by_type-Counts :
      (o : Option String) (d : Members) (rs : List (String × Read))
      → FieldsCount rs
      → CountsItself (by_type stringify o d rs)
  unfolding CountsItself
  by_type-Counts none d rs h = tt
  by_type-Counts (some k) d rs h =
      let at : (key : String) → MaybeReadCounts (read_of key rs) = λ key. read_of-Counts key rs h in
      if_cases CountsItself (k == "start") (λ e. tt)
        (λ e.
          if_cases CountsItself (k == "ref") (λ e. tt)
            (λ e.
              if_cases CountsItself (k == "pipeline") (λ e. stages-Counts _ (at "stages"))
                (λ e.
                  if_cases CountsItself (k == "farm")
                    (λ e.
                      farm_from-Counts d _ _ (at "worker")
                        (options_or_none-Counts _ (at "options")))
                    (λ e.
                      if_cases CountsItself (k == "comb")
                        (λ e.
                          (tree_or_none-Counts _ (at "first"), tree_or_none-Counts _ (at "second")))
                        (λ e.
                          if_cases CountsItself (k == "feedback")
                            (λ e. tree_or_none-Counts _ (at "inner"))
                            (λ e.
                              if_cases CountsItself (k == "all2all")
                                (λ e. (
                                  tree_or_none-Counts _ (at "left"),
                                  (
                                    tree_or_none-Counts _ (at "right"),
                                    (maybe_tree-Counts _ (at "R"), maybe_tree-Counts _ (at "G")),
                                  ),
                                ))
                                (λ e.
                                  if_cases CountsItself (k == "inline") (λ e. tt) (λ e. tt))))))))

  mutual
    unfolding read CountsItself ItemsCount

    read-Counts : (j : Json) → ReadCounts (read stringify j)
    read-Counts null = record { tree = tt; items = tt; slot = tt; options_of = (tt, (tt, tt)) }
    read-Counts (bool true) = record {
      tree = tt;
      items = tt;
      slot = tt;
      options_of = (tt, (tt, tt));
    }
    read-Counts (bool false) = record {
      tree = tt;
      items = tt;
      slot = tt;
      options_of = (tt, (tt, tt));
    }
    read-Counts (number n) = record {
      tree = tt;
      items = tt;
      slot = tt;
      options_of = (tt, (tt, tt));
    }
    read-Counts (string s) = record {
      tree = tt;
      items = tt;
      slot = tt;
      options_of = (tt, (tt, tt));
    }
    read-Counts (array js) = record {
      tree = tt;
      items = items-Counts js;
      slot = tt;
      options_of = (tt, (tt, tt));
    }
    read-Counts (object d) =
        let t =
          by_type-Counts (string_or_null (field "type" d)) d (read_fields stringify d)
            (fields-Counts d) in
        record {
          tree = t;
          items = tt;
          slot = t;
          options_of = options_from-Counts d (read_fields stringify d) (fields-Counts d);
        }

    items-Counts : (js : Jsons) → AllCount (read_items stringify js)
    items-Counts end = tt
    items-Counts (item j js) = ((read-Counts j).tree, items-Counts js)

    fields-Counts : (d : Members) → FieldsCount (read_fields stringify d)
    fields-Counts empty = tt
    fields-Counts (member k j d) = (read-Counts j, fields-Counts d)

  flow-Counts : (o : Option Json) → CountsItself (flow_at stringify o)
  unfolding normalize_tree CountsItself
  flow-Counts none = tt
  flow-Counts (some j) = (read-Counts j).tree

-- Every model that is read from JSON, whatever the JSON is, is the model that is read from its own JSON:
-- reading twice gives what reading once gives.
pub normalize_model-idempotent :
    (stringify : Json → String) (j : Json)
    → normalize_model stringify (model_json (normalize_model stringify j))
      ≡ normalize_model stringify j
unfolding normalize_model
normalize_model-idempotent stringify j =
    normalize_model-model_json stringify (normalize_model stringify j)
      (flow-Counts stringify (field "flow" (as_record (some j))))
