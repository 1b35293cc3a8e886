-- ===== src/Model/Normal/Loads.antt =====
-- web/src/model/normalize.ts: reading what a model's JSON says gives the model back.
use tolquane.Base.{
  ℤ, pos, String, Option, none, some, List, [], ◌∷◌, length, ◌≡◌, refl, sym, ap, ap₂, ◌∙◌,
}
use tolquane.Model.Types.{
  Tree, start, ref, inline, pipeline, farm, comb, feedback, all2all, Trees, nil, cons, Worker, one,
  many, MaybeTree, nothing, just, Slot, default, exposed, block, FarmOptions, options, FarmSettings,
  FlowModel, FlowParam, NodeDef, NodeKind, EmitPolicy, CollectPolicy, Runtime, to_list,
}
use tolquane.Model.Nodes.{kind_text, emit_text, collect_text}
use tolquane.Model.Json.{Json, number, string, array, Members, empty, member, as_record}
use tolquane.Model.Normal.{
  string_or_null, as_strings, number_or_null, one_of, maybe_one_of, node_kinds, emit_policies,
  collect_policies, runtimes, settings_from, normalize_node, normalize_param, map_array,
}
use tolquane.Model.Normal.Trees.{
  read, read_items, farm_from, options_or_none, maybe_tree, key_of, normalize_tree, normalize_model,
}
use tolquane.Model.Normal.Print.{
  maybe, runtime_text, list_json, node_json, param_json, options_json, tree_json, trees_json,
  worker_json, maybe_json, slot_json, model_json,
}

-- Every farm with a list of workers counts them.
unfoldable mutual
  pub CountsItself : Tree → Type 0
  CountsItself (pipeline ts) = AllCount ts
  CountsItself (farm w n o) = WorkersCount w n × OptionsCount o
  CountsItself (comb a b) = CountsItself a × CountsItself b
  CountsItself (feedback t name) = CountsItself t
  CountsItself (all2all l r x y m) =
      CountsItself l × (CountsItself r × (MaybeCounts x × MaybeCounts y))
  CountsItself _ = Unit

  pub AllCount : Trees → Type 0
  AllCount nil = Unit
  AllCount (cons t ts) = CountsItself t × AllCount ts

  pub WorkersCount : Worker → ℤ → Type 0
  WorkersCount (one t) n = CountsItself t
  WorkersCount (many ts) n = (n ≡ pos (length (to_list ts))) × AllCount ts

  pub MaybeCounts : MaybeTree → Type 0
  MaybeCounts nothing = Unit
  MaybeCounts (just t) = CountsItself t

  pub SlotCounts : Slot → Type 0
  SlotCounts (block t) = CountsItself t
  SlotCounts _ = Unit

  pub OptionsCount : FarmOptions → Type 0
  OptionsCount (options s e c k) = SlotCounts e × (SlotCounts c × MaybeCounts k)

maybe_string : (o : Option String) → string_or_null (some (maybe string o)) ≡ o
maybe_string none = refl
maybe_string (some s) = refl

maybe_number : (o : Option ℤ) → number_or_null (some (maybe number o)) ≡ o
maybe_number none = refl
maybe_number (some n) = refl

one_of-kind : (k : NodeKind) → one_of (some (string (kind_text k))) node_kinds NodeKind.node ≡ k
one_of-kind NodeKind.source = refl
one_of-kind NodeKind.node = refl
one_of-kind NodeKind.sink = refl
one_of-kind NodeKind.raw = refl

one_of-emit :
    (e : EmitPolicy) → one_of (some (string (emit_text e))) emit_policies EmitPolicy.round_robin ≡ e
one_of-emit EmitPolicy.round_robin = refl
one_of-emit EmitPolicy.on_demand = refl
one_of-emit EmitPolicy.broadcast = refl
one_of-emit EmitPolicy.scatter = refl
one_of-emit EmitPolicy.key = refl

maybe_one_of-collect :
    (o : Option CollectPolicy)
    → maybe_one_of
        (some (maybe (λ c. string (collect_text c)) o))
        collect_policies
        CollectPolicy.first_come
      ≡ o
maybe_one_of-collect none = refl
maybe_one_of-collect (some CollectPolicy.first_come) = refl
maybe_one_of-collect (some CollectPolicy.round_robin) = refl
maybe_one_of-collect (some CollectPolicy.ordered) = refl
maybe_one_of-collect (some CollectPolicy.gather) = refl

maybe_one_of-runtime :
    (o : Option Runtime)
    → maybe_one_of (some (maybe (λ r. string (runtime_text r)) o)) runtimes Runtime.threads ≡ o
maybe_one_of-runtime none = refl
maybe_one_of-runtime (some Runtime.threads) = refl
maybe_one_of-runtime (some Runtime.processes) = refl

settings-options_json :
    (s : FarmSettings) (e c k : Json) → settings_from (as_record (some (options_json s e c k))) ≡ s
settings-options_json s e c k = λ i. record {
  emit = one_of-emit s.emit i;
  collect = maybe_one_of-collect s.collect i;
  ordered = s.ordered;
  prefetch = s.prefetch;
  window = maybe_number s.window i;
  name = maybe_string s.name i;
  capacity = maybe_number s.capacity i;
  runtime = maybe_one_of-runtime s.runtime i;
}

module _ (stringify : Json → String) where
  items_none : (t : Tree) → (read stringify (tree_json t)).items ≡ none
  unfolding read tree_json
  items_none start = refl
  items_none (ref id) = refl
  items_none (inline s) = refl
  items_none (pipeline ts) = refl
  items_none (farm w n (options s e c k)) = refl
  items_none (comb a b) = refl
  items_none (feedback t name) = refl
  items_none (all2all l r x y m) = refl

  slot_block :
      (t : Tree) → (read stringify (tree_json t)).slot ≡ block ((read stringify (tree_json t)).tree)
  unfolding read tree_json
  slot_block start = refl
  slot_block (ref id) = refl
  slot_block (inline s) = refl
  slot_block (pipeline ts) = refl
  slot_block (farm w n (options s e c k)) = refl
  slot_block (comb a b) = refl
  slot_block (feedback t name) = refl
  slot_block (all2all l r x y m) = refl

  maybe_just :
      (t : Tree)
      → maybe_tree (some (read stringify (tree_json t)))
        ≡ just ((read stringify (tree_json t)).tree)
  unfolding read tree_json
  maybe_just start = refl
  maybe_just (ref id) = refl
  maybe_just (inline s) = refl
  maybe_just (pipeline ts) = refl
  maybe_just (farm w n (options s e c k)) = refl
  maybe_just (comb a b) = refl
  maybe_just (feedback t name) = refl
  maybe_just (all2all l r x y m) = refl

  abbrev farm_members : Worker → ℤ → FarmSettings → Slot → Slot → MaybeTree → Members
  unfolding tree_json
  farm_members w n s e c k = member "type" (string "farm") (
      member "worker" (worker_json w) (
        member "workers" (number n)
          (member "options" (options_json s (slot_json e) (slot_json c) (maybe_json k)) empty)))

  mutual
    unfolding read tree_json CountsItself

    load : (t : Tree) → CountsItself t → (read stringify (tree_json t)).tree ≡ t
    load start h = refl
    load (ref id) h = refl
    load (inline s) h = refl
    load (pipeline ts) h = ap pipeline (load_all ts h)
    load (farm (one t) n (options s e c k)) h =
        let o : options_or_none
              (some (read stringify (options_json s (slot_json e) (slot_json c) (maybe_json k))))
            ≡ options s e c k =
          λ i.
            options (settings-options_json s (slot_json e) (slot_json c) (maybe_json k) i)
              (load_slot e h.1.0 i) (load_slot c h.1.1.0 i) (load_key k h.1.1.1 i) in
        let r = read stringify (tree_json t) in
        let d = farm_members (one t) n s e c k in
        ap
          (λ ts. farm_from d ts (some r) (
            options_or_none
              (some (read stringify (options_json s (slot_json e) (slot_json c) (maybe_json k))))))
          (items_none t)
        ∙ ap₂ (λ u v. farm (one u) n v) (load t h.0) o
    load (farm (many ts) n (options s e c k)) h =
        let o : options_or_none
              (some (read stringify (options_json s (slot_json e) (slot_json c) (maybe_json k))))
            ≡ options s e c k =
          λ i.
            options (settings-options_json s (slot_json e) (slot_json c) (maybe_json k) i)
              (load_slot e h.1.0 i) (load_slot c h.1.1.0 i) (load_key k h.1.1.1 i) in
        ap₂ (λ us v. farm (many us) (pos (length (to_list us))) v) (load_all ts h.0.1) o
        ∙ ap (λ count. farm (many ts) count (options s e c k)) (sym h.0.0)
    load (comb a b) h = ap₂ comb (load a h.0) (load b h.1)
    load (feedback t name) h = ap₂ feedback (load t h) (maybe_string name)
    load (all2all l r x y m) h = λ i.
        all2all (load l h.0 i) (load r h.1.0 i) (load_maybe x h.1.1.0 i) (load_maybe y h.1.1.1 i) m

    load_all : (ts : Trees) → AllCount ts → read_items stringify (trees_json ts) ≡ ts
    load_all nil h = refl
    load_all (cons t ts) h = ap₂ cons (load t h.0) (load_all ts h.1)

    load_maybe :
        (m : MaybeTree) → MaybeCounts m → maybe_tree (some (read stringify (maybe_json m))) ≡ m
    load_maybe nothing h = refl
    load_maybe (just t) h = maybe_just t ∙ ap just (load t h)

    load_key : (m : MaybeTree) → MaybeCounts m → key_of ((read stringify (maybe_json m)).slot) ≡ m
    load_key nothing h = refl
    load_key (just t) h = ap key_of (slot_block t) ∙ ap just (load t h)

    load_slot : (s : Slot) → SlotCounts s → (read stringify (slot_json s)).slot ≡ s
    load_slot default h = refl
    load_slot exposed h = refl
    load_slot (block t) h = slot_block t ∙ ap block (load t h)

  load_strings : (xs : List String) → as_strings (some (array (list_json string xs))) ≡ xs
  load_strings [] = refl
  load_strings (x ∷ xs) = ap (x ∷◌) (load_strings xs)

  load_node : (n : NodeDef) → normalize_node (node_json n) ≡ n
  unfolding normalize_node
  load_node n = λ i. record {
    id = n.id;
    kind = one_of-kind n.kind i;
    is_class = n.is_class;
    is_async = n.is_async;
    params = load_strings n.params i;
    doc = maybe_string n.doc i;
    source = n.source;
  }

  load_nodes :
      (ns : List NodeDef) → map_array normalize_node (some (array (list_json node_json ns))) ≡ ns
  load_nodes [] = refl
  load_nodes (n ∷ ns) = ap₂ (λ a rest. a ∷ rest) (load_node n) (load_nodes ns)

  load_param : (p : FlowParam) → normalize_param (param_json p) ≡ p
  unfolding normalize_param
  load_param p =
      λ i. record { name = p.name; default = p.default; annotation = maybe_string p.annotation i }

  load_params :
      (ps : List FlowParam)
      → map_array normalize_param (some (array (list_json param_json ps))) ≡ ps
  load_params [] = refl
  load_params (p ∷ ps) = ap₂ (λ a rest. a ∷ rest) (load_param p) (load_params ps)

-- Reading the JSON of a model gives the model back, when every farm with a list of workers counts them.
pub normalize_model-model_json :
    (stringify : Json → String) (m : FlowModel)
    → CountsItself m.flow
    → normalize_model stringify (model_json m) ≡ m
unfolding normalize_model model_json normalize_tree
normalize_model-model_json stringify m h = λ i. record {
  version = m.version;
  name = m.name;
  doc = maybe_string m.doc i;
  prelude = load_strings stringify m.prelude i;
  nodes = load_nodes stringify m.nodes i;
  flow = load stringify m.flow h i;
  start = maybe_string m.start i;
  params = load_params stringify m.params i;
  main = maybe_string m.main i;
  epilogue = load_strings stringify m.epilogue i;
  build_notes = load_strings stringify m.build_notes i;
  guard = maybe_string m.guard i;
}
