-- ===== src/Model/Normal/Print.antt =====
-- The JSON of a flow model: the fields of web/src/model/types.ts, as `JSON.stringify` writes them.
use tolquane.Base.{String, false, Option, none, some, List, [], ◌∷◌}
use tolquane.Model.Types.{
  Tree, start, ref, inline, pipeline, farm, comb, feedback, all2all, Trees, nil, cons, Worker, one,
  many, MaybeTree, nothing, just, Slot, default, exposed, block, options, FarmSettings, FlowModel,
  FlowParam, NodeDef, Runtime,
}
use tolquane.Model.Nodes.{kind_text, emit_text, collect_text}
use tolquane.Model.Json.{
  Json, null, bool, number, string, array, object, Jsons, end, item, empty, member,
}

abbrev pub maybe {ℓ} : {A : Type ℓ} → (A → Json) → Option A → Json
maybe f none = null
maybe f (some a) = f a

abbrev pub runtime_text : Runtime → String
runtime_text Runtime.threads = "threads"
runtime_text Runtime.processes = "processes"

abbrev pub list_json {ℓ} : {A : Type ℓ} → (A → Json) → List A → Jsons
list_json f [] = end
list_json f (a ∷ xs) = item (f a) (list_json f xs)

abbrev pub node_json : NodeDef → Json
node_json n = object (
    member "id" (string n.id) (
      member "kind" (string (kind_text n.kind)) (
        member "is_class" (bool n.is_class) (
          member "is_async" (bool n.is_async) (
            member "params" (array (list_json string n.params))
              (member "doc" (maybe string n.doc) (member "source" (string n.source) empty)))))))

abbrev pub param_json : FlowParam → Json
param_json p = object (
    member "name" (string p.name)
      (member "default" (string p.default) (member "annotation" (maybe string p.annotation) empty)))

-- The options, with the JSON of the emitter, the collector and the key.
abbrev pub options_json : FarmSettings → Json → Json → Json → Json
options_json s emitter collector key = object (
    member "emit" (string (emit_text s.emit)) (
      member "collect" (maybe (λ c. string (collect_text c)) s.collect) (
        member "ordered" (bool s.ordered) (
          member "emitter" emitter (
            member "collector" collector (
              member "key" key (
                member "prefetch" (number s.prefetch) (
                  member "window" (maybe number s.window) (
                    member "name" (maybe string s.name) (
                      member "capacity" (maybe number s.capacity) (
                        member "runtime" (maybe (λ r. string (runtime_text r)) s.runtime)
                          empty)))))))))))

unfoldable mutual
  pub tree_json : Tree → Json
  tree_json start = object (member "type" (string "start") empty)
  tree_json (ref id) = object (member "type" (string "ref") (member "id" (string id) empty))
  tree_json (inline s) = object (member "type" (string "inline") (member "source" (string s) empty))
  tree_json (pipeline ts) =
      object (member "type" (string "pipeline") (member "stages" (array (trees_json ts)) empty))
  tree_json (farm w n (options s e c k)) = object (
      member "type" (string "farm") (
        member "worker" (worker_json w) (
          member "workers" (number n)
            (member "options" (options_json s (slot_json e) (slot_json c) (maybe_json k)) empty))))
  tree_json (comb a b) = object (
      member "type" (string "comb")
        (member "first" (tree_json a) (member "second" (tree_json b) empty)))
  tree_json (feedback t name) = object (
      member "type" (string "feedback")
        (member "inner" (tree_json t) (member "name" (maybe string name) empty)))
  tree_json (all2all l r x y m) = object (
      member "type" (string "all2all") (
        member "left" (tree_json l) (
          member "right" (tree_json r) (
            member "R" (maybe_json x)
              (member "G" (maybe_json y) (member "merge" (bool m) empty))))))

  pub trees_json : Trees → Jsons
  trees_json nil = end
  trees_json (cons t ts) = item (tree_json t) (trees_json ts)

  pub worker_json : Worker → Json
  worker_json (one t) = tree_json t
  worker_json (many ts) = array (trees_json ts)

  pub maybe_json : MaybeTree → Json
  maybe_json nothing = null
  maybe_json (just t) = tree_json t

  pub slot_json : Slot → Json
  slot_json default = null
  slot_json exposed = bool false
  slot_json (block t) = tree_json t

unfoldable pub model_json : FlowModel → Json
unfolding tree_json
model_json m = object (
    member "version" (number m.version) (
      member "name" (string m.name) (
        member "doc" (maybe string m.doc) (
          member "prelude" (array (list_json string m.prelude)) (
            member "nodes" (array (list_json node_json m.nodes)) (
              member "flow" (tree_json m.flow) (
                member "start" (maybe string m.start) (
                  member "params" (array (list_json param_json m.params)) (
                    member "main" (maybe string m.main) (
                      member "epilogue" (array (list_json string m.epilogue)) (
                        member "build_notes" (array (list_json string m.build_notes))
                          (member "guard" (maybe string m.guard) empty))))))))))))
