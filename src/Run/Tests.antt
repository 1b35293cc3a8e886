-- ===== src/Run/Tests.antt =====
-- web/src/run: the theorems at a flow of a source and a farm of two threads.
use tolquane.Base.{
  if◌then◌else◌, ltb, arith, List, split_on, String, false, Option, none, some, pos, [], ◌∷◌, ◌≡◌,
  refl, ℕ, strip, show,
}
use tolquane.Model.Types.{FlowModel, pipeline, ref, farm, one, cons, nil}
use tolquane.Model.Tree.{default_farm_options, walk, preorder, children, join_path}
use tolquane.Run.Trigger.{ChainRun, Compared, TriggerKind, parse_trigger, retry_chain, plain}
use tolquane.Run.Trigger.Order.{Orders, opposite}
use tolquane.Run.Trigger.Chain.{IsChain, retry_chain-IsChain}
use tolquane.Ai.Stream.{count}
use tolquane.Run.Keys.{GraphNode, GraphEdge, GraphView, index_graph, get_key}
use tolquane.Run.Keys.Aliases.{run_aliases}
use tolquane.Run.Keys.Known.Added.{Fine}
use tolquane.Run.Keys.Known.Safe.{InRun, run_aliases-Fine}
use tolquane.Run.Keys.Nearest.{path_of_node, Smallest, path_of_node-Smallest}

abbrev model : FlowModel
model = record {
  version = pos 1;
  name = "copy";
  doc = none;
  prelude = [];
  nodes = [];
  flow =
      pipeline
        (cons (ref "numbers") (cons (farm (one (ref "double")) (pos 2) default_farm_options) nil));
  start = none;
  params = [];
  main = none;
  epilogue = [];
  build_notes = [];
  guard = none;
}

abbrev node : String → Option String → GraphNode
node name group = record { name = name; group = group }

abbrev edge : String → String → GraphEdge
edge src dst = record { src = src; dst = dst; feedback = false }

abbrev graph : GraphView
graph = record {
  nodes =
      node "numbers" none
      ∷ node "double.emitter" (some "double")
      ∷ node "double.0" (some "double")
      ∷ node "double.1" (some "double")
      ∷ node "double.collector" (some "double")
      ∷ [];
  edges =
      edge "numbers" "double.emitter"
      ∷ edge "double.emitter" "double.0"
      ∷ edge "double.emitter" "double.1"
      ∷ edge "double.0" "double.collector"
      ∷ edge "double.1" "double.collector"
      ∷ [];
  loops = [];
}

run_aliases-Fine_example :
    Fine (InRun graph) (index_graph graph) (run_aliases (some model) (some graph))
run_aliases-Fine_example = run_aliases-Fine model graph

path_of_node-Smallest_example :
    (n : Option ℕ) × Smallest model
      (index_graph graph)
      "double.1"
      (walk model.flow)
      (path_of_node (some model) (some graph) "double.1", n)
path_of_node-Smallest_example = path_of_node-Smallest model graph "double.1"

aliases_tests :
    ((run_aliases (some model) (some graph)).nodes
      ≡ (
        "pipeline",
        "numbers" ∷ "double.emitter" ∷ "double.0" ∷ "double.1" ∷ "double.collector" ∷ [],
      )
        ∷ ("double farm.emitter", "double.emitter" ∷ [])
        ∷ ("double farm.collector", "double.collector" ∷ [])
        ∷ ("double farm.0", "double.0" ∷ [])
        ∷ ("double farm.1", "double.1" ∷ [])
        ∷ [])
    × (get_key "stages.0->stages.1" (run_aliases (some model) (some graph)).edges
        ≡ some ("numbers->double.emitter" ∷ []))
    × (get_key "stages.1#emitter->stages.1.worker#1" (run_aliases (some model) (some graph)).edges
        ≡ some ("double.emitter->double.1" ∷ []))
unfolding run_aliases get_key preorder children strip show
aliases_tests = (refl, refl, refl)

path_tests :
    (path_of_node (some model) (some graph) "double.1" ≡ "stages.1")
    × (path_of_node (some model) (some graph) "absent" ≡ "")
unfolding path_of_node preorder children strip show join_path
path_tests = (refl, refl)

abbrev run : ℕ → String → String → ChainRun
run id trigger started = record { id = id; trigger = trigger; started = started }

abbrev first_run : ChainRun
first_run = run 7 "schedule:3" "1"

abbrev first_retry : ChainRun
first_retry = run 6 "retry:3:1" "1x"

abbrev second_retry : ChainRun
second_retry = run 2 "retry:3:2" "1xx"

abbrev by_hand : ChainRun
by_hand = run 3 "manual" "1x"

-- Two firings, the first with two retries, as they came.
abbrev runs : List ChainRun
runs = second_retry ∷ run 4 "schedule:3" "1xxx" ∷ by_hand ∷ first_retry ∷ first_run ∷ []

-- A start that is written with fewer characters is earlier.
abbrev by_length : String → String → Compared
by_length a b =
    if ltb (count a) (count b)
    then Compared.earlier
    else if ltb (count b) (count a)
    then Compared.later
    else Compared.same

by_length-Orders : Orders by_length
by_length-Orders = record {
  swap = λ a b. swap (count a) (count b);
  alike = λ a b c. alike (count a) (count b) (count c);
  trans = λ a b c. trans (count a) (count b) (count c);
}
  where
    by : ℕ → ℕ → Compared
    by m n = if ltb m n then Compared.earlier else if ltb n m then Compared.later else Compared.same

    swap : (m n : ℕ) → by n m ≡ opposite (by m n)
    swap m n = ground arith

    alike : (l m n : ℕ) → by l m ≡ Compared.same → by l n ≡ by m n
    alike l m n h = ground arith

    trans :
        (l m n : ℕ)
        → by l m ≡ Compared.earlier
        → by m n ≡ Compared.earlier
        → by l n ≡ Compared.earlier
    trans l m n h k = ground arith

retry_chain-IsChain_example :
    IsChain by_length runs first_retry (retry_chain by_length runs first_retry)
retry_chain-IsChain_example = retry_chain-IsChain by_length by_length-Orders runs first_retry

retry_chain_tests :
    (retry_chain by_length runs first_retry ≡ first_run ∷ first_retry ∷ second_retry ∷ [])
    × (retry_chain by_length runs by_hand ≡ by_hand ∷ [])
unfolding retry_chain strip split_on count
retry_chain_tests = (refl, refl)

parse_trigger_tests :
    (parse_trigger "retry:3:12"
      ≡ record { kind = TriggerKind.retry; schedule = some 3; attempt = 12; label = "Retry 12" })
    × (parse_trigger "retry:3" ≡ plain TriggerKind.other "retry:3")
unfolding parse_trigger strip split_on
parse_trigger_tests = (refl, refl)
