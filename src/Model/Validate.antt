-- ===== src/Model/Validate.antt =====
-- web/src/model/validate.ts: what is wrong with a flow.
pub mod Order
pub mod Blocks
pub mod Paths
pub mod Worst
use text.Mathlib.Text.{◌==◌}
use tolquane.Base.{
  strip, ℕ, zero, suc, ℤ, pos, negsuc, below_one, String, ◌<>◌, Bool, true, false, not, ◌&&◌, ◌||◌,
  Option, none, some, is_some, List, [], ◌∷◌, ◌++◌, any, keep, concat_map, show, show_int,
  if◌then◌else◌, or_else,
}
use tolquane.Model.Types.{
  NodeKind, NodeDef, EmitPolicy, CollectPolicy, Runtime, FarmSettings, Tree, start, ref, inline,
  pipeline, farm, comb, feedback, all2all, Trees, nil, cons, Worker, one, many, MaybeTree, nothing,
  just, Slot, default, exposed, block, FarmOptions, options, settings, FlowModel, to_list,
}
use tolquane.Model.Tree.{farm_workers, join_path, preorder}
use tolquane.Model.Nodes.{find_node, kind_of, emit_text, collect_text, when}
use tolquane.Model.Problems.{
  Severity, Problem, problem, fault, terminal_kind, is_source, is_sink, is_raw, is_plain, label,
  is_given, is_exposed, is_key, is_round_robin, is_scatter, is_ordered, is_gather, holds,
  is_processes, effective_collect, error, warning, first, last,
}

abbrev pub bad_count : Worker → ℤ → Bool
bad_count (one t) n = below_one n
bad_count (many ts) n = false

abbrev raw_ref : FlowModel → Tree → Bool
raw_ref m (ref id) = is_raw (kind_of (find_node m id))
raw_ref m _ = false

unfoldable pub worker_problems : FlowModel → String → Tree → List Problem
worker_problems m path t = when (is_source (terminal_kind t m first)) (
    fault path
      ("a farm worker must take an item: " <> label t <> " is a source, so it has no input"))

unfoldable pub farm_problems : FlowModel → String → Worker → ℤ → FarmOptions → List Problem
unfolding effective_collect worker_problems
farm_problems m path w n (options s e c k) =
    let workers = farm_workers w in
    let block_worker = any (λ t. not (is_plain t)) workers in
    let raw_worker = any (raw_ref m) workers in
    let collect = effective_collect s in
    let tagged = is_ordered collect || is_gather collect in
    concat_map (worker_problems m path) workers
    ++ (when (bad_count w n) (fault path ("workers must be a positive integer, got " <> show_int n))
        ++ (when (is_given k && (not (is_round_robin s.emit) && not (is_key s.emit))) (
              fault path (
                "key= selects workers by key; it cannot be combined with emit='"
                <> emit_text s.emit
                <> "'"))
            ++ (when (is_key s.emit && not (is_given k))
                  (fault path "emit='key' needs key=<function of the item>")
                ++ (when (s.ordered && holds (λ p. not (is_ordered p)) s.collect)
                      (fault path "ordered=True already means collect='ordered'; drop one of them")
                    ++ (when (holds is_gather s.collect && not (is_scatter s.emit))
                          (fault path "collect='gather' pairs with emit='scatter'")
                        ++ (when (tagged && block_worker) (
                              fault path (
                                "collect='"
                                <> collect_text collect
                                <> "' tags every item through one worker node, so the workers must be "
                                <> "plain nodes; make the inner block the ordered farm instead"))
                            ++ (when (tagged && (is_exposed e || is_exposed c)) (
                                  fault path (
                                    "collect='"
                                    <> collect_text collect
                                    <> "' needs both an emitter and a collector"))
                                ++ (when (tagged && raw_worker) (
                                      fault path (
                                        "collect='"
                                        <> collect_text collect
                                        <> "' tags every item, so workers cannot be raw nodes"))
                                    ++ (when (below_one s.prefetch)
                                          (fault path "prefetch must be at least 1")
                                        ++ (when (holds below_one s.window)
                                              (fault path "window must be at least 1")
                                            ++ (when (holds below_one s.capacity) (
                                                  fault path
                                                    "capacity must be at least 1, or empty for the run default")
                                                ++ when
                                                    (holds is_processes s.runtime && block_worker)
                                                    (fault path (
                                                      "runtime='processes' on a farm of blocks is ambiguous; put it on the inner farm, or run "
                                                      <> "the whole graph with runtime='processes'")))))))))))))

abbrev pub more : List Tree → Bool
more [] = false
more (t ∷ ts) = true

abbrev pub later : ℕ → Bool
later zero = false
later (suc i) = true

-- The problems of the stages from the `i`-th on.
unfoldable pub stage_problems : FlowModel → String → ℕ → List Tree → List Problem
unfolding label
stage_problems m path i [] = []
stage_problems m path i (t ∷ ts) =
    let here = join_path path ("stages." <> show i) in
    when (more ts && is_sink (terminal_kind t m last))
      (fault here (label t <> " is a sink: nothing can follow it"))
    ++ (when (later i && is_source (terminal_kind t m first))
          (fault here (label t <> " is a source: it has no input, so it goes first"))
        ++ stage_problems m path (suc i) ts)

abbrev pub side_block : String → Tree → List Problem
side_block path t =
    when (not (is_plain t))
      (fault path "comb() fuses plain nodes; farms and pipelines cannot be combined")

-- `node.kind === 'source' || node.kind === 'raw' || node.is_async`
abbrev pub unfusable : NodeDef → Bool
unfusable n = is_source (some n.kind) || (is_raw (some n.kind) || n.is_async)

abbrev pub unfusable_problem : String → Option NodeDef → List Problem
unfusable_problem path none = []
unfusable_problem path (some n) =
    when (unfusable n) (
      fault path ("comb() cannot fuse " <> n.id <> "; use map, flat or ctx nodes (not coroutines)"))

abbrev pub side_node : FlowModel → Tree → Option NodeDef
side_node m (ref id) = find_node m id
side_node m _ = none

abbrev pub is_feedback : Tree → Bool
is_feedback (feedback t name) = true
is_feedback _ = false

abbrev pub is_tagging : FarmSettings → Bool
is_tagging s = s.ordered || (holds is_ordered s.collect || holds is_gather s.collect)

abbrev pub end_problem : String → Tree → List Problem
end_problem path (farm w n o) =
    when (is_tagging (settings o))
      (fault path "all2all() cannot split an ordered or gather farm; it needs a collector")
end_problem path t = fault path "all2all() joins two farms: all2all(left_farm, right_farm)" ∷ []

abbrev pub is_missing : Option String → Bool
is_missing none = true
is_missing (some s) = s == ""

abbrev pub empty_problem : String → Problem
empty_problem path =
    problem (some path)
      (if path == ""
        then "the flow has no stages yet; drag a block onto the canvas"
        else "this pipeline has no stages")
      (if path == "" then Severity.warning else Severity.error)

-- The `switch` of `treeProblems`: what is wrong with one block.
unfoldable pub block_problems : FlowModel → String → Tree → List Problem
unfolding farm_problems stage_problems label
block_problems m path (ref id) =
    when (not (is_some (find_node m id)))
      (fault path ("the flow uses '" <> id <> "', which is not one of its nodes"))
block_problems m path start = when (is_missing m.start) (
    fault path "this flow starts from a source it does not name; pick the node the run starts from")
block_problems m path (pipeline ts) =
    when (not (more (to_list ts))) (empty_problem path) ++ stage_problems m path 0 (to_list ts)
block_problems m path (farm w n o) = farm_problems m path w n o
block_problems m path (comb a b) =
    side_block path a
    ++ (side_block path b
        ++ (when (is_sink (terminal_kind a m last))
              (fault path ("comb(): " <> label a <> " is a sink, nothing can follow it"))
            ++ (unfusable_problem path (side_node m a) ++ unfusable_problem path (side_node m b))))
block_problems m path (feedback t name) =
    when (is_feedback t) (fault path "nested feedback loops are not supported yet")
block_problems m path (all2all l r x y b) = end_problem path l ++ end_problem path r
block_problems m path (inline s) = []

unfoldable pub tree_problems : FlowModel → Tree → List Problem
unfolding block_problems
tree_problems m t = preorder (block_problems m) "" t

-- The problem of the start node, which belongs to no card.
unfoldable pub start_problems : FlowModel → List Problem
start_problems m = elim m.start [
  | none ↦ []
  | some id ↦
      when (not (id == "") && not (is_some (find_node m id))) (
        problem none ("the start node '" <> id <> "' is not one of the flow's nodes")
          Severity.error)
]

abbrev pub is_warning : Problem → Bool
is_warning p = elim p.severity [ Severity.warning ↦ true | Severity.error ↦ false ]

-- `Array.prototype.sort` is stable: an item goes in front of the first one that is greater.
pub insert_problem : Problem → List Problem → List Problem
insert_problem p [] = p ∷ []
insert_problem p (q ∷ qs) =
    if is_warning p && not (is_warning q) then q ∷ insert_problem p qs else p ∷ q ∷ qs

unfoldable pub sort_problems : List Problem → List Problem
unfolding insert_problem
sort_problems [] = []
sort_problems (p ∷ ps) = insert_problem p (sort_problems ps)

unfoldable pub validate_model : FlowModel → List Problem
unfolding tree_problems start_problems sort_problems
validate_model m = sort_problems (start_problems m ++ tree_problems m m.flow)

abbrev same_path : Option String → String → Bool
same_path none path = false
same_path (some p) path = p == path

unfoldable pub problems_at : List Problem → String → List Problem
problems_at problems path = keep (λ p. same_path p.path path) problems

-- Whether the problem is the card's, or of something inside it; the root has them all.
abbrev pub covers : String → Option String → Bool
covers path none = false
covers path (some p) = p == path || (is_some (strip (path <> ".") p) || path == "")

-- The loop of `worstSeverity`, with the worst so far.
unfoldable pub worst_from : Option Severity → List Problem → String → Option Severity
worst_from worst [] path = worst
worst_from worst (p ∷ ps) path =
    let skipped = worst_from worst ps path in
    let warned = worst_from (some Severity.warning) ps path in
    if not (covers path p.path)
    then skipped
    else if not (is_warning p)
    then some Severity.error
    else warned

unfoldable pub worst_severity : List Problem → String → Option Severity
unfolding worst_from
worst_severity problems path = worst_from none problems path
