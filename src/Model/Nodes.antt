-- ===== src/Model/Nodes.antt =====
-- web/src/model/tree.ts (findNode, referencedIds) and web/src/model/describe.ts: nodes by id, and the
-- words that a block wears.
use text.Mathlib.Text.{◌==◌}
use tolquane.Base.{
  length, if◌then◌else◌, ℤ, pos, String, ◌<>◌, Bool, true, false, ◌||◌, not, Option, none, some,
  List, [], ◌∷◌, ◌++◌, find, concat_map, or_else, show, show_int,
}
use tolquane.Model.Types.{
  to_list, NodeKind, NodeDef, EmitPolicy, CollectPolicy, Runtime, Tree, start, ref, inline,
  pipeline, farm, comb, feedback, all2all, Worker, one, many, MaybeTree, nothing, just, Slot,
  exposed, FarmOptions, options, settings, FlowModel,
}
use tolquane.Model.Tree.{walk}

unfoldable pub find_node : FlowModel → String → Option NodeDef
find_node m id = find (λ n. n.id == id) m.nodes

abbrev ref_id : String × Tree → List String
ref_id (p, ref id) = id ∷ []
ref_id _ = []

unfoldable pub referenced_ids : Tree → List String
referenced_ids t = concat_map ref_id (walk t)

abbrev pub kind_of : Option NodeDef → Option NodeKind
kind_of none = none
kind_of (some n) = some n.kind

abbrev pub kind_text : NodeKind → String
kind_text NodeKind.source = "source"
kind_text NodeKind.node = "node"
kind_text NodeKind.sink = "sink"
kind_text NodeKind.raw = "raw"

abbrev pub emit_text : EmitPolicy → String
emit_text EmitPolicy.round_robin = "round_robin"
emit_text EmitPolicy.on_demand = "on_demand"
emit_text EmitPolicy.broadcast = "broadcast"
emit_text EmitPolicy.scatter = "scatter"
emit_text EmitPolicy.key = "key"

abbrev pub collect_text : CollectPolicy → String
collect_text CollectPolicy.first_come = "first_come"
collect_text CollectPolicy.round_robin = "round_robin"
collect_text CollectPolicy.ordered = "ordered"
collect_text CollectPolicy.gather = "gather"

-- `EMIT_LABEL`
abbrev pub emit_label : EmitPolicy → String
emit_label EmitPolicy.round_robin = "round robin"
emit_label EmitPolicy.on_demand = "on demand"
emit_label EmitPolicy.broadcast = "broadcast"
emit_label EmitPolicy.scatter = "scatter"
emit_label EmitPolicy.key = "by key"

-- `COLLECT_LABEL`
abbrev pub collect_label : CollectPolicy → String
collect_label CollectPolicy.first_come = "first come"
collect_label CollectPolicy.round_robin = "round robin"
collect_label CollectPolicy.ordered = "ordered"
collect_label CollectPolicy.gather = "gather"

-- `RUNTIME_LABEL`
abbrev pub runtime_label : Runtime → String
runtime_label Runtime.threads = "threads"
runtime_label Runtime.processes = "processes"

pub data CardKind : Type 0 where
  source node sink raw farm_card comb_card feedback_card all2all_card : CardKind

abbrev pub card_of_kind : Option NodeKind → CardKind
card_of_kind none = CardKind.node
card_of_kind (some NodeKind.source) = CardKind.source
card_of_kind (some NodeKind.node) = CardKind.node
card_of_kind (some NodeKind.sink) = CardKind.sink
card_of_kind (some NodeKind.raw) = CardKind.raw

unfoldable pub card_kind : Tree → FlowModel → CardKind
unfolding find_node
card_kind (ref id) m = card_of_kind (kind_of (find_node m id))
card_kind start m = CardKind.source
card_kind (inline s) m = CardKind.raw
card_kind (farm w n o) m = CardKind.farm_card
card_kind (comb a b) m = CardKind.comb_card
card_kind (feedback t name) m = CardKind.feedback_card
card_kind (all2all l r x y b) m = CardKind.all2all_card
card_kind (pipeline ts) m = CardKind.node

abbrev farm_title : Option String → Worker → Option String → String
farm_title (some name) w first = name
farm_title none (many ts) first = "farm"
farm_title none (one t) none = "farm"
farm_title none (one t) (some title) = title <> " farm"

-- The name on the card.
unfoldable mutual
  pub block_title : Tree → FlowModel → String
  block_title (ref id) m = id
  block_title start m = or_else m.start "start"
  block_title (inline s) m = s
  block_title (farm w n o) m = farm_title ((settings o).name) w (first_title w m)
  block_title (comb a b) m = block_title a m <> " + " <> block_title b m
  block_title (feedback t name) m = or_else name "loop"
  block_title (all2all l r x y b) m = "all-to-all"
  block_title (pipeline ts) m = "pipeline"

  pub first_title : Worker → FlowModel → Option String
  first_title (one t) m = some (block_title t m)
  first_title (many ts) m = none

unfoldable pub when {ℓ} : {A : Type ℓ} → Bool → A → List A
when true a = a ∷ []
when false a = []

abbrev is_ordered : Option CollectPolicy → Bool
is_ordered (some CollectPolicy.ordered) = true
is_ordered _ = false

abbrev emit_badge : MaybeTree → EmitPolicy → List String
emit_badge (just k) e = "by key" ∷ []
emit_badge nothing EmitPolicy.round_robin = []
emit_badge nothing e = emit_label e ∷ []

abbrev collect_badge : Option CollectPolicy → List String
collect_badge none = []
collect_badge (some CollectPolicy.ordered) = []
collect_badge (some c) = collect_label c ∷ []

abbrev is_one : ℤ → Bool
is_one (pos n) = show n == "1"
is_one _ = false

abbrev prefetch_badge : EmitPolicy → ℤ → List String
prefetch_badge EmitPolicy.on_demand n = when (not (is_one n)) ("prefetch " <> show_int n)
prefetch_badge e n = []

abbrev number_badge : String → Option ℤ → List String
number_badge word none = []
number_badge word (some n) = (word <> show_int n) ∷ []

abbrev runtime_badge : Option Runtime → List String
runtime_badge none = []
runtime_badge (some r) = runtime_label r ∷ []

abbrev exposed_badge : String → Slot → List String
exposed_badge word exposed = word ∷ []
exposed_badge word s = []

-- The chips on a farm's header.
unfoldable pub farm_badges : FarmOptions → List String
farm_badges (options s e c k) =
    when (s.ordered || is_ordered s.collect) "ordered"
    ++ (emit_badge k s.emit
        ++ (collect_badge s.collect
            ++ (prefetch_badge s.emit s.prefetch
                ++ (number_badge "window " s.window
                    ++ (number_badge "capacity " s.capacity
                        ++ (runtime_badge s.runtime
                            ++ (exposed_badge "no emitter" e
                                ++ exposed_badge "no collector" c)))))))

abbrev join_dotted : List String → String
join_dotted [] = ""
join_dotted (s ∷ []) = s
join_dotted (s ∷ t ∷ ts) = s <> " · " <> join_dotted (t ∷ ts)

abbrev node_subtitle : Option NodeDef → String
node_subtitle none = "unknown node"
node_subtitle (some n) =
    join_dotted (("tq." <> kind_text n.kind) ∷ (when n.is_async "async" ++ when n.is_class "class"))

abbrev worker_count : Worker → ℤ → String
worker_count (many ts) n = show (length (to_list ts)) <> " workers, one each"
worker_count (one t) n = show_int n <> " " <> (if is_one n then "worker" else "workers")

abbrev end_count : Tree → String
end_count (farm w n o) = show_int n
end_count t = "?"

abbrev named_start : Option String → Bool
named_start none = false
named_start (some s) = not (s == "")

-- What the block is, in words of the library.
unfoldable pub block_subtitle : Tree → FlowModel → String
unfolding find_node when
block_subtitle (ref id) m = node_subtitle (find_node m id)
block_subtitle start m =
    if named_start m.start then "tq.source · or the run’s sample" else "the flow’s input"
block_subtitle (inline s) m = "expression"
block_subtitle (farm w n o) m = "tq.farm · " <> worker_count w n
block_subtitle (comb a b) m = "tq.comb · fused on one thread"
block_subtitle (feedback t name) m = "tq.feedback · outputs wired back"
block_subtitle (all2all l r x y b) m = "tq.all2all · " <> end_count l <> " × " <> end_count r
block_subtitle (pipeline ts) m = "pipeline"

abbrev join_commas : List String → String
join_commas [] = ""
join_commas (s ∷ []) = s
join_commas (s ∷ t ∷ ts) = s <> ", " <> join_commas (t ∷ ts)

abbrev signature_of : NodeDef → String
signature_of n =
    if n.is_class
    then "class " <> n.id <> ": __call__(" <> join_commas n.params <> ")"
    else (if n.is_async then "async def" else "def")
      <> " "
      <> n.id
      <> "("
      <> join_commas n.params
      <> ")"

unfoldable pub node_signature : FlowModel → String → Option String
node_signature m id = elim (find_node m id) [ none ↦ none | some n ↦ some (signature_of n) ]
