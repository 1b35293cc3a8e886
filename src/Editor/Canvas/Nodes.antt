-- ===== src/Editor/Canvas/Nodes.antt =====
-- web/src/editor/buildGraph.ts: one node and one edge of the canvas, and the words on them. What is
-- drawn is `none` when the code throws.
use tolquane.Base.{
  ℕ, ◌+◌, ◌*◌, pos, String, ◌<>◌, Bool, true, false, ◌&&◌, not, Option, none, some, List, [], ◌∷◌,
  ◌++◌, is_some, or_else, if◌then◌else◌,
}
use tolquane.Model.Types.{
  Tree, MaybeTree, nothing, just, FarmOptions, options, FlowModel, EmitPolicy, CollectPolicy,
}
use tolquane.Model.Layout.{Position}
use tolquane.Model.Nodes.{CardKind, card_kind, block_title, block_subtitle, when}
use tolquane.Editor.Geometry.{Box, loop_space}

pub data NodeVariant : Type 0 where
  card group end comb : NodeVariant

pub data Role : Type 0 where
  emitter collector : Role

pub record CanvasNodeData : Type 0 where
  pub variant : NodeVariant
  pub path : String
  pub problem_path : Option String
  pub kind : CardKind
  pub title : String
  pub subtitle : String
  pub badges : List String
  pub role : Option Role
  pub has_input : Bool
  pub has_output : Bool
  pub parts : List String
  pub run_key : String

pub record CanvasNode : Type 0 where
  pub id : String
  pub node_type : String
  pub position : Position
  pub width : ℕ
  pub height : ℕ
  pub draggable : Bool
  pub selectable : Bool
  pub connectable : Bool
  pub deletable : Bool
  pub parent_id : Option String
  pub data_of : CanvasNodeData

pub data EdgeKind : Type 0 where
  flow farm cross loop : EdgeKind

abbrev pub edge_text : EdgeKind → String
edge_text flow = "flow"
edge_text farm = "farm"
edge_text cross = "cross"
edge_text loop = "loop"

-- The dip is in tenths of a pixel.
pub record CanvasEdge : Type 0 where
  pub id : String
  pub source : String
  pub target : String
  pub edge_type : String
  pub kind : EdgeKind
  pub run_key : String
  pub dip : ℕ

pub record Drawing : Type 0 where
  pub nodes : List CanvasNode
  pub edges : List CanvasEdge

abbrev pub blank : Drawing
blank = record { nodes = []; edges = [] }

-- What the second call pushes, after what the first one pushed; a throw of either is the outcome.
infixr 50 ◌<+>◌
unfoldable pub ◌<+>◌ : Option Drawing → Option Drawing → Option Drawing
none <+> b = none
some a <+> none = none
some a <+> some b = some (record { nodes = a.nodes ++ b.nodes; edges = a.edges ++ b.edges })

-- `NODE_TYPE`
abbrev pub node_type : NodeVariant → String
node_type card = "blockCard"
node_type group = "blockGroup"
node_type end = "endCard"
node_type comb = "combCard"

-- What `push` fills in where the caller says nothing.
abbrev pub default_data : NodeVariant → String → CanvasNodeData
default_data variant path = record {
  variant = variant;
  path = path;
  problem_path = some path;
  kind = CardKind.node;
  title = "";
  subtitle = "";
  badges = [];
  role = none;
  has_input = true;
  has_output = true;
  parts = [];
  run_key = "";
}

abbrev pub node_of : String → Box → Position → Option String → CanvasNodeData → CanvasNode
node_of id size at parent d = record {
  id = id;
  node_type = node_type d.variant;
  position = at;
  width = size.w;
  height = size.h;
  draggable = not (is_some parent);
  selectable = true;
  connectable = false;
  deletable = not (is_some parent);
  parent_id = parent;
  data_of = d;
}

unfoldable pub push : String → Box → Position → Option String → CanvasNodeData → Option Drawing
push id size at parent d = some (record { nodes = node_of id size at parent d ∷ []; edges = [] })

abbrev pub edge_type : EdgeKind → String
edge_type loop = "loopEdge"
edge_type k = "flowEdge"

abbrev pub edge_of : String → String → EdgeKind → ℕ → CanvasEdge
edge_of source target kind dip = record {
  id = source <> "~" <> target <> "~" <> edge_text kind;
  source = source;
  target = target;
  edge_type = edge_type kind;
  kind = kind;
  run_key = source <> "->" <> target;
  dip = dip;
}

unfoldable pub link : String → String → EdgeKind → ℕ → Option Drawing
link source target kind dip =
    some (record { nodes = []; edges = edge_of source target kind dip ∷ [] })

-- `inner.h / 2 + LOOP_SPACE * 0.6`, in tenths.
abbrev pub loop_dip : Box → ℕ
loop_dip inner = inner.h * 5 + loop_space * 6

abbrev pub point : ℕ → ℕ → Position
point x y = record { x = pos x; y = pos y }

-- `common`
abbrev pub common : NodeVariant → String → Tree → FlowModel → CanvasNodeData
common variant path t m = record (default_data variant path) {
  kind = card_kind t m;
  title = block_title t m;
  subtitle = block_subtitle t m;
}

unfoldable pub cross_badges : MaybeTree → MaybeTree → Bool → List String
unfolding when
cross_badges big_r big_g merge =
    when merge "merge"
    ++ (when (is_just big_r && not merge) "R after each left worker"
        ++ when (is_just big_g && not merge) "G before each right worker")
  where
    is_just : MaybeTree → Bool
    is_just nothing = false
    is_just (just t) = true

-- `policy.replace('_', ' ')`
abbrev emit_words : EmitPolicy → String
emit_words EmitPolicy.round_robin = "round robin"
emit_words EmitPolicy.on_demand = "on demand"
emit_words EmitPolicy.broadcast = "broadcast"
emit_words EmitPolicy.scatter = "scatter"
emit_words EmitPolicy.key = "key"

abbrev collect_words : CollectPolicy → String
collect_words CollectPolicy.first_come = "first come"
collect_words CollectPolicy.round_robin = "round robin"
collect_words CollectPolicy.ordered = "ordered"
collect_words CollectPolicy.gather = "gather"

unfoldable pub emit_label : FarmOptions → String
emit_label (options s e c (just k)) = "by key"
emit_label (options s e c nothing) = emit_words s.emit

abbrev scatter_collect : EmitPolicy → CollectPolicy
scatter_collect EmitPolicy.scatter = CollectPolicy.gather
scatter_collect e = CollectPolicy.first_come

unfoldable pub collect_label : FarmOptions → String
collect_label (options s e c k) =
    collect_words
      (or_else s.collect (if s.ordered then CollectPolicy.ordered else scatter_collect s.emit))
