-- ===== src/Store/Flow/Server.antt =====
-- web/src/store/flow.ts: what the server and the code editor send.
use text.Mathlib.Text.{◌==◌}
use tolquane.Base.{
  suc, String, Bool, true, false, not, Option, none, some, is_some, List, [], ◌∷◌, or_else,
  if◌then◌else◌,
}
use tolquane.Model.Types.{FlowModel, NodeDef}
use tolquane.Model.Tree.{has_path}
use tolquane.Model.Layout.{Positions, Layout, empty_layout}
use tolquane.Store.Flow.{FlowState, change_model, problems_of}

-- `FlowResponse`; the model and the layout as `normalizeModel` and `normalizeLayout` leave them.
pub record FlowResponse : Type 0 where
  pub path : String
  pub source : String
  pub modified : String
  pub model : Option FlowModel
  pub code_only : Option String
  pub graph : Option String
  pub layout : Option Layout

abbrev pub apply_server_flow : FlowResponse → FlowState → FlowState
apply_server_flow r s = record s {
  path = some r.path;
  source = r.source;
  modified = some r.modified;
  model = r.model;
  code_only = r.code_only;
  graph = r.graph;
  layout = or_else r.layout empty_layout;
  dirty = false;
  layout_dirty = false;
  source_stale = false;
  pending_commit = none;
  last_commit = none;
  selected = none;
  expanded = not (is_some r.model);
  problems = problems_of r.model;
  server_problems = [];
  past = [];
  future = [];
}

abbrev pub edit_source : String → FlowState → FlowState
edit_source text s =
    if s.source == text then s else record s { source = text; dirty = true; source_stale = false }

abbrev place_positions : Option Positions → FlowState → FlowState
place_positions none s = s
place_positions (some ps) s = record s {
  layout = record (s.layout) { positions = ps };
  layout_dirty = true;
}

-- The selected path, while it names a block of the model.
abbrev still_there : Option FlowModel → Option String → Option String
still_there (some m) (some p) = if has_path m.flow p then some p else none
still_there _ _ = none

-- The positions are given where they are not the very object that the layout holds.
abbrev pub apply_parse :
    Option FlowModel → Option String → Option String → Option Positions → FlowState → FlowState
apply_parse m code graph positions s = record (place_positions positions s) {
  model = m;
  code_only = code;
  graph = graph;
  expanded = if not (is_some m) then true else if is_some s.code_only then false else s.expanded;
  selected = still_there m s.selected;
  problems = problems_of m;
  server_problems = [];
}

abbrev pub set_source : String → List NodeDef → String → List NodeDef
set_source id [] text = []
set_source id (n ∷ ns) text =
    let rest = set_source id ns text in
    if n.id == id then record n { source = text } ∷ ns else n ∷ rest

abbrev pub source_of : String → List NodeDef → Option String
source_of id [] = none
source_of id (n ∷ ns) = if n.id == id then some n.source else source_of id ns

abbrev pub unchanged_source : Option String → String → Bool
unchanged_source none text = true
unchanged_source (some old) text = old == text

abbrev pub set_source_from : String → String → FlowState → Option FlowModel → FlowState
set_source_from id text s none = s
set_source_from id text s (some m) =
    if unchanged_source (source_of id m.nodes) text
    then s
    else change_model s (record m { nodes = set_source id m.nodes text })

unfoldable pub set_node_source : String → String → FlowState → FlowState
set_node_source id text s = set_source_from id text s s.model

-- The source, the stamp and the commit that the save made.
abbrev pub mark_saved : String → String → Option String → FlowState → FlowState
mark_saved source modified commit s = record s {
  source = source;
  modified = some modified;
  dirty = false;
  source_stale = false;
  pending_commit = none;
  last_commit = commit;
  saves = suc s.saves;
}
