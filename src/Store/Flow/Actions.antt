-- ===== src/Store/Flow/Actions.antt =====
-- web/src/store/flow.ts: the parameter list, and every action of the store as data.
use text.Mathlib.Text.{◌==◌}
use tolquane.Base.{
  String, Bool, true, false, ◌||◌, Option, none, some, List, [], ◌∷◌, or_else, if◌then◌else◌,
}
use tolquane.Model.Types.{FlowModel, FlowParam, NodeDef, Tree}
use tolquane.Model.Layout.{Position, Positions, Viewport, put_key}
use tolquane.Model.Problems.{Problem}
use tolquane.Model.Params
use tolquane.Store.Flow.{
  FlowState, EditorView, initial, push_history, Outcome, returned, undo, redo,
}
use tolquane.Store.Flow.Server.{
  FlowResponse, apply_server_flow, edit_source, apply_parse, set_node_source, mark_saved,
}
use tolquane.Store.Flow.Edit.{Addresses, append_block, with_model, TreeEdit, edit_tree}

pub data ParamEdit : Type 0 where
  add : Option String → Option String → Option String → ParamEdit
  rename : String → String → ParamEdit
  change : String → (FlowParam → FlowParam) → ParamEdit
  remove : String → ParamEdit

abbrev pub new_param : List FlowParam → Option String → Option String → Option String → FlowParam
new_param params name value annotation = record {
  name = or_else name (Params.new_param_name params "value");
  default = or_else value "None";
  annotation = annotation;
}

-- The parameter list after the edit.
unfoldable pub params_after : ParamEdit → List FlowParam → List FlowParam
params_after (add name value annotation) ps =
    Params.add_param ps (new_param ps name value annotation)
params_after (rename from to) ps = Params.rename_param ps from to
params_after (change name f) ps = Params.set_param ps name f
params_after (remove name) ps = Params.remove_param ps name

abbrev trimmed_message : String → Option String
trimmed_message text = if Params.trim text == "" then none else some (Params.trim text)

abbrev pub pending_message : Option String → Option String
pending_message none = none
pending_message (some text) = trimmed_message text

-- `{ ...positions, ...more }`
abbrev pub merge_positions : Positions → Positions → Positions
merge_positions ps [] = ps
merge_positions ps ((k, v) ∷ rest) = merge_positions (put_key ps k v) rest

-- The actions of the store.
pub data Action : Type 0 where
  server_flow : FlowResponse → Action
  source_set source_edited : String → Action
  parsed : Option FlowModel → Option String → Option String → Option Positions → Action
  node_source : String → String → Action
  saved : String → String → Option String → Action
  commit_message : Option String → Action
  clear begin_change layout_saved : Action
  selected : Option String → Action
  view_set : EditorView → Action
  expanded_set : Bool → Action
  tree_edit : Addresses → TreeEdit → Action
  appended : Addresses → Tree → List NodeDef → Action
  start_set : Option String → Action
  param_edit : ParamEdit → Action
  position_set : String → Position → Action
  positions_set : Positions → Bool → Action
  viewport_set : Viewport → Action
  server_problems_set : List Problem → Action
  undone redone : Action

unfoldable pub step : Action → FlowState → Outcome
unfolding set_node_source edit_tree append_block undo redo
step (server_flow r) s = returned (apply_server_flow r s)
step (source_set text) s = returned (record s { source = text; source_stale = false })
step (source_edited text) s = returned (edit_source text s)
step (parsed m code graph ps) s = returned (apply_parse m code graph ps s)
step (node_source id text) s = returned (set_node_source id text s)
step (saved source modified commit) s = returned (mark_saved source modified commit s)
step (commit_message text) s = returned (record s { pending_commit = pending_message text })
step clear s = returned initial
step begin_change s = returned (record s { past = push_history s; future = [] })
step layout_saved s = returned (record s { layout_dirty = false })
step (selected p) s = returned (record s { selected = p })
step (view_set v) s = returned (record s { view = v })
step (expanded_set b) s = returned (record s { expanded = b })
step (tree_edit a e) s = returned (edit_tree a e s)
step (appended a new added) s = returned (append_block a new added s)
step (start_set id) s = returned (with_model (λ m. record m { start = id }) s)
step (param_edit e) s = returned (with_model (λ m. record m { params = params_after e m.params }) s)
step (position_set path v) s = returned (record s {
  layout = record (s.layout) { positions = put_key s.layout.positions path v };
  layout_dirty = true;
})
step (positions_set ps dirty) s = returned (record s {
  layout = record (s.layout) { positions = merge_positions s.layout.positions ps };
  layout_dirty = s.layout_dirty || dirty;
})
step (viewport_set v) s = returned (record s { layout = record (s.layout) { viewport = some v } })
step (server_problems_set ps) s = returned (record s { server_problems = ps })
step undone s = undo s
step redone s = redo s
