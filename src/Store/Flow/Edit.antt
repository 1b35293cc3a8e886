-- ===== src/Store/Flow/Edit.antt =====
-- web/src/store/flow.ts: the edits of the tree.
use tolquane.Base.{
  ℕ, ◌-◌, nat_eq, ℤ, pos, String, ◌<>◌, show, Bool, true, false, ◌&&◌, not, Option, none, some,
  List, [], ◌∷◌, ◌++◌, length, get_last?, if◌then◌else◌,
}
use tolquane.Model.Types.{FlowModel, NodeDef, Tree, pipeline, FarmOptions, MaybeTree, to_list}
use tolquane.Model.Tree.{has_path}
use tolquane.Model.Layout.{Object, look_up, path_renames, paths_after_edit}
use tolquane.Model.Problems.{first, last, terminal_kind, is_source, is_sink}
use tolquane.Model.Edits.{
  Index, at, insert_stage, append_stage, remove_at, move_stage, wrap_in_farm, wrap_in_feedback,
  unwrap, replace_at, set_farm_options, set_workers, set_block_name, set_merge, Which,
  set_cross_block,
}
use tolquane.Model.Edits
use tolquane.Store.Flow.{FlowState, change_model}

-- Where the blocks stand in memory before and after an edit.
pub record Addresses : Type 0 where
  pub before : String → ℕ
  pub after : String → ℕ

-- `options.select`, when the caller gave it.
pub data Select : Type 0 where
  follow : Select
  select_path : Option String → Select

-- A member of `Object.prototype`, which the code would take as it is, is taken as its text.
abbrev follow_selection : List (String × String) → Tree → Option String → Option String
follow_selection renames after none = none
follow_selection renames after (some p) = elim (look_up renames p) [
  | some q ↦ some q
  | none ↦ if has_path after p then some p else none
]

abbrev pub selection : Select → List (String × String) → Tree → Option String → Option String
selection (select_path p) renames after old = p
selection follow renames after old = follow_selection renames after old

abbrev pub more : List NodeDef → Bool
more [] = false
more (n ∷ ns) = true

-- The same object, and no new node.
abbrev pub is_no_change : Addresses → List NodeDef → Bool
is_no_change a added = nat_eq (a.after "") (a.before "") && not (more added)

abbrev pub edit_model : Addresses → Select → List NodeDef → Tree → FlowModel → FlowState → FlowState
edit_model a choice added after m s =
    let was : Object = record { tree = m.flow; address = a.before } in
    let now : Object = record { tree = after; address = a.after } in
    record (change_model s (record m { flow = after; nodes = m.nodes ++ added })) {
      layout = record (s.layout) { positions = paths_after_edit was now s.layout.positions };
      layout_dirty = true;
      selected = selection choice (path_renames was now) after s.selected;
    }

abbrev pub edit_from :
    Addresses → Select → List NodeDef → (Tree → Tree) → FlowState → Option FlowModel → FlowState
edit_from a choice added rewrite s none = s
edit_from a choice added rewrite s (some m) =
    if is_no_change a added then s else edit_model a choice added (rewrite m.flow) m s

-- The one way the tree changes; a tree that is the same object is no change.
unfoldable pub edit : Addresses → Select → List NodeDef → (Tree → Tree) → FlowState → FlowState
edit a choice added rewrite s = edit_from a choice added rewrite s s.model

abbrev pub stages_of : Tree → List Tree
stages_of (pipeline ts) = to_list ts
stages_of t = t ∷ []

abbrev ends_in_sink : Option Tree → FlowModel → Bool
ends_in_sink none m = false
ends_in_sink (some t) m = is_sink (terminal_kind t m last)

-- Where `appendBlock` puts a block: a source first, a sink last, another block before the last sink.
unfoldable pub append_index : Tree → FlowModel → List Tree → ℕ
append_index new m stages =
    if is_source (terminal_kind new m first)
    then 0
    else if ends_in_sink (get_last? stages) m && not (is_sink (terminal_kind new m last))
    then length stages - 1
    else length stages

abbrev pub append_to : ℕ → Tree → Tree → Tree
append_to i new (pipeline ts) = insert_stage (pipeline ts) "" (at (pos i)) new
append_to i new t = append_stage t new

unfoldable pub append_from :
    Addresses → Tree → List NodeDef → FlowState → Option FlowModel → FlowState
unfolding append_index
append_from a new added s none = s
append_from a new added s (some m) =
    let i = append_index new (record m { nodes = m.nodes ++ added }) (stages_of m.flow) in
    edit a (select_path (some ("stages." <> show i))) added (append_to i new) s

unfoldable pub append_block : Addresses → Tree → List NodeDef → FlowState → FlowState
unfolding append_from
append_block a new added s = append_from a new added s s.model

-- A new value for one of the model's other fields.
abbrev pub model_from : (FlowModel → FlowModel) → FlowState → Option FlowModel → FlowState
model_from f s none = s
model_from f s (some m) = change_model s (f m)

abbrev pub with_model : (FlowModel → FlowModel) → FlowState → FlowState
with_model f s = model_from f s s.model

pub data Wrapper : Type 0 where
  in_farm in_feedback : Wrapper

abbrev wrap : Wrapper → String → Tree → Tree
wrap in_farm path t = wrap_in_farm t path (pos 4)
wrap in_feedback path t = wrap_in_feedback t path none

-- What `edit` is called with for each action on the tree.
pub data TreeEdit : Type 0 where
  insert_after insert_before : String → Tree → List NodeDef → TreeEdit
  remove_block unwrap_block : String → TreeEdit
  move_to : String → Index → TreeEdit
  wrap_block : String → Wrapper → TreeEdit
  replace_block : String → Tree → TreeEdit
  farm_options : String → (FarmOptions → FarmOptions) → TreeEdit
  workers : String → ℤ → TreeEdit
  block_name : String → Option String → TreeEdit
  merge : String → Bool → TreeEdit
  cross_block : String → Which → MaybeTree → TreeEdit

-- `options.select` of each edit.
abbrev pub choice_of : TreeEdit → Select
choice_of (remove_block p) = select_path none
choice_of (wrap_block p k) = select_path (some p)
choice_of (unwrap_block p) = select_path (some p)
choice_of e = follow

-- `options.addNodes` of each edit.
abbrev pub nodes_of : TreeEdit → List NodeDef
nodes_of (insert_after p new added) = added
nodes_of (insert_before p new added) = added
nodes_of e = []

abbrev pub rewrite_of : TreeEdit → Tree → Tree
rewrite_of (insert_after p new added) t = Edits.insert_after t p new
rewrite_of (insert_before p new added) t = Edits.insert_before t p new
rewrite_of (remove_block p) t = remove_at t p
rewrite_of (move_to p i) t = move_stage t p i
rewrite_of (wrap_block p k) t = wrap k p t
rewrite_of (unwrap_block p) t = unwrap t p
rewrite_of (replace_block p new) t = replace_at t p new
rewrite_of (farm_options p f) t = set_farm_options t p f
rewrite_of (workers p n) t = set_workers t p n
rewrite_of (block_name p n) t = set_block_name t p n
rewrite_of (merge p b) t = set_merge t p b
rewrite_of (cross_block p w b) t = set_cross_block t p w b

unfoldable pub edit_tree : Addresses → TreeEdit → FlowState → FlowState
edit_tree a e s = edit a (choice_of e) (nodes_of e) (rewrite_of e) s
