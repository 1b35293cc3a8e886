-- ===== src/Store/Flow.antt =====
-- web/src/store/flow.ts: the state of the open flow, its history, and what the server sends.
pub mod Actions
pub mod Server
pub mod Edit
pub mod History
pub mod Settled
use tolquane.Base.{
  ℕ, zero, suc, ◌-◌, ℤ, String, Bool, true, false, Option, none, some, List, [], ◌∷◌, ◌++◌, length,
  drop, drop_last, get_last?, is_some, or_else, if◌then◌else◌, ◌&&◌,
}
use tolquane.Model.Types.{FlowModel}
use tolquane.Model.Tree.{has_path}
use tolquane.Model.Layout.{Position, Positions, Layout, empty_layout}
use tolquane.Model.Validate.{validate_model}
use tolquane.Model.Problems.{Problem}

pub data EditorView : Type 0 where
  canvas code : EditorView

-- A model that is absent is kept as it is.
pub record Snapshot : Type 0 where
  pub model : Option FlowModel
  pub layout : Layout
  pub selected : Option String

-- `HISTORY_LIMIT`
abbrev pub history_limit : ℕ
history_limit = 100

-- The reason of a file that has no model, and the expanded graph and the commit as JSON text: the
-- store only keeps them.
pub record FlowState : Type 0 where
  pub path : Option String
  pub source : String
  pub modified : Option String
  pub model : Option FlowModel
  pub code_only : Option String
  pub graph : Option String
  pub layout : Layout
  pub dirty : Bool
  pub layout_dirty : Bool
  pub source_stale : Bool
  pub selected : Option String
  pub view : EditorView
  pub expanded : Bool
  pub pending_commit : Option String
  pub last_commit : Option String
  pub saves : ℕ
  pub problems : List Problem
  pub server_problems : List Problem
  pub past : List Snapshot
  pub future : List Snapshot

-- `INITIAL`
abbrev pub initial : FlowState
initial = record {
  path = none;
  source = "";
  modified = none;
  model = none;
  code_only = none;
  graph = none;
  layout = empty_layout;
  dirty = false;
  layout_dirty = false;
  source_stale = false;
  selected = none;
  view = EditorView.canvas;
  expanded = false;
  pending_commit = none;
  last_commit = none;
  saves = 0;
  problems = [];
  server_problems = [];
  past = [];
  future = [];
}

abbrev pub snapshot : FlowState → Snapshot
snapshot s = record { model = s.model; layout = s.layout; selected = s.selected }

-- `xs.slice(-HISTORY_LIMIT)`
unfoldable pub recent : List Snapshot → List Snapshot
recent xs = drop (length xs - history_limit) xs

unfoldable pub push_history : FlowState → List Snapshot
unfolding recent
push_history s = if is_some s.model then recent (s.past ++ snapshot s ∷ []) else s.past

-- `model ? validateModel(model) : []`
abbrev pub problems_of : Option FlowModel → List Problem
problems_of none = []
problems_of (some m) = validate_model m

-- The part of a `set` that every change of the model has.
abbrev pub change_model : FlowState → FlowModel → FlowState
change_model s next = record s {
  past = push_history s;
  future = [];
  model = some next;
  dirty = true;
  source_stale = true;
  problems = validate_model next;
  server_problems = [];
}

-- A call returns with the new state, or throws and leaves what it had set.
pub data Outcome : Type 0 where
  returned threw : FlowState → Outcome

abbrev pub state_of : Outcome → FlowState
state_of (returned s) = s
state_of (threw s) = s

pub data Into : Type 0 where
  past future : Into

abbrev restore_stack : FlowState → List Snapshot → Into → FlowState
restore_stack s other past = record s { past = other }
restore_stack s other future = record s { future = other }

-- `validateModel` throws on a model that is absent, before anything is set.
abbrev pub restore_from : FlowState → Snapshot → List Snapshot → Into → Option FlowModel → Outcome
restore_from s entry other into none = threw s
restore_from s entry other into (some m) = returned (
    restore_stack
      (record s {
        model = some m;
        layout = entry.layout;
        selected = entry.selected;
        problems = validate_model m;
        server_problems = [];
        dirty = true;
        layout_dirty = true;
        source_stale = true;
      })
      other into)

abbrev pub restore : FlowState → Snapshot → List Snapshot → Into → Outcome
restore s entry other into = restore_from s entry other into entry.model

abbrev pub undo_from : FlowState → Option Snapshot → Outcome
undo_from s none = returned s
undo_from s (some entry) =
    restore (record s { future = s.future ++ snapshot s ∷ [] }) entry (drop_last s.past) past

unfoldable pub undo : FlowState → Outcome
undo s = undo_from s (get_last? s.past)

unfoldable pub redo_from : FlowState → Option Snapshot → Outcome
unfolding recent
redo_from s none = returned s
redo_from s (some entry) =
    restore (record s { past = recent (s.past ++ snapshot s ∷ []) }) entry (drop_last s.future)
      future

unfoldable pub redo : FlowState → Outcome
unfolding redo_from
redo s = redo_from s (get_last? s.future)

abbrev pub can_undo : FlowState → Bool
can_undo s = elim s.past [ [] ↦ false | e ∷ es ↦ true ]

abbrev pub can_redo : FlowState → Bool
can_redo s = elim s.future [ [] ↦ false | e ∷ es ↦ true ]

-- The path, the source and the stamp.
abbrev pub to_save_request : FlowState → Option (String × String × String)
to_save_request s = elim s.path [
  | none ↦ none
  | some path ↦ elim s.modified [ none ↦ none | some modified ↦ some (path, s.source, modified) ]
]

abbrev pub all_problems : FlowState → List Problem
all_problems s = elim s.server_problems [ [] ↦ s.problems | p ∷ ps ↦ s.problems ++ (p ∷ ps) ]

abbrev pub selected_path : FlowState → String
selected_path s = or_else s.selected ""
