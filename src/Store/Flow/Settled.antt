-- ===== src/Store/Flow/Settled.antt =====
-- web/src/store/flow.ts: what every state that the actions reach satisfies.
use tolquane.Base.{
  ◌<>◌, show, ◌≤◌, arith, String, Bool, true, false, Option, none, some, List, [], ◌∷◌, ◌++◌,
  length, ◌≡◌, ◌⊎◌, inl, inr, refl, get_last?, drop_last, if◌then◌else◌, is_some,
}
use text.Mathlib.Text.{◌==◌}
use tolquane.Model.Layout.{Positions}
use tolquane.Model.Types.{FlowModel, NodeDef, Tree}
use tolquane.Store.Flow.{
  FlowState, Snapshot, snapshot, recent, push_history, history_limit, problems_of, undo, redo,
  state_of, undo_from, redo_from, restore_from, Into, past, future, initial, change_model,
}
use tolquane.Store.Flow.History.{length-recent}
use tolquane.Store.Flow.Actions.{
  Action, server_flow, source_set, source_edited, parsed, node_source, saved, commit_message, clear,
  begin_change, layout_saved, selected, view_set, expanded_set, tree_edit, appended, start_set,
  param_edit, position_set, positions_set, viewport_set, server_problems_set, undone, redone, step,
  params_after,
}
use tolquane.Store.Flow.Server.{
  set_source_from, unchanged_source, source_of, set_source, set_node_source, apply_parse,
}
use tolquane.Store.Flow.Edit.{
  Addresses, Select, edit, edit_from, edit_model, is_no_change, append_from, model_from, choice_of,
  nodes_of, rewrite_of, stages_of, append_to, append_index, select_path, edit_tree, append_block,
  with_model, TreeEdit,
}

-- The problems are those of the model, and the history is within its limit.
abbrev pub Settled : FlowState → Type 0
Settled s = (s.problems ≡ problems_of s.model) × length s.past ≤ history_limit

-- What the store reaches from the start by its actions; a call that throws leaves a state as well.
pub data Reached : FlowState → Type 0 where
  started : Reached initial
  acted : {s : FlowState} (a : Action) → Reached s → Reached (state_of (step a s))

-- An `if` of two states.
if_Settled : (b : Bool) (s t : FlowState) → Settled s → Settled t → Settled (if b then s else t)
if_Settled true s t h k = h
if_Settled false s t h k = k

length-push_history :
    (s : FlowState) → length s.past ≤ history_limit → length (push_history s) ≤ history_limit
unfolding push_history
length-push_history s h = go (is_some s.model)
  where
    go :
        (b : Bool)
        → length (if b then recent (s.past ++ snapshot s ∷ []) else s.past) ≤ history_limit
    go true = length-recent (s.past ++ snapshot s ∷ [])
    go false = h

change_model-Settled : (s : FlowState) (m : FlowModel) → Settled s → Settled (change_model s m)
change_model-Settled s m h = (refl, length-push_history s h.1)

edit-Settled :
    (a : Addresses) (c : Select) (added : List NodeDef) (f : Tree → Tree) (s : FlowState)
    → Settled s
    → Settled (edit a c added f s)
unfolding edit
edit-Settled a c added f s h = go s.model
  where
    go : (o : Option FlowModel) → Settled (edit_from a c added f s o)
    go none = h
    go (some m) =
        if_Settled (is_no_change a added) s (edit_model a c added (f m.flow) m s) h
          (refl, length-push_history s h.1)

edit_tree-Settled :
    (a : Addresses) (e : TreeEdit) (s : FlowState) → Settled s → Settled (edit_tree a e s)
unfolding edit_tree
edit_tree-Settled a e s h = edit-Settled a (choice_of e) (nodes_of e) (rewrite_of e) s h

append_block-Settled :
    (a : Addresses) (new : Tree) (added : List NodeDef) (s : FlowState)
    → Settled s
    → Settled (append_block a new added s)
unfolding append_block append_from
append_block-Settled a new added s h = go s.model
  where
    go : (o : Option FlowModel) → Settled (append_from a new added s o)
    go none = h
    go (some m) =
        let i = append_index new (record m { nodes = m.nodes ++ added }) (stages_of m.flow) in
        edit-Settled a (select_path (some ("stages." <> show i))) added (append_to i new) s h

set_node_source-Settled :
    (id text : String) (s : FlowState) → Settled s → Settled (set_node_source id text s)
unfolding set_node_source
set_node_source-Settled id text s h = go s.model
  where
    go : (o : Option FlowModel) → Settled (set_source_from id text s o)
    go none = h
    go (some m) =
        if_Settled (unchanged_source (source_of id m.nodes) text) s
          (change_model s (record m { nodes = set_source id m.nodes text })) h
          (refl, length-push_history s h.1)

with_model-Settled :
    (f : FlowModel → FlowModel) (s : FlowState) → Settled s → Settled (with_model f s)
with_model-Settled f s h = go s.model
  where
    go : (o : Option FlowModel) → Settled (model_from f s o)
    go none = h
    go (some m) = (refl, length-push_history s h.1)

length-drop_last {ℓ} : {A : Type ℓ} (xs : List A) → length (drop_last xs) ≤ length xs
length-drop_last [] = omega arith
length-drop_last (x ∷ []) = omega arith
length-drop_last (x ∷ y ∷ xs) = omega (arith, length-drop_last (y ∷ xs))

-- A restored state keeps the history that it is given, or its own.
restored-Settled :
    (s : FlowState) (e : Snapshot) (other : List Snapshot) (into : Into) (o : Option FlowModel)
    → Settled s
    → length other ≤ history_limit ⊎ (into ≡ Into.future)
    → Settled (state_of (restore_from s e other into o))
restored-Settled s e other into none h l = h
restored-Settled s e other past (some m) h (inl l) = (refl, l)
restored-Settled s e other past (some m) h (inr l) = absurd (grind arith)
restored-Settled s e other future (some m) h l = (refl, h.1)

undo-Settled : (s : FlowState) → Settled s → Settled (state_of (undo s))
unfolding undo
undo-Settled s h = go (get_last? s.past)
  where
    go : (o : Option Snapshot) → Settled (state_of (undo_from s o))
    go none = h
    go (some e) =
        restored-Settled (record s { future = s.future ++ snapshot s ∷ [] }) e (drop_last s.past)
          past e.model h (inl (omega (arith, length-drop_last s.past, h.1)))

redo-Settled : (s : FlowState) → Settled s → Settled (state_of (redo s))
unfolding redo redo_from
redo-Settled s h = go (get_last? s.future)
  where
    go : (o : Option Snapshot) → Settled (state_of (redo_from s o))
    go none = h
    go (some e) =
        restored-Settled (record s { past = recent (s.past ++ snapshot s ∷ []) }) e
          (drop_last s.future) future e.model (h.0, length-recent (s.past ++ snapshot s ∷ []))
          (inr refl)

place_positions-Settled :
    (m : Option FlowModel) (code graph : Option String) (ps : Option Positions) (s : FlowState)
    → Settled s
    → Settled (apply_parse m code graph ps s)
place_positions-Settled m code graph none s h = (refl, h.1)
place_positions-Settled m code graph (some ps) s h = (refl, h.1)

-- Every action keeps the problems those of the model, and the history within its limit, in the state
-- that it leaves, if the state before has that.
pub step-Settled : (a : Action) (s : FlowState) → Settled s → Settled (state_of (step a s))
unfolding step
step-Settled (server_flow r) s h = (refl, omega arith)
step-Settled (source_set text) s h = h
step-Settled (source_edited text) s h =
    if_Settled (s.source == text) s (record s { source = text; dirty = true; source_stale = false })
      h h
step-Settled (parsed m code graph ps) s h = place_positions-Settled m code graph ps s h
step-Settled (node_source id text) s h = set_node_source-Settled id text s h
step-Settled (saved source modified commit) s h = h
step-Settled (commit_message text) s h = h
step-Settled clear s h = (refl, omega arith)
step-Settled begin_change s h = (h.0, length-push_history s h.1)
step-Settled layout_saved s h = h
step-Settled (selected p) s h = h
step-Settled (view_set v) s h = h
step-Settled (expanded_set b) s h = h
step-Settled (tree_edit a e) s h = edit_tree-Settled a e s h
step-Settled (appended a new added) s h = append_block-Settled a new added s h
step-Settled (start_set id) s h = with_model-Settled (λ m. record m { start = id }) s h
step-Settled (param_edit e) s h =
    with_model-Settled (λ m. record m { params = params_after e m.params }) s h
step-Settled (position_set path v) s h = h
step-Settled (positions_set ps dirty) s h = h
step-Settled (viewport_set v) s h = h
step-Settled (server_problems_set ps) s h = h
step-Settled undone s h = undo-Settled s h
step-Settled redone s h = redo-Settled s h

-- In every state that the store reaches, by any actions in any order, the problems are those of the
-- model, and the history has at most 100 entries.
pub Reached-Settled : (s : FlowState) → Reached s → Settled s
Reached-Settled _ started = (refl, omega arith)
Reached-Settled _ (acted {s} a r) = step-Settled a s (Reached-Settled s r)
