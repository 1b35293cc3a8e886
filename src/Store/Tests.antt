-- ===== src/Store/Tests.antt =====
-- web/src/store: the theorems at a small flow and a short run.
use text.Mathlib.Text.{◌==◌}
use tolquane.Base.{pos, false, none, some, List, [], ◌∷◌, ◌≡◌, inl, refl, arith, if◌then◌else◌}
use tolquane.Model.Types.{Tree, ref, pipeline, nil, cons, FlowModel}
use tolquane.Store.Flow.{FlowState, Snapshot, threw, initial, snapshot, undo, redo, state_of}
use tolquane.Store.Flow.Actions.{server_flow, tree_edit, undone, step}
use tolquane.Store.Flow.Server.{FlowResponse, apply_server_flow}
use tolquane.Store.Flow.Edit.{Addresses, select_path, edit, wrap_block, in_farm}
use tolquane.Store.Flow.History.{Restores, undo-edit, redo-undo, redo-threw}
use tolquane.Store.Flow.Settled.{Settled, started, acted, Reached-Settled}
use tolquane.Store.Run.{RunEvent, output, ended, stdout, done, start, rewind, apply_events}
use tolquane.Store.Run.Console.{
  Bounded, SameOutput, Consecutive, apply_events-Bounded, apply_events-rewind,
}
use tolquane.Store.Session
use tolquane.Store.Session.Auth.{
  AuthState, Me, User, Role, LoginResult, answered, failed, accepted, signed_out, unauthorized,
  closed, opened, stepped,
}
use tolquane.Store.Session.Auth as Auth
use tolquane.Store.Session.Modes.{Agrees, Reached-Agrees}
use tolquane.Store.Session.Notices.{step-notices}

abbrev two : Tree
two = pipeline (cons (ref "read") (cons (ref "write") nil))

abbrev one : Tree
one = pipeline (cons (ref "read") nil)

abbrev flow : FlowModel
flow = record {
  version = pos 1;
  name = "copy";
  doc = none;
  prelude = [];
  nodes = [];
  flow = two;
  start = none;
  params = [];
  main = none;
  epilogue = [];
  build_notes = [];
  guard = none;
}

abbrev response : FlowResponse
response = record {
  path = "copy.py";
  source = "def build(): ...";
  modified = "2026-01-01";
  model = some flow;
  code_only = none;
  graph = none;
  layout = none;
}

abbrev loaded : FlowState
loaded = apply_server_flow response initial

-- The root is a new block after the edit.
abbrev addresses : Addresses
addresses = record { before = λ p. if p == "" then 0 else 1; after = λ p. if p == "" then 2 else 1 }

abbrev drop_write : Tree → Tree
drop_write t = one

abbrev wrapped : FlowState
wrapped = state_of (
    step (tree_edit addresses (wrap_block "stages.1" in_farm))
      (state_of (step (server_flow response) initial)))

Reached-Settled_example : Settled (state_of (step undone wrapped))
Reached-Settled_example = Reached-Settled (state_of (step undone wrapped)) (
    acted undone (
      acted (tree_edit addresses (wrap_block "stages.1" in_farm))
        (acted (server_flow response) started)))

undo-edit_example :
    Restores
      (undo (edit addresses (select_path none) [] drop_write loaded))
      (snapshot loaded)
      []
      (snapshot (edit addresses (select_path none) [] drop_write loaded) ∷ [])
undo-edit_example =
    undo-edit addresses (select_path none) [] drop_write loaded flow refl refl (omega arith)

abbrev before : Snapshot
before = snapshot loaded

-- One change later.
abbrev changed : FlowState
changed = record loaded { past = before ∷ []; model = some (record flow { flow = one }) }

redo-undo_example : Restores (redo (state_of (undo changed))) (snapshot changed) (before ∷ []) []
redo-undo_example =
    redo-undo changed before (record flow { flow = one }) flow refl refl refl (omega arith)

-- A text with no model is typed after the change.
abbrev broken : FlowState
broken = record changed { model = none }

redo-threw_example : (t : FlowState) × (redo (state_of (undo broken)) ≡ threw t)
redo-threw_example = redo-threw broken before flow refl refl refl

abbrev events : List RunEvent
events = output stdout "one\ntwo\n" ∷ ended done 3 ∷ []

empty-Bounded : Bounded (start 7)
unfolding Consecutive
empty-Bounded = (tt, omega arith, inl refl)

apply_events-Bounded_example : Bounded (apply_events events (start 7))
apply_events-Bounded_example = apply_events-Bounded events (start 7) empty-Bounded

apply_events-rewind_example :
    SameOutput
      (apply_events events (rewind (apply_events events (start 7))))
      (apply_events events (start 7))
apply_events-rewind_example = apply_events-rewind events (apply_events events (start 7)) 7

abbrev ann : User
ann = record { id = 1; name = "ann"; role = Role.admin; must_change_password = false }

-- A request is refused before the mode is known; then the server says that it has users.
abbrev refused_state : AuthState
refused_state = Auth.step unauthorized (Auth.initial false (some "old"))

abbrev me : Me
me = record { mode = "users"; user = some ann; can_setup = false; note = none }

Reached-Agrees_example : Agrees (Auth.step (answered me) refused_state)
Reached-Agrees_example =
    Reached-Agrees (Auth.step (answered me) refused_state)
      (stepped (answered me) (stepped unauthorized (opened false (some "old"))))

step-notices_example : (Auth.step unauthorized refused_state).tokens ≡ refused_state.tokens
unfolding Auth.step Session.report_unauthorized
step-notices_example = step-notices unauthorized refused_state refl
