-- ===== src/Model/Tests.antt =====
-- web/src/model: the theorems at small flows.
use text.Mathlib.Text.{◌==◌}
use text.Mathlib.TextEquality.{eq_iff}
use tolquane.Base.{
  negsuc, ℕ, split_on, if◌then◌else◌, pos, String, show, false, none, some, [], ◌∷◌, ◌++◌, ◌≡◌, ◌↔◌,
  ◌⊎◌, inl, refl, Member, here, inr, keep, get_elem?, arith,
}
use tolquane.Model.Tree.{default_farm_options}
use tolquane.Model.Types.{
  farm, many, inline, NodeKind, NodeDef, Tree, ref, pipeline, nil, cons, FlowParam, FlowModel,
}
use tolquane.Model.Tree.{
  walk, segments, get_at, descend, find_child, children, group, numbered, makes_pair,
}
use tolquane.Model.Tree.Paths.{walk-get_at_iff}
use tolquane.Model.Update.{Update, put, update_at}
use tolquane.Model.Update.Laws.{Diverges, get_at-update_at, get_at-update_at_beside}
use tolquane.Model.Update.Restore.{Counted, Counted-step}
use tolquane.Model.Edits.{
  at, clamp, unwrap, wrap_in_farm, wrap_in_feedback, insert_stage, remove_at, farm_block,
}
use tolquane.Model.Edits.Wrap.{unwrap-wrap_in_farm, unwrap-wrap_in_feedback}
use tolquane.Model.Edits.Stages.{stage_path, get_at-insert_stage, past_end}
use tolquane.Model.Edits.Remove.{remove_at-insert_stage}
use tolquane.Model.Layout.{Object, paths_after_edit, index_get, is_alive}
use tolquane.Model.Tree.{preorder, children, numbered, paths, join_path}
use tolquane.Model.Layout.Alive.{AllAlive, paths_after_edit-AllAlive}
use tolquane.Model.Params.{param_name_error, rename_param, trim, is_identifier, is_one_of, clashes}
use tolquane.Model.Params.Names.{Distinct, rename_param-Distinct}
use tolquane.Model.Validate.Paths.{validate_model-path}
use tolquane.Model.Validate.Worst.{has_error, has_problem, worst_severity_lem}
use tolquane.Model.Nodes.{find_node, when}
use tolquane.Model.Validate.{
  worst_severity, block_problems, sort_problems, validate_model, start_problems, is_warning,
}
use tolquane.Model.Problems.{Severity, Problem, fault}
use tolquane.Model.Validate.Order.{is_error, sort_problems_lem}
use tolquane.Model.Validate.Blocks.{BlockProblem, validate_model_iff}
use tolquane.Model.Json.{Json, string, array, object, item, end, member, empty}
use tolquane.Model.Normal.Trees.{read, normalize_tree, normalize_model}
use tolquane.Model.Normal.Print.{model_json}
use tolquane.Model.Normal.Loads.{CountsItself, normalize_model-model_json}
use tolquane.Model.Normal.Counts.{normalize_model-idempotent}

-- Two stages.
abbrev two : Tree
two = pipeline (cons (ref "read") (cons (ref "write") nil))

abbrev read_node : NodeDef
read_node = record {
  id = "read";
  kind = NodeKind.source;
  is_class = false;
  is_async = false;
  params = [];
  doc = none;
  source = "def read(): ...";
}

abbrev workers_param : FlowParam
workers_param = record { name = "workers"; default = "2"; annotation = none }

abbrev rate_param : FlowParam
rate_param = record { name = "rate"; default = "0.5"; annotation = none }

-- A flow whose second stage is no node.
abbrev flow : FlowModel
flow = record {
  version = pos 1;
  name = "copy";
  doc = none;
  prelude = [];
  nodes = read_node ∷ [];
  flow = two;
  start = none;
  params = workers_param ∷ [];
  main = none;
  epilogue = [];
  build_notes = [];
  guard = none;
}

two-Counted : Counted two
unfolding children numbered
two-Counted =
    Counted-step two tt (Counted-step (ref "read") tt tt, (Counted-step (ref "write") tt tt, tt))

second : get_at two "stages.1" ≡ some (ref "write")
unfolding get_at descend segments group makes_pair find_child children numbered split_on show
second = refl

third : get_at two "stages.2" ≡ none
unfolding get_at descend segments group makes_pair find_child children numbered split_on show
third = refl

whole : get_at two "" ≡ some two
unfolding get_at
whole = refl

unwrap-wrap_in_farm_example : unwrap (wrap_in_farm two "stages.1" (pos 4)) "stages.1" ≡ two
unwrap-wrap_in_farm_example =
    unwrap-wrap_in_farm two (ref "write") "stages.1" (pos 4) two-Counted second

unwrap-wrap_in_feedback_example :
    unwrap (wrap_in_feedback two "stages.1" (some "retry")) "stages.1" ≡ two
unwrap-wrap_in_feedback_example =
    unwrap-wrap_in_feedback two (ref "write") "stages.1" (some "retry") two-Counted second

walk-get_at_iff_example :
    Member {A = String × Tree} ("stages.1", ref "write") (walk two)
    ↔ (get_at two "stages.1" ≡ some (ref "write"))
walk-get_at_iff_example = walk-get_at_iff two "stages.1" (ref "write")

abbrev in_farm : Tree → Update
in_farm node = put (farm_block node (pos 4))

get_at-update_at_example :
    get_at (update_at two "stages.1" in_farm) "stages.1" ≡ some (farm_block (ref "write") (pos 4))
get_at-update_at_example =
    get_at-update_at two (ref "write") (farm_block (ref "write") (pos 4)) "stages.1" in_farm second
      refl

other_stage : Diverges (segments "stages.1") (segments "stages.0")
unfolding segments group makes_pair split_on
other_stage = inl (λ e. let f = (eq_iff "stages.0" "stages.1").1 e in absurd (ground arith))

get_at-update_at_beside_example :
    get_at (update_at two "stages.1" in_farm) "stages.0" ≡ get_at two "stages.0"
get_at-update_at_beside_example =
    get_at-update_at_beside two (ref "write") (farm_block (ref "write") (pos 4)) "stages.1"
      "stages.0" in_farm second refl other_stage

get_at-insert_stage_example :
    get_at (insert_stage two "" (at (pos 7)) (ref "map")) (stage_path "" 2)
    ≡ get_elem? (ref "read" ∷ ref "write" ∷ ref "map" ∷ []) 2
get_at-insert_stage_example =
    get_at-insert_stage two (ref "map") (cons (ref "read") (cons (ref "write") nil)) "" (at (pos 7))
      2 2 whole (past_end 7 2 (omega arith))

-- A negative index inserts at the front.
insert_at_front :
    insert_stage two "" (at (negsuc 0)) (ref "map")
    ≡ pipeline (cons (ref "map") (cons (ref "read") (cons (ref "write") nil)))
unfolding insert_stage clamp update_at
insert_at_front = refl

remove_at-insert_stage_example :
    remove_at (insert_stage two "" (at (pos 1)) (ref "map")) (stage_path "" (clamp (at (pos 1)) 2))
    ≡ two
remove_at-insert_stage_example =
    remove_at-insert_stage two (ref "map") (cons (ref "read") (cons (ref "write") nil)) ""
      (at (pos 1)) two-Counted whole (inl refl)

abbrev unused_node : Problem
unused_node = fault "stages.1" "the flow uses 'write', which is not one of its nodes"

validate_model_iff_example :
    Member unused_node (validate_model flow)
    ↔ (Member unused_node (start_problems flow) ⊎ BlockProblem flow unused_node)
validate_model_iff_example = validate_model_iff flow unused_node

sort_problems_lem_example :
    sort_problems (unused_node ∷ [])
    ≡ keep is_error (unused_node ∷ []) ++ keep is_warning (unused_node ∷ [])
sort_problems_lem_example = sort_problems_lem (unused_node ∷ [])

-- Every block at an address of its own.
abbrev address_of : String → ℕ
address_of p = if p == "" then 0 else if p == "stages.0" then 1 else 2

abbrev in_memory : Object
in_memory = record { tree = two; address = address_of }

abbrev removed : Object
removed = record { tree = pipeline (cons (ref "read") nil); address = address_of }

paths_after_edit-AllAlive_example :
    AllAlive
      (pipeline (cons (ref "read") nil))
      (paths_after_edit in_memory removed (("stages.1", record { x = pos 40; y = pos 0 }) ∷ []))
paths_after_edit-AllAlive_example =
    paths_after_edit-AllAlive in_memory removed
      (("stages.1", record { x = pos 40; y = pos 0 }) ∷ []) (refl, tt)

-- A position under the name of an inherited function stays, under the text of the function.
ghost_stays :
    paths_after_edit in_memory removed (("constructor", record { x = pos 40; y = pos 0 }) ∷ [])
    ≡ ("function Object() { [native code] }", record { x = pos 40; y = pos 0 }) ∷ []
unfolding paths_after_edit index_get preorder children numbered show paths join_path is_alive
ghost_stays = refl

rate_is_free : param_name_error "rate" (workers_param ∷ []) (some "workers") ≡ none
unfolding param_name_error trim is_identifier is_one_of clashes
rate_is_free = refl

no_clash : clashes "workers" none [] ≡ false
unfolding clashes
no_clash = refl

rename_param-Distinct_example : Distinct (rename_param (workers_param ∷ []) "workers" "rate")
rename_param-Distinct_example =
    rename_param-Distinct (workers_param ∷ []) "workers" "rate" rate_is_free (no_clash, tt)

reported : Member unused_node (block_problems flow "stages.1" (ref "write"))
unfolding block_problems find_node when
reported = here

validate_model-path_example : (u : Tree) × (get_at two "stages.1" ≡ some u)
validate_model-path_example =
    validate_model-path flow unused_node "stages.1"
      ((validate_model_iff flow unused_node).1 (inr ("stages.1", ref "write", second, reported)))
      refl

worst_severity_lem_example : worst_severity (unused_node ∷ []) "stages.1" ≡ (
    if has_error "stages.1" (unused_node ∷ [])
    then some Severity.error
    else if has_problem "stages.1" (unused_node ∷ [])
    then some Severity.warning
    else none)
worst_severity_lem_example = worst_severity_lem (unused_node ∷ []) "stages.1"

abbrev no_text : Json → String
no_text j = ""

-- The JSON of a farm of two workers that says nothing else.
abbrev farm_json : Json
farm_json = object (
    member "type" (string "farm") (
      member "worker"
        (array (
          item (object (member "type" (string "ref") (member "id" (string "a") empty)))
            (item (object (member "source" (string "b") empty)) end)))
        empty))

normalize_tests :
    normalize_tree no_text farm_json
    ≡ farm (many (cons (ref "a") (cons (inline "b") nil))) (pos 2) default_farm_options
unfolding normalize_tree read
normalize_tests = refl

normalize_model-model_json_example : normalize_model no_text (model_json flow) ≡ flow
unfolding CountsItself
normalize_model-model_json_example = normalize_model-model_json no_text flow (tt, (tt, tt))

normalize_model-idempotent_example :
    normalize_model no_text (model_json (normalize_model no_text farm_json))
    ≡ normalize_model no_text farm_json
normalize_model-idempotent_example = normalize_model-idempotent no_text farm_json
