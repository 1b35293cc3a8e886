-- ===== src/Editor/Tests.antt =====
-- web/src/editor: the canvas of a small flow.
use tolquane.Base.{pos, false, none, some, [], ◌≡◌, refl, Option, is_some, All, ◌%◌, length, Member}
use tolquane.Model.Types.{
  Tree, ref, pipeline, farm, feedback, all2all, nil, cons, one, many, nothing, default, exposed,
  options, FlowModel,
}
use tolquane.Model.Tree.{default_settings, default_farm_options}
use tolquane.Editor.Geometry.{box, reps}
use tolquane.Editor.Canvas.{plain, measure_as, measure}
use tolquane.Editor.Canvas.Nodes.{Drawing, blank, ◌<+>◌, push, link}
use tolquane.Editor.Canvas.Build.{build_graph}
use tolquane.Editor.Canvas.Known.{Uses, node_ids}
use tolquane.Editor.Canvas.Ended.{TopEnded}
use tolquane.Editor.Canvas.Room.{Housed, size_of}
use tolquane.Editor.Canvas.Ends.{build_graph-Uses}
use tolquane.Editor.Canvas.Fits.{Drawn, build_graph-Within}
use tolquane.Editor.Canvas.Total.{has_workers, build_graph-has_workers}
use tolquane.Editor.Canvas.Even.{measure_as-Even}

-- A farm in a loop, and an all-to-all of two farms.
abbrev tree : Tree
tree = pipeline (
    cons (ref "read") (
      cons (feedback (farm (one (ref "work")) (pos 4) default_farm_options) none) (
        cons
          (all2all (farm (one (ref "a")) (pos 2) default_farm_options)
            (farm (many (cons (ref "b") (cons (ref "c") nil))) (pos 2) default_farm_options) nothing
            nothing false)
          nil)))

abbrev flow_of : Tree → FlowModel
flow_of t = record {
  version = pos 1;
  name = "copy";
  doc = none;
  prelude = [];
  nodes = [];
  flow = t;
  start = none;
  params = [];
  main = none;
  epilogue = [];
  build_notes = [];
  guard = none;
}

abbrev drawing_or : Option Drawing → Drawing
drawing_or none = blank
drawing_or (some d) = d

abbrev drawing : Drawing
drawing = drawing_or (build_graph (flow_of tree) [])

drawn_tests : (length drawing.nodes ≡ 15) × (length drawing.edges ≡ 13)
unfolding build_graph ◌<+>◌ push link reps
drawn_tests = (refl, refl)

build_graph-Uses_example : Uses (λ id. Member id (node_ids drawing)) drawing
unfolding build_graph ◌<+>◌ push link reps
build_graph-Uses_example = build_graph-Uses (flow_of tree) [] drawing refl

tree-TopEnded : TopEnded tree
unfolding TopEnded
tree-TopEnded = (tt, ((refl, (refl, tt)), (((refl, tt), ((refl, tt), ((refl, tt), tt))), tt)))

build_graph-Within_example :
    All (λ n. Housed (Drawn drawing) n.parent_id n.position (size_of n)) drawing.nodes
unfolding build_graph ◌<+>◌ push link reps
build_graph-Within_example = build_graph-Within (flow_of tree) [] drawing tree-TopEnded refl

build_graph-has_workers_example : is_some (build_graph (flow_of tree) []) ≡ has_workers tree
build_graph-has_workers_example = build_graph-has_workers (flow_of tree) []

measure_as-Even_example : (measure_as tree plain).h % 2 ≡ 0
measure_as-Even_example = measure_as-Even tree plain

-- A farm without an emitter in a loop: the loop has room for it as it was measured, and it is drawn
-- with an emitter all the same.
abbrev headless : Tree
headless = farm (one (ref "work")) (pos 4) (options default_settings exposed default nothing)

headless_tests :
    (measure headless ≡ box 392 138)
    × (measure_as headless plain ≡ box 544 138)
    × (measure (feedback headless none) ≡ box 424 256)
unfolding measure
headless_tests = (refl, refl, refl)

-- A farm of no workers is not drawn.
abbrev empty_farm : Tree
empty_farm = farm (many nil) (pos 0) default_farm_options

empty_tests : is_some (build_graph (flow_of empty_farm) []) ≡ false
unfolding build_graph ◌<+>◌ push link
empty_tests = refl
