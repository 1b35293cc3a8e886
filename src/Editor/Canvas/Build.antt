-- ===== src/Editor/Canvas/Build.antt =====
-- web/src/editor/buildGraph.ts: `place` and `buildGraph`. The positions of the top-level stages are
-- given; a block inside a container is placed by the code.
use text.Mathlib.Text.{◌==◌}
use tolquane.Base.{
  ℕ, zero, suc, ◌+◌, ◌-◌, max, pos, String, ◌<>◌, Bool, true, false, not, Option, none, some, List,
  [], ◌∷◌, length, or_else, if◌then◌else◌, show,
}
use tolquane.Model.Types.{
  Tree, start, ref, inline, pipeline, farm, comb, feedback, all2all, Trees, nil, cons, Worker, one,
  many, FarmOptions, options, settings, FlowModel, to_list,
}
use tolquane.Model.Tree.{join_path}
use tolquane.Model.Layout.{Position, Positions}
use tolquane.Model.Nodes.{CardKind, card_kind, block_title, farm_badges}
use tolquane.Editor.Geometry.{Box, card_h, end_w, end_h, gap_in, gap_y, group_pad}
use tolquane.Editor.Canvas.{
  FarmView, plain, left, right, view_of, column_box, middle_of, middle_w, parts_box, measure_as,
  worker_boxes, measure,
}
use tolquane.Editor.Canvas.Nodes.{
  NodeVariant, card, group, emitter, collector, CanvasNodeData, Drawing, blank, ◌<+>◌, push, link,
  loop, loop_dip, point, common, cross_badges, emit_label, collect_label,
}
use tolquane.Editor.Canvas.Place.{
  centred, content_top, row_link, copies, end_id, end_card, worker_ids, shown_id, farm_links,
  ends_of_side, place_middle,
}

abbrev pub is_source : CardKind → Bool
is_source CardKind.source = true
is_source k = false

abbrev pub is_sink : CardKind → Bool
is_sink CardKind.sink = true
is_sink k = false

abbrev pub run_key_of : Tree → String → String
run_key_of (ref id) title = id
run_key_of t title = title

-- The card of a block that holds no other.
abbrev pub card_data : FlowModel → Tree → String → CanvasNodeData
card_data m t path = record (common card path t m) {
  has_input = not (is_source (card_kind t m));
  has_output = not (is_sink (card_kind t m));
  run_key = run_key_of t (block_title t m);
}

abbrev pub comb_data : FlowModel → Tree → Tree → String → CanvasNodeData
comb_data m a b path = record (common NodeVariant.comb path (comb a b) m) {
  parts = block_title a m ∷ block_title b m ∷ [];
  run_key = block_title a m <> "+" <> block_title b m;
}

abbrev pub pipeline_data : FlowModel → Trees → String → CanvasNodeData
pipeline_data m ts path = record (common group path (pipeline ts) m) {
  kind = CardKind.node;
  title = "pipeline";
  subtitle = show (length (to_list ts)) <> " stages, one after another";
  run_key = "pipeline";
}

abbrev pub loop_data : FlowModel → Tree → Option String → String → CanvasNodeData
loop_data m t name path = record (common group path (feedback t name) m) {
  badges = "loops back" ∷ [];
  run_key = or_else name "loop";
}

abbrev pub farm_name : FlowModel → Tree → FarmOptions → String
farm_name m t o = or_else ((settings o).name) (block_title t m)

abbrev pub farm_data : FlowModel → Tree → FarmOptions → String → CanvasNodeData
farm_data m t o path = record (common group path t m) {
  kind = CardKind.farm_card;
  badges = farm_badges o;
  run_key = farm_name m t o;
}

-- The same for every all-to-all but for its badges.
abbrev pub all2all_data : FlowModel → Tree → List String → String → CanvasNodeData
all2all_data m t badges path = record (common group path t m) {
  kind = CardKind.all2all_card;
  badges = badges;
  run_key = "all2all";
}

-- Draw one block at `at`, inside `parent`.
unfoldable mutual
  unfolding copies end_card worker_ids farm_links ends_of_side place_middle view_of measure
      middle_of

  pub place : FlowModel → Tree → String → Position → Option String → FarmView → Option Drawing
  place m (ref id) path at parent view =
      push path (measure (ref id)) at parent (card_data m (ref id) path)
  place m (inline s) path at parent view =
      push path (measure (inline s)) at parent (card_data m (inline s) path)
  place m start path at parent view = push path (measure start) at parent (card_data m start path)
  place m (comb a b) path at parent view =
      push path (measure (comb a b)) at parent (comb_data m a b path)
  place m (pipeline ts) path at parent view =
      let size = measure (pipeline ts) in
      push path size at parent (pipeline_data m ts path)
      <+> place_row m ts path 0 group_pad (size.h - content_top - group_pad) none
  place m (feedback t name) path at parent view =
      push path (measure (feedback t name)) at parent (loop_data m t name path)
      <+> place m t (join_path path "inner") (point group_pad content_top) (some path) plain
      <+> link (join_path path "inner") (join_path path "inner") loop (loop_dip (measure t))
  place m (farm w n (options s e c k)) path at parent view =
      let o = options s e c k in
      let size = measure_as (farm w n o) view in
      let name = farm_name m (farm w n o) o in
      let column = column_box (worker_boxes w view.reps) in
      let content = max column.h end_h in
      let x = group_pad + (if view.show_emitter then end_w + gap_in else 0) in
      push path size at parent (farm_data m (farm w n o) o path)
      <+> end_card m view.show_emitter emitter e path name (emit_label o) group_pad content
      <+> place_worker m w path name view.reps x (centred content_top content column.h)
      <+> end_card m view.show_collector collector c path name (collect_label o)
          (x + column.w + gap_in) content
      <+> farm_links (shown_id view.show_emitter (end_id emitter e path))
          (shown_id view.show_collector (end_id collector c path)) (worker_ids w path view.reps)
  place m (all2all l r big_r big_g merge) path at parent view =
      let t = all2all l r big_r big_g merge in
      let l_view = view_of l left in
      let r_view = view_of r right in
      let l_box = measure_as l l_view in
      let r_box = measure_as r r_view in
      let middle = middle_of big_r big_g merge in
      let parts = parts_box l_box r_box middle in
      push path (measure t) at parent (all2all_data m t (cross_badges big_r big_g merge) path)
      <+> place m l (join_path path "left") (point group_pad (centred content_top parts.h l_box.h))
          (some path) l_view
      <+> place m r (join_path path "right")
          (point (group_pad + l_box.w + gap_in + middle_w middle)
            (centred content_top parts.h r_box.h))
          (some path) r_view
      <+> place_middle m middle big_r path (ends_of_side l (join_path path "left") l_view left)
          (ends_of_side r (join_path path "right") r_view right) (group_pad + l_box.w + gap_in)
          (centred content_top parts.h card_h)

  -- `placeRow`, from the stage at index `i`.
  pub place_row : FlowModel → Trees → String → ℕ → ℕ → ℕ → Option String → Option Drawing
  place_row m nil base i x room previous = some blank
  place_row m (cons t ts) base i x room previous =
      let path = join_path base ("stages." <> show i) in
      place m t path (point x (centred content_top room (measure t).h)) (some base) plain
      <+> row_link previous path
      <+> place_row m ts base (suc i) (x + ((measure t).w + gap_in)) room (some path)

  -- The loop over the workers. A farm without workers throws: it measures the first one.
  pub place_worker : FlowModel → Worker → String → String → ℕ → ℕ → ℕ → Option Drawing
  place_worker m (one t) path name zero x y = some blank
  place_worker m (one t) path name (suc n) x y =
      place m t (join_path path "worker") (point x y) (some path) plain
      <+> copies m t (join_path path "worker") path name 1 n x (y + ((measure t).h + gap_y))
  place_worker m (many nil) path name n x y = none
  place_worker m (many (cons t nil)) path name zero x y = some blank
  place_worker m (many (cons t nil)) path name (suc n) x y =
      place m t (join_path path "worker") (point x y) (some path) plain
      <+> copies m t (join_path path "worker") path name 1 n x (y + ((measure t).h + gap_y))
  place_worker m (many (cons t (cons u us))) path name n x y =
      place m t (join_path path ("worker." <> show 0)) (point x y) (some path) plain
      <+> place m u (join_path path ("worker." <> show 1)) (point x (y + ((measure t).h + gap_y)))
          (some path) plain
      <+> place_column m us path 2 x (y + ((measure t).h + gap_y) + ((measure u).h + gap_y))

  -- The workers of a farm of several, from index `i`.
  pub place_column : FlowModel → Trees → String → ℕ → ℕ → ℕ → Option Drawing
  place_column m nil path i x y = some blank
  place_column m (cons t ts) path i x y =
      place m t (join_path path ("worker." <> show i)) (point x y) (some path) plain
      <+> place_column m ts path (suc i) x (y + ((measure t).h + gap_y))

pub record Stage : Type 0 where
  pub path : String
  pub size : Box

unfoldable pub stages_from : ℕ → Trees → List Stage
unfolding measure
stages_from i nil = []
stages_from i (cons t ts) =
    record { path = "stages." <> show i; size = measure t } ∷ stages_from (suc i) ts

unfoldable pub top_stages : FlowModel → List Stage
unfolding measure stages_from
top_stages m = from m.flow
  where
    from : Tree → List Stage
    from (pipeline ts) = stages_from 0 ts
    from t = record { path = ""; size = measure t } ∷ []

unfoldable pub position_at : String → Positions → Option Position
position_at path [] = none
position_at path ((p, at) ∷ ps) = if p == path then some at else position_at path ps

-- `positions[path] ?? { x: 0, y: 0 }`
abbrev pub position_or_zero : Positions → String → Position
unfolding position_at
position_or_zero ps path = or_else (position_at path ps) (record { x = pos 0; y = pos 0 })

-- The loop of `buildGraph` over the stages.
unfoldable pub build_row : FlowModel → Positions → ℕ → Trees → Option String → Option Drawing
unfolding place
build_row m ps i nil previous = some blank
build_row m ps i (cons t ts) previous =
    let path = "stages." <> show i in
    place m t path (position_or_zero ps path) none plain
    <+> row_link previous path
    <+> build_row m ps (suc i) ts (some path)

abbrev pub build_tree : FlowModel → Positions → Tree → Option Drawing
build_tree m ps (pipeline ts) = build_row m ps 0 ts none
build_tree m ps t = place m t "" (position_or_zero ps "") none plain

-- The nodes and the edges of `buildGraph`; its stages are `top_stages`.
unfoldable pub build_graph : FlowModel → Positions → Option Drawing
unfolding place build_row
build_graph m ps = build_tree m ps m.flow
