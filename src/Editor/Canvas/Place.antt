-- ===== src/Editor/Canvas/Place.antt =====
-- web/src/editor/buildGraph.ts: where each block goes, inside its container. Heights are even and no
-- block is higher than the room it is centred in, so that the halves are exact and no difference
-- falls below 0.
use tolquane.Base.{
  ℕ, zero, suc, ◌+◌, ◌-◌, ◌/◌, String, ◌<>◌, Bool, true, false, Option, none, some, List, [], ◌∷◌,
  if◌then◌else◌, show,
}
use tolquane.Model.Types.{
  Tree, farm, comb, Trees, nil, cons, Worker, one, many, MaybeTree, nothing, just, Slot, block,
  FlowModel,
}
use tolquane.Model.Tree.{join_path}
use tolquane.Model.Nodes.{card_kind, block_title, block_subtitle}
use tolquane.Editor.Geometry.{box, card_w, card_h, end_w, end_h, gap_y, group_header, group_pad}
use tolquane.Editor.Canvas.{FarmView, Side, left, right, measure}
use tolquane.Editor.Canvas.Nodes.{
  NodeVariant, card, end, Role, emitter, collector, CanvasNodeData, Drawing, blank, ◌<+>◌, push,
  link, flow, cross, point, default_data, EdgeKind,
}

-- The y of a block of this height, centred in this room under `top`.
abbrev pub centred : ℕ → ℕ → ℕ → ℕ
centred top room h = top + (room - h) / 2

abbrev pub content_top : ℕ
content_top = group_header + group_pad

abbrev pub row_link : Option String → String → Option Drawing
row_link none path = some blank
row_link (some previous) path = link previous path flow 0

-- The rest of the copies of the one worker, so that an all-to-all can show its cross edges.
unfoldable pub copies : FlowModel → Tree → String → String → String → ℕ → ℕ → ℕ → ℕ → Option Drawing
unfolding measure
copies m t worker_path parent name i zero x y = some blank
copies m t worker_path parent name i (suc n) x y =
    push (worker_path <> "#" <> show i) (measure t) (point x y) (some parent)
      (record (default_data card worker_path) {
        kind = card_kind t m;
        title = block_title t m;
        subtitle = block_subtitle t m;
        run_key = name <> "." <> show i;
      })
    <+> copies m t worker_path parent name (suc i) n x (y + ((measure t).h + gap_y))

-- A farm's ends: the path of their block, if the farm names one.
abbrev pub role_text : Role → String
role_text emitter = "emitter"
role_text collector = "collector"

unfoldable pub end_id : Role → Slot → String → String
end_id role (block t) path = join_path path ("options." <> role_text role)
end_id role s path = path <> "#" <> role_text role

abbrev end_data : FlowModel → Role → Slot → String → String → String → CanvasNodeData
end_data m role (block t) path name label =
    let own = join_path path ("options." <> role_text role) in
    record (default_data end own) {
      kind = card_kind t m;
      role = some role;
      title = block_title t m;
      subtitle = "custom " <> role_text role;
      run_key = name <> "." <> role_text role;
    }
end_data m role s path name label = record (default_data end path) {
  role = some role;
  problem_path = none;
  title = role_text role;
  subtitle = label;
  run_key = name <> "." <> role_text role;
}

unfoldable pub end_card :
    FlowModel → Bool → Role → Slot → String → String → String → ℕ → ℕ → Option Drawing
unfolding end_id
end_card m false role s path name label x content = some blank
end_card m true role s path name label x content =
    push (end_id role s path) (box end_w end_h) (point x (centred content_top content end_h))
      (some path) (end_data m role s path name label)

unfoldable pub copy_ids : String → ℕ → ℕ → List String
copy_ids worker_path i zero = []
copy_ids worker_path i (suc n) = (worker_path <> "#" <> show i) ∷ copy_ids worker_path (suc i) n

unfoldable pub single_ids : String → ℕ → List String
unfolding copy_ids
single_ids path zero = []
single_ids path (suc n) = join_path path "worker" ∷ copy_ids (join_path path "worker") 1 n

unfoldable pub column_ids : String → ℕ → Trees → List String
column_ids path i nil = []
column_ids path i (cons t ts) = join_path path ("worker." <> show i) ∷ column_ids path (suc i) ts

-- `workerIds`
unfoldable pub worker_ids : Worker → String → ℕ → List String
unfolding single_ids column_ids
worker_ids (one t) path n = single_ids path n
worker_ids (many nil) path n = single_ids path n
worker_ids (many (cons t nil)) path n = single_ids path n
worker_ids (many (cons t (cons u us))) path n = column_ids path 0 (cons t (cons u us))

abbrev pub shown_id : Bool → String → Option String
shown_id shown id = if shown then some id else none

abbrev pub in_link : Option String → String → Option Drawing
in_link none worker_id = some blank
in_link (some emitter_id) worker_id = link emitter_id worker_id EdgeKind.farm 0

abbrev pub out_link : Option String → String → Option Drawing
out_link none worker_id = some blank
out_link (some collector_id) worker_id = link worker_id collector_id EdgeKind.farm 0

-- The last loop of `placeFarm`.
unfoldable pub farm_links : Option String → Option String → List String → Option Drawing
farm_links emitter_id collector_id [] = some blank
farm_links emitter_id collector_id (w ∷ ws) =
    in_link emitter_id w <+> out_link collector_id w <+> farm_links emitter_id collector_id ws

-- The node ids an all-to-all's cross edges leave from (of the left side) or arrive at.
unfoldable pub farm_ends : Worker → String → FarmView → Side → List String
unfolding single_ids column_ids
farm_ends (many (cons t (cons u us))) path view side = column_ids path 0 (cons t (cons u us))
farm_ends w path view left =
    if view.show_collector then (path <> "#collector") ∷ [] else single_ids path view.reps
farm_ends w path view right =
    if view.show_emitter then (path <> "#emitter") ∷ [] else single_ids path view.reps

unfoldable pub ends_of_side : Tree → String → FarmView → Side → List String
unfolding farm_ends
ends_of_side (farm w n o) path view side = farm_ends w path view side
ends_of_side t path view side = path ∷ []

unfoldable pub links_from : String → List String → Option Drawing
links_from source [] = some blank
links_from source (t ∷ ts) = link source t cross 0 <+> links_from source ts

unfoldable pub links_to : List String → String → Option Drawing
links_to [] target = some blank
links_to (s ∷ ss) target = link s target cross 0 <+> links_to ss target

unfoldable pub all_links : List String → List String → Option Drawing
unfolding links_from
all_links [] targets = some blank
all_links (s ∷ ss) targets = links_from s targets <+> all_links ss targets

abbrev middle_parts : FlowModel → Tree → List String
middle_parts m (comb a b) = block_title a m ∷ block_title b m ∷ []
middle_parts m t = []

abbrev middle_variant : Tree → NodeVariant
middle_variant (comb a b) = NodeVariant.comb
middle_variant t = card

abbrev middle_subtitle : Tree → MaybeTree → String
middle_subtitle (comb a b) big_r = "R then G, fused"
middle_subtitle t (just r) = "R · after each left worker"
middle_subtitle t nothing = "G · before each right worker"

abbrev middle_key : MaybeTree → String
middle_key (just r) = "R"
middle_key nothing = "G"

-- The end of `placeAll2All`: the node in the middle, if there is one, and the cross edges.
unfoldable pub place_middle :
    FlowModel
    → Option Tree
    → MaybeTree
    → String
    → List String
    → List String
    → ℕ
    → ℕ
    → Option Drawing
unfolding all_links links_from links_to
place_middle m none big_r path sources targets x y = all_links sources targets
place_middle m (some t) big_r path sources targets x y =
    push (path <> "#middle") (box card_w card_h) (point x y) (some path)
      (record (default_data (middle_variant t) (join_path path (middle_key big_r))) {
        kind = card_kind t m;
        title = block_title t m;
        subtitle = middle_subtitle t big_r;
        parts = middle_parts m t;
        run_key = block_title t m;
      })
    <+> links_to sources (path <> "#middle")
    <+> links_from (path <> "#middle") targets
