-- ===== src/Editor/Canvas.antt =====
-- web/src/editor/buildGraph.ts: the nodes and the edges of the canvas, and how big a block is. The
-- source's `model` argument of the measuring functions is unused there and is left out.
pub mod Nodes
pub mod Place
pub mod Build
pub mod Pieces
pub mod Links
pub mod Known
pub mod Ends
pub mod Ended
pub mod Room
pub mod Fits
pub mod Total
pub mod Even
use tolquane.Base.{
  ℕ, zero, suc, ◌+◌, ◌*◌, ◌-◌, max, String, Bool, true, false, ◌&&◌, Option, none, some, List, [],
  ◌∷◌, length, if◌then◌else◌,
}
use tolquane.Model.Types.{
  Tree, start, ref, inline, pipeline, farm, comb, feedback, all2all, Trees, nil, cons, Worker, one,
  many, MaybeTree, nothing, just, Slot, default, exposed, block, FarmOptions, options,
}
use tolquane.Editor.Geometry.{
  Box, box, card_w, card_h, comb_h, end_w, end_h, gap_in, gap_y, group_header, group_pad,
  loop_space, reps,
}

pub record FarmView : Type 0 where
  pub show_emitter : Bool
  pub show_collector : Bool
  pub reps : ℕ

-- `PLAIN`
abbrev pub plain : FarmView
plain = record { show_emitter = true; show_collector = true; reps = 1 }

-- `slot !== false`
abbrev pub is_shown : Slot → Bool
is_shown exposed = false
is_shown default = true
is_shown (block t) = true

abbrev pub farm_view : FarmOptions → FarmView
farm_view (options s e c k) = record {
  show_emitter = is_shown e;
  show_collector = is_shown c;
  reps = 1;
}

-- `farmView(tree)` on a farm; the view of another block is not looked at.
abbrev pub own_view : Tree → FarmView
own_view (farm w n o) = farm_view o
own_view t = plain

pub data Side : Type 0 where
  left right : Side

unfoldable pub view_of : Tree → Side → FarmView
view_of (farm w n o) left = record (farm_view o) { show_collector = false; reps = reps n }
view_of (farm w n o) right = record (farm_view o) { show_emitter = false; reps = reps n }
view_of t side = plain

unfoldable pub total_w : List Box → ℕ
total_w [] = 0
total_w (b ∷ bs) = b.w + total_w bs

unfoldable pub total_h : List Box → ℕ
total_h [] = 0
total_h (b ∷ bs) = b.h + total_h bs

unfoldable pub widest : List Box → ℕ
widest [] = 0
widest (b ∷ bs) = max b.w (widest bs)

unfoldable pub highest : List Box → ℕ
highest [] = 0
highest (b ∷ bs) = max b.h (highest bs)

unfoldable pub replicate : ℕ → Box → List Box
replicate zero b = []
replicate (suc n) b = b ∷ replicate n b

-- `measureRow`, from the boxes of the stages.
unfoldable pub row_box : List Box → Box
unfolding total_w highest
row_box [] = box card_w card_h
row_box (b ∷ bs) = box (total_w (b ∷ bs) + gap_in * length bs) (highest (b ∷ bs))

-- The end of `workerColumn`, from the boxes of the workers.
unfoldable pub column_box : List Box → Box
unfolding total_h widest
column_box bs = box (widest bs) (total_h bs + gap_y * (length bs - 1))

abbrev pub end_room : Bool → ℕ
end_room shown = if shown then end_w + gap_in else 0

-- A container around what it holds: the header row and the paddings.
abbrev pub frame : ℕ → ℕ → Box
frame w h = box (w + 2 * group_pad) (group_header + group_pad + h + group_pad)

-- The end of `measureFarm`, from the column of the workers.
abbrev pub farm_box : Box → FarmView → Box
farm_box column view =
    frame (end_room view.show_emitter + column.w + end_room view.show_collector)
      (max column.h end_h)

unfoldable pub middle_of : MaybeTree → MaybeTree → Bool → Option Tree
middle_of big_r big_g false = none
middle_of (just r) (just g) true = some (comb r g)
middle_of (just r) nothing true = some r
middle_of nothing (just g) true = some g
middle_of nothing nothing true = none

abbrev pub middle_w : Option Tree → ℕ
middle_w none = 0
middle_w (some t) = card_w + gap_in

abbrev pub middle_h : Option Tree → ℕ
middle_h none = 0
middle_h (some t) = card_h

-- `width` and `height` of `all2allParts`.
abbrev pub parts_box : Box → Box → Option Tree → Box
parts_box l r middle =
    box (l.w + gap_in + middle_w middle + r.w) (max l.h (max r.h (middle_h middle)))

-- `measureFarm` on a farm, with the view; `measure` on another block.
unfoldable mutual
  unfolding row_box column_box middle_of view_of replicate

  pub measure_as : Tree → FarmView → Box
  measure_as (ref id) view = box card_w card_h
  measure_as (inline source) view = box card_w card_h
  measure_as start view = box card_w card_h
  measure_as (comb a b) view = box card_w comb_h
  measure_as (pipeline ts) view = let row = row_box (boxes ts) in frame row.w row.h
  measure_as (farm w n o) view = farm_box (column_box (worker_boxes w view.reps)) view
  measure_as (feedback t name) view =
      let inner = measure_as t (own_view t) in frame inner.w (inner.h + loop_space)
  measure_as (all2all l r x y merge) view =
      let parts =
        parts_box (measure_as l (view_of l left)) (measure_as r (view_of r right))
          (middle_of x y merge) in
      frame parts.w parts.h

  pub boxes : Trees → List Box
  boxes nil = []
  boxes (cons t ts) = measure_as t (own_view t) ∷ boxes ts

  -- The boxes of `workerColumn`; a farm without workers counts as an empty expression.
  pub worker_boxes : Worker → ℕ → List Box
  worker_boxes (one t) n = replicate n (measure_as t (own_view t))
  worker_boxes (many nil) n = replicate n (box card_w card_h)
  worker_boxes (many (cons t nil)) n = replicate n (measure_as t (own_view t))
  worker_boxes (many (cons t (cons u us))) n =
      measure_as t (own_view t) ∷ measure_as u (own_view u) ∷ boxes us

unfoldable pub measure : Tree → Box
unfolding measure_as
measure t = measure_as t (own_view t)
