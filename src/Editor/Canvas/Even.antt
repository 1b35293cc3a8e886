-- ===== src/Editor/Canvas/Even.antt =====
-- web/src/editor/buildGraph.ts: every height is even, so that half of a difference of two heights is
-- a whole number of pixels.
use tolquane.Base.{ℕ, zero, suc, Option, none, some, ◌%◌, List, [], ◌∷◌, ◌≡◌, arith, All}
use tolquane.Model.Types.{
  Tree, start, ref, inline, pipeline, farm, comb, feedback, all2all, Trees, nil, cons, Worker, one,
  many,
}
use tolquane.Editor.Geometry.{Box, box, card_w, card_h}
use tolquane.Editor.Canvas.{
  FarmView, own_view, left, right, view_of, middle_of, middle_h, measure_as, boxes, worker_boxes,
  total_h, highest, row_box, column_box, replicate,
}

abbrev pub IsEven : Box → Type 0
IsEven b = b.h % 2 ≡ 0

highest-Even : (bs : List Box) → All IsEven bs → highest bs % 2 ≡ 0
unfolding highest
highest-Even [] h = omega arith
highest-Even (b ∷ bs) h = omega (arith, h.0, highest-Even bs h.1)

total_h-Even : (bs : List Box) → All IsEven bs → total_h bs % 2 ≡ 0
unfolding total_h
total_h-Even [] h = omega arith
total_h-Even (b ∷ bs) h = omega (arith, h.0, total_h-Even bs h.1)

row_box-Even : (bs : List Box) → All IsEven bs → IsEven (row_box bs)
unfolding row_box
row_box-Even [] h = omega arith
row_box-Even (b ∷ bs) h = highest-Even (b ∷ bs) h

column_box-Even : (bs : List Box) → All IsEven bs → IsEven (column_box bs)
unfolding column_box
column_box-Even bs h = omega (arith, total_h-Even bs h)

replicate-Even : (n : ℕ) (b : Box) → IsEven b → All IsEven (replicate n b)
unfolding replicate
replicate-Even zero b h = tt
replicate-Even (suc n) b h = (h, replicate-Even n b h)

middle_h-Even : (o : Option Tree) → middle_h o % 2 ≡ 0
middle_h-Even none = omega arith
middle_h-Even (some t) = omega arith

mutual
  unfolding measure_as

  as-Even : (t : Tree) (view : FarmView) → IsEven (measure_as t view)
  as-Even start view = omega arith
  as-Even (ref id) view = omega arith
  as-Even (inline s) view = omega arith
  as-Even (comb a b) view = omega arith
  as-Even (pipeline ts) view = omega (arith, row_box-Even (boxes ts) (boxes-Even ts))
  as-Even (farm w n o) view =
      omega (arith, column_box-Even (worker_boxes w view.reps) (worker-Even w view.reps))
  as-Even (feedback t name) view = omega (arith, as-Even t (own_view t))
  as-Even (all2all l r x y merge) view = omega (
    arith,
    as-Even l (view_of l left),
    as-Even r (view_of r right),
    middle_h-Even (middle_of x y merge),
  )

  boxes-Even : (ts : Trees) → All IsEven (boxes ts)
  boxes-Even nil = tt
  boxes-Even (cons t ts) = (as-Even t (own_view t), boxes-Even ts)

  worker-Even : (w : Worker) (n : ℕ) → All IsEven (worker_boxes w n)
  worker-Even (one t) n = replicate-Even n _ (as-Even t (own_view t))
  worker-Even (many nil) n = replicate-Even n (box card_w card_h) (omega arith)
  worker-Even (many (cons t nil)) n = replicate-Even n _ (as-Even t (own_view t))
  worker-Even (many (cons t (cons u us))) n =
      (as-Even t (own_view t), (as-Even u (own_view u), boxes-Even us))

-- The height of every block is even, whichever ends a farm is measured with.
pub measure_as-Even : (t : Tree) (view : FarmView) → (measure_as t view).h % 2 ≡ 0
measure_as-Even t view = as-Even t view
