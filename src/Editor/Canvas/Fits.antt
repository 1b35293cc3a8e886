-- ===== src/Editor/Canvas/Fits.antt =====
-- web/src/editor/buildGraph.ts: measuring and placing agree, so that what a container holds lies
-- inside it.
use tolquane.Base.{
  ℕ, zero, suc, ◌+◌, ◌-◌, ◌*◌, ◌≤◌, max, String, Option, none, some, List, [], ◌∷◌, ◌≡◌, refl,
  subst, length, arith, All, Member, here, there, All-mono,
}
use tolquane.Model.Types.{
  Tree, start, ref, inline, pipeline, farm, comb, feedback, all2all, Trees, nil, cons, Worker, one,
  many, options, FlowModel,
}
use tolquane.Model.Tree.{join_path}
use tolquane.Model.Layout.{Position, Positions}
use tolquane.Editor.Geometry.{Box, gap_in, gap_y, group_pad, end_h}
use tolquane.Editor.Canvas.{
  FarmView, plain, own_view, left, right, view_of, middle_of, middle_w, parts_box, measure_as,
  boxes, worker_boxes, measure, total_w, total_h, widest, highest, row_box, column_box, replicate,
  end_room,
}
use tolquane.Editor.Canvas.Nodes.{CanvasNode, EdgeKind, Drawing, ◌<+>◌, emitter, collector, point}
use tolquane.Editor.Canvas.Place.{copies, content_top}
use tolquane.Editor.Canvas.Build.{
  place, place_row, place_worker, place_column, build_row, build_tree, build_graph,
}
use tolquane.Editor.Canvas.Pieces.{
  PlacedIn, both, weaken, nothing_drawn, throws, push-Placed, link-Placed,
}
use tolquane.Editor.Canvas.Ended.{Ended, AllEnded, WorkersEnded, StagesEnded, TopEnded, end_fits}
use tolquane.Editor.Canvas.Room.{
  Housed, size_of, FitsIn, centred_lem, row_step, column_step, point-Within, own-Housed,
  copies-Fits, end_card-Fits, farm_links-Fits, row_link-Fits, place_middle-Fits,
}

module _ (K : String → Box → Type 0) where
  -- The one worker, and its copies below it.
  same_worker-Fits :
      (m : FlowModel) (t : Tree) (path name : String) (n x y cw : ℕ) (outer : Box)
      → K path outer
      → own_view t ≡ plain
      → (Housed K (some path) (point x y) (measure_as t plain)
          → FitsIn K Unit (place m t (join_path path "worker") (point x y) (some path) plain))
      → group_pad ≤ x
      → content_top ≤ y
      → widest (replicate (suc n) (measure t)) ≤ cw
      → x + cw + group_pad ≤ outer.w
      → y
          + (total_h (replicate (suc n) (measure t))
              + gap_y * length (replicate (suc n) (measure t)))
        ≤ outer.h + 4
      → FitsIn K Unit (
          place m t (join_path path "worker") (point x y) (some path) plain
          <+> copies m t (join_path path "worker") path name 1 n x (y + ((measure t).h + gap_y)))
  unfolding replicate
  same_worker-Fits m t path name n x y cw outer k e rec a b c d f =
      let (g, p, q, r) =
        column_step (replicate n (measure t)) (measure t) x y cw outer.h outer.w c f d in
      weaken (λ o. tt)
        (both (rec (own-Housed K t path _ e (outer, k, point-Within x y (measure t) outer a b g p)))
          (λ o. copies-Fits K m t _ path name 1 n x _ cw outer k a (omega arith) q d r))

  mutual
    unfolding place measure_as measure Ended row_box column_box replicate

    place-Fits :
        (m : FlowModel) (t : Tree) (path : String) (at : Position) (parent : Option String)
        (view : FarmView)
        → Ended t
        → Housed K parent at (measure_as t view)
        → FitsIn K Unit (place m t path at parent view)
    place-Fits m start path at parent view e h = weaken (λ p. tt) (push-Placed path _ at parent _ h)
    place-Fits m (ref id) path at parent view e h =
        weaken (λ p. tt) (push-Placed path _ at parent _ h)
    place-Fits m (inline s) path at parent view e h =
        weaken (λ p. tt) (push-Placed path _ at parent _ h)
    place-Fits m (comb a b) path at parent view e h =
        weaken (λ p. tt) (push-Placed path _ at parent _ h)
    place-Fits m (pipeline nil) path at parent view e h =
        weaken (λ p. tt) (both (push-Placed path _ at parent _ h) (λ p. nothing_drawn tt))
    place-Fits m (pipeline (cons t ts)) path at parent view e h =
        weaken (λ p. tt)
          (both (push-Placed path _ at parent _ h) (λ p.
            row-Fits m (cons t ts) path 0 group_pad
              ((measure (pipeline (cons t ts))).h - content_top - group_pad) none
              (measure (pipeline (cons t ts))) p e (omega arith) (omega arith) (omega arith)
              (omega arith)))
    place-Fits m (feedback t name) path at parent view e h =
        weaken (λ p. tt)
          (both (push-Placed path _ at parent _ h) (λ p.
            both
              (place-Fits m t _ _ (some path) plain e.1 (
                own-Housed K t path _ e.0 (
                  measure (feedback t name),
                  p,
                  point-Within group_pad content_top (measure t) (measure (feedback t name))
                      (omega arith) (omega arith) (omega arith) (omega arith),
                )))
              (λ q. link-Placed _ _ EdgeKind.loop _ (tt, tt))))
    place-Fits m (farm w n (options s e c k)) path at parent view d h =
        let f = farm w n (options s e c k) in
        let outer = measure_as f view in
        let col = column_box (worker_boxes w view.reps) in
        let content = max col.h end_h in
        let x = group_pad + end_room view.show_emitter in
        let (l, r) = end_fits view.show_emitter view.show_collector col.w in
        let (u, v) = centred_lem content_top content col.h (omega arith) in
        weaken (λ p. tt)
          (both (push-Placed path _ at parent _ h) (λ p.
            both
              (end_card-Fits K m view.show_emitter emitter e path _ _ group_pad content outer p
                (omega arith) l (omega arith) (omega arith))
              (λ a.
                both
                  (worker-Fits m w path _ view.reps x _ col.w outer p d (omega arith) u
                    (omega arith) (omega arith) (omega arith))
                  (λ b.
                    both
                      (end_card-Fits K m view.show_collector collector c path _ _
                        (x + col.w + gap_in) content outer p (omega arith) r (omega arith)
                        (omega arith))
                      (λ d. farm_links-Fits K _ _ _)))))
    place-Fits m (all2all l r x y merge) path at parent view e h =
        let t = all2all l r x y merge in
        let outer = measure_as t view in
        let l_box = measure_as l (view_of l left) in
        let r_box = measure_as r (view_of r right) in
        let middle = middle_of x y merge in
        let parts = parts_box l_box r_box middle in
        let right_x = group_pad + l_box.w + gap_in + middle_w middle in
        let (a, b) = centred_lem content_top parts.h l_box.h (omega arith) in
        let (c, d) = centred_lem content_top parts.h r_box.h (omega arith) in
        weaken (λ p. tt)
          (both (push-Placed path _ at parent _ h) (λ p.
            both
              (place-Fits m l _ _ (some path) (view_of l left) e.0 (
                outer,
                p,
                point-Within group_pad _ l_box outer (omega arith) a (omega arith) (omega arith),
              ))
              (λ q.
                both
                  (place-Fits m r _ _ (some path) (view_of r right) e.1 (
                    outer,
                    p,
                    point-Within right_x _ r_box outer (omega arith) c (omega arith) (omega arith),
                  ))
                  (λ o.
                    place_middle-Fits K m middle x path _ _ (group_pad + l_box.w + gap_in) parts.h
                      outer p (omega arith) (omega arith) (omega arith) (omega arith)))))

    row-Fits :
        (m : FlowModel) (ts : Trees) (base : String) (i x room : ℕ) (previous : Option String)
        (outer : Box)
        → K base outer
        → AllEnded ts
        → group_pad ≤ x
        → highest (boxes ts) ≤ room
        → x + (total_w (boxes ts) + gap_in * length (boxes ts)) ≤ outer.w + 12
        → content_top + room + group_pad ≤ outer.h
        → FitsIn K Unit (place_row m ts base i x room previous)
    row-Fits m nil base i x room previous outer k e a b c d = nothing_drawn tt
    row-Fits m (cons t ts) base i x room previous outer k e a b c d =
        let (f, g, p, q) = row_step (boxes ts) (measure t) x room outer.w b c in
        let (u, v) = centred_lem content_top room ((measure t).h) f in
        weaken (λ r. tt)
          (both
            (place-Fits m t _ _ (some base) plain e.0.1 (
              own-Housed K t base _ e.0.0
                (outer, k, point-Within x _ (measure t) outer a u g (omega arith))))
            (λ r.
              both (row_link-Fits K previous _)
                (λ o. row-Fits m ts base (suc i) _ room (some _) outer k e.1 (omega arith) p q d)))

    worker-Fits :
        (m : FlowModel) (w : Worker) (path name : String) (n x y cw : ℕ) (outer : Box)
        → K path outer
        → WorkersEnded w
        → group_pad ≤ x
        → content_top ≤ y
        → widest (worker_boxes w n) ≤ cw
        → x + cw + group_pad ≤ outer.w
        → y + (total_h (worker_boxes w n) + gap_y * length (worker_boxes w n)) ≤ outer.h + 4
        → FitsIn K Unit (place_worker m w path name n x y)
    worker-Fits m (one t) path name zero x y cw outer k e a b c d f = nothing_drawn tt
    worker-Fits m (one t) path name (suc n) x y cw outer k e a b c d f =
        same_worker-Fits m t path name n x y cw outer k e.0
          (λ h. place-Fits m t _ _ (some path) plain e.1 h) a b c d f
    worker-Fits m (many nil) path name n x y cw outer k e a b c d f = throws
    worker-Fits m (many (cons t nil)) path name zero x y cw outer k e a b c d f = nothing_drawn tt
    worker-Fits m (many (cons t nil)) path name (suc n) x y cw outer k e a b c d f =
        same_worker-Fits m t path name n x y cw outer k e.0.0
          (λ h. place-Fits m t _ _ (some path) plain e.0.1 h) a b c d f
    worker-Fits m (many (cons t (cons u us))) path name n x y cw outer k e a b c d f =
        let (g, p, q, r) =
          column_step (boxes (cons u us)) (measure t) x y cw outer.h outer.w c f d in
        let (g2, p2, q2, r2) =
          column_step (boxes us) (measure u) x (y + ((measure t).h + gap_y)) cw outer.h outer.w q r
            d in
        weaken (λ o. tt)
          (both
            (place-Fits m t _ _ (some path) plain e.0.1
              (own-Housed K t path _ e.0.0 (outer, k, point-Within x y (measure t) outer a b g p)))
            (λ o.
              both
                (place-Fits m u _ _ (some path) plain e.1.0.1 (
                  own-Housed K u path _ e.1.0.0
                    (outer, k, point-Within x _ (measure u) outer a (omega arith) g2 p2)))
                (λ o. column-Fits m us path 2 x _ cw outer k e.1.1 a (omega arith) q2 d r2)))

    column-Fits :
        (m : FlowModel) (ts : Trees) (path : String) (i x y cw : ℕ) (outer : Box)
        → K path outer
        → AllEnded ts
        → group_pad ≤ x
        → content_top ≤ y
        → widest (boxes ts) ≤ cw
        → x + cw + group_pad ≤ outer.w
        → y + (total_h (boxes ts) + gap_y * length (boxes ts)) ≤ outer.h + 4
        → FitsIn K Unit (place_column m ts path i x y)
    column-Fits m nil path i x y cw outer k e a b c d f = nothing_drawn tt
    column-Fits m (cons t ts) path i x y cw outer k e a b c d f =
        let (g, p, q, r) = column_step (boxes ts) (measure t) x y cw outer.h outer.w c f d in
        weaken (λ o. tt)
          (both
            (place-Fits m t _ _ (some path) plain e.0.1
              (own-Housed K t path _ e.0.0 (outer, k, point-Within x y (measure t) outer a b g p)))
            (λ o. column-Fits m ts path (suc i) x _ cw outer k e.1 a (omega arith) q d r))

  build_row-Fits :
      (m : FlowModel) (ps : Positions) (i : ℕ) (ts : Trees) (previous : Option String)
      → StagesEnded ts
      → FitsIn K Unit (build_row m ps i ts previous)
  unfolding build_row StagesEnded
  build_row-Fits m ps i nil previous e = nothing_drawn tt
  build_row-Fits m ps i (cons t ts) previous e =
      weaken (λ p. tt)
        (both (place-Fits m t _ _ none plain e.0 tt) (λ p.
          both (row_link-Fits K previous _) (λ q. build_row-Fits m ps (suc i) ts (some _) e.1)))

  build_tree-Fits :
      (m : FlowModel) (ps : Positions) (t : Tree) → TopEnded t → FitsIn K Unit (build_tree m ps t)
  unfolding TopEnded
  build_tree-Fits m ps (pipeline ts) e = build_row-Fits m ps 0 ts none e
  build_tree-Fits m ps start e = place-Fits m start _ _ none plain e tt
  build_tree-Fits m ps (ref id) e = place-Fits m (ref id) _ _ none plain e tt
  build_tree-Fits m ps (inline s) e = place-Fits m (inline s) _ _ none plain e tt
  build_tree-Fits m ps (comb a b) e = place-Fits m (comb a b) _ _ none plain e tt
  build_tree-Fits m ps (farm w n o) e = place-Fits m (farm w n o) _ _ none plain e tt
  build_tree-Fits m ps (feedback t name) e = place-Fits m (feedback t name) _ _ none plain e tt
  build_tree-Fits m ps (all2all l r x y b) e = place-Fits m (all2all l r x y b) _ _ none plain e tt

-- A node that is drawn has this id and this size.
abbrev pub Drawn : Drawing → String → Box → Type 0
Drawn d id size = (n : CanvasNode) × Member n d.nodes × (n.id ≡ id) × (size_of n ≡ size)

nodes-Drawn :
    (ns : List CanvasNode)
    → All
        (λ (n : CanvasNode).
          (k : CanvasNode) × Member k ns × (k.id ≡ n.id) × (size_of k ≡ size_of n))
        ns
nodes-Drawn [] = tt
nodes-Drawn (n ∷ ns) =
    ((n, here, refl, refl), All-mono _ _ ns (λ k h. (h.0, there h.1, h.2, h.3)) (nodes-Drawn ns))

-- What is drawn in a container lies inside its paddings and below its header, provided that every
-- farm in a container that is not a side of an all-to-all has both of its ends.
pub build_graph-Within :
    (m : FlowModel) (ps : Positions) (d : Drawing)
    → TopEnded m.flow
    → build_graph m ps ≡ some d
    → All (λ n. Housed (Drawn d) n.parent_id n.position (size_of n)) d.nodes
unfolding build_graph
build_graph-Within m ps d h e =
    let used =
      subst
        (PlacedIn (λ n. Drawn d n.id (size_of n))
          (λ n. Housed (Drawn d) n.parent_id n.position (size_of n)) (λ e. Unit × Unit) Unit)
        e ((build_tree-Fits (Drawn d) m ps m.flow h).placed) (nodes-Drawn d.nodes) in
    used.0.0
