-- ===== src/Editor/Canvas/Ends.antt =====
-- web/src/editor/buildGraph.ts: the parents and the ends that the drawing names are nodes of it.
use tolquane.Base.{
  ℕ, zero, suc, String, false, Option, none, some, List, [], ◌∷◌, ◌≡◌, refl, subst, map, All,
  All-mono, Member, here, there,
}
use tolquane.Model.Types.{
  Tree, start, ref, inline, pipeline, farm, comb, feedback, all2all, Trees, nil, cons, Worker, one,
  many, options, FlowModel,
}
use tolquane.Model.Tree.{join_path}
use tolquane.Model.Layout.{Position, Positions}
use tolquane.Editor.Canvas.{FarmView, plain, Side, left, right, view_of}
use tolquane.Editor.Canvas.Nodes.{CanvasNode, EdgeKind, Drawing, emitter, collector}
use tolquane.Editor.Canvas.Place.{single_ids, column_ids, worker_ids, farm_ends, ends_of_side}
use tolquane.Editor.Canvas.Build.{
  place, place_row, place_worker, place_column, build_row, build_tree, build_graph,
}
use tolquane.Editor.Canvas.Links.{ParentIn, row_link-Placed, farm_links-Placed}
use tolquane.Editor.Canvas.Pieces.{
  PlacedIn, both, weaken, nothing_drawn, throws, push-Placed, link-Placed,
}
use tolquane.Editor.Canvas.Known.{
  node_ids, Uses, KnownIn, copies-Placed, end_card-Placed, place_middle-Placed,
}

-- The cards of a farm's workers.
unfoldable inner_ids : Tree → String → FarmView → List String
inner_ids (farm w n o) path view = worker_ids w path view.reps
inner_ids t path view = []

module _ (K : String → Type 0) where
  abbrev FreeOf : Side → FarmView → Type 0
  FreeOf left view = view.show_collector ≡ false
  FreeOf right view = view.show_emitter ≡ false

  -- An all-to-all sees a side of it without the end that would be in the way, so that its edges
  -- meet the workers.
  farm_ends-Known :
      (w : Worker) (path : String) (view : FarmView) (side : Side)
      → FreeOf side view
      → All K (worker_ids w path view.reps)
      → All K (farm_ends w path view side)
  unfolding farm_ends worker_ids
  farm_ends-Known (many (cons t (cons u us))) path view side e h = h
  farm_ends-Known (many (cons t nil)) path view left e h = rw e h
  farm_ends-Known (many nil) path view left e h = rw e h
  farm_ends-Known (one t) path view left e h = rw e h
  farm_ends-Known (many (cons t nil)) path view right e h = rw e h
  farm_ends-Known (many nil) path view right e h = rw e h
  farm_ends-Known (one t) path view right e h = rw e h

  ends-Known :
      (t : Tree) (path : String) (side : Side)
      → K path × All K (inner_ids t path (view_of t side))
      → All K (ends_of_side t path (view_of t side) side)
  unfolding ends_of_side view_of inner_ids
  ends-Known (farm w n (options s e c k)) path left (h, l) = farm_ends-Known w path _ left refl l
  ends-Known (farm w n (options s e c k)) path right (h, l) = farm_ends-Known w path _ right refl l
  ends-Known start path side (h, l) = (h, tt)
  ends-Known (ref id) path side (h, l) = (h, tt)
  ends-Known (inline s) path side (h, l) = (h, tt)
  ends-Known (pipeline ts) path side (h, l) = (h, tt)
  ends-Known (comb a b) path side (h, l) = (h, tt)
  ends-Known (feedback t name) path side (h, l) = (h, tt)
  ends-Known (all2all l r x y m) path side (h, k) = (h, tt)

  mutual
    unfolding place worker_ids single_ids column_ids inner_ids

    place-Placed :
        (m : FlowModel) (t : Tree) (path : String) (at : Position) (parent : Option String)
        (view : FarmView)
        → ParentIn K parent
        → KnownIn K (K path × All K (inner_ids t path view)) (place m t path at parent view)
    place-Placed m start path at parent view h =
        weaken (λ p. (p, tt)) (push-Placed path _ at parent _ h)
    place-Placed m (ref id) path at parent view h =
        weaken (λ p. (p, tt)) (push-Placed path _ at parent _ h)
    place-Placed m (inline s) path at parent view h =
        weaken (λ p. (p, tt)) (push-Placed path _ at parent _ h)
    place-Placed m (comb a b) path at parent view h =
        weaken (λ p. (p, tt)) (push-Placed path _ at parent _ h)
    place-Placed m (pipeline ts) path at parent view h =
        weaken (λ p. (p.0, tt))
          (both (push-Placed path _ at parent _ h) (λ p. row-Placed m ts path 0 _ _ none p tt))
    place-Placed m (feedback t name) path at parent view h =
        weaken (λ p. (p.0, tt))
          (both (push-Placed path _ at parent _ h) (λ p.
            both (place-Placed m t _ _ (some path) plain p)
              (λ q. link-Placed _ _ EdgeKind.loop _ (q.0, q.0))))
    place-Placed m (farm w n (options s e c k)) path at parent view h =
        weaken (λ p. (p.0, p.1.1.0))
          (both (push-Placed path _ at parent _ h) (λ p.
            both (end_card-Placed K m view.show_emitter emitter e path _ _ _ _ p) (λ a.
              both (worker-Placed m w path _ view.reps _ _ p) (λ b.
                both (end_card-Placed K m view.show_collector collector c path _ _ _ _ p)
                  (λ d. farm_links-Placed K _ _ _ a d b)))))
    place-Placed m (all2all l r x y merge) path at parent view h =
        weaken (λ p. (p.0, tt))
          (both (push-Placed path _ at parent _ h) (λ p.
            both (place-Placed m l _ _ (some path) (view_of l left) p) (λ a.
              both (place-Placed m r _ _ (some path) (view_of r right) p) (λ b.
                place_middle-Placed K m _ x path _ _ _ _ p
                  (ends-Known l (join_path path "left") left a)
                  (ends-Known r (join_path path "right") right b)))))

    row-Placed :
        (m : FlowModel) (ts : Trees) (base : String) (i x room : ℕ) (previous : Option String)
        → K base
        → ParentIn K previous
        → KnownIn K Unit (place_row m ts base i x room previous)
    row-Placed m nil base i x room previous h k = nothing_drawn tt
    row-Placed m (cons t ts) base i x room previous h k =
        weaken (λ p. tt)
          (both (place-Placed m t _ _ (some base) plain h) (λ p.
            both (row_link-Placed K previous _ k p.0)
              (λ q. row-Placed m ts base (suc i) _ room (some _) h p.0)))

    worker-Placed :
        (m : FlowModel) (w : Worker) (path name : String) (n x y : ℕ)
        → K path
        → KnownIn K (All K (worker_ids w path n)) (place_worker m w path name n x y)
    worker-Placed m (one t) path name zero x y h = nothing_drawn tt
    worker-Placed m (one t) path name (suc n) x y h =
        weaken (λ p. (p.0.0, p.1))
          (both (place-Placed m t _ _ (some path) plain h)
            (λ p. copies-Placed K m t _ path name 1 n x _ h))
    worker-Placed m (many nil) path name n x y h = throws
    worker-Placed m (many (cons t nil)) path name zero x y h = nothing_drawn tt
    worker-Placed m (many (cons t nil)) path name (suc n) x y h =
        weaken (λ p. (p.0.0, p.1))
          (both (place-Placed m t _ _ (some path) plain h)
            (λ p. copies-Placed K m t _ path name 1 n x _ h))
    worker-Placed m (many (cons t (cons u us))) path name n x y h =
        weaken (λ p. (p.0.0, (p.1.0.0, p.1.1)))
          (both (place-Placed m t _ _ (some path) plain h) (λ p.
            both (place-Placed m u _ _ (some path) plain h) (λ q. column-Placed m us path 2 x _ h)))

    column-Placed :
        (m : FlowModel) (ts : Trees) (path : String) (i x y : ℕ)
        → K path
        → KnownIn K (All K (column_ids path i ts)) (place_column m ts path i x y)
    column-Placed m nil path i x y h = nothing_drawn tt
    column-Placed m (cons t ts) path i x y h =
        weaken (λ p. (p.0.0, p.1))
          (both (place-Placed m t _ _ (some path) plain h)
            (λ p. column-Placed m ts path (suc i) x _ h))

  build_row-Placed :
      (m : FlowModel) (ps : Positions) (i : ℕ) (ts : Trees) (previous : Option String)
      → ParentIn K previous
      → KnownIn K Unit (build_row m ps i ts previous)
  unfolding build_row
  build_row-Placed m ps i nil previous h = nothing_drawn tt
  build_row-Placed m ps i (cons t ts) previous h =
      weaken (λ p. tt)
        (both (place-Placed m t _ _ none plain tt) (λ p.
          both (row_link-Placed K previous _ h p.0)
            (λ q. build_row-Placed m ps (suc i) ts (some _) p.0)))

  build_tree-Placed :
      (m : FlowModel) (ps : Positions) (t : Tree) → KnownIn K Unit (build_tree m ps t)
  build_tree-Placed m ps (pipeline ts) = build_row-Placed m ps 0 ts none tt
  build_tree-Placed m ps start = weaken (λ p. tt) (place-Placed m start _ _ none plain tt)
  build_tree-Placed m ps (ref id) = weaken (λ p. tt) (place-Placed m (ref id) _ _ none plain tt)
  build_tree-Placed m ps (inline s) = weaken (λ p. tt) (place-Placed m (inline s) _ _ none plain tt)
  build_tree-Placed m ps (comb a b) = weaken (λ p. tt) (place-Placed m (comb a b) _ _ none plain tt)
  build_tree-Placed m ps (farm w n o) =
      weaken (λ p. tt) (place-Placed m (farm w n o) _ _ none plain tt)
  build_tree-Placed m ps (feedback t name) =
      weaken (λ p. tt) (place-Placed m (feedback t name) _ _ none plain tt)
  build_tree-Placed m ps (all2all l r x y b) =
      weaken (λ p. tt) (place-Placed m (all2all l r x y b) _ _ none plain tt)

ids-Member : (ns : List CanvasNode) → All (λ n. Member n.id (map (λ (k : CanvasNode). k.id) ns)) ns
ids-Member [] = tt
ids-Member (n ∷ ns) = (here, All-mono _ _ ns (λ k m. there m) (ids-Member ns))

-- The nodes and the edges of the canvas name each other: the parent of each node, if it has one, and
-- both ends of each edge are ids of nodes that are drawn.
pub build_graph-Uses :
    (m : FlowModel) (ps : Positions) (d : Drawing)
    → build_graph m ps ≡ some d
    → Uses (λ id. Member id (node_ids d)) d
unfolding build_graph
build_graph-Uses m ps d e =
    let known : String → Type 0 = λ id. Member id (node_ids d) in
    let used =
      subst
        (PlacedIn (λ n. known n.id) (λ n. ParentIn known n.parent_id)
          (λ e. known e.source × known e.target) Unit)
        e ((build_tree-Placed known m ps m.flow).placed) (ids-Member d.nodes) in
    used.0
