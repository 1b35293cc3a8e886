-- ===== src/Editor/Canvas/Total.antt =====
-- web/src/editor/buildGraph.ts: which flows are drawn, and why the halves are whole pixels.
use tolquane.Base.{
  ℕ, zero, suc, String, Bool, true, false, ◌&&◌, Option, none, some, List, [], ◌∷◌, ◌<◌, ℤ, pos,
  negsuc, ◌≡◌, refl, is_some, arith,
}
use tolquane.Model.Types.{
  Tree, start, ref, inline, pipeline, farm, comb, feedback, all2all, Trees, nil, cons, Worker, one,
  many, MaybeTree, Slot, options, FlowModel,
}
use tolquane.Model.Layout.{Position, Positions}
use tolquane.Editor.Geometry.{Box, reps}
use tolquane.Editor.Canvas.{FarmView, plain, Side, left, right, view_of}
use tolquane.Editor.Canvas.Nodes.{Role, EdgeKind, CanvasNodeData, Drawing, ◌<+>◌, push, link}
use tolquane.Editor.Canvas.Place.{
  row_link, copies, end_card, in_link, out_link, farm_links, links_from, links_to, all_links,
  place_middle,
}
use tolquane.Editor.Canvas.Build.{
  place, place_row, place_worker, place_column, build_row, build_tree, build_graph,
}

-- Every farm that the drawing comes to has a worker.
unfoldable mutual
  pub has_workers : Tree → Bool
  has_workers (pipeline ts) = all_workers ts
  has_workers (farm w n o) = farm_workers w
  has_workers (feedback t name) = has_workers t
  has_workers (all2all l r x y m) = has_workers l && has_workers r
  has_workers _ = true

  pub all_workers : Trees → Bool
  all_workers nil = true
  all_workers (cons t ts) = has_workers t && all_workers ts

  pub farm_workers : Worker → Bool
  farm_workers (one t) = has_workers t
  farm_workers (many nil) = false
  farm_workers (many (cons t nil)) = has_workers t
  farm_workers (many (cons t (cons u us))) = has_workers t && (has_workers u && all_workers us)

record Draws (o : Option Drawing) (b : Bool) : Type 0 where
  drawn : is_some o ≡ b

both_draw : {p q : Bool} {a b : Option Drawing} → Draws a p → Draws b q → Draws (a <+> b) (p && q)
unfolding ◌<+>◌
both_draw {p = p} {q = q} {a = a} {b = b} h k = record { drawn = go a b p h.drawn k.drawn }
  where
    go :
        (a b : Option Drawing) (p : Bool)
        → is_some a ≡ p
        → is_some b ≡ q
        → is_some (a <+> b) ≡ p && q
    go none b false h k = refl
    go none b true h k = absurd (cc)
    go (some a) b false h k = absurd (cc)
    go (some a) none true h k = k
    go (some a) (some b) true h k = k

keep_first : {p : Bool} {a b : Option Drawing} → Draws a p → Draws b true → Draws (a <+> b) p
unfolding ◌<+>◌
keep_first {p = p} {a = a} {b = b} h k = record { drawn = go a b p h.drawn k.drawn }
  where
    go :
        (a b : Option Drawing) (p : Bool) → is_some a ≡ p → is_some b ≡ true → is_some (a <+> b) ≡ p
    go none b p h k = h
    go (some a) none p h k = absurd (cc)
    go (some a) (some b) p h k = h

always : {o : Option Drawing} → is_some o ≡ true → Draws o true
always h = record { drawn = h }

copies-Draws :
    (m : FlowModel) (t : Tree) (w parent name : String) (i n x y : ℕ)
    → Draws (copies m t w parent name i n x y) true
unfolding copies push
copies-Draws m t w parent name i zero x y = always refl
copies-Draws m t w parent name i (suc n) x y =
    both_draw (always refl) (copies-Draws m t w parent name (suc i) n x _)

end_card-Draws :
    (m : FlowModel) (shown : Bool) (role : Role) (s : Slot) (path name label : String)
    (x content : ℕ)
    → Draws (end_card m shown role s path name label x content) true
unfolding end_card push
end_card-Draws m false role s path name label x content = always refl
end_card-Draws m true role s path name label x content = always refl

row_link-Draws : (p : Option String) (path : String) → Draws (row_link p path) true
unfolding link
row_link-Draws none path = always refl
row_link-Draws (some p) path = always refl

farm_links-Draws : (e c : Option String) (ws : List String) → Draws (farm_links e c ws) true
unfolding farm_links link
farm_links-Draws e c [] = always refl
farm_links-Draws e c (w ∷ ws) = both_draw (into e) (both_draw (out c) (farm_links-Draws e c ws))
  where
    into : (e : Option String) → Draws (in_link e w) true
    into none = always refl
    into (some e) = always refl

    out : (c : Option String) → Draws (out_link c w) true
    out none = always refl
    out (some c) = always refl

links_from-Draws : (s : String) (ts : List String) → Draws (links_from s ts) true
unfolding links_from link
links_from-Draws s [] = always refl
links_from-Draws s (t ∷ ts) = both_draw (always refl) (links_from-Draws s ts)

links_to-Draws : (ss : List String) (t : String) → Draws (links_to ss t) true
unfolding links_to link
links_to-Draws [] t = always refl
links_to-Draws (s ∷ ss) t = both_draw (always refl) (links_to-Draws ss t)

all_links-Draws : (ss ts : List String) → Draws (all_links ss ts) true
unfolding all_links
all_links-Draws [] ts = always refl
all_links-Draws (s ∷ ss) ts = both_draw (links_from-Draws s ts) (all_links-Draws ss ts)

place_middle-Draws :
    (m : FlowModel) (middle : Option Tree) (r : MaybeTree) (path : String) (ss ts : List String)
    (x y : ℕ)
    → Draws (place_middle m middle r path ss ts x y) true
unfolding place_middle push
place_middle-Draws m none r path ss ts x y = all_links-Draws ss ts
place_middle-Draws m (some t) r path ss ts x y =
    both_draw (always refl) (both_draw (links_to-Draws ss _) (links_from-Draws _ ts))

push-Draws :
    (id : String) (size : Box) (at : Position) (parent : Option String) (d : CanvasNodeData)
    → Draws (push id size at parent d) true
unfolding push
push-Draws id size at parent d = always refl

link-Draws : (s t : String) (kind : EdgeKind) (dip : ℕ) → Draws (link s t kind dip) true
unfolding link
link-Draws s t kind dip = always refl

reps_pos : (n : ℤ) → 0 < reps n
unfolding reps
reps_pos (pos n) = omega arith
reps_pos (negsuc n) = omega arith

view_of-reps : (t : Tree) (side : Side) → 0 < (view_of t side).reps
unfolding view_of
view_of-reps (farm w n (options s e c k)) left = reps_pos n
view_of-reps (farm w n (options s e c k)) right = reps_pos n
view_of-reps start side = omega arith
view_of-reps (ref id) side = omega arith
view_of-reps (inline s) side = omega arith
view_of-reps (pipeline ts) side = omega arith
view_of-reps (comb a b) side = omega arith
view_of-reps (feedback t name) side = omega arith
view_of-reps (all2all l r x y m) side = omega arith

mutual
  unfolding place has_workers

  place-Draws :
      (m : FlowModel) (t : Tree) (path : String) (at : Position) (parent : Option String)
      (view : FarmView)
      → 0 < view.reps
      → Draws (place m t path at parent view) (has_workers t)
  place-Draws m start path at parent view z = push-Draws _ _ _ _ _
  place-Draws m (ref id) path at parent view z = push-Draws _ _ _ _ _
  place-Draws m (inline s) path at parent view z = push-Draws _ _ _ _ _
  place-Draws m (comb a b) path at parent view z = push-Draws _ _ _ _ _
  place-Draws m (pipeline ts) path at parent view z =
      both_draw (push-Draws _ _ _ _ _) (row-Draws m ts path 0 _ _ none)
  place-Draws m (feedback t name) path at parent view z =
      both_draw (push-Draws _ _ _ _ _)
        (keep_first (place-Draws m t _ _ _ plain (omega arith)) (link-Draws _ _ _ _))
  place-Draws m (farm w n (options s e c k)) path at parent view z =
      both_draw (push-Draws _ _ _ _ _) (
        both_draw (end_card-Draws m _ _ e path _ _ _ _) (
          keep_first (worker-Draws m w path _ view.reps _ _ z)
            (both_draw (end_card-Draws m _ _ c path _ _ _ _) (farm_links-Draws _ _ _))))
  place-Draws m (all2all l r x y merge) path at parent view z = both_draw (push-Draws _ _ _ _ _) (
      both_draw (place-Draws m l _ _ _ (view_of l left) (view_of-reps l left)) (
        keep_first (place-Draws m r _ _ _ (view_of r right) (view_of-reps r right))
          (place_middle-Draws m _ x path _ _ _ _)))

  row-Draws :
      (m : FlowModel) (ts : Trees) (base : String) (i x room : ℕ) (previous : Option String)
      → Draws (place_row m ts base i x room previous) (all_workers ts)
  row-Draws m nil base i x room previous = always refl
  row-Draws m (cons t ts) base i x room previous =
      both_draw (place-Draws m t _ _ _ plain (omega arith))
        (both_draw (row_link-Draws previous _) (row-Draws m ts base (suc i) _ room (some _)))

  worker-Draws :
      (m : FlowModel) (w : Worker) (path name : String) (n x y : ℕ)
      → 0 < n
      → Draws (place_worker m w path name n x y) (farm_workers w)
  worker-Draws m w path name zero x y z = absurd (omega arith)
  worker-Draws m (one t) path name (suc n) x y z =
      keep_first (place-Draws m t _ _ _ plain (omega arith)) (copies-Draws m t _ path name 1 n x _)
  worker-Draws m (many nil) path name (suc n) x y z = record { drawn = refl }
  worker-Draws m (many (cons t nil)) path name (suc n) x y z =
      keep_first (place-Draws m t _ _ _ plain (omega arith)) (copies-Draws m t _ path name 1 n x _)
  worker-Draws m (many (cons t (cons u us))) path name (suc n) x y z =
      both_draw (place-Draws m t _ _ _ plain (omega arith))
        (both_draw (place-Draws m u _ _ _ plain (omega arith)) (column-Draws m us path 2 x _))

  column-Draws :
      (m : FlowModel) (ts : Trees) (path : String) (i x y : ℕ)
      → Draws (place_column m ts path i x y) (all_workers ts)
  column-Draws m nil path i x y = always refl
  column-Draws m (cons t ts) path i x y =
      both_draw (place-Draws m t _ _ _ plain (omega arith)) (column-Draws m ts path (suc i) x _)

build_row-Draws :
    (m : FlowModel) (ps : Positions) (i : ℕ) (ts : Trees) (previous : Option String)
    → Draws (build_row m ps i ts previous) (all_workers ts)
unfolding build_row has_workers
build_row-Draws m ps i nil previous = always refl
build_row-Draws m ps i (cons t ts) previous =
    both_draw (place-Draws m t _ _ _ plain (omega arith))
      (both_draw (row_link-Draws previous _) (build_row-Draws m ps (suc i) ts (some _)))

build_tree-Draws :
    (m : FlowModel) (ps : Positions) (t : Tree) → Draws (build_tree m ps t) (has_workers t)
unfolding has_workers
build_tree-Draws m ps (pipeline ts) = build_row-Draws m ps 0 ts none
build_tree-Draws m ps start = place-Draws m start _ _ _ plain (omega arith)
build_tree-Draws m ps (ref id) = place-Draws m (ref id) _ _ _ plain (omega arith)
build_tree-Draws m ps (inline s) = place-Draws m (inline s) _ _ _ plain (omega arith)
build_tree-Draws m ps (comb a b) = place-Draws m (comb a b) _ _ _ plain (omega arith)
build_tree-Draws m ps (farm w n o) = place-Draws m (farm w n o) _ _ _ plain (omega arith)
build_tree-Draws m ps (feedback t name) = place-Draws m (feedback t name) _ _ _ plain (omega arith)
build_tree-Draws m ps (all2all l r x y b) =
    place-Draws m (all2all l r x y b) _ _ _ plain (omega arith)

-- The canvas is drawn exactly for the flows in which every farm, down to the containers that stand in
-- others, has a worker; for another flow the code throws.
pub build_graph-has_workers :
    (m : FlowModel) (ps : Positions) → is_some (build_graph m ps) ≡ has_workers m.flow
unfolding build_graph
build_graph-has_workers m ps = (build_tree-Draws m ps m.flow).drawn
