-- ===== src/Editor/Canvas/Room.antt =====
-- web/src/editor/buildGraph.ts: measuring and placing agree, so that what a container holds lies
-- inside it: the pieces.
use tolquane.Base.{
  ℕ, zero, suc, ◌+◌, ◌*◌, ◌≤◌, String, Bool, true, false, Option, none, some, List, [], ◌∷◌, ◌≡◌,
  refl, subst, length, arith, All,
}
use tolquane.Model.Types.{Tree, MaybeTree, Slot, FlowModel}
use tolquane.Model.Layout.{Position}
use tolquane.Editor.Geometry.{Box, box, gap_in, gap_y, group_pad, end_w, end_h, card_w, card_h}
use tolquane.Editor.Canvas.{
  plain, own_view, middle_w, middle_h, measure_as, measure, total_w, total_h, widest, highest,
  replicate,
}
use tolquane.Editor.Canvas.Nodes.{CanvasNode, EdgeKind, Drawing, Role, point}
use tolquane.Editor.Canvas.Place.{
  row_link, copies, centred, content_top, end_card, farm_links, place_middle,
}
use tolquane.Editor.Canvas.Links.{
  ParentIn, farm_links-Placed, links_from-Placed, links_to-Placed, all_links-Placed,
}
use tolquane.Editor.Canvas.Pieces.{Placed, both, weaken, nothing_drawn, push-Placed, link-Placed}

-- Inside the paddings of a container of this size, below its header.
abbrev pub Within : Position → Box → Box → Type 0
Within at size outer =
    (x : ℕ) × (y : ℕ) × (at ≡ point x y)
    × (group_pad ≤ x)
    × (content_top ≤ y)
    × (x + size.w + group_pad ≤ outer.w)
    × (y + size.h + group_pad ≤ outer.h)

-- Nothing is asked of a block that stands in no container.
abbrev pub Housed : (String → Box → Type 0) → Option String → Position → Box → Type 0
Housed K none at size = Unit
Housed K (some p) at size = (outer : Box) × K p outer × Within at size outer

abbrev pub size_of : CanvasNode → Box
size_of n = box n.width n.height

pub centred_lem :
    (top room h : ℕ) → h ≤ room → (top ≤ centred top room h) × (centred top room h + h ≤ top + room)
centred_lem top room h k = (omega arith, omega arith)

pub row_step :
    (bs : List Box) (b : Box) (x room width : ℕ)
    → highest (b ∷ bs) ≤ room
    → x + (total_w (b ∷ bs) + gap_in * length (b ∷ bs)) ≤ width + 12
    → (b.h ≤ room)
      × (x + b.w + group_pad ≤ width)
      × (highest bs ≤ room)
      × (x + (b.w + gap_in) + (total_w bs + gap_in * length bs) ≤ width + 12)
unfolding highest total_w
row_step bs b x room width h k = (omega arith, omega arith, omega arith, omega arith)

pub column_step :
    (bs : List Box) (b : Box) (x y cw height width : ℕ)
    → widest (b ∷ bs) ≤ cw
    → y + (total_h (b ∷ bs) + gap_y * length (b ∷ bs)) ≤ height + 4
    → x + cw + group_pad ≤ width
    → (x + b.w + group_pad ≤ width)
      × (y + b.h + group_pad ≤ height)
      × (widest bs ≤ cw)
      × (y + (b.h + gap_y) + (total_h bs + gap_y * length bs) ≤ height + 4)
unfolding widest total_h
column_step bs b x y cw height width h k l = (omega arith, omega arith, omega arith, omega arith)

pub point-Within :
    (x y : ℕ) (size outer : Box)
    → group_pad ≤ x
    → content_top ≤ y
    → x + size.w + group_pad ≤ outer.w
    → y + size.h + group_pad ≤ outer.h
    → Within (point x y) size outer
point-Within x y size outer a b c d = (x, y, refl, a, b, c, d)

module _ (K : String → Box → Type 0) where
  abbrev pub FitsIn : Type 0 → Option Drawing → Type 0
  FitsIn P o =
      Placed (λ n. K n.id (size_of n)) (λ n. Housed K n.parent_id n.position (size_of n))
        (λ e. Unit × Unit) P o

  -- A block drawn with both of its ends has the size that was measured.
  pub own-Housed :
      (t : Tree) (parent : String) (at : Position)
      → own_view t ≡ plain
      → Housed K (some parent) at (measure t)
      → Housed K (some parent) at (measure_as t plain)
  unfolding measure
  own-Housed t parent at e h = subst (λ v. Housed K (some parent) at (measure_as t v)) e h

  pub copies-Fits :
      (m : FlowModel) (t : Tree) (w parent name : String) (i n x y cw : ℕ) (outer : Box)
      → K parent outer
      → group_pad ≤ x
      → content_top ≤ y
      → widest (replicate n (measure t)) ≤ cw
      → x + cw + group_pad ≤ outer.w
      → y + (total_h (replicate n (measure t)) + gap_y * length (replicate n (measure t)))
        ≤ outer.h + 4
      → FitsIn Unit (copies m t w parent name i n x y)
  unfolding copies replicate
  copies-Fits m t w parent name i zero x y cw outer k a b c d e = nothing_drawn tt
  copies-Fits m t w parent name i (suc n) x y cw outer k a b c d e =
      let (f, g, p, q) =
        column_step (replicate n (measure t)) (measure t) x y cw outer.h outer.w c e d in
      weaken (λ r. tt)
        (both
          (push-Placed _ (measure t) (point x y) (some parent) _
            (outer, k, point-Within x y (measure t) outer a b f g))
          (λ r. copies-Fits m t w parent name (suc i) n x _ cw outer k a (omega arith) p d q))

  pub end_card-Fits :
      (m : FlowModel) (shown : Bool) (role : Role) (s : Slot) (path name label : String)
      (x content : ℕ) (outer : Box)
      → K path outer
      → group_pad ≤ x
      → (shown ≡ true → x + end_w + group_pad ≤ outer.w)
      → end_h ≤ content
      → content_top + content + group_pad ≤ outer.h
      → FitsIn Unit (end_card m shown role s path name label x content)
  unfolding end_card
  end_card-Fits m false role s path name label x content outer k a b c d = nothing_drawn tt
  end_card-Fits m true role s path name label x content outer k a b c d =
      let (f, g) = centred_lem content_top content end_h c in
      weaken (λ r. tt)
        (push-Placed _ (box end_w end_h) (point x (centred content_top content end_h)) (some path) _
          (outer, k, point-Within x _ (box end_w end_h) outer a f (b refl) (omega arith)))

  anything : (xs : List String) → All {0, 0} (λ s. Unit) xs
  anything [] = tt
  anything (x ∷ xs) = (tt, anything xs)

  pub farm_links-Fits : (e c : Option String) (ws : List String) → FitsIn Unit (farm_links e c ws)
  farm_links-Fits e c ws = farm_links-Placed (λ s. Unit) e c ws (known e) (known c) (anything ws)
    where
      known : (o : Option String) → ParentIn (λ s. Unit) o
      known none = tt
      known (some s) = tt

  pub row_link-Fits : (p : Option String) (path : String) → FitsIn Unit (row_link p path)
  row_link-Fits none path = nothing_drawn tt
  row_link-Fits (some p) path = link-Placed p path EdgeKind.flow 0 (tt, tt)

  pub place_middle-Fits :
      (m : FlowModel) (middle : Option Tree) (r : MaybeTree) (path : String) (ss ts : List String)
      (x room : ℕ) (outer : Box)
      → K path outer
      → group_pad ≤ x
      → x + middle_w middle ≤ outer.w
      → middle_h middle ≤ room
      → content_top + room + group_pad ≤ outer.h
      → FitsIn Unit (place_middle m middle r path ss ts x (centred content_top room card_h))
  unfolding place_middle
  place_middle-Fits m none r path ss ts x room outer k a b c d =
      all_links-Placed (λ s. Unit) ss ts (anything ss) (anything ts)
  place_middle-Fits m (some t) r path ss ts x room outer k a b c d =
      let (f, g) = centred_lem content_top room card_h c in
      weaken (λ q. tt)
        (both
          (push-Placed _ (box card_w card_h) (point x (centred content_top room card_h)) (some path)
            _
            (outer, k, point-Within x _ (box card_w card_h) outer a f (omega arith) (omega arith)))
          (λ q.
            both (links_to-Placed (λ s. Unit) ss _ (anything ss) tt)
              (λ v. links_from-Placed (λ s. Unit) _ ts tt (anything ts))))
