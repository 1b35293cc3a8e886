-- ===== src/Editor/Canvas/Known.antt =====
-- web/src/editor/buildGraph.ts: what each piece of the drawing names is known, piece by piece.
use tolquane.Base.{ℕ, zero, suc, String, Bool, true, false, Option, none, some, List, map, All}
use tolquane.Model.Types.{Tree, MaybeTree, Slot, FlowModel}
use tolquane.Editor.Canvas.Nodes.{Drawing, Role}
use tolquane.Editor.Canvas.Place.{copies, end_id, end_card, copy_ids, shown_id, place_middle}
use tolquane.Editor.Canvas.Links.{ParentIn, links_from-Placed, links_to-Placed, all_links-Placed}
use tolquane.Editor.Canvas.Pieces.{Placed, both, weaken, nothing_drawn, push-Placed}

abbrev pub node_ids : Drawing → List String
node_ids d = map (λ n. n.id) d.nodes

abbrev pub Uses : (String → Type 0) → Drawing → Type 0
Uses K d = All (λ n. ParentIn K n.parent_id) d.nodes × All (λ e. K e.source × K e.target) d.edges

module _ (K : String → Type 0) where
  abbrev pub KnownIn : Type 0 → Option Drawing → Type 0
  KnownIn P o =
      Placed (λ n. K n.id) (λ n. ParentIn K n.parent_id) (λ e. K e.source × K e.target) P o

  pub copies-Placed :
      (m : FlowModel) (t : Tree) (w parent name : String) (i n x y : ℕ)
      → K parent
      → KnownIn (All K (copy_ids w i n)) (copies m t w parent name i n x y)
  unfolding copies copy_ids
  copies-Placed m t w parent name i zero x y h = nothing_drawn tt
  copies-Placed m t w parent name i (suc n) x y h =
      both (push-Placed _ _ _ (some parent) _ h)
        (λ p. copies-Placed m t w parent name (suc i) n x _ h)

  pub end_card-Placed :
      (m : FlowModel) (shown : Bool) (role : Role) (s : Slot) (path name label : String) (x c : ℕ)
      → K path
      → KnownIn
          (ParentIn K (shown_id shown (end_id role s path)))
          (end_card m shown role s path name label x c)
  unfolding end_card
  end_card-Placed m false role s path name label x c h = nothing_drawn tt
  end_card-Placed m true role s path name label x c h = push-Placed _ _ _ (some path) _ h

  pub place_middle-Placed :
      (m : FlowModel) (middle : Option Tree) (r : MaybeTree) (path : String) (ss ts : List String)
      (x y : ℕ)
      → K path
      → All K ss
      → All K ts
      → KnownIn Unit (place_middle m middle r path ss ts x y)
  unfolding place_middle
  place_middle-Placed m none r path ss ts x y h k l = all_links-Placed K ss ts k l
  place_middle-Placed m (some t) r path ss ts x y h k l =
      weaken (λ p. tt)
        (both (push-Placed _ _ _ (some path) _ h)
          (λ p. both (links_to-Placed K ss _ k p) (λ q. links_from-Placed K _ ts p l)))
