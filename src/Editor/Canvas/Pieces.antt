-- ===== src/Editor/Canvas/Pieces.antt =====
-- web/src/editor/buildGraph.ts: how what is true of the pieces of a drawing adds up. Each node that is
-- drawn makes something known; what is used must be known by the end.
use tolquane.Base.{ℕ, String, Option, none, some, All, All-append, All-of_append}
use tolquane.Model.Layout.{Position}
use tolquane.Editor.Geometry.{Box}
use tolquane.Editor.Canvas.Nodes.{
  CanvasNode, CanvasEdge, EdgeKind, CanvasNodeData, Drawing, blank, ◌<+>◌, node_of, edge_of, push,
  link,
}

-- If the drawing's nodes give what they give, then what its nodes and its edges use holds, and `P`.
module _ (G U : CanvasNode → Type 0) (E : CanvasEdge → Type 0) where
  abbrev pub PlacedIn : Type 0 → Option Drawing → Type 0
  PlacedIn P none = Unit
  PlacedIn P (some d) = All G d.nodes → (All U d.nodes × All E d.edges) × P

  pub record Placed (P : Type 0) (o : Option Drawing) : Type 0 where
    pub placed : PlacedIn P o

module _ {G U : CanvasNode → Type 0} {E : CanvasEdge → Type 0} where
  pub both :
      {P Q : Type 0} {a b : Option Drawing}
      → Placed G U E P a
      → (P → Placed G U E Q b)
      → Placed G U E (P × Q) (a <+> b)
  unfolding ◌<+>◌
  both {P = P} {Q = Q} {a = a} {b = b} f g = record { placed = go a b f.placed (λ p. (g p).placed) }
    where
      go :
          (a b : Option Drawing)
          → PlacedIn G U E P a
          → (P → PlacedIn G U E Q b)
          → PlacedIn G U E (P × Q) (a <+> b)
      go none b f g = tt
      go (some a) none f g = tt
      go (some a) (some b) f g = λ h.
          let (ha, hb) = All-of_append G a.nodes b.nodes h in
          let (ua, p) = f ha in
          let (ub, q) = g p hb in
          ((All-append U a.nodes b.nodes ua.0 ub.0, All-append E a.edges b.edges ua.1 ub.1), (p, q))

  pub weaken : {P Q : Type 0} {o : Option Drawing} → (P → Q) → Placed G U E P o → Placed G U E Q o
  weaken {P = P} {Q = Q} {o = o} f p = record { placed = go o p.placed }
    where
      go : (o : Option Drawing) → PlacedIn G U E P o → PlacedIn G U E Q o
      go none p = tt
      go (some d) p = λ h. let (u, r) = p h in (u, f r)

  pub nothing_drawn : {P : Type 0} → P → Placed G U E P (some blank)
  nothing_drawn p = record { placed = λ h. ((tt, tt), p) }

  pub throws : {P : Type 0} → Placed G U E P none
  throws = record { placed = tt }

  pub push-Placed :
      (id : String) (size : Box) (at : Position) (parent : Option String) (d : CanvasNodeData)
      → U (node_of id size at parent d)
      → Placed G U E (G (node_of id size at parent d)) (push id size at parent d)
  unfolding push
  push-Placed id size at parent d h = record { placed = λ k. (((h, tt), tt), k.0) }

  pub link-Placed :
      (s t : String) (kind : EdgeKind) (dip : ℕ)
      → E (edge_of s t kind dip)
      → Placed G U E Unit (link s t kind dip)
  unfolding link
  link-Placed s t kind dip h = record { placed = λ l. ((tt, (h, tt)), tt) }
