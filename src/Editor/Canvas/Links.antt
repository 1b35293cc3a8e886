-- ===== src/Editor/Canvas/Links.antt =====
-- web/src/editor/buildGraph.ts: the edges that join what is known.
use tolquane.Base.{String, Option, none, some, List, [], ◌∷◌, All}
use tolquane.Editor.Canvas.Nodes.{CanvasNode, EdgeKind}
use tolquane.Editor.Canvas.Place.{
  row_link, in_link, out_link, farm_links, links_from, links_to, all_links,
}
use tolquane.Editor.Canvas.Pieces.{Placed, both, weaken, nothing_drawn, link-Placed}

-- A parent, when the node has one, is such an id.
abbrev pub ParentIn : (String → Type 0) → Option String → Type 0
ParentIn K none = Unit
ParentIn K (some p) = K p

module _ {G U : CanvasNode → Type 0} (K : String → Type 0) where
  pub row_link-Placed :
      (previous : Option String) (path : String)
      → ParentIn K previous
      → K path
      → Placed G U (λ e. K e.source × K e.target) Unit (row_link previous path)
  row_link-Placed none path h k = nothing_drawn tt
  row_link-Placed (some p) path h k = link-Placed p path EdgeKind.flow 0 (h, k)

  pub farm_links-Placed :
      (e c : Option String) (ws : List String)
      → ParentIn K e
      → ParentIn K c
      → All K ws
      → Placed G U (λ e. K e.source × K e.target) Unit (farm_links e c ws)
  unfolding farm_links
  farm_links-Placed e c [] h k l = nothing_drawn tt
  farm_links-Placed e c (w ∷ ws) h k l =
      weaken (λ p. tt)
        (both (into e h) (λ p. both (out c k) (λ q. farm_links-Placed e c ws h k l.1)))
    where
      into :
          (e : Option String)
          → ParentIn K e
          → Placed G U (λ e. K e.source × K e.target) Unit (in_link e w)
      into none h = nothing_drawn tt
      into (some e) h = link-Placed e w EdgeKind.farm 0 (h, l.0)

      out :
          (c : Option String)
          → ParentIn K c
          → Placed G U (λ e. K e.source × K e.target) Unit (out_link c w)
      out none h = nothing_drawn tt
      out (some c) h = link-Placed w c EdgeKind.farm 0 (l.0, h)

  pub links_from-Placed :
      (s : String) (ts : List String)
      → K s
      → All K ts
      → Placed G U (λ e. K e.source × K e.target) Unit (links_from s ts)
  unfolding links_from
  links_from-Placed s [] h k = nothing_drawn tt
  links_from-Placed s (t ∷ ts) h k =
      weaken (λ p. tt)
        (both (link-Placed s t EdgeKind.cross 0 (h, k.0)) (λ p. links_from-Placed s ts h k.1))

  pub links_to-Placed :
      (ss : List String) (t : String)
      → All K ss
      → K t
      → Placed G U (λ e. K e.source × K e.target) Unit (links_to ss t)
  unfolding links_to
  links_to-Placed [] t h k = nothing_drawn tt
  links_to-Placed (s ∷ ss) t h k =
      weaken (λ p. tt)
        (both (link-Placed s t EdgeKind.cross 0 (h.0, k)) (λ p. links_to-Placed ss t h.1 k))

  pub all_links-Placed :
      (ss ts : List String)
      → All K ss
      → All K ts
      → Placed G U (λ e. K e.source × K e.target) Unit (all_links ss ts)
  unfolding all_links
  all_links-Placed [] ts h k = nothing_drawn tt
  all_links-Placed (s ∷ ss) ts h k =
      weaken (λ p. tt) (both (links_from-Placed s ts h.0 k) (λ p. all_links-Placed ss ts h.1 k))
