-- ===== src/Run/Keys/Known/Added.antt =====
-- web/src/run/keys.ts: what one more alias of a card or of an edge keeps.
use text.Mathlib.Text.{◌==◌}
use tolquane.Base.{
  String, Bool, true, false, ◌&&◌, List, [], ◌∷◌, map, keep, if_cases, Member, here, there, All,
  ◌≡◌, refl,
}
use tolquane.Run.Keys.{RunEdge, Index, put_key, includes, names_for}
use tolquane.Run.Keys.Aliases.{RunAliases, is_empty, add_nodes, put_edges, add_edges}
use tolquane.Run.Keys.Known.{put_key-All}

module _ (P : String → Type 0) (index : Index) where
  -- The key is one that the run does not answer itself, and it stands for names of the run.
  pub record Alias (m : String × List String) : Type 0 where
    pub unanswered : names_for index m.0 ≡ []
    pub filled : is_empty m.1 ≡ false
    pub names : All P m.1

  -- A key stands for keys of edges of the run.
  pub record EdgeKeys (keys : List String) : Type 0 where
    pub filled : is_empty keys ≡ false
    pub known : All (λ k. Member k (map (λ (e : RunEdge). e.key) index.edges)) keys

  pub record Fine (out : RunAliases) : Type 0 where
    pub nodes : All Alias out.nodes
    pub edges : All (λ (m : String × List String). EdgeKeys m.1) out.edges

  put_node-All :
      (k n : String) (ns : List String) (ms : List (String × List String))
      → names_for index k ≡ []
      → All P (n ∷ ns)
      → All Alias ms
      → All Alias (put_key k (n ∷ ns) ms)
  unfolding put_key
  put_node-All k n ns [] e h hs = (record { unanswered = e; filled = refl; names = h }, tt)
  put_node-All k n ns ((j, b) ∷ ms) e h hs =
      if_cases (All Alias) (j == k)
        (λ q. (record { unanswered = hs.0.unanswered; filled = refl; names = h }, hs.1))
        (λ q. (hs.0, put_node-All k n ns ms e h hs.1))

  is_empty_lem : (xs : List String) → is_empty xs ≡ true → xs ≡ []
  is_empty_lem [] h = refl
  is_empty_lem (x ∷ xs) h = absurd (cc)

  pub add_nodes-Fine :
      (k : String) (names : List String) (out : RunAliases)
      → All P names
      → Fine out
      → Fine (add_nodes index k names out)
  unfolding add_nodes
  add_nodes-Fine k [] out h f = f
  add_nodes-Fine k (n ∷ ns) out h f =
      if_cases Fine (is_empty (names_for index k))
        (λ e. record {
          nodes = put_node-All k n ns out.nodes (is_empty_lem (names_for index k) e) h f.nodes;
          edges = f.edges;
        })
        (λ e. f)

  pub put_edges-Fine :
      (k : String) (keys : List String) (out : RunAliases)
      → All (λ k. Member k (map (λ (e : RunEdge). e.key) index.edges)) keys
      → Fine out
      → Fine (put_edges index k keys out)
  put_edges-Fine k [] out h f = f
  put_edges-Fine k (r ∷ rs) out h f = record {
    nodes = f.nodes;
    edges = put_key-All EdgeKeys k (r ∷ rs) out.edges (record { filled = refl; known = h }) f.edges;
  }

  pub keys-All :
      (p : RunEdge → Bool) (es : List RunEdge)
      → All
          (λ k. Member k (map (λ (e : RunEdge). e.key) es))
          (map (λ (e : RunEdge). e.key) (keep p es))
  keys-All p es = go es es (λ k m. m)
    where
      go :
          (es fs : List RunEdge)
          → ((k : String)
              → Member k (map (λ (e : RunEdge). e.key) fs)
              → Member k (map (λ (e : RunEdge). e.key) es))
          → All
              (λ k. Member k (map (λ (e : RunEdge). e.key) es))
              (map (λ (e : RunEdge). e.key) (keep p fs))
      go es [] h = tt
      go es (e ∷ fs) h =
          if_cases
            (λ (xs : List RunEdge).
              All (λ k. Member k (map (λ (e : RunEdge). e.key) es))
                (map (λ (e : RunEdge). e.key) xs))
            (p e) (λ q. (h e.key here, go es fs (λ k m. h k (there m))))
            (λ q. go es fs (λ k m. h k (there m)))

  pub add_edges-Fine :
      (k : String) (from to : List String) (out : RunAliases)
      → Fine out
      → Fine (add_edges index k from to out)
  unfolding add_edges
  add_edges-Fine k [] to out f = f
  add_edges-Fine k (x ∷ xs) [] out f = f
  add_edges-Fine k (x ∷ xs) (t ∷ ts) out f =
      put_edges-Fine k _ out
        (keys-All (λ e. includes e.src (x ∷ xs) && includes e.dst (t ∷ ts)) index.edges) f
