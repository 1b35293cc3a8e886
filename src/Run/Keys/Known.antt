-- ===== src/Run/Keys/Known.antt =====
-- web/src/run/keys.ts: the names of a block are names of the run.
pub mod Added
pub mod Safe
use Prim.Native.String
use text.Mathlib.Text.{◌==◌}
use tolquane.Base.{
  ℕ, zero, suc, String, ◌<>◌, Bool, true, false, Option, none, some, List, [], ◌∷◌, ◌++◌, any, keep,
  or_else, if◌then◌else◌, if_cases, All, All-append, ◌≡◌, refl, ap, sym, subst, ◌∙◌, ◌⊎◌, inl, inr,
  Member, here, there,
}
use tolquane.Model.Types.{
  Tree, start, ref, inline, pipeline, farm, comb, feedback, all2all, Trees, nil, cons, FlowModel,
  settings,
}
use tolquane.Model.Nodes.{block_title}
use tolquane.Run.Keys.{
  GraphNode, GraphEdge, GraphLoop, GraphView, Index, get_key, put_key, includes, add_name,
  index_names, add_group, index_groups, index_loops, index_graph, belongs, names_for, first_full,
  first_resolved, farm_candidates, loop_of, block_names, stage_names,
}

-- What holds of every member of a list holds of those that a test keeps.
pub All-keep {ℓ κ} :
    {A : Type ℓ} (P : A → Type κ) (p : A → Bool) (xs : List A) → All P xs → All P (keep p xs)
All-keep P p [] h = tt
All-keep P p (x ∷ xs) h =
    if_cases (All P) (p x) (λ e. (h.0, All-keep P p xs h.1)) (λ e. All-keep P p xs h.1)

module _ {ℓ κ} {A : Type ℓ} (P : A → Type κ) where
  pub put_key-All :
      (k : String) (a : A) (ms : List (String × A))
      → P a
      → All (λ m. P m.1) ms
      → All (λ m. P m.1) (put_key k a ms)
  unfolding put_key
  put_key-All k a [] h hs = (h, tt)
  put_key-All k a ((j, b) ∷ ms) h hs =
      if_cases (All (λ m. P m.1)) (j == k) (λ e. (h, hs.1)) (λ e. (hs.0, put_key-All k a ms h hs.1))

  -- What holds of the values of a map holds of the one at a key, and of a default.
  pub get_key-All :
      (k : String) (a : A) (ms : List (String × A))
      → P a
      → All (λ m. P m.1) ms
      → P (or_else (get_key k ms) a)
  unfolding get_key
  get_key-All k a [] h hs = h
  get_key-All k a ((j, b) ∷ ms) h hs =
      if_cases (λ o. P (or_else o a)) (j == k) (λ e. hs.0) (λ e. get_key-All k a ms h hs.1)

-- The names of an index that all are of one kind.
module _ (P : String → Type 0) where
  pub record Names (index : Index) : Type 0 where
    pub names : All P index.names
    pub groups : All (λ m. All P m.1) index.groups
    pub loops : All (λ m. All P m.1) index.loops

  index_names-All :
      (ns : List GraphNode) (names : List String)
      → All (λ (n : GraphNode). P n.name) ns
      → All P names
      → All P (index_names ns names)
  unfolding index_names
  index_names-All [] names h k = k
  index_names-All (n ∷ ns) names h k =
      index_names-All ns (add_name n.name names) h.1
        (if_cases (All P) (includes n.name names) (λ e. k) (λ e. All-append P names _ k (h.0, tt)))

  add_group-All :
      (group : Option String) (name : String) (groups : List (String × List String))
      → P name
      → All (λ m. All P m.1) groups
      → All (λ m. All P m.1) (add_group group name groups)
  add_group-All none name groups h k = k
  add_group-All (some g) name groups h k =
      if_cases (All (λ (m : String × List String). All P m.1)) (g == "") (λ e. k)
        (λ e.
          put_key-All (All P) g _ groups
            (All-append P (or_else (get_key g groups) []) _ (get_key-All (All P) g [] groups tt k)
              (h, tt))
            k)

  index_groups-All :
      (ns : List GraphNode) (groups : List (String × List String))
      → All (λ (n : GraphNode). P n.name) ns
      → All (λ m. All P m.1) groups
      → All (λ m. All P m.1) (index_groups ns groups)
  unfolding index_groups
  index_groups-All [] groups h k = k
  index_groups-All (n ∷ ns) groups h k =
      index_groups-All ns (add_group n.group n.name groups) h.1
        (add_group-All n.group n.name groups h.0 k)

  index_loops-All :
      (ls : List GraphLoop) (loops : List (String × List String))
      → All (λ (l : GraphLoop). All P l.nodes) ls
      → All (λ m. All P m.1) loops
      → All (λ m. All P m.1) (index_loops ls loops)
  unfolding index_loops
  index_loops-All [] loops h k = k
  index_loops-All (l ∷ ls) loops h k =
      index_loops-All ls (put_key l.name l.nodes loops) h.1
        (put_key-All (All P) l.name l.nodes loops h.0 k)

  pub index_graph-Names :
      (g : GraphView)
      → All (λ (n : GraphNode). P n.name) g.nodes
      → All (λ (l : GraphLoop). All P l.nodes) g.loops
      → Names (index_graph g)
  unfolding index_graph
  index_graph-Names g h k = record {
    names = index_names-All g.nodes [] h tt;
    groups = index_groups-All g.nodes [] h tt;
    loops = index_loops-All g.loops [] k tt;
  }

  module _ (index : Index) (known : Names index) where
    names_for-All : (c : String) → All P (names_for index c)
    unfolding names_for
    names_for-All c =
        get_key-All (All P) c _ index.groups (All-keep P (belongs c) index.names known.names)
          known.groups

    first_full-All : (xs ys : List String) → All P xs → All P ys → All P (first_full xs ys)
    first_full-All [] ys h k = k
    first_full-All (x ∷ xs) ys h k = h

    first_resolved-All : (cs : List (Option String)) → All P (first_resolved index cs)
    unfolding first_resolved
    first_resolved-All [] = tt
    first_resolved-All (none ∷ cs) = first_resolved-All cs
    first_resolved-All (some c ∷ cs) =
        if_cases (All P) (c == "") (λ e. first_resolved-All cs)
          (λ e. first_full-All (names_for index c) _ (names_for-All c) (first_resolved-All cs))

    loop_of-All :
        (name : Option String) (inner : List String)
        → All P inner
        → All P (or_else (loop_of index name) inner)
    loop_of-All none inner h = h
    loop_of-All (some name) inner h =
        if_cases (λ o. All P (or_else o inner)) (name == "") (λ e. h)
          (λ e. get_key-All (All P) name inner index.loops h known.loops)

    mutual
      unfolding block_names

      pub block_names-All : (m : FlowModel) (t : Tree) → All P (block_names m index t)
      block_names-All m (pipeline ts) = stage_names-All m ts
      block_names-All m (farm w n o) =
          first_resolved-All (farm_candidates w o (block_title (farm w n o) m) m)
      block_names-All m (feedback t name) =
          loop_of-All name (block_names m index t) (block_names-All m t)
      block_names-All m (all2all l r x y b) =
          All-append P (block_names m index l) _ (block_names-All m l) (block_names-All m r)
      block_names-All m (comb a b) =
          let first = block_title a m in
          let second = block_title b m in
          first_resolved-All (
            some (first <> "+" <> second)
            ∷ some (first <> " + " <> second)
            ∷ some first
            ∷ some second
            ∷ [])
      block_names-All m (ref id) = first_resolved-All (some id ∷ [])
      block_names-All m start =
          first_resolved-All (m.start ∷ some "from_iterable" ∷ some "start" ∷ [])
      block_names-All m (inline s) =
          first_resolved-All (some (block_title (inline s) m) ∷ some "from_iterable" ∷ [])

      pub stage_names-All : (m : FlowModel) (ts : Trees) → All P (stage_names m index ts)
      stage_names-All m nil = tt
      stage_names-All m (cons t ts) =
          All-append P (block_names m index t) _ (block_names-All m t) (stage_names-All m ts)
