-- ===== src/Run/Keys.antt =====
-- web/src/run/keys.ts: the names that a block of the canvas has in a run. A `Map` and a record are
-- lists of pairs and a `Set` is a list without repeats, in the order of insertion. Of the expanded
-- graph, the fields that are read.
pub mod Aliases
pub mod Known
pub mod Nearest
use Prim.Native.String
use text.Mathlib.Text.{◌==◌}
use tolquane.Base.{
  ℕ, zero, suc, String, ◌<>◌, Bool, true, false, ◌||◌, Option, none, some, is_some, List, [], ◌∷◌,
  ◌++◌, any, keep, or_else, if◌then◌else◌, nat_eq, show, strip,
}
use tolquane.Model.Types.{
  Tree, start, ref, inline, pipeline, farm, comb, feedback, all2all, Trees, nil, cons, Worker,
  FarmOptions, settings, FlowModel,
}
use tolquane.Model.Nodes.{block_title, first_title}

pub record GraphNode : Type 0 where
  pub name : String
  pub group : Option String

pub record GraphEdge : Type 0 where
  pub src : String
  pub dst : String
  pub feedback : Bool

pub record GraphLoop : Type 0 where
  pub name : String
  pub nodes : List String

pub record GraphView : Type 0 where
  pub nodes : List GraphNode
  pub edges : List GraphEdge
  pub loops : List GraphLoop

pub record RunEdge : Type 0 where
  pub src : String
  pub dst : String
  pub key : String
  pub feedback : Bool

pub record Index : Type 0 where
  pub names : List String
  pub groups : List (String × List String)
  pub loops : List (String × List String)
  pub edges : List RunEdge

-- `map.get(key)`
unfoldable pub get_key {ℓ} : {A : Type ℓ} → String → List (String × A) → Option A
get_key k [] = none
get_key k ((j, a) ∷ ms) = if j == k then some a else get_key k ms

-- `map.set(key, value)`
unfoldable pub put_key {ℓ} : {A : Type ℓ} → String → A → List (String × A) → List (String × A)
put_key k a [] = (k, a) ∷ []
put_key k a ((j, b) ∷ ms) =
    let rest = put_key k a ms in if j == k then (j, a) ∷ ms else (j, b) ∷ rest

abbrev pub includes : String → List String → Bool
includes x xs = any (λ y. y == x) xs

-- `names.add(name)`
abbrev pub add_name : String → List String → List String
add_name x xs = if includes x xs then xs else xs ++ x ∷ []

-- The names, from those that were found so far.
unfoldable pub index_names : List GraphNode → List String → List String
index_names [] names = names
index_names (n ∷ ns) names = index_names ns (add_name n.name names)

abbrev pub add_group :
    Option String → String → List (String × List String) → List (String × List String)
add_group none name groups = groups
add_group (some g) name groups =
    if g == "" then groups else put_key g (or_else (get_key g groups) [] ++ name ∷ []) groups

unfoldable pub index_groups :
    List GraphNode → List (String × List String) → List (String × List String)
unfolding get_key put_key
index_groups [] groups = groups
index_groups (n ∷ ns) groups = index_groups ns (add_group n.group n.name groups)

unfoldable pub index_loops :
    List GraphLoop → List (String × List String) → List (String × List String)
unfolding put_key
index_loops [] loops = loops
index_loops (l ∷ ls) loops = index_loops ls (put_key l.name l.nodes loops)

abbrev pub edge_key : String → ℕ → String
edge_key base n = if nat_eq n 0 then base else base <> "#" <> show n

-- Each edge with its key; `seen` counts the edges of a pair.
unfoldable pub index_edges : List (String × ℕ) → List GraphEdge → List RunEdge
unfolding get_key put_key
index_edges seen [] = []
index_edges seen (e ∷ es) =
    let base = e.src <> "->" <> e.dst in
    let n = or_else (get_key base seen) 0 in
    record { src = e.src; dst = e.dst; key = edge_key base n; feedback = e.feedback }
    ∷ index_edges (put_key base (suc n) seen) es

unfoldable pub index_graph : GraphView → Index
unfolding index_names index_groups index_loops index_edges
index_graph g = record {
  names = index_names g.nodes [];
  groups = index_groups g.nodes [];
  loops = index_loops g.loops [];
  edges = index_edges [] g.edges;
}

abbrev pub belongs : String → String → Bool
belongs candidate name = name == candidate || is_some (strip (candidate <> ".") name)

unfoldable pub names_for : Index → String → List String
unfolding get_key
names_for index candidate =
    or_else (get_key candidate index.groups) (keep (belongs candidate) index.names)

abbrev pub first_full {ℓ} : {A : Type ℓ} → List A → List A → List A
first_full [] ys = ys
first_full (x ∷ xs) ys = x ∷ xs

unfoldable pub first_resolved : Index → List (Option String) → List String
unfolding names_for
first_resolved index [] = []
first_resolved index (none ∷ cs) = first_resolved index cs
first_resolved index (some c ∷ cs) =
    let rest = first_resolved index cs in
    if c == "" then rest else first_full (names_for index c) rest

-- The text before the suffix, when the text ends with it.
unfoldable pub without_suffix : String → String → Option String
without_suffix suffix String.[] = if suffix == "" then some "" else none
without_suffix suffix (String.◌∷◌ c s) =
    let rest = without_suffix suffix s in
    if String.◌∷◌ c s == suffix then some "" else cons_some rest
  where
    cons_some : Option String → Option String
    cons_some none = none
    cons_some (some r) = some (String.◌∷◌ c r)

-- The names that a farm may carry; only a farm of one worker block may carry the worker's.
unfoldable pub farm_candidates : Worker → FarmOptions → String → FlowModel → List (Option String)
unfolding without_suffix first_title
farm_candidates w o title m =
    (settings o).name ∷ some title ∷ without_suffix " farm" title ∷ first_title w m ∷ []

abbrev pub loop_of : Index → Option String → Option (List String)
loop_of index none = none
loop_of index (some name) = if name == "" then none else get_key name index.loops

-- `blockNames`
unfoldable mutual
  unfolding first_resolved farm_candidates block_title get_key

  pub block_names : FlowModel → Index → Tree → List String
  block_names m index (pipeline ts) = stage_names m index ts
  block_names m index (farm w n o) =
      first_resolved index (farm_candidates w o (block_title (farm w n o) m) m)
  block_names m index (feedback t name) =
      let inner = block_names m index t in or_else (loop_of index name) inner
  block_names m index (all2all l r x y b) = block_names m index l ++ block_names m index r
  block_names m index (comb a b) =
      let first = block_title a m in
      let second = block_title b m in
      first_resolved index (
        some (first <> "+" <> second)
        ∷ some (first <> " + " <> second)
        ∷ some first
        ∷ some second
        ∷ [])
  block_names m index (ref id) = first_resolved index (some id ∷ [])
  block_names m index start =
      first_resolved index (m.start ∷ some "from_iterable" ∷ some "start" ∷ [])
  block_names m index (inline s) =
      first_resolved index (some (block_title (inline s) m) ∷ some "from_iterable" ∷ [])

  pub stage_names : FlowModel → Index → Trees → List String
  stage_names m index nil = []
  stage_names m index (cons t ts) = block_names m index t ++ stage_names m index ts
