-- ===== src/Run/Keys/Aliases.antt =====
-- web/src/run/keys.ts: the keys of the canvas that stand for names and edges of a run.
use tolquane.Base.{
  ℕ, suc, max, String, ◌<>◌, Bool, true, false, ◌&&◌, Option, none, some, is_some, List, [], ◌∷◌,
  map, find, keep, or_else, if◌then◌else◌, leb, nat_eq, show, read, is_index, split_on, get_last?,
  length, take,
}
use tolquane.Model.Types.{Tree, pipeline, farm, feedback, Worker, settings, FlowModel, to_list}
use tolquane.Model.Tree.{walk, join_path, is_heterogeneous, farm_workers}
use tolquane.Model.Nodes.{block_title}
use tolquane.Run.Keys.{
  GraphView, RunEdge, Index, put_key, includes, index_graph, names_for, without_suffix, block_names,
}

pub record RunAliases : Type 0 where
  pub nodes : List (String × List String)
  pub edges : List (String × List String)

abbrev pub no_aliases : RunAliases
no_aliases = record { nodes = []; edges = [] }

unfoldable pub card_key : FlowModel → Tree → String
unfolding block_title
card_key m (farm w n o) = or_else ((settings o).name) (block_title (farm w n o) m)
card_key m t = block_title t m

abbrev pub is_empty {ℓ} : {A : Type ℓ} → List A → Bool
is_empty [] = true
is_empty (x ∷ xs) = false

-- The number after the last point: `/\.\d+$/`.
abbrev pub number_of : List String → Option ℕ
number_of (p ∷ q ∷ ps) =
    let l = or_else (get_last? (q ∷ ps)) "" in if is_index l then read l else none
number_of _ = none

unfoldable pub thread_number : String → Option ℕ
unfolding split_on read
thread_number name = number_of (split_on b'.' name)

-- `sort` by the number, which keeps the order of equal ones.
unfoldable pub insert_thread : String → List String → List String
unfolding thread_number
insert_thread x [] = x ∷ []
insert_thread x (y ∷ ys) =
    let rest = insert_thread x ys in
    if leb (or_else (thread_number x) 0) (or_else (thread_number y) 0) then x ∷ y ∷ ys else y ∷ rest

unfoldable pub sort_threads : List String → List String
unfolding insert_thread
sort_threads [] = []
sort_threads (x ∷ xs) = insert_thread x (sort_threads xs)

unfoldable pub worker_card : Bool → String → ℕ → String
unfolding join_path
worker_card heterogeneous path i =
    if heterogeneous
    then join_path path ("worker." <> show i)
    else if nat_eq i 0
    then join_path path "worker"
    else join_path path "worker" <> "#" <> show i

abbrev pub listed : Option String → List String
listed none = []
listed (some s) = s ∷ []

module _ (index : Index) where
  unfoldable pub add_nodes : String → List String → RunAliases → RunAliases
  unfolding names_for put_key
  add_nodes k [] out = out
  add_nodes k (n ∷ ns) out =
      if is_empty (names_for index k)
      then record out { nodes = put_key k (n ∷ ns) out.nodes }
      else out

  abbrev pub put_edges : String → List String → RunAliases → RunAliases
  put_edges k [] out = out
  put_edges k (r ∷ rs) out = record out { edges = put_key k (r ∷ rs) out.edges }

  abbrev pub keys_where : (RunEdge → Bool) → List String
  keys_where p = map (λ (e : RunEdge). e.key) (keep p index.edges)

  unfoldable pub add_edges : String → List String → List String → RunAliases → RunAliases
  unfolding put_key
  add_edges k [] to out = out
  add_edges k (f ∷ fs) [] out = out
  add_edges k (f ∷ fs) (t ∷ ts) out =
      put_edges k (keys_where (λ e. includes e.src (f ∷ fs) && includes e.dst (t ∷ ts))) out

  -- `>>` between the stages from number `i` on.
  unfoldable pub alias_stages : FlowModel → String → ℕ → List Tree → RunAliases → RunAliases
  unfolding add_edges block_names
  alias_stages m path i [] out = out
  alias_stages m path i (t ∷ []) out = out
  alias_stages m path i (t ∷ u ∷ ts) out = alias_stages m path (suc i) (u ∷ ts) (
      add_edges
        (join_path path ("stages." <> show i) <> "->" <> join_path path ("stages." <> show (suc i)))
        (block_names m index t) (block_names m index u) out)

  abbrev pub alias_loop : String → List String → RunAliases → RunAliases
  alias_loop path names out =
      let inner = join_path path "inner" in
      put_edges (inner <> "->" <> inner)
        (keys_where (λ e. e.feedback && (includes e.src names && includes e.dst names))) out

  abbrev pub add_end : String → Option String → RunAliases → RunAliases
  add_end k end out = add_nodes k (listed end) out

  -- The threads that are drawn, from number `i` on; without an end of the farm its edges have no
  -- side and are not added.
  unfoldable pub alias_threads :
      String
      → String
      → Bool
      → Option String
      → Option String
      → ℕ
      → List String
      → RunAliases
      → RunAliases
  unfolding add_nodes add_edges worker_card
  alias_threads k path h emitter collector i [] out = out
  alias_threads k path h emitter collector i (w ∷ ws) out =
      let card = worker_card h path i in
      alias_threads k path h emitter collector (suc i) ws (
        add_edges (card <> "->" <> path <> "#collector") (w ∷ []) (listed collector) (
          add_edges (path <> "#emitter->" <> card) (listed emitter) (w ∷ [])
            (add_nodes (k <> "." <> show i) (w ∷ []) out)))

  abbrev pub drawn_threads : Worker → List String → List String
  drawn_threads w threads =
      take (if is_heterogeneous w then length (farm_workers w) else max 1 (length threads)) threads

  unfoldable pub alias_farm : String → String → Worker → List String → RunAliases → RunAliases
  unfolding add_nodes alias_threads sort_threads without_suffix is_heterogeneous farm_workers
  alias_farm k path w names out =
      let emitter = find (λ n. is_some (without_suffix ".emitter" n)) names in
      let collector = find (λ n. is_some (without_suffix ".collector" n)) names in
      let threads = sort_threads (keep (λ n. is_some (thread_number n)) names) in
      alias_threads k path (is_heterogeneous w) emitter collector 0 (drawn_threads w threads)
        (add_end (k <> ".collector") collector (add_end (k <> ".emitter") emitter out))

  -- One step of the loop of `runAliases`.
  unfoldable pub alias_block : FlowModel → String → Tree → RunAliases → RunAliases
  unfolding add_nodes alias_stages alias_farm block_names card_key
  alias_block m path (farm w n o) out =
      alias_farm (card_key m (farm w n o)) path w (block_names m index (farm w n o)) out
  alias_block m path (pipeline ts) out =
      alias_stages m path 0 (to_list ts)
        (add_nodes (card_key m (pipeline ts)) (block_names m index (pipeline ts)) out)
  alias_block m path (feedback t name) out =
      let names = block_names m index (feedback t name) in
      alias_loop path names (add_nodes (card_key m (feedback t name)) names out)
  alias_block m path t out = add_nodes (card_key m t) (block_names m index t) out

  unfoldable pub alias_blocks : FlowModel → List (String × Tree) → RunAliases → RunAliases
  unfolding alias_block
  alias_blocks m [] out = out
  alias_blocks m ((path, t) ∷ es) out = alias_blocks m es (alias_block m path t out)

unfoldable pub run_aliases : Option FlowModel → Option GraphView → RunAliases
unfolding alias_blocks walk index_graph
run_aliases (some m) (some g) = alias_blocks (index_graph g) m (walk m.flow) no_aliases
run_aliases none g = no_aliases
run_aliases (some m) none = no_aliases
