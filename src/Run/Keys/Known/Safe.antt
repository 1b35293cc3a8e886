-- ===== src/Run/Keys/Known/Safe.antt =====
-- web/src/run/keys.ts: what the aliases hold, after every step of `runAliases`.
use tolquane.Base.{
  ℕ, zero, suc, String, ◌<>◌, Bool, ◌&&◌, Option, some, is_some, List, [], ◌∷◌, map, find, keep,
  take, or_else, if_cases, leb, show, Member, here, there, All, ◌⊎◌, inl, inr,
}
use tolquane.Model.Types.{
  Tree, start, ref, inline, pipeline, farm, comb, feedback, all2all, Worker, FlowModel, to_list,
}
use tolquane.Model.Tree.{walk, is_heterogeneous}
use tolquane.Run.Keys.{
  GraphNode, GraphLoop, GraphView, Index, includes, index_graph, without_suffix, block_names,
}
use tolquane.Run.Keys.Aliases.{
  RunAliases, no_aliases, card_key, add_nodes, alias_stages, thread_number, insert_thread,
  sort_threads, listed, alias_threads, drawn_threads, alias_farm, alias_block, alias_blocks,
  run_aliases,
}
use tolquane.Run.Keys.Known.{All-keep, Names, index_graph-Names, block_names-All}
use tolquane.Run.Keys.Known.Added.{Fine, add_nodes-Fine, put_edges-Fine, add_edges-Fine, keys-All}

module _ {ℓ κ} {A : Type ℓ} (P : A → Type κ) where
  All-take : (n : ℕ) (xs : List A) → All P xs → All P (take n xs)
  All-take zero xs h = tt
  All-take (suc n) [] h = tt
  All-take (suc n) (x ∷ xs) h = (h.0, All-take n xs h.1)

module _ (P : String → Type 0) (index : Index) where
  alias_stages-Fine :
      (m : FlowModel) (path : String) (i : ℕ) (ts : List Tree) (out : RunAliases)
      → Fine P index out
      → Fine P index (alias_stages index m path i ts out)
  unfolding alias_stages
  alias_stages-Fine m path i [] out f = f
  alias_stages-Fine m path i (t ∷ []) out f = f
  alias_stages-Fine m path i (t ∷ u ∷ ts) out f =
      alias_stages-Fine m path (suc i) (u ∷ ts) _
        (add_edges-Fine P index _ (block_names m index t) (block_names m index u) out f)

  insert_thread-All : (x : String) (xs : List String) → P x → All P xs → All P (insert_thread x xs)
  unfolding insert_thread
  insert_thread-All x [] h hs = (h, tt)
  insert_thread-All x (y ∷ ys) h hs =
      if_cases (All P) (leb (or_else (thread_number x) 0) (or_else (thread_number y) 0))
        (λ e. (h, hs)) (λ e. (hs.0, insert_thread-All x ys h hs.1))

  sort_threads-All : (xs : List String) → All P xs → All P (sort_threads xs)
  unfolding sort_threads
  sort_threads-All [] h = tt
  sort_threads-All (x ∷ xs) h = insert_thread-All x (sort_threads xs) h.0 (sort_threads-All xs h.1)

  listed-All : (p : String → Bool) (xs : List String) → All P xs → All P (listed (find p xs))
  listed-All p [] h = tt
  listed-All p (x ∷ xs) h =
      if_cases (λ o. All P (listed o)) (p x) (λ e. (h.0, tt)) (λ e. listed-All p xs h.1)

  alias_threads-Fine :
      (k path : String) (h : Bool) (emitter collector : Option String) (i : ℕ) (ws : List String)
      (out : RunAliases)
      → All P ws
      → Fine P index out
      → Fine P index (alias_threads index k path h emitter collector i ws out)
  unfolding alias_threads
  alias_threads-Fine k path h emitter collector i [] out q f = f
  alias_threads-Fine k path h emitter collector i (w ∷ ws) out q f =
      alias_threads-Fine k path h emitter collector (suc i) ws _ q.1 (
        add_edges-Fine P index _ (w ∷ []) (listed collector) _ (
          add_edges-Fine P index _ (listed emitter) (w ∷ []) _
            (add_nodes-Fine P index (k <> "." <> show i) (w ∷ []) out (q.0, tt) f)))

  alias_farm-Fine :
      (k path : String) (w : Worker) (names : List String) (out : RunAliases)
      → All P names
      → Fine P index out
      → Fine P index (alias_farm index k path w names out)
  unfolding alias_farm
  alias_farm-Fine k path w names out h f =
      let emitter = find (λ n. is_some (without_suffix ".emitter" n)) names in
      let collector = find (λ n. is_some (without_suffix ".collector" n)) names in
      let threads = sort_threads (keep (λ n. is_some (thread_number n)) names) in
      alias_threads-Fine k path (is_heterogeneous w) emitter collector 0
        (drawn_threads index w threads) _
        (All-take P _ threads
          (sort_threads-All _ (All-keep P (λ n. is_some (thread_number n)) names h)))
        (add_nodes-Fine P index (k <> ".collector") (listed collector) _ (listed-All _ names h)
          (add_nodes-Fine P index (k <> ".emitter") (listed emitter) out (listed-All _ names h) f))

  module _ (known : Names P index) (m : FlowModel) where
    -- A block whose own key is all that is added first.
    add_card-Fine :
        (t : Tree) (out : RunAliases)
        → Fine P index out
        → Fine P index (add_nodes index (card_key m t) (block_names m index t) out)
    add_card-Fine t out f =
        add_nodes-Fine P index (card_key m t) (block_names m index t) out
          (block_names-All P index known m t) f

    alias_block-Fine :
        (path : String) (t : Tree) (out : RunAliases)
        → Fine P index out
        → Fine P index (alias_block index m path t out)
    unfolding alias_block
    alias_block-Fine path (farm w n o) out f =
        alias_farm-Fine _ path w _ out (block_names-All P index known m (farm w n o)) f
    alias_block-Fine path (pipeline ts) out f =
        alias_stages-Fine m path 0 (to_list ts) _ (add_card-Fine (pipeline ts) out f)
    alias_block-Fine path (feedback t name) out f =
        let names = block_names m index (feedback t name) in
        put_edges-Fine P index _ _ _
          (keys-All P index (λ e. e.feedback && (includes e.src names && includes e.dst names))
            index.edges)
          (add_card-Fine (feedback t name) out f)
    alias_block-Fine path (all2all l r x y b) out f = add_card-Fine (all2all l r x y b) out f
    alias_block-Fine path (comb a b) out f = add_card-Fine (comb a b) out f
    alias_block-Fine path (ref id) out f = add_card-Fine (ref id) out f
    alias_block-Fine path (inline s) out f = add_card-Fine (inline s) out f
    alias_block-Fine path start out f = add_card-Fine start out f

    pub alias_blocks-Fine :
        (es : List (String × Tree)) (out : RunAliases)
        → Fine P index out
        → Fine P index (alias_blocks index m es out)
    unfolding alias_blocks
    alias_blocks-Fine [] out f = f
    alias_blocks-Fine ((path, t) ∷ es) out f =
        alias_blocks-Fine es _ (alias_block-Fine path t out f)

-- The name is of a node of the graph, or stands in one of its loops.
pub InRun : GraphView → String → Type 0
InRun g name =
    Member name (map (λ (n : GraphNode). n.name) g.nodes)
    ⊎ ((l : GraphLoop) × Member l g.loops × Member name l.nodes)

nodes-InRun : (g : GraphView) → All (λ (n : GraphNode). InRun g n.name) g.nodes
unfolding InRun
nodes-InRun g = go g.nodes (λ n m. inl m)
  where
    go :
        (ns : List GraphNode)
        → ((name : String) → Member name (map (λ (n : GraphNode). n.name) ns) → InRun g name)
        → All (λ (n : GraphNode). InRun g n.name) ns
    go [] h = tt
    go (n ∷ ns) h = (h n.name here, go ns (λ name m. h name (there m)))

All-of_Member {ℓ κ} :
    {A : Type ℓ} (P : A → Type κ) (xs : List A) → ((x : A) → Member x xs → P x) → All P xs
All-of_Member P [] h = tt
All-of_Member P (x ∷ xs) h = (h x here, All-of_Member P xs (λ y m. h y (there m)))

loops-InRun : (g : GraphView) → All (λ (l : GraphLoop). All (InRun g) l.nodes) g.loops
unfolding InRun
loops-InRun g =
    All-of_Member _ g.loops (λ l m. All-of_Member (InRun g) l.nodes (λ name n. inr (l, m, n)))

-- Every alias of a card stands for at least one name of the run, and for a key that the run does not
-- answer itself; every alias of an edge stands for at least one edge of the run.
pub run_aliases-Fine :
    (m : FlowModel) (g : GraphView) → Fine (InRun g) (index_graph g) (run_aliases (some m) (some g))
unfolding run_aliases
run_aliases-Fine m g =
    alias_blocks-Fine (InRun g) (index_graph g)
      (index_graph-Names (InRun g) g (nodes-InRun g) (loops-InRun g)) m (walk m.flow) no_aliases
      (record { nodes = tt; edges = tt })
