-- ===== src/Model/Tree/Walk.antt =====
-- Induction over the blocks of a tree, and the walk as the source writes it: a block, then the walk
-- of each child under its own path.
use tolquane.Base.{
  ℕ, zero, suc, ◌<◌, ◌≤◌, String, List, ◌++◌, ◌≡◌, ap, ◌∙◌, arith, All, All-append, All-mono,
  concat_map, concat_map-congr,
}
use tolquane.Model.Types.{
  Tree, start, ref, inline, pipeline, farm, comb, feedback, all2all, Trees, nil, cons, Worker, one,
  many, MaybeTree, nothing, just, Slot, default, exposed, block, FarmOptions, options, to_list,
}
use tolquane.Model.Tree.{
  Child, numbered, slot_child, maybe_child, worker_children, option_children, children, join_path,
  size, size_trees, size_worker, size_maybe, size_slot, size_options, preorder_fuel, preorder,
}

-- What holds of a block whenever it holds of all its children holds of every block.
module _ {κ} (P : Tree → Type κ)
    (step : (t : Tree) → All (λ (c : Child). P c.tree) (children t) → P t) where
  mutual
    unfolding children

    ind : (t : Tree) → P t
    ind start = step start tt
    ind (ref id) = step (ref id) tt
    ind (inline s) = step (inline s) tt
    ind (pipeline ts) = step (pipeline ts) (ind_trees ts "stages" 0)
    ind (farm w n o) =
        step (farm w n o)
          (All-append (λ c. P c.tree) (worker_children w) _ (ind_worker w) (ind_options o))
    ind (comb a b) = step (comb a b) (ind a, (ind b, tt))
    ind (feedback t name) = step (feedback t name) (ind t, tt)
    ind (all2all l r x y m) = step (all2all l r x y m) (
      ind l,
      (ind r, All-append (λ c. P c.tree) (maybe_child "R" x) _ (ind_maybe x "R") (ind_maybe y "G")),
    )

    ind_trees :
        (ts : Trees) (prefix : String) (i : ℕ)
        → All (λ (c : Child). P c.tree) (numbered prefix i (to_list ts))
    ind_trees nil prefix i = tt
    ind_trees (cons t ts) prefix i = (ind t, ind_trees ts prefix (suc i))

    ind_worker : (w : Worker) → All (λ (c : Child). P c.tree) (worker_children w)
    ind_worker (one t) = (ind t, tt)
    ind_worker (many ts) = ind_trees ts "worker" 0

    ind_maybe : (m : MaybeTree) (k : String) → All (λ (c : Child). P c.tree) (maybe_child k m)
    ind_maybe nothing k = tt
    ind_maybe (just t) k = (ind t, tt)

    ind_slot : (s : Slot) (k : String) → All (λ (c : Child). P c.tree) (slot_child k s)
    ind_slot default k = tt
    ind_slot exposed k = tt
    ind_slot (block t) k = (ind t, tt)

    ind_options : (o : FarmOptions) → All (λ (c : Child). P c.tree) (option_children o)
    ind_options (options s e c k) =
        All-append (λ d. P d.tree) (slot_child "options.emitter" e) _ (ind_slot e "options.emitter")
          (All-append (λ d. P d.tree) (slot_child "options.collector" c) _
            (ind_slot c "options.collector") (ind_maybe k "options.key"))

  pub Tree-induction : (t : Tree) → P t
  Tree-induction t = ind t

abbrev Below : ℕ → Child → Type 0
Below n c = size c.tree < n

numbered-Below :
    (ts : Trees) (prefix : String) (i n : ℕ)
    → size_trees ts < n
    → All (Below n) (numbered prefix i (to_list ts))
unfolding numbered size
numbered-Below nil prefix i n h = tt
numbered-Below (cons t ts) prefix i n h =
    (omega arith, numbered-Below ts prefix (suc i) n (omega arith))

slot-Below : (s : Slot) (k : String) (n : ℕ) → size_slot s < n → All (Below n) (slot_child k s)
unfolding size
slot-Below default k n h = tt
slot-Below exposed k n h = tt
slot-Below (block t) k n h = (h, tt)

maybe-Below :
    (m : MaybeTree) (k : String) (n : ℕ) → size_maybe m < n → All (Below n) (maybe_child k m)
unfolding size
maybe-Below nothing k n h = tt
maybe-Below (just t) k n h = (h, tt)

worker-Below : (w : Worker) (n : ℕ) → size_worker w < n → All (Below n) (worker_children w)
unfolding size
worker-Below (one t) n h = (h, tt)
worker-Below (many ts) n h = numbered-Below ts "worker" 0 n h

options-Below : (o : FarmOptions) (n : ℕ) → size_options o < n → All (Below n) (option_children o)
unfolding size
options-Below (options s e c k) n h =
    All-append (Below n) (slot_child "options.emitter" e) _ (slot-Below e _ n (omega arith)) (
      All-append (Below n) (slot_child "options.collector" c) _ (slot-Below c _ n (omega arith))
        (maybe-Below k _ n (omega arith)))

children-Below : (t : Tree) → All (Below (size t)) (children t)
unfolding children size
children-Below start = tt
children-Below (ref id) = tt
children-Below (inline s) = tt
children-Below (pipeline ts) = numbered-Below ts "stages" 0 _ (omega arith)
children-Below (farm w n o) =
    All-append (Below (size (farm w n o))) (worker_children w) _ (worker-Below w _ (omega arith))
      (options-Below o _ (omega arith))
children-Below (comb a b) = (omega arith, (omega arith, tt))
children-Below (feedback t name) = (omega arith, tt)
children-Below (all2all l r x y m) = (
  omega arith,
  (
    omega arith,
    All-append (Below (size (all2all l r x y m))) (maybe_child "R" x) _
        (maybe-Below x _ _ (omega arith)) (maybe-Below y _ _ (omega arith)),
  ),
)

size-pos : (t : Tree) → 0 < size t
unfolding size
size-pos start = omega arith
size-pos t = omega arith

module _ {ℓ} {A : Type ℓ} (visit : String → Tree → List A) where
  -- Fuel for every block of the tree is enough: more changes nothing.
  preorder_fuel-stable :
      (f g : ℕ) (base : String) (t : Tree)
      → size t ≤ f
      → size t ≤ g
      → preorder_fuel visit f base t ≡ preorder_fuel visit g base t
  unfolding preorder_fuel
  preorder_fuel-stable zero g base t h k = absurd (omega (arith, size-pos t))
  preorder_fuel-stable (suc f) zero base t h k = absurd (omega (arith, size-pos t))
  preorder_fuel-stable (suc f) (suc g) base t h k =
      ap (λ rest. visit base t ++ rest)
        (concat_map-congr _ _ (children t) (
          All-mono (Below (size t)) _ (children t)
            (λ c b.
              preorder_fuel-stable f g (join_path base c.key) c.tree (omega arith) (omega arith))
            (children-Below t)))

  -- The recursion of the source, with no fuel.
  pub preorder-step :
      (base : String) (t : Tree)
      → preorder visit base t
        ≡ visit base t
          ++ concat_map (λ (c : Child). preorder visit (join_path base c.key) c.tree) (children t)
  unfolding preorder preorder_fuel
  preorder-step base t =
      preorder_fuel-stable (size t) (suc (size t)) base t (omega arith) (omega arith)
      ∙ ap (λ rest. visit base t ++ rest)
          (concat_map-congr _ _ (children t) (
            All-mono (Below (size t)) _ (children t)
              (λ c b.
                preorder_fuel-stable (size t) (size c.tree) (join_path base c.key) c.tree
                  (omega arith) (omega arith))
              (children-Below t)))
