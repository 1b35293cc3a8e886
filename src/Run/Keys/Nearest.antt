-- ===== src/Run/Keys/Nearest.antt =====
-- web/src/run/keys.ts: the block that a node of a run belongs to.
use tolquane.Base.{
  ℕ, ◌≤◌, String, Bool, true, false, Option, none, some, List, [], ◌∷◌, length, if◌then◌else◌,
  if_cases, ltb, Member, here, All, All-mono, All-append, Member-append_left, Member-append_right,
  ◌++◌, append_assoc, append-nil, subst, sym, ◌≡◌, refl, arith,
}
use tolquane.Model.Types.{Tree, FlowModel}
use tolquane.Model.Tree.{walk}
use tolquane.Run.Keys.{GraphView, Index, includes, index_graph, block_names}

-- The best path so far and its number of names: without one the path is the root's.
abbrev pub Best : Type 0
Best = String × Option ℕ

-- `names.length < bestSize`
abbrev pub is_smaller : ℕ → Option ℕ → Bool
is_smaller n none = true
is_smaller n (some k) = ltb n k

unfoldable pub better : String → List String → String → Best → Best
better node names path best =
    if includes node names
    then (if is_smaller (length names) best.1 then (path, some (length names)) else best)
    else best

-- The loop of `pathOfNode`.
unfoldable pub best_of : FlowModel → Index → String → List (String × Tree) → Best → Best
unfolding better block_names
best_of m index node [] best = best
best_of m index node ((path, t) ∷ es) best =
    best_of m index node es (better node (block_names m index t) path best)

unfoldable pub path_of_node : Option FlowModel → Option GraphView → String → String
unfolding best_of walk index_graph
path_of_node (some m) (some g) node = (best_of m (index_graph g) node (walk m.flow) ("", none)).0
path_of_node none g node = ""
path_of_node (some m) none node = ""

module _ (m : FlowModel) (index : Index) (node : String) where
  -- The block has the node, and `n` names.
  pub Holds : Tree → ℕ → Type 0
  Holds t n = (includes node (block_names m index t) ≡ true) × (length (block_names m index t) ≡ n)

  -- A block that has the node has at least `n` names.
  pub AtLeast : ℕ → String × Tree → Type 0
  AtLeast n e =
      includes node (block_names m index e.1) ≡ true → n ≤ length (block_names m index e.1)

  -- No block of the list has the node, and the path is the root's; or the path is that of a block
  -- which has the node, and no block with it has fewer names.
  pub Smallest : List (String × Tree) → Best → Type 0
  Smallest es (path, none) =
      (path ≡ "") × All (λ (e : String × Tree). includes node (block_names m index e.1) ≡ false) es
  Smallest es (path, some n) = ((t : Tree) × Member (path, t) es × Holds t n) × All (AtLeast n) es

  better-Smallest :
      (es : List (String × Tree)) (path : String) (t : Tree) (best : Best)
      → Smallest es best
      → Smallest (es ++ (path, t) ∷ []) (better node (block_names m index t) path best)
  unfolding Smallest Holds AtLeast better
  better-Smallest es path t (p, none) h =
      if_cases (Smallest (es ++ (path, t) ∷ [])) (includes node (block_names m index t))
        (λ e. (
          (t, Member-append_right es here, (e, refl)),
          All-append (AtLeast (length (block_names m index t))) es _
              (All-mono _ _ es (λ x q. λ r. absurd (cc)) h.1) (λ r. omega arith, tt),
        ))
        (λ e. (h.0, All-append _ es _ h.1 (e, tt)))
  better-Smallest es path t (p, some k) h =
      let (u, n, e) = h.0 in
      if_cases (Smallest (es ++ (path, t) ∷ [])) (includes node (block_names m index t))
        (λ q.
          if_cases (Smallest (es ++ (path, t) ∷ [])) (ltb (length (block_names m index t)) k)
            (λ l. (
              (t, Member-append_right es here, (q, refl)),
              All-append (AtLeast (length (block_names m index t))) es _
                  (All-mono (AtLeast k) _ es (λ x f. λ r. at_most l (f r)) h.1)
                  (λ r. omega arith, tt),
            ))
            (λ l. (
              (u, Member-append_left _ n, e),
              All-append (AtLeast k) es _ h.1 (λ r. not_less l, tt),
            )))
        (λ q.
          ((u, Member-append_left _ n, e), All-append (AtLeast k) es _ h.1 (λ r. absurd (cc), tt)))
    where
      at_most : {a b c : ℕ} → ltb a b ≡ true → b ≤ c → a ≤ c
      at_most h k = grind arith

      not_less : {a b : ℕ} → ltb a b ≡ false → b ≤ a
      not_less h = grind arith

  best_of-Smallest :
      (done es : List (String × Tree)) (best : Best)
      → Smallest done best
      → Smallest (done ++ es) (best_of m index node es best)
  unfolding best_of
  best_of-Smallest done [] best h = subst (λ xs. Smallest xs best) (sym (append-nil done)) h
  best_of-Smallest done ((path, t) ∷ es) best h =
      let next = better node (block_names m index t) path best in
      subst (λ xs. Smallest xs (best_of m index node es next))
        (append_assoc done ((path, t) ∷ []) es)
        (best_of-Smallest (done ++ (path, t) ∷ []) es next (better-Smallest done path t best h))

-- The path of a run's node is that of a block which covers the node, and every block that covers it
-- has at least as many names; when no block covers it, the path is the root's.
pub path_of_node-Smallest :
    (m : FlowModel) (g : GraphView) (node : String)
    → (n : Option ℕ) × Smallest m
        (index_graph g)
        node
        (walk m.flow)
        (path_of_node (some m) (some g) node, n)
unfolding path_of_node Smallest
path_of_node-Smallest m g node =
    let best = best_of m (index_graph g) node (walk m.flow) ("", none) in
    (best.1, best_of-Smallest m (index_graph g) node [] (walk m.flow) ("", none) (refl, tt))
