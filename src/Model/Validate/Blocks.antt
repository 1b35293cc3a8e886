-- ===== src/Model/Validate/Blocks.antt =====
-- web/src/model/validate.ts: which problems are reported.
use tolquane.Base.{
  String, not, some, List, [], ◌∷◌, ◌≡◌, sym, subst, ◌⊎◌, inl, inr, ◌↔◌, All-Member, Member, here,
  there, Member-append_left, Member-append_right, Member-append_cases, Member-concat_map,
  Member-of_concat_map, Member-single, if_cases, Member-cons_cases, ◌&&◌,
}
use tolquane.Model.Types.{Tree, FlowModel}
use tolquane.Model.Tree.{Child, children, join_path, preorder, entry, walk, get_at}
use tolquane.Model.Tree.Walk.{Tree-induction, preorder-step}
use tolquane.Model.Tree.Paths.{walk-get_at_iff}
use tolquane.Model.Validate.{
  is_warning, insert_problem, sort_problems, block_problems, tree_problems, start_problems,
  validate_model,
}
use tolquane.Model.Problems.{Problem}

module _ {ℓ} {A : Type ℓ} (visit : String → Tree → List A) where
  abbrev At : A → String → Tree → Type ℓ
  At a base t =
      (p : String) × (u : Tree) × Member (p, u) (preorder entry base t) × Member a (visit p u)

  preorder-At : (a : A) (t : Tree) (base : String) → Member a (preorder visit base t) → At a base t
  preorder-At a =
      Tree-induction (λ t. (base : String) → Member a (preorder visit base t) → At a base t)
        (λ t ih base m.
          elim (Member-append_cases (visit base t) _
            (subst (Member a) (preorder-step visit base t) m)) [
              | inl l ↦
                  (base, t, subst (Member (base, t)) (sym (preorder-step entry base t)) here, l)
              | inr r ↦
                  let (c, n, k) = Member-of_concat_map _ (children t) r in
                  let (p, u, i, j) =
                    All-Member
                      (λ (d : Child).
                        (b : String) → Member a (preorder visit b d.tree) → At a b d.tree)
                      n ih (join_path base c.key) k in
                  (
                    p,
                    u,
                    subst (Member (p, u)) (sym (preorder-step entry base t)) (
                        there (
                          Member-concat_map
                            (λ (d : Child). preorder entry (join_path base d.key) d.tree) n i)),
                    j,
                  )
            ])

  At-preorder :
      (a : A) (p : String) (u t : Tree) (base : String)
      → Member (p, u) (preorder entry base t)
      → Member a (visit p u)
      → Member a (preorder visit base t)
  At-preorder a p u t base m k =
      Tree-induction
        (λ t.
          (base : String)
          → Member (p, u) (preorder entry base t)
          → Member a (preorder visit base t))
        (λ t ih base m.
          subst (Member a) (sym (preorder-step visit base t))
            (elim (Member-append_cases ((base, t) ∷ []) _
              (subst (Member (p, u)) (preorder-step entry base t) m)) [
                | inl l ↦
                    let e = Member-single l in
                    Member-append_left _
                      (subst (λ (x : String × Tree). Member a (visit x.0 x.1)) e k)
                | inr r ↦
                    let (c, n, i) = Member-of_concat_map _ (children t) r in
                    Member-append_right (visit base t) (
                      Member-concat_map
                        (λ (d : Child). preorder visit (join_path base d.key) d.tree) n
                        (All-Member
                          (λ (d : Child).
                            (b : String)
                            → Member (p, u) (preorder entry b d.tree)
                            → Member a (preorder visit b d.tree))
                          n ih (join_path base c.key) i))
              ]))
        t base m

swap-Member : {A : Type 0} (q p r : A) (xs : List A) → Member q (p ∷ r ∷ xs) → Member q (r ∷ p ∷ xs)
swap-Member q p r xs m = elim (Member-cons_cases m) [
  | inl e ↦ there (subst (λ x. Member q (x ∷ xs)) e here)
  | inr n ↦ elim (Member-cons_cases n) [
    | inl e ↦ subst (λ x. Member q (x ∷ p ∷ xs)) e here
    | inr k ↦ there (there k)
  ]
]

cons-Member :
    {A : Type 0} (q p : A) (xs ys : List A)
    → (Member q xs → Member q ys)
    → Member q (p ∷ xs)
    → Member q (p ∷ ys)
cons-Member q p xs ys f m = elim (Member-cons_cases m) [
  | inl e ↦ subst (λ x. Member q (x ∷ ys)) e here
  | inr n ↦ there (f n)
]

insert_problem-Member :
    (p q : Problem) (ps : List Problem) → Member q (insert_problem p ps) ↔ Member q (p ∷ ps)
unfolding insert_problem
insert_problem-Member p q [] = (λ m. m, λ m. m)
insert_problem-Member p q (r ∷ ps) =
    let (to, from) = insert_problem-Member p q ps in
    if_cases (λ xs. Member q xs ↔ Member q (p ∷ r ∷ ps)) (is_warning p && not (is_warning r))
      (λ e. (
        λ m. swap-Member q r p ps (cons-Member q r _ (p ∷ ps) to m),
        λ m. cons-Member q r (p ∷ ps) _ from (swap-Member q p r ps m),
      ))
      (λ e. (λ m. m, λ m. m))

sort_problems-Member : (q : Problem) (ps : List Problem) → Member q (sort_problems ps) ↔ Member q ps
unfolding sort_problems
sort_problems-Member q [] = (λ m. m, λ m. m)
sort_problems-Member q (p ∷ ps) =
    let (to, from) = sort_problems-Member q ps in
    let (out, into) = insert_problem-Member p q (sort_problems ps) in
    (λ m. cons-Member q p _ ps to (out m), λ m. into (cons-Member q p ps _ from m))

-- A block of the flow, by the path at which it is found, that has the problem.
abbrev pub BlockProblem : FlowModel → Problem → Type 0
BlockProblem m q =
    (p : String) × (u : Tree) × (get_at m.flow p ≡ some u) × Member q (block_problems m p u)

-- A flow's problems are exactly the problem of its start node, and the problems of each of its
-- blocks at the path where `getAt` finds it.
pub validate_model_iff :
    (m : FlowModel) (q : Problem)
    → Member q (validate_model m) ↔ (Member q (start_problems m) ⊎ BlockProblem m q)
unfolding validate_model tree_problems walk
validate_model_iff m q = (to, from)
  where
    to : Member q (validate_model m) → Member q (start_problems m) ⊎ BlockProblem m q
    to k = elim (Member-append_cases (start_problems m) _ ((sort_problems-Member q _).0 k)) [
      | inl l ↦ inl l
      | inr r ↦
          let (p, u, i, j) = preorder-At (block_problems m) q m.flow "" r in
          inr (p, u, (walk-get_at_iff m.flow p u).0 i, j)
    ]

    from : Member q (start_problems m) ⊎ BlockProblem m q → Member q (validate_model m)
    from (inl l) = (sort_problems-Member q _).1 (Member-append_left (tree_problems m m.flow) l)
    from (inr (p, u, i, j)) = (sort_problems-Member q _).1 (
        Member-append_right (start_problems m)
          (At-preorder (block_problems m) q p u m.flow "" ((walk-get_at_iff m.flow p u).1 i) j))
