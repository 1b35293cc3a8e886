-- ===== src/Model/Validate/Paths.antt =====
-- web/src/model/validate.ts: the card that a problem belongs to.
use text.Mathlib.Text.{◌==◌}
use text.Mathlib.TextLemmas.{append_assoc as text_assoc}
use tolquane.Base.{
  ℕ, ℤ, suc, ◌+◌, String, ◌<>◌, show, Bool, true, false, not, ◌&&◌, Option, none, some, is_some,
  List, [], ◌∷◌, ◌++◌, ◌≡◌, refl, sym, ap, subst, ◌∙◌, inl, inr, concat_map, get_elem?, Member, All,
  All-append, All-Member, arith,
}
use tolquane.Model.Types.{
  Tree, start, ref, inline, pipeline, farm, comb, feedback, all2all, Worker, FarmOptions, options,
  FlowModel, NodeDef, to_list,
}
use tolquane.Model.Tree.{get_at, join_path, farm_workers}
use tolquane.Model.Nodes.{when, find_node}
use tolquane.Model.Problems.{Problem, problem, Severity}
use tolquane.Model.Edits.Stages.{stage_path, get_at-stage_path}
use tolquane.Model.Validate.{
  worker_problems, farm_problems, stage_problems, block_problems, start_problems, validate_model,
  unfusable_problem, end_problem, side_node,
}
use tolquane.Model.Validate.Blocks.{validate_model_iff}

-- Problems whose path has a property.
record On (P : Option String → Type 0) (xs : List Problem) : Type 0 where
  all : All (λ (x : Problem). P x.path) xs

module _ {P : Option String → Type 0} where
  On-append : {xs ys : List Problem} → On P xs → On P ys → On P (xs ++ ys)
  On-append {xs} {ys} h k = record {
    all = All-append (λ (x : Problem). P x.path) xs ys h.all k.all;
  }

  On-when : (b : Bool) (x : Problem) → P x.path → On P (when b x)
  unfolding when
  On-when true x h = record { all = (h, tt) }
  On-when false x h = record { all = tt }

  On-concat_map {ℓ} :
      {A : Type ℓ} (f : A → List Problem) (xs : List A)
      → ((x : A) → On P (f x))
      → On P (concat_map f xs)
  On-concat_map f [] h = record { all = tt }
  On-concat_map f (x ∷ xs) h = On-append (h x) (On-concat_map f xs h)

-- The problems of a block's stages, where it is a pipeline.
stages_of_block : FlowModel → String → Tree → List Problem
stages_of_block m p (pipeline ts) = stage_problems m p 0 (to_list ts)
stages_of_block m p t = []

module _ (P : Option String → Type 0) (m : FlowModel) (p : String) (h : P (some p)) where
  worker-On : (t : Tree) → On P (worker_problems m p t)
  unfolding worker_problems
  worker-On t = On-when _ _ h

  farm_problems-On : (w : Worker) (n : ℤ) (o : FarmOptions) → On P (farm_problems m p w n o)
  unfolding farm_problems
  farm_problems-On w n (options s e c k) =
      On-append (On-concat_map (worker_problems m p) (farm_workers w) (λ t. worker-On t)) (
        On-append (On-when _ _ h) (
          On-append (On-when _ _ h) (
            On-append (On-when _ _ h) (
              On-append (On-when _ _ h) (
                On-append (On-when _ _ h) (
                  On-append (On-when _ _ h) (
                    On-append (On-when _ _ h) (
                      On-append (On-when _ _ h) (
                        On-append (On-when _ _ h) (
                          On-append (On-when _ _ h)
                            (On-append (On-when _ _ h) (On-when _ _ h))))))))))))

  unfusable-On : (n : Option NodeDef) → On P (unfusable_problem p n)
  unfusable-On none = record { all = tt }
  unfusable-On (some n) = On-when _ _ h

  end-On : (t : Tree) → On P (end_problem p t)
  end-On (farm w n o) = On-when _ _ h
  end-On t = record { all = (h, tt) }

  block-On : (t : Tree) → On P (stages_of_block m p t) → On P (block_problems m p t)
  unfolding block_problems stages_of_block
  block-On (ref id) k = On-when _ _ h
  block-On start k = On-when _ _ h
  block-On (inline s) k = record { all = tt }
  block-On (pipeline ts) k = On-append (On-when _ _ h) k
  block-On (farm w n o) k = farm_problems-On w n o
  block-On (comb a b) k = On-append (On-when _ _ h) (
      On-append (On-when _ _ h) (
        On-append (On-when _ _ h)
          (On-append (unfusable-On (side_node m a)) (unfusable-On (side_node m b)))))
  block-On (feedback t name) k = On-when _ _ h
  block-On (all2all l r x y b) k = On-append (end-On l) (end-On r)

-- The path of a problem names a block of the flow, if it has one.
abbrev Named : FlowModel → Option String → Type 0
Named m o = (q : String) → o ≡ some q → (u : Tree) × (get_at m.flow q ≡ some u)

Named-block : (m : FlowModel) (p : String) (u : Tree) → get_at m.flow p ≡ some u → Named m (some p)
Named-block m p u h q e = let f : p ≡ q = cc in (u, ap (get_at m.flow) (sym f) ∙ h)

-- The path of a stage, as the source writes it.
abbrev stage_at : String → ℕ → String
stage_at p i = join_path p ("stages." <> show i)

stage_at_lem : (p : String) (i : ℕ) → stage_path p i ≡ stage_at p i
stage_at_lem p i = ap (join_path p) (sym (text_assoc "stages" "." (show i)))

stages-On :
    (P : Option String → Type 0) (m : FlowModel) (p : String) (i : ℕ) (ts : List Tree)
    → ((k : ℕ) (u : Tree) → get_elem? ts k ≡ some u → P (some (stage_at p (i + k))))
    → On P (stage_problems m p i ts)
unfolding stage_problems
stages-On P m p i [] h = record { all = tt }
stages-On P m p i (t ∷ ts) h =
    let e : i + 0 ≡ i = omega arith in
    let here_named : P (some (stage_at p i)) =
      subst (λ j. P (some (stage_at p j))) e (h 0 t refl) in
    let later = stages-On P m p (suc i) ts (λ k u g.
      let f : i + suc k ≡ suc i + k = omega arith in
      subst (λ j. P (some (stage_at p j))) f (h (suc k) u g)) in
    On-append (On-when _ _ here_named) (On-append (On-when _ _ here_named) later)

pipeline-On :
    (m : FlowModel) (p : String) (t : Tree)
    → get_at m.flow p ≡ some t
    → On (Named m) (stages_of_block m p t)
unfolding stages_of_block
pipeline-On m p (pipeline ts) h = stages-On (Named m) m p 0 (to_list ts) (λ k u g.
    let e : 0 + k ≡ k = omega arith in
    subst (λ j. Named m (some (stage_at p j))) (sym e)
      (subst (λ r. Named m (some r)) (stage_at_lem p k)
        (Named-block m (stage_path p k) u (get_at-stage_path m.flow ts p k h ∙ g))))
pipeline-On m p t h = record { all = tt }

start-none : (m : FlowModel) (q : Problem) → Member q (start_problems m) → q.path ≡ none
unfolding start_problems
start-none m q = go m.start
  where
    go :
        (o : Option String)
        → Member q (elim o [
          | none ↦ []
          | some id ↦ when (not (id == "") && not (is_some (find_node m id))) (
              problem none
                ("the start node '" <> id <> "' is not one of the flow's nodes")
                Severity.error)
        ])
        → q.path ≡ none
    go none n = elim n [ ]
    go (some id) n =
        All-Member (λ (x : Problem). x.path ≡ none) n
          ((On-when {P = λ o. o ≡ none} (not (id == "") && not (is_some (find_node m id)))
            (problem none ("the start node '" <> id <> "' is not one of the flow's nodes")
              Severity.error)
            refl).all)

-- The path of a problem of a flow, if it has one, names a block of the flow.
pub validate_model-path :
    (m : FlowModel) (q : Problem) (p : String)
    → Member q (validate_model m)
    → q.path ≡ some p
    → (u : Tree) × (get_at m.flow p ≡ some u)
validate_model-path m q p k e = elim ((validate_model_iff m q).0 k) [
  | inl l ↦ let f = start-none m q l in absurd (grind arith)
  | inr (b, u, h, j) ↦
      let on = block-On (Named m) m b (Named-block m b u h) u (pipeline-On m b u h) in
      All-Member (λ (x : Problem). Named m x.path) j on.all p e
]
