-- ===== src/Model/Update/Children.antt =====
-- What replacing a child does to the list of children: only the tree under that key changes.
use tolquane.Base.{
  Bool, [], ◌∷◌, ◌++◌, ◌≡◌, ◌≢◌, inl, inr, refl, sym, ap, Member, Member-append_cases,
  Member-cons_cases, Member-single, subst,
}
use tolquane.Model.Types.{
  Tree, pipeline, farm, comb, feedback, all2all, Trees, MaybeTree, nothing, just, to_list,
}
use tolquane.Model.Tree.{Child, child, numbered, maybe_child, worker_children, children}
use tolquane.Model.Tree.Keys.{cross-All, words_differ}
use tolquane.Model.Update.{replace_child}
use tolquane.Model.Update.Keyed.{set_key, set_key-Lacks, numbered-Member}
use tolquane.Model.Update.Workers.{Replaced, stages-Replaced}
use tolquane.Model.Update.Farms.{option-Replaced, worker-Replaced}

stage-Replaced :
    (ts : Trees) (v : Tree) (x : Child)
    → Member x (numbered "stages" 0 (to_list ts))
    → Replaced (pipeline ts) x.key v
stage-Replaced ts v x m =
    let (j, i, e, key, l, g) = numbered-Member "stages" x 0 (to_list ts) m in
    subst (λ y. Replaced (pipeline ts) y v) (sym key) (stages-Replaced ts v i)

side-Replaced :
    (a b v : Tree) (x : Child)
    → Member x (child "first" a ∷ child "second" b ∷ [])
    → Replaced (comb a b) x.key v
unfolding replace_child children
side-Replaced a b v x m = elim (Member-cons_cases m) [
  | inl e ↦
      subst (λ (y : Child). Replaced (comb a b) y.key v) (sym e) (comb v b, refl, refl, λ w. refl)
  | inr n ↦
      subst (λ (y : Child). Replaced (comb a b) y.key v) (sym (Member-single n))
        (comb a v, refl, refl, λ w. refl)
]

cross_set :
    (v : Tree) (t : Tree) (y : MaybeTree)
    → (set_key "R" v (maybe_child "R" (just t) ++ maybe_child "G" y)
        ≡ maybe_child "R" (just v) ++ maybe_child "G" y)
      × (set_key "G" v (maybe_child "R" y ++ maybe_child "G" (just t))
          ≡ maybe_child "R" y ++ maybe_child "G" (just v))
cross_set v t nothing = (refl, refl)
cross_set v t (just y) = (refl, refl)

end_set :
    (v : Tree) (x y : MaybeTree)
    → (set_key "left" v (maybe_child "R" x ++ maybe_child "G" y)
        ≡ maybe_child "R" x ++ maybe_child "G" y)
      × (set_key "right" v (maybe_child "R" x ++ maybe_child "G" y)
          ≡ maybe_child "R" x ++ maybe_child "G" y)
end_set v x y = (
  set_key-Lacks "left" v _
      (cross-All (λ k. "left" ≢ k) x y (words_differ _ _ refl) (words_differ _ _ refl)),
  set_key-Lacks "right" v _
      (cross-All (λ k. "right" ≢ k) x y (words_differ _ _ refl) (words_differ _ _ refl)),
)

big-Replaced :
    (l r : Tree) (x y : MaybeTree) (m : Bool) (v : Tree) (c : Child)
    → Member c (maybe_child "R" x ++ maybe_child "G" y)
    → Replaced (all2all l r x y m) c.key v
unfolding replace_child children
big-Replaced l r x y m v c h = elim (Member-append_cases (maybe_child "R" x) _ h) [
  | inl n ↦ at_R x n
  | inr n ↦ at_G y n
]
  where
    at_R : (z : MaybeTree) → Member c (maybe_child "R" z) → Replaced (all2all l r z y m) c.key v
    at_R nothing n = elim n [ ]
    at_R (just t) n =
        subst (λ (d : Child). Replaced (all2all l r (just t) y m) d.key v) (sym (Member-single n))
          (
            all2all l r (just v) y m,
            refl,
            ap (λ z. child "left" l ∷ child "right" r ∷ z) (sym (cross_set v t y).0),
            λ w. refl,
          )

    at_G : (z : MaybeTree) → Member c (maybe_child "G" z) → Replaced (all2all l r x z m) c.key v
    at_G nothing n = elim n [ ]
    at_G (just t) n =
        subst (λ (d : Child). Replaced (all2all l r x (just t) m) d.key v) (sym (Member-single n))
          (
            all2all l r x (just v) m,
            refl,
            ap (λ z. child "left" l ∷ child "right" r ∷ z) (sym (cross_set v t x).1),
            λ w. refl,
          )

cross-Replaced :
    (l r : Tree) (x y : MaybeTree) (m : Bool) (v : Tree) (c : Child)
    → Member c (children (all2all l r x y m))
    → Replaced (all2all l r x y m) c.key v
unfolding replace_child children
cross-Replaced l r x y m v c h = elim (Member-cons_cases h) [
  | inl e ↦
      subst (λ (d : Child). Replaced (all2all l r x y m) d.key v) (sym e)
        (
          all2all v r x y m,
          refl,
          ap (λ z. child "left" v ∷ child "right" r ∷ z) (sym (end_set v x y).0),
          λ w. refl,
        )
  | inr n ↦ elim (Member-cons_cases n) [
    | inl e ↦
        subst (λ (d : Child). Replaced (all2all l r x y m) d.key v) (sym e)
          (
            all2all l v x y m,
            refl,
            ap (λ z. child "left" l ∷ child "right" v ∷ z) (sym (end_set v x y).1),
            λ w. refl,
          )
    | inr k ↦ big-Replaced l r x y m v c k
  ]
]

-- A child of a block can be replaced, and then the children are the same but for that one.
pub children-replace_child : (t v : Tree) (c : Child) → Member c (children t) → Replaced t c.key v
unfolding children
children-replace_child (pipeline ts) v c m = stage-Replaced ts v c m
children-replace_child (farm w n o) v c m = elim (Member-append_cases (worker_children w) _ m) [
  | inl l ↦ worker-Replaced w n o v c l
  | inr r ↦ option-Replaced w n o v c r
]
children-replace_child (comb a b) v c m = side-Replaced a b v c m
children-replace_child (feedback t name) v c m =
    subst (λ (d : Child). Replaced (feedback t name) d.key v) (sym (Member-single m))
      (unfold replace_child in (feedback v name, refl, refl, λ w. refl))
children-replace_child (all2all l r x y b) v c m = cross-Replaced l r x y b v c m
children-replace_child _ v c m = elim m [ ]
