-- ===== src/Model/Tree/Paths.antt =====
-- What the walk lists and what `getAt` finds are the same blocks at the same paths.
use mathlib.Core.Path.{subst}
use text.Mathlib.Text.{◌==◌}
use text.Mathlib.TextLemmas.{append_assoc as text_assoc}
use tolquane.Base.{
  String, ◌<>◌, some, List, [], ◌∷◌, ◌++◌, ◌≡◌, ◌↔◌, inl, inr, refl, sym, ap, ◌∙◌, All-append,
  Member, here, there, All-Member, concat_map, Member-cons_cases, Member-concat_map,
  Member-of_concat_map, Bool-cases, join_dots,
}
use tolquane.Model.Types.{Tree}
use tolquane.Model.Tree.{
  Child, children, join_path, segments, preorder, entry, walk, descend, get_at,
}
use tolquane.Model.Tree.Steps.{IsKey}
use tolquane.Model.Tree.Walk.{Tree-induction, preorder-step}
use tolquane.Model.Tree.Lookup.{
  Reaches, stop, step, descend-Reaches, Reaches_of_descend, segments-join_dots, join_dots-segments,
  path_from, path_from-root, Reaches-Keys, Keys, join_path-cons, join_dots-ne-empty, IsKey-ne-empty,
}

-- `getAt` is the descent along the steps of the path, at the root too.
pub get_at-descend : (t : Tree) (p : String) → get_at t p ≡ descend t (segments p)
unfolding get_at segments
get_at-descend t p = elim (Bool-cases (p == "")) [ inl e ↦ rw e | inr e ↦ rw e ]

abbrev visits : String → Tree → List (String × Tree)
visits base t = preorder entry base t

abbrev below : String → Child → List (String × Tree)
below base c = visits (join_path base c.key) c.tree

visits-step : (b : String) (t : Tree) → visits b t ≡ (b, t) ∷ concat_map (below b) (children t)
visits-step b t = preorder-step entry b t

-- A block that is reached by some keys is listed, under the path that joins them.
Member-visits :
    {t u : Tree} {ks : List String} (b : String)
    → Reaches t ks u
    → Member (path_from b ks, u) (visits b t)
Member-visits b (stop {t}) = rw (visits-step b t) here
Member-visits b (step {t} {c} m r) =
    rw (visits-step b t)
      (there (Member-concat_map (below b) m (Member-visits (join_path b c.key) r)))

abbrev Found : String → Tree → String → Tree → Type 0
Found b t p u = (ks : List String) × Reaches t ks u × (p ≡ path_from b ks)

-- What is listed is reached, by keys that its path joins.
visits-Found : (t : Tree) (b p : String) (u : Tree) → Member (p, u) (visits b t) → Found b t p u
visits-Found t =
    Tree-induction (λ x. (b p : String) (u : Tree) → Member (p, u) (visits b x) → Found b x p u)
      (λ x ih b p u m. elim (Member-cons_cases (subst (Member (p, u)) (visits-step b x) m)) [
        | inl e ↦ subst (λ v. Found b x v.0 v.1) (sym e) ([], stop, refl)
        | inr n ↦
            let (c, child_of, inside) = Member-of_concat_map (below b) (children x) n in
            let (ks, r, q) =
              All-Member
                (λ c.
                  (b p : String) (u : Tree) → Member (p, u) (visits b c.tree) → Found b c.tree p u)
                child_of ih (join_path b c.key) p u inside in
            (c.key ∷ ks, step child_of r, q)
      ])
      t

walk_found : (t : Tree) (p : String) (u : Tree) → Member (p, u) (walk t) → get_at t p ≡ some u
unfolding walk
walk_found t p u m =
    let (ks, r, e) = visits-Found t "" p u m in
    let keys = Reaches-Keys r in
    get_at-descend t p
    ∙ ap (λ q. descend t (segments q)) (e ∙ path_from-root ks keys)
    ∙ ap (descend t) (segments-join_dots ks keys)
    ∙ descend-Reaches r

found_walk : (t : Tree) (p : String) (u : Tree) → get_at t p ≡ some u → Member (p, u) (walk t)
unfolding walk
found_walk t p u h =
    let r = Reaches_of_descend t u (segments p) (sym (get_at-descend t p) ∙ h) in
    subst (λ q. Member (q, u) (visits "" t))
      (path_from-root (segments p) (Reaches-Keys r) ∙ join_dots-segments p) (Member-visits "" r)

-- A block stands in the walk of a tree under a path exactly when `getAt` finds it at that path.
pub walk-get_at_iff :
    (t : Tree) (p : String) (u : Tree) → Member (p, u) (walk t) ↔ (get_at t p ≡ some u)
walk-get_at_iff t p u = (walk_found t p u, found_walk t p u)

join_dots-snoc :
    (k j : String) (ks : List String)
    → join_dots (k ∷ (ks ++ j ∷ [])) ≡ join_dots (k ∷ ks) <> "." <> j
unfolding join_dots
join_dots-snoc k j [] = refl
join_dots-snoc k j (i ∷ ks) =
    ap (λ r. k <> "." <> r) (join_dots-snoc i j ks) ∙ rw (text_assoc, text_assoc) refl

join_path-join_dots :
    (ks : List String) (k : String)
    → Keys ks
    → join_path (join_dots ks) k ≡ join_dots (ks ++ k ∷ [])
join_path-join_dots [] k h = unfold join_dots join_path in refl
join_path-join_dots (j ∷ ks) k h =
    join_path-cons (join_dots (j ∷ ks)) k (join_dots-ne-empty j ks (IsKey-ne-empty j h.0))
    ∙ sym (join_dots-snoc j k ks)

-- The path of a child has the steps of the parent's path, and then the child's key. The parent's
-- path names a block, and the key is one of those that blocks give.
pub segments-join_path :
    (t u : Tree) (p k : String)
    → get_at t p ≡ some u
    → IsKey k
    → segments (join_path p k) ≡ segments p ++ k ∷ []
segments-join_path t u p k h key =
    let keys = Reaches-Keys (Reaches_of_descend t u (segments p) (sym (get_at-descend t p) ∙ h)) in
    ap (λ q. segments (join_path q k)) (sym (join_dots-segments p))
    ∙ ap segments (join_path-join_dots (segments p) k keys)
    ∙ segments-join_dots (segments p ++ k ∷ []) (All-append IsKey (segments p) _ keys (key, tt))
