-- ===== src/Model/Update/Restore.antt =====
-- Rewriting a block and then rewriting the new block back gives the old tree.
use tolquane.Base.{
  ℕ, ◌+◌, ◌<◌, ℤ, pos, String, ◌<>◌, Bool, none, some, List, [], ◌∷◌, ◌++◌, ◌≡◌, refl, sym, ap, ap₂,
  ◌∙◌, subst, arith, inl, inr, Member, Member-append_cases, Member-cons_cases, Member-single,
  Option-cases, show, length, set_self, get_elem?, strip, All, All-Member,
}
use tolquane.Model.Types.{
  Tree, pipeline, farm, comb, feedback, all2all, Trees, Worker, one, many, MaybeTree, nothing, just,
  Slot, block, FarmOptions, options, FarmSettings, to_list, of_list, of_list-to_list,
}
use tolquane.Model.Tree.{
  Child, child, numbered, slot_child, maybe_child, worker_children, option_children, children,
  segments, find_child, descend, get_at,
}
use tolquane.Model.Tree.Keys.{Member-of_find_child}
use tolquane.Model.Tree.Paths.{get_at-descend}
use tolquane.Model.Update.{
  Update, put, replace_child, replace_farm_child, lift_update, rewrite, result, update_at,
}
use tolquane.Model.Update.Children.{children-replace_child}
use tolquane.Model.Update.Keyed.{numbered-Member, index_of_key-stages}
use tolquane.Model.Update.Workers.{Replaced, replace_farm_child-index}
use tolquane.Model.Update.Laws.{
  find_child-set_key_self, descend-cons, descend-nil, rewrite-cons, update_at-rewrite,
}

-- A heterogeneous farm counts its own workers.
abbrev pub Counts : Tree → Type 0
Counts (farm (many ts) n o) = n ≡ pos (length (to_list ts))
Counts _ = Unit

-- So does every farm in the tree.
abbrev pub Counted : Tree → Type 0
Counted t = (ks : List String) (u : Tree) → descend t ks ≡ some u → Counts u

zero_plus : (i j : ℕ) → i ≡ 0 + j → i ≡ j
zero_plus i j e = omega arith

-- Replacing a child by itself gives the parent back.
abbrev Own : Tree → Child → Type 0
Own t x = replace_child t x.key (some x.tree) ≡ put t

stage_self :
    (ts : Trees) (x : Child) → Member x (numbered "stages" 0 (to_list ts)) → Own (pipeline ts) x
unfolding replace_child
stage_self ts x m =
    let (j, i, e, key, l, g) = numbered-Member "stages" x 0 (to_list ts) m in
    subst (λ y. replace_child (pipeline ts) y (some x.tree) ≡ put (pipeline ts))
      (ap (λ a. "stages" <> "." <> show a) (sym (zero_plus i j e)) ∙ sym key)
      (rw (index_of_key-stages j, replace_child)
        (ap (λ l. put (pipeline l))
          (ap of_list (set_self (to_list ts) j x.tree g) ∙ of_list-to_list ts)))

index_self :
    (ts : Trees) (n : ℤ) (o : FarmOptions) (t : Tree) (j : ℕ)
    → n ≡ pos (length (to_list ts))
    → j < length (to_list ts)
    → get_elem? (to_list ts) j ≡ some t
    → replace_farm_child (many ts) n o ("worker" <> "." <> show j) (some t)
      ≡ put (farm (many ts) n o)
index_self ts n o t j c l g =
    replace_farm_child-index ts n o t j l
    ∙ ap (λ l. put (farm (many (of_list l)) (pos (length l)) o)) (set_self (to_list ts) j t g)
    ∙ ap₂ (λ a b. put (farm (many a) b o)) (of_list-to_list ts) (sym c)

worker_self :
    (w : Worker) (n : ℤ) (o : FarmOptions) (x : Child)
    → Counts (farm w n o)
    → Member x (worker_children w)
    → Own (farm w n o) x
unfolding replace_child
worker_self (one t) n o x h m =
    subst (Own (farm (one t) n o)) (sym (Member-single m)) (unfold replace_farm_child strip in refl)
worker_self (many ts) n o x h m =
    let (j, i, e, key, l, g) = numbered-Member "worker" x 0 (to_list ts) m in
    subst (λ y. replace_child (farm (many ts) n o) y (some x.tree) ≡ put (farm (many ts) n o))
      (ap (λ a. "worker" <> "." <> show a) (sym (zero_plus i j e)) ∙ sym key)
      (index_self ts n o x.tree j h l g)

module _ (w : Worker) (n : ℤ) (s : FarmSettings) (x : Child) where
  option_self :
      (e c : Slot) (k : MaybeTree)
      → Member x (option_children (options s e c k))
      → Own (farm w n (options s e c k)) x
  option_self e c k m = elim (Member-append_cases (slot_child "options.emitter" e) _ m) [
    | inl l ↦ emitter_self e l
    | inr r ↦ elim (Member-append_cases (slot_child "options.collector" c) _ r) [
      | inl l ↦ collector_self c l
      | inr q ↦ key_self k q
    ]
  ]
    where
      emitter_self :
          (z : Slot)
          → Member x (slot_child "options.emitter" z)
          → Own (farm w n (options s z c k)) x
      emitter_self (block t) l =
          subst (Own (farm w n (options s (block t) c k))) (sym (Member-single l))
            (unfold replace_child strip in refl)
      emitter_self _ l = elim l [ ]

      collector_self :
          (z : Slot)
          → Member x (slot_child "options.collector" z)
          → Own (farm w n (options s e z k)) x
      collector_self (block t) l =
          subst (Own (farm w n (options s e (block t) k))) (sym (Member-single l))
            (unfold replace_child strip in refl)
      collector_self _ l = elim l [ ]

      key_self :
          (z : MaybeTree)
          → Member x (maybe_child "options.key" z)
          → Own (farm w n (options s e c z)) x
      key_self (just t) l =
          subst (Own (farm w n (options s e c (just t)))) (sym (Member-single l))
            (unfold replace_child strip in refl)
      key_self nothing l = elim l [ ]

cross_self :
    (l r : Tree) (x y : MaybeTree) (b : Bool) (c : Child)
    → Member c (maybe_child "R" x ++ maybe_child "G" y)
    → Own (all2all l r x y b) c
cross_self l r x y b c m = elim (Member-append_cases (maybe_child "R" x) _ m) [
  | inl n ↦ r_self x n
  | inr n ↦ g_self y n
]
  where
    r_self : (z : MaybeTree) → Member c (maybe_child "R" z) → Own (all2all l r z y b) c
    r_self (just t) n =
        subst (Own (all2all l r (just t) y b)) (sym (Member-single n))
          (unfold replace_child in refl)
    r_self nothing n = elim n [ ]

    g_self : (z : MaybeTree) → Member c (maybe_child "G" z) → Own (all2all l r x z b) c
    g_self (just t) n =
        subst (Own (all2all l r x (just t) b)) (sym (Member-single n))
          (unfold replace_child in refl)
    g_self nothing n = elim n [ ]

child_self : (t : Tree) (c : Child) → Counts t → Member c (children t) → Own t c
unfolding children
child_self (pipeline ts) c h m = stage_self ts c m
child_self (farm w n (options s e k f)) c h m = elim (Member-append_cases (worker_children w) _ m) [
  | inl l ↦ worker_self w n (options s e k f) c h l
  | inr r ↦ option_self w n s c e k f r
]
child_self (comb a b) c h m = elim (Member-cons_cases m) [
  | inl e ↦ subst (Own (comb a b)) (sym e) (unfold replace_child in refl)
  | inr n ↦ subst (Own (comb a b)) (sym (Member-single n)) (unfold replace_child in refl)
]
child_self (feedback t name) c h m =
    subst (Own (feedback t name)) (sym (Member-single m)) (unfold replace_child in refl)
child_self (all2all l r x y b) c h m = elim (Member-cons_cases m) [
  | inl e ↦ subst (Own (all2all l r x y b)) (sym e) (unfold replace_child in refl)
  | inr n ↦ elim (Member-cons_cases n) [
    | inl e ↦ subst (Own (all2all l r x y b)) (sym e) (unfold replace_child in refl)
    | inr k ↦ cross_self l r x y b c k
  ]
]
child_self _ c h m = elim m [ ]

-- `f` puts `v` for the block at the steps and `g` puts the old block for `v`.
pub record Undone (f g : Tree → Update) (t v : Tree) (ks : List String) : Type 0 where
  pub whole : Tree
  pub rewritten : rewrite f t ks ≡ put whole
  pub back : rewrite g whole ks ≡ put t

module _ (f g : Tree → Update) (t v : Tree) (k : String) (ks : List String) (c : Child)
    (counts : Counts t) (found : find_child k (children t) ≡ some c)
    (ih : Undone f g c.tree v ks) where
  replaced : Replaced t k ih.whole
  replaced =
      let (m, e) = Member-of_find_child k c (children t) found in
      subst (λ j. Replaced t j ih.whole) e (children-replace_child t ih.whole c m)

  own : replace_child t k (some c.tree) ≡ put t
  own =
      let (m, e) = Member-of_find_child k c (children t) found in
      subst (λ j. replace_child t j (some c.tree) ≡ put t) e (child_self t c counts m)

  Undone-step : Undone f g t v (k ∷ ks)
  Undone-step = record {
    whole = replaced.0;
    rewritten = rewrite-cons f t k ks c found ∙ ap (lift_update t k) ih.rewritten ∙ replaced.1;
    back =
        rewrite-cons g replaced.0 k ks (child k ih.whole)
          (ap (find_child k) replaced.2 ∙ find_child-set_key_self k ih.whole (children t) c found)
        ∙ ap (lift_update replaced.0 k) ih.back
        ∙ replaced.3 c.tree
        ∙ own;
  }

pub rewrite-Undone :
    (f g : Tree → Update) (t u v : Tree) (ks : List String)
    → Counted t
    → descend t ks ≡ some u
    → f u ≡ put v
    → g v ≡ put u
    → Undone f g t v ks
unfolding rewrite
rewrite-Undone f g t u v [] h d e b =
    let found : some t ≡ some u = unfold descend in d in
    let same_block : t ≡ u = cc in
    record { whole = v; rewritten = ap f same_block ∙ e; back = b ∙ ap put (sym same_block) }
rewrite-Undone f g t u v (k ∷ ks) h d e b = elim (Option-cases (find_child k (children t))) [
  | inl missed ↦ let none_found : none ≡ some u = unfold descend in rw (missed, descend) at d in cc
  | inr (c, found) ↦ Undone-step f g t v k ks c (h [] t (descend-nil t)) found (
      rewrite-Undone f g c.tree u v ks (λ js w q. h (k ∷ js) w (descend-cons t k js c found ∙ q))
        (sym (descend-cons t k ks c found) ∙ d) e b)
]

-- An update at a path that is undone by a second update at the same path.
pub update_at-update_at :
    (f g : Tree → Update) (t u v : Tree) (p : String)
    → Counted t
    → get_at t p ≡ some u
    → f u ≡ put v
    → g v ≡ put u
    → update_at (update_at t p f) p g ≡ t
update_at-update_at f g t u v p h d e b =
    let w = rewrite-Undone f g t u v (segments p) h (sym (get_at-descend t p) ∙ d) e b in
    let whole : update_at t p f ≡ w.whole = update_at-rewrite t p f ∙ ap (result t) w.rewritten in
    ap (λ x. update_at x p g) whole ∙ update_at-rewrite w.whole p g ∙ ap (result w.whole) w.back

-- A tree is counted if its root is, and its children are.
pub Counted-step :
    (t : Tree) → Counts t → All (λ (c : Child). Counted c.tree) (children t) → Counted t
unfolding descend
Counted-step t h a [] u e = let f : t ≡ u = cc in subst Counts f h
Counted-step t h a (k ∷ ks) u e = elim (Option-cases (find_child k (children t))) [
  | inl missed ↦
      absurd (let f : none ≡ some u = sym (rw (missed, descend) refl) ∙ e in ground arith)
  | inr (c, found) ↦
      let (m, key) = Member-of_find_child k c (children t) found in
      All-Member (λ (d : Child). Counted d.tree) m a ks u (sym (descend-cons t k ks c found) ∙ e)
]
