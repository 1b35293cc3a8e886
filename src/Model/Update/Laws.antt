-- ===== src/Model/Update/Laws.antt =====
-- What `updateAt` and `setAt` promise: the block at the path changes, and no block elsewhere does.
use text.Mathlib.Text.{◌==◌}
use text.Mathlib.TextEquality.{eq_iff}
use text.Mathlib.TextPositions.{eq_refl}
use tolquane.Base.{
  String, none, some, List, [], ◌∷◌, ◌++◌, append-nil, ◌≡◌, ◌≢◌, ◌⊎◌, inl, inr, refl, sym, ap, ◌∙◌,
  subst, arith, Bool-cases, Option-cases,
}
use tolquane.Model.Types.{Tree}
use tolquane.Model.Tree.{Child, child, children, segments, find_child, descend, get_at}
use tolquane.Model.Tree.Keys.{Member-of_find_child}
use tolquane.Model.Tree.Paths.{get_at-descend}
use tolquane.Model.Update.{Update, same, put, lift_update, rewrite, result, update_at}
use tolquane.Model.Update.Children.{children-replace_child}
use tolquane.Model.Update.Keyed.{set_key}
use tolquane.Model.Update.Workers.{Replaced}

pub find_child-set_key_self :
    (k : String) (v : Tree) (cs : List Child) (c : Child)
    → find_child k cs ≡ some c
    → find_child k (set_key k v cs) ≡ some (child k v)
unfolding find_child
find_child-set_key_self k v [] c h = cc
find_child-set_key_self k v (d ∷ cs) c h =
    ground (arith, eq_refl k, find_child-set_key_self k v cs c)

find_child-set_key_ne :
    (k j : String) (v : Tree) (cs : List Child)
    → j ≢ k
    → find_child j (set_key k v cs) ≡ find_child j cs
unfolding find_child
find_child-set_key_ne k j v [] h = refl
find_child-set_key_ne k j v (d ∷ cs) h =
    ground (arith, eq_iff k j, eq_iff d.key j, eq_iff d.key k, find_child-set_key_ne k j v cs h)

-- Two paths part: neither leads through the other.
abbrev pub Diverges : List String → List String → Type 0
Diverges [] js = ⊥
Diverges (k ∷ ks) [] = ⊥
Diverges (k ∷ ks) (j ∷ js) = (j ≢ k) ⊎ ((j ≡ k) × Diverges ks js)

-- A rewrite that puts a block: the tree changes at the steps, and nowhere beside them.
pub record Rewritten (f : Tree → Update) (t : Tree) (ks : List String) (v : Tree) : Type 0 where
  pub whole : Tree
  pub rewritten : rewrite f t ks ≡ put whole
  pub inside : (ms : List String) → descend whole (ks ++ ms) ≡ descend v ms
  pub beside : (js : List String) → Diverges ks js → descend whole js ≡ descend t js

pub descend-nil : (t : Tree) → descend t [] ≡ some t
unfolding descend
descend-nil t = refl

pub descend-cons :
    (t : Tree) (k : String) (ks : List String) (c : Child)
    → find_child k (children t) ≡ some c
    → descend t (k ∷ ks) ≡ descend c.tree ks
unfolding descend
descend-cons t k ks c e = rw (e, descend)

descend-congr :
    (t u : Tree) (k : String) (ks : List String)
    → find_child k (children t) ≡ find_child k (children u)
    → descend t (k ∷ ks) ≡ descend u (k ∷ ks)
unfolding descend
descend-congr t u k ks e = rw (e, descend) refl

pub rewrite-cons :
    (f : Tree → Update) (t : Tree) (k : String) (ks : List String) (c : Child)
    → find_child k (children t) ≡ some c
    → rewrite f t (k ∷ ks) ≡ lift_update t k (rewrite f c.tree ks)
unfolding rewrite
rewrite-cons f t k ks c e = rw (e, rewrite)

module _ (f : Tree → Update) (t v : Tree) (k : String) (ks : List String) (c : Child)
    (found : find_child k (children t) ≡ some c) (ih : Rewritten f c.tree ks v) where
  replaced : Replaced t k ih.whole
  replaced =
      let (m, e) = Member-of_find_child k c (children t) found in
      subst (λ j. Replaced t j ih.whole) e (children-replace_child t ih.whole c m)

  below_key : find_child k (children replaced.0) ≡ some (child k ih.whole)
  below_key = ap (find_child k) replaced.2 ∙ find_child-set_key_self k ih.whole (children t) c found

  beside_key : (js : List String) → Diverges (k ∷ ks) js → descend replaced.0 js ≡ descend t js
  beside_key [] d = absurd d
  beside_key (j ∷ js) (inl ne) =
      descend-congr replaced.0 t j js
        (ap (find_child j) replaced.2 ∙ find_child-set_key_ne k j ih.whole (children t) ne)
  beside_key (j ∷ js) (inr (e, d)) =
      subst (λ i. descend replaced.0 (i ∷ js) ≡ descend t (i ∷ js)) (sym e)
        (descend-cons replaced.0 k js (child k ih.whole) below_key
          ∙ ih.beside js d
          ∙ sym (descend-cons t k js c found))

  Rewritten-step : Rewritten f t (k ∷ ks) v
  Rewritten-step = record {
    whole = replaced.0;
    rewritten = rewrite-cons f t k ks c found ∙ ap (lift_update t k) ih.rewritten ∙ replaced.1;
    inside = λ ms. descend-cons replaced.0 k (ks ++ ms) (child k ih.whole) below_key ∙ ih.inside ms;
    beside = beside_key;
  }

pub rewrite-Rewritten :
    (f : Tree → Update) (t u v : Tree) (ks : List String)
    → descend t ks ≡ some u
    → f u ≡ put v
    → Rewritten f t ks v
unfolding rewrite descend
rewrite-Rewritten f t u v [] h e = record {
  whole = v;
  rewritten = (let same_block : t ≡ u = cc in ap f same_block ∙ e);
  inside = λ ms. refl;
  beside = λ js d. absurd d;
}
rewrite-Rewritten f t u v (k ∷ ks) h e = elim (Option-cases (find_child k (children t))) [
  | inl missed ↦ let none_found : none ≡ some u = rw (missed, descend) at h in cc
  | inr (c, found) ↦
      Rewritten-step f t v k ks c found
        (rewrite-Rewritten f c.tree u v ks (sym (descend-cons t k ks c found) ∙ h) e)
]

-- A rewrite along two lists of steps is a rewrite of the block between them.
pub rewrite-append :
    (f : Tree → Update) (t : Tree) (ks js : List String)
    → rewrite f t (ks ++ js) ≡ rewrite (λ u. rewrite f u js) t ks
unfolding rewrite
rewrite-append f t [] js = refl
rewrite-append f t (k ∷ ks) js = elim (Option-cases (find_child k (children t))) [
  | inl missed ↦ rw (missed, rewrite)
  | inr (c, found) ↦
      rewrite-cons f t k (ks ++ js) c found
      ∙ ap (lift_update t k) (rewrite-append f c.tree ks js)
      ∙ sym (rewrite-cons (λ u. rewrite f u js) t k ks c found)
]

-- Where the update leaves whatever stands at the steps alone, the rewrite gives the same object.
rewrite_stays :
    (f : Tree → Update) (t : Tree) (ks : List String)
    → ((u : Tree) → descend t ks ≡ some u → f u ≡ same)
    → rewrite f t ks ≡ same
unfolding rewrite
rewrite_stays f t [] h = h t (unfold descend in refl)
rewrite_stays f t (k ∷ ks) h = elim (Option-cases (find_child k (children t))) [
  | inl missed ↦ rw (missed, rewrite)
  | inr (c, found) ↦
      rewrite-cons f t k ks c found
      ∙ ap (lift_update t k)
          (rewrite_stays f c.tree ks (λ u q. h u (descend-cons t k ks c found ∙ q)))
]

pub update_at-rewrite :
    (t : Tree) (p : String) (f : Tree → Update)
    → update_at t p f ≡ result t (rewrite f t (segments p))
unfolding update_at segments
update_at-rewrite t p f = elim (Bool-cases (p == "")) [ inl e ↦ rw e | inr e ↦ rw e ]

updated :
    (t u v : Tree) (p : String) (f : Tree → Update)
    → get_at t p ≡ some u
    → f u ≡ put v
    → (w : Rewritten f t (segments p) v) × (update_at t p f ≡ w.whole)
updated t u v p f h e =
    let w = rewrite-Rewritten f t u v (segments p) (sym (get_at-descend t p) ∙ h) e in
    (w, update_at-rewrite t p f ∙ ap (result t) w.rewritten)

-- After an update that puts a block at a path, `getAt` finds that block at the path. The path names
-- a block, which the update changes.
pub get_at-update_at :
    (t u v : Tree) (p : String) (f : Tree → Update)
    → get_at t p ≡ some u
    → f u ≡ put v
    → get_at (update_at t p f) p ≡ some v
get_at-update_at t u v p f h e =
    let (w, whole) = updated t u v p f h e in
    ap (λ x. get_at x p) whole
    ∙ get_at-descend w.whole p
    ∙ ap (descend w.whole) (sym (append-nil (segments p)))
    ∙ w.inside []
    ∙ descend-nil v

-- After an update that puts a block at a path, `getAt` finds at another path what it found there
-- before. The first path names a block, which the update changes, and neither path leads through
-- the other.
pub get_at-update_at_beside :
    (t u v : Tree) (p q : String) (f : Tree → Update)
    → get_at t p ≡ some u
    → f u ≡ put v
    → Diverges (segments p) (segments q)
    → get_at (update_at t p f) q ≡ get_at t q
get_at-update_at_beside t u v p q f h e d =
    let (w, whole) = updated t u v p f h e in
    ap (λ x. get_at x q) whole
    ∙ get_at-descend w.whole q
    ∙ w.beside (segments q) d
    ∙ sym (get_at-descend t q)

-- An update that leaves the block alone leaves the tree alone.
pub update_at-same :
    (t u : Tree) (p : String) (f : Tree → Update)
    → get_at t p ≡ some u
    → f u ≡ same
    → update_at t p f ≡ t
update_at-same t u p f h e =
    update_at-rewrite t p f
    ∙ ap (result t) (
        rewrite_stays f t (segments p)
          (λ x q. let one_block : x ≡ u = cc (get_at-descend t p) in ap f one_block ∙ e))

-- An update at a path that names nothing leaves the tree as it is.
pub update_at-missing :
    (t : Tree) (p : String) (f : Tree → Update) → get_at t p ≡ none → update_at t p f ≡ t
update_at-missing t p f h =
    update_at-rewrite t p f
    ∙ ap (result t) (
        rewrite_stays f t (segments p)
          (λ x q. let none_found : none ≡ some x = cc (get_at-descend t p) in cc))
