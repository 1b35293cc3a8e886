-- ===== src/Model/Layout/Alive.antt =====
-- web/src/model/layoutPaths.ts: every position that an edit keeps belongs to a block.
use text.Mathlib.Text.{◌==◌}
use text.Mathlib.TextPositions.{eq_refl}
use tolquane.Base.{
  ℕ, String, Bool, true, false, not, Option, none, some, List, [], ◌∷◌, ◌≡◌, refl, sym, ap, subst,
  ◌∙◌, inl, inr, arith, any, keep, get_last?, nat_eq, if◌then◌else◌, Member, here, there,
  Member-of_concat_map, Member-single, Member-cons_cases, if_cases, Option-cases, All,
}
use tolquane.Model.Types.{Tree}
use tolquane.Model.Tree.{paths}
use tolquane.Model.Layout.{
  Object, Position, Positions, put_key, get_key, inherited_names, own_or_inherited, look_up,
  index_get, path_renames, is_alive, key_after, re_key, paths_after_edit, swallowed, place, rename,
}

any-Member : (p : String) (xs : List String) → Member p xs → any (λ q. q == p) xs ≡ true
any-Member p [] m = elim m [ ]
any-Member p (_ ∷ xs) here = rw eq_refl refl
any-Member p (x ∷ xs) (there m) = ground (arith, any-Member p xs m)

Member-keep {ℓ} :
    {A : Type ℓ} (p : A → Bool) (a : A) (xs : List A) → Member a (keep p xs) → Member a xs
Member-keep p a [] m = m
Member-keep p a (x ∷ xs) m =
    if_cases (λ ys. Member a ys → Member a (x ∷ xs)) (p x)
      (λ e n. elim (Member-cons_cases n) [
        | inl f ↦ subst (λ y. Member a (y ∷ xs)) f here
        | inr k ↦ there (Member-keep p a xs k)
      ])
      (λ e n. there (Member-keep p a xs n)) m

Member-get_last? {ℓ} : {A : Type ℓ} (a : A) (xs : List A) → get_last? xs ≡ some a → Member a xs
Member-get_last? a [] h = absurd (grind arith)
Member-get_last? a (x ∷ []) h = let e : x ≡ a = cc in subst (λ y. Member a (y ∷ [])) (sym e) here
Member-get_last? a (x ∷ y ∷ xs) h = there (Member-get_last? a (y ∷ xs) h)

index_get-is_alive :
    (o : Object) (a : ℕ) (p : String) → index_get o a ≡ some p → is_alive o.tree p ≡ true
unfolding index_get is_alive
index_get-is_alive o a p h = any-Member p (paths o.tree) (
    Member-keep (λ q. nat_eq (o.address q) a) p (paths o.tree)
      (Member-get_last? p (keep (λ q. nat_eq (o.address q) a) (paths o.tree)) h))

-- A list of renames whose every target is a path of the tree.
abbrev ToAlive : Tree → List (String × String) → Type 0
ToAlive t rs =
    (old new : String) → Member {A = String × String} (old, new) rs → is_alive t new ≡ true

rename-ToAlive :
    (t : Tree) (o n : Option String)
    → ((p : String) → n ≡ some p → is_alive t p ≡ true)
    → ToAlive t (rename o n)
rename-ToAlive t none n h old new m = elim m [ ]
rename-ToAlive t (some o) none h old new m = elim m [ ]
rename-ToAlive t (some o) (some p) h old new m =
    if_cases
      (λ (rs : List (String × String)).
        Member {A = String × String} (old, new) rs → is_alive t new ≡ true)
      (o == p) (λ e k. elim k [ ])
      (λ e k. h new (ap (λ (x : String × String). some x.1) (sym (Member-single k)))) m

path_renames-ToAlive : (b a : Object) → ToAlive a.tree (path_renames b a)
unfolding path_renames
path_renames-ToAlive b a old new m =
    let (p, k, n) = Member-of_concat_map _ (paths a.tree) m in
    rename-ToAlive a.tree (index_get b (a.address p)) (index_get a (a.address p))
      (λ q. index_get-is_alive a (a.address p) q) old new n

get_key-Member :
    (rs : List (String × String)) (k v : String)
    → get_key rs k ≡ some v
    → (l : String) × Member {A = String × String} (l, v) rs
get_key-Member [] k v h = absurd (grind arith)
get_key-Member ((l, w) ∷ rs) k v h = elim (Option-cases (get_key rs k)) [
  | inr (u, e) ↦
      let f : u ≡ v = grind arith in
      let (j, m) = get_key-Member rs k v (e ∙ ap some f) in (j, there m)
  | inl e ↦
      let f : w ≡ v = grind arith in
      (l, subst (λ y. Member {A = String × String} (l, v) ((l, y) ∷ rs)) (sym f) here)
]

-- Every key of the positions is a path of the tree.
abbrev pub AllAlive : Tree → Positions → Type 0
AllAlive t ps = All (λ (e : String × Position). is_alive t e.0 ≡ true) ps

put_key-AllAlive :
    (t : Tree) (ps : Positions) (k : String) (v : Position)
    → is_alive t k ≡ true
    → AllAlive t ps
    → AllAlive t (put_key ps k v)
put_key-AllAlive t [] k v h a = (h, tt)
put_key-AllAlive t ((l, w) ∷ ps) k v h a =
    if_cases (AllAlive t) (l == k) (λ e. a) (λ e. (a.0, put_key-AllAlive t ps k v h a.1))

if_alive :
    (t : Tree) (k p : String)
    → (if is_alive t k then some k else none) ≡ some p
    → is_alive t p ≡ true
if_alive t k p =
    if_cases (λ (o : Option String). o ≡ some p → is_alive t p ≡ true) (is_alive t k)
      (λ e h. let f : p ≡ k = cc in ap (is_alive t) f ∙ e) (λ e h. absurd (grind arith))

key_after-is_alive :
    (t : Tree) (k : String) (moved : Option String) (p : String)
    → ((q : String) → moved ≡ some q → is_alive t q ≡ true)
    → key_after t k moved ≡ some p
    → is_alive t p ≡ true
key_after-is_alive t k none p h e = if_alive t k p e
key_after-is_alive t k (some q) p h e =
    if_cases (λ (o : Option String). o ≡ some p → is_alive t p ≡ true) (not (swallowed t k q))
      (λ b f. h p f) (λ b. if_alive t k p) e

place-AllAlive :
    (t : Tree) (k : Option String) (v : Position) (out : Positions)
    → ((p : String) → k ≡ some p → is_alive t p ≡ true)
    → AllAlive t out
    → AllAlive t (place k v out)
place-AllAlive t none v out h a = a
place-AllAlive t (some k) v out h a = put_key-AllAlive t out k v (h k refl) a

-- No key is the name of a member of `Object.prototype`.
abbrev pub NotInherited : Positions → Type 0
NotInherited ps = All (λ (e : String × Position). any (λ n. n == e.0) inherited_names ≡ false) ps

look_up-is_alive :
    (t : Tree) (rs : List (String × String)) (k q : String)
    → ToAlive t rs
    → any (λ n. n == k) inherited_names ≡ false
    → look_up rs k ≡ some q
    → is_alive t q ≡ true
look_up-is_alive t rs k q h n e = go (get_key rs k) (get_key-Member rs k q) e
  where
    go :
        (o : Option String)
        → (o ≡ some q → (l : String) × Member {A = String × String} (l, q) rs)
        → own_or_inherited o k ≡ some q
        → is_alive t q ≡ true
    go (some v) f e = let (l, m) = f e in h l q m
    go none f e = let missing : none ≡ some q = rw n at e in absurd (cc)

re_key-AllAlive :
    (t : Tree) (rs : List (String × String)) (ps out : Positions)
    → ToAlive t rs
    → NotInherited ps
    → AllAlive t out
    → AllAlive t (re_key t rs ps out)
unfolding re_key
re_key-AllAlive t rs [] out h n a = a
re_key-AllAlive t rs ((k, v) ∷ ps) out h n a =
    re_key-AllAlive t rs ps (place (key_after t k (look_up rs k)) v out) h n.1 (
      place-AllAlive t (key_after t k (look_up rs k)) v out
        (λ p. key_after-is_alive t k (look_up rs k) p (λ q. look_up-is_alive t rs k q h n.0)) a)

-- After an edit every position belongs to a block of the new tree: none is kept of a block that is
-- gone, whatever blocks the two trees share. No key of the positions was the name of a member of
-- `Object.prototype`.
pub paths_after_edit-AllAlive :
    (before after : Object) (ps : Positions)
    → NotInherited ps
    → AllAlive after.tree (paths_after_edit before after ps)
unfolding paths_after_edit
paths_after_edit-AllAlive before after ps n =
    re_key-AllAlive after.tree (path_renames before after) ps [] (path_renames-ToAlive before after)
      n tt
