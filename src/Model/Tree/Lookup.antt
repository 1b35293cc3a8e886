-- ===== src/Model/Tree/Lookup.antt =====
-- Paths name blocks: what the walk lists and what `getAt` finds are the same.
use mathlib.Core.Path.{subst}
use text.Mathlib.Text.{◌==◌}
use text.Mathlib.TextEquality.{eq_iff}
use text.Mathlib.TextLemmas.{append_assoc as text_assoc, append-eq-nil_iff}
use tolquane.Base.{
  String, ◌<>◌, false, none, some, List, [], ◌∷◌, ◌++◌, append-nil, ◌≡◌, ◌≢◌, inl, inr, refl, sym,
  ap, ◌∙◌, arith, All, Member, All-Member, Bool-cases, Option-cases, is_index, split_on,
  split_on-append, split_on-Avoids, join_dots, join_dots-split_on,
}
use tolquane.Model.Types.{Tree}
use tolquane.Model.Tree.{
  Child, children, join_path, makes_pair, group, segments, find_child, descend,
}
use tolquane.Model.Tree.Keys.{children-Distinct, find_child-Member, Member-of_find_child}
use tolquane.Model.Tree.Steps.{IsKey, single, double, children-HasKey}

-- The block `u` is reached from `t` by stepping to the children with these keys.
pub data Reaches : Tree → List String → Tree → Type 0 where
  stop : {t : Tree} → Reaches t [] t
  step :
      {t u : Tree} {c : Child} {ks : List String}
      → Member c (children t)
      → Reaches c.tree ks u
      → Reaches t (c.key ∷ ks) u

pub descend-Reaches : {t u : Tree} {ks : List String} → Reaches t ks u → descend t ks ≡ some u
unfolding descend
descend-Reaches stop = refl
descend-Reaches (step {t} {c} m r) =
    rw (find_child-Member c (children t) m (children-Distinct t), descend) (descend-Reaches r)

pub Reaches_of_descend : (t u : Tree) (ks : List String) → descend t ks ≡ some u → Reaches t ks u
unfolding descend
Reaches_of_descend t u [] h = subst (λ x. Reaches t [] x) (cc) stop
Reaches_of_descend t u (k ∷ ks) h = elim (Option-cases (find_child k (children t))) [
  | inl e ↦ let missed : none ≡ some u = rw (e, descend) at h in cc
  | inr (c, e) ↦
      let (m, same) = Member-of_find_child k c (children t) e in
      rw (← same) (step m (Reaches_of_descend c.tree u ks (rw (e, descend) at h)))
]

-- The parts of a key that `split('.')` gives.
parts : {k : String} → IsKey k → List String
parts {k} (single a b c d e) = k ∷ []
parts (double w n a b c d e f) = w ∷ n ∷ []

split-key :
    (k t : String) (h : IsKey k) → split_on b'.' (k <> "." <> t) ≡ parts h ++ split_on b'.' t
unfolding parts
split-key k t (single a b c d e) = split_on-append k t a
split-key k t (double w n p a b c d e) =
    ap (λ x. split_on b'.' (x <> "." <> t)) p
    ∙ rw (text_assoc, text_assoc)
        (split_on-append w (n <> "." <> t) a ∙ ap (w ∷◌) (split_on-append n t b))

split-key_last : (k : String) (h : IsKey k) → split_on b'.' k ≡ parts h
unfolding parts
split-key_last k (single a b c d e) = split_on-Avoids b'.' k a
split-key_last k (double w n p a b c d e) =
    ap (split_on b'.') p ∙ split_on-append w n a ∙ ap (w ∷◌) (split_on-Avoids b'.' n b)

-- The part is not read as the index of the part before it.
abbrev NotIndexHead : List String → Type 0
NotIndexHead [] = Unit
NotIndexHead (p ∷ ps) = is_index p ≡ false

group-parts :
    (k : String) (h : IsKey k) (rest : List String)
    → NotIndexHead rest
    → group (parts h ++ rest) ≡ k ∷ group rest
unfolding group parts
group-parts k (single a b c d e) [] i = refl
group-parts k (single a b c d e) (n ∷ rest) i = ground arith
group-parts k (double w n p a b c d e) rest i = rw c (ap (λ x. x ∷ group rest) (sym p))

abbrev pub Keys : List String → Type 0
Keys ks = All IsKey ks

all_parts : (ks : List String) → Keys ks → List String
unfolding parts
all_parts [] h = []
all_parts (k ∷ ks) h = parts h.0 ++ all_parts ks h.1

parts-NotIndexHead :
    (k : String) (h : IsKey k) (rest : List String) → NotIndexHead (parts h ++ rest)
unfolding parts
parts-NotIndexHead k (single a b c d e) rest = d
parts-NotIndexHead k (double w n p a b c d e) rest = d

all_parts-NotIndexHead : (ks : List String) (h : Keys ks) → NotIndexHead (all_parts ks h)
unfolding all_parts
all_parts-NotIndexHead [] h = tt
all_parts-NotIndexHead (k ∷ ks) h = parts-NotIndexHead k h.0 _

group-all_parts : (ks : List String) (h : Keys ks) → group (all_parts ks h) ≡ ks
unfolding all_parts
group-all_parts [] h = unfold group in refl
group-all_parts (k ∷ ks) h =
    group-parts k h.0 _ (all_parts-NotIndexHead ks h.1) ∙ ap (k ∷◌) (group-all_parts ks h.1)

split-join_dots :
    (k : String) (ks : List String) (h : Keys (k ∷ ks))
    → split_on b'.' (join_dots (k ∷ ks)) ≡ all_parts (k ∷ ks) h
unfolding all_parts join_dots
split-join_dots k [] h = split-key_last k h.0 ∙ sym (append-nil _)
split-join_dots k (j ∷ ks) h =
    split-key k (join_dots (j ∷ ks)) h.0 ∙ ap (λ r. parts h.0 ++ r) (split-join_dots j ks h.1)

pub IsKey-ne-empty : (k : String) → IsKey k → k ≢ ""
IsKey-ne-empty k (single a b c d e) q = ground (arith, eq_iff k "")
IsKey-ne-empty k (double w n p a b c d e) q = ground (arith, eq_iff k "")

pub join_dots-ne-empty : (k : String) (ks : List String) → k ≢ "" → join_dots (k ∷ ks) ≢ ""
unfolding join_dots
join_dots-ne-empty k [] h e = h e
join_dots-ne-empty k (j ∷ ks) h e = h (append-eq-nil_iff.0 e).0

-- A path that is joined from keys is split into those keys.
pub segments-join_dots : (ks : List String) → Keys ks → segments (join_dots ks) ≡ ks
unfolding segments
segments-join_dots [] h = unfold join_dots in refl
segments-join_dots (k ∷ ks) h =
    let ne = join_dots-ne-empty k ks (IsKey-ne-empty k h.0) in
    let test : (join_dots (k ∷ ks) == "") ≡ false =
      ground (arith, eq_iff (join_dots (k ∷ ks)) "") in
    rw test (ap group (split-join_dots k ks h) ∙ group-all_parts (k ∷ ks) h)

join_dots-cons :
    (x : String) (ps : List String) → ps ≢ [] → join_dots (x ∷ ps) ≡ x <> "." <> join_dots ps
unfolding join_dots
join_dots-cons x [] h = absurd (h refl)
join_dots-cons x (p ∷ ps) h = refl

group-ne-nil : (p : String) (ps : List String) → group (p ∷ ps) ≢ []
unfolding group
group-ne-nil p [] e = cc
group-ne-nil p (n ∷ ps) e = ground arith

join_dots-pair :
    (p n : String) (ps : List String)
    → join_dots (group ps) ≡ join_dots ps
    → join_dots ((p <> "." <> n) ∷ group ps) ≡ join_dots (p ∷ n ∷ ps)
unfolding join_dots
join_dots-pair p n [] ih = unfold group in refl
join_dots-pair p n (q ∷ qs) ih =
    join_dots-cons (p <> "." <> n) (group (q ∷ qs)) (group-ne-nil q qs)
    ∙ ap (λ r. (p <> "." <> n) <> "." <> r) ih
    ∙ rw (text_assoc, text_assoc) refl

join_dots-group : (ps : List String) → join_dots (group ps) ≡ join_dots ps
unfolding group
join_dots-group [] = refl
join_dots-group (p ∷ []) = refl
join_dots-group (p ∷ n ∷ ps) = elim (Bool-cases (makes_pair p n)) [
  | inl e ↦ rw e (join_dots-pair p n ps (join_dots-group ps))
  | inr e ↦ rw e (
      join_dots-cons p (group (n ∷ ps)) (group-ne-nil n ps)
      ∙ ap (λ r. p <> "." <> r) (join_dots-group (n ∷ ps))
      ∙ sym (join_dots-cons p (n ∷ ps) (λ q. cc)))
]

-- The steps of a path join to the path again.
pub join_dots-segments : (p : String) → join_dots (segments p) ≡ p
unfolding segments
join_dots-segments p = elim (Bool-cases (p == "")) [
  | inl e ↦ rw e (unfold join_dots in sym ((eq_iff p "").0 e))
  | inr e ↦ rw e (join_dots-group (split_on b'.' p) ∙ join_dots-split_on p)
]

-- The path that a walk from `base` gives to the block that these keys lead to.
abbrev pub path_from : String → List String → String
path_from base [] = base
path_from base (k ∷ ks) = path_from (join_path base k) ks

pub join_path-cons : (b k : String) → b ≢ "" → join_path b k ≡ b <> "." <> k
unfolding join_path
join_path-cons b k h = ground (arith, eq_iff b "")

path_from-join_dots : (b : String) (ks : List String) → b ≢ "" → path_from b ks ≡ join_dots (b ∷ ks)
unfolding join_dots
path_from-join_dots b [] h = refl
path_from-join_dots b (k ∷ []) h = join_path-cons b k h
path_from-join_dots b (k ∷ j ∷ ks) h =
    ap (λ x. path_from x (j ∷ ks)) (join_path-cons b k h)
    ∙ path_from-join_dots (b <> "." <> k) (j ∷ ks) (λ e. h (append-eq-nil_iff.0 e).0)
    ∙ rw (text_assoc, text_assoc) refl

pub path_from-root : (ks : List String) → Keys ks → path_from "" ks ≡ join_dots ks
path_from-root [] h = unfold join_dots in refl
path_from-root (k ∷ ks) h = unfold join_path in path_from-join_dots k ks (IsKey-ne-empty k h.0)

pub Reaches-Keys : {t u : Tree} {ks : List String} → Reaches t ks u → Keys ks
Reaches-Keys stop = tt
Reaches-Keys (step {t} m r) = (All-Member (λ c. IsKey c.key) m (children-HasKey t), Reaches-Keys r)
