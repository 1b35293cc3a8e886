-- ===== src/Model/Edits/Stages.antt =====
-- Inserting a stage into a pipeline and removing it again.
use text.Mathlib.Text.{◌==◌}
use text.Mathlib.TextEquality.{eq_iff}
use text.Mathlib.TextLemmas.{append_cancel_left}
use text.Mathlib.TextPositions.{eq_refl}
use mathlib.Core.Option
use tolquane.Base.{
  ℕ, zero, suc, ◌+◌, ◌<◌, ◌≤◌, pos, negsuc, String, ◌<>◌, false, none, some, List, [], ◌∷◌, ◌++◌,
  ◌≡◌, inl, inr, refl, sym, ap, ◌∙◌, subst, arith, Bool-cases, Option-cases, show, show_inj, length,
  get_elem?, insert_at, take, drop,
}
use tolquane.Model.Types.{Tree, pipeline, Trees, to_list, of_list, to_list-of_list}
use tolquane.Model.Tree.{
  Child, numbered, children, join_path, segments, find_child, descend, get_at,
}
use tolquane.Model.Tree.Steps.{stages-IsKey}
use tolquane.Model.Tree.Paths.{get_at-descend, segments-join_path}
use tolquane.Model.Update.{trees}
use tolquane.Model.Update.Laws.{descend-cons, get_at-update_at}
use tolquane.Model.Edits.{Index, at, not_finite, clamp, insert_stage, insert_stage_here}

-- The path of a stage.
abbrev pub stage_path : String → ℕ → String
stage_path p j = join_path p ("stages" <> "." <> show j)

descend-append :
    (t u : Tree) (ks js : List String) → descend t ks ≡ some u → descend t (ks ++ js) ≡ descend u js
unfolding descend
descend-append t u [] js h =
    let found : some t ≡ some u = h in ap (λ x. descend x js) (let e : t ≡ u = cc in e)
descend-append t u (k ∷ ks) js h = elim (Option-cases (find_child k (children t))) [
  | inl missed ↦ let none_found : none ≡ some u = rw (missed, descend) at h in cc
  | inr (c, found) ↦
      descend-cons t k (ks ++ js) c found
      ∙ descend-append c.tree u ks js (sym (descend-cons t k ks c found) ∙ h)
]

stages_key_ne : (i m : ℕ) → i < m → ("stages" <> "." <> show i == "stages" <> "." <> show m) ≡ false
stages_key_ne i m h = elim (Bool-cases ("stages" <> "." <> show i == "stages" <> "." <> show m)) [
  | inl e ↦
      let path = (eq_iff _ _).0 e in
      let eq = show_inj i m (append_cancel_left "." _ _ (append_cancel_left "stages" _ _ path)) in
      absurd (omega arith)
  | inr e ↦ e
]

descend-stages :
    (i j m : ℕ) (ts : List Tree)
    → m ≡ i + j
    → Option.map
        (λ (c : Child). c.tree)
        (find_child ("stages" <> "." <> show m) (numbered "stages" i ts))
      ≡ get_elem? ts j
unfolding find_child numbered
descend-stages i j m [] h = refl
descend-stages i zero m (t ∷ ts) h =
    let e : i ≡ m = omega arith in
    subst
      (λ n.
        Option.map (λ (c : Child). c.tree)
          (find_child ("stages" <> "." <> show n) (numbered "stages" i (t ∷ ts)))
        ≡ some t)
      e (unfold find_child numbered in rw eq_refl refl)
descend-stages i (suc j) m (t ∷ ts) h =
    rw (stages_key_ne i m (omega arith)) (descend-stages (suc i) j m ts (omega arith))

pub descend-one :
    (t : Tree) (k : String)
    → descend t (k ∷ []) ≡ Option.map (λ (c : Child). c.tree) (find_child k (children t))
unfolding descend
descend-one t k = elim (Option-cases (find_child k (children t))) [
  | inl missed ↦ rw (missed, descend)
  | inr (c, found) ↦ rw (found, descend)
]

pub child-stage :
    (ts : Trees) (j : ℕ)
    → Option.map
        (λ (c : Child). c.tree)
        (find_child ("stages" <> "." <> show j) (children (pipeline ts)))
      ≡ get_elem? (to_list ts) j
unfolding children
child-stage ts j = descend-stages 0 j j (to_list ts) (omega arith)

-- What `getAt` finds at the path of a pipeline's stage is that stage, and nothing past the end. The
-- parent's path names a pipeline.
pub get_at-stage_path :
    (t : Tree) (ts : Trees) (p : String) (j : ℕ)
    → get_at t p ≡ some (pipeline ts)
    → get_at t (stage_path p j) ≡ get_elem? (to_list ts) j
get_at-stage_path t ts p j h =
    get_at-descend t (stage_path p j)
    ∙ ap (descend t) (segments-join_path t (pipeline ts) p _ h (stages-IsKey j))
    ∙ descend-append t (pipeline ts) (segments p) _ (sym (get_at-descend t p) ∙ h)
    ∙ descend-one (pipeline ts) ("stages" <> "." <> show j)
    ∙ child-stage ts j

pub clamp-le : (i : Index) (n : ℕ) → clamp i n ≤ n
unfolding clamp
clamp-le not_finite n = omega arith
clamp-le (at (pos i)) n = omega arith
clamp-le (at (negsuc i)) n = omega arith

inserted :
    (t new : Tree) (ts : Trees) (p : String) (i : Index)
    → get_at t p ≡ some (pipeline ts)
    → get_at (insert_stage t p i new) p
      ≡ some (trees (insert_at (to_list ts) (clamp i (length (to_list ts))) new))
unfolding insert_stage
inserted t new ts p i h = get_at-update_at t (pipeline ts) _ p (insert_stage_here i new) h refl

-- Where an index puts a new entry in a list of `n`: a whole number from 0 on at its place or at the
-- end, a negative number and one that is not finite at the front.
pub data Lands : Index → ℕ → ℕ → Type 0 where
  in_range : (a n : ℕ) → a ≤ n → Lands (at (pos a)) n a
  past_end : (a n : ℕ) → n < a → Lands (at (pos a)) n n
  negative : (a n : ℕ) → Lands (at (negsuc a)) n 0
  no_number : (n : ℕ) → Lands not_finite n 0

clamp-Lands : (i : Index) (n k : ℕ) → Lands i n k → clamp i n ≡ k
unfolding clamp
clamp-Lands i n k (in_range a m h) = omega arith
clamp-Lands i n k (past_end a m h) = omega arith
clamp-Lands i n k (negative a m) = refl
clamp-Lands i n k (no_number m) = refl

insert_at-take-drop {ℓ} :
    {A : Type ℓ} (xs : List A) (k : ℕ) (v : A) → insert_at xs k v ≡ take k xs ++ v ∷ drop k xs
insert_at-take-drop [] zero v = refl
insert_at-take-drop [] (suc k) v = refl
insert_at-take-drop (x ∷ xs) zero v = refl
insert_at-take-drop (x ∷ xs) (suc k) v = ap (x ∷◌) (insert_at-take-drop xs k v)

-- After an insertion into the pipeline at a path, what `getAt` finds at the path of any of its stages
-- is the entry of the list of the stages before the place where the index lands, the new block and
-- the stages from that place on. An index from 0 on lands at its place, or at the end when it is past
-- the end; a negative index and one that is not finite land at the front. The path names a pipeline.
pub get_at-insert_stage :
    (t new : Tree) (ts : Trees) (p : String) (i : Index) (k j : ℕ)
    → get_at t p ≡ some (pipeline ts)
    → Lands i (length (to_list ts)) k
    → get_at (insert_stage t p i new) (stage_path p j)
      ≡ get_elem? (take k (to_list ts) ++ new ∷ drop k (to_list ts)) j
get_at-insert_stage t new ts p i k j h l =
    get_at-stage_path (insert_stage t p i new)
      (of_list (insert_at (to_list ts) (clamp i (length (to_list ts))) new)) p j
      (inserted t new ts p i h)
    ∙ ap (λ l. get_elem? l j)
        (to_list-of_list _
          ∙ ap (λ c. insert_at (to_list ts) c new) (clamp-Lands i (length (to_list ts)) k l)
          ∙ insert_at-take-drop (to_list ts) k new)
