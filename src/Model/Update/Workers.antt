-- ===== src/Model/Update/Workers.antt =====
-- Replacing a worker of a farm.
use text.Mathlib.Text.{◌==◌}
use text.Mathlib.TextEquality.{eq_iff}
use text.Mathlib.TextLemmas.{
  cons-append, append-nil as text_append_nil, append_cancel_left, cons-ne-nil, append-eq-nil_iff,
}
use tolquane.Base.{
  ℕ, zero, suc, ◌<◌, ℤ, pos, String, ◌<>◌, false, none, some, List, [], ◌∷◌, ◌++◌, ◌≡◌, ◌≢◌, inl,
  inr, refl, sym, ap, ◌∙◌, arith, All-mono, Bool-cases, show, strip, set, set-set, length-set,
  length, ap₂,
}
use tolquane.Model.Types.{
  Tree, pipeline, farm, Trees, Worker, one, many, FarmOptions, to_list, of_list, to_list-of_list,
}
use tolquane.Model.Tree.{child, numbered, worker_children, option_children, children}
use tolquane.Model.Tree.Keys.{worker-head_code, options-All, words_differ}
use tolquane.Model.Tree.Steps.{head_code}
use tolquane.Model.Update.{put, replace_farm_child, recount, replace_child}
use tolquane.Model.Update.Keyed.{
  set_key, set_key-append, Lacks, set_key-Lacks, numbered-set, index_of_key-stages,
  index_of_key-worker,
}

-- The replacement succeeds, changes the children as `set_key` says, and is forgotten when the child
-- is replaced once more.
abbrev pub Replaced : Tree → String → Tree → Type 0
Replaced t k v =
    (u : Tree) × (replace_child t k (some v) ≡ put u)
    × (children u ≡ set_key k v (children t))
    × ((w : Tree) → replace_child u k (some w) ≡ replace_child t k (some w))

pub stages-Replaced :
    (ts : Trees) (v : Tree) (j : ℕ) → Replaced (pipeline ts) ("stages" <> "." <> show j) v
unfolding replace_child children
stages-Replaced ts v j = (
  pipeline (of_list (set (to_list ts) j v)),
  rw (index_of_key-stages j, replace_child),
  ap (numbered "stages" 0) (to_list-of_list _)
      ∙ sym (numbered-set "stages" v 0 j j (to_list ts) (omega arith)),
  λ w.
      rw (index_of_key-stages j, replace_child)
        (ap (λ l. put (pipeline (of_list l)))
          (ap (λ l. set l j w) (to_list-of_list _) ∙ set-set (to_list ts) j v w)),
)

-- A worker's key is no option's, and is not the single worker's when it has an index.
pub strip-worker : (s : String) → strip "options." ("worker" <> s) ≡ none
unfolding strip
strip-worker s = rw cons-append

pub worker-index_ne : (s : String) → ("worker" <> "." <> s == "worker") ≡ false
worker-index_ne s = elim (Bool-cases ("worker" <> "." <> s == "worker")) [
  | inl e ↦
      let path = (eq_iff _ _).0 e ∙ sym (text_append_nil "worker") in
      let dot_empty = (append-eq-nil_iff.0 (append_cancel_left "worker" ("." <> s) "" path)).0 in
      absurd (cons-ne-nil _ _ dot_empty)
  | inr e ↦ e
]

set-ne-nil : (ts : List Tree) (j : ℕ) (v : Tree) → j < length ts → set ts j v ≢ []
set-ne-nil [] j v h e = absurd (omega arith)
set-ne-nil (t ∷ ts) zero v h e = cc
set-ne-nil (t ∷ ts) (suc j) v h e = cc

recount_lem :
    (ts : List Tree) (o : FarmOptions)
    → ts ≢ []
    → recount ts o ≡ put (farm (many (of_list ts)) (pos (length ts)) o)
recount_lem [] o h = absurd (h refl)
recount_lem (t ∷ ts) o h = refl

options-Lack :
    (k : String) (o : FarmOptions)
    → (k == "options.emitter") ≡ false
    → (k == "options.collector") ≡ false
    → (k == "options.key") ≡ false
    → Lacks k (option_children o)
options-Lack k o a b c =
    options-All (λ j. k ≢ j) o (words_differ k _ a) (words_differ k _ b) (words_differ k _ c)

worker-Lack : (s : String) (o : FarmOptions) → Lacks ("worker" <> "." <> s) (option_children o)
worker-Lack s o =
    options-All (λ j. "worker" <> "." <> s ≢ j) o (differ _ refl) (differ _ refl) (differ _ refl)
  where
    differ : (j : String) → head_code j ≡ b'o' → "worker" <> "." <> s ≢ j
    differ j h e =
        absurd (omega (arith, ap head_code (sym (cons-append "w" "orker" ("." <> s)) ∙ e)))

pub workers-Lack : (k : String) (w : Worker) → head_code k ≡ b'o' → Lacks k (worker_children w)
workers-Lack k w h =
    All-mono _ _ (worker_children w) (λ d p q. absurd (omega (arith, ap head_code q)))
      (worker-head_code w)

pub replace_farm_child-index :
    (ts : Trees) (n : ℤ) (o : FarmOptions) (v : Tree) (j : ℕ)
    → j < length (to_list ts)
    → replace_farm_child (many ts) n o ("worker" <> "." <> show j) (some v)
      ≡ put (farm (many (of_list (set (to_list ts) j v))) (pos (length (set (to_list ts) j v))) o)
unfolding replace_farm_child
replace_farm_child-index ts n o v j h =
    rw (strip-worker ("." <> show j), replace_farm_child)
      (rw (worker-index_ne (show j), index_of_key-worker j) (recount_lem _ o (set-ne-nil _ j v h)))

replace_farm_child-again :
    (ts : Trees) (n m : ℤ) (o : FarmOptions) (v w : Tree) (j : ℕ)
    → j < length (to_list ts)
    → replace_farm_child
        (many (of_list (set (to_list ts) j v)))
        m
        o
        ("worker" <> "." <> show j)
        (some w)
      ≡ replace_farm_child (many ts) n o ("worker" <> "." <> show j) (some w)
replace_farm_child-again ts n m o v w j h =
    replace_farm_child-index (of_list (set (to_list ts) j v)) m o w j
      (rw (to_list-of_list, length-set) h)
    ∙ ap (λ l. put (farm (many (of_list l)) (pos (length l)) o))
        (ap (λ l. set l j w) (to_list-of_list _) ∙ set-set (to_list ts) j v w)
    ∙ sym (replace_farm_child-index ts n o w j h)

-- Replacing what a farm's `worker.j` holds.
pub many-Replaced :
    (ts : Trees) (n : ℤ) (o : FarmOptions) (v : Tree) (j : ℕ)
    → j < length (to_list ts)
    → Replaced (farm (many ts) n o) ("worker" <> "." <> show j) v
unfolding replace_child children
many-Replaced ts n o v j h = (
  farm (many (of_list (set (to_list ts) j v))) (pos (length (set (to_list ts) j v))) o,
  unfold replace_child in replace_farm_child-index ts n o v j h,
  ap (λ l. numbered "worker" 0 l ++ option_children o) (to_list-of_list _)
      ∙ ap₂ (λ a b. a ++ b) (sym (numbered-set "worker" v 0 j j (to_list ts) (omega arith)))
          (sym (set_key-Lacks _ v _ (worker-Lack (show j) o)))
      ∙ sym (set_key-append _ v (numbered "worker" 0 (to_list ts)) (option_children o)),
  λ w. replace_farm_child-again ts n _ o v w j h,
)

pub one-Replaced :
    (t : Tree) (n : ℤ) (o : FarmOptions) (v : Tree) → Replaced (farm (one t) n o) "worker" v
unfolding replace_child children strip
one-Replaced t n o v = (
  farm (one v) n o,
  refl,
  ap (child "worker" v ∷◌)
      (sym (set_key-Lacks "worker" v _ (options-Lack "worker" o refl refl refl))),
  λ w. refl,
)
