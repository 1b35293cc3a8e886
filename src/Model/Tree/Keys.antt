-- ===== src/Model/Tree/Keys.antt =====
-- The keys of a block's children: what they look like, and that they differ.
use Prim.Native.Char.{Char, code}
use text.Mathlib.Text.{◌==◌}
use text.Mathlib.TextEquality.{eq_iff}
use text.Mathlib.TextLemmas.{append_cancel_left}
use text.Mathlib.TextPositions.{eq_refl}
use mathlib.Core.Path.{subst}
use tolquane.Base.{
  ℕ, suc, ◌<◌, String, ◌<>◌, true, false, some, List, [], ◌∷◌, ◌++◌, ◌≡◌, ◌≢◌, refl, sym, ap, ◌∙◌,
  arith, All, All-append, Member, here, there, All-Member, Bool-cases, inl, inr, show, show_inj,
}
use tolquane.Model.Types.{
  Tree, pipeline, farm, comb, feedback, all2all, Worker, one, many, MaybeTree, nothing, just, Slot,
  default, exposed, block, FarmOptions, options, to_list,
}
use tolquane.Model.Tree.{
  Child, numbered, slot_child, maybe_child, worker_children, option_children, children, find_child,
}
use tolquane.Model.Tree.Steps.{head_code, head_code-append, slot-All, maybe-All}

-- The keys of a list of children are pairwise different.
abbrev pub Distinct : List Child → Type 0
Distinct [] = Unit
Distinct (c ∷ cs) = All (λ d. c.key ≢ d.key) cs × Distinct cs

Distinct-append :
    (cs ds : List Child)
    → Distinct cs
    → Distinct ds
    → All (λ c. All (λ d. c.key ≢ d.key) ds) cs
    → Distinct (cs ++ ds)
Distinct-append [] ds h k a = k
Distinct-append (c ∷ cs) ds h k a =
    (All-append (λ d. c.key ≢ d.key) cs ds h.0 a.0, Distinct-append cs ds h.1 k a.1)

-- Lists whose keys a function tells apart share no key.
keys_apart {ℓ} :
    {B : Type ℓ} (f : String → B) (m n : B) (cs ds : List Child)
    → m ≢ n
    → All (λ c. f c.key ≡ m) cs
    → All (λ d. f d.key ≡ n) ds
    → All (λ c. All (λ d. c.key ≢ d.key) ds) cs
keys_apart f m n [] ds h a b = tt
keys_apart f m n (c ∷ cs) ds h a b = (differ ds b, keys_apart f m n cs ds h a.1 b)
  where
    differ : (es : List Child) → All (λ d. f d.key ≡ n) es → All (λ d. c.key ≢ d.key) es
    differ [] p = tt
    differ (e ∷ es) p = (λ q. h (sym a.0 ∙ ap f q ∙ p.0), differ es p.1)

numbered-head_code :
    (c : Char) (p : String) (i : ℕ) (ts : List Tree)
    → All (λ d. head_code d.key ≡ code c) (numbered (String.◌∷◌ c p) i ts)
unfolding numbered
numbered-head_code c p i [] = tt
numbered-head_code c p i (t ∷ ts) = (head_code-append c p _, numbered-head_code c p (suc i) ts)

pub numbered-later :
    (prefix : String) (i j : ℕ) (ts : List Tree)
    → i < j
    → All (λ d. prefix <> "." <> show i ≢ d.key) (numbered prefix j ts)
unfolding numbered
numbered-later prefix i j [] h = tt
numbered-later prefix i j (t ∷ ts) h = (
  λ e.
      let same = show_inj i j (append_cancel_left "." _ _ (append_cancel_left prefix _ _ e)) in
      absurd (omega arith),
  numbered-later prefix i (suc j) ts (omega arith),
)

numbered-Distinct : (prefix : String) (i : ℕ) (ts : List Tree) → Distinct (numbered prefix i ts)
unfolding numbered
numbered-Distinct prefix i [] = tt
numbered-Distinct prefix i (t ∷ ts) =
    (numbered-later prefix i (suc i) ts (omega arith), numbered-Distinct prefix (suc i) ts)

worker-Distinct : (w : Worker) → Distinct (worker_children w)
worker-Distinct (one t) = (tt, tt)
worker-Distinct (many ts) = numbered-Distinct "worker" 0 (to_list ts)

pub worker-head_code : (w : Worker) → All (λ d. head_code d.key ≡ b'w') (worker_children w)
worker-head_code (one t) = (refl, tt)
worker-head_code (many ts) = numbered-head_code "w" "orker" 0 (to_list ts)

pub options-All {κ} :
    (P : String → Type κ) (s : FarmOptions)
    → P "options.emitter"
    → P "options.collector"
    → P "options.key"
    → All (λ d. P d.key) (option_children s)
options-All P (options s e c k) pe pc pk =
    All-append (λ d. P d.key) (slot_child "options.emitter" e) _ (slot-All P _ e pe)
      (All-append (λ d. P d.key) (slot_child "options.collector" c) _ (slot-All P _ c pc)
        (maybe-All P _ k pk))

-- Two keys that the program writes out.
pub words_differ : (k j : String) → (k == j) ≡ false → k ≢ j
words_differ k j h = ground (arith, eq_iff k j)

slot-Distinct : (k : String) (s : Slot) → Distinct (slot_child k s)
slot-Distinct k default = tt
slot-Distinct k exposed = tt
slot-Distinct k (block t) = (tt, tt)

maybe-Distinct : (k : String) (m : MaybeTree) → Distinct (maybe_child k m)
maybe-Distinct k nothing = tt
maybe-Distinct k (just t) = (tt, tt)

abbrev same_key : String → String
same_key k = k

options-Distinct : (o : FarmOptions) → Distinct (option_children o)
options-Distinct (options s e c k) =
    Distinct-append (slot_child "options.emitter" e) _ (slot-Distinct _ e)
      (Distinct-append (slot_child "options.collector" c) _ (slot-Distinct _ c) (maybe-Distinct _ k)
        (keys_apart same_key "options.collector" "options.key" _ _ (words_differ _ _ refl)
          (slot-All (λ j. j ≡ "options.collector") _ c refl)
          (maybe-All (λ j. j ≡ "options.key") _ k refl)))
      (keys_apart (λ j. j == "options.emitter") true false _ _ (λ q. cc)
        (slot-All (λ j. (j == "options.emitter") ≡ true) _ e refl)
        (All-append (λ (d : Child). (d.key == "options.emitter") ≡ false)
          (slot_child "options.collector" c) _
          (slot-All (λ j. (j == "options.emitter") ≡ false) _ c refl)
          (maybe-All (λ j. (j == "options.emitter") ≡ false) _ k refl)))

cross-Distinct : (x y : MaybeTree) → Distinct (maybe_child "R" x ++ maybe_child "G" y)
cross-Distinct x y =
    Distinct-append (maybe_child "R" x) _ (maybe-Distinct _ x) (maybe-Distinct _ y) (
      keys_apart same_key "R" "G" _ _ (words_differ _ _ refl) (maybe-All (λ j. j ≡ "R") _ x refl)
        (maybe-All (λ j. j ≡ "G") _ y refl))

pub cross-All {κ} :
    (P : String → Type κ) (x y : MaybeTree)
    → P "R"
    → P "G"
    → All (λ (d : Child). P d.key) (maybe_child "R" x ++ maybe_child "G" y)
cross-All P x y r g =
    All-append (λ (d : Child). P d.key) (maybe_child "R" x) _ (maybe-All P _ x r)
      (maybe-All P _ y g)

-- Every child is found by its key.
pub children-Distinct : (t : Tree) → Distinct (children t)
unfolding children
children-Distinct (pipeline ts) = numbered-Distinct "stages" 0 (to_list ts)
children-Distinct (farm w n o) =
    Distinct-append (worker_children w) (option_children o) (worker-Distinct w) (options-Distinct o)
      (keys_apart head_code b'w' b'o' _ _ (omega arith) (worker-head_code w)
        (options-All (λ k. head_code k ≡ b'o') o refl refl refl))
children-Distinct (comb a b) = ((words_differ _ _ refl, tt), (tt, tt))
children-Distinct (feedback t name) = (tt, tt)
children-Distinct (all2all l r x y m) = (
  (
    words_differ _ _ refl,
    cross-All (λ k. "left" ≢ k) x y (words_differ _ _ refl) (words_differ _ _ refl),
  ),
  (
    cross-All (λ k. "right" ≢ k) x y (words_differ _ _ refl) (words_differ _ _ refl),
    cross-Distinct x y,
  ),
)
children-Distinct _ = tt

find_child-ne :
    (c d : Child) (cs : List Child)
    → d.key ≢ c.key
    → find_child c.key (d ∷ cs) ≡ find_child c.key cs
unfolding find_child
find_child-ne c d cs h = ground (arith, eq_iff d.key c.key)

pub find_child-Member :
    (c : Child) (cs : List Child) → Member c cs → Distinct cs → find_child c.key cs ≡ some c
find_child-Member c cs here h = unfold find_child in rw eq_refl
find_child-Member c (d ∷ cs) (there m) h =
    find_child-ne c d cs (All-Member (λ e. d.key ≢ e.key) m h.0) ∙ find_child-Member c cs m h.1

-- A child that is found is one of the children, and has the key.
pub Member-of_find_child :
    (k : String) (c : Child) (cs : List Child)
    → find_child k cs ≡ some c
    → Member c cs × (c.key ≡ k)
unfolding find_child
Member-of_find_child k c [] h = cc
Member-of_find_child k c (d ∷ cs) h = elim (Bool-cases (d.key == k)) [
  | inl e ↦
      let found : some d ≡ some c = rw e at h in
      let same : d ≡ c = cc in
      (
        subst (λ x. Member x (d ∷ cs)) same here,
        ap (λ (x : Child). x.key) (sym same) ∙ (eq_iff _ _).0 e,
      )
  | inr e ↦ let r = Member-of_find_child k c cs (rw e at h) in (there r.0, r.1)
]
