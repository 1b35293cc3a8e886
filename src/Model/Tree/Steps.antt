-- ===== src/Model/Tree/Steps.antt =====
-- Every key of a block's children is one step of a path.
use Prim.Native.Char.{Char, code}
use text.Mathlib.Text.{◌==◌}
use text.Mathlib.TextEquality.{eq_iff}
use text.Mathlib.TextLemmas.{cons-append, cons-ne-nil}
use tolquane.Base.{
  ℕ, suc, String, ◌<>◌, true, false, List, [], ◌∷◌, ◌≡◌, refl, arith, All, All-append, Bool-cases,
  inl, inr, Avoids, show, show-Avoids, is_index, is_index-show,
}
use tolquane.Model.Types.{
  Tree, start, ref, inline, pipeline, farm, comb, feedback, all2all, Worker, one, many, MaybeTree,
  nothing, just, Slot, default, exposed, block, FarmOptions, options, to_list,
}
use tolquane.Model.Tree.{
  Child, numbered, slot_child, maybe_child, worker_children, option_children, children, makes_pair,
}

-- A key is one part of a path, or two parts that `segments` puts together.
pub data IsKey (k : String) : Type 0 where
  single :
      Avoids b'.' k
      → (k == "stages") ≡ false
      → (k == "options") ≡ false
      → is_index k ≡ false
      → (k == "") ≡ false
      → IsKey k
  double :
      (w n : String)
      → k ≡ w <> "." <> n
      → Avoids b'.' w
      → Avoids b'.' n
      → makes_pair w n ≡ true
      → is_index w ≡ false
      → (k == "") ≡ false
      → IsKey k

abbrev HasKey : Child → Type 0
HasKey c = IsKey c.key

-- A text that starts with a given character.
abbrev pub head_code : String → ℕ
head_code String.[] = 0
head_code (String.◌∷◌ c s) = code c

pub head_code-append : (c : Char) (p s : String) → head_code ((String.◌∷◌ c p) <> s) ≡ code c
head_code-append c p s = rw cons-append

pub cons-ne-empty : (c : Char) (p s : String) → (((String.◌∷◌ c p) <> s) == "") ≡ false
cons-ne-empty c p s = rw cons-append (elim (Bool-cases ((String.◌∷◌ c (p <> s)) == "")) [
  | inl e ↦ absurd (cons-ne-nil c (p <> s) ((eq_iff _ _).0 e))
  | inr e ↦ e
])

pub stages-IsKey : (i : ℕ) → IsKey ("stages" <> "." <> show i)
unfolding makes_pair
stages-IsKey i =
    double "stages" (show i) refl (omega arith) (show-Avoids i) (rw (is_index-show i)) refl
      (cons-ne-empty _ _ _)

worker-IsKey : (i : ℕ) → IsKey ("worker" <> "." <> show i)
unfolding makes_pair
worker-IsKey i =
    double "worker" (show i) refl (omega arith) (show-Avoids i) (rw (is_index-show i)) refl
      (cons-ne-empty _ _ _)

stages-HasKey : (i : ℕ) (ts : List Tree) → All HasKey (numbered "stages" i ts)
unfolding numbered
stages-HasKey i [] = tt
stages-HasKey i (t ∷ ts) = (stages-IsKey i, stages-HasKey (suc i) ts)

workers-HasKey : (i : ℕ) (ts : List Tree) → All HasKey (numbered "worker" i ts)
unfolding numbered
workers-HasKey i [] = tt
workers-HasKey i (t ∷ ts) = (worker-IsKey i, workers-HasKey (suc i) ts)

-- What holds of the key holds of the child that a slot gives, if it gives one.
pub slot-All {κ} :
    (P : String → Type κ) (k : String) (s : Slot)
    → P k
    → All (λ (d : Child). P d.key) (slot_child k s)
slot-All P k default h = tt
slot-All P k exposed h = tt
slot-All P k (block t) h = (h, tt)

pub maybe-All {κ} :
    (P : String → Type κ) (k : String) (m : MaybeTree)
    → P k
    → All (λ (d : Child). P d.key) (maybe_child k m)
maybe-All P k nothing h = tt
maybe-All P k (just t) h = (h, tt)

plain-IsKey :
    (IsKey "worker")
    × (IsKey "first")
    × (IsKey "second")
    × (IsKey "inner")
    × (IsKey "left")
    × (IsKey "right")
    × (IsKey "R")
    × (IsKey "G")
plain-IsKey = (
  single (omega arith) refl refl refl refl,
  single (omega arith) refl refl refl refl,
  single (omega arith) refl refl refl refl,
  single (omega arith) refl refl refl refl,
  single (omega arith) refl refl refl refl,
  single (omega arith) refl refl refl refl,
  single (omega arith) refl refl refl refl,
  single (omega arith) refl refl refl refl,
)

option-IsKey : (IsKey "options.emitter") × (IsKey "options.collector") × (IsKey "options.key")
unfolding makes_pair
option-IsKey = (
  double "options" "emitter" refl (omega arith) (omega arith) refl refl refl,
  double "options" "collector" refl (omega arith) (omega arith) refl refl refl,
  double "options" "key" refl (omega arith) (omega arith) refl refl refl,
)

worker-HasKey : (w : Worker) → All HasKey (worker_children w)
worker-HasKey (one t) = (plain-IsKey.0, tt)
worker-HasKey (many ts) = workers-HasKey 0 (to_list ts)

options-HasKey : (o : FarmOptions) → All HasKey (option_children o)
options-HasKey (options s e c k) =
    All-append HasKey (slot_child "options.emitter" e) _ (slot-All IsKey _ e option-IsKey.0) (
      All-append HasKey (slot_child "options.collector" c) _ (slot-All IsKey _ c option-IsKey.1)
        (maybe-All IsKey _ k option-IsKey.2))

-- Every child's key is one step of a path.
pub children-HasKey : (t : Tree) → All HasKey (children t)
unfolding children
children-HasKey start = tt
children-HasKey (ref id) = tt
children-HasKey (inline source) = tt
children-HasKey (pipeline ts) = stages-HasKey 0 (to_list ts)
children-HasKey (farm w n o) =
    All-append HasKey (worker_children w) _ (worker-HasKey w) (options-HasKey o)
children-HasKey (comb a b) = (plain-IsKey.1, (plain-IsKey.2, tt))
children-HasKey (feedback t name) = (plain-IsKey.3, tt)
children-HasKey (all2all l r x y m) = (
  plain-IsKey.4,
  (
    plain-IsKey.5,
    All-append HasKey (maybe_child "R" x) _ (maybe-All IsKey _ x plain-IsKey.6)
        (maybe-All IsKey _ y plain-IsKey.7),
  ),
)
