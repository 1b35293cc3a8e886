-- ===== src/Model/Tree.antt =====
-- web/src/model/tree.ts: the children of a block, paths, and walking the flow tree.
pub mod Keys
pub mod Steps
pub mod Walk
pub mod Lookup
pub mod Paths
use text.Mathlib.Text.{◌==◌}
use tolquane.Base.{
  ℕ, zero, suc, pos, String, ◌<>◌, Bool, true, false, ◌&&◌, ◌||◌, Option, none, some, List, [], ◌∷◌,
  ◌++◌, ◌+◌, concat_map, find, drop_last, get_last?, or_else, if◌then◌else◌, show, is_index,
  split_on, join_dots, map, is_some,
}
use tolquane.Model.Types.{
  Tree, start, ref, inline, pipeline, farm, comb, feedback, all2all, Trees, nil, cons, Worker, one,
  many, MaybeTree, nothing, just, Slot, default, exposed, block, FarmOptions, options, to_list,
  FarmSettings, EmitPolicy,
}

-- `ROOT`
abbrev pub root : String
root = ""

abbrev pub default_settings : FarmSettings
default_settings = record {
  emit = EmitPolicy.round_robin;
  collect = none;
  ordered = false;
  prefetch = pos 1;
  window = none;
  name = none;
  capacity = none;
  runtime = none;
}

abbrev pub default_farm_options : FarmOptions
default_farm_options = options default_settings default default nothing

unfoldable pub is_container : Tree → Bool
is_container (ref id) = false
is_container (inline source) = false
is_container start = false
is_container _ = true

unfoldable pub farm_workers : Worker → List Tree
farm_workers (one t) = t ∷ []
farm_workers (many ts) = to_list ts

unfoldable pub is_heterogeneous : Worker → Bool
is_heterogeneous (one t) = false
is_heterogeneous (many ts) = true

pub record Child : Type 0 where
  pub key : String
  pub tree : Tree

abbrev pub child : String → Tree → Child
child k t = record { key = k; tree = t }

-- `trees.map((tree, index) => ({ key: `${prefix}.${index}`, tree }))`, from index `i`.
unfoldable pub numbered : String → ℕ → List Tree → List Child
numbered prefix i [] = []
numbered prefix i (t ∷ ts) = child (prefix <> "." <> show i) t ∷ numbered prefix (suc i) ts

abbrev pub slot_child : String → Slot → List Child
slot_child k (block t) = child k t ∷ []
slot_child k default = []
slot_child k exposed = []

abbrev pub maybe_child : String → MaybeTree → List Child
maybe_child k nothing = []
maybe_child k (just t) = child k t ∷ []

abbrev pub worker_children : Worker → List Child
worker_children (one t) = child "worker" t ∷ []
worker_children (many ts) = numbered "worker" 0 (to_list ts)

abbrev pub option_children : FarmOptions → List Child
option_children (options s e c k) =
    slot_child "options.emitter" e
    ++ (slot_child "options.collector" c ++ maybe_child "options.key" k)

unfoldable pub children : Tree → List Child
unfolding numbered
children (pipeline stages) = numbered "stages" 0 (to_list stages)
children (farm w n o) = worker_children w ++ option_children o
children (comb a b) = child "first" a ∷ child "second" b ∷ []
children (feedback t name) = child "inner" t ∷ []
children (all2all l r big_r big_g merge) =
    child "left" l ∷ child "right" r ∷ (maybe_child "R" big_r ++ maybe_child "G" big_g)
children _ = []

unfoldable pub join_path : String → String → String
join_path parent k = if parent == "" then k else parent <> "." <> k

-- The test of `segments` for two parts that make one step.
unfoldable pub makes_pair : String → String → Bool
makes_pair part next =
    ((part == "stages" || part == "worker") && is_index next)
    || (part == "options" && (next == "emitter" || (next == "collector" || next == "key")))

-- The loop of `segments`.
unfoldable pub group : List String → List String
unfolding makes_pair
group [] = []
group (part ∷ []) = part ∷ []
group (part ∷ next ∷ parts) =
    let pair = (part <> "." <> next) ∷ group parts in
    let single = part ∷ group (next ∷ parts) in if makes_pair part next then pair else single

unfoldable pub segments : String → List String
unfolding group
segments path = if path == "" then [] else group (split_on b'.' path)

-- The parent's path and the last step.
unfoldable pub split_path : String → String × String
split_path path =
    if path == ""
    then ("", "")
    else (join_dots (drop_last (segments path)), or_else (get_last? (segments path)) "")

-- The number of blocks, which bounds how deep a walk goes.
unfoldable mutual
  pub size : Tree → ℕ
  size (pipeline ts) = suc (size_trees ts)
  size (farm w n o) = suc (size_worker w + size_options o)
  size (comb a b) = suc (size a + size b)
  size (feedback t name) = suc (size t)
  size (all2all l r x y m) = suc (size l + size r + size_maybe x + size_maybe y)
  size _ = 1

  pub size_trees : Trees → ℕ
  size_trees nil = 0
  size_trees (cons t ts) = size t + size_trees ts

  pub size_worker : Worker → ℕ
  size_worker (one t) = size t
  size_worker (many ts) = size_trees ts

  pub size_maybe : MaybeTree → ℕ
  size_maybe nothing = 0
  size_maybe (just t) = size t

  pub size_slot : Slot → ℕ
  size_slot (block t) = size t
  size_slot _ = 0

  pub size_options : FarmOptions → ℕ
  size_options (options s e c k) = size_slot e + size_slot c + size_maybe k

-- What `visit` gives at a block, then at all its children in order, each with its path.
module _ {ℓ} {A : Type ℓ} (visit : String → Tree → List A) where
  pub preorder_fuel : ℕ → String → Tree → List A
  preorder_fuel zero base t = []
  preorder_fuel (suc f) base t =
      visit base t
      ++ concat_map (λ (c : Child). preorder_fuel f (join_path base c.key) c.tree) (children t)

  unfoldable pub preorder : String → Tree → List A
  unfolding preorder_fuel size
  preorder base t = preorder_fuel (size t) base t

abbrev pub entry : String → Tree → List (String × Tree)
entry path t = (path, t) ∷ []

unfoldable pub walk : Tree → List (String × Tree)
walk t = preorder entry "" t

unfoldable pub paths : Tree → List String
unfolding walk
paths t = map (λ e. e.0) (walk t)

unfoldable pub find_child : String → List Child → Option Child
find_child k cs = find (λ c. c.key == k) cs

-- The loop of `getAt`, over the steps of the path.
unfoldable pub descend : Tree → List String → Option Tree
unfolding find_child
descend t [] = some t
descend t (k ∷ ks) = elim (find_child k (children t)) [ none ↦ none | some c ↦ descend c.tree ks ]

unfoldable pub get_at : Tree → String → Option Tree
unfolding descend
get_at t path = if path == "" then some t else descend t (segments path)

unfoldable pub has_path : Tree → String → Bool
unfolding get_at
has_path t path = is_some (get_at t path)
