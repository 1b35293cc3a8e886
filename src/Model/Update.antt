-- ===== src/Model/Update.antt =====
-- web/src/model/tree.ts: rewriting the tree at a path. The source compares a rewritten child with the
-- old one by identity; here what a rewrite gives says whether it is the same object.
pub mod Children
pub mod Keyed
pub mod Workers
pub mod Farms
pub mod Laws
pub mod Restore
use text.Mathlib.Text.{◌==◌}
use tolquane.Base.{
  ℕ, zero, suc, ℤ, pos, String, Bool, true, false, ◌||◌, Option, none, some, List, [], ◌∷◌,
  if◌then◌else◌, read, length, set, erase_idx, strip,
}
use tolquane.Model.Types.{
  Tree, start, ref, inline, pipeline, farm, comb, feedback, all2all, Trees, nil, cons, Worker, one,
  many, MaybeTree, nothing, just, Slot, default, exposed, block, FarmOptions, options, to_list,
  of_list,
}
use tolquane.Model.Tree.{children, find_child, segments}

-- What an update gives for a block: the very same object, another block, or `null`.
pub data Update : Type 0 where
  same : Update
  put : Tree → Update
  drop : Update

abbrev pub trees : List Tree → Tree
trees ts = pipeline (of_list ts)

-- `indexOfKey`
unfoldable pub index_of_key : String → String → Option ℕ
index_of_key k prefix = elim (strip prefix k) [ none ↦ none | some rest ↦ read rest ]

-- `stages.splice(index, 1)` or `stages[index] = child`
abbrev pub rewrite_list : List Tree → ℕ → Option Tree → List Tree
rewrite_list ts i none = erase_idx ts i
rewrite_list ts i (some t) = set ts i t

abbrev pub to_slot : Option Tree → Slot
to_slot none = default
to_slot (some t) = block t

abbrev pub to_maybe : Option Tree → MaybeTree
to_maybe none = nothing
to_maybe (some t) = just t

-- The branch of `replaceFarmChild` for a key that starts with `options.`.
replace_option : Worker → ℤ → FarmOptions → String → Option Tree → Update
replace_option w n (options s e c k) option new =
    if option == "emitter"
    then put (farm w n (options s (to_slot new) c k))
    else if option == "collector"
    then put (farm w n (options s e (to_slot new) k))
    else if option == "key"
    then put (farm w n (options s e c (to_maybe new)))
    else same

-- A farm that is left with no worker is left alone.
abbrev recount : List Tree → FarmOptions → Update
recount [] o = same
recount (t ∷ ts) o = put (farm (many (of_list (t ∷ ts))) (pos (length (t ∷ ts))) o)

replace_worker : Worker → FarmOptions → Option ℕ → Option Tree → Update
replace_worker w o none new = same
replace_worker (one t) o (some i) new = same
replace_worker (many ts) o (some i) new = recount (rewrite_list (to_list ts) i new) o

abbrev replace_single : ℤ → FarmOptions → Option Tree → Update
replace_single n o none = same
replace_single n o (some t) = put (farm (one t) n o)

unfoldable pub replace_farm_child : Worker → ℤ → FarmOptions → String → Option Tree → Update
unfolding replace_option replace_worker index_of_key
replace_farm_child w n o k new = elim (strip "options." k) [
  | some option ↦ replace_option w n o option new
  | none ↦
      if k == "worker"
      then replace_single n o new
      else replace_worker w o (index_of_key k "worker.") new
]

abbrev replace_stage : Trees → Option ℕ → Option Tree → Update
replace_stage ts none new = same
replace_stage ts (some i) new = put (trees (rewrite_list (to_list ts) i new))

abbrev replace_side : Tree → Tree → String → Option Tree → Update
replace_side a b k none = same
replace_side a b k (some t) =
    if k == "first" then put (comb t b) else if k == "second" then put (comb a t) else same

abbrev replace_inner : Option String → Option Tree → Update
replace_inner name none = same
replace_inner name (some t) = put (feedback t name)

abbrev replace_end : (Tree → Tree) → Option Tree → Update
replace_end f none = same
replace_end f (some t) = put (f t)

abbrev replace_cross : Tree → Tree → MaybeTree → MaybeTree → Bool → String → Option Tree → Update
replace_cross l r x y m k new =
    if k == "left"
    then replace_end (λ t. all2all t r x y m) new
    else if k == "right"
    then replace_end (λ t. all2all l t x y m) new
    else if k == "R"
    then put (all2all l r (to_maybe new) y m)
    else if k == "G"
    then put (all2all l r x (to_maybe new) m)
    else same

-- `none` drops the child; `same` is the parent itself.
unfoldable pub replace_child : Tree → String → Option Tree → Update
unfolding replace_farm_child index_of_key
replace_child (pipeline ts) k new = replace_stage ts (index_of_key k "stages.") new
replace_child (farm w n o) k new = replace_farm_child w n o k new
replace_child (comb a b) k new = replace_side a b k new
replace_child (feedback t name) k new = replace_inner name new
replace_child (all2all l r x y m) k new = replace_cross l r x y m k new
replace_child _ k new = same

-- What the parent becomes, given what its child became.
abbrev pub lift_update : Tree → String → Update → Update
lift_update parent k same = same
lift_update parent k (put t) = replace_child parent k (some t)
lift_update parent k drop = replace_child parent k none

-- The recursion of `updateAt`, over the steps of the path.
unfoldable pub rewrite : (Tree → Update) → Tree → List String → Update
rewrite update t [] = update t
rewrite update t (k ∷ ks) = elim (find_child k (children t)) [
  | none ↦ same
  | some c ↦ lift_update t k (rewrite update c.tree ks)
]

-- At the root a block that is removed stays.
abbrev pub result : Tree → Update → Tree
result t same = t
result t (put u) = u
result t drop = t

unfoldable pub update_at : Tree → String → (Tree → Update) → Tree
unfolding rewrite
update_at t path update =
    if path == "" then result t (update t) else result t (rewrite update t (segments path))

unfoldable pub set_at : Tree → String → Tree → Tree
unfolding update_at
set_at t path value = update_at t path (λ old. put value)
