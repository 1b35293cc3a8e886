-- ===== src/Model/Edits.antt =====
-- web/src/model/edits.ts: the edits that the canvas makes to a flow tree.
pub mod Stages
pub mod Wrap
pub mod Remove
use text.Mathlib.Text.{◌==◌}
use tolquane.Base.{
  ℕ, zero, suc, ◌+◌, min, ℤ, pos, negsuc, String, ◌<>◌, Bool, true, false, ◌&&◌, not, Option, none,
  some, is_some, List, [], ◌∷◌, ◌++◌, if◌then◌else◌, read, strip, length, insert_at, erase_idx,
  get_elem?, head?, map,
}
use tolquane.Model.Types.{
  Tree, ref, inline, pipeline, farm, comb, feedback, all2all, Trees, nil, cons, Worker, one, many,
  MaybeTree, nothing, just, Slot, FarmOptions, options, FarmSettings, to_list, of_list,
}
use tolquane.Model.Tree.{default_farm_options, get_at, segments, split_path, preorder}
use tolquane.Model.Update.{Update, same, put, drop, trees, update_at}

-- New blocks.
abbrev pub farm_block : Tree → ℤ → Tree
farm_block worker workers = farm (one worker) workers default_farm_options

abbrev pub comb_block : Tree → Tree → Tree
comb_block a b = comb a b

abbrev pub feedback_block : Tree → Option String → Tree
feedback_block inner name = feedback inner name

abbrev pub all2all_block : Tree → Tree → Tree
all2all_block l r = all2all l r nothing nothing false

abbrev pub pipeline_block : List Tree → Tree
pipeline_block stages = trees stages

-- A number that is no index: negative, or not finite.
pub data Index : Type 0 where
  at : ℤ → Index
  not_finite : Index

unfoldable pub clamp : Index → ℕ → ℕ
clamp not_finite m = 0
clamp (at (negsuc i)) m = 0
clamp (at (pos i)) m = min i m

abbrev pub is_pipeline : Option Tree → Bool
is_pipeline (some (pipeline ts)) = true
is_pipeline _ = false

-- `Number(key.slice('stages.'.length))`, where the key starts with `stages.` and a number follows.
unfoldable pub stage_index : String → Option ℕ
stage_index k = elim (strip "stages." k) [ none ↦ none | some rest ↦ read rest ]

insert_stage_here : Index → Tree → Tree → Update
unfolding clamp
insert_stage_here i new (pipeline ts) =
    put (trees (insert_at (to_list ts) (clamp i (length (to_list ts))) new))
insert_stage_here i new _ = same

unfoldable pub insert_stage : Tree → String → Index → Tree → Tree
unfolding insert_stage_here
insert_stage t path i new = update_at t path (insert_stage_here i new)

join_after : Tree → Tree → Update
join_after new (pipeline ts) = put (trees (to_list ts ++ new ∷ []))
join_after new node = put (pipeline_block (node ∷ new ∷ []))

join_before : Tree → Tree → Update
join_before new (pipeline ts) = put (trees (new ∷ to_list ts))
join_before new node = put (pipeline_block (new ∷ node ∷ []))

-- Whether the block at `path` is a stage of a pipeline, and which.
unfoldable pub stage_of : Tree → String → Option ℕ
unfolding stage_index
stage_of t path =
    let (parent, k) = split_path path in
    if not (path == "") && is_pipeline (get_at t parent) then stage_index k else none

unfoldable pub insert_after : Tree → String → Tree → Tree
unfolding stage_of join_after
insert_after t path new = elim (stage_of t path) [
  | some i ↦ insert_stage t (split_path path).0 (at (pos (i + 1))) new
  | none ↦ update_at t path (join_after new)
]

unfoldable pub insert_before : Tree → String → Tree → Tree
unfolding stage_of join_before
insert_before t path new = elim (stage_of t path) [
  | some i ↦ insert_stage t (split_path path).0 (at (pos i)) new
  | none ↦ update_at t path (join_before new)
]

unfoldable pub append_stage : Tree → Tree → Tree
append_stage (pipeline ts) new = trees (to_list ts ++ new ∷ [])
append_stage node new = pipeline_block (node ∷ new ∷ [])

abbrev is_empty_pipeline : Option Tree → Bool
is_empty_pipeline (some (pipeline nil)) = true
is_empty_pipeline _ = false

abbrev remove_here : Tree → Update
remove_here node = drop

-- The fuel bounds the number of enclosing blocks that are removed as well.
unfoldable pub remove_fuel : ℕ → Tree → String → Tree
remove_fuel zero t path = t
remove_fuel (suc f) t path =
    let next = update_at t path remove_here in
    let parent = (split_path path).0 in
    let again = remove_fuel f next parent in
    if path == ""
    then trees []
    else if not (parent == "") && is_empty_pipeline (get_at next parent)
    then again
    else next

unfoldable pub remove_at : Tree → String → Tree
unfolding remove_fuel
remove_at t path = remove_fuel (suc (length (segments path))) t path

abbrev move_in : Option Tree → List Tree → Index → Update
move_in none rest i = same
move_in (some moved) rest i = put (trees (insert_at rest (clamp i (length rest)) moved))

move_stage_here : ℕ → Index → Tree → Update
unfolding clamp
move_stage_here from i (pipeline ts) =
    move_in (get_elem? (to_list ts) from) (erase_idx (to_list ts) from) i
move_stage_here from i _ = same

unfoldable pub move_stage : Tree → String → Index → Tree
unfolding stage_index move_stage_here
move_stage t path i = elim (stage_index (split_path path).1) [
  | none ↦ t
  | some from ↦ update_at t (split_path path).0 (move_stage_here from i)
]

unfoldable pub wrap_in_farm : Tree → String → ℤ → Tree
wrap_in_farm t path workers = update_at t path (λ node. put (farm_block node workers))

unfoldable pub wrap_in_feedback : Tree → String → Option String → Tree
wrap_in_feedback t path name = update_at t path (λ node. put (feedback_block node name))

abbrev first_or_same : List Tree → Update
first_or_same [] = same
first_or_same (t ∷ ts) = put t

abbrev only_stage : Trees → Update
only_stage (cons t nil) = put t
only_stage _ = same

unwrap_here : Tree → Update
unwrap_here (farm (many ts) n o) = first_or_same (to_list ts)
unwrap_here (farm (one t) n o) = put t
unwrap_here (feedback t name) = put t
unwrap_here (comb a b) = put (pipeline_block (a ∷ b ∷ []))
unwrap_here (pipeline ts) = only_stage ts
unwrap_here (all2all l r x y m) = put (pipeline_block (l ∷ r ∷ []))
unwrap_here _ = same

unfoldable pub unwrap : Tree → String → Tree
unfolding unwrap_here
unwrap t path = update_at t path unwrap_here

-- `Partial<FarmOptions>` as the change that it makes.
set_options_here : (FarmOptions → FarmOptions) → Tree → Update
set_options_here patch (farm w n o) = put (farm w n (patch o))
set_options_here patch _ = same

unfoldable pub set_farm_options : Tree → String → (FarmOptions → FarmOptions) → Tree
unfolding set_options_here
set_farm_options t path patch = update_at t path (set_options_here patch)

-- `Math.max(1, n)` on whole numbers.
abbrev pub at_least_one : ℤ → ℤ
at_least_one (pos zero) = pos 1
at_least_one (pos (suc n)) = pos (suc n)
at_least_one (negsuc n) = pos 1

set_workers_here : ℤ → Tree → Update
set_workers_here n (farm (one t) m o) = put (farm (one t) (at_least_one n) o)
set_workers_here n _ = same

unfoldable pub set_workers : Tree → String → ℤ → Tree
unfolding set_workers_here
set_workers t path n = update_at t path (set_workers_here n)

unfoldable pub replace_at : Tree → String → Tree → Tree
replace_at t path new = update_at t path (λ old. put new)

abbrev rename_options : Option String → FarmOptions → FarmOptions
rename_options name (options s e c k) = options (record s { name = name }) e c k

set_name_here : Option String → Tree → Update
set_name_here name (feedback t old) = put (feedback t name)
set_name_here name (farm w n o) = put (farm w n (rename_options name o))
set_name_here name _ = same

unfoldable pub set_block_name : Tree → String → Option String → Tree
unfolding set_name_here
set_block_name t path name = update_at t path (set_name_here name)

set_merge_here : Bool → Tree → Update
set_merge_here merge (all2all l r x y old) = put (all2all l r x y merge)
set_merge_here merge _ = same

unfoldable pub set_merge : Tree → String → Bool → Tree
unfolding set_merge_here
set_merge t path merge = update_at t path (set_merge_here merge)

-- `which: 'R' | 'G'`
pub data Which : Type 0 where
  big_r big_g : Which

set_cross_here : Which → MaybeTree → Tree → Update
set_cross_here big_r new (all2all l r x y m) = put (all2all l r new y m)
set_cross_here big_g new (all2all l r x y m) = put (all2all l r x new m)
set_cross_here _ new _ = same

unfoldable pub set_cross_block : Tree → String → Which → MaybeTree → Tree
unfolding set_cross_here
set_cross_block t path which new = update_at t path (set_cross_here which new)

abbrev a_path : String → Tree → List String
a_path path t = path ∷ []

unfoldable pub card_paths : Tree → List String
card_paths t = preorder a_path "" t
