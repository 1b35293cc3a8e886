-- ===== src/Model/Layout.antt =====
-- web/src/model/types.ts (the sidecar and the expanded graph) and web/src/model/layoutPaths.ts:
-- positions by path, and how they follow the blocks through an edit. The source tells blocks apart by
-- identity; here an address is given for the block at each path. A coordinate is a whole number, and
-- a sample's items are JSON text: they are only stored.
pub mod Alive
pub mod Foreign
use text.Mathlib.Text.{◌==◌}
use tolquane.Base.{
  ℕ, ℤ, pos, String, ◌<>◌, Bool, true, false, ◌&&◌, not, Option, none, some, List, [], ◌∷◌, any,
  keep, concat_map, get_last?, if◌then◌else◌, map, nat_eq, is_some, strip,
}
use tolquane.Model.Types.{Tree}
use tolquane.Model.Tree.{paths}

pub record Position : Type 0 where
  pub x : ℤ
  pub y : ℤ

pub record Viewport : Type 0 where
  pub x : ℤ
  pub y : ℤ
  pub zoom : ℤ

pub record Sample : Type 0 where
  pub name : String
  pub items : List String

-- `Record<string, Position>`, in the order of insertion.
abbrev pub Positions : Type 0
Positions = List (String × Position)

pub record Layout : Type 0 where
  pub version : ℤ
  pub positions : Positions
  pub viewport : Option Viewport
  pub samples : List Sample

abbrev pub empty_layout : Layout
empty_layout = record { version = pos 1; positions = []; viewport = none; samples = [] }

-- `record[key] = value`
abbrev pub put_key {ℓ} : {A : Type ℓ} → List (String × A) → String → A → List (String × A)
put_key [] k v = (k, v) ∷ []
put_key ((l, w) ∷ xs) k v =
    let rest = put_key xs k v in if l == k then (l, v) ∷ xs else (l, w) ∷ rest

-- `record[key]`, of a record written entry by entry, where the last entry of a key stands.
abbrev pub get_key {ℓ} : {A : Type ℓ} → List (String × A) → String → Option A
get_key [] k = none
get_key ((l, w) ∷ xs) k = elim (get_key xs k) [
  | some v ↦ some v
  | none ↦ if l == k then some w else none
]

-- The members that every object inherits from `Object.prototype`, and the functions among them that
-- have another name.
abbrev pub inherited_names : List String
inherited_names =
    "constructor" ∷ "toString" ∷ "toLocaleString" ∷ "valueOf" ∷ "hasOwnProperty" ∷ "isPrototypeOf"
    ∷ "propertyIsEnumerable" ∷ "__defineGetter__" ∷ "__defineSetter__" ∷ "__lookupGetter__"
    ∷ "__lookupSetter__" ∷ "__proto__" ∷ []

abbrev pub member_text : String → String
member_text name =
    if name == "__proto__"
    then "[object Object]"
    else "function " <> (if name == "constructor" then "Object" else name) <> "() { [native code] }"

-- `{}[name]`, as the key that it becomes when a record is written with it.
abbrev pub inherited : String → Option String
inherited name = if any (λ n. n == name) inherited_names then some (member_text name) else none

abbrev pub own_or_inherited : Option String → String → Option String
own_or_inherited (some v) k = some v
own_or_inherited none k = inherited k

-- `renames[key]`: `renames` is an ordinary object, and a key that was not written is looked up in
-- `Object.prototype`.
abbrev pub look_up : List (String × String) → String → Option String
look_up renames k = own_or_inherited (get_key renames k) k

-- A tree with the address of the block at each of its paths.
pub record Object : Type 0 where
  pub tree : Tree
  pub address : String → ℕ

-- `index(tree).get(node)`: the last of the block's paths.
unfoldable pub index_get : Object → ℕ → Option String
index_get o a = get_last? (keep (λ p. nat_eq (o.address p) a) (paths o.tree))

abbrev pub rename : Option String → Option String → List (String × String)
rename (some old) (some path) = if old == path then [] else (old, path) ∷ []
rename _ _ = []

-- A block that stands at several paths gives the same entry for each.
unfoldable pub path_renames : Object → Object → List (String × String)
unfolding index_get
path_renames before after =
    concat_map
      (λ p. rename (index_get before (after.address p)) (index_get after (after.address p)))
      (paths after.tree)

unfoldable pub is_alive : Tree → String → Bool
is_alive t path = any (λ p. p == path) (paths t)

-- A block that a container now encloses leaves its position to the container. See
-- `inherited_name-dead`: the code does not come to ask a function for its start.
abbrev pub swallowed : Tree → String → String → Bool
swallowed after path moved = is_alive after path && is_some (strip (path <> ".") moved)

abbrev pub key_after : Tree → String → Option String → Option String
key_after after path none = if is_alive after path then some path else none
key_after after path (some moved) =
    if not (swallowed after path moved)
    then some moved
    else if is_alive after path
    then some path
    else none

abbrev pub place : Option String → Position → Positions → Positions
place none v out = out
place (some k) v out = put_key out k v

-- The loop of `pathsAfterEdit`, with the positions that it has written.
unfoldable pub re_key : Tree → List (String × String) → Positions → Positions → Positions
re_key after renames [] out = out
re_key after renames ((path, v) ∷ rest) out =
    re_key after renames rest (place (key_after after path (look_up renames path)) v out)

unfoldable pub paths_after_edit : Object → Object → Positions → Positions
unfolding re_key path_renames
paths_after_edit before after positions = re_key after.tree (path_renames before after) positions []

-- `layoutAfterEdit`
abbrev pub layout_after_edit : Layout → Object → Object → Layout
layout_after_edit l before after = record l {
  positions = paths_after_edit before after l.positions;
}
