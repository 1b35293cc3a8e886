-- ===== src/Model/Json.antt =====
-- Values of JSON, as `JSON.parse` gives them: a number is a whole number, and the keys of an object are
-- distinct.
use text.Mathlib.Text.{◌==◌}
use tolquane.Base.{ℤ, String, Bool, Option, none, some, if◌then◌else◌}

mutual
  pub data Json : Type 0 where
    null : Json
    bool : Bool → Json
    number : ℤ → Json
    string : String → Json
    array : Jsons → Json
    object : Members → Json

  pub data Jsons : Type 0 where
    end : Jsons
    item : Json → Jsons → Jsons

  pub data Members : Type 0 where
    empty : Members
    member : String → Json → Members → Members

-- `data[key]`; an array has none of the fields that are read.
abbrev pub field : String → Members → Option Json
field key empty = none
field key (member k v ms) = if k == key then some v else field key ms

-- `asRecord`
abbrev pub as_record : Option Json → Members
as_record (some (object ms)) = ms
as_record _ = empty
