-- ===== src/Model/Normal.antt =====
-- web/src/model/normalize.ts: reading loose JSON. `none` is `undefined`. What a tree's JSON holds is
-- read before the tree itself, from the inside out, where the source calls `normalizeTree` on the
-- fields; `JSON.stringify` is given.
pub mod Trees
pub mod Print
pub mod Loads
pub mod Counts
use text.Mathlib.Text.{◌==◌}
use tolquane.Base.{
  ℤ, pos, String, Bool, true, false, Option, none, some, List, [], ◌∷◌, or_else, if◌then◌else◌,
}
use tolquane.Model.Types.{
  NodeKind, NodeDef, EmitPolicy, CollectPolicy, Runtime, FarmSettings, FlowParam,
}
use tolquane.Model.Json.{
  Json, null, bool, number, string, array, object, Jsons, end, item, Members, field, as_record,
}

abbrev pub string_or_null : Option Json → Option String
string_or_null (some (string s)) = some s
string_or_null _ = none

-- `asString`
abbrev pub as_string : Option Json → String → String
as_string v fallback = or_else (string_or_null v) fallback

abbrev pub strings_of : Jsons → List String
strings_of end = []
strings_of (item (string s) js) = s ∷ strings_of js
strings_of (item j js) = strings_of js

-- `asStrings`
abbrev pub as_strings : Option Json → List String
as_strings (some (array js)) = strings_of js
as_strings _ = []

abbrev pub number_or_null : Option Json → Option ℤ
number_or_null (some (number n)) = some n
number_or_null _ = none

-- `asBool`
abbrev pub as_bool : Option Json → Bool → Bool
as_bool (some (bool b)) fallback = b
as_bool _ fallback = fallback

abbrev pub assoc {ℓ} : {A : Type ℓ} → String → List (String × A) → Option A
assoc s [] = none
assoc s ((k, a) ∷ ks) = if s == k then some a else assoc s ks

-- `oneOf`, from the allowed texts and what they stand for.
abbrev pub one_of {ℓ} : {A : Type ℓ} → Option Json → List (String × A) → A → A
one_of (some (string s)) allowed fallback = or_else (assoc s allowed) fallback
one_of _ allowed fallback = fallback

-- `null` and `undefined` are none; another value that is not allowed is the fallback.
abbrev pub maybe_one_of {ℓ} : {A : Type ℓ} → Option Json → List (String × A) → A → Option A
maybe_one_of none allowed fallback = none
maybe_one_of (some null) allowed fallback = none
maybe_one_of (some j) allowed fallback = some (one_of (some j) allowed fallback)

-- `NODE_KINDS`
abbrev pub node_kinds : List (String × NodeKind)
node_kinds =
    ("source", NodeKind.source)
    ∷ ("node", NodeKind.node)
    ∷ ("sink", NodeKind.sink)
    ∷ ("raw", NodeKind.raw)
    ∷ []

-- `EMIT_POLICIES`
abbrev pub emit_policies : List (String × EmitPolicy)
emit_policies =
    ("round_robin", EmitPolicy.round_robin)
    ∷ ("on_demand", EmitPolicy.on_demand)
    ∷ ("broadcast", EmitPolicy.broadcast)
    ∷ ("scatter", EmitPolicy.scatter)
    ∷ ("key", EmitPolicy.key)
    ∷ []

-- `COLLECT_POLICIES`
abbrev pub collect_policies : List (String × CollectPolicy)
collect_policies =
    ("first_come", CollectPolicy.first_come)
    ∷ ("round_robin", CollectPolicy.round_robin)
    ∷ ("ordered", CollectPolicy.ordered)
    ∷ ("gather", CollectPolicy.gather)
    ∷ []

-- `RUNTIMES`
abbrev pub runtimes : List (String × Runtime)
runtimes = ("threads", Runtime.threads) ∷ ("processes", Runtime.processes) ∷ []

abbrev pub node_from : Members → NodeDef
node_from d = record {
  id = as_string (field "id" d) "node";
  kind = one_of (field "kind" d) node_kinds NodeKind.node;
  is_class = as_bool (field "is_class" d) false;
  is_async = as_bool (field "is_async" d) false;
  params = as_strings (field "params" d);
  doc = string_or_null (field "doc" d);
  source = as_string (field "source" d) "";
}

unfoldable pub normalize_node : Json → NodeDef
normalize_node raw = node_from (as_record (some raw))

abbrev pub param_from : Members → FlowParam
param_from d = record {
  name = as_string (field "name" d) "param";
  default = as_string (field "default" d) "None";
  annotation = string_or_null (field "annotation" d);
}

unfoldable pub normalize_param : Json → FlowParam
normalize_param raw = param_from (as_record (some raw))

-- The options of `normalizeOptions` that hold no tree.
abbrev pub settings_from : Members → FarmSettings
settings_from d = record {
  emit = one_of (field "emit" d) emit_policies EmitPolicy.round_robin;
  collect = maybe_one_of (field "collect" d) collect_policies CollectPolicy.first_come;
  ordered = as_bool (field "ordered" d) false;
  prefetch = or_else (number_or_null (field "prefetch" d)) (pos 1);
  window = number_or_null (field "window" d);
  name = string_or_null (field "name" d);
  capacity = number_or_null (field "capacity" d);
  runtime = maybe_one_of (field "runtime" d) runtimes Runtime.threads;
}

-- `(Array.isArray(value) ? value : []).map(f)`
abbrev pub map_items {ℓ} : {A : Type ℓ} → (Json → A) → Jsons → List A
map_items f end = []
map_items f (item j js) = f j ∷ map_items f js

abbrev pub map_array {ℓ} : {A : Type ℓ} → (Json → A) → Option Json → List A
map_array f (some (array js)) = map_items f js
map_array f _ = []
