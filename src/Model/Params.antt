-- ===== src/Model/Params.antt =====
-- web/src/model/edits.ts: the parameters of `build()`, a list that is edited by name.
pub mod Names
use Prim.Native.Char.{Char, code}
use Prim.Native.String
use text.Mathlib.Text.{◌==◌}
use tolquane.Base.{
  ℕ, zero, suc, ◌+◌, String, ◌<>◌, show, Bool, true, false, ◌&&◌, ◌||◌, not, Option, none, some,
  is_some, List, [], ◌∷◌, ◌++◌, any, keep, map, if◌then◌else◌, leb, nat_eq, is_digit, length,
  erase_idx, insert_at, get_elem?,
}
use tolquane.Model.Types.{FlowParam}
use tolquane.Model.Edits.{Index, clamp}

-- The white space of `trim` and `\s`, with the line ends and the byte order mark.
abbrev pub is_space : Char → Bool
is_space c =
    let n = code c in
    (leb 9 n && leb n 13)
    || (any (nat_eq n) (32 ∷ 160 ∷ 5760 ∷ 8232 ∷ 8233 ∷ 8239 ∷ 8287 ∷ 12288 ∷ 65279 ∷ [])
        || (leb 8192 n && leb n 8202))

abbrev trim_start : String → String
trim_start String.[] = ""
trim_start (String.◌∷◌ c s) = let rest = trim_start s in if is_space c then rest else String.◌∷◌ c s

abbrev pub trim_end : String → String
trim_end String.[] = ""
trim_end (String.◌∷◌ c s) =
    let rest = trim_end s in if rest == "" && is_space c then "" else String.◌∷◌ c rest

unfoldable pub trim : String → String
trim s = trim_end (trim_start s)

abbrev is_letter : Char → Bool
is_letter c =
    (leb b'A' (code c) && leb (code c) b'Z')
    || ((leb b'a' (code c) && leb (code c) b'z') || nat_eq (code c) b'_')

abbrev all_word : String → Bool
all_word String.[] = true
all_word (String.◌∷◌ c s) = (is_letter c || is_digit c) && all_word s

-- `/^[A-Za-z_][A-Za-z0-9_]*$/`
unfoldable pub is_identifier : String → Bool
is_identifier String.[] = false
is_identifier (String.◌∷◌ c s) = is_letter c && all_word s

-- `TAKEN_NAMES`
abbrev taken_names : List String
taken_names = "source" ∷ "self" ∷ "cls" ∷ []

-- `KEYWORDS`
abbrev keywords : List String
keywords =
    "False" ∷ "None" ∷ "True" ∷ "and" ∷ "as" ∷ "assert" ∷ "async" ∷ "await" ∷ "break" ∷ "class"
    ∷ "continue" ∷ "def" ∷ "del" ∷ "elif" ∷ "else" ∷ "except" ∷ "finally" ∷ "for" ∷ "from"
    ∷ "global" ∷ "if" ∷ "import" ∷ "in" ∷ "is" ∷ "lambda" ∷ "nonlocal" ∷ "not" ∷ "or" ∷ "pass"
    ∷ "raise" ∷ "return" ∷ "try" ∷ "while" ∷ "with" ∷ "yield" ∷ []

unfoldable pub is_one_of : List String → String → Bool
is_one_of names name = any (λ n. n == name) names

abbrev is_current : Option String → String → Bool
is_current none name = false
is_current (some c) name = name == c

-- Whether another parameter than the one called `current` has the name.
unfoldable pub clashes : String → Option String → List FlowParam → Bool
clashes name current [] = false
clashes name current (p ∷ ps) =
    (p.name == name && not (is_current current p.name)) || clashes name current ps

abbrev trimmed_error : String → List FlowParam → Option String → Option String
trimmed_error name params current =
    if name == ""
    then some "A parameter needs a name."
    else if not (is_identifier name)
    then some "Letters, digits and underscores only, not starting with a digit."
    else if is_one_of keywords name
    then some (name <> " is a Python keyword.")
    else if is_one_of taken_names name
    then some ("build() already takes " <> name <> ".")
    else if clashes name current params
    then some (name <> " is already a parameter.")
    else none

unfoldable pub param_name_error : String → List FlowParam → Option String → Option String
unfolding is_identifier is_one_of
param_name_error name params current = trimmed_error (trim name) params current

-- The candidates from `n` on; the fuel is how many are left.
unfoldable pub search_name : ℕ → ℕ → List FlowParam → String → String
search_name zero n params base = base <> "_"
search_name (suc f) n params base =
    let rest = search_name f (suc n) params base in
    let candidate = base <> show n in
    if is_some (param_name_error candidate params none) then rest else candidate

-- The numbers from 2 to 999 are tried.
unfoldable pub new_param_name : List FlowParam → String → String
unfolding search_name
new_param_name params base =
    if is_some (param_name_error base params none) then search_name 998 2 params base else base

abbrev pub add_param : List FlowParam → FlowParam → List FlowParam
add_param params p = params ++ p ∷ []

-- `Partial<FlowParam>` as the change that it makes.
abbrev pub set_param : List FlowParam → String → (FlowParam → FlowParam) → List FlowParam
set_param [] name patch = []
set_param (p ∷ ps) name patch = (if p.name == name then patch p else p) ∷ set_param ps name patch

abbrev pub with_name : String → FlowParam → FlowParam
with_name to p = record p { name = to }

abbrev pub rename_param : List FlowParam → String → String → List FlowParam
rename_param params from to = set_param params from (with_name (trim to))

abbrev pub remove_param : List FlowParam → String → List FlowParam
remove_param params name = keep (λ p. not (p.name == name)) params

abbrev index_of : List FlowParam → String → Option ℕ
index_of [] name = none
index_of (p ∷ ps) name =
    if p.name == name
    then some 0
    else elim (index_of ps name) [ none ↦ none | some i ↦ some (suc i) ]

abbrev move_from : List FlowParam → ℕ → Option FlowParam → Index → List FlowParam
move_from params i none to = params
move_from params i (some moved) to =
    let rest = erase_idx params i in insert_at rest (clamp to (length rest)) moved

unfoldable pub move_param : List FlowParam → String → Index → List FlowParam
move_param params name to = elim (index_of params name) [
  | none ↦ params
  | some i ↦ move_from params i (get_elem? params i) to
]
