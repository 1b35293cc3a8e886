-- ===== src/Ai/Diff.antt =====
-- web/src/ai/diff.ts: the line diff of two texts, and folding its unchanged lines.
pub mod Longest
pub mod Rows
pub mod Fold
use text.Mathlib.Text.{◌==◌}
use tolquane.Base.{
  ℕ, zero, suc, ◌+◌, ◌-◌, ◌*◌, max, String, Bool, true, false, ◌&&◌, ◌||◌, not, Option, none, some,
  is_some, List, [], ◌∷◌, ◌++◌, length, get_elem?, drop_last, get_last?, or_else, if◌then◌else◌,
  leb, ltb, split_on, any,
}

pub data DiffKind : Type 0 where
  same add remove : DiffKind

pub record DiffLine : Type 0 where
  pub kind : DiffKind
  pub text : String
  pub before : Option ℕ
  pub after : Option ℕ

pub data DiffRow : Type 0 where
  line : DiffLine → DiffRow
  gap : ℕ → DiffRow

-- `MAX_CELLS`
abbrev pub max_cells : ℕ
max_cells = 4000000

abbrev is_blank : Option String → Bool
is_blank none = false
is_blank (some s) = s == ""

-- A line end at the end of the text starts no line.
unfoldable pub split : String → List String
split text =
    let lines = split_on b'\n' text in
    if text == ""
    then []
    else if ltb 1 (length lines) && is_blank (get_last? lines)
    then drop_last lines
    else lines

abbrev pub head_cell : List ℕ → ℕ
head_cell [] = 0
head_cell (n ∷ ns) = n

abbrev pub tail_cells : List ℕ → List ℕ
tail_cells [] = []
tail_cells (n ∷ ns) = ns

-- The row of the table for the line `x`, from the row below it, from the right to the left.
unfoldable pub table_row : String → List String → List ℕ → List ℕ
table_row x [] below = 0 ∷ []
table_row x (y ∷ ys) below =
    let rest = table_row x ys (tail_cells below) in
    (if x == y then head_cell (tail_cells below) + 1 else max (head_cell below) (head_cell rest))
    ∷ rest

unfoldable pub last_row : List String → List ℕ
last_row [] = 0 ∷ []
last_row (y ∷ ys) = 0 ∷ last_row ys

abbrev pub first_row : List (List ℕ) → List ℕ
first_row [] = []
first_row (r ∷ rs) = r

-- The rows of the table, the first line's first; the row below the last line holds zeros.
unfoldable pub table : List String → List String → List (List ℕ)
unfolding table_row last_row
table [] b = last_row b ∷ []
table (x ∷ xs) b = let rest = table xs b in table_row x b (first_row rest) ∷ rest

-- `lcs[i * width + j] ?? 0`
unfoldable pub cell : List (List ℕ) → ℕ → ℕ → ℕ
cell t i j = or_else (get_elem? (or_else (get_elem? t i) []) j) 0

abbrev pub same_line : String → ℕ → ℕ → DiffLine
same_line text i j = record {
  kind = same;
  text = text;
  before = some (i + 1);
  after = some (j + 1);
}

abbrev pub removed_line : String → ℕ → DiffLine
removed_line text i = record { kind = remove; text = text; before = some (i + 1); after = none }

abbrev pub added_line : String → ℕ → DiffLine
added_line text j = record { kind = add; text = text; before = none; after = some (j + 1) }

unfoldable pub removed_from : ℕ → List String → List DiffLine
removed_from i [] = []
removed_from i (x ∷ xs) = removed_line x i ∷ removed_from (suc i) xs

unfoldable pub added_from : ℕ → List String → List DiffLine
added_from j [] = []
added_from j (y ∷ ys) = added_line y j ∷ added_from (suc j) ys

-- The loops that read the table, from the lines `i` and `j` on.
unfoldable pub rows_from : (ℕ → ℕ → ℕ) → ℕ → ℕ → List String → List String → List DiffLine
unfolding removed_from added_from
rows_from lcs i j [] ys = added_from j ys
rows_from lcs i j (x ∷ xs) [] = removed_from i (x ∷ xs)
rows_from lcs i j (x ∷ xs) (y ∷ ys) =
    let both = rows_from lcs (suc i) (suc j) xs ys in
    let left = rows_from lcs (suc i) j xs (y ∷ ys) in
    let right = rows_from lcs i (suc j) (x ∷ xs) ys in
    if x == y
    then same_line x i j ∷ both
    else if leb (lcs i (suc j)) (lcs (suc i) j)
    then removed_line x i ∷ left
    else added_line y j ∷ right

unfoldable pub diff_of : List String → List String → List DiffLine
unfolding rows_from
diff_of a b =
    if ltb max_cells (length a * length b)
    then removed_from 0 a ++ added_from 0 b
    else rows_from (cell (table a b)) 0 0 a b

unfoldable pub diff_lines : String → String → List DiffLine
unfolding diff_of
diff_lines before after = diff_of (split before) (split after)

-- How many lines are added, and how many are removed.
unfoldable pub diff_stat : List DiffLine → ℕ × ℕ
diff_stat [] = (0, 0)
diff_stat (r ∷ rs) =
    let rest = diff_stat rs in
    elim r.kind [ same ↦ rest | add ↦ (suc rest.0, rest.1) | remove ↦ (rest.0, suc rest.1) ]

abbrev pub is_change : DiffLine → Bool
is_change r = elim r.kind [ same ↦ false | add ↦ true | remove ↦ true ]

abbrev change_near : ℕ → ℕ → ℕ → List DiffLine → Bool
change_near context at i [] = false
change_near context at i (r ∷ rs) =
    (is_change r && (leb (i - context) at && leb at (i + context)))
    || change_near context at (suc i) rs

-- `keep[at]`: a change lies at most `context` lines away.
unfoldable pub is_kept : ℕ → List DiffLine → ℕ → Bool
is_kept context rows at = change_near context at 0 rows

unfoldable pub flush : ℕ → List DiffRow
flush zero = []
flush (suc n) = gap (suc n) ∷ []

-- The second loop of `collapse`, with the length of the gap so far.
unfoldable pub fold_from : (ℕ → Bool) → ℕ → ℕ → List DiffLine → List DiffRow
unfolding flush
fold_from kept i pending [] = flush pending
fold_from kept i pending (r ∷ rs) =
    let shown = flush pending ++ (line r ∷ fold_from kept (suc i) 0 rs) in
    let folded = fold_from kept (suc i) (suc pending) rs in if kept i then shown else folded

unfoldable pub collapse : List DiffLine → ℕ → List DiffRow
unfolding fold_from is_kept
collapse rows context = fold_from (is_kept context rows) 0 0 rows
