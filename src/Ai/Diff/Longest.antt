-- ===== src/Ai/Diff/Longest.antt =====
-- web/src/ai/diff.ts: the table holds the lengths of the longest common subsequences.
use text.Mathlib.Text.{◌==◌}
use text.Mathlib.TextPositions.{eq_refl}
use tolquane.Base.{
  ℕ, zero, suc, ◌+◌, max, ◌≤◌, String, List, [], ◌∷◌, length, get_elem?, drop, or_else,
  if◌then◌else◌, if_cases, ◌⊎◌, inl, inr, ◌≡◌, refl, sym, ap, ap₂, ◌∙◌, arith,
}
use tolquane.Ai.Diff.{head_cell, table_row, last_row, first_row, table, cell}

-- The recurrence of the table, on the lines that are left.
unfoldable pub lcs : List String → List String → ℕ
lcs [] ys = 0
lcs (x ∷ xs) [] = 0
lcs (x ∷ xs) (y ∷ ys) =
    let both = lcs xs ys in
    let left = lcs xs (y ∷ ys) in
    let right = lcs (x ∷ xs) ys in if x == y then both + 1 else max left right

-- The cells of a row: the recurrence for every number of lines that are skipped.
lcs_row : List String → List String → List ℕ
lcs_row xs [] = lcs xs [] ∷ []
lcs_row xs (y ∷ ys) = lcs xs (y ∷ ys) ∷ lcs_row xs ys

lcs-nil : (xs : List String) → lcs xs [] ≡ 0
unfolding lcs
lcs-nil [] = refl
lcs-nil (x ∷ xs) = refl

head-lcs_row : (xs ys : List String) → head_cell (lcs_row xs ys) ≡ lcs xs ys
unfolding lcs_row
head-lcs_row xs [] = refl
head-lcs_row xs (y ∷ ys) = refl

last_row-lcs_row : (ys : List String) → last_row ys ≡ lcs_row [] ys
unfolding last_row lcs_row lcs
last_row-lcs_row [] = refl
last_row-lcs_row (y ∷ ys) = ap (0 ∷◌) (last_row-lcs_row ys)

table_row-lcs_row :
    (x : String) (xs ys : List String) → table_row x ys (lcs_row xs ys) ≡ lcs_row (x ∷ xs) ys
unfolding table_row lcs_row lcs
table_row-lcs_row x xs [] = refl
table_row-lcs_row x xs (y ∷ ys) =
    let e = table_row-lcs_row x xs ys in
    ap₂ (λ (h : ℕ) (rest : List ℕ). h ∷ rest)
      (ap₂ (λ (u v : ℕ). if x == y then u + 1 else max (lcs xs (y ∷ ys)) v) (head-lcs_row xs ys)
        (ap head_cell e ∙ head-lcs_row (x ∷ xs) ys))
      e

first_row-table : (a b : List String) → first_row (table a b) ≡ lcs_row a b
unfolding table
first_row-table [] b = last_row-lcs_row b
first_row-table (x ∷ xs) b = ap (table_row x b) (first_row-table xs b) ∙ table_row-lcs_row x xs b

lcs_row-cell :
    (xs ys : List String) (j : ℕ) → or_else (get_elem? (lcs_row xs ys) j) 0 ≡ lcs xs (drop j ys)
unfolding lcs_row
lcs_row-cell xs [] zero = refl
lcs_row-cell xs [] (suc j) = sym (lcs-nil xs)
lcs_row-cell xs (y ∷ ys) zero = refl
lcs_row-cell xs (y ∷ ys) (suc j) = lcs_row-cell xs ys j

-- The cell at two positions, in the table or out of it, holds the value of the recurrence for the
-- lines from those positions on.
pub cell-table : (a b : List String) (i j : ℕ) → cell (table a b) i j ≡ lcs (drop i a) (drop j b)
unfolding cell table lcs
cell-table [] b zero j =
    ap (λ r. or_else (get_elem? r j) 0) (last_row-lcs_row b) ∙ lcs_row-cell [] b j
cell-table [] b (suc i) j = refl
cell-table (x ∷ xs) b zero j =
    ap (λ r. or_else (get_elem? r j) 0) (first_row-table (x ∷ xs) b) ∙ lcs_row-cell (x ∷ xs) b j
cell-table (x ∷ xs) b (suc i) j = cell-table xs b i j

-- The lines of a list, some of them left out.
pub data Subsequence : List String → List String → Type 0 where
  empty : {ys : List String} → Subsequence [] ys
  take_line : (x : String) {xs ys : List String} → Subsequence xs ys → Subsequence (x ∷ xs) (x ∷ ys)
  skip_line : (y : String) {xs ys : List String} → Subsequence xs ys → Subsequence xs (y ∷ ys)

Subsequence-cases :
    {c : List String} {y : String} {ys : List String}
    → Subsequence c (y ∷ ys)
    → Subsequence c ys ⊎ ((ds : List String) × (c ≡ y ∷ ds) × Subsequence ds ys)
Subsequence-cases empty = inl empty
Subsequence-cases (take_line x s) = inr (_, refl, s)
Subsequence-cases (skip_line y s) = inl s

Subsequence-drop : {c ys : List String} → Subsequence c ys → Subsequence (drop 1 c) ys
Subsequence-drop empty = empty
Subsequence-drop (take_line x s) = skip_line x s
Subsequence-drop (skip_line y s) = skip_line y (Subsequence-drop s)

Subsequence-tail :
    {c : List String} {y : String} {ys : List String}
    → Subsequence c (y ∷ ys)
    → Subsequence (drop 1 c) ys
Subsequence-tail empty = empty
Subsequence-tail (take_line x s) = s
Subsequence-tail (skip_line y s) = Subsequence-drop s

Subsequence-nil : {c : List String} → Subsequence c [] → length c ≡ 0
Subsequence-nil empty = refl

length-tail : (c : List String) → length c ≤ length (drop 1 c) + 1
length-tail [] = omega arith
length-tail (x ∷ c) = omega arith

-- No common subsequence of two lists is longer than the recurrence says.
pub length-Subsequence :
    (a b c : List String) → Subsequence c a → Subsequence c b → length c ≤ lcs a b
unfolding lcs
length-Subsequence [] b c s t = omega (arith, Subsequence-nil s)
length-Subsequence (x ∷ xs) [] c s t = omega (arith, Subsequence-nil t)
length-Subsequence (x ∷ xs) (y ∷ ys) c s t =
    if_cases (λ n. length c ≤ n) (x == y)
      (λ e. omega (
        arith,
        length-tail c,
        length-Subsequence xs ys (drop 1 c) (Subsequence-tail s) (Subsequence-tail t),
      ))
      (λ e. elim (Subsequence-cases s) [
        | inl l ↦ omega (arith, length-Subsequence xs (y ∷ ys) c l t)
        | inr (ds, f, l) ↦ elim (Subsequence-cases t) [
          | inl k ↦ omega (arith, length-Subsequence (x ∷ xs) ys c s k)
          | inr (es, g, k) ↦
              let h : x ≡ y = grind arith in
              absurd (grind (arith, sym (ap (λ z. x == z) (sym h)) ∙ e, eq_refl x))
        ]
      ])
