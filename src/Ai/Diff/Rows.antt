-- ===== src/Ai/Diff/Rows.antt =====
-- web/src/ai/diff.ts: the rows of a diff give back both texts, and keep as many lines as can be kept.
use text.Mathlib.Text.{◌==◌}
use text.Mathlib.TextEquality.{eq_iff}
use tolquane.Base.{
  ℕ, suc, ◌+◌, ◌*◌, ◌≤◌, max, leb, ltb, String, Bool, true, false, Option, some, List, [], ◌∷◌,
  ◌++◌, length, if◌then◌else◌, if_cases, ◌≡◌, refl, sym, ap, ap₂, ◌∙◌, inl, inr, arith, drop,
  Bool-cases, append-nil,
}
use tolquane.Ai.Diff.{
  same, add, remove, DiffLine, max_cells, removed_from, added_from, rows_from, table, cell, diff_of,
}
use tolquane.Ai.Diff.Longest.{lcs, cell-table, Subsequence, length-Subsequence}

-- The lines with their numbers, from `i + 1` on.
unfoldable pub numbered : ℕ → List String → List (Option ℕ × String)
numbered i [] = []
numbered i (x ∷ xs) = (some (i + 1), x) ∷ numbered (suc i) xs

-- The lines that a reader of the rows finds in the old text.
unfoldable pub old_lines : List DiffLine → List (Option ℕ × String)
old_lines [] = []
old_lines (r ∷ rs) = elim r.kind [
  | same ↦ (r.before, r.text) ∷ old_lines rs
  | add ↦ old_lines rs
  | remove ↦ (r.before, r.text) ∷ old_lines rs
]

-- The lines that a reader of the rows finds in the new text.
unfoldable pub new_lines : List DiffLine → List (Option ℕ × String)
new_lines [] = []
new_lines (r ∷ rs) = elim r.kind [
  | same ↦ (r.after, r.text) ∷ new_lines rs
  | add ↦ (r.after, r.text) ∷ new_lines rs
  | remove ↦ new_lines rs
]

unfoldable pub count_same : List DiffLine → ℕ
count_same [] = 0
count_same (r ∷ rs) = elim r.kind [
  | same ↦ suc (count_same rs)
  | add ↦ count_same rs
  | remove ↦ count_same rs
]

old_lines-removed_from : (i : ℕ) (xs : List String) → old_lines (removed_from i xs) ≡ numbered i xs
unfolding old_lines removed_from numbered
old_lines-removed_from i [] = refl
old_lines-removed_from i (x ∷ xs) = ap ((some (i + 1), x) ∷◌) (old_lines-removed_from (suc i) xs)

old_lines-added_from : (j : ℕ) (ys : List String) → old_lines (added_from j ys) ≡ []
unfolding old_lines added_from
old_lines-added_from j [] = refl
old_lines-added_from j (y ∷ ys) = old_lines-added_from (suc j) ys

new_lines-added_from : (j : ℕ) (ys : List String) → new_lines (added_from j ys) ≡ numbered j ys
unfolding new_lines added_from numbered
new_lines-added_from j [] = refl
new_lines-added_from j (y ∷ ys) = ap ((some (j + 1), y) ∷◌) (new_lines-added_from (suc j) ys)

new_lines-removed_from : (i : ℕ) (xs : List String) → new_lines (removed_from i xs) ≡ []
unfolding new_lines removed_from
new_lines-removed_from i [] = refl
new_lines-removed_from i (x ∷ xs) = new_lines-removed_from (suc i) xs

old_lines-removed_append :
    (i : ℕ) (xs : List String) (rs : List DiffLine)
    → old_lines (removed_from i xs ++ rs) ≡ numbered i xs ++ old_lines rs
unfolding old_lines removed_from numbered
old_lines-removed_append i [] rs = refl
old_lines-removed_append i (x ∷ xs) rs =
    ap ((some (i + 1), x) ∷◌) (old_lines-removed_append (suc i) xs rs)

new_lines-removed_append :
    (i : ℕ) (xs : List String) (rs : List DiffLine)
    → new_lines (removed_from i xs ++ rs) ≡ new_lines rs
unfolding new_lines removed_from
new_lines-removed_append i [] rs = refl
new_lines-removed_append i (x ∷ xs) rs = new_lines-removed_append (suc i) xs rs

zero_add : (k : ℕ) → 0 + k ≡ k
zero_add k = omega arith

module _ (t : ℕ → ℕ → ℕ) where
  old_lines-rows_from :
      (i j : ℕ) (xs ys : List String) → old_lines (rows_from t i j xs ys) ≡ numbered i xs
  unfolding rows_from numbered old_lines
  old_lines-rows_from i j [] ys = old_lines-added_from j ys
  old_lines-rows_from i j (x ∷ xs) [] = old_lines-removed_from i (x ∷ xs)
  old_lines-rows_from i j (x ∷ xs) (y ∷ ys) =
      if_cases (λ rs. old_lines rs ≡ numbered i (x ∷ xs)) (x == y)
        (λ e. ap ((some (i + 1), x) ∷◌) (old_lines-rows_from (suc i) (suc j) xs ys))
        (λ e.
          if_cases (λ rs. old_lines rs ≡ numbered i (x ∷ xs)) (leb (t i (suc j)) (t (suc i) j))
            (λ f. ap ((some (i + 1), x) ∷◌) (old_lines-rows_from (suc i) j xs (y ∷ ys)))
            (λ f. old_lines-rows_from i (suc j) (x ∷ xs) ys))

  new_lines-rows_from :
      (i j : ℕ) (xs ys : List String) → new_lines (rows_from t i j xs ys) ≡ numbered j ys
  unfolding rows_from numbered new_lines
  new_lines-rows_from i j [] ys = new_lines-added_from j ys
  new_lines-rows_from i j (x ∷ xs) [] = new_lines-removed_from i (x ∷ xs)
  new_lines-rows_from i j (x ∷ xs) (y ∷ ys) =
      if_cases (λ rs. new_lines rs ≡ numbered j (y ∷ ys)) (x == y)
        (λ e.
          ap₂ (λ (z : String) (rest : List (Option ℕ × String)). (some (j + 1), z) ∷ rest)
            ((eq_iff x y).0 e) (new_lines-rows_from (suc i) (suc j) xs ys))
        (λ e.
          if_cases (λ rs. new_lines rs ≡ numbered j (y ∷ ys)) (leb (t i (suc j)) (t (suc i) j))
            (λ f. new_lines-rows_from (suc i) j xs (y ∷ ys))
            (λ f. ap ((some (j + 1), y) ∷◌) (new_lines-rows_from i (suc j) (x ∷ xs) ys)))

leb-max : (m n : ℕ) → leb m n ≡ true → max n m ≡ n
leb-max m n h = ground arith

not_leb-max : (m n : ℕ) → leb m n ≡ false → max n m ≡ m
not_leb-max m n h = ground arith

count_same-added_from : (j : ℕ) (ys : List String) → count_same (added_from j ys) ≡ 0
unfolding count_same added_from
count_same-added_from j [] = refl
count_same-added_from j (y ∷ ys) = count_same-added_from (suc j) ys

count_same-removed_from : (i : ℕ) (xs : List String) → count_same (removed_from i xs) ≡ 0
unfolding count_same removed_from
count_same-removed_from i [] = refl
count_same-removed_from i (x ∷ xs) = count_same-removed_from (suc i) xs

-- A table that holds the recurrence for the lines from `i` and `j` on.
abbrev Holds : (ℕ → ℕ → ℕ) → ℕ → ℕ → List String → List String → Type 0
Holds t i j xs ys = (k l : ℕ) → t (i + k) (j + l) ≡ lcs (drop k xs) (drop l ys)

Holds-down :
    (t : ℕ → ℕ → ℕ) (i j : ℕ) (x : String) (xs ys : List String)
    → Holds t i j (x ∷ xs) ys
    → Holds t (suc i) j xs ys
Holds-down t i j x xs ys h k l =
    let e : suc i + k ≡ i + suc k = omega arith in ap (λ n. t n (j + l)) e ∙ h (suc k) l

Holds-right :
    (t : ℕ → ℕ → ℕ) (i j : ℕ) (y : String) (xs ys : List String)
    → Holds t i j xs (y ∷ ys)
    → Holds t i (suc j) xs ys
Holds-right t i j y xs ys h k l =
    let e : suc j + l ≡ j + suc l = omega arith in ap (t (i + k)) e ∙ h k (suc l)

Holds-here : (t : ℕ → ℕ → ℕ) (i j : ℕ) (xs ys : List String) → Holds t i j xs ys → t i j ≡ lcs xs ys
Holds-here t i j xs ys h =
    let e : i ≡ i + 0 = omega arith in let f : j ≡ j + 0 = omega arith in ap₂ t e f ∙ h 0 0

count_same-rows_from :
    (t : ℕ → ℕ → ℕ) (i j : ℕ) (xs ys : List String)
    → Holds t i j xs ys
    → count_same (rows_from t i j xs ys) ≡ lcs xs ys
unfolding rows_from count_same lcs
count_same-rows_from t i j [] ys h = count_same-added_from j ys
count_same-rows_from t i j (x ∷ xs) [] h = count_same-removed_from i (x ∷ xs)
count_same-rows_from t i j (x ∷ xs) (y ∷ ys) h =
    let down = Holds-down t i j x xs (y ∷ ys) h in
    let right = Holds-right t i j y (x ∷ xs) ys h in
    elim (Bool-cases (x == y)) [
      | inl e ↦ rw e (
          omega (
            arith,
            count_same-rows_from t (suc i) (suc j) xs ys (Holds-right t (suc i) j y xs ys down),
          ))
      | inr e ↦ elim (Bool-cases (leb (t i (suc j)) (t (suc i) j))) [
        | inl f ↦
            rw (e, f)
              (count_same-rows_from t (suc i) j xs (y ∷ ys) down
                ∙ sym (
                    leb-max (lcs (x ∷ xs) ys) (lcs xs (y ∷ ys)) (
                      ap₂ leb (sym (Holds-here t i (suc j) (x ∷ xs) ys right))
                        (sym (Holds-here t (suc i) j xs (y ∷ ys) down))
                      ∙ f)))
        | inr f ↦
            rw (e, f)
              (count_same-rows_from t i (suc j) (x ∷ xs) ys right
                ∙ sym (
                    not_leb-max (lcs (x ∷ xs) ys) (lcs xs (y ∷ ys)) (
                      ap₂ leb (sym (Holds-here t i (suc j) (x ∷ xs) ys right))
                        (sym (Holds-here t (suc i) j xs (y ∷ ys) down))
                      ∙ f)))
      ]
    ]

-- The rows of a diff, without the added ones, are the lines of the old text in order, each with
-- its number.
pub diff_of-old_lines : (a b : List String) → old_lines (diff_of a b) ≡ numbered 0 a
unfolding diff_of
diff_of-old_lines a b =
    if_cases (λ rs. old_lines rs ≡ numbered 0 a) (ltb max_cells (length a * length b))
      (λ e.
        old_lines-removed_append 0 a (added_from 0 b)
        ∙ ap (λ r. numbered 0 a ++ r) (old_lines-added_from 0 b)
        ∙ append-nil (numbered 0 a))
      (λ e. old_lines-rows_from (cell (table a b)) 0 0 a b)

-- The rows of a diff, without the removed ones, are the lines of the new text in order, each with
-- its number.
pub diff_of-new_lines : (a b : List String) → new_lines (diff_of a b) ≡ numbered 0 b
unfolding diff_of
diff_of-new_lines a b =
    if_cases (λ rs. new_lines rs ≡ numbered 0 b) (ltb max_cells (length a * length b))
      (λ e. new_lines-removed_append 0 a (added_from 0 b) ∙ new_lines-added_from 0 b)
      (λ e. new_lines-rows_from (cell (table a b)) 0 0 a b)

-- A diff of texts with at most 4,000,000 pairs of lines shows as unchanged at least as many lines as
-- any list of lines that both texts contain in order.
pub diff_of-longest :
    (a b c : List String)
    → ltb max_cells (length a * length b) ≡ false
    → Subsequence c a
    → Subsequence c b
    → length c ≤ count_same (diff_of a b)
unfolding diff_of
diff_of-longest a b c h s t =
    let count =
      ap
        (λ (q : Bool).
          count_same (
            if q then removed_from 0 a ++ added_from 0 b else rows_from (cell (table a b)) 0 0 a b))
        h
      ∙ count_same-rows_from (cell (table a b)) 0 0 a b
          (λ k l. ap₂ (cell (table a b)) (zero_add k) (zero_add l) ∙ cell-table a b k l) in
    omega (arith, length-Subsequence a b c s t, count)
