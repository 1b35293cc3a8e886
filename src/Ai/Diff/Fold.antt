-- ===== src/Ai/Diff/Fold.antt =====
-- web/src/ai/diff.ts: folding the unchanged lines away.
use tolquane.Base.{
  ℕ, zero, suc, ◌+◌, Bool, List, [], ◌∷◌, ◌++◌, length, if◌then◌else◌, if_cases, ◌≡◌, refl, ap, ◌∙◌,
  arith, Bool-cases, inl, inr,
}
use tolquane.Ai.Diff.{DiffLine, DiffRow, line, gap, flush, fold_from, is_kept, collapse}

-- How many lines the rows stand for.
unfoldable pub lines_covered : List DiffRow → ℕ
lines_covered [] = 0
lines_covered (line r ∷ rows) = suc (lines_covered rows)
lines_covered (gap n ∷ rows) = n + lines_covered rows

-- The lines that the rows show.
unfoldable pub lines_shown : List DiffRow → List DiffLine
lines_shown [] = []
lines_shown (line r ∷ rows) = r ∷ lines_shown rows
lines_shown (gap n ∷ rows) = lines_shown rows

-- The lines at the positions that are kept, from the position `i` on.
unfoldable pub lines_kept : (ℕ → Bool) → ℕ → List DiffLine → List DiffLine
lines_kept kept i [] = []
lines_kept kept i (r ∷ rs) =
    let rest = lines_kept kept (suc i) rs in if kept i then r ∷ rest else rest

covered-flush :
    (n : ℕ) (rows : List DiffRow) → lines_covered (flush n ++ rows) ≡ n + lines_covered rows
unfolding lines_covered flush
covered-flush zero rows = omega arith
covered-flush (suc n) rows = refl

shown-flush : (n : ℕ) (rows : List DiffRow) → lines_shown (flush n ++ rows) ≡ lines_shown rows
unfolding lines_shown flush
shown-flush zero rows = refl
shown-flush (suc n) rows = refl

covered-fold_from :
    (kept : ℕ → Bool) (i n : ℕ) (rs : List DiffLine)
    → lines_covered (fold_from kept i n rs) ≡ n + length rs
unfolding fold_from lines_covered flush
covered-fold_from kept i zero [] = omega arith
covered-fold_from kept i (suc n) [] = refl
covered-fold_from kept i n (r ∷ rs) =
    if_cases (λ rows. lines_covered rows ≡ n + suc (length rs)) (kept i)
      (λ e. omega (
        arith,
        covered-flush n (line r ∷ fold_from kept (suc i) 0 rs),
        covered-fold_from kept (suc i) 0 rs,
      ))
      (λ e. omega (arith, covered-fold_from kept (suc i) (suc n) rs))

shown-fold_from :
    (kept : ℕ → Bool) (i n : ℕ) (rs : List DiffLine)
    → lines_shown (fold_from kept i n rs) ≡ lines_kept kept i rs
unfolding fold_from lines_shown lines_kept flush
shown-fold_from kept i zero [] = refl
shown-fold_from kept i (suc n) [] = refl
shown-fold_from kept i n (r ∷ rs) = elim (Bool-cases (kept i)) [
  | inl e ↦ rw e (
      shown-flush n (line r ∷ fold_from kept (suc i) 0 rs)
      ∙ ap (r ∷◌) (shown-fold_from kept (suc i) 0 rs))
  | inr e ↦ rw e (shown-fold_from kept (suc i) (suc n) rs)
]

-- A folded diff shows exactly the lines that are kept, in order, and with its gaps it stands for as
-- many lines as the diff has.
pub collapse_lem :
    (rows : List DiffLine) (context : ℕ)
    → (lines_shown (collapse rows context) ≡ lines_kept (is_kept context rows) 0 rows)
      × (lines_covered (collapse rows context) ≡ length rows)
unfolding collapse
collapse_lem rows context =
    let e : 0 + length rows ≡ length rows = omega arith in
    (
      shown-fold_from (is_kept context rows) 0 0 rows,
      covered-fold_from (is_kept context rows) 0 0 rows ∙ e,
    )
