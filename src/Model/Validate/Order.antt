-- ===== src/Model/Validate/Order.antt =====
-- web/src/model/validate.ts: the order in which the problems are shown.
use tolquane.Base.{
  Bool, true, false, not, Bool-cases, inl, inr, sym, ap₂, ◌&&◌, List, [], ◌∷◌, ◌++◌, ◌≡◌, refl, ap,
  ◌∙◌, All, keep, if_cases, if◌then◌else◌, arith,
}
use tolquane.Model.Validate.{is_warning, insert_problem, sort_problems}
use tolquane.Model.Problems.{Problem}

abbrev Errors : List Problem → Type 0
Errors ps = All (λ p. is_warning p ≡ false) ps

abbrev Warnings : List Problem → Type 0
Warnings ps = All (λ p. is_warning p ≡ true) ps

-- `Number(a.severity === 'warning')`
abbrev pub is_error : Problem → Bool
is_error p = not (is_warning p)

not-true : (b : Bool) → not b ≡ true → b ≡ false
not-true true h = absurd (grind arith)
not-true false h = refl

keep-Errors : (ps : List Problem) → Errors (keep is_error ps)
keep-Errors [] = tt
keep-Errors (p ∷ ps) =
    if_cases Errors (is_error p) (λ e. (not-true (is_warning p) e, keep-Errors ps))
      (λ e. keep-Errors ps)

keep-Warnings : (ps : List Problem) → Warnings (keep is_warning ps)
keep-Warnings [] = tt
keep-Warnings (p ∷ ps) =
    if_cases Warnings (is_warning p) (λ e. (e, keep-Warnings ps)) (λ e. keep-Warnings ps)

insert_problem-error :
    (p : Problem) (qs : List Problem) → is_warning p ≡ false → insert_problem p qs ≡ p ∷ qs
unfolding insert_problem
insert_problem-error p [] h = refl
insert_problem-error p (q ∷ qs) h =
    ap (λ (b : Bool). if b && not (is_warning q) then q ∷ insert_problem p qs else p ∷ q ∷ qs) h

insert_problem-warning :
    (p : Problem) (es ws : List Problem)
    → is_warning p ≡ true
    → Errors es
    → Warnings ws
    → insert_problem p (es ++ ws) ≡ es ++ p ∷ ws
unfolding insert_problem
insert_problem-warning p [] [] h e w = refl
insert_problem-warning p [] (q ∷ ws) h e w =
    ap₂ (λ (b c : Bool). if b && not c then q ∷ insert_problem p ws else p ∷ q ∷ ws) h w.0
insert_problem-warning p (q ∷ es) ws h e w =
    ap₂ (λ (b c : Bool). if b && not c then q ∷ insert_problem p (es ++ ws) else p ∷ q ∷ (es ++ ws))
      h e.0
    ∙ ap (q ∷◌) (insert_problem-warning p es ws h e.1 w)

-- The problems come with the errors first, and each kind in the order in which it was found.
pub sort_problems_lem :
    (ps : List Problem) → sort_problems ps ≡ keep is_error ps ++ keep is_warning ps
unfolding sort_problems
sort_problems_lem [] = refl
sort_problems_lem (p ∷ ps) =
    ap (insert_problem p) (sort_problems_lem ps) ∙ elim (Bool-cases (is_warning p)) [
      | inl h ↦
          insert_problem-warning p (keep is_error ps) (keep is_warning ps) h (keep-Errors ps)
            (keep-Warnings ps)
          ∙ sym (rw h refl)
      | inr h ↦ insert_problem-error p (keep is_error ps ++ keep is_warning ps) h ∙ sym (rw h refl)
    ]
