-- ===== src/Model/Params/Names.antt =====
-- web/src/model/edits.ts: no two parameters of `build()` have one name.
use text.Mathlib.Text.{◌==◌}
use text.Mathlib.TextEquality.{eq_iff}
use tolquane.Base.{
  String, false, Option, none, some, List, [], ◌∷◌, ◌≡◌, refl, sym, ap, ap₂, ◌∙◌, inl, inr,
  Bool-cases, arith,
}
use tolquane.Model.Types.{FlowParam}
use tolquane.Model.Params.{
  trim, clashes, trimmed_error, param_name_error, set_param, with_name, rename_param,
}

abbrev pub Distinct : List FlowParam → Type 0
Distinct [] = Unit
Distinct (p ∷ ps) = (clashes p.name none ps ≡ false) × Distinct ps

trimmed_error-clashes :
    (n : String) (ps : List FlowParam) (current : Option String)
    → trimmed_error n ps current ≡ none
    → clashes n current ps ≡ false
trimmed_error-clashes n ps current h = elim (Bool-cases (clashes n current ps)) [
  | inr e ↦ e
  | inl e ↦ absurd (ground arith)
]

eq_sym : (s t : String) → (s == t) ≡ false → (t == s) ≡ false
eq_sym s t h = elim (Bool-cases (t == s)) [
  | inr e ↦ e
  | inl e ↦ let f : t ≡ s = (eq_iff t s).0 e in ap₂ (λ x y. x == y) f (sym f) ∙ h
]

-- With no parameter left of the old name, the list stays.
set_param-absent :
    (ps : List FlowParam) (from : String) (f : FlowParam → FlowParam)
    → clashes from none ps ≡ false
    → set_param ps from f ≡ ps
unfolding clashes
set_param-absent [] from f h = refl
set_param-absent (p ∷ ps) from f h = elim (Bool-cases (p.name == from)) [
  | inl e ↦ absurd (ground arith)
  | inr e ↦ rw e (ap (p ∷◌) (set_param-absent ps from f (ground arith)))
]

-- A name that no other parameter has, and that is not the new name, is still of no other.
clashes-set_param :
    (ps : List FlowParam) (name from to : String)
    → (to == name) ≡ false
    → clashes name none ps ≡ false
    → clashes name none (set_param ps from (with_name to)) ≡ false
unfolding clashes
clashes-set_param [] name from to h k = refl
clashes-set_param (p ∷ ps) name from to h k =
    let rest = clashes-set_param ps name from to h in
    elim (Bool-cases (p.name == from)) [
      | inl e ↦ rw (e, h) (rest (ground arith))
      | inr e ↦ rw e (ground (arith, rest))
    ]

-- The new name is no clash, but for the parameter that gets it.
clashes-none :
    (ps : List FlowParam) (name current : String)
    → clashes name (some current) ps ≡ false
    → clashes current none ps ≡ false
    → clashes name none ps ≡ false
unfolding clashes
clashes-none [] name current h k = refl
clashes-none (p ∷ ps) name current h k =
    let rest = clashes-none ps name current in
    elim (Bool-cases (p.name == current)) [
      | inl e ↦ absurd (ground arith)
      | inr e ↦ elim (Bool-cases (p.name == name)) [
        | inl f ↦ absurd (ground arith)
        | inr f ↦ rw f (rest (ground arith) (ground arith))
      ]
    ]

set_param-Distinct :
    (ps : List FlowParam) (from to : String)
    → clashes to (some from) ps ≡ false
    → Distinct ps
    → Distinct (set_param ps from (with_name to))
unfolding clashes
set_param-Distinct [] from to h d = tt
set_param-Distinct (p ∷ ps) from to h d =
    let later : clashes to (some from) ps ≡ false = ground arith in
    elim (Bool-cases (p.name == from)) [
      | inl e ↦
          let f : p.name ≡ from = (eq_iff p.name from).0 e in
          let absent : clashes from none ps ≡ false = ap (λ n. clashes n none ps) (sym f) ∙ d.0 in
          rw (e, set_param-absent ps from (with_name to) absent)
            (clashes-none ps to from later absent, d.1)
      | inr e ↦
          let other : (p.name == to) ≡ false = ground arith in
          rw e (
            clashes-set_param ps p.name from to (eq_sym p.name to other) d.0,
            set_param-Distinct ps from to later d.1,
          )
    ]

-- Renaming a parameter keeps the names distinct, if they were, and if `paramNameError` allows the new
-- name, which is trimmed, for the parameter that is renamed.
pub rename_param-Distinct :
    (ps : List FlowParam) (from to : String)
    → param_name_error to ps (some from) ≡ none
    → Distinct ps
    → Distinct (rename_param ps from to)
unfolding param_name_error
rename_param-Distinct ps from to h d =
    set_param-Distinct ps from (trim to) (trimmed_error-clashes (trim to) ps (some from) h) d
