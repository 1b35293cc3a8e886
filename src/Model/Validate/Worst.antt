-- ===== src/Model/Validate/Worst.antt =====
-- web/src/model/validate.ts: the colour of a card.
use tolquane.Base.{
  String, Bool, true, false, not, ◌&&◌, Option, none, some, List, [], ◌∷◌, ◌≡◌, refl, ◌∙◌, any,
  if◌then◌else◌, Bool-cases, inl, inr,
}
use tolquane.Model.Problems.{Problem, Severity}
use tolquane.Model.Validate.{is_warning, covers, worst_from, worst_severity}

-- An error of the card, or of something inside it.
abbrev pub has_error : String → List Problem → Bool
has_error path ps = any (λ p. covers path p.path && not (is_warning p)) ps

abbrev pub has_problem : String → List Problem → Bool
has_problem path ps = any (λ p. covers path p.path) ps

both_warn :
    (b c : Bool)
    → (if b
        then some Severity.error
        else if c
        then some Severity.warning
        else some Severity.warning)
      ≡ (if b then some Severity.error else some Severity.warning)
both_warn true c = refl
both_warn false true = refl
both_warn false false = refl

worst_from_lem :
    (w : Option Severity) (ps : List Problem) (path : String)
    → worst_from w ps path ≡ (
        if has_error path ps
        then some Severity.error
        else if has_problem path ps
        then some Severity.warning
        else w)
unfolding worst_from
worst_from_lem w [] path = refl
worst_from_lem w (p ∷ ps) path = elim (Bool-cases (covers path p.path)) [
  | inr e ↦ rw e (worst_from_lem w ps path)
  | inl e ↦ elim (Bool-cases (is_warning p)) [
    | inr f ↦ rw (e, f) refl
    | inl f ↦
        rw (e, f)
          (worst_from_lem (some Severity.warning) ps path
            ∙ both_warn (has_error path ps) (has_problem path ps))
  ]
]

-- A card shows an error when it or something inside it has one, a warning when it or something inside
-- it has a problem and none is an error, and nothing otherwise.
pub worst_severity_lem :
    (ps : List Problem) (path : String)
    → worst_severity ps path ≡ (
        if has_error path ps
        then some Severity.error
        else if has_problem path ps
        then some Severity.warning
        else none)
unfolding worst_severity
worst_severity_lem ps path = worst_from_lem none ps path
