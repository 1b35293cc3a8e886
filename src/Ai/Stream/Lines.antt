-- ===== src/Ai/Stream/Lines.antt =====
-- web/src/api/ai.ts: the lines of a text, as the loop of `push` cuts them off.
use Prim.Native.Char.{Char, code}
use text.Mathlib.TextLemmas.{cons-append}
use tolquane.Base.{
  suc, ◌<◌, String, ◌<>◌, Bool, true, false, Option, none, some, List, [], ◌∷◌, ◌++◌, nat_eq,
  if◌then◌else◌, ◌≡◌, refl, sym, ap, subst, ◌∙◌, arith, Bool-cases, inl, inr,
}
use tolquane.Ai.Stream.{cut, add_char, count}

some_inj {ℓ} : {A : Type ℓ} {a b : A} → some a ≡ some b → a ≡ b
some_inj h = cc

-- The lines that a line feed ends, and what follows the last one.
abbrev pub Split : Type 0
Split = List String × String

abbrev pub put_char : Char → List String → String → Split
put_char c [] r = ([], String.◌∷◌ c r)
put_char c (l ∷ ls) r = (String.◌∷◌ c l ∷ ls, r)

abbrev pub put_if : Bool → Char → Split → Split
put_if true c w = ("" ∷ w.0, w.1)
put_if false c w = put_char c w.0 w.1

unfoldable pub lines : String → Split
lines String.[] = ([], "")
lines (String.◌∷◌ c s) = put_if (nat_eq (code c) b'\n') c (lines s)

pub cut-none : (s : String) → cut s ≡ none → lines s ≡ ([], s)
unfolding cut lines
cut-none String.[] h = refl
cut-none (String.◌∷◌ c s) h = go (nat_eq (code c) b'\n') (cut s) (lines s) (cut-none s) h
  where
    go :
        (b : Bool) (o : Option (String × String)) (w : Split)
        → (o ≡ none → w ≡ ([], s))
        → (if b then some ("", s) else add_char c o) ≡ none
        → put_if b c w ≡ ([], String.◌∷◌ c s)
    go true o w ih h = absurd (cc)
    go false none w ih h = ap (put_if false c) (ih refl)
    go false (some (l, r)) w ih h = absurd (cc)

pub cut-some :
    (s l r : String)
    → cut s ≡ some (l, r)
    → (lines s ≡ (l ∷ (lines r).0, (lines r).1)) × (count r < count s)
unfolding cut lines count
cut-some String.[] l r h = absurd (cc)
cut-some (String.◌∷◌ c s) l r h = go (nat_eq (code c) b'\n') (cut s) (λ l r e. cut-some s l r e) h
  where
    go :
        (b : Bool) (o : Option (String × String))
        → ((l r : String)
            → o ≡ some (l, r)
            → (lines s ≡ (l ∷ (lines r).0, (lines r).1)) × (count r < count s))
        → (if b then some ("", s) else add_char c o) ≡ some (l, r)
        → (put_if b c (lines s) ≡ (l ∷ (lines r).0, (lines r).1)) × (count r < suc (count s))
    go true o ih h =
        subst
          (λ (p : String × String).
            (put_if true c (lines s) ≡ (p.0 ∷ (lines p.1).0, (lines p.1).1))
            × (count p.1 < suc (count s)))
          (some_inj h) (refl, omega arith)
    go false none ih h = absurd (cc)
    go false (some (k, q)) ih h =
        let (e, n) = ih k q refl in
        subst
          (λ (p : String × String).
            (put_if false c (lines s) ≡ (p.0 ∷ (lines p.1).0, (lines p.1).1))
            × (count p.1 < suc (count s)))
          (some_inj h) (ap (put_if false c) e, omega arith)

-- What follows the last line feed has none.
pub lines-rest : (s : String) → cut ((lines s).1) ≡ none
unfolding cut lines
lines-rest String.[] = refl
lines-rest (String.◌∷◌ c s) = elim (Bool-cases (nat_eq (code c) b'\n')) [
  | inl e ↦ subst (λ b. cut ((put_if b c (lines s)).1) ≡ none) (sym e) (lines-rest s)
  | inr e ↦
      subst (λ b. cut ((put_if b c (lines s)).1) ≡ none) (sym e)
        (go e ((lines s).0) ((lines s).1) (lines-rest s))
]
  where
    go :
        nat_eq (code c) b'\n' ≡ false
        → (ls : List String) (r : String) → cut r ≡ none
        → cut ((put_char c ls r).1) ≡ none
    go e [] r h = rw (h, cut) (rw e refl)
    go e (l ∷ ls) r h = h

-- The lines of a text that goes on: those of the first part, and those of what remains of it with the
-- second.
pub lines-append :
    (s t : String)
    → lines (s <> t) ≡ ((lines s).0 ++ (lines ((lines s).1 <> t)).0, (lines ((lines s).1 <> t)).1)
unfolding lines
lines-append String.[] t = refl
lines-append (String.◌∷◌ c s) t =
    ap lines (cons-append c s t)
    ∙ go (nat_eq (code c) b'\n') refl ((lines s).0) ((lines s).1) (lines (s <> t))
        (lines-append s t)
  where
    go :
        (b : Bool)
        → nat_eq (code c) b'\n' ≡ b
        → (ls : List String) (r : String) (v : Split)
        → v ≡ (ls ++ (lines (r <> t)).0, (lines (r <> t)).1)
        → put_if b c v ≡ (
          (put_if b c (ls, r)).0 ++ (lines ((put_if b c (ls, r)).1 <> t)).0,
          (lines ((put_if b c (ls, r)).1 <> t)).1,
        )
    go true e ls r v h = ap (put_if true c) h
    go false e [] r v h =
        ap (put_if false c) h
        ∙ ap (λ b. put_if b c (lines (r <> t))) (sym e)
        ∙ ap lines (sym (cons-append c r t))
    go false e (l ∷ ls) r v h = ap (put_if false c) h
