-- ===== src/Base/Text/Laws.antt =====
-- Reading a printed numeral gives the number back; splitting undoes joining.
use Prim.Native.Nat.{ℕ, zero, suc, ◌+◌, ◌-◌, ◌*◌, ◌/◌, ◌%◌, ◌<◌}
use Prim.Native.Char.{Char, code}
use Prim.Native.String.{String}
use mathlib.Core.Path.{◌≡◌, refl, ap, ◌∙◌}
use mathlib.Core.Logic.{◌≢◌, inl, inr}
use mathlib.Core.Bool.{true}
use mathlib.Core.Option.{some}
use mathlib.Core.List.{List, [], ◌∷◌}
use native.Mathlib.Omega.{arith}
use text.Mathlib.TextEquality.{eq_iff, Char-path}
use text.Mathlib.TextLemmas.{nil-append, cons-append}
use tolquane.Base.Tests.{ltb, nat_eq, Bool-cases}
use tolquane.Base.Text.{
  ◌<>◌, digit, show_fuel, show, read_from, read, all_digits, is_index, strip, cons_part, split_on,
  join_dots,
}

read_from-append :
    (a b : ℕ) (s t : String) → read_from a s ≡ some b → read_from a (s <> t) ≡ read_from b t
unfolding read_from
read_from-append a b String.[] t h = rw nil-append (cc)
read_from-append a b (String.◌∷◌ c s) t h =
    rw cons-append (ground (arith, read_from-append (a * 10 + (code c - 48)) b s t))

read_from-digit : (a d : ℕ) → d < 10 → read_from a (digit d) ≡ some (a * 10 + d)
unfolding read_from digit
read_from-digit a zero h = refl
read_from-digit a (suc zero) h = refl
read_from-digit a (suc (suc zero)) h = refl
read_from-digit a (suc (suc (suc zero))) h = refl
read_from-digit a (suc (suc (suc (suc zero)))) h = refl
read_from-digit a (suc (suc (suc (suc (suc zero))))) h = refl
read_from-digit a (suc (suc (suc (suc (suc (suc zero)))))) h = refl
read_from-digit a (suc (suc (suc (suc (suc (suc (suc zero))))))) h = refl
read_from-digit a (suc (suc (suc (suc (suc (suc (suc (suc zero)))))))) h = refl
read_from-digit a (suc (suc (suc (suc (suc (suc (suc (suc (suc zero))))))))) h = refl
read_from-digit a (suc (suc (suc (suc (suc (suc (suc (suc (suc (suc d)))))))))) h =
    absurd (omega arith)

read_from-show_fuel : (f n : ℕ) → n < f → read_from 0 (show_fuel f n) ≡ some n
unfolding show_fuel
read_from-show_fuel zero n h = absurd (omega arith)
read_from-show_fuel (suc f) n h = elim (Bool-cases (ltb n 10)) [
  | inl small ↦ rw small (read_from-digit 0 n (ground arith) ∙ ap some (omega arith))
  | inr large ↦ rw large (
      read_from-append 0 (n / 10) (show_fuel f (n / 10)) (digit (n % 10))
        (read_from-show_fuel f (n / 10) (ground arith))
      ∙ read_from-digit (n / 10) (n % 10) (omega arith)
      ∙ ap some (omega arith))
]

-- `Number(String(n))` is `n`.
pub read-show : (n : ℕ) → read (show n) ≡ some n
unfolding read show
read-show n = read_from-show_fuel (suc n) n (omega arith)

pub show_inj : (m n : ℕ) → show m ≡ show n → m ≡ n
show_inj m n e = cc (read-show m, read-show n)

all_digits_of_read_from : (a b : ℕ) (s : String) → read_from a s ≡ some b → all_digits s ≡ true
unfolding read_from
all_digits_of_read_from a b String.[] h = refl
all_digits_of_read_from a b (String.◌∷◌ c s) h =
    ground (arith, all_digits_of_read_from (a * 10 + (code c - 48)) b s)

pub all_digits-show : (n : ℕ) → all_digits (show n) ≡ true
unfolding read
all_digits-show n = all_digits_of_read_from 0 n (show n) (read-show n)

show-ne-nil : (n : ℕ) → show n ≢ ""
unfolding read show digit
show-ne-nil zero e = cc
show-ne-nil (suc n) e = cc (read-show (suc n))

pub is_index-show : (n : ℕ) → is_index (show n) ≡ true
is_index-show n = ground (arith, eq_iff (show n) "", show-ne-nil n, all_digits-show n)

-- No character of the text is the separator.
abbrev pub Avoids : ℕ → String → Type 0
Avoids sep String.[] = Unit
Avoids sep (String.◌∷◌ c s) = (code c ≢ sep) × Avoids sep s

Avoids-dot_of_all_digits : (s : String) → all_digits s ≡ true → Avoids b'.' s
Avoids-dot_of_all_digits String.[] h = tt
Avoids-dot_of_all_digits (String.◌∷◌ c s) h =
    (ground arith, Avoids-dot_of_all_digits s (ground arith))

pub show-Avoids : (n : ℕ) → Avoids b'.' (show n)
show-Avoids n = Avoids-dot_of_all_digits (show n) (all_digits-show n)

pub split_on-Avoids : (sep : ℕ) (s : String) → Avoids sep s → split_on sep s ≡ s ∷ []
unfolding split_on
split_on-Avoids sep String.[] h = refl
split_on-Avoids sep (String.◌∷◌ c s) h = ground (arith, split_on-Avoids sep s h.1)

abbrev dot : Char
dot = "."

dot-append : (s : String) → "." <> s ≡ String.◌∷◌ dot s
dot-append s = cons-append dot "" s ∙ ap (String.◌∷◌ dot) (nil-append s)

-- What stands before the first separator is the first part.
pub split_on-append :
    (s t : String) → Avoids b'.' s → split_on b'.' (s <> "." <> t) ≡ s ∷ split_on b'.' t
unfolding split_on
split_on-append String.[] t h = rw (nil-append, dot-append)
split_on-append (String.◌∷◌ c s) t h = rw cons-append (ground (arith, split_on-append s t h.1))

join_dots-cons_part :
    (c : Char) (ps : List String) → join_dots (cons_part c ps) ≡ String.◌∷◌ c (join_dots ps)
unfolding cons_part join_dots
join_dots-cons_part c [] = refl
join_dots-cons_part c (p ∷ []) = refl
join_dots-cons_part c (p ∷ q ∷ ps) = cons-append c p _

join_dots-nil : (ps : List String) → ps ≢ [] → join_dots ("" ∷ ps) ≡ "." <> join_dots ps
unfolding join_dots
join_dots-nil [] h = absurd (h refl)
join_dots-nil (p ∷ ps) h = nil-append _

cons_part-ne-nil : (c : Char) (ps : List String) → cons_part c ps ≢ []
unfolding cons_part
cons_part-ne-nil c [] e = cc
cons_part-ne-nil c (p ∷ ps) e = cc

split_on-ne-nil : (sep : ℕ) (s : String) → split_on sep s ≢ []
unfolding split_on
split_on-ne-nil sep String.[] e = cc
split_on-ne-nil sep (String.◌∷◌ c s) e =
    ground (arith, split_on-ne-nil sep s, cons_part-ne-nil c (split_on sep s))

-- Joining the parts of a text gives the text back.
pub join_dots-split_on : (s : String) → join_dots (split_on b'.' s) ≡ s
unfolding split_on
join_dots-split_on String.[] = unfold join_dots in refl
join_dots-split_on (String.◌∷◌ c s) = elim (Bool-cases (nat_eq (code c) b'.')) [
  | inl e ↦ rw e (
      join_dots-nil _ (split_on-ne-nil b'.' s)
      ∙ ap (λ t. "." <> t) (join_dots-split_on s)
      ∙ dot-append s
      ∙ ap (λ d. String.◌∷◌ d s) (Char-path dot c (ground arith)))
  | inr e ↦ rw e (join_dots-cons_part c _ ∙ ap (String.◌∷◌ c) (join_dots-split_on s))
]

-- A prefix that was put on is found.
pub strip-append : (p s : String) → strip p (p <> s) ≡ some s
unfolding strip
strip-append String.[] s = ap some (nil-append s)
strip-append (String.◌∷◌ a p) s = rw cons-append (ground (arith, strip-append p s))

pub strip_sound : (p s r : String) → strip p s ≡ some r → s ≡ p <> r
unfolding strip
strip_sound String.[] s r h = rw nil-append (cc)
strip_sound (String.◌∷◌ a p) String.[] r h = cc
strip_sound (String.◌∷◌ a p) (String.◌∷◌ c s) r h = elim (Bool-cases (nat_eq (code a) (code c))) [
  | inl e ↦ rw cons-append (cc (Char-path a c (ground arith), strip_sound p s r (ground arith)))
  | inr e ↦ absurd (ground arith)
]
