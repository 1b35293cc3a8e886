-- ===== src/Base/Text.antt =====
-- Text: decimal numerals as `String(n)` prints and `Number(s)` reads them, and `split('.')`.
pub mod Laws
use Prim.Native.Nat.{ℕ, zero, suc, ◌+◌, ◌-◌, ◌*◌, ◌/◌, ◌%◌}
use Prim.Native.Char.{Char, code}
use Prim.Native.String
use Prim.Native.String.{String}
use mathlib.Core.Path.{◌≡◌, refl}
use mathlib.Core.Bool.{Bool, true, not, ◌&&◌}
use mathlib.Core.Option.{Option, none, some}
use mathlib.Core.List.{List, [], ◌∷◌}
use tolquane.Base.Tests.{ltb, leb, nat_eq, if◌then◌else◌}
use tolquane.Base.Int.{ℤ, pos, negsuc}
use text.Mathlib.Text.{◌==◌}

-- `s + t`
infixr 65 ◌<>◌
abbrev pub ◌<>◌ : String → String → String
s <> t = String.◌++◌ s t

-- `/\d/`
abbrev pub is_digit : Char → Bool
is_digit c = leb b'0' (code c) && leb (code c) b'9'

pub digit : ℕ → String
digit zero = "0"
digit (suc zero) = "1"
digit (suc (suc zero)) = "2"
digit (suc (suc (suc zero))) = "3"
digit (suc (suc (suc (suc zero)))) = "4"
digit (suc (suc (suc (suc (suc zero))))) = "5"
digit (suc (suc (suc (suc (suc (suc zero)))))) = "6"
digit (suc (suc (suc (suc (suc (suc (suc zero))))))) = "7"
digit (suc (suc (suc (suc (suc (suc (suc (suc zero)))))))) = "8"
digit _ = "9"

-- The fuel bounds the number of digits.
show_fuel : ℕ → ℕ → String
unfolding digit
show_fuel zero n = ""
show_fuel (suc f) n =
    let rest = show_fuel f (n / 10) <> digit (n % 10) in if ltb n 10 then digit n else rest

unfoldable pub show : ℕ → String
unfolding show_fuel
show n = show_fuel (suc n) n

unfoldable pub show_int : ℤ → String
unfolding show
show_int (pos n) = show n
show_int (negsuc n) = "-" <> show (suc n)

read_from : ℕ → String → Option ℕ
read_from acc String.[] = some acc
read_from acc (String.◌∷◌ c s) = if is_digit c then read_from (acc * 10 + (code c - 48)) s else none

-- `Number(s)`, on a text of digits; the empty text reads as 0.
unfoldable pub read : String → Option ℕ
unfolding read_from
read s = read_from 0 s

abbrev pub all_digits : String → Bool
all_digits String.[] = true
all_digits (String.◌∷◌ c s) = is_digit c && all_digits s

-- `/^\d+$/.test(s)`
abbrev pub is_index : String → Bool
is_index s = not (s == "") && all_digits s

cons_part : Char → List String → List String
cons_part c [] = (String.◌∷◌ c "") ∷ []
cons_part c (p ∷ ps) = (String.◌∷◌ c p) ∷ ps

-- `s.split(sep)` at a one-character separator.
unfoldable pub split_on : ℕ → String → List String
unfolding cons_part
split_on sep String.[] = "" ∷ []
split_on sep (String.◌∷◌ c s) =
    let rest = split_on sep s in if nat_eq (code c) sep then "" ∷ rest else cons_part c rest

-- `parts.join('.')`
unfoldable pub join_dots : List String → String
join_dots [] = ""
join_dots (p ∷ []) = p
join_dots (p ∷ q ∷ ps) = p <> "." <> join_dots (q ∷ ps)

-- What follows the prefix: `s.startsWith(p)` and `s.slice(p.length)`.
unfoldable pub strip : String → String → Option String
strip String.[] s = some s
strip (String.◌∷◌ a p) String.[] = none
strip (String.◌∷◌ a p) (String.◌∷◌ c s) = if nat_eq (code a) (code c) then strip p s else none

show_tests : (show 407 ≡ "407") × (read "407" ≡ some 407) × (read "4a" ≡ none)
unfolding show read
show_tests = (refl, refl, refl)

split_tests :
    (split_on b'.' "stages.1.worker" ≡ "stages" ∷ "1" ∷ "worker" ∷ [])
    × (join_dots ("stages" ∷ "1" ∷ []) ≡ "stages.1")
unfolding split_on join_dots
split_tests = (refl, refl)
