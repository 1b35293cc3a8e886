-- ===== src/Base/Lists.antt =====
-- Lists measured and indexed by native numbers, and the array methods that the program calls.
use Prim.Native.Nat.{ℕ, zero, suc, ◌+◌, ◌<◌, ◌≤◌}
use mathlib.Core.Path.{◌≡◌, refl, sym, ap, ap₂, subst}
use mathlib.Core.Logic.{◌⊎◌, inl, inr}
use mathlib.Core.Bool.{Bool, false, ◌||◌}
use mathlib.Core.List.{List, [], ◌∷◌, ◌++◌}
use mathlib.Core.Option.{Option, none, some}
use native.Mathlib.Omega.{arith}
use tolquane.Base.Tests.{if◌then◌else◌}

module _ {ℓ} {A : Type ℓ} where
  abbrev pub length : List A → ℕ
  length [] = 0
  length (x ∷ xs) = suc (length xs)

  abbrev pub get_elem? : List A → ℕ → Option A
  get_elem? [] i = none
  get_elem? (x ∷ xs) zero = some x
  get_elem? (x ∷ xs) (suc i) = get_elem? xs i

  abbrev pub take : ℕ → List A → List A
  take zero xs = []
  take (suc n) [] = []
  take (suc n) (x ∷ xs) = x ∷ take n xs

  abbrev pub drop : ℕ → List A → List A
  drop zero xs = xs
  drop (suc n) [] = []
  drop (suc n) (x ∷ xs) = drop n xs

  -- `xs[i] = v`; a write out of bounds changes nothing.
  abbrev pub set : List A → ℕ → A → List A
  set [] i v = []
  set (x ∷ xs) zero v = v ∷ xs
  set (x ∷ xs) (suc i) v = x ∷ set xs i v

  -- `xs.splice(i, 1)`
  abbrev pub erase_idx : List A → ℕ → List A
  erase_idx [] i = []
  erase_idx (x ∷ xs) zero = xs
  erase_idx (x ∷ xs) (suc i) = x ∷ erase_idx xs i

  -- `xs.splice(i, 0, v)`; past the end it appends.
  abbrev pub insert_at : List A → ℕ → A → List A
  insert_at [] i v = v ∷ []
  insert_at (x ∷ xs) zero v = v ∷ x ∷ xs
  insert_at (x ∷ xs) (suc i) v = x ∷ insert_at xs i v

  -- `xs.find(p)`
  abbrev pub find : (A → Bool) → List A → Option A
  find p [] = none
  find p (x ∷ xs) = if p x then some x else find p xs

  -- `xs.some(p)`
  abbrev pub any : (A → Bool) → List A → Bool
  any p [] = false
  any p (x ∷ xs) = p x || any p xs

  -- `xs.filter(p)`
  abbrev pub keep : (A → Bool) → List A → List A
  keep p [] = []
  keep p (x ∷ xs) = let rest = keep p xs in if p x then x ∷ rest else rest

  -- `xs.slice(0, -1)`
  abbrev pub drop_last : List A → List A
  drop_last [] = []
  drop_last (x ∷ []) = []
  drop_last (x ∷ y ∷ xs) = x ∷ drop_last (y ∷ xs)

  -- `xs[xs.length - 1]`
  abbrev pub get_last? : List A → Option A
  get_last? [] = none
  get_last? (x ∷ []) = some x
  get_last? (x ∷ y ∷ xs) = get_last? (y ∷ xs)

  abbrev pub head? : List A → Option A
  head? [] = none
  head? (x ∷ xs) = some x

  abbrev pub concat_map {κ} : {B : Type κ} → (B → List A) → List B → List A
  concat_map f [] = []
  concat_map f (x ∷ xs) = f x ++ concat_map f xs

  abbrev pub All {κ} : (A → Type κ) → List A → Type κ
  All P [] = Unit
  All P (x ∷ xs) = P x × All P xs

  pub length-append : (xs ys : List A) → length (xs ++ ys) ≡ length xs + length ys
  length-append [] ys = omega arith
  length-append (x ∷ xs) ys = omega (arith, length-append xs ys)

  pub length-insert_at : (xs : List A) (i : ℕ) (v : A) → length (insert_at xs i v) ≡ suc (length xs)
  length-insert_at [] i v = refl
  length-insert_at (x ∷ xs) zero v = refl
  length-insert_at (x ∷ xs) (suc i) v = ap suc (length-insert_at xs i v)

  pub set-set : (xs : List A) (i : ℕ) (v w : A) → set (set xs i v) i w ≡ set xs i w
  set-set [] i v w = refl
  set-set (x ∷ xs) zero v w = refl
  set-set (x ∷ xs) (suc i) v w = ap (x ∷◌) (set-set xs i v w)

  pub set_self : (xs : List A) (i : ℕ) (v : A) → get_elem? xs i ≡ some v → set xs i v ≡ xs
  set_self [] i v h = refl
  set_self (x ∷ xs) zero v h = cc
  set_self (x ∷ xs) (suc i) v h = ap (x ∷◌) (set_self xs i v h)

  pub length-set : (xs : List A) (i : ℕ) (v : A) → length (set xs i v) ≡ length xs
  length-set [] i v = refl
  length-set (x ∷ xs) zero v = refl
  length-set (x ∷ xs) (suc i) v = ap suc (length-set xs i v)

  pub get_elem?-insert_at_self :
      (xs : List A) (i : ℕ) (v : A) → i ≤ length xs → get_elem? (insert_at xs i v) i ≡ some v
  get_elem?-insert_at_self [] i v h =
      let e : i ≡ 0 = omega arith in subst (λ k. get_elem? (v ∷ []) k ≡ some v) (sym e) refl
  get_elem?-insert_at_self (x ∷ xs) zero v h = refl
  get_elem?-insert_at_self (x ∷ xs) (suc i) v h = get_elem?-insert_at_self xs i v (omega arith)

  pub get_elem?-insert_at_before :
      (xs : List A) (i j : ℕ) (v : A)
      → j < i
      → i ≤ length xs
      → get_elem? (insert_at xs i v) j ≡ get_elem? xs j
  get_elem?-insert_at_before [] i j v h k = absurd (omega arith)
  get_elem?-insert_at_before (x ∷ xs) zero j v h k = absurd (omega arith)
  get_elem?-insert_at_before (x ∷ xs) (suc i) zero v h k = refl
  get_elem?-insert_at_before (x ∷ xs) (suc i) (suc j) v h k =
      get_elem?-insert_at_before xs i j v (omega arith) (omega arith)

  pub get_elem?-insert_at_after :
      (xs : List A) (i j : ℕ) (v : A)
      → i ≤ j
      → get_elem? (insert_at xs i v) (suc j) ≡ get_elem? xs j
  get_elem?-insert_at_after [] i j v h = refl
  get_elem?-insert_at_after (x ∷ xs) zero j v h = refl
  get_elem?-insert_at_after (x ∷ xs) (suc i) zero v h = absurd (omega arith)
  get_elem?-insert_at_after (x ∷ xs) (suc i) (suc j) v h =
      get_elem?-insert_at_after xs i j v (omega arith)

  pub erase_idx-insert_at :
      (xs : List A) (i : ℕ) (v : A) → i ≤ length xs → erase_idx (insert_at xs i v) i ≡ xs
  erase_idx-insert_at [] i v h =
      let e : i ≡ 0 = omega arith in subst (λ k. erase_idx (v ∷ []) k ≡ []) (sym e) refl
  erase_idx-insert_at (x ∷ xs) zero v h = refl
  erase_idx-insert_at (x ∷ xs) (suc i) v h = ap (x ∷◌) (erase_idx-insert_at xs i v (omega arith))

  pub drop_last-append : (xs : List A) (x : A) → drop_last (xs ++ x ∷ []) ≡ xs
  drop_last-append [] x = refl
  drop_last-append (y ∷ []) x = refl
  drop_last-append (y ∷ z ∷ xs) x = ap (y ∷◌) (drop_last-append (z ∷ xs) x)

  pub All-append {κ} : (P : A → Type κ) (xs ys : List A) → All P xs → All P ys → All P (xs ++ ys)
  All-append P [] ys h k = k
  All-append P (x ∷ xs) ys (p, h) k = (p, All-append P xs ys h k)

  pub All-of_append {κ} : (P : A → Type κ) (xs ys : List A) → All P (xs ++ ys) → All P xs × All P ys
  All-of_append P [] ys h = (tt, h)
  All-of_append P (x ∷ xs) ys h = let (k, l) = All-of_append P xs ys h.1 in ((h.0, k), l)

  pub All-mono {κ μ} :
      (P : A → Type κ) (Q : A → Type μ) (xs : List A) → ((x : A) → P x → Q x) → All P xs → All Q xs
  All-mono P Q [] f h = tt
  All-mono P Q (x ∷ xs) f h = (f x h.0, All-mono P Q xs f h.1)

-- Membership with its position, and the image of a list under a function into lists.
module _ {ℓ} {A : Type ℓ} where
  pub data Member (a : A) : List A → Type ℓ where
    here : {xs : List A} → Member a (a ∷ xs)
    there : {x : A} {xs : List A} → Member a xs → Member a (x ∷ xs)

module _ {ℓ} {A : Type ℓ} where
  pub concat_map-congr {κ} :
      {B : Type κ} (f g : B → List A) (xs : List B)
      → All (λ x. f x ≡ g x) xs
      → concat_map f xs ≡ concat_map g xs
  concat_map-congr f g [] h = refl
  concat_map-congr f g (x ∷ xs) h = ap₂ (λ u v. u ++ v) h.0 (concat_map-congr f g xs h.1)

  pub Member-append_left : {a : A} {xs : List A} (ys : List A) → Member a xs → Member a (xs ++ ys)
  Member-append_left ys here = here
  Member-append_left ys (there m) = there (Member-append_left ys m)

  pub Member-append_right : {a : A} (xs : List A) {ys : List A} → Member a ys → Member a (xs ++ ys)
  Member-append_right [] m = m
  Member-append_right (x ∷ xs) m = there (Member-append_right xs m)

  pub All-Member {κ} : (P : A → Type κ) {a : A} {xs : List A} → Member a xs → All P xs → P a
  All-Member P here h = h.0
  All-Member P (there m) h = All-Member P m h.1

  -- A member of the joined lists is a member of the list of one element.
  pub Member-concat_map {κ} :
      {B : Type κ} (f : B → List A) {a : A} {b : B} {xs : List B}
      → Member b xs
      → Member a (f b)
      → Member a (concat_map f xs)
  Member-concat_map f {xs = []} n m = elim n [ ]
  Member-concat_map f {xs = x ∷ xs} here m = Member-append_left (concat_map f xs) m
  Member-concat_map f {xs = x ∷ xs} (there n) m =
      Member-append_right (f x) (Member-concat_map f n m)

  pub Member-cons_cases : {a x : A} {xs : List A} → Member a (x ∷ xs) → (a ≡ x) ⊎ Member a xs
  Member-cons_cases here = inl refl
  Member-cons_cases (there m) = inr m

  pub Member-single : {a x : A} → Member a (x ∷ []) → a ≡ x
  Member-single m = elim (Member-cons_cases m) [ inl e ↦ e | inr n ↦ elim n [ ] ]

  pub Member-append_cases :
      {a : A} (xs ys : List A) → Member a (xs ++ ys) → Member a xs ⊎ Member a ys
  Member-append_cases [] ys m = inr m
  Member-append_cases (x ∷ xs) ys here = inl here
  Member-append_cases (x ∷ xs) ys (there m) = elim (Member-append_cases xs ys m) [
    | inl l ↦ inl (there l)
    | inr r ↦ inr r
  ]

  pub Member-of_concat_map {κ} :
      {B : Type κ} (f : B → List A) {a : A} (xs : List B)
      → Member a (concat_map f xs)
      → (b : B) × Member b xs × Member a (f b)
  Member-of_concat_map f [] m = elim m [ ]
  Member-of_concat_map f (x ∷ xs) m = elim (Member-append_cases (f x) (concat_map f xs) m) [
    | inl l ↦ (x, here, l)
    | inr r ↦ let (b, n, k) = Member-of_concat_map f xs r in (b, there n, k)
  ]
