-- ===== src/Run/Trigger/Order.antt =====
-- web/src/run/format.ts: the runs of a schedule in the order of their start.
use mathlib.Core.List.{Perm}
use mathlib.Core.List.Perm
use tolquane.Base.{
  ℕ, ◌≤◌, ◌⊎◌, inl, inr, String, Bool, true, false, ◌||◌, List, [], ◌∷◌, leb, nat_eq, All, All-mono,
  if_cases, ◌≡◌, refl, sym, subst, ap, ◌∙◌, arith,
}
use tolquane.Run.Trigger.{ChainRun, Compared, has_id, by_start, is_before, insert_run, sort_runs}

abbrev pub opposite : Compared → Compared
opposite Compared.earlier = Compared.later
opposite Compared.same = Compared.same
opposite Compared.later = Compared.earlier

-- What `localeCompare` gives is an order: the two sides swapped give the opposite, texts that compare
-- the same compare alike with every text, and earlier than earlier is earlier.
pub record Orders (compare_started : String → String → Compared) : Type 0 where
  pub swap : (a b : String) → compare_started b a ≡ opposite (compare_started a b)
  pub alike :
      (a b c : String)
      → compare_started a b ≡ Compared.same
      → compare_started a c ≡ compare_started b c
  pub trans :
      (a b c : String)
      → compare_started a b ≡ Compared.earlier
      → compare_started b c ≡ Compared.earlier
      → compare_started a c ≡ Compared.earlier

module _ (compare_started : String → String → Compared) where
  -- A run comes before another when it started earlier, or at the same time and its id is not greater.
  abbrev pub IsEarlier : ChainRun → ChainRun → Type 0
  IsEarlier a b =
      (compare_started a.started b.started ≡ Compared.earlier)
      ⊎ ((compare_started a.started b.started ≡ Compared.same) × (a.id ≤ b.id))

  -- Every run comes before all that follow it.
  abbrev pub IsSorted : List ChainRun → Type 0
  IsSorted [] = Unit
  IsSorted (r ∷ rs) = All (IsEarlier r) rs × IsSorted rs

  is_before-IsEarlier : (a b : ChainRun) → is_before compare_started a b ≡ true → IsEarlier a b
  is_before-IsEarlier a b h = go (compare_started a.started b.started) h
    where
      go :
          (x : Compared)
          → by_start x (leb a.id b.id) ≡ true
          → (x ≡ Compared.earlier) ⊎ ((x ≡ Compared.same) × (a.id ≤ b.id))
      go Compared.earlier h = inl refl
      go Compared.same h = inr (refl, ground arith)
      go Compared.later h = absurd (cc)

  is_before-of_IsEarlier : (a b : ChainRun) → IsEarlier a b → is_before compare_started a b ≡ true
  is_before-of_IsEarlier a b (inl e) = rw e refl
  is_before-of_IsEarlier a b (inr (e, h)) = rw e (ground arith)

  insert_run-perm :
      (r : ChainRun) (rs : List ChainRun) → Perm (insert_run compare_started r rs) (r ∷ rs)
  unfolding insert_run
  insert_run-perm r [] = Perm.rfl
  insert_run-perm r (s ∷ ss) =
      if_cases (λ xs. Perm xs (r ∷ s ∷ ss)) (is_before compare_started r s) (λ e. Perm.rfl)
        (λ e. Perm.trans (Perm.cons s (insert_run-perm r ss)) (Perm.swap r s ss))

  pub sort_runs-perm : (rs : List ChainRun) → Perm (sort_runs compare_started rs) rs
  unfolding sort_runs
  sort_runs-perm [] = Perm.rfl
  sort_runs-perm (r ∷ rs) =
      Perm.trans (insert_run-perm r (sort_runs compare_started rs))
        (Perm.cons r (sort_runs-perm rs))

  or_swap : (a b c : Bool) → (a || (b || c)) ≡ (b || (a || c))
  or_swap true true c = refl
  or_swap true false c = refl
  or_swap false b c = refl

  has_id-insert_run :
      (n : ℕ) (r : ChainRun) (rs : List ChainRun)
      → has_id n (insert_run compare_started r rs) ≡ has_id n (r ∷ rs)
  unfolding insert_run
  has_id-insert_run n r [] = refl
  has_id-insert_run n r (s ∷ ss) =
      if_cases (λ xs. has_id n xs ≡ has_id n (r ∷ s ∷ ss)) (is_before compare_started r s)
        (λ e. refl)
        (λ e.
          ap (λ b. nat_eq s.id n || b) (has_id-insert_run n r ss)
          ∙ or_swap (nat_eq s.id n) (nat_eq r.id n) (has_id n ss))

  pub has_id-sort_runs :
      (n : ℕ) (rs : List ChainRun) → has_id n (sort_runs compare_started rs) ≡ has_id n rs
  unfolding sort_runs
  has_id-sort_runs n [] = refl
  has_id-sort_runs n (r ∷ rs) =
      has_id-insert_run n r (sort_runs compare_started rs)
      ∙ ap (λ b. nat_eq r.id n || b) (has_id-sort_runs n rs)

by_start-opposite :
    (x : Compared) (b c : Bool)
    → (b ≡ false → c ≡ true)
    → by_start x b ≡ false
    → by_start (opposite x) c ≡ true
by_start-opposite Compared.earlier b c f h = absurd (cc)
by_start-opposite Compared.same b c f h = f h
by_start-opposite Compared.later b c f h = refl

leb_total : (m n : ℕ) → leb m n ≡ false → leb n m ≡ true
leb_total m n h = grind arith

leb_trans : (l m n : ℕ) → leb l m ≡ true → leb m n ≡ true → leb l n ≡ true
leb_trans l m n h k = grind arith

module _ (compare_started : String → String → Compared) (order : Orders compare_started) where
  -- Not put first is put second.
  is_before_total :
      (a b : ChainRun)
      → is_before compare_started a b ≡ false
      → is_before compare_started b a ≡ true
  is_before_total a b h =
      subst (λ x. by_start x (leb b.id a.id) ≡ true) (sym (order.swap a.started b.started))
        (by_start-opposite (compare_started a.started b.started) _ _ (leb_total a.id b.id) h)

  earlier-same :
      (a b c : String)
      → compare_started a b ≡ Compared.earlier
      → compare_started b c ≡ Compared.same
      → compare_started a c ≡ Compared.earlier
  earlier-same a b c h k =
      order.swap c a ∙ ap opposite (sym (order.alike b c a k) ∙ order.swap a b ∙ ap opposite h)

  is_before_trans :
      (a b c : ChainRun)
      → is_before compare_started a b ≡ true
      → is_before compare_started b c ≡ true
      → is_before compare_started a c ≡ true
  is_before_trans a b c h k =
      go (compare_started a.started b.started) (compare_started b.started c.started) refl refl h k
    where
      go :
          (x y : Compared)
          → compare_started a.started b.started ≡ x
          → compare_started b.started c.started ≡ y
          → by_start x (leb a.id b.id) ≡ true
          → by_start y (leb b.id c.id) ≡ true
          → by_start (compare_started a.started c.started) (leb a.id c.id) ≡ true
      go Compared.later y e f h k = absurd (cc)
      go x Compared.later e f h k = absurd (cc)
      go Compared.earlier Compared.earlier e f h k =
          rw (order.trans a.started b.started c.started e f) refl
      go Compared.earlier Compared.same e f h k =
          rw (earlier-same a.started b.started c.started e f) refl
      go Compared.same Compared.earlier e f h k =
          rw (order.alike a.started b.started c.started e ∙ f) refl
      go Compared.same Compared.same e f h k =
          rw (order.alike a.started b.started c.started e ∙ f) (leb_trans a.id b.id c.id h k)

  insert_run-All :
      (P : ChainRun → Type 0) (r : ChainRun) (rs : List ChainRun)
      → P r
      → All P rs
      → All P (insert_run compare_started r rs)
  unfolding insert_run
  insert_run-All P r [] h hs = (h, tt)
  insert_run-All P r (s ∷ ss) h hs =
      if_cases (All P) (is_before compare_started r s) (λ e. (h, hs))
        (λ e. (hs.0, insert_run-All P r ss h hs.1))

  IsEarlier-trans :
      (a b c : ChainRun)
      → is_before compare_started a b ≡ true
      → IsEarlier compare_started b c
      → IsEarlier compare_started a c
  IsEarlier-trans a b c h k =
      is_before-IsEarlier compare_started a c
        (is_before_trans a b c h (is_before-of_IsEarlier compare_started b c k))

  insert_run-IsSorted :
      (r : ChainRun) (rs : List ChainRun)
      → IsSorted compare_started rs
      → IsSorted compare_started (insert_run compare_started r rs)
  unfolding insert_run
  insert_run-IsSorted r [] h = (tt, tt)
  insert_run-IsSorted r (s ∷ ss) h =
      if_cases (IsSorted compare_started) (is_before compare_started r s)
        (λ e. (
          (
            is_before-IsEarlier compare_started r s e,
            All-mono (IsEarlier compare_started s) (IsEarlier compare_started r) ss
                (λ x k. IsEarlier-trans r s x e k) h.0,
          ),
          h,
        ))
        (λ e. (
          insert_run-All (IsEarlier compare_started s) r ss
              (is_before-IsEarlier compare_started s r (is_before_total r s e)) h.0,
          insert_run-IsSorted r ss h.1,
        ))

  pub sort_runs-IsSorted :
      (rs : List ChainRun) → IsSorted compare_started (sort_runs compare_started rs)
  unfolding sort_runs
  sort_runs-IsSorted [] = tt
  sort_runs-IsSorted (r ∷ rs) =
      insert_run-IsSorted r (sort_runs compare_started rs) (sort_runs-IsSorted rs)
