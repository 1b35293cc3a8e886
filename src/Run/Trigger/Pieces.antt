-- ===== src/Run/Trigger/Pieces.antt =====
-- web/src/run/format.ts: the chains that the runs of a schedule are cut into.
use tolquane.Base.{
  ℕ, Bool, true, false, ◌||◌, none, some, List, [], ◌∷◌, ◌++◌, append_assoc, append-nil, find,
  nat_eq, if◌then◌else◌, if_cases, All, All-append, All-of_append, ◌≡◌, refl, ap, sym, subst, ◌∙◌,
  ◌⊎◌, inl, inr, concat_map,
}
use tolquane.Run.Trigger.{ChainRun, is_firing, add_last, add_run, chains_from, has_id}

abbrev pub joined : List (List ChainRun) → List ChainRun
joined = concat_map (λ c. c)

-- Every run but the first is a retry.
pub Retries : List ChainRun → Type 0
Retries [] = Unit
Retries (r ∷ rs) = All (λ other. is_firing other ≡ false) rs

joined-append :
    (c : List ChainRun) (cs : List (List ChainRun)) → joined (cs ++ c ∷ []) ≡ joined cs ++ c
joined-append c [] = append-nil c
joined-append c (d ∷ cs) =
    ap (λ x. d ++ x) (joined-append c cs) ∙ sym (append_assoc d (joined cs) c)

joined-add_last :
    (r : ChainRun) (cs : List (List ChainRun)) → joined (add_last r cs) ≡ joined cs ++ r ∷ []
unfolding add_last
joined-add_last r [] = refl
joined-add_last r (c ∷ []) = append-nil (c ++ r ∷ []) ∙ ap (λ x. x ++ r ∷ []) (sym (append-nil c))
joined-add_last r (c ∷ d ∷ cs) =
    ap (λ x. c ++ x) (joined-add_last r (d ∷ cs)) ∙ sym (append_assoc c (joined (d ∷ cs)) (r ∷ []))

joined-add_run :
    (r : ChainRun) (cs : List (List ChainRun)) → joined (add_run r cs) ≡ joined cs ++ r ∷ []
unfolding add_run
joined-add_run r cs =
    if_cases (λ x. joined x ≡ joined cs ++ r ∷ []) (is_firing r) (λ e. joined-append (r ∷ []) cs)
      (λ e. joined-add_last r cs)

-- The chains one after the other are the runs.
pub joined-chains_from :
    (rs : List ChainRun) (cs : List (List ChainRun)) → joined (chains_from rs cs) ≡ joined cs ++ rs
unfolding chains_from
joined-chains_from [] cs = sym (append-nil (joined cs))
joined-chains_from (r ∷ rs) cs =
    joined-chains_from rs (add_run r cs)
    ∙ ap (λ x. x ++ rs) (joined-add_run r cs)
    ∙ append_assoc (joined cs) (r ∷ []) rs

Retries-append :
    (c : List ChainRun) (r : ChainRun) → is_firing r ≡ false → Retries c → Retries (c ++ r ∷ [])
unfolding Retries
Retries-append [] r e h = tt
Retries-append (d ∷ ds) r e h = All-append _ ds _ h (e, tt)

add_last-Retries :
    (r : ChainRun) (cs : List (List ChainRun))
    → is_firing r ≡ false
    → All Retries cs
    → All Retries (add_last r cs)
unfolding add_last
add_last-Retries r [] e h = (unfold Retries in tt, tt)
add_last-Retries r (c ∷ []) e h = (Retries-append c r e h.0, tt)
add_last-Retries r (c ∷ d ∷ cs) e h = (h.0, add_last-Retries r (d ∷ cs) e h.1)

pub chains_from-Retries :
    (rs : List ChainRun) (cs : List (List ChainRun))
    → All Retries cs
    → All Retries (chains_from rs cs)
unfolding chains_from add_run Retries
chains_from-Retries [] cs h = h
chains_from-Retries (r ∷ rs) cs h = chains_from-Retries rs (add_run r cs) (
    if_cases (All Retries) (is_firing r) (λ e. All-append Retries cs _ h (tt, tt))
      (λ e. add_last-Retries r cs e h))

-- The first run is a firing; an empty list has none.
abbrev pub starts_with_firing : List ChainRun → Bool
starts_with_firing [] = false
starts_with_firing (r ∷ rs) = is_firing r

abbrev pub Firings : List (List ChainRun) → Type 0
Firings = All (λ c. starts_with_firing c ≡ true)

-- Every chain but the first begins with a firing.
abbrev pub Cut : List (List ChainRun) → Type 0
Cut [] = Unit
Cut (c ∷ cs) = Firings cs

append-starts :
    (c : List ChainRun) (r : ChainRun)
    → starts_with_firing c ≡ true
    → starts_with_firing (c ++ r ∷ []) ≡ true
append-starts [] r h = absurd (cc)
append-starts (d ∷ ds) r h = h

add_last-Firings :
    (r : ChainRun) (c : List ChainRun) (cs : List (List ChainRun))
    → Firings (c ∷ cs)
    → Firings (add_last r (c ∷ cs))
unfolding add_last
add_last-Firings r c [] h = (append-starts c r h.0, tt)
add_last-Firings r c (d ∷ cs) h = (h.0, add_last-Firings r d cs h.1)

add_last-Cut : (r : ChainRun) (cs : List (List ChainRun)) → Cut cs → Cut (add_last r cs)
unfolding add_last
add_last-Cut r [] h = tt
add_last-Cut r (c ∷ []) h = tt
add_last-Cut r (c ∷ d ∷ cs) h = add_last-Firings r d cs h

firing-Cut :
    (r : ChainRun) (cs : List (List ChainRun))
    → is_firing r ≡ true
    → Cut cs
    → Cut (cs ++ (r ∷ []) ∷ [])
firing-Cut r [] e h = tt
firing-Cut r (c ∷ cs) e h = All-append _ cs _ h (e, tt)

pub chains_from-Cut :
    (rs : List ChainRun) (cs : List (List ChainRun)) → Cut cs → Cut (chains_from rs cs)
unfolding chains_from add_run
chains_from-Cut [] cs h = h
chains_from-Cut (r ∷ rs) cs h =
    chains_from-Cut rs (add_run r cs)
      (if_cases Cut (is_firing r) (λ e. firing-Cut r cs e h) (λ e. add_last-Cut r cs h))

-- The chain that `find` gives: it passes the test, and the chains before it do not.
pub record Found (p : List ChainRun → Bool) (cs : List (List ChainRun)) (c : List ChainRun)
    : Type 0 where
  pub before : List (List ChainRun)
  pub after : List (List ChainRun)
  pub split : cs ≡ before ++ c ∷ after
  pub passes : p c ≡ true
  pub missed : All (λ d. p d ≡ false) before

pub find_lem :
    (p : List ChainRun → Bool) (cs : List (List ChainRun)) (c : List ChainRun)
    → find p cs ≡ some c
    → Found p cs c
find_lem p [] c h = absurd (cc)
find_lem p (d ∷ ds) c h = go (p d) refl (find_lem p ds c) h
  where
    some_inj : {a b : List ChainRun} → some a ≡ some b → a ≡ b
    some_inj h = cc

    go :
        (b : Bool)
        → p d ≡ b
        → (find p ds ≡ some c → Found p ds c)
        → (if b then some d else find p ds) ≡ some c
        → Found p (d ∷ ds) c
    go true e f h =
        subst (λ x. Found p (d ∷ ds) x) (some_inj h)
          (record { before = []; after = ds; split = refl; passes = e; missed = tt })
    go false e f h =
        let found = f h in
        record {
          before = d ∷ found.before;
          after = found.after;
          split = ap (d ∷◌) found.split;
          passes = found.passes;
          missed = (e, found.missed);
        }

pub find-none :
    (p : List ChainRun → Bool) (cs : List (List ChainRun))
    → find p cs ≡ none
    → All (λ c. p c ≡ false) cs
find-none p [] h = tt
find-none p (d ∷ ds) h = go (p d) refl (find-none p ds) h
  where
    go :
        (b : Bool)
        → p d ≡ b
        → (find p ds ≡ none → All (λ c. p c ≡ false) ds)
        → (if b then some d else find p ds) ≡ none
        → All (λ c. p c ≡ false) (d ∷ ds)
    go true e f h = absurd (cc)
    go false e f h = (e, f h)

has_id-append : (n : ℕ) (xs ys : List ChainRun) → has_id n (xs ++ ys) ≡ (has_id n xs || has_id n ys)
has_id-append n [] ys = refl
has_id-append n (x ∷ xs) ys =
    ap (λ b. nat_eq x.id n || b) (has_id-append n xs ys)
    ∙ or_assoc (nat_eq x.id n) (has_id n xs) (has_id n ys)
  where
    or_assoc : (a b c : Bool) → (a || (b || c)) ≡ ((a || b) || c)
    or_assoc true b c = refl
    or_assoc false b c = refl

-- Chains without the id have no run with it.
pub has_id-joined :
    (n : ℕ) (cs : List (List ChainRun))
    → All (λ c. has_id n c ≡ false) cs
    → has_id n (joined cs) ≡ false
has_id-joined n [] h = refl
has_id-joined n (c ∷ cs) h = has_id-append n c (joined cs) ∙ rw h.0 (has_id-joined n cs h.1)

pub joined-split :
    (before after : List (List ChainRun)) (c : List ChainRun)
    → joined (before ++ c ∷ after) ≡ joined before ++ (c ++ joined after)
joined-split [] after c = refl
joined-split (d ∷ before) after c =
    ap (λ x. d ++ x) (joined-split before after c)
    ∙ sym (append_assoc d (joined before) (c ++ joined after))

-- What chains that begin with firings make begins with one, if there are any.
pub joined-starts :
    (cs : List (List ChainRun))
    → Firings cs
    → (joined cs ≡ []) ⊎ (starts_with_firing (joined cs) ≡ true)
joined-starts [] h = inl refl
joined-starts ([] ∷ cs) h = joined-starts cs h.1
joined-starts ((r ∷ rs) ∷ cs) h = inr h.0

-- A chain has chains before it, and begins with a firing, or there are none; those after it begin
-- with firings.
pub Cut-split :
    (before after : List (List ChainRun)) (c : List ChainRun)
    → Cut (before ++ c ∷ after)
    → ((before ≡ []) ⊎ (starts_with_firing c ≡ true)) × Firings after
Cut-split [] after c h = (inl refl, h)
Cut-split (d ∷ before) after c h =
    let parts = All-of_append _ before (c ∷ after) h in (inr parts.1.0, parts.1.1)
