-- ===== src/Run/Trigger/Chain.antt =====
-- web/src/run/format.ts: the chain of a run.
use mathlib.Core.List.{Perm}
use tolquane.Base.{
  ℕ, String, Bool, ap₂, nat_eq, if◌then◌else◌, true, false, Option, none, some, List, [], ◌∷◌, ◌++◌,
  find, keep, ◌≡◌, refl, sym, ap, subst, ◌∙◌, ◌⊎◌, inl, inr, Option-cases, All, All-of_append,
}
use tolquane.Run.Trigger.{
  ChainRun, Compared, schedule_of, is_same, chains_from, has_id, siblings, sort_runs, chain_of,
  retry_chain,
}
use tolquane.Run.Trigger.Order.{
  Orders, IsSorted, sort_runs-perm, has_id-sort_runs, sort_runs-IsSorted,
}
use tolquane.Run.Trigger.Pieces.{
  joined, Retries, joined-chains_from, chains_from-Retries, starts_with_firing, Cut,
  chains_from-Cut, find_lem, find-none, has_id-joined, joined-split, joined-starts, Cut-split,
}

abbrev is_number : Option ℕ → ℕ → Bool
is_number none s = false
is_number (some n) s = nat_eq n s

-- The runs of the schedule with the number.
abbrev pub of_schedule : List ChainRun → ℕ → List ChainRun
of_schedule runs s = keep (λ other. is_number (schedule_of other) s) runs

is_same-some : (o : Option ℕ) (s : ℕ) → is_same o (some s) ≡ is_number o s
is_same-some none s = refl
is_same-some (some n) s = refl

keep-of_schedule :
    (runs : List ChainRun) (o : Option ℕ) (s : ℕ)
    → o ≡ some s
    → keep (λ other. is_same (schedule_of other) o) runs ≡ of_schedule runs s
keep-of_schedule [] o s h = refl
keep-of_schedule (r ∷ rs) o s h =
    ap₂ (λ b xs. if b then r ∷ xs else xs)
      (ap (is_same (schedule_of r)) h ∙ is_same-some (schedule_of r) s) (keep-of_schedule rs o s h)

module _ (compare_started : String → String → Compared) (runs : List ChainRun)
    (run : ChainRun) where
  -- A stretch of the runs of the schedule, sorted by their start and then their id, between a firing and the next one.
  pub record Stretch (s : ℕ) (chain : List ChainRun) : Type 0 where
    pub earlier : List ChainRun
    pub later : List ChainRun
    pub perm : Perm (earlier ++ (chain ++ later)) (of_schedule runs s)
    pub sorted : IsSorted compare_started (earlier ++ (chain ++ later))
    pub has_run : has_id run.id chain ≡ true
    pub first_time : has_id run.id earlier ≡ false
    pub retries : Retries chain
    -- It begins with a firing, unless it has the oldest run.
    pub begins : (earlier ≡ []) ⊎ (starts_with_firing chain ≡ true)
    -- It goes on to the next firing.
    pub ends : (later ≡ []) ⊎ (starts_with_firing later ≡ true)

  pub data IsChain : List ChainRun → Type 0 where
    -- The run is of no schedule.
    outside : schedule_of run ≡ none → IsChain (run ∷ [])
    -- No run of the run's schedule has its id.
    unlisted :
        (s : ℕ)
        → schedule_of run ≡ some s
        → has_id run.id (of_schedule runs s) ≡ false
        → IsChain (run ∷ [])
    within :
        (s : ℕ) (chain : List ChainRun) → schedule_of run ≡ some s → Stretch s chain → IsChain chain

module _ (compare_started : String → String → Compared) (order : Orders compare_started)
    (runs : List ChainRun) (run : ChainRun) where
  abbrev mine : List ChainRun
  mine = siblings compare_started run runs

  siblings-schedule :
      (s : ℕ) → schedule_of run ≡ some s → mine ≡ sort_runs compare_started (of_schedule runs s)
  unfolding siblings
  siblings-schedule s h =
      ap (sort_runs compare_started) (keep-of_schedule runs (schedule_of run) s h)

  found-Stretch :
      (s : ℕ) (c : List ChainRun)
      → schedule_of run ≡ some s
      → find (has_id run.id) (chains_from mine []) ≡ some c
      → Stretch compare_started runs run s c
  found-Stretch s c e h =
      let found = find_lem (has_id run.id) (chains_from mine []) c h in
      let parts =
        Cut-split found.before found.after c (subst Cut found.split (chains_from-Cut mine [] tt)) in
      let whole : sort_runs compare_started (of_schedule runs s)
          ≡ joined found.before ++ (c ++ joined found.after) =
        sym (siblings-schedule s e)
        ∙ sym (joined-chains_from mine [])
        ∙ ap joined found.split
        ∙ joined-split found.before found.after c in
      record {
        earlier = joined found.before;
        later = joined found.after;
        perm =
            subst (λ xs. Perm xs (of_schedule runs s)) whole
              (sort_runs-perm compare_started (of_schedule runs s));
        sorted =
            subst (IsSorted compare_started) whole
              (sort_runs-IsSorted compare_started order (of_schedule runs s));
        has_run = found.passes;
        first_time = has_id-joined run.id found.before found.missed;
        retries =
            (All-of_append Retries found.before (c ∷ found.after)
              (subst (All Retries) found.split (chains_from-Retries mine [] tt))).1.0;
        begins = or_none found.before parts.0;
        ends = joined-starts found.after parts.1;
      }
    where
      or_none : {P : Type 0} (cs : List (List ChainRun)) → (cs ≡ []) ⊎ P → (joined cs ≡ []) ⊎ P
      or_none cs (inl e) = inl (ap joined e)
      or_none cs (inr p) = inr p

  missed-unlisted :
      (s : ℕ)
      → schedule_of run ≡ some s
      → find (has_id run.id) (chains_from mine []) ≡ none
      → has_id run.id (of_schedule runs s) ≡ false
  missed-unlisted s e h =
      sym (has_id-sort_runs compare_started run.id (of_schedule runs s))
      ∙ ap (has_id run.id) (sym (siblings-schedule s e))
      ∙ ap (has_id run.id) (sym (joined-chains_from mine []))
      ∙ has_id-joined run.id (chains_from mine [])
          (find-none (has_id run.id) (chains_from mine []) h)

  -- A run of no schedule, and one whose id no run of its schedule in the list has, is a chain of its
  -- own. The chain of another run is the stretch of its schedule's runs, sorted by their start and
  -- then their id, that has the first run with its id: it begins with a firing or with the oldest
  -- run, it goes on up to the next firing or to the end, and its other runs are no firings. The start
  -- times are compared by an order.
  pub retry_chain-IsChain : IsChain compare_started runs run (retry_chain compare_started runs run)
  unfolding retry_chain
  retry_chain-IsChain = go (schedule_of run) refl
    where
      go :
          (o : Option ℕ)
          → schedule_of run ≡ o
          → IsChain compare_started runs run (chain_of compare_started o run mine)
      go none e = outside e
      go (some s) e = elim (Option-cases (find (has_id run.id) (chains_from mine []))) [
        | inl h ↦ rw h (unlisted s e (missed-unlisted s e h))
        | inr (c, h) ↦ rw h (within s c e (found-Stretch s c e h))
      ]
