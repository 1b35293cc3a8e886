-- ===== src/Run/Trigger.antt =====
-- web/src/run/format.ts: what started a run, and the chain of a firing and its retries. The order of
-- the start times, `localeCompare`, is given.
pub mod Order
pub mod Pieces
pub mod Chain
use text.Mathlib.Text.{◌==◌}
use tolquane.Base.{
  ℕ, String, ◌<>◌, Bool, true, false, not, ◌||◌, ◌&&◌, Option, none, some, List, [], ◌∷◌, ◌++◌, any,
  find, keep, or_else, if◌then◌else◌, leb, nat_eq, read, is_index, split_on, strip,
}

pub data TriggerKind : Type 0 where
  manual api schedule retry other : TriggerKind

pub record Trigger : Type 0 where
  pub kind : TriggerKind
  pub schedule : Option ℕ
  pub attempt : ℕ
  pub label : String

abbrev pub plain : TriggerKind → String → Trigger
plain kind label = record { kind = kind; schedule = none; attempt = 0; label = label }

-- The two numbers of `/^retry:(\d+):(\d+)$/`, as text.
abbrev pub two_indices : List String → Option (String × String)
two_indices (s ∷ n ∷ []) = if is_index s && is_index n then some (s, n) else none
two_indices _ = none

unfoldable pub match_retry : String → Option (String × String)
unfolding strip split_on
match_retry trigger = elim (strip "retry:" trigger) [
  | none ↦ none
  | some rest ↦ two_indices (split_on b':' rest)
]

-- The number of `/^schedule:(\d+)$/`, as text.
unfoldable pub match_schedule : String → Option String
unfolding strip
match_schedule trigger = elim (strip "schedule:" trigger) [
  | none ↦ none
  | some rest ↦ if is_index rest then some rest else none
]

abbrev pub scheduled : Option String → String → Trigger
scheduled none trigger = plain TriggerKind.other trigger
scheduled (some s) trigger = record {
  kind = TriggerKind.schedule;
  schedule = some (or_else (read s) 0);
  attempt = 0;
  label = "Schedule " <> s;
}

abbrev pub retried : Option (String × String) → Trigger → Trigger
retried none t = t
retried (some (s, n)) t = record {
  kind = TriggerKind.retry;
  schedule = some (or_else (read s) 0);
  attempt = or_else (read n) 0;
  label = "Retry " <> n;
}

unfoldable pub parse_trigger : String → Trigger
unfolding match_retry match_schedule read
parse_trigger trigger =
    if trigger == "manual"
    then plain TriggerKind.manual "Manual"
    else if trigger == "api"
    then plain TriggerKind.api "API"
    else retried (match_retry trigger) (scheduled (match_schedule trigger) trigger)

unfoldable pub format_trigger : String → String
unfolding parse_trigger
format_trigger trigger = (parse_trigger trigger).label

pub record ChainRun : Type 0 where
  pub id : ℕ
  pub trigger : String
  pub started : String

abbrev pub is_schedule : TriggerKind → Bool
is_schedule TriggerKind.schedule = true
is_schedule _ = false

abbrev pub is_firing : ChainRun → Bool
is_firing run = is_schedule ((parse_trigger run.trigger).kind)

abbrev pub schedule_of : ChainRun → Option ℕ
schedule_of run = (parse_trigger run.trigger).schedule

-- `===` on the numbers of two schedules
abbrev pub is_same : Option ℕ → Option ℕ → Bool
is_same none none = true
is_same (some m) (some n) = nat_eq m n
is_same _ _ = false

pub data Compared : Type 0 where
  earlier same later : Compared

-- The last chain takes the run, unless the run is a firing of the schedule.
unfoldable pub add_last : ChainRun → List (List ChainRun) → List (List ChainRun)
add_last run [] = (run ∷ []) ∷ []
add_last run (c ∷ []) = (c ++ run ∷ []) ∷ []
add_last run (c ∷ d ∷ cs) = c ∷ add_last run (d ∷ cs)

unfoldable pub add_run : ChainRun → List (List ChainRun) → List (List ChainRun)
unfolding add_last parse_trigger
add_run run chains = if is_firing run then chains ++ (run ∷ []) ∷ [] else add_last run chains

unfoldable pub chains_from : List ChainRun → List (List ChainRun) → List (List ChainRun)
unfolding add_run
chains_from [] chains = chains
chains_from (r ∷ rs) chains = chains_from rs (add_run r chains)

abbrev pub has_id : ℕ → List ChainRun → Bool
has_id n = any (λ other. nat_eq other.id n)

-- `order || difference`, not above zero
abbrev pub by_start : Compared → Bool → Bool
by_start Compared.earlier b = true
by_start Compared.same b = b
by_start Compared.later b = false

module _ (compare_started : String → String → Compared) where
  -- `a.started.localeCompare(b.started) || a.id - b.id`
  abbrev pub is_before : ChainRun → ChainRun → Bool
  is_before a b = by_start (compare_started a.started b.started) (leb a.id b.id)

  unfoldable pub insert_run : ChainRun → List ChainRun → List ChainRun
  insert_run r [] = r ∷ []
  insert_run r (s ∷ ss) =
      let rest = insert_run r ss in if is_before r s then r ∷ s ∷ ss else s ∷ rest

  unfoldable pub sort_runs : List ChainRun → List ChainRun
  unfolding insert_run
  sort_runs [] = []
  sort_runs (r ∷ rs) = insert_run r (sort_runs rs)

  -- The runs of the schedule, oldest first.
  unfoldable pub siblings : ChainRun → List ChainRun → List ChainRun
  unfolding sort_runs parse_trigger
  siblings run runs = sort_runs (keep (λ other. is_same (schedule_of other) (schedule_of run)) runs)

  abbrev pub chain_of : Option ℕ → ChainRun → List ChainRun → List ChainRun
  chain_of none run mine = run ∷ []
  chain_of (some s) run mine = or_else (find (has_id run.id) (chains_from mine [])) (run ∷ [])

  unfoldable pub retry_chain : List ChainRun → ChainRun → List ChainRun
  unfolding siblings chains_from parse_trigger
  retry_chain runs run = chain_of (schedule_of run) run (siblings run runs)
