-- ===== src/History/Fresh.antt =====
-- web/src/history/store.ts: a slow answer for a flow that was open before does not land on the flow
-- that is open now.
use text.Mathlib.Text.{◌==◌}
use text.Mathlib.TextEquality.{eq_iff}
use tolquane.Base.{
  ℕ, suc, ◌≤◌, String, Bool, true, false, not, ◌||◌, Option, none, some, List, [], ◌∷◌, ◌≡◌, refl,
  sym, ap, ◌∙◌, ◌⊎◌, inl, inr, nat_eq, if_cases, Member, Member-cons_cases, arith,
}
use tolquane.History.{
  HistoryStatus, HistoryEntry, HistoryState, closed, set_open, is_path, refresh, answer_status,
  answer_entries, answer_failure,
}

-- The requests that were made, each with its number and its path.
abbrev pub Requests : Type 0
Requests = List (ℕ × String)

is_path-some : (o : Option String) (path : String) → is_path o path ≡ true → o ≡ some path
is_path-some none path h = absurd (grind arith)
is_path-some (some p) path h = ap some ((eq_iff p path).0 h)

nat_eq_sound : (m n : ℕ) → not (nat_eq m n) ≡ false → m ≡ n
nat_eq_sound m n h = ground arith

-- `CanAnswer p es`: the server can answer `es` for the flow at `p`.
module _ (CanAnswer : String → List HistoryEntry → Type 0) where
  -- What the store reaches when answers come to requests that were made, in any order, any number
  -- of them never.
  pub data Reached : HistoryState → Requests → Type 0 where
    started : Reached closed []
    opened :
        {s : HistoryState} {rs : Requests} (b : Bool) → Reached s rs → Reached (set_open b s) rs
    refreshed :
        {s : HistoryState} {rs : Requests} (path : String)
        → Reached s rs
        → Reached (refresh path s) ((suc s.sequence, path) ∷ rs)
    status_came :
        {s : HistoryState} {rs : Requests} (mine : ℕ) (path : String) (status : HistoryStatus)
        → Member {A = ℕ × String} (mine, path) rs
        → Reached s rs
        → Reached (answer_status mine path status s) rs
    entries_came :
        {s : HistoryState} {rs : Requests} (mine : ℕ) (path : String) (entries : List HistoryEntry)
        (uncommitted : Bool)
        → Member {A = ℕ × String} (mine, path) rs
        → CanAnswer path entries
        → Reached s rs
        → Reached (answer_entries mine entries uncommitted s) rs
    failure_came :
        {s : HistoryState} {rs : Requests} (mine : ℕ) (path reason : String)
        → Member {A = ℕ × String} (mine, path) rs
        → Reached s rs
        → Reached (answer_failure mine reason s) rs

  -- The entries are those of a flow, unless there are none.
  abbrev pub Fresh : HistoryState → Type 0
  Fresh s = (s.entries ≡ []) ⊎ ((p : String) × (s.path ≡ some p) × CanAnswer p s.entries)

  -- The latest request is for the flow that is open.
  abbrev Numbered : HistoryState → Requests → Type 0
  Numbered s rs =
      (n : ℕ) (p : String)
      → Member {A = ℕ × String} (n, p) rs
      → (n ≤ s.sequence) × (n ≡ s.sequence → s.path ≡ some p)

  abbrev Both : HistoryState → Requests → Type 0
  Both s rs = Numbered s rs × Fresh s

  refresh-Both :
      (path : String) (s : HistoryState) (rs : Requests)
      → Both s rs
      → Both (refresh path s) ((suc s.sequence, path) ∷ rs)
  unfolding refresh
  refresh-Both path s rs (h, f) =
      if_cases (λ t. Both t ((suc s.sequence, path) ∷ rs)) (is_path s.path path)
        (λ e. (
          λ n p m. elim (Member-cons_cases m) [
            | inl q ↦ (
              omega (arith, ap (λ (x : ℕ × String). x.0) q),
              λ g. is_path-some s.path path e ∙ ap (λ (x : ℕ × String). some x.1) (sym q),
            )
            | inr k ↦ (omega (arith, (h n p k).0), λ g. absurd (omega (arith, (h n p k).0)))
          ],
          f,
        ))
        (λ e. (
          λ n p m. elim (Member-cons_cases m) [
            | inl q ↦ (
              omega (arith, ap (λ (x : ℕ × String). x.0) q),
              λ g. ap (λ (x : ℕ × String). some x.1) (sym q),
            )
            | inr k ↦ (omega (arith, (h n p k).0), λ g. absurd (omega (arith, (h n p k).0)))
          ],
          inl refl,
        ))

  Reached-Both : (s : HistoryState) (rs : Requests) → Reached s rs → Both s rs
  unfolding answer_status answer_entries answer_failure
  Reached-Both _ _ started = (λ n p m. elim m [ ], inl refl)
  Reached-Both _ _ (opened {s} {rs} b r) = Reached-Both s rs r
  Reached-Both _ _ (refreshed {s} {rs} path r) = refresh-Both path s rs (Reached-Both s rs r)
  Reached-Both _ _ (status_came {s} {rs} mine path status m r) =
      let (h, f) = Reached-Both s rs r in
      if_cases (λ t. Both t rs) (not (nat_eq mine s.sequence)) (λ e. (h, f))
        (λ e.
          if_cases (λ t. Both t rs) (not status.available || path == "") (λ g. (h, inl refl))
            (λ g. (h, f)))
  Reached-Both _ _ (entries_came {s} {rs} mine path entries uncommitted m a r) =
      let (h, f) = Reached-Both s rs r in
      if_cases (λ t. Both t rs) (not (nat_eq mine s.sequence)) (λ e. (h, f))
        (λ e. (h, inr (path, (h mine path m).1 (nat_eq_sound mine s.sequence e), a)))
  Reached-Both _ _ (failure_came {s} {rs} mine path reason m r) =
      let (h, f) = Reached-Both s rs r in
      if_cases (λ t. Both t rs) (not (nat_eq mine s.sequence)) (λ e. (h, f)) (λ e. (h, f))

  -- In every state that the store reaches, whatever answers come to the requests that were made and
  -- in whatever order, the entries are ones that the server can answer for the flow that is open,
  -- unless there are none.
  pub Reached-Fresh : (s : HistoryState) (rs : Requests) → Reached s rs → Fresh s
  Reached-Fresh s rs r = (Reached-Both s rs r).1
