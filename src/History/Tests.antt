-- ===== src/History/Tests.antt =====
-- web/src/history/store.ts: an answer for the flow that was open before comes too late.
use tolquane.Base.{String, false, List, [], ◌∷◌, ◌≡◌, refl, here, there}
use tolquane.History.{HistoryEntry, HistoryState, closed, refresh, answer_entries}
use tolquane.History.Fresh.{
  Requests, Reached, started, refreshed, entries_came, Fresh, Reached-Fresh,
}

abbrev commit : String → HistoryEntry
commit path = record { revision = "c0ffee"; message = path }

-- A server that knows one commit of each flow.
abbrev OneCommit : String → List HistoryEntry → Type 0
OneCommit path entries = entries ≡ commit path ∷ []

abbrev requests : Requests
requests = (2, "b.py") ∷ (1, "a.py") ∷ []

abbrev answered : HistoryState
answered =
    answer_entries 1 (commit "a.py" ∷ []) false
      (answer_entries 2 (commit "b.py" ∷ []) false (refresh "b.py" (refresh "a.py" closed)))

reached : Reached OneCommit answered requests
unfolding refresh
reached = entries_came 1 "a.py" (commit "a.py" ∷ []) false (there here) refl (
    entries_came 2 "b.py" (commit "b.py" ∷ []) false here refl
      (refreshed "b.py" (refreshed "a.py" started)))

Reached-Fresh_example : Fresh OneCommit answered
Reached-Fresh_example = Reached-Fresh OneCommit answered requests reached
