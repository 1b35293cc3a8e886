-- ===== src/History.antt =====
-- web/src/history/store.ts: what the editor knows of the open flow's commits. A call of the server is
-- two steps: asking, and an answer that comes later, in any order.
mod Tests
pub mod Fresh
use text.Mathlib.Text.{◌==◌}
use tolquane.Base.{
  ℕ, suc, String, Bool, true, false, not, ◌&&◌, ◌||◌, Option, none, some, List, [], ◌∷◌, nat_eq,
  if◌then◌else◌,
}

pub record HistoryStatus : Type 0 where
  pub available : Bool
  pub repo : Bool
  pub reason : Option String

-- A commit of the file.
pub record HistoryEntry : Type 0 where
  pub revision : String
  pub message : String

-- `mentions` is the regular expression `/not on path/i`.
abbrev pub mentioned : (String → Bool) → Option String → Bool
mentioned mentions none = mentions ""
mentioned mentions (some reason) = mentions reason

unfoldable pub git_missing : (String → Bool) → Option HistoryStatus → Bool
git_missing mentions none = false
git_missing mentions (some s) = not s.available && mentioned mentions s.reason

unfoldable pub can_initialize : (String → Bool) → Option HistoryStatus → Bool
can_initialize mentions none = false
can_initialize mentions (some s) =
    not s.available && (not s.repo && not (git_missing mentions (some s)))

-- The state, with the number of the latest request.
pub record HistoryState : Type 0 where
  pub is_open : Bool
  pub status : Option HistoryStatus
  pub path : Option String
  pub entries : List HistoryEntry
  pub uncommitted : Bool
  pub loading : Bool
  pub failure : Option String
  pub sequence : ℕ

abbrev pub closed : HistoryState
closed = record {
  is_open = false;
  status = none;
  path = none;
  entries = [];
  uncommitted = false;
  loading = false;
  failure = none;
  sequence = 0;
}

abbrev pub set_open : Bool → HistoryState → HistoryState
set_open b s = record s { is_open = b }

abbrev pub is_path : Option String → String → Bool
is_path none path = false
is_path (some p) path = p == path

-- The start of `refresh`; its request has the new number.
unfoldable pub refresh : String → HistoryState → HistoryState
refresh path s =
    if is_path s.path path
    then record s { sequence = suc s.sequence; loading = true; failure = none }
    else record s {
      sequence = suc s.sequence;
      loading = true;
      failure = none;
      path = some path;
      entries = [];
      uncommitted = false;
    }

-- The workspace's answer to the request of number `mine`, for `path`.
unfoldable pub answer_status : ℕ → String → HistoryStatus → HistoryState → HistoryState
answer_status mine path status s =
    if not (nat_eq mine s.sequence)
    then s
    else if not status.available || path == ""
    then record s { status = some status; entries = []; uncommitted = false; loading = false }
    else record s { status = some status }

unfoldable pub answer_entries : ℕ → List HistoryEntry → Bool → HistoryState → HistoryState
answer_entries mine entries uncommitted s =
    if not (nat_eq mine s.sequence)
    then s
    else record s { entries = entries; uncommitted = uncommitted; loading = false; failure = none }

unfoldable pub answer_failure : ℕ → String → HistoryState → HistoryState
answer_failure mine reason s =
    if not (nat_eq mine s.sequence) then s else record s { loading = false; failure = some reason }
