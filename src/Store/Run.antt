-- ===== src/Store/Run.antt =====
-- web/src/store/run.ts: the run that the page shows, one event at a time. The measures of nodes and
-- edges with their aliases, the options and the start time are left out; the graph and the report
-- are JSON text, which the reducer only stores. Times are whole numbers.
pub mod Console
use Prim.Native.Char.{Char, code}
use Prim.Native.String
use tolquane.Model.Params.{is_space}
use text.Mathlib.Text.{◌==◌}
use tolquane.Base.{
  ℕ, zero, suc, ◌+◌, ◌-◌, String, Bool, true, false, not, ◌||◌, ◌&&◌, Option, none, some, List, [],
  ◌∷◌, ◌++◌, length, drop, drop_last, get_last?, or_else, if◌then◌else◌, leb, ltb, nat_eq, split_on,
}

pub data Phase : Type 0 where
  running done failed cancelled deadlocked : Phase

-- `'idle' | RunPhase`
pub data RunStatus : Type 0 where
  idle : RunStatus
  in_phase : Phase → RunStatus

pub data Stream : Type 0 where
  stdout stderr : Stream

pub record ConsoleLine : Type 0 where
  pub id : ℕ
  pub stream : Stream
  pub text : String

pub data ProblemKind : Type 0 where
  error deadlock : ProblemKind

pub record RunProblem : Type 0 where
  pub id : ℕ
  pub kind : ProblemKind
  pub type_name : String
  pub message : String
  pub node : Option String
  pub traceback : Option String

pub data Connection : Type 0 where
  unconnected connecting connected closed : Connection

-- `CONSOLE_LIMIT`
abbrev pub console_limit : ℕ
console_limit = 5000

pub record RunState : Type 0 where
  pub status : RunStatus
  pub run_id : Option ℕ
  pub phase : Option Phase
  pub elapsed : ℕ
  pub graph : Option String
  pub lines : List ConsoleLine
  pub lines_dropped : ℕ
  pub report : Option String
  pub problems : List RunProblem
  pub selected_edge : Option String
  pub connection : Connection

-- `EMPTY_STATE`
abbrev pub empty_state : RunState
empty_state = record {
  status = idle;
  run_id = none;
  phase = none;
  elapsed = 0;
  graph = none;
  lines = [];
  lines_dropped = 0;
  report = none;
  problems = [];
  selected_edge = none;
  connection = unconnected;
}

abbrev is_blank : Option String → Bool
is_blank none = false
is_blank (some s) = s == ""

-- The parts of a chunk; a line end at its end starts no line.
unfoldable pub chunk_lines : String → List String
chunk_lines text =
    let parts = split_on b'\n' text in if is_blank (get_last? parts) then drop_last parts else parts

abbrev pub last_id : List ConsoleLine → ℕ
last_id lines = elim (get_last? lines) [ none ↦ 0 | some l ↦ l.id ]

-- `parts.map((line) => ({ id: nextId++, stream, text: line }))`
unfoldable pub console_lines : ℕ → Stream → List String → List ConsoleLine
console_lines next stream [] = []
console_lines next stream (text ∷ rest) =
    record { id = next; stream = stream; text = text } ∷ console_lines (suc next) stream rest

-- The lines that are left of all, and how many fell off.
abbrev pub keep_recent : List ConsoleLine → ℕ → List ConsoleLine × ℕ
keep_recent lines dropped =
    let over = length lines - console_limit in (drop over lines, dropped + over)

-- A chunk with no line changes nothing.
abbrev pub append_parts : Stream → List String → RunState → RunState
append_parts stream [] s = s
append_parts stream (part ∷ parts) s =
    let all = s.lines ++ console_lines (last_id s.lines + 1) stream (part ∷ parts) in
    let (lines, dropped) = keep_recent all s.lines_dropped in
    record s { lines = lines; lines_dropped = dropped }

unfoldable pub append_lines : Stream → String → RunState → RunState
append_lines stream text s = append_parts stream (chunk_lines text) s

abbrev pub last_problem_id : List RunProblem → ℕ
last_problem_id ps = elim (get_last? ps) [ none ↦ 0 | some p ↦ p.id ]

abbrev pub add_problem :
    ProblemKind → String → String → Option String → Option String → RunState → RunState
add_problem kind type_name message node traceback s = record s {
  problems =
      s.problems
      ++ (record {
        id = last_problem_id s.problems + 1;
        kind = kind;
        type_name = type_name;
        message = message;
        node = node;
        traceback = traceback;
      }
          ∷ []);
}

-- Up to the first colon, which white space has to follow.
abbrev up_to_colon : String → Option String
up_to_colon String.[] = none
up_to_colon (String.◌∷◌ c String.[]) = none
up_to_colon (String.◌∷◌ c (String.◌∷◌ d s)) =
    let rest = up_to_colon (String.◌∷◌ d s) in
    if nat_eq (code c) b':'
    then (if is_space d then some "" else none)
    else elim rest [ none ↦ none | some name ↦ some (String.◌∷◌ c name) ]

abbrev name_start : String → Option String
name_start String.[] = none
name_start (String.◌∷◌ c s) =
    let rest = up_to_colon (String.◌∷◌ c s) in
    if is_space c || nat_eq (code c) b':' then none else rest

-- `/^\s{2}([^\s:][^:]*):\s/`
abbrev blocked_name : String → Option String
blocked_name (String.◌∷◌ c (String.◌∷◌ d s)) =
    let rest = name_start s in if is_space c && is_space d then rest else none
blocked_name _ = none

abbrev first_name : List String → Option String
first_name [] = none
first_name (l ∷ ls) = elim (blocked_name l) [ none ↦ first_name ls | some name ↦ some name ]

-- The first node that a report of a deadlock names, below its headline.
unfoldable pub deadlock_node : String → Option String
deadlock_node message = first_name (drop 1 (split_on b'\n' message))

pub data RunEvent : Type 0 where
  started : Option String → RunEvent
  progress : Phase → ℕ → RunEvent
  output : Stream → String → RunEvent
  reported : String → ℕ → RunEvent
  errored : String → String → Option String → Option String → RunEvent
  blocked : String → RunEvent
  ended : Phase → ℕ → RunEvent

unfoldable pub is_live : RunStatus → Bool
is_live idle = false
is_live (in_phase running) = true
is_live (in_phase p) = false

unfoldable pub apply_event : RunEvent → RunState → RunState
unfolding append_lines is_live
apply_event (started graph) s = record s { graph = graph; status = in_phase running }
apply_event (progress phase elapsed) s = record s {
  status = if is_live s.status then in_phase phase else s.status;
  phase = some phase;
  elapsed = elapsed;
}
apply_event (output stream text) s = append_lines stream text s
apply_event (reported report elapsed) s = record s { report = some report; elapsed = elapsed }
apply_event (errored type_name message node traceback) s =
    add_problem error type_name message node traceback s
apply_event (blocked message) s =
    add_problem deadlock "DeadlockError" message (deadlock_node message) none s
apply_event (ended phase elapsed) s = record s {
  status = in_phase phase;
  phase = some phase;
  elapsed = elapsed;
}

unfoldable pub apply_events : List RunEvent → RunState → RunState
unfolding apply_event
apply_events [] s = s
apply_events (e ∷ es) s = apply_events es (apply_event e s)

abbrev pub start : ℕ → RunState
start run = record empty_state {
  run_id = some run;
  status = in_phase running;
  connection = connecting;
}

-- Nothing that a replay sends again is left.
unfoldable pub rewind : RunState → RunState
rewind s = record s { lines = []; lines_dropped = 0; problems = []; report = none; graph = none }

unfoldable pub clear_console : RunState → RunState
clear_console s = record s { lines = []; lines_dropped = 0 }

abbrev pub select_edge : Option String → RunState → RunState
select_edge key s = record s { selected_edge = key }

abbrev pub set_connection : Connection → RunState → RunState
set_connection c s = record s { connection = c }

abbrev pub set_status : RunStatus → RunState → RunState
set_status status s = record s { status = status }
