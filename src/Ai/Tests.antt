-- ===== src/Ai/Tests.antt =====
-- web/src/ai: the theorems at two short texts and at a short conversation.
use text.Mathlib.Text.{◌==◌}
use tolquane.Base.{
  ◌++◌, Bool, true, false, Option, none, some, pos, arith, length, ◌≤◌, String, List, [], ◌∷◌, ◌≡◌,
  refl,
}
use tolquane.Ai.Stream.{cut, fresh as new_parser, push, stream_events}
use tolquane.Ai.Stream.Chunks.{joined, push-drained, stream_events-joined}
use tolquane.Model.Json.{Json, object, string, member, Members}
use tolquane.Ai.Diff.Fold.{lines_shown, lines_kept, lines_covered, collapse_lem}
use tolquane.Ai.Diff.{gap, collapse, is_kept, diff_of}
use tolquane.Ai.Diff.Longest.{empty, take_line, skip_line}
use tolquane.Ai.Diff.Rows.{
  old_lines, new_lines, numbered, count_same, diff_of-old_lines, diff_of-new_lines, diff_of-longest,
}
use tolquane.Ai.Threads.{
  put, patch, Turn, FlowDraft, initial, thread_of, is_streaming, from_assistant, new_turn, user,
}
use tolquane.Ai.Threads.Actions.{begin, AiEvent, words, done, tool_step, ToolStatus}
use tolquane.Ai.Send.{Request, Session, Reached, asked, InFlight, fresh, ask, returned, send_turn}
use tolquane.Ai.Send.Alive.{Reached-InFlight}
use tolquane.Ai.Send.Words.{text_of, send_turn-turns}
use tolquane.Ai.Apply.{apply_draft_to_editor, commit_message_for}
use tolquane.Ai.Apply.Undo.{undo-apply_draft_to_editor}
use tolquane.Store.Flow.{FlowState, snapshot, undo}
use tolquane.Store.Flow as Flow
use tolquane.Store.Flow.History.{Restores}
use tolquane.Model.Types.{FlowModel, ref}
use tolquane.Model.Params.{trim}

abbrev old_text : List String
old_text = "a" ∷ "b" ∷ "c" ∷ []

abbrev new_text : List String
new_text = "a" ∷ "c" ∷ "d" ∷ []

diff_of-old_lines_example : old_lines (diff_of old_text new_text) ≡ numbered 0 old_text
diff_of-old_lines_example = diff_of-old_lines old_text new_text

diff_of-new_lines_example : new_lines (diff_of old_text new_text) ≡ numbered 0 new_text
diff_of-new_lines_example = diff_of-new_lines old_text new_text

diff_of-longest_example : 2 ≤ count_same (diff_of old_text new_text)
diff_of-longest_example =
    diff_of-longest old_text new_text ("a" ∷ "c" ∷ []) refl
      (take_line "a" (skip_line "b" (take_line "c" empty))) (take_line "a" (take_line "c" empty))

collapse_lem_example :
    (lines_shown (collapse (diff_of old_text new_text) 0)
      ≡ lines_kept (is_kept 0 (diff_of old_text new_text)) 0 (diff_of old_text new_text))
    × (lines_covered (collapse (diff_of old_text new_text) 0) ≡ length (diff_of old_text new_text))
collapse_lem_example = collapse_lem (diff_of old_text new_text) 0

abbrev request : Request
request = record { key = "copy.py"; controller = 1 }

abbrev session : Session
session = ask request "make it read a file" fresh

session-Reached : Reached session
unfolding thread_of is_streaming
session-Reached = asked request "make it read a file" refl Reached.started

Reached-InFlight_example : InFlight "copy.py" session.requests
unfolding begin patch thread_of put is_streaming new_turn
Reached-InFlight_example = Reached-InFlight session "copy.py" session-Reached refl

abbrev events : List AiEvent
events =
    words "I will "
    ∷ tool_step (record {
      name = "write_flow";
      status = ToolStatus.started;
      summary = "copy.py";
      error = false;
    })
    ∷ words "write it."
    ∷ done true "Written."
    ∷ []

send_turn-turns_example :
    (answer : Turn) × ((thread_of
        ((send_turn "copy.py" "make it" 1 events returned initial).1)
        "copy.py").turns
      ≡ (thread_of initial "copy.py").turns ++ new_turn user "make it" 2 ∷ answer ∷ [])
    × (from_assistant answer ≡ true)
    × (answer.text ≡ text_of events)
    × (answer.streaming ≡ false)
send_turn-turns_example = send_turn-turns "copy.py" "make it" 1 events returned initial

abbrev flow : FlowModel
flow = record {
  version = pos 1;
  name = "copy";
  doc = none;
  prelude = [];
  nodes = [];
  flow = ref "read";
  start = none;
  params = [];
  main = none;
  epilogue = [];
  build_notes = [];
  guard = none;
}

abbrev open_flow : FlowState
open_flow = record Flow.initial { model = some flow; path = some "copy.py" }

abbrev draft : FlowDraft
draft = record {
  source = "def build(): ...";
  model = some flow;
  graph = none;
  code_only = none;
  applied = false;
}

abbrev is_first : Turn → Bool
is_first t = t.id == "a-1"

undo-apply_draft_to_editor_example :
    Restores
      (undo (apply_draft_to_editor is_first draft "copy.py" initial open_flow))
      (snapshot open_flow)
      open_flow.past
      (snapshot (apply_draft_to_editor is_first draft "copy.py" initial open_flow) ∷ [])
undo-apply_draft_to_editor_example =
    undo-apply_draft_to_editor is_first draft "copy.py" initial open_flow flow refl (omega arith)

commit_tests :
    (commit_message_for (some "\n  make it read a file  \nplease") ≡ some "AI: make it read a file")
    × (commit_message_for (some " \n ") ≡ none)
unfolding commit_message_for trim
commit_tests = (refl, refl)

abbrev text_event : String → Json
text_event s = object (member "type" (string "text") (member "text" (string s) Members.empty))

abbrev parse_words : String → Option Json
parse_words payload = some (text_event payload)

-- The same two events, at once and in four pieces.
abbrev at_once : List String
at_once = "data: one\n\ndata: two\n\n" ∷ []

abbrev in_pieces : List String
in_pieces = "da" ∷ "ta: one\n" ∷ "\ndata: t" ∷ "wo\n\n" ∷ []

same_text : joined in_pieces ≡ joined at_once
unfolding joined
same_text = refl

stream_events-joined_example :
    stream_events parse_words in_pieces ≡ stream_events parse_words at_once
stream_events-joined_example = stream_events-joined parse_words in_pieces at_once same_text

push-drained_example : cut ((push parse_words "data: one\n\ndata" new_parser).1.buffer) ≡ none
push-drained_example = push-drained parse_words "data: one\n\ndata" new_parser

stream_tests :
    stream_events parse_words ("data: one\n\ndata" ∷ ": two" ∷ [])
    ≡ text_event "one" ∷ text_event "two" ∷ []
unfolding stream_events trim
stream_tests = refl

-- A diff with no changes folds to one gap.
unchanged_tests : collapse (diff_of old_text old_text) 3 ≡ gap 3 ∷ []
unfolding collapse diff_of
unchanged_tests = refl
