-- ===== src/Ai/Apply.antt =====
-- web/src/ai/apply.ts: the flow that the assistant wrote becomes the open flow. Which turn holds the
-- draft is told by identity in the source, and by a given test here. A text is measured in
-- characters, where the source counts units of 16 bits.
pub mod Undo
use text.Mathlib.Text.{◌==◌}
use Prim.Native.Char.{Char}
use Prim.Native.String
use tolquane.Base.{
  ℕ, zero, suc, ◌-◌, String, ◌<>◌, Bool, true, false, not, ◌&&◌, Option, none, some, List, [], ◌∷◌,
  ◌++◌, length, drop, find, or_else, is_some, if◌then◌else◌, ltb, split_on,
}
use tolquane.Model.Params.{trim, trim_end}
use tolquane.Store.Flow.{FlowState, Snapshot, snapshot, recent}
use tolquane.Store.Flow.Server.{FlowResponse, apply_server_flow}
use tolquane.Ai.Threads.{Turn, Thread, FlowDraft, AiState, is_assistant, from_assistant}

-- `SUBJECT`
abbrev pub subject : ℕ
subject = 68

abbrev asks : Turn → Bool
asks t = not (from_assistant t) && not (trim t.text == "")

-- The last question before the turn that holds the draft; `asked` is the last one so far.
unfoldable pub request_from : (Turn → Bool) → Option String → List Turn → Option String
request_from holds asked [] = none
request_from holds asked (t ∷ ts) =
    let rest = request_from holds (if asks t then some t.text else asked) ts in
    if holds t then asked else rest

unfoldable pub request_for : (Turn → Bool) → Option Thread → Option String
unfolding request_from
request_for holds none = none
request_for holds (some t) = request_from holds none t.turns

-- `text.slice(0, n)`
unfoldable pub cut : ℕ → String → String
cut zero s = ""
cut (suc n) String.[] = ""
cut (suc n) (String.◌∷◌ c s) = String.◌∷◌ c (cut n s)

unfoldable pub count : String → ℕ
count String.[] = 0
count (String.◌∷◌ c s) = suc (count s)

-- The first line that is not blank, in at most 68 characters.
unfoldable pub commit_message_for : Option String → Option String
unfolding cut count split_on
commit_message_for request =
    let line = or_else (find (λ l. not (trim l == "")) (split_on b'\n' (or_else request ""))) "" in
    let text = trim line in
    let short = trim_end (cut (subject - 1) text) <> "…" in
    if text == "" then none else some ("AI: " <> (if ltb subject (count text) then short else text))

abbrev pub history_of_apply : FlowState → List Snapshot
history_of_apply s = if is_some s.model then s.past ++ snapshot s ∷ [] else s.past

abbrev pub response_of : FlowDraft → String → FlowState → FlowResponse
response_of d path s = record {
  path = or_else s.path path;
  source = d.source;
  modified = or_else s.modified "";
  model = d.model;
  code_only = d.code_only;
  graph = d.graph;
  layout = some s.layout;
}

-- The message of the next commit is quoted from the thread of the path.
unfoldable pub apply_draft_to_editor :
    (Turn → Bool) → FlowDraft → String → AiState → FlowState → FlowState
unfolding recent commit_message_for request_for
apply_draft_to_editor holds d path ai s = record (apply_server_flow (response_of d path s) s) {
  dirty = true;
  source_stale = false;
  past = recent (history_of_apply s);
  pending_commit = commit_message_for (request_for holds (ai.threads path));
}
