-- ===== src/Ai/Threads/Actions.antt =====
-- web/src/store/ai.ts: the actions of the store, and the events of an answer.
use text.Mathlib.Text.{◌==◌}
use tolquane.Base.{
  ℕ, suc, String, ◌<>◌, Bool, true, false, not, ◌&&◌, Option, none, some, List, [], ◌∷◌, ◌++◌, any,
  is_some, if◌then◌else◌, show, map,
}
use tolquane.Ai.Threads.{
  ToolStep, FlowDraft, user, assistant, Turn, Thread, empty_thread, new_turn, AiState, put,
  thread_of, patch, change_last, from_assistant, on_last,
}

abbrev pub set_open : Bool → AiState → AiState
set_open b s = record s { is_open = b }

abbrev pub toggle : AiState → AiState
toggle s = record s { is_open = not s.is_open }

abbrev pub request_new_flow : AiState → AiState
request_new_flow s = record s { wants_new_flow = true }

abbrev pub clear_new_flow : AiState → AiState
clear_new_flow s = record s { wants_new_flow = false }

abbrev pub set_draft : String → String → AiState → AiState
set_draft key draft s = patch key (λ t. record t { draft = draft }) s

abbrev pub prime : String → String → AiState → AiState
prime key question s = patch key (λ t. record t { primed = some question }) s

abbrev pub question_of : Option Thread → Option String
question_of none = none
question_of (some t) = t.primed

-- The question, and the state without it.
unfoldable pub take_primed : String → AiState → Option String × AiState
take_primed key s =
    let question = question_of (s.threads key) in
    (question, if is_some question then patch key (λ t. record t { primed = none }) s else s)

abbrev abort_into : Option ℕ → List ℕ → List ℕ
abort_into none cs = cs
abort_into (some c) cs = c ∷ cs

-- `controllers.get(key)?.abort()`
abbrev pub abort : String → AiState → AiState
abort key s = record s { aborted = abort_into (s.controllers key) s.aborted }

-- `controllers.delete(key)`
abbrev pub forget : String → AiState → AiState
forget key s = record s { controllers = put key none s.controllers }

-- The turns that `begin` adds; the assistant's is made first.
abbrev pub begun : String → ℕ → Thread → Thread
begun question n t = record t {
  draft = "";
  primed = none;
  turns = t.turns ++ (new_turn user question (suc (suc n)) ∷ new_turn assistant "" (suc n) ∷ []);
}

unfoldable pub begin : String → String → ℕ → AiState → AiState
unfolding patch
begin key question controller s =
    let held = record (abort key s) { controllers = put key (some controller) s.controllers } in
    patch key (begun question s.counter) (record held { counter = suc (suc s.counter) })

abbrev pub with_text : String → Turn → Turn
with_text delta t = record t { text = t.text <> delta }

unfoldable pub append_text : String → String → AiState → AiState
append_text key delta s = on_last key (with_text delta) s

pub data ToolStatus : Type 0 where
  started finished : ToolStatus

pub record ToolEvent : Type 0 where
  pub name : String
  pub status : ToolStatus
  pub summary : String
  pub error : Bool

abbrev pub new_step : ToolEvent → ℕ → ToolStep
new_step e n = record {
  id = "t-" <> show n;
  name = e.name;
  request = e.summary;
  result = none;
  error = false;
  running = true;
}

abbrev pub waits_for : ToolEvent → ToolStep → Bool
waits_for e step = step.running && step.name == e.name

abbrev pub answered : ToolEvent → ToolStep → ToolStep
answered e step = record step { running = false; result = some e.summary; error = e.error }

abbrev pub put_tools : Turn → Option (List ToolStep) → Turn
put_tools t none = t
put_tools t (some tools) = record t { tools = tools }

abbrev pub tool_by : ToolEvent → ℕ → Turn → ToolStatus → Turn
tool_by e n t started = record t { tools = t.tools ++ new_step e n ∷ [] }
tool_by e n t finished = put_tools t (change_last (waits_for e) (answered e) t.tools)

-- What a tool's event does to the turn; a new step takes the counter's next value.
abbrev pub tool_change : ToolEvent → ℕ → Turn → Turn
tool_change e n t = tool_by e n t e.status

abbrev pub is_start : ToolStatus → Bool
is_start started = true
is_start finished = false

-- The counter moves when a step is made, which takes a turn of the assistant.
unfoldable pub tool : String → ToolEvent → AiState → AiState
unfolding thread_of
tool key e s =
    let makes = is_start e.status && any from_assistant ((thread_of s key).turns) in
    let next = if makes then suc s.counter else s.counter in
    on_last key (tool_change e (suc s.counter)) (record s { counter = next })

abbrev pub with_flow : FlowDraft → Turn → Turn
with_flow d t = record t { flow = some d }

-- The event's flow, with `applied` false.
unfoldable pub set_flow : String → FlowDraft → AiState → AiState
set_flow key d s = on_last key (with_flow (record d { applied = false })) s

abbrev pub done_turn : Bool → String → Turn → Turn
done_turn ok summary t = record t { summary = some summary; ok = ok; streaming = false }

unfoldable pub finish : String → Bool → String → AiState → AiState
finish key ok summary s = on_last key (done_turn ok summary) s

abbrev pub failed_turn : String → Turn → Turn
failed_turn message t = record t { error = some message; ok = false; streaming = false }

unfoldable pub fail : String → String → AiState → AiState
fail key message s = on_last key (failed_turn message) s

abbrev pub stopped_turn : Turn → Turn
stopped_turn t =
    if t.streaming then record t { streaming = false; stopped = true; ok = false } else t

unfoldable pub stop : String → AiState → AiState
stop key s = on_last key stopped_turn (forget key (abort key s))

abbrev pub settled_turn : Turn → Turn
settled_turn t = if t.streaming then record t { streaming = false } else t

unfoldable pub settle : String → AiState → AiState
settle key s = on_last key settled_turn (forget key s)

abbrev applied_flow : Option FlowDraft → Option FlowDraft
applied_flow none = none
applied_flow (some d) = some (record d { applied = true })

abbrev pub applied_turn : String → Turn → Turn
applied_turn id t = if t.id == id then record t { flow = applied_flow t.flow } else t

unfoldable pub mark_applied : String → String → AiState → AiState
mark_applied key id s = patch key (λ t. record t { turns = map (applied_turn id) t.turns }) s

unfoldable pub clear : String → AiState → AiState
clear key s = patch key (λ t. empty_thread) (forget key (abort key s))

-- `AiEvent`
pub data AiEvent : Type 0 where
  words : String → AiEvent
  tool_step : ToolEvent → AiEvent
  flow : FlowDraft → AiEvent
  done : Bool → String → AiEvent
  error : String → AiEvent

unfoldable pub apply_event : String → AiEvent → AiState → AiState
unfolding append_text tool set_flow finish fail
apply_event key (words delta) s = append_text key delta s
apply_event key (tool_step e) s = tool key e s
apply_event key (flow d) s = set_flow key d s
apply_event key (done ok summary) s = finish key ok summary s
apply_event key (error message) s = fail key message s
