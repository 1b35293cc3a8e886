-- ===== src/Ai/Threads.antt =====
-- web/src/store/ai.ts: the conversations with the assistant, one for each flow. The map of threads is
-- a function of the key; an AbortController is a number, and the list of the aborted ones is part of
-- the state. The graph and the reason of a file without a model are JSON text.
pub mod Actions
use text.Mathlib.Text.{◌==◌}
use tolquane.Base.{
  ℕ, suc, String, ◌<>◌, Bool, true, false, ◌&&◌, Option, none, some, List, [], ◌∷◌, ◌++◌, any,
  is_some, or_else, if◌then◌else◌, show,
}
use tolquane.Model.Types.{FlowModel}
use tolquane.Model.Params.{trim}

pub record ToolStep : Type 0 where
  pub id : String
  pub name : String
  pub request : String
  pub result : Option String
  pub error : Bool
  pub running : Bool

pub record FlowDraft : Type 0 where
  pub source : String
  pub model : Option FlowModel
  pub graph : Option String
  pub code_only : Option String
  pub applied : Bool

pub data Role : Type 0 where
  user assistant : Role

pub record Turn : Type 0 where
  pub id : String
  pub role : Role
  pub text : String
  pub tools : List ToolStep
  pub flow : Option FlowDraft
  pub summary : Option String
  pub ok : Bool
  pub error : Option String
  pub streaming : Bool
  pub stopped : Bool

pub record Thread : Type 0 where
  pub turns : List Turn
  pub draft : String
  pub primed : Option String

abbrev pub empty_thread : Thread
empty_thread = record { turns = []; draft = ""; primed = none }

abbrev pub is_assistant : Role → Bool
is_assistant user = false
is_assistant assistant = true

abbrev pub id_prefix : Role → String
id_prefix user = "u"
id_prefix assistant = "a"

-- `newTurn`, with the counter's new value.
unfoldable pub new_turn : Role → String → ℕ → Turn
new_turn role text n = record {
  id = id_prefix role <> "-" <> show n;
  role = role;
  text = text;
  tools = [];
  flow = none;
  summary = none;
  ok = true;
  error = none;
  streaming = is_assistant role;
  stopped = false;
}

-- The store, the map of controllers beside it, and the counter.
pub record AiState : Type 0 where
  pub is_open : Bool
  pub wants_new_flow : Bool
  pub threads : String → Option Thread
  pub controllers : String → Option ℕ
  pub aborted : List ℕ
  pub counter : ℕ

abbrev pub initial : AiState
initial = record {
  is_open = false;
  wants_new_flow = false;
  threads = λ key. none;
  controllers = λ key. none;
  aborted = [];
  counter = 0;
}

-- `{ ...map, [key]: value }`, or the map without the key.
unfoldable pub put {ℓ} : {A : Type ℓ} → String → Option A → (String → Option A) → String → Option A
put key v map k = if k == key then v else map k

-- `threadOf`
unfoldable pub thread_of : AiState → String → Thread
thread_of s key = or_else (s.threads key) empty_thread

abbrev pub set_thread : String → Thread → AiState → AiState
set_thread key t s = record s { threads = put key (some t) s.threads }

unfoldable pub patch : String → (Thread → Thread) → AiState → AiState
unfolding thread_of
patch key change s = set_thread key (change (thread_of s key)) s

-- The last element that passes the test, rewritten; `none` when there is none.
unfoldable pub change_last {ℓ} : {A : Type ℓ} → (A → Bool) → (A → A) → List A → Option (List A)
change_last p f [] = none
change_last p f (x ∷ xs) = elim (change_last p f xs) [
  | some ys ↦ some (x ∷ ys)
  | none ↦ if p x then some (f x ∷ xs) else none
]

abbrev pub from_assistant : Turn → Bool
from_assistant t = is_assistant t.role

-- The end of `onLast`.
abbrev pub put_turns : String → Thread → AiState → Option (List Turn) → AiState
put_turns key t s none = s
put_turns key t s (some turns) = set_thread key (record t { turns = turns }) s

unfoldable pub on_last : String → (Turn → Turn) → AiState → AiState
unfolding thread_of
on_last key change s =
    let t = thread_of s key in put_turns key t s (change_last from_assistant change t.turns)

unfoldable pub is_streaming : Thread → Bool
is_streaming t = any (λ turn. turn.streaming) t.turns

abbrev pub words_of : Turn → String
words_of t = if is_assistant t.role then trim t.text else t.text

pub record ChatMessage : Type 0 where
  pub role : Role
  pub content : String

-- The loop of `historyOf`.
unfoldable pub history_from : List Turn → String → List ChatMessage
history_from [] question = record { role = user; content = question } ∷ []
history_from (t ∷ ts) question =
    let rest = history_from ts question in
    if words_of t == "" then rest else record { role = t.role; content = words_of t } ∷ rest

unfoldable pub history_of : Thread → String → List ChatMessage
unfolding history_from
history_of t question = history_from t.turns question
