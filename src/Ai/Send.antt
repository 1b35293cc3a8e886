-- ===== src/Ai/Send.antt =====
-- web/src/ai/send.ts and the guard of web/src/ai/AiPanel.tsx: one turn of the conversation, alone and
-- among other turns and the user's actions. What the request gives is a parameter: the events that
-- arrive, and whether it throws.
pub mod Updates
pub mod Words
pub mod Last
pub mod Alive
use tolquane.Base.{ℕ, String, Bool, false, Option, none, some, List, [], ◌∷◌, ◌++◌, ◌≡◌, Member}
use tolquane.Ai.Threads.{AiState, initial, ChatMessage, thread_of, is_streaming, history_of}
use tolquane.Ai.Threads.Actions.{
  set_open, toggle, request_new_flow, clear_new_flow, set_draft, prime, take_primed, begin, stop,
  settle, fail, mark_applied, clear, AiEvent, apply_event,
}

-- `chat` returns, or throws with this message.
pub data Answer : Type 0 where
  returned : Answer
  threw : String → Answer

abbrev pub caught : String → Answer → AiState → AiState
caught key returned s = s
caught key (threw message) s = fail key message s

unfoldable pub apply_events : String → List AiEvent → AiState → AiState
unfolding apply_event
apply_events key [] s = s
apply_events key (e ∷ es) s = apply_events key es (apply_event key e s)

-- The `catch` and the `finally` of `sendTurn`.
abbrev pub over : String → Answer → AiState → AiState
over key answer s = settle key (caught key answer s)

-- The messages of the request, and the state when it is over.
unfoldable pub send_turn :
    String → String → ℕ → List AiEvent → Answer → AiState → List ChatMessage × AiState
unfolding apply_events begin history_of thread_of
send_turn key question controller events answer s = (
  history_of (thread_of s key) question,
  over key answer (apply_events key events (begin key question controller s)),
)

-- What the user does beside asking.
pub data Act : Type 0 where
  opened : Bool → Act
  toggled wanted unwanted : Act
  drafted primed_with : String → String → Act
  primed_taken stopped cleared : String → Act
  applied : String → String → Act

unfoldable pub act : Act → AiState → AiState
unfolding take_primed stop mark_applied clear
act (opened b) s = set_open b s
act toggled s = toggle s
act wanted s = request_new_flow s
act unwanted s = clear_new_flow s
act (drafted key draft) s = set_draft key draft s
act (primed_with key question) s = prime key question s
act (primed_taken key) s = (take_primed key s).1
act (stopped key) s = stop key s
act (cleared key) s = clear key s
act (applied key id) s = mark_applied key id s

pub record Request : Type 0 where
  pub key : String
  pub controller : ℕ

-- The store, and the requests that are not over.
pub record Session : Type 0 where
  pub store : AiState
  pub requests : List Request

abbrev pub fresh : Session
fresh = record { store = initial; requests = [] }

abbrev pub ask : Request → String → Session → Session
ask r question s = record {
  store = begin r.key question r.controller s.store;
  requests = r ∷ s.requests;
}

-- Any order of questions, events, ends of requests and other actions. The panel asks nothing while a
-- turn of the thread is arriving.
pub data Reached : Session → Type 0 where
  started : Reached fresh
  asked :
      {s : Session} (r : Request) (question : String)
      → is_streaming (thread_of s.store r.key) ≡ false
      → Reached s
      → Reached (ask r question s)
  arrived :
      {s : Session} (r : Request) (e : AiEvent)
      → Member r s.requests
      → Reached s
      → Reached (record s { store = apply_event r.key e s.store })
  ended :
      {s : Session} (before after : List Request) (r : Request) (answer : Answer)
      → s.requests ≡ before ++ r ∷ after
      → Reached s
      → Reached (record { store = over r.key answer s.store; requests = before ++ after })
  acted : {s : Session} (a : Act) → Reached s → Reached (record s { store = act a s.store })

-- A request for the thread is not over.
abbrev pub InFlight : String → List Request → Type 0
InFlight key rs = (r : Request) × Member r rs × (r.key ≡ key)
