-- ===== src/Ai/Send/Words.antt =====
-- web/src/ai/send.ts: what a turn leaves in its thread.
use text.Mathlib.TextPositions.{eq_refl}
use text.Mathlib.TextLemmas.{append_assoc as text_assoc, append-nil, nil-append}
use tolquane.Base.{
  String, ◌<>◌, ℕ, suc, true, false, Option, none, some, List, [], ◌∷◌, ◌++◌, ◌≡◌, refl, sym, ap,
  subst, ◌∙◌, if◌then◌else◌, if_cases,
}
use tolquane.Ai.Threads.{
  Turn, ToolStep, user, assistant, Thread, AiState, thread_of, change_last, from_assistant,
  is_assistant, on_last, new_turn, put, patch,
}
use tolquane.Ai.Threads.Actions.{
  begin, forget, with_text, tool_change, tool_by, done_turn, failed_turn, settled_turn, ToolEvent,
  ToolStatus, started, finished, AiEvent, words, tool_step, flow, done, error, apply_event, fail,
  settle, put_tools, waits_for, answered,
}
use tolquane.Ai.Send.{Answer, returned, threw, caught, apply_events, send_turn}
use tolquane.Ai.Send.Last.{settled_quiet}
use tolquane.Ai.Send.Updates.{change_last-append, with_turns, changed, on_last-Updates}

-- The text of the answer.
unfoldable pub text_of : List AiEvent → String
text_of [] = ""
text_of (words delta ∷ es) = delta <> text_of es
text_of (_ ∷ es) = text_of es

-- The thread's last two turns are the question's, and an answer with this text.
record Ends (s : AiState) (key : String) (turns : List Turn) (u : Turn) (text : String)
    : Type 0 where
  answer : Turn
  has_turns : (thread_of s key).turns ≡ turns ++ u ∷ answer ∷ []
  speaks : from_assistant answer ≡ true
  says : answer.text ≡ text

on_last-own :
    (key : String) (f : Turn → Turn) (s : AiState)
    → thread_of (on_last key f s) key ≡ changed f (thread_of s key)
on_last-own key f s =
    on_last-Updates key f s key
    ∙ ap (λ b. if b then changed f (thread_of s key) else thread_of s key) (eq_refl key)

on_last-Ends :
    (f : Turn → Turn) (s : AiState) (key : String) (turns : List Turn) (u : Turn)
    (text next : String)
    → ((t : Turn) → ((f t).role ≡ t.role))
    → ((t : Turn) → t.text ≡ text → (f t).text ≡ next)
    → Ends s key turns u text
    → Ends (on_last key f s) key turns u next
on_last-Ends f s key turns u text next h k e = record {
  answer = f e.answer;
  has_turns =
      ap (λ (t : Thread). t.turns) (on_last-own key f s)
      ∙ ap (λ o. (with_turns (thread_of s key) o).turns)
          (ap (change_last from_assistant f) e.has_turns
            ∙ change_last-append from_assistant f turns u e.answer e.speaks);
  speaks = ap is_assistant (h e.answer) ∙ e.speaks;
  says = k e.answer e.says;
}

tool-role : (e : ToolEvent) (n : ℕ) (t : Turn) → (tool_change e n t).role ≡ t.role
tool-role e n t = by e.status
  where
    of_tools : (o : Option (List ToolStep)) → (put_tools t o).role ≡ t.role
    of_tools none = refl
    of_tools (some tools) = refl

    by : (b : ToolStatus) → (tool_by e n t b).role ≡ t.role
    by started = refl
    by finished = of_tools (change_last (waits_for e) (answered e) t.tools)

tool-text : (e : ToolEvent) (n : ℕ) (t : Turn) → (tool_change e n t).text ≡ t.text
tool-text e n t = by e.status
  where
    of_tools : (o : Option (List ToolStep)) → (put_tools t o).text ≡ t.text
    of_tools none = refl
    of_tools (some tools) = refl

    by : (b : ToolStatus) → (tool_by e n t b).text ≡ t.text
    by started = refl
    by finished = of_tools (change_last (waits_for e) (answered e) t.tools)

-- The counter is no part of what the thread shows.
count-Ends :
    (s : AiState) (n : ℕ) (key : String) (turns : List Turn) (u : Turn) (text : String)
    → Ends s key turns u text
    → Ends (record s { counter = n }) key turns u text
unfolding thread_of
count-Ends s n key turns u text e = record {
  answer = e.answer;
  has_turns = e.has_turns;
  speaks = e.speaks;
  says = e.says;
}

abbrev delta_of : AiEvent → String
delta_of (words delta) = delta
delta_of e = ""

apply_event-Ends :
    (x : AiEvent) (s : AiState) (key : String) (turns : List Turn) (u : Turn) (text : String)
    → Ends s key turns u text
    → Ends (apply_event key x s) key turns u (text <> delta_of x)
unfolding apply_event
apply_event-Ends (words delta) s key turns u text e =
    on_last-Ends (with_text delta) s key turns u text _ (λ t. refl) (λ t q. ap (λ v. v <> delta) q)
      e
apply_event-Ends (tool_step x) s key turns u text e =
    on_last-Ends (tool_change x (suc s.counter)) _ key turns u text _ (tool-role x (suc s.counter))
      (λ t q. tool-text x (suc s.counter) t ∙ q ∙ sym (append-nil text))
      (count-Ends s _ key turns u text e)
apply_event-Ends (flow d) s key turns u text e =
    on_last-Ends _ s key turns u text _ (λ t. refl) (λ t q. q ∙ sym (append-nil text)) e
apply_event-Ends (done ok summary) s key turns u text e =
    on_last-Ends (done_turn ok summary) s key turns u text _ (λ t. refl)
      (λ t q. q ∙ sym (append-nil text)) e
apply_event-Ends (error message) s key turns u text e =
    on_last-Ends (failed_turn message) s key turns u text _ (λ t. refl)
      (λ t q. q ∙ sym (append-nil text)) e

text_of-cons : (x : AiEvent) (es : List AiEvent) → text_of (x ∷ es) ≡ delta_of x <> text_of es
unfolding text_of
text_of-cons (words delta) es = refl
text_of-cons (tool_step x) es = sym (nil-append (text_of es))
text_of-cons (flow d) es = sym (nil-append (text_of es))
text_of-cons (done ok summary) es = sym (nil-append (text_of es))
text_of-cons (error message) es = sym (nil-append (text_of es))

apply_events-Ends :
    (es : List AiEvent) (s : AiState) (key : String) (turns : List Turn) (u : Turn) (text : String)
    → Ends s key turns u text
    → Ends (apply_events key es s) key turns u (text <> text_of es)
unfolding apply_events text_of
apply_events-Ends [] s key turns u text e = subst (Ends s key turns u) (sym (append-nil text)) e
apply_events-Ends (x ∷ es) s key turns u text e =
    subst (Ends (apply_events key es (apply_event key x s)) key turns u)
      (text_assoc text (delta_of x) (text_of es) ∙ ap (λ v. text <> v) (sym (text_of-cons x es)))
      (apply_events-Ends es (apply_event key x s) key turns u (text <> delta_of x)
        (apply_event-Ends x s key turns u text e))

caught-Ends :
    (x : Answer) (s : AiState) (key : String) (turns : List Turn) (u : Turn) (text : String)
    → Ends s key turns u text
    → Ends (caught key x s) key turns u text
unfolding fail
caught-Ends returned s key turns u text e = e
caught-Ends (threw message) s key turns u text e =
    on_last-Ends (failed_turn message) s key turns u text text (λ t. refl) (λ t q. q) e

begin-turns :
    (key question : String) (controller : ℕ) (s : AiState)
    → (thread_of (begin key question controller s) key).turns
      ≡ (thread_of s key).turns
        ++ new_turn user question (suc (suc s.counter)) ∷ new_turn assistant "" (suc s.counter) ∷ []
unfolding begin patch thread_of put
begin-turns key question controller s = rw (eq_refl key) refl

begin-speaks : (n : ℕ) → from_assistant (new_turn assistant "" n) ≡ true
unfolding new_turn
begin-speaks n = refl

begin-says : (n : ℕ) → (new_turn assistant "" n).text ≡ ""
unfolding new_turn
begin-says n = refl

settled-role : (t : Turn) → (settled_turn t).role ≡ t.role
settled-role t = if_cases (λ (u : Turn). u.role ≡ t.role) t.streaming (λ e. refl) (λ e. refl)

settled-text : (t : Turn) → (settled_turn t).text ≡ t.text
settled-text t = if_cases (λ (u : Turn). u.text ≡ t.text) t.streaming (λ e. refl) (λ e. refl)

forget-Ends :
    (s : AiState) (key : String) (turns : List Turn) (u : Turn) (text : String)
    → Ends s key turns u text
    → Ends (forget key s) key turns u text
unfolding thread_of
forget-Ends s key turns u text e = record {
  answer = e.answer;
  has_turns = e.has_turns;
  speaks = e.speaks;
  says = e.says;
}

-- A turn of the conversation that runs to its end, whatever arrives and however the request ends,
-- leaves the thread with two turns more: the question, and an answer whose text is all the text that
-- arrived, and which is no longer arriving.
pub send_turn-turns :
    (key question : String) (controller : ℕ) (events : List AiEvent) (x : Answer) (s : AiState)
    → (answer : Turn) × ((thread_of ((send_turn key question controller events x s).1) key).turns
        ≡ (thread_of s key).turns ++ new_turn user question (suc (suc s.counter)) ∷ answer ∷ [])
      × (from_assistant answer ≡ true)
      × (answer.text ≡ text_of events)
      × (answer.streaming ≡ false)
unfolding send_turn settle on_last-Ends
send_turn-turns key question controller events x s =
    let n = s.counter in
    let t = thread_of s key in
    let u = new_turn user question (suc (suc n)) in
    let a = new_turn assistant "" (suc n) in
    let one : Ends (begin key question controller s) key t.turns u "" = record {
      answer = a;
      has_turns = begin-turns key question controller s;
      speaks = begin-speaks (suc n);
      says = begin-says (suc n);
    } in
    let two = apply_events-Ends events (begin key question controller s) key t.turns u "" one in
    let three =
      caught-Ends x (apply_events key events (begin key question controller s)) key t.turns u _
        two in
    let before = forget-Ends _ key t.turns u _ three in
    let four =
      on_last-Ends settled_turn _ key t.turns u _ _ settled-role (λ v q. settled-text v ∙ q)
        before in
    (
      four.answer,
      four.has_turns,
      four.speaks,
      four.says ∙ nil-append (text_of events),
      settled_quiet before.answer,
    )
