-- ===== src/Ai/Send/Alive.antt =====
-- web/src/store/ai.ts and web/src/ai/send.ts: a turn that is still arriving has a request that will
-- end it.
use text.Mathlib.Text.{◌==◌}
use text.Mathlib.TextEquality.{eq_iff}
use text.Mathlib.TextPositions.{eq_refl}
use tolquane.Base.{
  String, ℕ, suc, true, false, ◌&&◌, Option, none, some, List, ◌∷◌, ◌++◌, any, ◌≡◌, refl, sym, ap,
  subst, ◌∙◌, inl, inr, if◌then◌else◌, here, there, Member-append_left, Member-append_right,
  Member-append_cases, Member-cons_cases, map, is_some, if_cases,
}
use tolquane.Ai.Threads.{
  put, Turn, ToolStep, Thread, AiState, empty_thread, thread_of, change_last, patch, from_assistant,
  is_streaming, new_turn, on_last,
}
use tolquane.Ai.Threads.Actions.{
  begin, begun, with_text, tool_change, done_turn, failed_turn, stopped_turn, settled_turn,
  applied_turn, AiEvent, words, tool_step, flow, done, error, apply_event, fail, stop, settle,
  mark_applied, clear, tool_by, waits_for, answered, is_start, question_of, forget, abort,
  take_primed, put_tools, ToolEvent, ToolStatus, started, finished,
}
use tolquane.Ai.Send.{
  Answer, returned, threw, over, caught, Act, act, opened, toggled, wanted, unwanted, drafted,
  primed_with, primed_taken, stopped, cleared, applied, Request, Session, Reached, InFlight, asked,
  arrived, ended, acted,
}
use tolquane.Ai.Send.Updates.{
  change_last-cases, with_turns, changed, Updates, patch-Updates, on_last-Updates,
}
use tolquane.Ai.Send.Last.{
  Tame, LastOnly, no_stream, changed-LastOnly, changed-quiet, changed-streaming, begun-LastOnly,
  map-streaming, map-LastOnly, absurd_bool, bool_clash, settled_quiet,
}

-- The turn that streams, if any, is the last of the assistant, and a request for it is not over.
abbrev Fine : List Request → String → Thread → Type 0
Fine rs k t = LastOnly t.turns × (is_streaming t ≡ true → InFlight k rs)

kept-Fine :
    (f : Turn → Turn)
    → Tame f
    → (rs : List Request) (k : String) (t : Thread) → Fine rs k t
    → Fine rs k (changed f t)
unfolding is_streaming
kept-Fine f h rs k t l = elim (change_last-cases from_assistant f t.turns) [
  | inl (e, n) ↦ subst (λ o. Fine rs k (with_turns t o)) (sym e) l
  | inr (ys, e, c) ↦
      subst (λ o. Fine rs k (with_turns t o)) (sym e)
        (changed-LastOnly f h c l.0, λ s. l.1 (changed-streaming f h c s))
]

quiet-Fine :
    (f : Turn → Turn)
    → Tame f
    → ((t : Turn) → (f t).streaming ≡ false)
    → (rs qs : List Request) (k : String) (t : Thread) → Fine rs k t
    → Fine qs k (changed f t)
unfolding is_streaming
quiet-Fine f h q rs qs k t l = elim (change_last-cases from_assistant f t.turns) [
  | inl (e, n) ↦
      subst (λ o. Fine qs k (with_turns t o)) (sym e)
        (l.0, λ s. absurd_bool (bool_clash _ s (no_stream t.turns l.0 n)))
  | inr (ys, e, c) ↦
      subst (λ o. Fine qs k (with_turns t o)) (sym e)
        (changed-LastOnly f h c l.0, λ s. absurd_bool (bool_clash _ s (changed-quiet f q c l.0)))
]

stopped-Tame : Tame stopped_turn
stopped-Tame t = (
  if_cases (λ (u : Turn). u.role ≡ t.role) t.streaming (λ e. refl) (λ e. refl),
  if_cases (λ (u : Turn). u.streaming ≡ true → t.streaming ≡ true) t.streaming (λ e s. e)
      (λ e s. s),
)

settled-Tame : Tame settled_turn
settled-Tame t = (
  if_cases (λ (u : Turn). u.role ≡ t.role) t.streaming (λ e. refl) (λ e. refl),
  if_cases (λ (u : Turn). u.streaming ≡ true → t.streaming ≡ true) t.streaming (λ e s. e)
      (λ e s. s),
)

stopped_quiet : (t : Turn) → (stopped_turn t).streaming ≡ false
stopped_quiet t = if_cases (λ (u : Turn). u.streaming ≡ false) t.streaming (λ e. refl) (λ e. e)

tool_change-Tame : (e : ToolEvent) (n : ℕ) → Tame (tool_change e n)
tool_change-Tame e n t = by e.status
  where
    of_tools :
        (o : Option (List ToolStep))
        → ((put_tools t o).role ≡ t.role) × ((put_tools t o).streaming ≡ true → t.streaming ≡ true)
    of_tools none = (refl, λ s. s)
    of_tools (some tools) = (refl, λ s. s)

    by :
        (b : ToolStatus)
        → ((tool_by e n t b).role ≡ t.role)
          × ((tool_by e n t b).streaming ≡ true → t.streaming ≡ true)
    by started = (refl, λ s. s)
    by finished = of_tools (change_last (waits_for e) (answered e) t.tools)

false_true {ℓ} : {A : Type ℓ} → false ≡ true → A
false_true h = absurd_bool (sym h)

-- All threads.
abbrev AllFine : List Request → AiState → Type 0
AllFine rs s = (k : String) → Fine rs k (thread_of s k)

-- A change of one thread, when what the others need of the requests stays.
update-Fine :
    (rs qs : List Request) (key : String) (g : Thread → Thread) (s u : AiState)
    → Updates key g s u
    → (Fine rs key (thread_of s key) → Fine qs key (g (thread_of s key)))
    → ((k : String) → (k == key) ≡ false → InFlight k rs → InFlight k qs)
    → AllFine rs s
    → AllFine qs u
update-Fine rs qs key g s u e h m a k = subst (Fine qs k) (sym (e k)) (
    if_cases (Fine qs k) (k == key)
      (λ q. subst (λ i. Fine qs i (g (thread_of s key))) (sym ((eq_iff k key).0 q)) (h (a key)))
      (λ q. ((a k).0, λ l. m k q ((a k).1 l))))

on_last-Fine :
    (f : Turn → Turn)
    → Tame f
    → (rs : List Request) (key : String) (s : AiState) → AllFine rs s
    → AllFine rs (on_last key f s)
on_last-Fine f h rs key s a =
    update-Fine rs rs key (changed f) s (on_last key f s) (on_last-Updates key f s)
      (kept-Fine f h rs key (thread_of s key)) (λ k q m. m) a

patch-Fine :
    (g : Thread → Thread) (rs : List Request) (key : String) (s : AiState)
    → (Fine rs key (thread_of s key) → Fine rs key (g (thread_of s key)))
    → AllFine rs s
    → AllFine rs (patch key g s)
patch-Fine g rs key s h a =
    update-Fine rs rs key g s (patch key g s) (patch-Updates key g s) h (λ k q m. m) a

apply_event-Fine :
    (e : AiEvent) (rs : List Request) (key : String) (s : AiState)
    → AllFine rs s
    → AllFine rs (apply_event key e s)
unfolding apply_event thread_of
apply_event-Fine (words delta) rs key s a =
    on_last-Fine (with_text delta) (λ t. (refl, λ q. q)) rs key s a
apply_event-Fine (tool_step e) rs key s a =
    on_last-Fine (tool_change e (suc s.counter)) (tool_change-Tame e (suc s.counter)) rs key
      (record s {
        counter =
            if is_start e.status && any from_assistant ((thread_of s key).turns)
            then suc s.counter
            else s.counter;
      })
      a
apply_event-Fine (flow d) rs key s a = on_last-Fine _ (λ t. (refl, λ q. q)) rs key s a
apply_event-Fine (done ok summary) rs key s a =
    on_last-Fine (done_turn ok summary) (λ t. (refl, λ q. false_true q)) rs key s a
apply_event-Fine (error message) rs key s a =
    on_last-Fine (failed_turn message) (λ t. (refl, λ q. false_true q)) rs key s a

applied-same :
    (id : String) (t : Turn)
    → ((applied_turn id t).role ≡ t.role) × ((applied_turn id t).streaming ≡ t.streaming)
applied-same id t = (
  if_cases (λ (u : Turn). u.role ≡ t.role) (t.id == id) (λ e. refl) (λ e. refl),
  if_cases (λ (u : Turn). u.streaming ≡ t.streaming) (t.id == id) (λ e. refl) (λ e. refl),
)

act-Fine : (x : Act) (rs : List Request) (s : AiState) → AllFine rs s → AllFine rs (act x s)
unfolding act take_primed stop clear mark_applied thread_of is_streaming LastOnly
act-Fine (opened b) rs s a = a
act-Fine toggled rs s a = a
act-Fine wanted rs s a = a
act-Fine unwanted rs s a = a
act-Fine (drafted key draft) rs s a =
    patch-Fine (λ t. record t { draft = draft }) rs key s (λ h. h) a
act-Fine (primed_with key question) rs s a =
    patch-Fine (λ t. record t { primed = some question }) rs key s (λ h. h) a
act-Fine (primed_taken key) rs s a =
    if_cases (AllFine rs) (is_some (question_of (s.threads key)))
      (λ e. patch-Fine (λ t. record t { primed = none }) rs key s (λ h. h) a) (λ e. a)
act-Fine (stopped key) rs s a =
    on_last-Fine stopped_turn stopped-Tame rs key (forget key (abort key s)) a
act-Fine (cleared key) rs s a =
    patch-Fine (λ t. empty_thread) rs key (forget key (abort key s)) (λ h. (tt, λ q. false_true q))
      a
act-Fine (applied key id) rs s a =
    patch-Fine (λ t. record t { turns = map (applied_turn id) t.turns }) rs key s
      (λ h. (
        map-LastOnly (applied_turn id) (applied-same id) _ h.0,
        λ q. h.1 (sym (map-streaming (applied_turn id) (applied-same id) _) ∙ q),
      ))
      a

-- A question in a thread where nothing arrives.
begun-Fine :
    (rs qs : List Request) (question : String) (n : ℕ) (k : String) (t : Thread)
    → is_streaming t ≡ false
    → InFlight k qs
    → Fine qs k (begun question n t)
unfolding is_streaming new_turn
begun-Fine rs qs question n k t h l = (begun-LastOnly t.turns _ _ h refl refl, λ q. l)

ask-Fine :
    (r : Request) (question : String) (s : Session)
    → is_streaming (thread_of s.store r.key) ≡ false
    → AllFine s.requests s.store
    → AllFine (r ∷ s.requests) (begin r.key question r.controller s.store)
unfolding begin thread_of
ask-Fine r question s h a =
    update-Fine s.requests (r ∷ s.requests) r.key (begun question s.store.counter) s.store
      (begin r.key question r.controller s.store)
      (patch-Updates r.key (begun question s.store.counter) (record (abort r.key s.store) {
        controllers = put r.key (some r.controller) s.store.controllers;
        counter = suc (suc s.store.counter);
      }))
      (λ f.
        begun-Fine s.requests (r ∷ s.requests) question s.store.counter r.key _ h (r, here, refl))
      (λ k q m. (m.0, there m.1, m.2)) a

caught-Fine :
    (key : String) (x : Answer) (rs : List Request) (s : AiState)
    → AllFine rs s
    → AllFine rs (caught key x s)
unfolding fail
caught-Fine key returned rs s a = a
caught-Fine key (threw message) rs s a =
    on_last-Fine (failed_turn message) (λ t. (refl, λ q. false_true q)) rs key s a

-- Another thread's request stays.
still_there :
    (before after : List Request) (r : Request) (k : String)
    → (k == r.key) ≡ false
    → InFlight k (before ++ r ∷ after)
    → InFlight k (before ++ after)
still_there before after r k q (x, m, e) = elim (Member-append_cases before (r ∷ after) m) [
  | inl l ↦ (x, Member-append_left after l, e)
  | inr n ↦ elim (Member-cons_cases n) [
    | inl i ↦ absurd_bool (
        sym (
          subst (λ j. (j == r.key) ≡ true) (ap (λ (y : Request). y.key) (sym i) ∙ e)
            (eq_refl r.key))
        ∙ q)
    | inr l ↦ (x, Member-append_right before l, e)
  ]
]

over-Fine :
    (before after : List Request) (r : Request) (x : Answer) (s : AiState)
    → AllFine (before ++ r ∷ after) s
    → AllFine (before ++ after) (over r.key x s)
unfolding settle thread_of
over-Fine before after r x s a =
    let t = forget r.key (caught r.key x s) in
    update-Fine (before ++ r ∷ after) (before ++ after) r.key (changed settled_turn) t
      (on_last r.key settled_turn t) (on_last-Updates r.key settled_turn t)
      (quiet-Fine settled_turn settled-Tame settled_quiet _ _ r.key _) (still_there before after r)
      (caught-Fine r.key x (before ++ r ∷ after) s a)

Reached-Fine : {s : Session} → Reached s → AllFine s.requests s.store
unfolding thread_of LastOnly is_streaming
Reached-Fine Reached.started k = (tt, λ q. false_true q)
Reached-Fine (asked {s} r question h d) k = ask-Fine r question s h (Reached-Fine d) k
Reached-Fine (arrived {s} r e m d) k =
    apply_event-Fine e s.requests r.key s.store (Reached-Fine d) k
Reached-Fine (ended {s} before after r x e d) k =
    over-Fine before after r x s.store (subst (λ rs. AllFine rs s.store) e (Reached-Fine d)) k
Reached-Fine (acted {s} x d) k = act-Fine x s.requests s.store (Reached-Fine d) k

-- In every order of questions, events, ends of requests and other actions: while a turn of a thread is
-- arriving, a request for the thread is not over. So nothing arrives any more when the requests are.
pub Reached-InFlight :
    (s : Session) (key : String)
    → Reached s
    → is_streaming (thread_of s.store key) ≡ true
    → InFlight key s.requests
Reached-InFlight s key d h = (Reached-Fine d key).1 h

-- In the same states, at most the last turn of the assistant in a thread is arriving.
pub Reached-LastOnly :
    (s : Session) (key : String) → Reached s → LastOnly ((thread_of s.store key).turns)
Reached-LastOnly s key d = (Reached-Fine d key).0
