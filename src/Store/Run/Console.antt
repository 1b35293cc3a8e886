-- ===== src/Store/Run/Console.antt =====
-- web/src/store/run.ts: the console and the problems of a run.
use tolquane.Base.{
  ℕ, zero, suc, ◌+◌, ◌-◌, ◌≤◌, arith, String, Bool, true, false, none, List, [], ◌∷◌, ◌++◌, length,
  drop, length-append, ◌≡◌, refl, sym, ap, ap₂, subst, Bool-cases, leb, ◌⊎◌, inl, inr,
}
use tolquane.Store.Run.{
  Stream, ConsoleLine, RunState, console_limit, console_lines, last_id, append_lines, append_parts,
  chunk_lines, RunEvent, started, progress, output, reported, errored, blocked, ended, apply_event,
  apply_events, rewind, start, is_live, add_problem, error, deadlock, deadlock_node,
}

-- Lines whose numbers follow each other, after `n`.
unfoldable pub Consecutive : ℕ → List ConsoleLine → Type 0
Consecutive n [] = Unit
Consecutive n (l ∷ ls) = (l.id ≡ suc n) × Consecutive (suc n) ls

-- The lines are numbered on from those that fell off, there are at most 5000 of them, and none fell
-- off before the console was full.
abbrev pub Bounded : RunState → Type 0
Bounded s =
    Consecutive s.lines_dropped s.lines
    × (length s.lines ≤ console_limit)
    × ((s.lines_dropped ≡ 0) ⊎ (length s.lines ≡ console_limit))

add_zero : (n : ℕ) → n + 0 ≡ n
add_zero n = omega arith

add_suc : (n k : ℕ) → n + suc k ≡ suc n + k
add_suc n k = omega arith

console_lines-Consecutive :
    (n : ℕ) (stream : Stream) (texts : List String)
    → Consecutive n (console_lines (suc n) stream texts)
unfolding console_lines Consecutive
console_lines-Consecutive n stream [] = tt
console_lines-Consecutive n stream (t ∷ ts) = (refl, console_lines-Consecutive (suc n) stream ts)

Consecutive-append :
    (n : ℕ) (xs ys : List ConsoleLine)
    → Consecutive n xs
    → Consecutive (n + length xs) ys
    → Consecutive n (xs ++ ys)
unfolding Consecutive
Consecutive-append n [] ys h k = subst (λ m. Consecutive m ys) (add_zero n) k
Consecutive-append n (x ∷ xs) ys h k = (
  h.0,
  Consecutive-append (suc n) xs ys h.1 (subst (λ m. Consecutive m ys) (add_suc n (length xs)) k),
)

Consecutive-drop :
    (k n : ℕ) (xs : List ConsoleLine)
    → k ≤ length xs
    → Consecutive n xs
    → Consecutive (n + k) (drop k xs)
unfolding Consecutive
Consecutive-drop zero n xs h c = subst (λ m. Consecutive m xs) (sym (add_zero n)) c
Consecutive-drop (suc k) n [] h c = absurd (omega arith)
Consecutive-drop (suc k) n (x ∷ xs) h c =
    subst (λ m. Consecutive m (drop k xs)) (sym (add_suc n k))
      (Consecutive-drop k (suc n) xs (omega arith) c.1)

last_id-Consecutive :
    (n : ℕ) (x : ConsoleLine) (xs : List ConsoleLine)
    → Consecutive n (x ∷ xs)
    → last_id (x ∷ xs) ≡ n + length (x ∷ xs)
unfolding Consecutive
last_id-Consecutive n x [] h = omega (arith, h.0)
last_id-Consecutive n x (y ∷ xs) h = omega (arith, last_id-Consecutive (suc n) y xs h.1)

length-drop {ℓ} : {A : Type ℓ} (n : ℕ) (xs : List A) → length (drop n xs) ≡ length xs - n
length-drop zero xs = omega arith
length-drop (suc n) [] = omega arith
length-drop (suc n) (y ∷ xs) = omega (arith, length-drop n xs)

next_id : (s : RunState) → Bounded s → last_id s.lines ≡ s.lines_dropped + length s.lines
next_id s h = go s.lines s.lines_dropped h
  where
    go :
        (ls : List ConsoleLine) (d : ℕ)
        → Consecutive d ls × (length ls ≤ console_limit) × ((d ≡ 0) ⊎ (length ls ≡ console_limit))
        → last_id ls ≡ d + length ls
    go [] d (c, b, inl e) = omega arith
    go [] d (c, b, inr e) = absurd (omega arith)
    go (x ∷ xs) d (c, b, e) = last_id-Consecutive d x xs c

le_of_leb : (m n : ℕ) → leb m n ≡ true → m ≤ n
le_of_leb m n h = ground arith

lt_of_leb : (m n : ℕ) → leb m n ≡ false → suc n ≤ m
lt_of_leb m n h = ground arith

append_parts-Bounded :
    (stream : Stream) (parts : List String) (s : RunState)
    → Bounded s
    → Bounded (append_parts stream parts s)
append_parts-Bounded stream [] s h = h
append_parts-Bounded stream (part ∷ parts) s h =
    let new = console_lines (last_id s.lines + 1) stream (part ∷ parts) in
    let all = s.lines ++ new in
    let over = length all - console_limit in
    let e : last_id s.lines + 1 ≡ suc (s.lines_dropped + length s.lines) =
      omega (arith, next_id s h) in
    let c : Consecutive s.lines_dropped all = Consecutive-append s.lines_dropped s.lines new h.0 (
      subst
        (λ m.
          Consecutive (s.lines_dropped + length s.lines) (console_lines m stream (part ∷ parts)))
        (sym e)
        (console_lines-Consecutive (s.lines_dropped + length s.lines) stream (part ∷ parts))) in
    (
      Consecutive-drop over s.lines_dropped all (omega arith) c,
      omega (arith, length-drop over all),
      elim h.2 [
        | inr z ↦ inr (omega (arith, length-drop over all, length-append s.lines new, z))
        | inl z ↦ elim (Bool-cases (leb (length all) console_limit)) [
          | inl q ↦ inl (omega (arith, le_of_leb (length all) console_limit q, z))
          | inr q ↦
              inr (omega (arith, length-drop over all, lt_of_leb (length all) console_limit q))
        ]
      ],
    )

append_lines-Bounded :
    (stream : Stream) (text : String) (s : RunState)
    → Bounded s
    → Bounded (append_lines stream text s)
unfolding append_lines
append_lines-Bounded stream text s h = append_parts-Bounded stream (chunk_lines text) s h

-- Every event keeps the console as it should be.
apply_event-Bounded : (e : RunEvent) (s : RunState) → Bounded s → Bounded (apply_event e s)
unfolding apply_event
apply_event-Bounded (started graph) s h = h
apply_event-Bounded (progress phase elapsed) s h = h
apply_event-Bounded (output stream text) s h = append_lines-Bounded stream text s h
apply_event-Bounded (reported report elapsed) s h = h
apply_event-Bounded (errored type_name message at_node traceback) s h = h
apply_event-Bounded (blocked message) s h = h
apply_event-Bounded (ended phase elapsed) s h = h

-- After any events the console's lines are numbered one after the other, following the lines that
-- fell off; there are at most 5000; and none fell off before the console was full. All that holds
-- of the console before the events.
pub apply_events-Bounded :
    (es : List RunEvent) (s : RunState) → Bounded s → Bounded (apply_events es s)
unfolding apply_events
apply_events-Bounded [] s h = h
apply_events-Bounded (e ∷ es) s h =
    apply_events-Bounded es (apply_event e s) (apply_event-Bounded e s h)

-- The fields that accumulate.
abbrev pub SameOutput : RunState → RunState → Type 0
SameOutput s t =
    (s.lines ≡ t.lines)
    × (s.lines_dropped ≡ t.lines_dropped)
    × (s.problems ≡ t.problems)
    × (s.report ≡ t.report)
    × (s.graph ≡ t.graph)

append_parts-SameOutput :
    (stream : Stream) (parts : List String) (s t : RunState)
    → SameOutput s t
    → SameOutput (append_parts stream parts s) (append_parts stream parts t)
append_parts-SameOutput stream [] s t h = h
append_parts-SameOutput stream (part ∷ parts) s t (a, b, c, d, g) =
    let all = ap (λ ls. ls ++ console_lines (last_id ls + 1) stream (part ∷ parts)) a in
    (
      ap (λ ls. drop (length ls - console_limit) ls) all,
      ap₂ (λ n ls. n + (length ls - console_limit)) b all,
      c,
      d,
      g,
    )

append_parts-status :
    (stream : Stream) (parts : List String) (s : RunState)
    → (append_parts stream parts s).status ≡ s.status
append_parts-status stream [] s = refl
append_parts-status stream (part ∷ parts) s = refl

apply_event-SameOutput :
    (e : RunEvent) (s t : RunState)
    → SameOutput s t
    → SameOutput (apply_event e s) (apply_event e t)
unfolding apply_event append_lines
apply_event-SameOutput (started graph) s t (a, b, c, d, g) = (a, b, c, d, refl)
apply_event-SameOutput (progress phase elapsed) s t h = h
apply_event-SameOutput (output stream text) s t h =
    append_parts-SameOutput stream (chunk_lines text) s t h
apply_event-SameOutput (reported report elapsed) s t (a, b, c, d, g) = (a, b, c, refl, g)
apply_event-SameOutput (errored type_name message at_node traceback) s t (a, b, c, d, g) = (
  a,
  b,
  ap
      (λ ps.
        (add_problem error type_name message at_node traceback
          (record s { problems = ps })).problems)
      c,
  d,
  g,
)
apply_event-SameOutput (blocked message) s t (a, b, c, d, g) = (
  a,
  b,
  ap
      (λ ps.
        (add_problem deadlock "DeadlockError" message (deadlock_node message) none
          (record s { problems = ps })).problems)
      c,
  d,
  g,
)
apply_event-SameOutput (ended phase elapsed) s t h = h

apply_events-SameOutput :
    (es : List RunEvent) (s t : RunState)
    → SameOutput s t
    → SameOutput (apply_events es s) (apply_events es t)
unfolding apply_events
apply_events-SameOutput [] s t h = h
apply_events-SameOutput (e ∷ es) s t h =
    apply_events-SameOutput es (apply_event e s) (apply_event e t) (apply_event-SameOutput e s t h)

-- After a rewind a replay of a run's events gives the console, the problems, the report and the graph
-- that a run just started has after the same events, whatever was shown before.
pub apply_events-rewind :
    (es : List RunEvent) (s : RunState) (run : ℕ)
    → SameOutput (apply_events es (rewind s)) (apply_events es (start run))
unfolding rewind
apply_events-rewind es s run =
    apply_events-SameOutput es (rewind s) (start run) (refl, refl, refl, refl, refl)

-- The events of a run that is over, but for its start.
abbrev pub is_late : RunEvent → Bool
is_late (started graph) = false
is_late (ended phase elapsed) = false
is_late e = true

-- Once a run is settled, no event but a start or another end changes its status.
pub apply_event-settled :
    (e : RunEvent) (s : RunState)
    → is_late e ≡ true
    → is_live s.status ≡ false
    → (apply_event e s).status ≡ s.status
unfolding apply_event append_lines
apply_event-settled (started graph) s h k = absurd (grind arith)
apply_event-settled (progress phase elapsed) s h k = rw k refl
apply_event-settled (output stream text) s h k = append_parts-status stream (chunk_lines text) s
apply_event-settled (reported report elapsed) s h k = refl
apply_event-settled (errored type_name message at_node traceback) s h k = refl
apply_event-settled (blocked message) s h k = refl
apply_event-settled (ended phase elapsed) s h k = absurd (grind arith)
