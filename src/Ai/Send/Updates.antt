-- ===== src/Ai/Send/Updates.antt =====
-- web/src/store/ai.ts: what the updates of one thread do to each thread.
use text.Mathlib.Text.{◌==◌}
use text.Mathlib.TextEquality.{eq_iff}
use tolquane.Base.{
  String, Bool, true, false, ◌||◌, Option, none, some, List, [], ◌∷◌, ◌++◌, any, ◌≡◌, refl, ap, ◌⊎◌,
  inl, inr, Bool-cases, if◌then◌else◌,
}
use tolquane.Ai.Threads.{
  Turn, Thread, AiState, put, thread_of, set_thread, patch, change_last, from_assistant, put_turns,
  on_last,
}

or_true : (a b : Bool) → b ≡ true → a || b ≡ true
or_true true b h = refl
or_true false b h = h

-- The last element that passes the test is rewritten.
module _ {ℓ} {A : Type ℓ} (p : A → Bool) (f : A → A) where
  pub data Changed : List A → List A → Type ℓ where
    last : {x : A} {xs : List A} → p x ≡ true → any p xs ≡ false → Changed (x ∷ xs) (f x ∷ xs)
    later : {x : A} {xs ys : List A} → Changed xs ys → Changed (x ∷ xs) (x ∷ ys)

  pub change_last-cases :
      (xs : List A)
      → ((change_last p f xs ≡ none) × (any p xs ≡ false))
        ⊎ ((ys : List A) × (change_last p f xs ≡ some ys) × Changed xs ys)
  unfolding change_last
  change_last-cases [] = inl (refl, refl)
  change_last-cases (x ∷ xs) = elim (change_last-cases xs) [
    | inr (ys, e, c) ↦ inr (x ∷ ys, rw e refl, later c)
    | inl (e, n) ↦ elim (Bool-cases (p x)) [
      | inl q ↦ inr (f x ∷ xs, rw (e, q) refl, last q n)
      | inr q ↦ inl (rw (e, q) refl, rw (q, n) refl)
    ]
  ]

  pub Changed-any : {xs ys : List A} → Changed xs ys → any p xs ≡ true
  Changed-any (last {x} {xs} h n) = rw h refl
  Changed-any (later {x} {xs} c) = or_true (p x) (any p xs) (Changed-any c)

  pub change_last-append :
      (xs : List A) (y z : A)
      → p z ≡ true
      → change_last p f (xs ++ y ∷ z ∷ []) ≡ some (xs ++ y ∷ f z ∷ [])
  unfolding change_last
  change_last-append [] y z h = rw (h, change_last) refl
  change_last-append (x ∷ xs) y z h = rw (change_last-append xs y z h, change_last) refl

-- The thread with its last turn of the assistant rewritten, if it has one.
abbrev pub with_turns : Thread → Option (List Turn) → Thread
with_turns t none = t
with_turns t (some turns) = record t { turns = turns }

abbrev pub changed : (Turn → Turn) → Thread → Thread
changed f t = with_turns t (change_last from_assistant f t.turns)

-- The state differs by this change of this thread.
abbrev pub Updates : String → (Thread → Thread) → AiState → AiState → Type 0
Updates key g s u =
    (k : String) → thread_of u k ≡ (if k == key then g (thread_of s key) else thread_of s k)

thread_of-set_thread :
    (key : String) (t : Thread) (s : AiState) (k : String)
    → thread_of (set_thread key t s) k ≡ (if k == key then t else thread_of s k)
unfolding thread_of put
thread_of-set_thread key t s k = elim (Bool-cases (k == key)) [
  | inl e ↦ rw e refl
  | inr e ↦ rw e refl
]

pub patch-Updates :
    (key : String) (g : Thread → Thread) (s : AiState) → Updates key g s (patch key g s)
unfolding patch
patch-Updates key g s k = thread_of-set_thread key (g (thread_of s key)) s k

pub on_last-Updates :
    (key : String) (f : Turn → Turn) (s : AiState) → Updates key (changed f) s (on_last key f s)
unfolding on_last
on_last-Updates key f s k = go (change_last from_assistant f ((thread_of s key).turns))
  where
    go :
        (o : Option (List Turn))
        → thread_of (put_turns key (thread_of s key) s o) k
          ≡ (if k == key then with_turns (thread_of s key) o else thread_of s k)
    go none = elim (Bool-cases (k == key)) [
      | inl e ↦ rw e (ap (thread_of s) ((eq_iff k key).0 e))
      | inr e ↦ rw e refl
    ]
    go (some turns) = thread_of-set_thread key (record (thread_of s key) { turns = turns }) s k
