-- ===== src/Ai/Send/Last.antt =====
-- web/src/store/ai.ts: a turn that is still arriving is its thread's last one of the assistant.
use tolquane.Base.{
  Bool, true, false, ◌||◌, List, [], ◌∷◌, ◌++◌, any, ◌≡◌, refl, sym, ap, ap₂, ◌∙◌, inl, inr,
  Bool-cases, map, if_cases,
}
use tolquane.Ai.Threads.{Turn, is_assistant, from_assistant}
use tolquane.Ai.Threads.Actions.{settled_turn}
use tolquane.Ai.Send.Updates.{Changed, last, later, Changed-any}

-- A turn that streams is the assistant's, and none of the assistant's comes after it.
abbrev pub LastFrom : Turn → List Turn → Type 0
LastFrom t ts = t.streaming ≡ true → (from_assistant t ≡ true) × (any from_assistant ts ≡ false)

unfoldable pub LastOnly : List Turn → Type 0
LastOnly [] = Unit
LastOnly (t ∷ ts) = LastFrom t ts × LastOnly ts

-- A change of a turn that starts no stream.
abbrev pub Tame : (Turn → Turn) → Type 0
Tame f = (t : Turn) → ((f t).role ≡ t.role) × ((f t).streaming ≡ true → t.streaming ≡ true)

pub or_false : (a b : Bool) → a || b ≡ false → (a ≡ false) × (b ≡ false)
or_false true b h = absurd (cc)
or_false false b h = (refl, h)

pub bool_clash : (a : Bool) → a ≡ true → a ≡ false → true ≡ false
bool_clash a h k = sym h ∙ k

pub absurd_bool {ℓ} : {A : Type ℓ} → true ≡ false → A
absurd_bool h = absurd (cc)

pub or_mono :
    (a b c d : Bool) → (a ≡ true → b ≡ true) → (c ≡ true → d ≡ true) → a || c ≡ true → b || d ≡ true
or_mono true b c d h k l = rw (h refl) refl
or_mono false true c d h k l = refl
or_mono false false c d h k l = k l

pub any_changed :
    (f : Turn → Turn)
    → Tame f
    → {xs ys : List Turn} → Changed from_assistant f xs ys
    → any from_assistant ys ≡ any from_assistant xs
any_changed f h (last {x} {xs} p n) = ap (λ r. is_assistant r || any from_assistant xs) ((h x).0)
any_changed f h (later {x} c) = ap (from_assistant x ||◌) (any_changed f h c)

pub changed-LastOnly :
    (f : Turn → Turn)
    → Tame f
    → {xs ys : List Turn} → Changed from_assistant f xs ys
    → LastOnly xs
    → LastOnly ys
unfolding LastOnly
changed-LastOnly f h (last {x} {xs} p n) l =
    ((λ s. let (a, b) = l.0 ((h x).1 s) in (ap is_assistant ((h x).0) ∙ a, b)), l.1)
changed-LastOnly f h (later {x} c) l =
    ((λ s. let (a, b) = l.0 s in (a, any_changed f h c ∙ b)), changed-LastOnly f h c l.1)

pub no_stream :
    (ts : List Turn)
    → LastOnly ts
    → any from_assistant ts ≡ false
    → any (λ t. t.streaming) ts ≡ false
unfolding LastOnly
no_stream [] l h = refl
no_stream (t ∷ ts) l h =
    let (a, b) = or_false (from_assistant t) (any from_assistant ts) h in
    elim (Bool-cases t.streaming) [
      | inl q ↦ absurd_bool (bool_clash (from_assistant t) ((l.0 q).0) a)
      | inr q ↦ rw q (no_stream ts l.1 b)
    ]

-- A change that ends the stream leaves none.
pub changed-quiet :
    (f : Turn → Turn)
    → ((t : Turn) → (f t).streaming ≡ false)
    → {xs ys : List Turn} → Changed from_assistant f xs ys
    → LastOnly xs
    → any (λ t. t.streaming) ys ≡ false
unfolding LastOnly
changed-quiet f h (last {x} {xs} p n) l = rw (h x) (no_stream xs l.1 n)
changed-quiet f h (later {x} {xs} c) l = elim (Bool-cases x.streaming) [
  | inl q ↦
      absurd_bool (bool_clash (any from_assistant xs) (Changed-any from_assistant f c) ((l.0 q).1))
  | inr q ↦ rw q (changed-quiet f h c l.1)
]

pub changed-streaming :
    (f : Turn → Turn)
    → Tame f
    → {xs ys : List Turn} → Changed from_assistant f xs ys
    → any (λ t. t.streaming) ys ≡ true
    → any (λ t. t.streaming) xs ≡ true
changed-streaming f h (last {x} {xs} p n) s =
    or_mono ((f x).streaming) x.streaming _ _ ((h x).1) (λ q. q) s
changed-streaming f h (later {x} c) s =
    or_mono x.streaming x.streaming _ _ (λ q. q) (changed-streaming f h c) s

-- The two turns that a question adds to a quiet thread.
pub begun-LastOnly :
    (ts : List Turn) (u a : Turn)
    → any (λ t. t.streaming) ts ≡ false
    → u.streaming ≡ false
    → from_assistant a ≡ true
    → LastOnly (ts ++ u ∷ a ∷ [])
unfolding LastOnly
begun-LastOnly [] u a h k l = (λ s. absurd_bool (bool_clash _ s k), ((λ s. (l, refl)), tt))
begun-LastOnly (t ∷ ts) u a h k l =
    let (p, q) = or_false t.streaming (any (λ t. t.streaming) ts) h in
    (λ s. absurd_bool (bool_clash _ s p), begun-LastOnly ts u a q k l)

-- A change of every turn that keeps who speaks and whether it streams.
module _ (f : Turn → Turn)
    (same : (t : Turn) → ((f t).role ≡ t.role) × ((f t).streaming ≡ t.streaming)) where
  map-any : (ts : List Turn) → any from_assistant (map f ts) ≡ any from_assistant ts
  map-any [] = refl
  map-any (t ∷ ts) = ap₂ (λ r b. is_assistant r || b) ((same t).0) (map-any ts)

  pub map-streaming :
      (ts : List Turn) → any (λ t. t.streaming) (map f ts) ≡ any (λ t. t.streaming) ts
  map-streaming [] = refl
  map-streaming (t ∷ ts) = ap₂ (λ a b. a || b) ((same t).1) (map-streaming ts)

  pub map-LastOnly : (ts : List Turn) → LastOnly ts → LastOnly (map f ts)
  unfolding LastOnly
  map-LastOnly [] l = tt
  map-LastOnly (t ∷ ts) l = (
    (λ s.
        let (a, b) = l.0 (sym ((same t).1) ∙ s) in
        (ap is_assistant ((same t).0) ∙ a, map-any ts ∙ b)),
    map-LastOnly ts l.1,
  )

pub settled_quiet : (t : Turn) → (settled_turn t).streaming ≡ false
settled_quiet t = if_cases (λ (u : Turn). u.streaming ≡ false) t.streaming (λ e. refl) (λ e. e)
