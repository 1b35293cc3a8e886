-- ===== src/Model/Update/Keyed.antt =====
-- The list of children with the tree under one key replaced.
use text.Mathlib.Text.{◌==◌}
use text.Mathlib.TextEquality.{eq_iff}
use text.Mathlib.TextPositions.{eq_refl}
use text.Mathlib.TextLemmas.{append_assoc as text_assoc, append_cancel_left}
use tolquane.Base.{
  ℕ, zero, suc, ◌+◌, ◌<◌, String, ◌<>◌, false, some, List, [], ◌∷◌, ◌++◌, ◌≡◌, ◌≢◌, inl, inr, refl,
  sym, ap, ◌∙◌, arith, All, Member, Member-cons_cases, Bool-cases, if◌then◌else◌, show, show_inj,
  read, read-show, strip-append, get_elem?, set, length, ap₂, subst,
}
use tolquane.Model.Types.{Tree}
use tolquane.Model.Tree.{Child, child, numbered}
use tolquane.Model.Tree.Keys.{numbered-later}
use tolquane.Model.Update.{index_of_key}

-- The children with the tree under a key replaced.
abbrev pub set_key : String → Tree → List Child → List Child
set_key k v [] = []
set_key k v (c ∷ cs) = (if c.key == k then child k v else c) ∷ set_key k v cs

pub set_key-append :
    (k : String) (v : Tree) (cs ds : List Child)
    → set_key k v (cs ++ ds) ≡ set_key k v cs ++ set_key k v ds
set_key-append k v [] ds = refl
set_key-append k v (c ∷ cs) ds =
    ap (λ r. (if c.key == k then child k v else c) ∷ r) (set_key-append k v cs ds)

-- No child has the key.
abbrev pub Lacks : String → List Child → Type 0
Lacks k cs = All (λ d. k ≢ d.key) cs

pub set_key-Lacks : (k : String) (v : Tree) (cs : List Child) → Lacks k cs → set_key k v cs ≡ cs
set_key-Lacks k v [] h = refl
set_key-Lacks k v (c ∷ cs) h =
    ap₂ (λ x y. x ∷ y) (ground (arith, eq_iff c.key k)) (set_key-Lacks k v cs h.1)

set_key_self : (k : String) (v t : Tree) → set_key k v (child k t ∷ []) ≡ child k v ∷ []
set_key_self k v t = rw eq_refl

numbered_key_ne :
    (prefix : String) (i m : ℕ)
    → i < m
    → (prefix <> "." <> show i == prefix <> "." <> show m) ≡ false
numbered_key_ne prefix i m h =
    elim (Bool-cases (prefix <> "." <> show i == prefix <> "." <> show m)) [
      | inl e ↦
          let path = (eq_iff _ _).0 e in
          let eq = show_inj i m (append_cancel_left "." _ _ (append_cancel_left prefix _ _ path)) in
          absurd (omega arith)
      | inr e ↦ e
    ]

numbered-set_head :
    (prefix : String) (v : Tree) (i : ℕ) (t : Tree) (ts : List Tree)
    → set_key (prefix <> "." <> show i) v (numbered prefix i (t ∷ ts))
      ≡ child (prefix <> "." <> show i) v ∷ numbered prefix (suc i) ts
unfolding numbered
numbered-set_head prefix v i t ts = rw eq_refl (
    ap (child (prefix <> "." <> show i) v ∷◌)
      (set_key-Lacks _ v _ (numbered-later prefix i (suc i) ts (omega arith))))

pub numbered-set :
    (prefix : String) (v : Tree) (i j m : ℕ) (ts : List Tree)
    → m ≡ i + j
    → set_key (prefix <> "." <> show m) v (numbered prefix i ts) ≡ numbered prefix i (set ts j v)
unfolding numbered
numbered-set prefix v i j m [] h = refl
numbered-set prefix v i zero m (t ∷ ts) h =
    subst
      (λ n.
        set_key (prefix <> "." <> show n) v (numbered prefix i (t ∷ ts))
        ≡ child (prefix <> "." <> show i) v ∷ numbered prefix (suc i) ts)
      (omega arith) (numbered-set_head prefix v i t ts)
numbered-set prefix v i (suc j) m (t ∷ ts) h =
    rw (numbered_key_ne prefix i m (omega arith)) (
      ap (child (prefix <> "." <> show i) t ∷◌)
        (numbered-set prefix v (suc i) j m ts (omega arith)))

-- Where a numbered child stands.
pub numbered-Member :
    (prefix : String) (c : Child) (i : ℕ) (ts : List Tree)
    → Member c (numbered prefix i ts)
    → (j m : ℕ) × (m ≡ i + j)
      × (c.key ≡ prefix <> "." <> show m)
      × (j < length ts)
      × (get_elem? ts j ≡ some c.tree)
unfolding numbered
numbered-Member prefix c i [] h = elim h [ ]
numbered-Member prefix c i (t ∷ ts) h = elim (Member-cons_cases h) [
  | inl e ↦ (
    0,
    i,
    omega arith,
    ap (λ (x : Child). x.key) e,
    omega arith,
    ap (λ (x : Child). some x.tree) (sym e),
  )
  | inr n ↦
      let (j, m, e, k, l, g) = numbered-Member prefix c (suc i) ts n in
      (suc j, m, omega arith, k, omega arith, g)
]

index_of_key-append : (p s : String) → index_of_key (p <> s) p ≡ read s
unfolding index_of_key
index_of_key-append p s = rw (strip-append p s, index_of_key)

pub index_of_key-stages : (j : ℕ) → index_of_key ("stages" <> "." <> show j) "stages." ≡ some j
index_of_key-stages j =
    ap (λ x. index_of_key x "stages.") (sym (text_assoc "stages" "." (show j)))
    ∙ index_of_key-append "stages." (show j)
    ∙ read-show j

pub index_of_key-worker : (j : ℕ) → index_of_key ("worker" <> "." <> show j) "worker." ≡ some j
index_of_key-worker j =
    ap (λ x. index_of_key x "worker.") (sym (text_assoc "worker" "." (show j)))
    ∙ index_of_key-append "worker." (show j)
    ∙ read-show j
