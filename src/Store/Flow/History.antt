-- ===== src/Store/Flow/History.antt =====
-- web/src/store/flow.ts: undoing and redoing.
use tolquane.Base.{
  ℕ, zero, suc, if◌then◌else◌, ◌-◌, ◌≤◌, ◌<◌, arith, Bool, false, Option, none, some, is_some, List,
  [], ◌∷◌, ◌++◌, length, drop, drop_last, get_last?, drop_last-append, length-append, ◌≡◌, refl, ap,
  ap₂, ◌∙◌,
}
use tolquane.Model.Types.{FlowModel, NodeDef, Tree}
use tolquane.Store.Flow.{
  FlowState, Snapshot, snapshot, recent, push_history, history_limit, Outcome, returned, threw,
  undo, redo, state_of,
}
use tolquane.Store.Flow.Edit.{Addresses, Select, edit, edit_from, edit_model, is_no_change}

module _ {ℓ} {A : Type ℓ} where
  pub get_last?-append : (xs : List A) (x : A) → get_last? (xs ++ x ∷ []) ≡ some x
  get_last?-append [] x = refl
  get_last?-append (y ∷ []) x = refl
  get_last?-append (y ∷ z ∷ xs) x = get_last?-append (z ∷ xs) x

  pub drop-append :
      (n : ℕ) (xs : List A) (x : A) → n ≤ length xs → drop n (xs ++ x ∷ []) ≡ drop n xs ++ x ∷ []
  drop-append zero xs x h = refl
  drop-append (suc n) [] x h = absurd (omega arith)
  drop-append (suc n) (y ∷ xs) x h = drop-append n xs x (omega arith)

  pub drop_last-get_last? :
      (xs : List A) (x : A) → get_last? xs ≡ some x → drop_last xs ++ x ∷ [] ≡ xs
  drop_last-get_last? [] x h = absurd (grind arith)
  drop_last-get_last? (y ∷ []) x h = cc
  drop_last-get_last? (y ∷ z ∷ xs) x h = ap (y ∷◌) (drop_last-get_last? (z ∷ xs) x h)

  pub length-drop : (n : ℕ) (xs : List A) → length (drop n xs) ≡ length xs - n
  length-drop zero xs = omega arith
  length-drop (suc n) [] = omega arith
  length-drop (suc n) (y ∷ xs) = omega (arith, length-drop n xs)

pub recent_all : (xs : List Snapshot) → length xs ≤ history_limit → recent xs ≡ xs
unfolding recent
recent_all xs h = let e : length xs - 100 ≡ 0 = omega arith in ap (λ n. drop n xs) e

pub length-recent : (xs : List Snapshot) → length (recent xs) ≤ history_limit
unfolding recent
length-recent xs = omega (arith, length-drop (length xs - 100) xs)

recent-append :
    (xs : List Snapshot) (x : Snapshot)
    → recent (xs ++ x ∷ []) ≡ drop (length (xs ++ x ∷ []) - history_limit) xs ++ x ∷ []
unfolding recent
recent-append xs x =
    drop-append (length (xs ++ x ∷ []) - 100) xs x (omega (arith, length-append xs (x ∷ [])))

pub push_history_lem :
    (s : FlowState) (m : FlowModel)
    → s.model ≡ some m
    → push_history s ≡ recent (s.past ++ snapshot s ∷ [])
unfolding push_history
push_history_lem s m h =
    ap (λ (o : Option FlowModel). if is_some o then recent (s.past ++ snapshot s ∷ []) else s.past)
      h

pub push_history-last :
    (s : FlowState) (m : FlowModel)
    → s.model ≡ some m
    → get_last? (push_history s) ≡ some (snapshot s)
push_history-last s m h =
    rw (push_history_lem s m h, recent-append s.past (snapshot s))
      (get_last?-append (drop (length (s.past ++ snapshot s ∷ []) - 100) s.past) (snapshot s))

pub push_history-rest :
    (s : FlowState) (m : FlowModel)
    → s.model ≡ some m
    → length s.past < history_limit
    → drop_last (push_history s) ≡ s.past
push_history-rest s m h k =
    rw
      (
        push_history_lem s m h,
        recent_all (s.past ++ snapshot s ∷ [])
            (omega (arith, length-append s.past (snapshot s ∷ []))),
      )
      (drop_last-append s.past (snapshot s))

-- What `undo` and `redo` give, from the entry on top of the stack.
abbrev pub Restores : Outcome → Snapshot → List Snapshot → List Snapshot → Type 0
Restores o e past future =
    (t : FlowState) × (o ≡ returned t) × (snapshot t ≡ e) × (t.past ≡ past) × (t.future ≡ future)

pub undo_lem :
    (s : FlowState) (e : Snapshot) (m : FlowModel)
    → get_last? s.past ≡ some e
    → e.model ≡ some m
    → Restores (undo s) e (drop_last s.past) (s.future ++ snapshot s ∷ [])
unfolding undo
undo_lem s e m h k = rw (h, undo) (rw k (_, refl, refl, refl, refl))

redo_lem :
    (s : FlowState) (e : Snapshot) (m : FlowModel)
    → get_last? s.future ≡ some e
    → e.model ≡ some m
    → Restores (redo s) e (recent (s.past ++ snapshot s ∷ [])) (drop_last s.future)
unfolding redo
redo_lem s e m h k = rw (h, redo) (rw k (_, refl, refl, refl, refl))

edit_lem :
    (a : Addresses) (c : Select) (added : List NodeDef) (f : Tree → Tree) (s : FlowState)
    (m : FlowModel)
    → s.model ≡ some m
    → is_no_change a added ≡ false
    → edit a c added f s ≡ edit_model a c added (f m.flow) m s
unfolding edit
edit_lem a c added f s m h k =
    ap (edit_from a c added f s) h
    ∙ ap (λ (b : Bool). if b then s else edit_model a c added (f m.flow) m s) k

-- Undoing an edit gives back the model, the layout, the selection and the history of before it, and
-- leaves the edited state as the only one to redo. The flow has a model, the history is not full,
-- and the edit rewrites the tree or brings nodes.
pub undo-edit :
    (a : Addresses) (c : Select) (added : List NodeDef) (f : Tree → Tree) (s : FlowState)
    (m : FlowModel)
    → s.model ≡ some m
    → is_no_change a added ≡ false
    → length s.past < history_limit
    → Restores (undo (edit a c added f s)) (snapshot s) s.past (snapshot (edit a c added f s) ∷ [])
undo-edit a c added f s m h k l =
    let u = edit a c added f s in
    let l' = edit_lem a c added f s m h k in
    let e : (u.past ≡ push_history s) × (u.future ≡ []) =
      (ap (λ (v : FlowState). v.past) l', ap (λ (v : FlowState). v.future) l') in
    let (t, p, q, r, w) =
      undo_lem u (snapshot s) m (ap get_last? e.0 ∙ push_history-last s m h) h in
    (
      t,
      p,
      q,
      r ∙ ap drop_last e.0 ∙ push_history-rest s m h l,
      w ∙ ap (λ x. x ++ snapshot u ∷ []) e.1,
    )

-- Redoing what was undone gives back the state's model, layout, selection, history and future. The
-- flow has a model, the history is within its limit, and its last entry has a model.
pub redo-undo :
    (s : FlowState) (e : Snapshot) (m n : FlowModel)
    → s.model ≡ some m
    → get_last? s.past ≡ some e
    → e.model ≡ some n
    → length s.past ≤ history_limit
    → Restores (redo (state_of (undo s))) (snapshot s) s.past s.future
redo-undo s e m n h k j l =
    let (t, p, q, r, w) = undo_lem s e n k j in
    let (u, p', q', r', w') =
      redo_lem t (snapshot s) m (ap get_last? w ∙ get_last?-append s.future (snapshot s)) h in
    (
      u,
      ap (λ o. redo (state_of o)) p ∙ p',
      q',
      r'
          ∙ ap₂ (λ x y. recent (x ++ y ∷ [])) r q
          ∙ ap recent (drop_last-get_last? s.past e k)
          ∙ recent_all s.past l,
      w' ∙ ap drop_last w ∙ drop_last-append s.future (snapshot s),
    )

-- Undoing and then redoing throws. The state has no model, and the last entry of the history has
-- one.
pub redo-threw :
    (s : FlowState) (e : Snapshot) (n : FlowModel)
    → s.model ≡ none
    → get_last? s.past ≡ some e
    → e.model ≡ some n
    → (t : FlowState) × (redo (state_of (undo s)) ≡ threw t)
unfolding redo
redo-threw s e n h k j =
    let (t, p, q, r, w) = undo_lem s e n k j in
    let v : get_last? t.future ≡ some (snapshot s) =
      ap get_last? w ∙ get_last?-append s.future (snapshot s) in
    (
      record t { past = recent (t.past ++ snapshot t ∷ []) },
      ap (λ o. redo (state_of o)) p ∙ rw (v, redo) (rw h refl),
    )
