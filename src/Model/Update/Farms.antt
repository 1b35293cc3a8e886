-- ===== src/Model/Update/Farms.antt =====
-- Replacing any child of a farm.
use tolquane.Base.{
  ℕ, ◌+◌, ℤ, String, ◌<>◌, ◌++◌, ◌≡◌, inl, inr, refl, sym, ap, ◌∙◌, arith, Member,
  Member-append_cases, Member-single, show, strip, ap₂, subst,
}
use tolquane.Model.Types.{
  Tree, farm, Worker, one, many, MaybeTree, nothing, just, Slot, default, exposed, block,
  FarmOptions, options, to_list, FarmSettings,
}
use tolquane.Model.Tree.{Child, slot_child, maybe_child, worker_children, option_children, children}
use tolquane.Model.Tree.Steps.{head_code}
use tolquane.Model.Update.{replace_child}
use tolquane.Model.Update.Keyed.{set_key, set_key-append, set_key-Lacks, numbered-Member}
use tolquane.Model.Update.Workers.{Replaced, workers-Lack, many-Replaced, one-Replaced}

emitter-set :
    (s : FarmSettings) (v t : Tree) (c : Slot) (k : MaybeTree)
    → set_key "options.emitter" v (option_children (options s (block t) c k))
      ≡ option_children (options s (block v) c k)
emitter-set s v t default nothing = refl
emitter-set s v t default (just y) = refl
emitter-set s v t exposed nothing = refl
emitter-set s v t exposed (just y) = refl
emitter-set s v t (block x) nothing = refl
emitter-set s v t (block x) (just y) = refl

collector-set :
    (s : FarmSettings) (v t : Tree) (e : Slot) (k : MaybeTree)
    → set_key "options.collector" v (option_children (options s e (block t) k))
      ≡ option_children (options s e (block v) k)
collector-set s v t default nothing = refl
collector-set s v t default (just y) = refl
collector-set s v t exposed nothing = refl
collector-set s v t exposed (just y) = refl
collector-set s v t (block x) nothing = refl
collector-set s v t (block x) (just y) = refl

key-set :
    (s : FarmSettings) (v t : Tree) (e c : Slot)
    → set_key "options.key" v (option_children (options s e c (just t)))
      ≡ option_children (options s e c (just v))
key-set s v t default default = refl
key-set s v t default exposed = refl
key-set s v t default (block y) = refl
key-set s v t exposed default = refl
key-set s v t exposed exposed = refl
key-set s v t exposed (block y) = refl
key-set s v t (block x) default = refl
key-set s v t (block x) exposed = refl
key-set s v t (block x) (block y) = refl

options_children :
    (k : String) (v : Tree) (w : Worker) (o p : FarmOptions)
    → head_code k ≡ b'o'
    → set_key k v (option_children o) ≡ option_children p
    → worker_children w ++ option_children p ≡ set_key k v (worker_children w ++ option_children o)
options_children k v w o p h e =
    ap₂ (λ a b. a ++ b) (sym (set_key-Lacks k v _ (workers-Lack k w h))) (sym e)
    ∙ sym (set_key-append k v (worker_children w) (option_children o))

module _ (w : Worker) (n : ℤ) (s : FarmSettings) (v : Tree) (x : Child) where
  emitter-Replaced :
      (e c : Slot) (k : MaybeTree)
      → Member x (slot_child "options.emitter" e)
      → Replaced (farm w n (options s e c k)) x.key v
  unfolding replace_child children strip
  emitter-Replaced (block t) c k m =
      subst (λ y. Replaced (farm w n (options s (block t) c k)) y v)
        (sym (ap (λ (d : Child). d.key) (Member-single m)))
        (
          farm w n (options s (block v) c k),
          refl,
          options_children "options.emitter" v w (options s (block t) c k) (options s (block v) c k)
              refl (emitter-set s v t c k),
          λ w. refl,
        )
  emitter-Replaced _ c k m = elim m [ ]

  collector-Replaced :
      (e c : Slot) (k : MaybeTree)
      → Member x (slot_child "options.collector" c)
      → Replaced (farm w n (options s e c k)) x.key v
  unfolding replace_child children strip
  collector-Replaced e (block t) k m =
      subst (λ y. Replaced (farm w n (options s e (block t) k)) y v)
        (sym (ap (λ (d : Child). d.key) (Member-single m)))
        (
          farm w n (options s e (block v) k),
          refl,
          options_children "options.collector" v w (options s e (block t) k)
              (options s e (block v) k) refl (collector-set s v t e k),
          λ w. refl,
        )
  collector-Replaced e _ k m = elim m [ ]

  key-Replaced :
      (e c : Slot) (k : MaybeTree)
      → Member x (maybe_child "options.key" k)
      → Replaced (farm w n (options s e c k)) x.key v
  unfolding replace_child children strip
  key-Replaced e c (just t) m =
      subst (λ y. Replaced (farm w n (options s e c (just t))) y v)
        (sym (ap (λ (d : Child). d.key) (Member-single m)))
        (
          farm w n (options s e c (just v)),
          refl,
          options_children "options.key" v w (options s e c (just t)) (options s e c (just v)) refl
              (key-set s v t e c),
          λ w. refl,
        )
  key-Replaced e c nothing m = elim m [ ]

pub option-Replaced :
    (w : Worker) (n : ℤ) (o : FarmOptions) (v : Tree) (x : Child)
    → Member x (option_children o)
    → Replaced (farm w n o) x.key v
option-Replaced w n (options s e c k) v x m =
    elim (Member-append_cases (slot_child "options.emitter" e) _ m) [
      | inl l ↦ emitter-Replaced w n s v x e c k l
      | inr r ↦ elim (Member-append_cases (slot_child "options.collector" c) _ r) [
        | inl l ↦ collector-Replaced w n s v x e c k l
        | inr q ↦ key-Replaced w n s v x e c k q
      ]
    ]

pub worker-Replaced :
    (w : Worker) (n : ℤ) (o : FarmOptions) (v : Tree) (x : Child)
    → Member x (worker_children w)
    → Replaced (farm w n o) x.key v
worker-Replaced (one t) n o v x m =
    subst (λ y. Replaced (farm (one t) n o) y v) (sym (ap (λ (d : Child). d.key) (Member-single m)))
      (one-Replaced t n o v)
worker-Replaced (many ts) n o v x m =
    let (j, i, e, key, l, g) = numbered-Member "worker" x 0 (to_list ts) m in
    subst (λ y. Replaced (farm (many ts) n o) y v)
      (ap (λ a. "worker" <> "." <> show a) (sym (step_zero i j e)) ∙ sym key)
      (many-Replaced ts n o v j l)
  where
    step_zero : (i j : ℕ) → i ≡ 0 + j → i ≡ j
    step_zero i j e = omega arith
