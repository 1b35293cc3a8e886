-- ===== src/Model/Layout/Foreign.antt =====
-- web/src/model/layoutPaths.ts: the names of the members of `Object.prototype`, as paths.
use Prim.Native.Char.{Char, code}
use text.Mathlib.Text.{◌==◌}
use text.Mathlib.TextEquality.{eq_iff}
use tolquane.Base.{
  ℕ, suc, String, ◌<>◌, Bool, true, false, ◌||◌, none, some, List, [], ◌∷◌, ◌≡◌, refl, sym, ap,
  subst, ◌∙◌, arith, All, All-append, Member, here, there, Bool-cases, inl, inr, any, show, nat_eq,
  map, split_on,
}
use tolquane.Model.Types.{
  Tree, start, ref, inline, pipeline, farm, comb, feedback, all2all, Worker, one, many, to_list,
}
use tolquane.Model.Tree.{
  Child, numbered, worker_children, children, find_child, descend, get_at, segments, group, paths,
  walk,
}
use tolquane.Model.Tree.Steps.{head_code, head_code-append}
use tolquane.Model.Tree.Keys.{options-All, cross-All}
use tolquane.Model.Tree.Paths.{walk-get_at_iff}
use tolquane.Model.Layout.{inherited_names, is_alive}

-- The keys of the children that stand in no list.
abbrev words : List String
words =
    "worker" ∷ "first" ∷ "second" ∷ "inner" ∷ "left" ∷ "right" ∷ "R" ∷ "G" ∷ "options.emitter"
    ∷ "options.collector" ∷ "options.key" ∷ []

-- A path of one step that is the key of no child.
record Foreign (k : String) : Type 0 where
  no_word : any (λ j. j == k) words ≡ false
  no_stage : nat_eq b's' (head_code k) ≡ false
  no_worker : nat_eq b'w' (head_code k) ≡ false
  one_step : segments k ≡ k ∷ []
  no_root : (k == "") ≡ false

any-All {ℓ} :
    {A : Type ℓ} (p : A → Bool) (xs : List A) → any p xs ≡ false → All (λ x. p x ≡ false) xs
any-All p [] h = tt
any-All p (x ∷ xs) h = go (p x) (any p xs) h (any-All p xs)
  where
    go :
        (b c : Bool)
        → (b || c) ≡ false
        → (c ≡ false → All (λ x. p x ≡ false) xs)
        → (b ≡ false) × All (λ x. p x ≡ false) xs
    go true c h f = absurd (cc)
    go false c h f = (refl, f h)

module _ (k : String) (foreign : Foreign k) where
  -- The key is another one than `k`.
  abbrev Other : String → Type 0
  Other j = (j == k) ≡ false

  numbered-Other :
      (c : Char) (p : String) (i : ℕ) (ts : List Tree)
      → nat_eq (code c) (head_code k) ≡ false
      → All (λ (d : Child). Other d.key) (numbered (String.◌∷◌ c p) i ts)
  unfolding numbered
  numbered-Other c p i [] h = tt
  numbered-Other c p i (t ∷ ts) h = (
    elim (Bool-cases (((String.◌∷◌ c p) <> "." <> show i) == k)) [
      | inl e ↦
          let same = sym (head_code-append c p ("." <> show i)) ∙ ap head_code ((eq_iff _ _).0 e) in
          absurd (grind (arith, same, h))
      | inr e ↦ e
    ],
    numbered-Other c p (suc i) ts h,
  )

  word : All Other words
  word = any-All (λ j. j == k) words foreign.no_word

  worker-Other : (w : Worker) → All (λ (d : Child). Other d.key) (worker_children w)
  worker-Other (one t) = (word.0, tt)
  worker-Other (many ts) = numbered-Other _ "orker" 0 (to_list ts) foreign.no_worker

  children-Other : (t : Tree) → All (λ (d : Child). Other d.key) (children t)
  unfolding children
  children-Other start = tt
  children-Other (ref id) = tt
  children-Other (inline source) = tt
  children-Other (pipeline ts) = numbered-Other _ "tages" 0 (to_list ts) foreign.no_stage
  children-Other (farm w n o) =
      let rest = word.1.1.1.1.1.1.1.1 in
      All-append (λ (d : Child). Other d.key) (worker_children w) _ (worker-Other w)
        (options-All Other o rest.0 rest.1.0 rest.1.1.0)
  children-Other (comb a b) = (word.1.0, (word.1.1.0, tt))
  children-Other (feedback t name) = (word.1.1.1.0, tt)
  children-Other (all2all l r x y b) =
      let rest = word.1.1.1.1 in (rest.0, (rest.1.0, cross-All Other x y rest.1.1.0 rest.1.1.1.0))

  find_child-Other :
      (cs : List Child) → All (λ (d : Child). Other d.key) cs → find_child k cs ≡ none
  unfolding find_child
  find_child-Other [] h = refl
  find_child-Other (c ∷ cs) h = rw h.0 (find_child-Other cs h.1)

  get_at-Foreign : (t : Tree) → get_at t k ≡ none
  unfolding get_at descend
  get_at-Foreign t =
      rw foreign.no_root
        (rw foreign.one_step (rw (find_child-Other (children t) (children-Other t), descend) refl))

  is_alive-Foreign : (t : Tree) → is_alive t k ≡ false
  unfolding is_alive paths
  is_alive-Foreign t = elim (Bool-cases (is_alive t k)) [
    | inl e ↦
        let (u, m) = walked (walk t) e in
        let none_found : none ≡ some u = sym (get_at-Foreign t) ∙ (walk-get_at_iff t k u).0 m in
        absurd (cc)
    | inr e ↦ e
  ]
    where
      walked :
          (es : List (String × Tree))
          → any (λ p. p == k) (map (λ (e : String × Tree). e.0) es) ≡ true
          → (u : Tree) × Member {A = String × Tree} (k, u) es
      walked [] h = absurd (cc)
      walked ((p, u) ∷ es) h = go (p == k) refl h (walked es)
        where
          go :
              (b : Bool)
              → (p == k) ≡ b
              → (b || any (λ p. p == k) (map (λ (e : String × Tree). e.0) es)) ≡ true
              → (any (λ p. p == k) (map (λ (e : String × Tree). e.0) es) ≡ true
                  → (u : Tree) × Member {A = String × Tree} (k, u) es)
              → (v : Tree) × Member {A = String × Tree} (k, v) ((p, u) ∷ es)
          go true e h f = (
            u,
            subst (λ q. Member {A = String × Tree} (q, u) ((p, u) ∷ es)) ((eq_iff _ _).0 e) here,
          )
          go false e h f = let (v, m) = f h in (v, there m)

inherited_names-Foreign : All Foreign inherited_names
unfolding segments group split_on
inherited_names-Foreign = (
  record { no_word = refl; no_stage = refl; no_worker = refl; one_step = refl; no_root = refl },
  (
    record { no_word = refl; no_stage = refl; no_worker = refl; one_step = refl; no_root = refl },
    (
      record { no_word = refl; no_stage = refl; no_worker = refl; one_step = refl; no_root = refl },
      (
        record {
          no_word = refl;
          no_stage = refl;
          no_worker = refl;
          one_step = refl;
          no_root = refl;
        },
        (
          record {
            no_word = refl;
            no_stage = refl;
            no_worker = refl;
            one_step = refl;
            no_root = refl;
          },
          (
            record {
              no_word = refl;
              no_stage = refl;
              no_worker = refl;
              one_step = refl;
              no_root = refl;
            },
            (
              record {
                no_word = refl;
                no_stage = refl;
                no_worker = refl;
                one_step = refl;
                no_root = refl;
              },
              (
                record {
                  no_word = refl;
                  no_stage = refl;
                  no_worker = refl;
                  one_step = refl;
                  no_root = refl;
                },
                (
                  record {
                    no_word = refl;
                    no_stage = refl;
                    no_worker = refl;
                    one_step = refl;
                    no_root = refl;
                  },
                  (
                    record {
                      no_word = refl;
                      no_stage = refl;
                      no_worker = refl;
                      one_step = refl;
                      no_root = refl;
                    },
                    (
                      record {
                        no_word = refl;
                        no_stage = refl;
                        no_worker = refl;
                        one_step = refl;
                        no_root = refl;
                      },
                      (
                        record {
                          no_word = refl;
                          no_stage = refl;
                          no_worker = refl;
                          one_step = refl;
                          no_root = refl;
                        },
                        tt,
                      ),
                    ),
                  ),
                ),
              ),
            ),
          ),
        ),
      ),
    ),
  ),
)

-- The name of a member of `Object.prototype` is the path of no block.
pub inherited_name-dead :
    (t : Tree) (k : String) → any (λ n. n == k) inherited_names ≡ true → is_alive t k ≡ false
inherited_name-dead t k h = go inherited_names inherited_names-Foreign h
  where
    go : (ns : List String) → All Foreign ns → any (λ n. n == k) ns ≡ true → is_alive t k ≡ false
    go [] f h = absurd (cc)
    go (n ∷ ns) f h = split (n == k) refl h (go ns f.1)
      where
        split :
            (b : Bool)
            → (n == k) ≡ b
            → (b || any (λ n. n == k) ns) ≡ true
            → (any (λ n. n == k) ns ≡ true → is_alive t k ≡ false)
            → is_alive t k ≡ false
        split true e h g =
            subst (λ q. is_alive t q ≡ false) ((eq_iff _ _).0 e) (is_alive-Foreign n f.0 t)
        split false e h g = g h
