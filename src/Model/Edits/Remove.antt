-- ===== src/Model/Edits/Remove.antt =====
-- Removing the stage that was inserted gives the tree back.
use text.Mathlib.Text.{◌==◌}
use text.Mathlib.TextEquality.{eq_iff}
use tolquane.Base.{
  ℕ, suc, ◌≤◌, String, ◌<>◌, false, not, ◌&&◌, none, some, List, [], ◌∷◌, ◌++◌, ◌≡◌, ◌≢◌, ◌⊎◌, inl,
  inr, refl, sym, ap, ◌∙◌, subst, Bool-cases, Option-cases, show, length, get_elem?, insert_at,
  erase_idx, get_elem?-insert_at_self, erase_idx-insert_at, drop_last-append, drop_last, join_dots,
}
use tolquane.Model.Types.{
  Tree, pipeline, Trees, nil, cons, to_list, of_list, to_list-of_list, of_list-to_list,
}
use tolquane.Model.Tree.{children, segments, split_path, find_child, get_at}
use tolquane.Model.Tree.Steps.{stages-IsKey}
use tolquane.Model.Tree.Lookup.{join_dots-segments}
use tolquane.Model.Tree.Paths.{get_at-descend, segments-join_path}
use tolquane.Model.Update.{put, trees, replace_child, rewrite, result, update_at}
use tolquane.Model.Update.Keyed.{index_of_key-stages}
use tolquane.Model.Update.Laws.{rewrite-cons, rewrite-append, update_at-rewrite}
use tolquane.Model.Update.Restore.{Counted, rewrite-Undone}
use tolquane.Model.Edits.{
  Index, clamp, insert_stage, insert_stage_here, remove_at, remove_fuel, remove_here,
  is_empty_pipeline,
}
use tolquane.Model.Edits.Stages.{stage_path, child-stage, clamp-le}

abbrev stage_key : ℕ → String
stage_key j = "stages" <> "." <> show j

-- The stage at `j` is dropped from a pipeline.
drop_stage :
    (ts : List Tree) (j : ℕ) (new : Tree)
    → j ≤ length ts
    → rewrite remove_here (trees (insert_at ts j new)) (stage_key j ∷ []) ≡ put (trees ts)
unfolding rewrite
drop_stage ts j new h =
    elim (Option-cases (find_child (stage_key j) (children (trees (insert_at ts j new))))) [
      | inl missed ↦
          let stands =
            child-stage (of_list (insert_at ts j new)) j
            ∙ ap (λ l. get_elem? l j) (to_list-of_list _)
            ∙ get_elem?-insert_at_self ts j new h in
          let none_found : none ≡ some new = rw missed at stands in cc
      | inr (c, found) ↦
          rewrite-cons remove_here _ (stage_key j) [] c found
          ∙ (unfold replace_child in
              rw (index_of_key-stages j, replace_child)
                (ap (λ l. put (trees (erase_idx l j))) (to_list-of_list _)
                  ∙ ap (λ l. put (trees l)) (erase_idx-insert_at ts j new h)))
    ]

snoc-ne-nil : (ks : List String) (k : String) → ks ++ k ∷ [] ≢ []
snoc-ne-nil [] k e = cc
snoc-ne-nil (j ∷ ks) k e = cc

-- A removal that leaves its parent holding something stops there.
remove_fuel-stop :
    (f : ℕ) (t next : Tree) (path parent : String)
    → (path == "") ≡ false
    → (split_path path).0 ≡ parent
    → update_at t path remove_here ≡ next
    → (not (parent == "") && is_empty_pipeline (get_at next parent)) ≡ false
    → remove_fuel (suc f) t path ≡ next
unfolding remove_fuel
remove_fuel-stop f t next path parent a b n c = rw (a, b, n, c) refl

is_empty_pipeline_ne : (ts : Trees) → ts ≢ nil → is_empty_pipeline (some (pipeline ts)) ≡ false
is_empty_pipeline_ne nil h = absurd (h refl)
is_empty_pipeline_ne (cons t ts) h = refl

stays_whole :
    (t : Tree) (ts : Trees) (p : String)
    → get_at t p ≡ some (pipeline ts)
    → (p ≡ "") ⊎ (ts ≢ nil)
    → (not (p == "") && is_empty_pipeline (get_at t p)) ≡ false
stays_whole t ts p h (inl e) =
    subst (λ q. (not (q == "") && is_empty_pipeline (get_at t q)) ≡ false) (sym e) refl
stays_whole t ts p h (inr ne) =
    rw (h, is_empty_pipeline_ne ts ne)
      (elim (Bool-cases (p == "")) [ inl e ↦ rw e refl | inr e ↦ rw e refl ])

module _ (t new : Tree) (ts : Trees) (p : String) (i : Index) (counted : Counted t)
    (h : get_at t p ≡ some (pipeline ts)) where
  abbrev place : ℕ
  place = clamp i (length (to_list ts))

  path_segments : segments (stage_path p place) ≡ segments p ++ stage_key place ∷ []
  path_segments = segments-join_path t (pipeline ts) p _ h (stages-IsKey place)

  stage_path-ne-empty : (stage_path p place == "") ≡ false
  unfolding segments
  stage_path-ne-empty = elim (Bool-cases (stage_path p place == "")) [
    | inl e ↦
        let no_steps : segments p ++ stage_key place ∷ [] ≡ [] =
          sym path_segments ∙ ap segments ((eq_iff _ _).0 e) in
        absurd (snoc-ne-nil (segments p) _ no_steps)
    | inr e ↦ e
  ]

  split_parent : (split_path (stage_path p place)).0 ≡ p
  unfolding split_path
  split_parent = rw stage_path-ne-empty (
      ap (λ l. join_dots (drop_last l)) path_segments
      ∙ ap join_dots (drop_last-append (segments p) _)
      ∙ join_dots-segments p)

  next_is_t : update_at (insert_stage t p i new) (stage_path p place) remove_here ≡ t
  unfolding insert_stage
  next_is_t =
      let f = insert_stage_here i new in
      let g = λ (u : Tree). rewrite remove_here u (stage_key place ∷ []) in
      let w =
        rewrite-Undone f g t (pipeline ts) _ (segments p) counted (sym (get_at-descend t p) ∙ h)
          refl
          (drop_stage (to_list ts) place new (clamp-le i _)
            ∙ ap (λ l. put (pipeline l)) (of_list-to_list ts)) in
      let whole : update_at t p f ≡ w.whole = update_at-rewrite t p f ∙ ap (result t) w.rewritten in
      ap (λ x. update_at x (stage_path p place) remove_here) whole
      ∙ update_at-rewrite w.whole (stage_path p place) remove_here
      ∙ ap (λ l. result w.whole (rewrite remove_here w.whole l)) path_segments
      ∙ ap (result w.whole)
          (rewrite-append remove_here w.whole (segments p) (stage_key place ∷ []) ∙ w.back)

  -- Removing the stage that was inserted into a pipeline gives the tree back. The path names a
  -- pipeline that had a stage before or is the whole flow, and every heterogeneous farm of the
  -- tree counts its own workers.
  pub remove_at-insert_stage :
      (p ≡ "") ⊎ (ts ≢ nil)
      → remove_at (insert_stage t p i new) (stage_path p (clamp i (length (to_list ts)))) ≡ t
  unfolding remove_at
  remove_at-insert_stage keeps =
      unfold remove_fuel in
      remove_fuel-stop _ _ t (stage_path p place) p stage_path-ne-empty split_parent next_is_t
        (stays_whole t ts p h keeps)
