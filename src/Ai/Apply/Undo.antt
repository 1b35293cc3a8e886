-- ===== src/Ai/Apply/Undo.antt =====
-- web/src/ai/apply.ts with web/src/store/flow.ts: applying a draft is an edit that can be undone.
use tolquane.Base.{
  ◌<◌, String, Bool, Option, some, is_some, [], ◌∷◌, ◌++◌, length, ◌≡◌, refl, ap, subst, ◌∙◌, arith,
  get_last?, drop_last, length-append, drop_last-append, if◌then◌else◌,
}
use tolquane.Model.Types.{FlowModel}
use tolquane.Store.Flow.{FlowState, snapshot, recent, history_limit, undo}
use tolquane.Store.Flow.History.{Restores, undo_lem, get_last?-append, recent_all, length-recent}
use tolquane.Store.Flow.Settled.{Settled}
use tolquane.Ai.Threads.{Turn, FlowDraft, AiState}
use tolquane.Ai.Apply.{apply_draft_to_editor, history_of_apply}

apply-past :
    (holds : Turn → Bool) (d : FlowDraft) (path : String) (ai : AiState) (s : FlowState)
    (m : FlowModel)
    → s.model ≡ some m
    → length s.past < history_limit
    → (apply_draft_to_editor holds d path ai s).past ≡ s.past ++ snapshot s ∷ []
unfolding apply_draft_to_editor
apply-past holds d path ai s m h k =
    ap (λ (o : Option FlowModel). recent (if is_some o then s.past ++ snapshot s ∷ [] else s.past))
      h
    ∙ recent_all (s.past ++ snapshot s ∷ []) (omega (arith, length-append s.past (snapshot s ∷ [])))

-- Undoing an applied draft gives back the model, the layout, the selection and the history of before
-- it, and leaves the applied flow as the only one to redo, when the flow had a model and the history
-- was not full.
pub undo-apply_draft_to_editor :
    (holds : Turn → Bool) (d : FlowDraft) (path : String) (ai : AiState) (s : FlowState)
    (m : FlowModel)
    → s.model ≡ some m
    → length s.past < history_limit
    → Restores
        (undo (apply_draft_to_editor holds d path ai s))
        (snapshot s)
        s.past
        (snapshot (apply_draft_to_editor holds d path ai s) ∷ [])
unfolding apply_draft_to_editor
undo-apply_draft_to_editor holds d path ai s m h k =
    let t = apply_draft_to_editor holds d path ai s in
    let e = apply-past holds d path ai s m h k in
    subst (λ past. Restores (undo t) (snapshot s) past (snapshot t ∷ []))
      (ap drop_last e ∙ drop_last-append s.past (snapshot s))
      (undo_lem t (snapshot s) m (ap get_last? e ∙ get_last?-append s.past (snapshot s)) h)

-- An applied draft leaves the problems of the new model, and a history within its limit.
pub apply_draft_to_editor-Settled :
    (holds : Turn → Bool) (d : FlowDraft) (path : String) (ai : AiState) (s : FlowState)
    → Settled (apply_draft_to_editor holds d path ai s)
unfolding apply_draft_to_editor
apply_draft_to_editor-Settled holds d path ai s = (refl, length-recent (history_of_apply s))
