-- ===== src/Model/Edits/Wrap.antt =====
-- Wrapping a block and unwrapping it again.
use tolquane.Base.{String, ℤ, Option, some, ◌≡◌, refl}
use tolquane.Model.Types.{Tree}
use tolquane.Model.Tree.{get_at}
use tolquane.Model.Update.{put}
use tolquane.Model.Update.Restore.{Counted, update_at-update_at}
use tolquane.Model.Edits.{
  farm_block, feedback_block, wrap_in_farm, wrap_in_feedback, unwrap, unwrap_here,
}

-- Unwrapping the farm that the block at a path was wrapped in gives the tree back. The path names a
-- block, and every heterogeneous farm of the tree counts its own workers.
pub unwrap-wrap_in_farm :
    (t u : Tree) (p : String) (n : ℤ)
    → Counted t
    → get_at t p ≡ some u
    → unwrap (wrap_in_farm t p n) p ≡ t
unfolding unwrap wrap_in_farm
unwrap-wrap_in_farm t u p n h e =
    update_at-update_at (λ node. put (farm_block node n)) unwrap_here t u (farm_block u n) p h e
      refl refl

-- Unwrapping the feedback loop, named or not, that the block at a path was wrapped in gives the tree
-- back. The path names a block, and every heterogeneous farm of the tree counts its own workers.
pub unwrap-wrap_in_feedback :
    (t u : Tree) (p : String) (name : Option String)
    → Counted t
    → get_at t p ≡ some u
    → unwrap (wrap_in_feedback t p name) p ≡ t
unfolding unwrap wrap_in_feedback
unwrap-wrap_in_feedback t u p name h e =
    update_at-update_at (λ node. put (feedback_block node name)) unwrap_here t u
      (feedback_block u name) p h e refl refl
