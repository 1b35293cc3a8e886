-- ===== src/Editor/Canvas/Ended.antt =====
-- web/src/editor/buildGraph.ts: the flows whose farms are measured with the ends that they are drawn
-- with.
use tolquane.Base.{ℕ, ◌+◌, ◌*◌, ◌≤◌, Bool, true, false, ◌≡◌, arith}
use tolquane.Model.Types.{
  Tree, pipeline, farm, feedback, all2all, Trees, nil, cons, Worker, one, many,
}
use tolquane.Editor.Geometry.{gap_in, group_pad, end_w}
use tolquane.Editor.Canvas.{plain, own_view, end_room}

-- Every farm below has both of its ends, but for the sides of an all-to-all.
unfoldable mutual
  pub Ended : Tree → Type 0
  Ended (pipeline ts) = AllEnded ts
  Ended (farm w n o) = WorkersEnded w
  Ended (feedback t name) = (own_view t ≡ plain) × Ended t
  Ended (all2all l r x y m) = Ended l × Ended r
  Ended _ = Unit

  pub AllEnded : Trees → Type 0
  AllEnded nil = Unit
  AllEnded (cons t ts) = ((own_view t ≡ plain) × Ended t) × AllEnded ts

  pub WorkersEnded : Worker → Type 0
  WorkersEnded (one t) = (own_view t ≡ plain) × Ended t
  WorkersEnded (many ts) = AllEnded ts

-- The same, whatever ends the blocks at the top have: nothing was measured for them.
unfoldable pub StagesEnded : Trees → Type 0
unfolding Ended
StagesEnded nil = Unit
StagesEnded (cons t ts) = Ended t × StagesEnded ts

unfoldable pub TopEnded : Tree → Type 0
unfolding Ended StagesEnded
TopEnded (pipeline ts) = StagesEnded ts
TopEnded t = Ended t

-- The room that the shown ends of a farm have.
pub end_fits :
    (se sc : Bool) (cw : ℕ)
    → (se ≡ true → group_pad + end_w + group_pad ≤ end_room se + cw + end_room sc + 2 * group_pad)
      × (sc ≡ true
          → group_pad + end_room se + cw + gap_in + end_w + group_pad
            ≤ end_room se + cw + end_room sc + 2 * group_pad)
end_fits true true cw = (λ e. omega arith, λ e. omega arith)
end_fits true false cw = (λ e. omega arith, λ e. absurd (grind arith))
end_fits false true cw = (λ e. absurd (grind arith), λ e. omega arith)
end_fits false false cw = (λ e. absurd (grind arith), λ e. absurd (grind arith))
