-- ===== src/Editor/Geometry.antt =====
-- web/src/editor/geometry.ts: the sizes of the blocks, in pixels.
use tolquane.Base.{ℕ, ℤ, pos, negsuc, max, min, nat_eq, if◌then◌else◌}

abbrev pub card_w : ℕ
card_w = 208

abbrev pub card_h : ℕ
card_h = 64

abbrev pub comb_h : ℕ
comb_h = 92

abbrev pub end_w : ℕ
end_w = 124

abbrev pub end_h : ℕ
end_h = 48

abbrev pub gap_in : ℕ
gap_in = 28

abbrev pub gap_y : ℕ
gap_y = 20

abbrev pub group_header : ℕ
group_header = 42

abbrev pub group_pad : ℕ
group_pad = 16

abbrev pub loop_space : ℕ
loop_space = 44

abbrev pub max_reps : ℕ
max_reps = 3

pub record Box : Type 0 where
  pub w : ℕ
  pub h : ℕ

abbrev pub box : ℕ → ℕ → Box
box w h = record { w = w; h = h }

-- `Math.max(1, Math.min(MAX_REPS, Math.trunc(workers) || 1))`
unfoldable pub reps : ℤ → ℕ
reps (pos n) = max 1 (min max_reps (if nat_eq n 0 then 1 else n))
reps (negsuc n) = 1
