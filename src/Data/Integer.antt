-- ===== src/Data/Integer.antt =====
-- The integers: `negsuc n` is -(n + 1).
use narra_leaf_team.Common.{ℕ}

pub data ℤ : Type 0 where
  pos : ℕ → ℤ
  negsuc : ℕ → ℤ
