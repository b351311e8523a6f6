-- ===== src/Server/ScoreHistory/Average.antt =====
-- Bounds on `weighted_average` of ml_server/storage/score_history_store.py.
use inha_rada.Common.{ℕ, ◌*◌, ◌≤◌, ◌<◌, List, [], ◌∷◌, arith, length, All}
use inha_rada.Server.ScoreHistory.{weight_of, weights_sum, weighted_sum, weighted_average}
use native.Mathlib.Nat.{mul-add, mul-le-mul_right}

pub weight_of-pos : (n : ℕ) → 0 < weight_of n
unfolding weight_of
weight_of-pos n = ground arith

weighted_sum-le : (m : ℕ) (ss : List ℕ) → All (λ s. s ≤ m) ss → weighted_sum ss ≤ m * weights_sum ss
unfolding weighted_sum weights_sum
weighted_sum-le m [] a = omega arith
weighted_sum-le m (s ∷ ss) a =
    let w = weight_of (length ss) in
    omega (arith, mul-le-mul_right w a.0, weighted_sum-le m ss a.1, mul-add m w (weights_sum ss))

weighted_sum-ge : (m : ℕ) (ss : List ℕ) → All (λ s. m ≤ s) ss → m * weights_sum ss ≤ weighted_sum ss
unfolding weighted_sum weights_sum
weighted_sum-ge m [] a = omega (arith)
weighted_sum-ge m (s ∷ ss) a =
    let w = weight_of (length ss) in
    omega (arith, mul-le-mul_right w a.0, weighted_sum-ge m ss a.1, mul-add m w (weights_sum ss))

-- The average of one score or more lies between the least and the greatest of them.
pub weighted_average-le :
    (lo hi s : ℕ) (ss : List ℕ)
    → All (λ x. lo ≤ x) (s ∷ ss)
    → All (λ x. x ≤ hi) (s ∷ ss)
    → let a = weighted_average (s ∷ ss) in
      (0 < a.weight) × (lo * a.weight ≤ a.total) × (a.total ≤ hi * a.weight)
unfolding weighted_average
weighted_average-le lo hi s ss above below = (
  unfold weights_sum in omega (arith, weight_of-pos (length ss)),
  weighted_sum-ge lo (s ∷ ss) above,
  weighted_sum-le hi (s ∷ ss) below,
)
