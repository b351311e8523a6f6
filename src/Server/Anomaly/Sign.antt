-- ===== src/Server/Anomaly/Sign.antt =====
-- The sign of an average of ml_server/detector/anomaly_predictor.py.
use inha_rada.Common.{
  ℕ, suc, ◌<◌, ◌≡◌, true, false, List, [], ◌∷◌, arith, length, All, ℤ, pos, negsuc, ◌+ℤ◌, ◌≤ℤ◌,
  ◌<ℤ◌, int_laws,
}
use native.Mathlib.Nat.{mul-suc}
use inha_rada.Server.ScoreHistory.{weight_of}
use inha_rada.Server.ScoreHistory.Average.{weight_of-pos}
use inha_rada.Server.Anomaly.{scale, weighted_total, is_below_zero}

abbrev pub IsCalmScore : ℤ → Type 0
IsCalmScore s = pos 0 ≤ℤ s

abbrev pub IsBadScore : ℤ → Type 0
IsBadScore s = s <ℤ pos 0

scale_calm : (k : ℕ) (s : ℤ) → IsCalmScore s → IsCalmScore (scale k s)
unfolding scale
scale_calm k (pos n) h = omega arith
scale_calm k (negsuc n) h = absurd (omega arith)

scale_bad : (k : ℕ) (s : ℤ) → 0 < k → IsBadScore s → IsBadScore (scale k s)
unfolding scale
scale_bad k (pos n) positive h = absurd (omega arith)
scale_bad k (negsuc n) positive h = ground (arith, mul-suc k n)

weighted_total-calm : (ss : List ℤ) → All IsCalmScore ss → IsCalmScore (weighted_total ss)
unfolding weighted_total
weighted_total-calm [] a = omega arith
weighted_total-calm (s ∷ ss) a =
    let w = weight_of (length ss) in
    omega (int_laws, scale_calm w s a.0, weighted_total-calm ss a.1)

bad_sum : (a b : ℤ) → IsBadScore a → IsBadScore b → IsBadScore (a +ℤ b)
bad_sum a b ha hb = omega int_laws

weighted_total-bad :
    (s : ℤ) (ss : List ℤ) → All IsBadScore (s ∷ ss) → IsBadScore (weighted_total (s ∷ ss))
unfolding weighted_total
weighted_total-bad s [] a =
    let first = scale_bad (weight_of 0) s (weight_of-pos 0) a.0 in omega (int_laws, first)
weighted_total-bad s (t ∷ ss) a =
    let w = weight_of (suc (length ss)) in
    bad_sum (scale w s) (weighted_total (t ∷ ss))
      (scale_bad w s (weight_of-pos (suc (length ss))) a.0) (weighted_total-bad t ss a.1)

pub is_below_zero-calm : (ss : List ℤ) → All IsCalmScore ss → is_below_zero ss ≡ false
unfolding is_below_zero
is_below_zero-calm ss a = ground (arith, weighted_total-calm ss a)

pub is_below_zero-bad : (ss : List ℤ) → 0 < length ss → All IsBadScore ss → is_below_zero ss ≡ true
unfolding is_below_zero
is_below_zero-bad [] long a = absurd (omega arith)
is_below_zero-bad (s ∷ ss) long a = ground (arith, weighted_total-bad s ss a)
