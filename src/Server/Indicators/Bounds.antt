-- ===== src/Server/Indicators/Bounds.antt =====
-- The sizes of the scores of ml_server/scorer/indicator_calculator.py.
use inha_rada.Common.{ℕ, ◌≤◌, ◌≡◌, refl, Bool, arith, if◌then◌else◌, pos, negsuc, ◌≤ℤ◌}
use inha_rada.Server.Signals.{Signals}
use inha_rada.Server.Indicators.{
  Pack, Weights, Indicators, gpu_mining_score, cpu_mining_score, stealth_score, process_score,
  resource_points, network_points, process_points, episode_points, ml_after_cap,
  calculate_indicators,
}

if_two_one-le : (b c : Bool) → (if b then 2 else if c then 1 else 0) ≤ 2
if_two_one-le b c = ground arith

ml_after_cap-le : (cap score sum : ℕ) → ml_after_cap cap score sum ≤ cap
unfolding ml_after_cap
ml_after_cap-le cap score sum = ground arith

resource_points-le : (s : Signals) (p : Pack) → resource_points s p ≤ 7
unfolding resource_points
resource_points-le s p = ground arith

network_points-le : (s : Signals) (p : Pack) → network_points s p ≤ 8
unfolding network_points
network_points-le s p = ground arith

-- The bounds of the indicators, where `cap` is that of the ML score.
abbrev pub InBounds : ℕ → Indicators → Type 0
InBounds cap i =
    ((negsuc 4 ≤ℤ i.gpu_mining) × (i.gpu_mining ≤ℤ pos 16))
    × ((negsuc 7 ≤ℤ i.cpu_mining) × (i.cpu_mining ≤ℤ pos 12))
    × ((negsuc 4 ≤ℤ i.stealth) × (i.stealth ≤ℤ pos 13))
    × (i.exfil ≤ 6)
    × (i.process ≤ 14)
    × (i.dos ≤ 5)
    × (i.backdoor ≡ 0)
    × (i.mem ≤ 2)
    × (i.ml ≤ cap)
    × (i.breakdown_resource ≤ 7)
    × (i.breakdown_network ≤ 8)
    × (i.breakdown_process ≤ 15)
    × (i.breakdown_episode ≤ 7)

-- Every indicator lies between fixed bounds, for any signals: the mining scores between -8 and 16,
-- the stealth score between -5 and 13, the other scores at most their full points, and the ML score
-- at most its cap. The backdoor score is 0.
pub calculate_indicators-le :
    (cap : ℕ) (w : Weights) (s : Signals) (p : Pack) → InBounds cap (calculate_indicators cap w s p)
unfolding calculate_indicators gpu_mining_score cpu_mining_score stealth_score process_score
    process_points episode_points
calculate_indicators-le cap w s p = (
  (ground arith, ground arith),
  (ground arith, ground arith),
  (ground arith, ground arith),
  ground arith,
  ground arith,
  ground arith,
  refl,
  ground arith,
  ml_after_cap-le cap _ _,
  resource_points-le s p,
  network_points-le s p,
  ground arith,
  ground arith,
)
