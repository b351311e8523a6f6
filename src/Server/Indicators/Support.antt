-- ===== src/Server/Indicators/Support.antt =====
-- The signals that the scores of ml_server/scorer/indicator_calculator.py depend on.
use inha_rada.Common.{ℕ, ◌≤◌, ◌≡◌, refl, ◌↔◌, Bool, true, false, arith}
use inha_rada.Server.Signals.{Signals, mask_network, mask_process, mask_missing}
use inha_rada.Server.Indicators.{
  Pack, Weights, Indicators, process_score, companions, network_points, process_points,
  episode_points, correlation_points, calculate_indicators,
}

-- The process score reaches the 10 points that confirm mining exactly if a known miner runs.
pub known_miner_process :
    (cap : ℕ) (w : Weights) (s : Signals) (p : Pack)
    → (10 ≤ (calculate_indicators cap w s p).process) ↔ (s.known_miner ≡ true)
unfolding calculate_indicators process_score
known_miner_process cap w s p = (λ h. ground arith, λ h. ground arith)

network_points-spike :
    (s : Signals) (p : Pack)
    → companions s ≡ 0
    → network_points s p ≡ network_points (record s { spike_count_1m = false }) p
unfolding network_points companions
network_points-spike s p h = ground arith

-- Without a companion signal, a spike of connections changes no indicator.
pub spike_alone :
    (cap : ℕ) (w : Weights) (s : Signals) (p : Pack)
    → companions s ≡ 0
    → calculate_indicators cap w s p
      ≡ calculate_indicators cap w (record s { spike_count_1m = false }) p
unfolding calculate_indicators
spike_alone cap w s p h = rw (calculate_indicators, network_points-spike s p h) refl

-- What the indicators may be where the network or the processes were not collected.
abbrev pub ScoresNothing : Bool → Bool → Indicators → Type 0
ScoresNothing network process i =
    (network ≡ true
      → (i.exfil ≡ 0) × (i.dos ≡ 0) × (i.breakdown_episode ≡ 0) × (i.breakdown_network ≤ 2))
    × (process ≡ true → (i.process ≡ 0) × (i.breakdown_process ≡ 0))
    × (network ≡ true → process ≡ true → i.breakdown_correlation ≡ 0)

-- What was not collected scores nothing: where the network is missing, the exfiltration, DoS and
-- episode scores are 0 and the network's is that of the number of remote addresses, at most 2;
-- where the processes are missing, the process scores are 0; where both are, so is the correlation.
pub calculate_indicators-missing :
    (cap : ℕ) (w : Weights) (network process : Bool) (s : Signals) (p : Pack)
    → ScoresNothing network process (calculate_indicators cap w (mask_missing network process s) p)
unfolding calculate_indicators mask_missing mask_network mask_process process_score network_points
    companions process_points episode_points correlation_points
calculate_indicators-missing cap w true true s p =
    (λ _. (refl, refl, refl, ground arith), λ _. (refl, refl), λ _ _. ground arith)
calculate_indicators-missing cap w true false s p =
    (λ _. (refl, refl, refl, ground arith), λ e. absurd (cc (e)), λ _ e. absurd (cc (e)))
calculate_indicators-missing cap w false true s p =
    (λ e. absurd (cc (e)), λ _. (refl, refl), λ e. absurd (cc (e)))
calculate_indicators-missing cap w false false s p =
    (λ e. absurd (cc (e)), λ e. absurd (cc (e)), λ e. absurd (cc (e)))
