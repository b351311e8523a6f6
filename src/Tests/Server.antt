-- ===== src/Tests/Server.antt =====
-- The theorems of the server at concrete inputs.
use inha_rada.Common.{
  ℕ, zero, suc, ◌+◌, ◌*◌, ◌≤◌, ◌≡◌, refl, true, false, List, [], ◌∷◌, arith, pos, ◌≤ℤ◌,
}
use inha_rada.Server.Gating.{
  high_risk, minute_ms, gap_reset_ms, update_sustained_state, evaluate, default_config,
  updated_state, reset_on_gap, gap_exceeded, set_anchors, anchor, is_set, sustained_minutes,
  since_minutes, minutes_between, capped, fresh_state,
}
use inha_rada.Tests.Samples.{miner, spike, pack, context, lowers}
use inha_rada.Server.Indicators.{default_weights, calculate_indicators, companions}
use inha_rada.Server.Context.{security_scan, maintenance_update, apply_context_multiplier}
use inha_rada.Server.Context.Limits.{AreLimited, last_discount-between}
use inha_rada.Server.Gating.Sustained.{sustained-Covers, Seen, Covers, state_after}
use inha_rada.Server.Gating.Confirmed.{Unbroken, evaluate-Covers, Unbroken-evaluate}

-- One observation a minute from minute 1 on, the newest first.
abbrev every_minute : ℕ → List Seen
every_minute zero = []
every_minute (suc n) = record { cats = 3; at = suc n * minute_ms } ∷ every_minute n

minute_later : (n : ℕ) → suc (suc n) * minute_ms ≤ suc n * minute_ms + gap_reset_ms
minute_later n = omega arith

every_minute-Unbroken : (n : ℕ) → Unbroken gap_reset_ms minute_ms (every_minute (suc n))
every_minute-Unbroken zero = (omega arith, omega arith)
every_minute-Unbroken (suc n) = (omega arith, minute_later n, every_minute-Unbroken n)

Unbroken-evaluate_example :
    ((evaluate true true true
        (state_after gap_reset_ms (every_minute 181))
        default_config
        (182 * minute_ms)).1.verdict
      ≡ high_risk)
    × ((evaluate true true true
          (state_after gap_reset_ms (every_minute 181))
          default_config
          (182 * minute_ms)).1.mining_confirmed
        ≡ true)
Unbroken-evaluate_example =
    Unbroken-evaluate minute_ms (every_minute 181) (182 * minute_ms) (omega arith)
      (every_minute-Unbroken 181) (omega arith)

evaluate-Covers_example :
    (true ≡ true)
    × (true ≡ true)
    × (true ≡ true)
    × ((t : ℕ) × Covers gap_reset_ms 3 t
          (record { cats = 3; at = 182 * minute_ms } ∷ every_minute 181)
        × (t + 180 * minute_ms ≤ 182 * minute_ms))
evaluate-Covers_example =
    evaluate-Covers true true true (every_minute 181) (182 * minute_ms) (omega arith)
      Unbroken-evaluate_example.0

-- Two observations of two categories, a minute and a half apart.
abbrev earlier : List Seen
earlier = record { cats = 2; at = 60_000 } ∷ []

abbrev later : Seen
later = record { cats = 2; at = 150_000 }

later_minutes :
    pos 1
    ≤ℤ (update_sustained_state (state_after gap_reset_ms earlier) 2 150_000 gap_reset_ms 720).1
unfolding update_sustained_state state_after updated_state reset_on_gap gap_exceeded set_anchors
    anchor is_set sustained_minutes since_minutes minutes_between capped fresh_state
later_minutes = omega arith

sustained-Covers_example :
    (t : ℕ) × Covers gap_reset_ms 2 t (later ∷ earlier) × (t + 1 * minute_ms ≤ 150_000)
sustained-Covers_example =
    sustained-Covers gap_reset_ms 720 1 later earlier (omega arith) (omega arith) later_minutes

no_companions : companions spike ≡ 0
unfolding companions
no_companions = refl

last_discount-between_example :
    AreLimited context (security_scan ∷ maintenance_update ∷ []) true miner (
      apply_context_multiplier context
        (calculate_indicators 5 default_weights miner pack)
        false
        false
        miner
        (security_scan ∷ maintenance_update ∷ [])
        true)
last_discount-between_example =
    last_discount-between context (calculate_indicators 5 default_weights miner pack) false false
      miner (security_scan ∷ maintenance_update ∷ []) true lowers (omega arith) (omega arith)
