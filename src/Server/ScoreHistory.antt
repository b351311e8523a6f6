-- ===== src/Server/ScoreHistory.antt =====
-- The rule scores of ml_server/storage/score_history_store.py, for one key (PC, slot). Scores are
-- counted in tenths of a point, and the weights 0.2 … 1.0 in fifths, so that an average is an exact
-- fraction.
pub mod Average
pub mod Decay
pub mod Spike
use inha_rada.Common.{ℕ, zero, suc, ◌+◌, ◌-◌, ◌*◌, max, List, [], ◌∷◌, leb, if◌then◌else◌, length}
use inha_rada.Deque.{push}

-- `total / weight`
pub record Mean : Type 0 where
  pub total : ℕ
  pub weight : ℕ

-- The entries of the two tables; an absent entry is an empty list and 0.
pub record RuleScores : Type 0 where
  pub history : List ℕ
  pub zero_streak : ℕ

abbrev pub no_scores : RuleScores
no_scores = record { history = []; zero_streak = 0 }

-- `max(0.2, 1.0 - 0.2 * (n - 1 - i))` in fifths, where `later` scores come after.
unfoldable pub weight_of : ℕ → ℕ
weight_of later = max 1 (5 - later)

unfoldable pub weights_sum : List ℕ → ℕ
unfolding weight_of
weights_sum [] = 0
weights_sum (s ∷ ss) = weight_of (length ss) + weights_sum ss

unfoldable pub weighted_sum : List ℕ → ℕ
unfolding weight_of
weighted_sum [] = 0
weighted_sum (s ∷ ss) = s * weight_of (length ss) + weighted_sum ss

unfoldable pub weighted_average : List ℕ → Mean
unfolding weighted_sum weights_sum
weighted_average [] = record { total = 0; weight = 1 }
weighted_average (s ∷ ss) = record { total = weighted_sum (s ∷ ss); weight = weights_sum (s ∷ ss) }

-- The fast decay: after `decay_n` scores of 0 in a row the history is cleared.
unfoldable pub decay : ℕ → ℕ → RuleScores → RuleScores
decay zero score st = st
decay (suc n) zero st =
    if leb (suc n) (st.zero_streak + 1)
    then record { history = []; zero_streak = 0 }
    else record st { zero_streak = st.zero_streak + 1 }
decay (suc n) (suc score) st = record st { zero_streak = 0 }

-- The state that `append_rule_score` leaves.
unfoldable pub appended : ℕ → ℕ → RuleScores → ℕ → RuleScores
unfolding decay push
appended decay_n maxlen st score =
    decay decay_n score (record st { history = push maxlen st.history score })

unfoldable pub append_rule_score : ℕ → ℕ → RuleScores → ℕ → RuleScores × Mean
unfolding appended weighted_average
append_rule_score decay_n maxlen st score =
    let st' = appended decay_n maxlen st score in (st', weighted_average st'.history)
