-- ===== src/Server/Anomaly.antt =====
-- `predict_anomaly` of ml_server/detector/anomaly_predictor.py, for one PC and slot. Scores are
-- counted in ten-thousandths and weights in fifths; what the fitted models answer is a parameter.
pub mod Sign
pub mod Windows
use inha_rada.Common.{
  ℕ, suc, ◌+◌, ◌*◌, Bool, ◌&&◌, ◌||◌, Option, none, some, List, [], ◌∷◌, length, ℤ, pos, negsuc,
  sub_ℕ, ◌+ℤ◌, ltb_ℤ,
}
use inha_rada.Deque.{push}
use inha_rada.Server.Counters.{Counters, model_predict_failure, increment}
use inha_rada.Server.Retraining.{lof_window_size, Model}
use inha_rada.Server.ScoreHistory.{weight_of}

-- `SCORE_WINDOW`
abbrev pub score_window : ℕ
score_window = 5

unfoldable pub scale : ℕ → ℤ → ℤ
scale k (pos n) = pos (k * n)
scale k (negsuc n) = sub_ℕ 0 (k * suc n)

-- `if_score * 0.6 + lof_score * 0.4`, in tenths
unfoldable pub ensemble_score : ℤ → ℤ → ℤ
unfolding scale
ensemble_score if_score lof_score = scale 6 if_score +ℤ scale 4 lof_score

unfoldable pub weighted_total : List ℤ → ℤ
unfolding scale weight_of
weighted_total [] = pos 0
weighted_total (s ∷ ss) = scale (weight_of (length ss)) s +ℤ weighted_total ss

unfoldable pub total_weight : List ℤ → ℕ
unfolding weight_of
total_weight [] = 0
total_weight (s ∷ ss) = weight_of (length ss) + total_weight ss

-- `metrics.boxplot_signal`, a missing key as false
pub record BoxplotSignal : Type 0 where
  pub available : Bool
  pub cpu_iqr_outlier : Bool
  pub mem_iqr_outlier : Bool

-- The dictionary of an answer; `weighted_score` is `total / weight`, and not rounded.
pub record Prediction : Type 0 where
  pub is_anomaly : Bool
  pub if_score : ℤ
  pub lof_score : ℤ
  pub total : ℤ
  pub weight : ℕ
  pub if_anomaly : Bool
  pub lof_anomaly : Bool
  pub boxplot_flag : Bool
  pub sample_count : ℕ
  pub lof_window_size : ℕ

-- An answer with `available` false counts the samples so far, or reports an exception.
pub data Answer : Type 0 where
  collecting : ℕ → Answer
  failed : Answer
  predicted : Prediction → Answer

-- The row of `pc_score_history`, empty where it is missing, and the counters.
pub record Scores : Type 0 where
  pub scores : List ℤ
  pub counters : Counters

-- Whether the average of the scores is below 0: their weights are positive.
unfoldable pub is_below_zero : List ℤ → Bool
unfolding weighted_total
is_below_zero ss = ltb_ℤ (weighted_total ss) (pos 0)

module _ {Feature Fitted : Type 0} (scores_of : Fitted → Option Feature → Option (ℤ × ℤ))
    (flags_of : Fitted → Option Feature → Option (Bool × Bool)) where
  -- After the score was stored: `flags_of` gives the two models' `predict(...) == -1`.
  unfoldable pub judged : Model Fitted → Option Feature → BoxplotSignal → ℤ → ℤ → List ℤ → Answer
  unfolding is_below_zero total_weight
  judged m features bp if_score lof_score ss = elim (flags_of m.fitted features) [
    | none ↦ failed
    | some (if_anomaly, lof_anomaly) ↦ predicted (record {
      is_anomaly = if_anomaly && (lof_anomaly && is_below_zero ss);
      if_score = if_score;
      lof_score = lof_score;
      total = weighted_total ss;
      weight = total_weight ss;
      if_anomaly = if_anomaly;
      lof_anomaly = lof_anomaly;
      boxplot_flag = bp.available && (bp.cpu_iqr_outlier || bp.mem_iqr_outlier);
      sample_count = m.sample_count;
      lof_window_size = m.lof_size;
    })
  ]

  unfoldable pub count_failure : Answer → Counters → Counters
  unfolding increment
  count_failure failed c = increment c model_predict_failure 1
  count_failure (collecting n) c = c
  count_failure (predicted p) c = c

  -- `trained_on` is the length of the training history; `scores_of` gives the two models' decisions.
  unfoldable pub predict_anomaly :
      Option (Model Fitted) → ℕ → Option Feature → BoxplotSignal → Scores → Scores × Answer
  unfolding judged count_failure ensemble_score push
  predict_anomaly none trained_on features bp st = (st, collecting trained_on)
  predict_anomaly (some m) trained_on features bp st = elim (scores_of m.fitted features) [
    | none ↦ (record st { counters = count_failure failed st.counters }, failed)
    | some (if_score, lof_score) ↦
        let ss = push score_window st.scores (ensemble_score if_score lof_score) in
        let answer = judged m features bp if_score lof_score ss in
        (record { scores = ss; counters = count_failure answer st.counters }, answer)
  ]
