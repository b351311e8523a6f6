-- ===== src/Tests/Predictions.antt =====
-- The theorems on the predictions of the fitted models at concrete inputs.
use inha_rada.Common.{
  ℕ, zero, suc, ◌≡◌, refl, Bool, true, false, ◌&&◌, Option, none, some, List, [], ◌∷◌, pos, negsuc,
  ℤ, ◌+ℤ◌, arith,
}
use inha_rada.Deque.{last_n}
use inha_rada.Server.Counters.{no_failures}
use inha_rada.Server.Retraining.{Model}
use inha_rada.Server.Anomaly.{
  BoxplotSignal, Prediction, predicted, Scores, predict_anomaly, score_window, ensemble_score,
}
use inha_rada.Server.Anomaly.Windows.{
  observed, IsBad, IsCalm, predict_anomaly-IsCalm, predict_anomaly-bad,
}

-- The feature 0 stands for a usual sample, and every other one for an unusual one.
abbrev scores : ℕ → Option ℕ → Option (ℤ × ℤ)
scores fitted none = none
scores fitted (some zero) = some (pos 1200, pos 900)
scores fitted (some (suc n)) = some (negsuc 799, negsuc 399)

abbrev flags : ℕ → Option ℕ → Option (Bool × Bool)
flags fitted f = some (true, true)

abbrev model : Model ℕ
model = record { fitted = 0; sample_count = 60; lof_size = 60 }

abbrev quiet : BoxplotSignal
quiet = record { available = false; cpu_iqr_outlier = false; mem_iqr_outlier = false }

abbrev row : Scores
row = record { scores = pos 50 ∷ pos 70 ∷ []; counters = no_failures }

abbrev bad : Option ℕ × BoxplotSignal
bad = (some 1, quiet)

bad-IsBad : IsBad scores flags model 60 bad
unfolding IsBad ensemble_score ◌+ℤ◌
bad-IsBad = (negsuc 799, negsuc 399, refl, omega arith)

abbrev usual_prediction : Prediction
usual_prediction = record {
  is_anomaly = false;
  if_score = pos 1200;
  lof_score = pos 900;
  total = pos 97510;
  weight = 14;
  if_anomaly = true;
  lof_anomaly = true;
  boxplot_flag = false;
  sample_count = 60;
  lof_window_size = 60;
}

abbrev bad_prediction : Prediction
bad_prediction = record {
  is_anomaly = true;
  if_score = negsuc 799;
  lof_score = negsuc 399;
  total = negsuc 95999;
  weight = 15;
  if_anomaly = true;
  lof_anomaly = true;
  boxplot_flag = false;
  sample_count = 60;
  lof_window_size = 60;
}

abbrev usual : Option ℕ × BoxplotSignal
usual = (some 0, quiet)

usual_answer :
    (predict_anomaly scores flags
      (some model)
      60
      (some 0)
      quiet
      (observed scores flags model 60 row (usual ∷ []))).1
    ≡ predicted usual_prediction
unfolding predict_anomaly observed ◌+ℤ◌
usual_answer = refl

usual-IsCalm : IsCalm scores flags model 60 usual
unfolding IsCalm ensemble_score ◌+ℤ◌
usual-IsCalm = omega arith

predict_anomaly-IsCalm_example : usual_prediction.is_anomaly ≡ false
predict_anomaly-IsCalm_example =
    predict_anomaly-IsCalm scores flags model 60 row (usual ∷ []) (some 0) quiet usual_prediction
      (omega arith, (omega arith, tt)) (usual-IsCalm, tt) usual-IsCalm usual_answer

abbrev bads : List (Option ℕ × BoxplotSignal)
bads = bad ∷ bad ∷ bad ∷ bad ∷ []

bad_answer :
    (predict_anomaly scores flags
      (some model)
      60
      (some 1)
      quiet
      (observed scores flags model 60 row bads)).1
    ≡ predicted bad_prediction
unfolding predict_anomaly observed ◌+ℤ◌
bad_answer = refl

row_window : row.scores ≡ last_n score_window (pos 50 ∷ pos 70 ∷ [])
unfolding last_n
row_window = refl

predict_anomaly-bad_example :
    bad_prediction.is_anomaly ≡ (bad_prediction.if_anomaly && bad_prediction.lof_anomaly)
predict_anomaly-bad_example =
    predict_anomaly-bad scores flags model 60 row (pos 50 ∷ pos 70 ∷ []) bads (some 1) quiet
      bad_prediction row_window (omega arith) (bad-IsBad, (bad-IsBad, (bad-IsBad, (bad-IsBad, tt))))
      bad-IsBad bad_answer
