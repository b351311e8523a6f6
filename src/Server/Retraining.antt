-- ===== src/Server/Retraining.antt =====
-- The training history and the models of one PC and slot: `update_train_history` of
-- ml_server/storage/pc_history_store.py, `train_model` of ml_server/detector/anomaly_predictor.py,
-- ml_server/storage/model_store.py and ml_server/scheduler/retraining_scheduler.py. Fitting is the
-- library's: a parameter.
pub mod Schedule
use inha_rada.Common.{
  ℕ, ◌+◌, Bool, true, false, ◌&&◌, Option, none, some, List, [], ◌∷◌, ltb, leb, if◌then◌else◌,
  length,
}
use inha_rada.Deque.{push, last_n}
use inha_rada.Server.Counters.{Counters, model_train_failure, increment}

-- `TRAIN_WINDOW`, `MIN_TRAIN_SIZE`, `RETRAIN_INTERVAL`, `LOF_WINDOW_SIZE`
abbrev pub train_window : ℕ
train_window = 720

abbrev pub min_train_size : ℕ
min_train_size = 60

abbrev pub retrain_interval : ℕ
retrain_interval = 60

abbrev pub lof_window_size : ℕ
lof_window_size = 240

-- The dictionary `new_model`; `fitted` stands for the scaler and the two fitted models.
pub record Model (Fitted : Type 0) : Type 0 where
  pub fitted : Fitted
  pub sample_count : ℕ
  pub lof_size : ℕ

-- The rows of `pc_train_history` and `pc_models` for one PC and slot.
pub record Training (Snap Fitted : Type 0) : Type 0 where
  pub history : List Snap
  pub model : Option (Model Fitted)

module _ {Snap Feature : Type 0} (extract : Snap → Option Feature) where
  -- The rows `X_raw`: a snapshot whose features cannot be computed is left out.
  unfoldable pub features_of : List Snap → List Feature
  features_of [] = []
  features_of (s ∷ ss) = elim (extract s) [ none ↦ features_of ss | some f ↦ f ∷ features_of ss ]

-- `get_sample_count`
unfoldable pub get_sample_count : {Fitted : Type 0} → Option (Model Fitted) → ℕ
get_sample_count none = 0
get_sample_count (some m) = m.sample_count

-- `fit` scales the rows and fits both models, the second one to the rows that it is given behind
-- the first; `none` is an exception.
module _ {Snap Feature Fitted : Type 0} (extract : Snap → Option Feature)
    (fit : List Feature → List Feature → Option Fitted) where
  -- `train_model`: the new row, the counters, and whether a model was stored.
  unfoldable pub train_model :
      Training Snap Fitted → Counters → Training Snap Fitted × Counters × Bool
  unfolding features_of last_n increment
  train_model t c =
      let rows = features_of extract t.history in
      let lof_train = last_n lof_window_size rows in
      if ltb (length t.history) min_train_size
      then (t, c, false)
      else if ltb (length rows) min_train_size
      then (t, c, false)
      else elim (fit rows lof_train) [
        | none ↦ (t, increment c model_train_failure 1, false)
        | some f ↦
            let new_model : Model Fitted = record {
              fitted = f;
              sample_count = length rows;
              lof_size = length lof_train;
            } in
            (record t { model = some new_model }, c, true)
      ]

  -- `maybe_retrain`: `train_size - last_count >= RETRAIN_INTERVAL` on integers.
  unfoldable pub maybe_retrain :
      Training Snap Fitted → Counters → Training Snap Fitted × Counters × Bool
  unfolding train_model get_sample_count
  maybe_retrain t c =
      if leb min_train_size (length t.history)
        && leb (get_sample_count t.model + retrain_interval) (length t.history)
      then train_model t c
      else (t, c, false)

  unfoldable pub update_train_history : Training Snap Fitted → Snap → Training Snap Fitted
  unfolding push
  update_train_history t s = record t { history = push train_window t.history s }

  -- What a request does to the row: it stores the snapshot, then it may retrain.
  unfoldable pub on_sample :
      Training Snap Fitted → Counters → Snap → Training Snap Fitted × Counters × Bool
  unfolding update_train_history maybe_retrain
  on_sample t c s = maybe_retrain (update_train_history t s) c

  -- The row after requests.
  unfoldable pub trained :
      Training Snap Fitted → Counters → List Snap → Training Snap Fitted × Counters
  unfolding on_sample
  trained t c [] = (t, c)
  trained t c (s ∷ ss) = let (t', c', _) = on_sample t c s in trained t' c' ss
