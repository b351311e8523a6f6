-- ===== src/Server/Retraining/Schedule.antt =====
-- When a model of ml_server/scheduler/retraining_scheduler.py is trained again, and when no more.
use inha_rada.Common.{
  ℕ, suc, ◌+◌, ◌*◌, ◌/◌, ◌≤◌, ◌<◌, min, ◌≡◌, refl, sym, ap, ◌∙◌, subst, false, ◌&&◌, Option, none,
  some, List, [], ◌∷◌, ◌++◌, arith, ltb, leb, if◌then◌else◌, length, All,
}
use inha_rada.Deque.{push, last_n, length-push, All-push}
use inha_rada.Server.Counters.{Counters}
use inha_rada.Server.Retraining.{
  Training, features_of, get_sample_count, train_model, maybe_retrain, update_train_history,
  on_sample, trained,
}

-- The row of a PC that sent nothing.
abbrev pub untrained : {Snap Fitted : Type 0} → Training Snap Fitted
untrained = record { history = []; model = none }

module _ {Snap Feature Fitted : Type 0} (extract : Snap → Option Feature)
    (fit : List Feature → List Feature → Option Fitted) where
  abbrev pub HasFeatures : Snap → Type 0
  HasFeatures s = (f : Feature) × (extract s ≡ some f)

  -- Fitting never raises an exception.
  abbrev pub AlwaysFits : Type 0
  AlwaysFits = (xs ys : List Feature) → (f : Fitted) × (fit xs ys ≡ some f)

  length-features_of :
      (h : List Snap) → All HasFeatures h → length (features_of extract h) ≡ length h
  unfolding features_of
  length-features_of [] a = refl
  length-features_of (s ∷ ss) a = rw (features_of, a.0.1) (ap suc (length-features_of ss a.1))

  train_model-count :
      (t : Training Snap Fitted) (c : Counters)
      → AlwaysFits
      → All HasFeatures t.history
      → ltb (length t.history) 60 ≡ false
      → get_sample_count (train_model extract fit t c).0.model ≡ length t.history
  unfolding train_model get_sample_count
  train_model-count t c fits a long =
      let rows = features_of extract t.history in
      let e = length-features_of t.history a in
      let long' : ltb (length rows) 60 ≡ false = rw e long in
      rw (long, long', (fits rows (last_n 240 rows)).1) e

  train_model-history :
      (t : Training Snap Fitted) (c : Counters)
      → (train_model extract fit t c).0.history ≡ t.history
  unfolding train_model
  train_model-history t c = ground arith

  maybe_retrain-history :
      (t : Training Snap Fitted) (c : Counters)
      → (maybe_retrain extract fit t c).0.history ≡ t.history
  unfolding maybe_retrain
  maybe_retrain-history t c = ground (arith, train_model-history t c)

  maybe_retrain-count :
      (t : Training Snap Fitted) (c : Counters)
      → AlwaysFits
      → All HasFeatures t.history
      → get_sample_count (maybe_retrain extract fit t c).0.model ≡ (
          if leb 60 (length t.history) && leb (get_sample_count t.model + 60) (length t.history)
          then length t.history
          else get_sample_count t.model)
  unfolding maybe_retrain
  maybe_retrain-count t c fits a = ground (arith, train_model-count t c fits a)

  -- What holds of the row after `n` requests.
  record IsOnSchedule (n : ℕ) (t : Training Snap Fitted) : Type 0 where
    kept : length t.history ≡ min n 720
    usable : All HasFeatures t.history
    counted : get_sample_count t.model ≡ min n 720 / 60 * 60

  on_sample-IsOnSchedule :
      (n : ℕ) (t : Training Snap Fitted) (c : Counters) (s : Snap)
      → AlwaysFits
      → HasFeatures s
      → IsOnSchedule n t
      → IsOnSchedule (suc n) (on_sample extract fit t c s).0
  unfolding on_sample update_train_history
  on_sample-IsOnSchedule n t c s fits f i =
      let t' = record t { history = push 720 t.history s } in
      let l = length-push 720 t.history s in
      let a = All-push HasFeatures 720 t.history s i.usable f in
      let h = maybe_retrain-history t' c in
      let k = i.kept in
      let g = i.counted in
      record {
        kept = ground (arith, h, l, k);
        usable = subst (All HasFeatures) (sym h) a;
        counted = ground (arith, maybe_retrain-count t' c fits a, l, k, g);
      }

  trained-IsOnSchedule :
      (n : ℕ) (t : Training Snap Fitted) (c : Counters) (ss : List Snap)
      → AlwaysFits
      → All HasFeatures ss
      → IsOnSchedule n t
      → IsOnSchedule (n + length ss) (trained extract fit t c ss).0
  unfolding trained
  trained-IsOnSchedule n t c [] fits a i = subst (λ k. IsOnSchedule k t) {x = n} (omega arith) i
  trained-IsOnSchedule n t c (s ∷ ss) fits a i =
      let next = on_sample extract fit t c s in
      subst (λ k. IsOnSchedule k (trained extract fit next.0 next.1 ss).0) (omega arith)
        (trained-IsOnSchedule (suc n) next.0 next.1 ss fits a.1
          (on_sample-IsOnSchedule n t c s fits a.0 i))

  untrained-IsOnSchedule : IsOnSchedule 0 untrained
  unfolding get_sample_count
  untrained-IsOnSchedule = record { kept = omega arith; usable = tt; counted = omega arith }

  from_untrained :
      (c : Counters) (ss : List Snap)
      → AlwaysFits
      → All HasFeatures ss
      → IsOnSchedule (length ss) (trained extract fit untrained c ss).0
  from_untrained c ss fits a =
      subst (λ k. IsOnSchedule k (trained extract fit untrained c ss).0) {x = 0 + length ss}
        (omega arith) (trained-IsOnSchedule 0 untrained c ss fits a untrained-IsOnSchedule)

  -- Where the features of every sample can be computed and fitting never fails, the model after
  -- any requests was trained on the greatest multiple of 60 samples that the requests reach, and
  -- on no more than 720.
  pub trained-sample_count :
      (c : Counters) (ss : List Snap)
      → AlwaysFits
      → All HasFeatures ss
      → get_sample_count (trained extract fit untrained c ss).0.model
        ≡ min (length ss) 720 / 60 * 60
  trained-sample_count c ss fits a = (from_untrained c ss fits a).counted

  -- A row whose model can no longer be due.
  IsStale : Training Snap Fitted → Type 0
  IsStale t = (length t.history ≤ 720) × (720 < get_sample_count t.model + 60)

  on_sample-stale :
      (t : Training Snap Fitted) (c : Counters) (s : Snap)
      → IsStale t
      → ((on_sample extract fit t c s).0.model ≡ t.model)
        × (length (on_sample extract fit t c s).0.history ≤ 720)
  unfolding on_sample update_train_history maybe_retrain IsStale
  on_sample-stale t c s h = ground (arith, length-push 720 t.history s)

  trained-stale :
      (t : Training Snap Fitted) (c : Counters) (ss : List Snap)
      → IsStale t
      → (trained extract fit t c ss).0.model ≡ t.model
  unfolding trained IsStale
  trained-stale t c [] h = refl
  trained-stale t c (s ∷ ss) h =
      let (same, short) = on_sample-stale t c s h in
      let next = on_sample extract fit t c s in
      trained-stale next.0 next.1 ss (short, rw same h.1) ∙ same

  trained-append :
      (t : Training Snap Fitted) (c : Counters) (xs ys : List Snap)
      → trained extract fit t c (xs ++ ys)
        ≡ trained extract fit (trained extract fit t c xs).0 (trained extract fit t c xs).1 ys
  unfolding trained
  trained-append t c [] ys = refl
  trained-append t c (x ∷ xs) ys =
      let next = on_sample extract fit t c x in trained-append next.0 next.1 xs ys

  -- Where the features of every sample can be computed and fitting never fails, the model that
  -- stands after the first 720 requests or more stays for good: no later request, whatever it
  -- holds, trains another.
  pub trained-model_stays :
      (c : Counters) (ss more : List Snap)
      → AlwaysFits
      → All HasFeatures ss
      → 720 ≤ length ss
      → (trained extract fit untrained c (ss ++ more)).0.model
        ≡ (trained extract fit untrained c ss).0.model
  unfolding IsStale
  trained-model_stays c ss more fits a full =
      let done = trained extract fit untrained c ss in
      let i = from_untrained c ss fits a in
      let k = i.kept in
      let g = i.counted in
      ap (λ r. r.0.model) (trained-append untrained c ss more)
      ∙ trained-stale done.0 done.1 more (omega (arith, k), omega (arith, g))
