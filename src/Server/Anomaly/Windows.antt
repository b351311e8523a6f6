-- ===== src/Server/Anomaly/Windows.antt =====
-- What ml_server/detector/anomaly_predictor.py says of calm and of bad samples.
use inha_rada.Common.{
  ℕ, ◌+◌, ◌<◌, ◌≡◌, refl, sym, ◌∙◌, subst, inl, inr, Bool, true, false, ◌&&◌, Option, none, some,
  List, [], ◌∷◌, arith, Option-cases, length, all, length-append, All, ℤ,
}
use inha_rada.Deque.{push, extend, last_n, extend-last_n, window_full, All-append_one, All-push}
use inha_rada.Server.Retraining.{Model}
use inha_rada.Server.Anomaly.Sign.{IsCalmScore, IsBadScore, is_below_zero-calm, is_below_zero-bad}
use inha_rada.Server.Anomaly.{
  score_window, ensemble_score, BoxplotSignal, Prediction, failed, predicted, Scores, is_below_zero,
  judged, predict_anomaly,
}

abbrev pub IsCalmReply : Option (ℤ × ℤ) → Type 0
IsCalmReply none = Unit
IsCalmReply (some (a, b)) = IsCalmScore (ensemble_score a b)

module _ {Feature Fitted : Type 0} (scores_of : Fitted → Option Feature → Option (ℤ × ℤ))
    (flags_of : Fitted → Option Feature → Option (Bool × Bool)) (m : Model Fitted) (n : ℕ) where
  -- A request: the features of its sample, and the client's own signal.
  abbrev Sample : Type 0
  Sample = Option Feature × BoxplotSignal

  -- The row after requests that met the model `m`.
  unfoldable pub observed : Scores → List Sample → Scores
  unfolding predict_anomaly
  observed st [] = st
  observed st ((f, bp) ∷ cs) = observed (predict_anomaly scores_of flags_of (some m) n f bp st).0 cs

  -- A sample to whose features the two models give a score together, and one below 0.
  unfoldable pub IsBad : Sample → Type 0
  IsBad (f, bp) =
      (a : ℤ) × (b : ℤ) × (scores_of m.fitted f ≡ some (a, b)) × IsBadScore (ensemble_score a b)

  -- A sample whose score is not below 0, or that the models cannot score.
  unfoldable pub IsCalm : Sample → Type 0
  IsCalm (f, bp) = IsCalmReply (scores_of m.fitted f)

  judged_anomaly :
      (f : Option Feature) (bp : BoxplotSignal) (a b : ℤ) (ss : List ℤ) (p : Prediction)
      → judged scores_of flags_of m f bp a b ss ≡ predicted p
      → p.is_anomaly ≡ (p.if_anomaly && (p.lof_anomaly && is_below_zero ss))
  unfolding judged
  judged_anomaly f bp a b ss p h = elim (Option-cases (flags_of m.fitted f)) [
    | inl e ↦ ground arith
    | inr (_, e) ↦ ground arith
  ]

  -- What is stored of a sample that the models score.
  scored :
      (f : Option Feature) (bp : BoxplotSignal) (st : Scores) (a b : ℤ)
      → scores_of m.fitted f ≡ some (a, b)
      → let (st', answer) = predict_anomaly scores_of flags_of (some m) n f bp st in
        (st'.scores ≡ push score_window st.scores (ensemble_score a b))
        × (answer ≡ judged scores_of flags_of m f bp a b st'.scores)
  unfolding predict_anomaly
  scored f bp st a b e = rw (predict_anomaly, e) (refl, refl)

  unscored :
      (f : Option Feature) (bp : BoxplotSignal) (st : Scores)
      → scores_of m.fitted f ≡ none
      → let (st', answer) = predict_anomaly scores_of flags_of (some m) n f bp st in
        (st'.scores ≡ st.scores) × (answer ≡ failed)
  unfolding predict_anomaly
  unscored f bp st e = rw (predict_anomaly, e) (refl, refl)

  -- A prediction is made from the scores that it leaves.
  predicted_anomaly :
      (f : Option Feature) (bp : BoxplotSignal) (st : Scores) (p : Prediction)
      → let (st', answer) = predict_anomaly scores_of flags_of (some m) n f bp st in
        answer ≡ predicted p
        → p.is_anomaly ≡ (p.if_anomaly && (p.lof_anomaly && is_below_zero st'.scores))
  predicted_anomaly f bp st p h = elim (Option-cases (scores_of m.fitted f)) [
    | inl e ↦ let (_, never) = unscored f bp st e in absurd (cc)
    | inr ((a, b), e) ↦
        let (_, same) = scored f bp st a b e in judged_anomaly f bp a b _ p (sym same ∙ h)
  ]

  next_calm :
      (f : Option Feature) (bp : BoxplotSignal) (st : Scores)
      → IsCalm (f, bp)
      → All IsCalmScore st.scores
      → All IsCalmScore (predict_anomaly scores_of flags_of (some m) n f bp st).0.scores
  unfolding IsCalm
  next_calm f bp st calm all = elim (Option-cases (scores_of m.fitted f)) [
    | inl e ↦ rw ((unscored f bp st e).0) all
    | inr ((a, b), e) ↦
        rw ((scored f bp st a b e).0)
          (All-push IsCalmScore score_window st.scores _ all (subst IsCalmReply e calm))
  ]

  observed-calm :
      (cs : List Sample) (st : Scores)
      → All IsCalm cs
      → All IsCalmScore st.scores
      → All IsCalmScore (observed st cs).scores
  unfolding observed
  observed-calm [] st calm all = all
  observed-calm ((f, bp) ∷ cs) st calm all =
      observed-calm cs _ calm.1 (next_calm f bp st calm.0 all)

  false_and : (a b : Bool) → (a && (b && false)) ≡ false
  false_and a b = ground arith

  -- While no stored score and no score of the samples since is below 0, no sample is called an
  -- anomaly, whatever both models say of it alone.
  pub predict_anomaly-IsCalm :
      (st : Scores) (cs : List Sample) (f : Option Feature) (bp : BoxplotSignal) (p : Prediction)
      → All IsCalmScore st.scores
      → All IsCalm cs
      → IsCalm (f, bp)
      → (predict_anomaly scores_of flags_of (some m) n f bp (observed st cs)).1 ≡ predicted p
      → p.is_anomaly ≡ false
  predict_anomaly-IsCalm st cs f bp p all calm now h =
      let before = observed-calm cs st calm all in
      rw
        (
          predicted_anomaly f bp (observed st cs) p h,
          is_below_zero-calm _ (next_calm f bp (observed st cs) now before),
        )
        (false_and p.if_anomaly p.lof_anomaly)

  -- The scores of bad samples.
  bad_scores : (cs : List Sample) → All IsBad cs → List ℤ
  unfolding IsBad
  bad_scores [] bad = []
  bad_scores (c ∷ cs) bad = ensemble_score bad.0.0 bad.0.1 ∷ bad_scores cs bad.1

  bad_scores-bad : (cs : List Sample) (bad : All IsBad cs) → All IsBadScore (bad_scores cs bad)
  unfolding bad_scores IsBad
  bad_scores-bad [] bad = tt
  bad_scores-bad (c ∷ cs) bad = (bad.0.3, bad_scores-bad cs bad.1)

  length-bad_scores :
      (cs : List Sample) (bad : All IsBad cs) → length (bad_scores cs bad) ≡ length cs
  unfolding bad_scores
  length-bad_scores [] bad = refl
  length-bad_scores (c ∷ cs) bad = omega (arith, length-bad_scores cs bad.1)

  observed-bad :
      (cs : List Sample) (bad : All IsBad cs) (st : Scores)
      → (observed st cs).scores ≡ extend score_window st.scores (bad_scores cs bad)
  unfolding observed bad_scores extend IsBad
  observed-bad [] bad st = refl
  observed-bad ((f, bp) ∷ cs) bad st =
      rw (observed-bad cs bad.1 _, (scored f bp st _ _ bad.0.2).0) refl

  -- After enough bad samples the window holds their scores alone.
  bad_window :
      (st : Scores) (h : List ℤ) (cs : List Sample) (f : Option Feature) (bp : BoxplotSignal)
      → st.scores ≡ last_n score_window h
      → length cs + 1 ≡ score_window
      → All IsBad cs
      → IsBad (f, bp)
      → let ss = (predict_anomaly scores_of flags_of (some m) n f bp (observed st cs)).0.scores in
        (0 < length ss) × All IsBadScore ss
  unfolding IsBad
  bad_window st h cs f bp held enough bad now =
      let ss = bad_scores cs bad in
      rw
        (
          (scored f bp (observed st cs) now.0 now.1 now.2).0,
          observed-bad cs bad st,
          held,
          extend-last_n score_window h ss,
          window_full score_window h ss (ensemble_score now.0 now.1)
              (omega (arith, length-bad_scores cs bad)),
        )
        (
          omega (arith, length-append ss (ensemble_score now.0 now.1 ∷ [])),
          All-append_one IsBadScore ss _ (bad_scores-bad cs bad) now.3,
        )

  true_last : (a b : Bool) → (a && (b && true)) ≡ (a && b)
  true_last a b = ground arith

  -- Once `score_window` bad samples in a row were scored, the last one is called an anomaly exactly
  -- when both models say so of it, whatever scores came before.
  pub predict_anomaly-bad :
      (st : Scores) (h : List ℤ) (cs : List Sample) (f : Option Feature) (bp : BoxplotSignal)
      → (p : Prediction) → st.scores ≡ last_n score_window h
      → length cs + 1 ≡ score_window
      → All IsBad cs
      → IsBad (f, bp)
      → (predict_anomaly scores_of flags_of (some m) n f bp (observed st cs)).1 ≡ predicted p
      → p.is_anomaly ≡ (p.if_anomaly && p.lof_anomaly)
  predict_anomaly-bad st h cs f bp p held enough bad now answer =
      let (long, all) = bad_window st h cs f bp held enough bad now in
      rw (predicted_anomaly f bp (observed st cs) p answer, is_below_zero-bad _ long all)
        (true_last p.if_anomaly p.lof_anomaly)
