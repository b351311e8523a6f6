-- ===== src/Server/ScoreHistory/Spike.antt =====
-- The score that follows zeros in `append_rule_score` of ml_server/storage/score_history_store.py.
use inha_rada.Common.{
  ℕ, zero, suc, ◌+◌, ◌*◌, ◌≤◌, ◌<◌, ◌≡◌, refl, sym, subst, List, [], ◌∷◌, arith, leb, if-intro,
  leb→le, le→leb, length,
}
use inha_rada.Deque.{push}
use inha_rada.Server.ScoreHistory.{
  RuleScores, no_scores, weight_of, weights_sum, weighted_sum, weighted_average, decay, appended,
  append_rule_score,
}
use inha_rada.Server.ScoreHistory.Decay.{zeros_appended}

streak_counts :
    (d m k : ℕ) (st : RuleScores)
    → st.zero_streak ≡ 0
    → k ≤ d
    → (zeros_appended (suc d) m st k).zero_streak ≡ k
unfolding appended decay
streak_counts d m zero st e le = e
streak_counts d m (suc k) st e le =
    if-intro {A = RuleScores} (λ s. s.zero_streak ≡ suc k)
      (leb (suc d) ((zeros_appended (suc d) m st k).zero_streak + 1))
      (λ h. absurd (omega (arith, leb→le _ _ h, streak_counts d m k st e (omega arith))))
      (λ _. omega (arith, streak_counts d m k st e (omega arith)))

decay_clears :
    (d m : ℕ) (st : RuleScores)
    → st.zero_streak ≡ 0
    → zeros_appended (suc d) m st (suc d) ≡ no_scores
unfolding appended decay
decay_clears d m st e =
    rw
      (le→leb (suc d) ((zeros_appended (suc d) m st d).zero_streak + 1)
        (omega (arith, streak_counts d m d st e (omega arith))))
      refl

single_average :
    (s : ℕ) → (weighted_average (s ∷ [])).total ≡ s * (weighted_average (s ∷ [])).weight
unfolding weighted_average weighted_sum weights_sum weight_of
single_average s = omega arith

push-nil : (m s : ℕ) → 0 < m → push m [] s ≡ s ∷ []
unfolding push
push-nil m s positive = ground arith

first_score :
    (d m s : ℕ)
    → 0 < m
    → let a = (append_rule_score (suc d) m no_scores s).1 in a.total ≡ s * a.weight
unfolding append_rule_score appended decay
first_score d m (suc s) positive =
    subst (λ h. (weighted_average h).total ≡ suc s * (weighted_average h).weight)
      (sym (push-nil m (suc s) positive)) (single_average (suc s))
first_score d m zero positive =
    if-intro {A = RuleScores}
      (λ t. (weighted_average t.history).total ≡ 0 * (weighted_average t.history).weight)
      (leb (suc d) 1) (λ _. unfold weighted_average in refl)
      (λ _.
        subst (λ h. (weighted_average h).total ≡ 0 * (weighted_average h).weight)
          (sym (push-nil m 0 positive)) (single_average 0))

-- In a window of positive size, where the fast decay after `suc d` zeros is on and none has been
-- counted yet, a score that follows so many zeros is returned at its full value.
pub append_rule_score-cleared :
    (d m s : ℕ) (st : RuleScores)
    → 0 < m
    → st.zero_streak ≡ 0
    → let a = (append_rule_score (suc d) m (zeros_appended (suc d) m st (suc d)) s).1 in
      a.total ≡ s * a.weight
unfolding append_rule_score
append_rule_score-cleared d m s st positive e =
    subst (λ t. let a = (append_rule_score (suc d) m t s).1 in a.total ≡ s * a.weight)
      (sym (decay_clears d m st e)) (first_score d m s positive)

-- Without the fast decay, a score that follows five zeros in a window of five, whatever it held
-- before, is returned at a third of its value.
pub append_rule_score-smoothed :
    (s : ℕ) (st : RuleScores)
    → length st.history ≤ 5
    → let a = (append_rule_score 0 5 (zeros_appended 0 5 st 5) s).1 in 3 * a.total ≡ s * a.weight
unfolding append_rule_score appended decay push weighted_average weighted_sum weights_sum weight_of
append_rule_score-smoothed s st le = go st.history le
  where
    go :
        (h : List ℕ)
        → length h ≤ 5
        → let a =
            (append_rule_score 0 5
              (zeros_appended 0 5 (record { history = h; zero_streak = st.zero_streak }) 5)
              s).1 in
          3 * a.total ≡ s * a.weight
    go [] le = omega arith
    go (a ∷ []) le = omega arith
    go (a ∷ b ∷ []) le = omega arith
    go (a ∷ b ∷ c ∷ []) le = omega arith
    go (a ∷ b ∷ c ∷ d ∷ []) le = omega arith
    go (a ∷ b ∷ c ∷ d ∷ e ∷ []) le = omega arith
    go (a ∷ b ∷ c ∷ d ∷ e ∷ f ∷ h) le = absurd (omega arith)
