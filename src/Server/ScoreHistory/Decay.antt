-- ===== src/Server/ScoreHistory/Decay.antt =====
-- Scores of 0 in a row in `append_rule_score` of ml_server/storage/score_history_store.py.
use inha_rada.Common.{
  ℕ, zero, suc, ◌+◌, ◌*◌, ◌≤◌, ◌≡◌, refl, sym, ap, ◌∙◌, subst, ◌⊎◌, inl, inr, List, [], ◌∷◌, ◌++◌,
  append-nil, append_assoc, arith, leb, if-intro, length, drop, length-append, All,
}
use native.Mathlib.Nat.{zero-mul}
use inha_rada.Deque.{push, length-push-le}
use inha_rada.Server.ScoreHistory.{
  RuleScores, weight_of, weighted_sum, weighted_average, decay, appended,
}

abbrev AllZero : List ℕ → Type 0
AllZero = All (λ x. x ≡ 0)

AllZero-snoc : (xs : List ℕ) → AllZero xs → AllZero (xs ++ 0 ∷ [])
AllZero-snoc [] a = (refl, tt)
AllZero-snoc (x ∷ xs) a = (a.0, AllZero-snoc xs a.1)

AllZero-tail : (xs : List ℕ) → AllZero xs → AllZero (drop 1 xs)
AllZero-tail [] a = a
AllZero-tail (x ∷ xs) a = a.1

-- The history ends in at least `j` zeros, or holds nothing else.
Fading : ℕ → List ℕ → Type 0
Fading j h =
    (old : List ℕ) × (zeros : List ℕ) × (h ≡ old ++ zeros)
    × AllZero zeros
    × ((old ≡ []) ⊎ (j ≤ length zeros))

AllZero-Fading : (j : ℕ) (h : List ℕ) → AllZero h → Fading j h
unfolding Fading
AllZero-Fading j h a = ([], h, refl, a, inl refl)

push-AllZero : (m : ℕ) (h : List ℕ) → AllZero h → AllZero (push m h 0)
unfolding push
push-AllZero m h a =
    if-intro AllZero (leb m (length h)) (λ _. AllZero-tail (h ++ 0 ∷ []) (AllZero-snoc h a))
      (λ _. AllZero-snoc h a)

push-Fading : (m j : ℕ) (h : List ℕ) → Fading j h → Fading (suc j) (push m h 0)
unfolding Fading push
push-Fading m j h ([], zeros, e, a, d) =
    AllZero-Fading (suc j) (push m h 0) (push-AllZero m h (subst AllZero (sym e) a))
push-Fading m j h (x ∷ old, zeros, e, a, d) =
    if-intro (Fading (suc j)) (leb m (length h))
      (λ _. (
        old,
        zeros ++ 0 ∷ [],
        ap (λ l. drop 1 (l ++ 0 ∷ [])) e ∙ append_assoc old zeros (0 ∷ []),
        AllZero-snoc zeros a,
        inr longer,
      ))
      (λ _. (
        x ∷ old,
        zeros ++ 0 ∷ [],
        ap (λ l. l ++ 0 ∷ []) e ∙ append_assoc (x ∷ old) zeros (0 ∷ []),
        AllZero-snoc zeros a,
        inr longer,
      ))
  where
    longer : suc j ≤ length (zeros ++ 0 ∷ [])
    longer = elim d [
      | inl none_old ↦ absurd (cc (none_old))
      | inr enough ↦ omega (arith, length-append zeros (0 ∷ []))
    ]

appended-Fading :
    (d m j : ℕ) (st : RuleScores)
    → length st.history ≤ m
    → Fading j st.history
    → Fading (suc j) (appended d m st 0).history × (length (appended d m st 0).history ≤ m)
unfolding appended decay
appended-Fading zero m j st le f = (push-Fading m j st.history f, length-push-le m st.history 0 le)
appended-Fading (suc d) m j st le f =
    if-intro {A = RuleScores} (λ s. Fading (suc j) s.history × (length s.history ≤ m))
      (leb (suc d) (st.zero_streak + 1)) (λ _. (AllZero-Fading (suc j) [] tt, omega arith))
      (λ _. (push-Fading m j st.history f, length-push-le m st.history 0 le))

-- The state after `n` scores of 0.
abbrev pub zeros_appended : ℕ → ℕ → RuleScores → ℕ → RuleScores
zeros_appended d m st zero = st
zeros_appended d m st (suc n) = appended d m (zeros_appended d m st n) 0

zeros-Fading :
    (d m : ℕ) (st : RuleScores) (n : ℕ)
    → length st.history ≤ m
    → Fading n (zeros_appended d m st n).history × (length (zeros_appended d m st n).history ≤ m)
unfolding Fading
zeros-Fading d m st zero le =
    ((st.history, [], sym (append-nil st.history), tt, inr (omega arith)), le)
zeros-Fading d m st (suc n) le =
    let (f, l) = zeros-Fading d m st n le in appended-Fading d m n (zeros_appended d m st n) l f

weighted_sum-AllZero : (ss : List ℕ) → AllZero ss → weighted_sum ss ≡ 0
unfolding weighted_sum
weighted_sum-AllZero [] a = refl
weighted_sum-AllZero (s ∷ ss) a =
    ap (λ x. x * weight_of (length ss) + weighted_sum ss) a.0
    ∙ omega (arith, zero-mul (weight_of (length ss)), weighted_sum-AllZero ss a.1)

total-AllZero : (ss : List ℕ) → AllZero ss → (weighted_average ss).total ≡ 0
unfolding weighted_average
total-AllZero [] a = refl
total-AllZero (s ∷ ss) a = weighted_sum-AllZero (s ∷ ss) a

Fading-AllZero : (m : ℕ) (h : List ℕ) → length h ≤ m → Fading m h → AllZero h
unfolding Fading
Fading-AllZero m h le ([], zeros, e, a, d) = subst AllZero (sym e) a
Fading-AllZero m h le (x ∷ old, zeros, e, a, inl bad) = absurd (cc (bad))
Fading-AllZero m h le (x ∷ old, zeros, e, a, inr enough) =
    absurd (omega (arith, length-append (x ∷ old) zeros, ap (λ l. length l) e))

-- Where the history is within its window, as many scores of 0 as the window holds bring the average back to 0, whatever came before and
-- whatever the setting of the fast decay.
pub zeros_average :
    (d m : ℕ) (st : RuleScores)
    → length st.history ≤ m
    → (weighted_average (zeros_appended d m st m).history).total ≡ 0
zeros_average d m st le =
    let (f, l) = zeros-Fading d m st m le in
    total-AllZero (zeros_appended d m st m).history
      (Fading-AllZero m (zeros_appended d m st m).history l f)
