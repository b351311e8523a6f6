-- ===== src/Tests/Rows.antt =====
-- The theorem on the rows kept for training at concrete inputs.
use inha_rada.Common.{
  ℕ, ◌*◌, ◌+ℤ◌, ◌≤◌, min, ◌≡◌, refl, ◌||◌, List, [], ◌∷◌, ◌++◌, leb, if◌then◌else◌, ◌==◌, length,
  take, replicate, length-take, arith, ℤ, pos,
}
use inha_rada.Server.Boxplot.{filter_training_data}
use inha_rada.Server.Boxplot.Size.{outlier_count, filter_training_data-large}

abbrev quartile : List ℤ → ℕ → ℤ
quartile col k = if k == 25 then pos 10 else pos 20

abbrev first_ones : List ℕ → ℕ → List ℕ
first_ones is k = take k is

draws : (is : List ℕ) (k : ℕ) → k ≤ length is → length (first_ones is k) ≡ k
draws is k h = omega (arith, length-take k is)

abbrev table : List (List ℤ)
table = replicate 64 (pos 15 ∷ []) ++ (pos 90 ∷ []) ∷ (pos 36 ∷ []) ∷ []

filter_training_data-large_example :
    let kept = filter_training_data quartile first_ones 1 table in
    let outliers = outlier_count quartile first_ones 1 table in
    (length kept ≡ (if leb outliers 0 then 66 else min 66 (4 * outliers)))
    × (leb 60 (length kept) ≡ (leb outliers 0 || leb 15 outliers))
filter_training_data-large_example =
    filter_training_data-large quartile first_ones 1 table draws (omega arith)

two_outliers : length (filter_training_data quartile first_ones 1 table) ≡ 8
unfolding filter_training_data ◌+ℤ◌
two_outliers = refl
