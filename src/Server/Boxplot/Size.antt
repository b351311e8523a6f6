-- ===== src/Server/Boxplot/Size.antt =====
-- How many rows ml_server/feature/boxplot_filter.py keeps.
use inha_rada.Common.{
  ℕ, suc, ◌+◌, ◌*◌, ◌≤◌, min, ◌≡◌, refl, ap, ◌∙◌, inl, inr, Bool, true, false, not, ◌||◌, List, [],
  ◌∷◌, map, arith, leb, if◌then◌else◌, Bool-cases, length, count_if, length-append, ℤ,
}
use inha_rada.Server.Boxplot.{
  row_at, where_from, insert_index, sort_indices, selected, is_outlier, filter_training_data,
}

length-where_from : (i : ℕ) (bs : List Bool) → length (where_from i bs) ≡ count_if (λ b. b) bs
unfolding where_from count_if
length-where_from i [] = refl
length-where_from i (true ∷ bs) = omega (arith, length-where_from (suc i) bs)
length-where_from i (false ∷ bs) = length-where_from (suc i) bs

count_if-map {ℓ} :
    {A : Type ℓ} (p : A → Bool) (xs : List A) → count_if (λ b. b) (map p xs) ≡ count_if p xs
unfolding count_if
count_if-map p [] = refl
count_if-map p (x ∷ xs) = elim (Bool-cases (p x)) [
  | inl y ↦ rw (count_if, y, count_if-map p xs)
  | inr n ↦ rw (count_if, n, count_if-map p xs)
]

count_if-not : (bs : List Bool) → count_if (λ b. b) (map not bs) + count_if (λ b. b) bs ≡ length bs
unfolding count_if
count_if-not [] = refl
count_if-not (true ∷ bs) = omega (arith, count_if-not bs)
count_if-not (false ∷ bs) = omega (arith, count_if-not bs)

length-map {ℓ κ} :
    {A : Type ℓ} {B : Type κ} (f : A → B) (xs : List A) → length (map f xs) ≡ length xs
length-map f [] = refl
length-map f (x ∷ xs) = ap suc (length-map f xs)

length-insert_index : (i : ℕ) (js : List ℕ) → length (insert_index i js) ≡ suc (length js)
unfolding insert_index
length-insert_index i [] = refl
length-insert_index i (j ∷ js) = ground (arith, length-insert_index i js)

length-sort_indices : (is : List ℕ) → length (sort_indices is) ≡ length is
unfolding sort_indices
length-sort_indices [] = refl
length-sort_indices (i ∷ is) =
    length-insert_index i (sort_indices is) ∙ ap suc (length-sort_indices is)

length-selected :
    (choice : List ℕ → ℕ → List ℕ) (outliers normals : List ℕ)
    → ((is : List ℕ) (k : ℕ) → k ≤ length is → length (choice is k) ≡ k)
    → length (selected choice outliers normals)
      ≡ length outliers + min (length normals) (length outliers * 3)
unfolding selected
length-selected choice outliers normals chosen =
    let k = min (length normals) (length outliers * 3) in
    ground (arith, length-append outliers (choice normals k), chosen normals k (omega arith))

module _ (percentile : List ℤ → ℕ → ℤ) (choice : List ℕ → ℕ → List ℕ) (n_features : ℕ) where
  -- The number of rows with a value outside of the whiskers of its column.
  unfoldable pub outlier_count : List (List ℤ) → ℕ
  outlier_count xs = count_if (is_outlier percentile choice n_features xs) xs

  length-filtered :
      (xs : List (List ℤ))
      → ((is : List ℕ) (k : ℕ) → k ≤ length is → length (choice is k) ≡ k)
      → length (filter_training_data percentile choice n_features xs)
        ≡ (if leb (outlier_count xs) 0 then length xs else min (length xs) (4 * outlier_count xs))
  unfolding filter_training_data outlier_count
  length-filtered xs chosen =
      let mask = map (is_outlier percentile choice n_features xs) xs in
      let outliers = where_from 0 mask in
      let normals = where_from 0 (map not mask) in
      let some_rows = sort_indices (selected choice outliers normals) in
      ground (
        arith,
        length-where_from 0 mask,
        length-where_from 0 (map not mask),
        count_if-map (is_outlier percentile choice n_features xs) xs,
        count_if-not mask,
        length-map (is_outlier percentile choice n_features xs) xs,
        length-map (row_at xs) some_rows,
        length-sort_indices (selected choice outliers normals),
        length-selected choice outliers normals chosen,
      )

  -- When the choice draws as many indices as it is asked for: without an outlier all rows are kept,
  -- and otherwise four times as many rows as there are outliers, or all; so of 60 rows or more, 60
  -- or more are kept exactly when there are no outliers or at least 15.
  pub filter_training_data-large :
      (xs : List (List ℤ))
      → ((is : List ℕ) (k : ℕ) → k ≤ length is → length (choice is k) ≡ k)
      → 60 ≤ length xs
      → let kept = filter_training_data percentile choice n_features xs in
        let outliers = outlier_count xs in
        (length kept ≡ (if leb outliers 0 then length xs else min (length xs) (4 * outliers)))
        × (leb 60 (length kept) ≡ (leb outliers 0 || leb 15 outliers))
  filter_training_data-large xs chosen enough =
      let size = length-filtered xs chosen in (size, ground (arith, size))
