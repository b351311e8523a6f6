-- ===== src/Server/Boxplot.antt =====
-- `filter_training_data_by_boxplot` of ml_server/feature/boxplot_filter.py. Numpy's percentile and
-- its choice of indices are parameters; values are whole numbers of some unit.
pub mod Size
use inha_rada.Common.{
  ℕ, zero, suc, ◌*◌, min, Bool, not, ◌||◌, List, [], ◌∷◌, ◌++◌, map, ltb, leb, if◌then◌else◌,
  length, any, ℤ, pos, ◌+ℤ◌, ltb_ℤ,
}
use inha_rada.Server.Anomaly.{scale}

-- An entry of a row, or of the list of the rows; no index is out of range.
unfoldable pub entry_at : List ℤ → ℕ → ℤ
entry_at [] j = pos 0
entry_at (x ∷ xs) zero = x
entry_at (x ∷ xs) (suc j) = entry_at xs j

unfoldable pub row_at : List (List ℤ) → ℕ → List ℤ
row_at [] i = []
row_at (r ∷ rs) zero = r
row_at (r ∷ rs) (suc i) = row_at rs i

-- `np.where(mask)[0]` for the indices from `i` on.
unfoldable pub where_from : ℕ → List Bool → List ℕ
where_from i [] = []
where_from i (b ∷ bs) = let rest = where_from (suc i) bs in if b then i ∷ rest else rest

-- `range(n)` in the opposite order.
unfoldable pub indices : ℕ → List ℕ
indices zero = []
indices (suc n) = n ∷ indices n

unfoldable pub insert_index : ℕ → List ℕ → List ℕ
insert_index i [] = i ∷ []
insert_index i (j ∷ js) = let rest = insert_index i js in if leb i j then i ∷ j ∷ js else j ∷ rest

-- `np.sort`
unfoldable pub sort_indices : List ℕ → List ℕ
unfolding insert_index
sort_indices [] = []
sort_indices (i ∷ is) = insert_index i (sort_indices is)

-- `x < q1 - 1.5 * (q3 - q1)` or `x > q3 + 1.5 * (q3 - q1)`, in halves.
unfoldable pub is_outside : ℤ → ℤ → ℤ → Bool
unfolding scale
is_outside q1 q3 x =
    ltb_ℤ (scale 2 x +ℤ scale 3 q3) (scale 5 q1) || ltb_ℤ (scale 5 q3) (scale 2 x +ℤ scale 3 q1)

-- The indices of all outliers and of at most three times as many other rows.
unfoldable pub selected : (List ℕ → ℕ → List ℕ) → List ℕ → List ℕ → List ℕ
selected choice outliers normals =
    let max_normal = min (length normals) (length outliers * 3) in
    if ltb 0 max_normal then outliers ++ choice normals max_normal else outliers

module _ (percentile : List ℤ → ℕ → ℤ) (choice : List ℕ → ℕ → List ℕ) (n_features : ℕ) where
  unfoldable pub is_outlier : List (List ℤ) → List ℤ → Bool
  unfolding is_outside entry_at indices
  is_outlier xs row =
      any
        (λ j.
          let col = map (λ r. entry_at r j) xs in
          is_outside (percentile col 25) (percentile col 75) (entry_at row j))
        (indices n_features)

  unfoldable pub filter_training_data : List (List ℤ) → List (List ℤ)
  unfolding is_outlier where_from selected sort_indices row_at
  filter_training_data xs =
      let mask = map (is_outlier xs) xs in
      let outliers = where_from 0 mask in
      let normals = where_from 0 (map not mask) in
      if leb (length outliers) 0
      then xs
      else map (row_at xs) (sort_indices (selected choice outliers normals))
