-- ===== src/Server/Extract/Statistics.antt =====
-- Means and standard deviations of ml_server/scorer/signal_extractor.py, as exact fractions: the
-- code only compares them with constants and with multiples of one another.
use inha_rada.Common.{
  ℕ, zero, suc, ◌+◌, ◌-◌, ◌*◌, Bool, Option, none, some, List, [], ◌∷◌, ltb, leb, length,
}

unfoldable pub sum : List ℕ → ℕ
sum [] = 0
sum (x ∷ xs) = x + sum xs

unfoldable pub sum_squares : List ℕ → ℕ
sum_squares [] = 0
sum_squares (x ∷ xs) = x * x + sum_squares xs

-- `statistics.mean(xs)`, the fraction `total / count`.
pub record Mean : Type 0 where
  pub total : ℕ
  pub count : ℕ

-- `0.0`
abbrev pub nought : Mean
nought = record { total = 0; count = 1 }

unfoldable pub mean : List ℕ → Mean
unfolding sum
mean xs = record { total = sum xs; count = length xs }

-- `mean >= n`, `mean > n`, `mean < n`
unfoldable pub at_least : Mean → ℕ → Bool
at_least m n = leb (n * m.count) m.total

unfoldable pub above : Mean → ℕ → Bool
above m n = ltb (n * m.count) m.total

unfoldable pub under : Mean → ℕ → Bool
under m n = ltb m.total (n * m.count)

-- `x > mean * k`
unfoldable pub exceeds : ℕ → Mean → ℕ → Bool
exceeds x m k = ltb (m.total * k) (x * m.count)

-- `statistics.stdev(xs) < d`, squared and without the quotient: the sum of the squared deviations
-- is `sum_squares xs - sum xs ^ 2 / n`, over `n - 1`.
unfoldable pub stdev_under : List ℕ → ℕ → Bool
unfolding sum sum_squares
stdev_under xs d =
    let n = length xs in ltb (n * sum_squares xs) (sum xs * sum xs + d * d * n * (n - 1))

-- The values that are there; `keep` is the test of the comprehension.
unfoldable pub values : {Past : Type 0} → (Past → Option ℕ) → List Past → List ℕ
values key [] = []
values key (h ∷ hs) = elim (key h) [ none ↦ values key hs | some v ↦ v ∷ values key hs ]

-- `x` where it counts as true: `None` and 0 do not.
unfoldable pub truthy : Option ℕ → Option ℕ
truthy none = none
truthy (some zero) = none
truthy (some (suc n)) = some (suc n)
