-- ===== src/Server/GlobalHw.antt =====
-- ml_server/detector/global_degradation.py, without its texts and rounded figures. Times are in
-- seconds, loads in thousandths.
use inha_rada.Common.{
  ℕ, ◌+◌, ◌*◌, Bool, false, List, [], ◌∷◌, ltb, leb, if◌then◌else◌, length, count_if,
}

-- A row of `all_pc_latest`: its time and its CPU's load.
pub record Latest : Type 0 where
  pub at : ℕ
  pub cpu_percent : ℕ

pub record Degradation : Type 0 where
  pub detected : Bool
  pub exceed_count : ℕ
  pub total_pcs : ℕ

-- `now - _ts <= 30`
unfoldable pub is_fresh : ℕ → Latest → Bool
is_fresh now l = leb now (l.at + 30)

unfoldable pub fresh : ℕ → List Latest → List Latest
unfolding is_fresh
fresh now [] = []
fresh now (l ∷ ls) = let rest = fresh now ls in if is_fresh now l then l ∷ rest else rest

unfoldable pub exceeds_cpu : Latest → Bool
exceeds_cpu l = leb 80_000 l.cpu_percent

-- `detect_global_hw_degradation`; fewer than three PCs decide nothing.
unfoldable pub detect_global_hw_degradation : ℕ → List Latest → Degradation
unfolding fresh exceeds_cpu count_if
detect_global_hw_degradation now pcs =
    let live = fresh now pcs in
    let exceed = count_if exceeds_cpu live in
    if ltb (length live) 3
    then record { detected = false; exceed_count = 0; total_pcs = length live }
    else record {
      detected = leb (7 * length live) (10 * exceed);
      exceed_count = exceed;
      total_pcs = length live;
    }
