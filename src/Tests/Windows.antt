-- ===== src/Tests/Windows.antt =====
-- The theorem on the windows of the detector of degradation at concrete inputs.
use inha_rada.Common.{
  ℕ, ◌+◌, ◌*◌, ◌/◌, ◌<◌, max, ◌≡◌, none, some, List, [], ◌∷◌, ◌++◌, map, foldl, arith, ltb,
  if◌then◌else◌, length, replicate,
}
use inha_rada.Deque.{last_n}
use inha_rada.Client.Window.{SlidingWindow, init, to_list}
use inha_rada.Client.Detectors.{
  Reading, Load, Floats, HwDetector, load_of, risen_alerts, detect_degradation, update_windows,
}
use inha_rada.Client.Detectors.Windows.{detect_degradation-last_n}

-- Whole numbers in the place of floats, and a mean that is a quotient.
abbrev sum : List ℕ → ℕ
sum [] = 0
sum (x ∷ xs) = x + sum xs

abbrev rounded : Floats ℕ
rounded = record {
  mean = λ xs. sum xs / length xs;
  times = λ a b. a * b;
  exceeds = λ a b. ltb b a;
  cpu_baseline_floor = 30_000;
  mem_baseline_floor = 50_000;
}

abbrev detector : HwDetector ℕ
detector = record { local_window_size = 2; hw_baseline_window = 8; ratio = 2 }

abbrev reading : ℕ → Reading
reading n = record { cpu_percent = n; memory_percent = n; gpu = none }

-- Six calm samples, then two of three times the load.
abbrev readings : List Reading
readings = replicate 6 (reading 31_000) ++ replicate 2 (reading 93_000)

abbrev empty_window : ℕ → SlidingWindow Load
empty_window n = record { max_size = n; buf = [] }

made : (n : ℕ) → 0 < n → init n ≡ some (empty_window n)
unfolding init
made n h = ground arith

detect_degradation-last_n_example :
    let ws = foldl update_windows (empty_window 2, empty_window 8) readings in
    detect_degradation rounded detector (to_list ws.0) (to_list ws.1) ≡ (
      if ltb 8 (max 4 1)
      then []
      else risen_alerts rounded detector
          (last_n 2 (map load_of readings))
          (last_n 8 (map load_of readings)))
detect_degradation-last_n_example =
    detect_degradation-last_n rounded detector (empty_window 2) (empty_window 8) readings
      (made 2 (omega arith)) (made 8 (omega arith))
