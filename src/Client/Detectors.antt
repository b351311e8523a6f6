-- ===== src/Client/Detectors.antt =====
-- The detectors of client_core/detector and client_core/timeslot.py, without the texts of the
-- alerts. Loads and temperatures are counted in thousandths; the means of loads are floats, and those
-- are a parameter.
pub mod Windows
use inha_rada.Common.{
  ℕ, ◌+◌, ◌-◌, ◌*◌, ◌/◌, Bool, false, ◌&&◌, ◌||◌, Option, none, some, List, [], ◌∷◌, ◌++◌, ltb, leb,
  ◌==◌, if◌then◌else◌, length, map,
}
use inha_rada.Client.Window.{SlidingWindow, append}

pub data Slot : Type 0 where
  class free : Slot

-- `get_time_slot`; Monday is 0.
unfoldable pub get_time_slot : ℕ → ℕ → Slot
get_time_slot weekday hour =
    if leb 5 weekday then free else if leb 9 hour && ltb hour 18 then class else free

pub record GpuReading : Type 0 where
  pub load_percent : ℕ
  pub temperature : Option ℕ
  pub tensor_core_active : Option ℕ

pub record Reading : Type 0 where
  pub cpu_percent : ℕ
  pub memory_percent : ℕ
  pub gpu : Option GpuReading

pub data AlertType : Type 0 where
  cpu_critical cpu_high mem_critical mem_high gpu_high gpu_overheat tensor_core_zero : AlertType
  absolute_cpu absolute_mem absolute_gpu absolute_gpu_temp : AlertType
  hw_cpu_degradation hw_mem_degradation : AlertType

pub data Severity : Type 0 where
  high medium : Severity

pub record Alert : Type 0 where
  pub alert_type : AlertType
  pub severity : Severity

abbrev pub raise_if : Bool → AlertType → Severity → List Alert
raise_if b t s = if b then record { alert_type = t; severity = s } ∷ [] else []

-- `temp and temp >= limit`
unfoldable pub is_hot : Option ℕ → ℕ → Bool
is_hot none limit = false
is_hot (some t) limit = ltb 0 t && leb limit t

-- The thresholds of one slot.
pub record Thresholds : Type 0 where
  pub cpu_warn : ℕ
  pub cpu_critical_at : ℕ
  pub mem_warn : ℕ
  pub mem_critical_at : ℕ
  pub gpu_warn : ℕ
  pub gpu_temp : ℕ

-- The critical alert, or else the warning.
unfoldable pub graded : ℕ → ℕ → ℕ → AlertType → AlertType → List Alert
graded x critical_at warn critical warning =
    if leb critical_at x
    then record { alert_type = critical; severity = high } ∷ []
    else raise_if (leb warn x) warning medium

unfoldable pub gpu_alerts : Thresholds → Option GpuReading → List Alert
unfolding is_hot
gpu_alerts t none = []
gpu_alerts t (some g) =
    raise_if (leb t.gpu_warn g.load_percent) gpu_high medium
    ++ (raise_if (is_hot g.temperature t.gpu_temp) gpu_overheat high
        ++ raise_if
            (leb 70_000 g.load_percent
              && elim g.tensor_core_active [ none ↦ false | some n ↦ n == 0 ])
            tensor_core_zero high)

-- `ThresholdDetector.detect` in a slot
unfoldable pub detect_threshold : (Slot → Thresholds) → Slot → Reading → List Alert
unfolding graded gpu_alerts
detect_threshold thresholds slot m =
    let t = thresholds slot in
    graded m.cpu_percent t.cpu_critical_at t.cpu_warn cpu_critical cpu_high
    ++ (graded m.memory_percent t.mem_critical_at t.mem_warn mem_critical mem_high
        ++ gpu_alerts t m.gpu)

pub record Absolute : Type 0 where
  pub cpu_limit : ℕ
  pub mem_limit : ℕ
  pub gpu_limit : ℕ
  pub temp_limit : ℕ

-- `AbsoluteBreachDetector.detect`
unfoldable pub detect_absolute : Absolute → Reading → List Alert
unfolding is_hot
detect_absolute a m =
    raise_if (leb a.cpu_limit m.cpu_percent) absolute_cpu high
    ++ (raise_if (leb a.mem_limit m.memory_percent) absolute_mem high ++ elim m.gpu [
      | none ↦ []
      | some g ↦
          raise_if (leb a.gpu_limit g.load_percent) absolute_gpu high
          ++ raise_if (is_hot g.temperature a.temp_limit) absolute_gpu_temp high
    ])

-- An item of the baseline's window; the local window has the GPU's values too, which no detector
-- of degradation reads.
pub record Load : Type 0 where
  pub cpu_percent : ℕ
  pub memory_percent : ℕ

-- Floating-point numbers: numpy's mean of loads, the product, `>`, and the floors of the baselines.
pub record Floats (Num : Type 0) : Type 0 where
  pub mean : List ℕ → Num
  pub times : Num → Num → Num
  pub exceeds : Num → Num → Bool
  pub cpu_baseline_floor : Num
  pub mem_baseline_floor : Num

-- `HwDegradationDetector`
pub record HwDetector (Num : Type 0) : Type 0 where
  pub local_window_size : ℕ
  pub hw_baseline_window : ℕ
  pub ratio : Num

module _ {Num : Type 0} (fl : Floats Num) where
  -- `baseline > floor and recent > baseline * ratio`, of the means
  unfoldable pub has_risen : Num → Num → (Load → ℕ) → List Load → List Load → Bool
  has_risen floor ratio key recent baseline =
      let baseline_mean = fl.mean (map key baseline) in
      fl.exceeds baseline_mean floor
      && fl.exceeds (fl.mean (map key recent)) (fl.times baseline_mean ratio)

  -- The alerts of two windows that are long enough.
  unfoldable pub risen_alerts : HwDetector Num → List Load → List Load → List Alert
  unfolding has_risen
  risen_alerts d recent baseline =
      raise_if (has_risen fl.cpu_baseline_floor d.ratio (λ l. l.cpu_percent) recent baseline)
        hw_cpu_degradation medium
      ++ raise_if (has_risen fl.mem_baseline_floor d.ratio (λ l. l.memory_percent) recent baseline)
          hw_mem_degradation medium

  -- `HwDegradationDetector.detect` on the windows' items
  unfoldable pub detect_degradation : HwDetector Num → List Load → List Load → List Alert
  unfolding risen_alerts
  detect_degradation d recent baseline =
      if ltb (length baseline) (d.hw_baseline_window / 2)
        || ltb (length recent) (d.local_window_size / 2)
      then []
      else risen_alerts d recent baseline

-- The item of a sample in both windows.
unfoldable pub load_of : Reading → Load
load_of m = record { cpu_percent = m.cpu_percent; memory_percent = m.memory_percent }

-- `collect_and_update_windows` of client_core/runtime/loop.py: both windows take the sample.
unfoldable pub update_windows :
    SlidingWindow Load × SlidingWindow Load → Reading → SlidingWindow Load × SlidingWindow Load
unfolding append load_of
update_windows (recent, baseline) m = (append recent (load_of m), append baseline (load_of m))

-- `_is_iqr_outlier` with the quartiles that numpy computes, in halves of a unit.
unfoldable pub is_iqr_outlier : ℕ → ℕ → ℕ → Bool
is_iqr_outlier q1 q3 current =
    let iqr = q3 - q1 in
    ltb (2 * q3 + 3 * iqr) (2 * current) || ltb (2 * current + 3 * iqr) (2 * q1)
