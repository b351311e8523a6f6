-- ===== src/Server/Patterns.antt =====
-- ml_server/scorer/pattern_categories.py over the entries of the aggregates. A pattern that the
-- policy disables is absent; a threshold is what the code computes of the policy's numbers.
pub mod Requests
pub mod Endpoints
use inha_rada.Common.{
  ℕ, zero, suc, Bool, true, false, ◌&&◌, ◌||◌, Option, none, some, List, [], ◌∷◌, ◌++◌, ltb, leb,
  if◌then◌else◌, length, all, any,
}
use inha_rada.Deque.{last_n}
use inha_rada.Server.Aggregates.{Entry}

-- The comparisons and the division on the numbers, and the equality of endpoints.
pub record Compare (Num Ip : Type 0) : Type 0 where
  pub zero_num : Num
  pub ge : Num → Num → Bool
  pub lt : Num → Num → Bool
  pub divide : Num → Num → Num
  pub same : Ip → Ip → Bool

module _ {Num Ip : Type 0} where
  -- `_window_minutes_satisfied`
  unfoldable pub window_minutes_satisfied : List (Entry Num Ip) → (Entry Num Ip → Bool) → ℕ → Bool
  unfolding last_n
  window_minutes_satisfied w p zero = true
  window_minutes_satisfied w p (suc n) =
      if ltb (length w) (suc n) then false else all p (last_n (suc n) w)

-- The thresholds of the patterns that look at high load, with the window in entries.
pub record Load (Num : Type 0) : Type 0 where
  pub high : Num
  pub bound : Num
  pub window : ℕ

-- Those with two bounds beside the load, or none.
pub record Power (Num : Type 0) : Type 0 where
  pub mean_min : Num
  pub std_max : Num
  pub window : ℕ

pub data Code : Type 0 where
  r1 r2 r3 r4 r5 r7 r8 n2 n4 n5 s1 s3 s4 : Code

module _ {Num Ip : Type 0} where
  -- A pattern that is there and whose window is satisfied is triggered.
  unfoldable pub fire :
      Code → Option (Load Num) → (Load Num → Entry Num Ip → Bool) → List (Entry Num Ip) → List Code
  unfolding window_minutes_satisfied
  fire code none holds w = []
  fire code (some t) holds w =
      if window_minutes_satisfied w (holds t) t.window then code ∷ [] else []

module _ {Num Ip : Type 0} (c : Compare Num Ip) where
  unfoldable pub holds_r1 : Load Num → Entry Num Ip → Bool
  holds_r1 t e = c.ge (e.cpu.mean) t.high && c.lt (e.cpu.std) t.bound

  unfoldable pub holds_r2 : Load Num → Entry Num Ip → Bool
  holds_r2 t e = c.ge (e.gpu.mean) t.high && c.lt (e.gpu.std) t.bound

  -- `bound` is the threshold of the GPU.
  unfoldable pub holds_r3 : Load Num → Entry Num Ip → Bool
  holds_r3 t e = c.ge (e.cpu.mean) t.high && c.ge (e.gpu.mean) t.bound

  unfoldable pub holds_r4 : Load Num → Entry Num Ip → Bool
  holds_r4 t e = c.ge (e.gpu.mean) t.high && c.lt (e.cpu.mean) t.bound

  unfoldable pub holds_r5 : Power Num → Entry Num Ip → Bool
  holds_r5 t e =
      c.ge (e.gpu_power_w.mean) t.mean_min
      && c.lt (e.gpu_power_w.std) t.std_max
      && c.lt c.zero_num (e.gpu_power_w.mean)

  unfoldable pub holds_r7 : Load Num → Entry Num Ip → Bool
  holds_r7 t e = c.lt e.vram_used_mb_mean t.bound && c.ge (e.gpu.mean) t.high

  unfoldable pub holds_r8 : Load Num → Entry Num Ip → Bool
  holds_r8 t e = c.lt e.mem_used_gb_mean t.bound && c.ge (e.gpu.mean) t.high

  -- `high` is the least outbound mean, `bound` the greatest inbound mean.
  unfoldable pub holds_n4 : Load Num → Entry Num Ip → Bool
  holds_n4 t e = c.ge (e.outbound_mb.mean) t.high && c.ge t.bound e.inbound_mb_mean

  -- `high` is 0.001, `bound` the limit on the coefficient of variation.
  unfoldable pub holds_n5 : Load Num → Entry Num Ip → Bool
  holds_n5 t e =
      if c.ge t.high (e.outbound_mb.mean)
      then false
      else c.lt (c.divide (e.outbound_mb.std) (e.outbound_mb.mean)) t.bound

  unfoldable pub high_load : Num → Entry Num Ip → Bool
  high_load high e = c.ge (e.cpu.mean) high || c.ge (e.gpu.mean) high

  unfoldable pub holds_s1 : Load Num → Entry Num Ip → Bool
  unfolding high_load
  holds_s1 t e = c.ge e.user_idle_ms_max t.bound && high_load t.high e

  unfoldable pub holds_s3 : Load Num → Entry Num Ip → Bool
  unfolding high_load
  holds_s3 t e = high_load t.high e && c.lt e.disk_io_mb_mean t.bound

  unfoldable pub holds_s4 : Load Num → Entry Num Ip → Bool
  unfolding high_load
  holds_s4 t e = high_load t.high e && c.lt e.mem_used_gb_mean t.bound

  -- N2: the sets of endpoints have a common item. `history_window[-0:]` is the whole window.
  unfoldable pub tail_of : ℕ → List (Entry Num Ip) → List (Entry Num Ip)
  unfolding last_n
  tail_of zero w = w
  tail_of (suc n) w = last_n (suc n) w

  unfoldable pub has_endpoint : Ip → Entry Num Ip → Bool
  has_endpoint ip e = any (c.same ip) e.external_endpoints

  unfoldable pub has_common : List (Entry Num Ip) → Bool
  unfolding has_endpoint
  has_common [] = false
  has_common (e ∷ es) = any (λ ip. all (has_endpoint ip) es) e.external_endpoints

  unfoldable pub same_endpoint : ℕ → List (Entry Num Ip) → Bool
  unfolding has_common tail_of
  same_endpoint win w = leb win (length w) && has_common (tail_of win w)

  unfoldable pub fire_r5 : Option (Power Num) → List (Entry Num Ip) → List Code
  unfolding window_minutes_satisfied holds_r5
  fire_r5 none w = []
  fire_r5 (some t) w = if window_minutes_satisfied w (holds_r5 t) t.window then r5 ∷ [] else []

  unfoldable pub fire_n2 : Option ℕ → List (Entry Num Ip) → List Code
  unfolding same_endpoint
  fire_n2 none w = []
  fire_n2 (some win) w = if same_endpoint win w then n2 ∷ [] else []

-- The groups of the configuration, as `_t` reads them.
pub record ResourceConfig (Num : Type 0) : Type 0 where
  pub r1 : Option (Load Num)
  pub r2 : Option (Load Num)
  pub r3 : Option (Load Num)
  pub r4 : Option (Load Num)
  pub r7 : Option (Load Num)
  pub r8 : Option (Load Num)
  pub r5 : Option (Power Num)

pub record NetworkConfig (Num : Type 0) : Type 0 where
  pub n2 : Option ℕ
  pub n4 : Option (Load Num)
  pub n5 : Option (Load Num)

pub record SystemConfig (Num : Type 0) : Type 0 where
  pub s1 : Option (Load Num)
  pub s3 : Option (Load Num)
  pub s4 : Option (Load Num)

module _ {Num Ip : Type 0} (c : Compare Num Ip) where
  -- The `triggered` of each evaluator, whose `abnormal` says that it is not empty.
  unfoldable pub evaluate_resource_pattern : ResourceConfig Num → List (Entry Num Ip) → List Code
  unfolding fire fire_r5 holds_r1 holds_r2 holds_r3 holds_r4 holds_r7 holds_r8
  evaluate_resource_pattern cfg w =
      fire r1 cfg.r1 (holds_r1 c) w
      ++ fire r2 cfg.r2 (holds_r2 c) w
      ++ fire r3 cfg.r3 (holds_r3 c) w
      ++ fire r4 cfg.r4 (holds_r4 c) w
      ++ fire_r5 c cfg.r5 w
      ++ fire r7 cfg.r7 (holds_r7 c) w
      ++ fire r8 cfg.r8 (holds_r8 c) w

  unfoldable pub evaluate_network_pattern : NetworkConfig Num → List (Entry Num Ip) → List Code
  unfolding fire fire_n2 holds_n4 holds_n5
  evaluate_network_pattern cfg w =
      fire_n2 c cfg.n2 w ++ fire n4 cfg.n4 (holds_n4 c) w ++ fire n5 cfg.n5 (holds_n5 c) w

  unfoldable pub evaluate_system_pattern : SystemConfig Num → List (Entry Num Ip) → List Code
  unfolding fire holds_s1 holds_s3 holds_s4
  evaluate_system_pattern cfg w =
      fire s1 cfg.s1 (holds_s1 c) w
      ++ fire s3 cfg.s3 (holds_s3 c) w
      ++ fire s4 cfg.s4 (holds_s4 c) w
