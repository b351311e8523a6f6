-- ===== src/Server/RiskVector.antt =====
-- ml_server/scorer/risk_vector.py.
use inha_rada.Common.{
  ℕ, ◌+◌, ◌≤◌, ◌<◌, ◌≡◌, inl, inr, true, false, not, ◌&&◌, Option, none, some, arith, ltb, leb,
  if◌then◌else◌, pts, Bool-cases, if-intro, leb→le,
}
use inha_rada.Server.Signals.{Signals}

pub data Axis : Type 0 where
  mining malfunction aging threat network_abuse : Axis

-- The result; `none` is `NORMAL`.
pub record RiskVector : Type 0 where
  pub axes : Axis → ℕ
  pub primary_type : Option Axis

-- `_PRIMARY_FLOOR`
abbrev pub primary_floor : ℕ
primary_floor = 4

-- The table of an axis, applied.
unfoldable pub axis_points : Axis → Signals → ℕ
axis_points mining s =
    pts s.gpu_flat 3
    + pts s.cpu_flat 3
    + pts s.vram_low 2
    + pts s.power_stable 1
    + pts s.sm_high 1
    + pts s.mining_pool_ip 5
    + pts s.known_miner 5
    + pts s.mining_process_or_pool 4
    + pts s.persistent_miner 3
    + pts s.single_core_full 3
axis_points malfunction s = pts s.mem_critical 2
axis_points aging s =
    pts s.stealth_mismatch_power 3
    + pts s.stealth_mismatch_vram 3
    + pts s.mem_critical 1
    + pts s.mem_high 1
axis_points threat s =
    pts s.persistent_ext 2
    + pts s.net_external_high 1
    + pts s.outbound_spike 3
    + pts s.exec_path_suspicious 1
    + pts s.appdata_exec 1
    + pts s.temp_exec 1
    + pts s.new_remote_ip_burst 1
    + pts s.mining_pool_ip 2
    + pts s.external_conn_suspicious_owner 3
    + pts s.process_recreation 2
axis_points network_abuse s = pts s.dos_spike 3

-- `_combo`
unfoldable pub combo : Axis → Signals → ℕ
combo mining s =
    pts (s.cpu_flat && s.gpu_flat) 2
    + pts (s.gpu_flat && s.power_stable && s.vram_low) 2
    + pts (s.single_core_full && s.cpu_flat) 1
combo malfunction s =
    pts
      (s.cpu_high
        && not s.net_out_sustained
        && not s.disk_write_net_out_sustained
        && not s.known_miner
        && not s.mining_pool_ip)
      2
combo aging s = 0
combo threat s =
    pts (s.unknown_process_active && s.net_out_sustained) 3
    + pts (s.appdata_exec && s.net_out_sustained) 2
    + pts s.disk_write_net_out_sustained 2
    + pts (s.external_conn_suspicious_owner && s.net_out_sustained) 2
combo network_abuse s = pts (s.dos_spike && s.persistent_ext) 2

unfoldable pub axis_score : Signals → Axis → ℕ
unfolding axis_points combo
axis_score s a = axis_points a s + combo a s

abbrev better : (Axis → ℕ) → Axis → Axis → Axis
better f a b = if ltb (f a) (f b) then b else a

-- `max(axes, key=…)`: of equal axes the first.
unfoldable pub top_axis : (Axis → ℕ) → Axis
top_axis f = better f (better f (better f (better f mining malfunction) aging) threat) network_abuse

unfoldable pub compute_risk_vector : Signals → RiskVector
unfolding axis_score top_axis
compute_risk_vector s =
    let top = top_axis (axis_score s) in
    record {
      axes = axis_score s;
      primary_type = if leb primary_floor (axis_score s top) then some top else none;
    }

ltb_le : (a b : ℕ) → ltb a b ≡ true → a ≤ b
ltb_le a b h = ground arith

not_ltb_le : (a b : ℕ) → ltb a b ≡ false → b ≤ a
not_ltb_le a b h = ground arith

better-ge : (f : Axis → ℕ) (a b : Axis) → (f a ≤ f (better f a b)) × (f b ≤ f (better f a b))
better-ge f a b = elim (Bool-cases (ltb (f a) (f b))) [
  | inl more ↦ rw more (ltb_le (f a) (f b) more, omega arith)
  | inr not_more ↦ rw not_more (omega arith, not_ltb_le (f a) (f b) not_more)
]

le_chain : {a b c : ℕ} → a ≤ b → b ≤ c → a ≤ c
le_chain h k = omega arith

-- No axis is above the top one.
top_axis-ge : (f : Axis → ℕ) (a : Axis) → f a ≤ f (top_axis f)
unfolding top_axis
top_axis-ge f a =
    let b1 = better f mining malfunction in
    let b2 = better f b1 aging in
    let b3 = better f b2 threat in
    let (l1, r1) = better-ge f mining malfunction in
    let (l2, r2) = better-ge f b1 aging in
    let (l3, r3) = better-ge f b2 threat in
    let (l4, r4) = better-ge f b3 network_abuse in
    elim a as (λ k. f k ≤ f (top_axis f)) [
      | mining ↦ le_chain l1 (le_chain l2 (le_chain l3 l4))
      | malfunction ↦ le_chain r1 (le_chain l2 (le_chain l3 l4))
      | aging ↦ le_chain r2 (le_chain l3 l4)
      | threat ↦ le_chain r3 l4
      | network_abuse ↦ r4
    ]

below : (n k : ℕ) → leb n k ≡ false → k < n
below n k h = ground arith

-- A primary type has four points or more, and no axis exceeds it; without one all are below four.
abbrev pub IsPrimary : (Axis → ℕ) → Option Axis → Type 0
IsPrimary f (some t) = (4 ≤ f t) × ((a : Axis) → f a ≤ f t)
IsPrimary f none = (a : Axis) → f a < 4

-- The primary type is an axis of at least four points that no other axis exceeds; where there is
-- none, every axis is below four.
pub compute_risk_vector-IsPrimary :
    (s : Signals) → IsPrimary (compute_risk_vector s).axes (compute_risk_vector s).primary_type
unfolding compute_risk_vector
compute_risk_vector-IsPrimary s =
    let f = axis_score s in
    let top = top_axis f in
    if-intro (IsPrimary f) (leb primary_floor (f top))
      (λ enough. (leb→le 4 (f top) enough, λ a. top_axis-ge f a))
      (λ few a. omega (arith, top_axis-ge f a, below 4 (f top) few))
