-- ===== src/Server/Aggregates.antt =====
-- The one-minute aggregates of ml_server/storage/pc_history_store.py, for one PC. Times are whole
-- milliseconds. The numbers, `statistics.mean`, `statistics.stdev`, `max` and the set of the
-- endpoints are parameters.
pub mod Requests
use inha_rada.Common.{
  ℕ, zero, suc, ◌*◌, ◌/◌, min, max, Option, none, some, List, [], ◌∷◌, ◌++◌, map, foldl, ◌==◌,
  if◌then◌else◌, length, ℤ, pos, negsuc,
}
use inha_rada.Deque.{push, last_n}

-- What a flush calls, on the numbers `Num` and the endpoints `Ip`.
pub record Host (Num Ip : Type 0) : Type 0 where
  pub nought : Num
  pub plus : Num → Num → Num
  pub mean : List Num → Num
  pub stdev : List Num → Num
  pub largest : List Num → Num
  -- `set.add` on the set's items
  pub add_endpoint : List Ip → Ip → List Ip

-- A sample as it stands in the buffer; a missing key is `none`. `timestamp` is what `_parse_ts`
-- makes of the key of that name.
pub record Snapshot (Num Ip : Type 0) : Type 0 where
  pub timestamp : ℕ
  pub cpu_percent : Option Num
  pub gpu_percent : Option Num
  pub gpu_power_w : Option Num
  pub outbound_mb : Option Num
  pub inbound_mb : Option Num
  pub gpu_vram_mb : Option Num
  pub memory_used_gb : Option Num
  pub disk_read_mb : Option Num
  pub disk_write_mb : Option Num
  pub user_idle_ms : Option Num
  pub external_endpoints : List Ip

-- The result of `_agg`.
pub record Summary (Num : Type 0) : Type 0 where
  pub mean : Num
  pub std : Num
  pub max : Num

pub record Entry (Num Ip : Type 0) : Type 0 where
  pub ts : ℕ
  pub cpu : Summary Num
  pub gpu : Summary Num
  pub gpu_power_w : Summary Num
  pub outbound_mb : Summary Num
  pub inbound_mb_mean : Num
  pub vram_used_mb_mean : Num
  pub mem_used_gb_mean : Num
  pub disk_io_mb_mean : Num
  pub user_idle_ms_max : Num
  pub external_endpoints : List Ip
  pub samples : ℕ

-- `_pc_minute_buffer[pc_id]`
pub record Buffer (Num Ip : Type 0) : Type 0 where
  pub slot_start : ℕ
  pub samples : List (Snapshot Num Ip)

-- The two tables' rows of one PC.
pub record Minutes (Num Ip : Type 0) : Type 0 where
  pub aggregates : List (Entry Num Ip)
  pub buffer : Option (Buffer Num Ip)

-- `AGGREGATE_WINDOW_MAX`
abbrev pub aggregate_window_max : ℕ
aggregate_window_max = 180

abbrev pub empty_minutes : {Num Ip : Type 0} → Minutes Num Ip
empty_minutes = record { aggregates = []; buffer = none }

-- `int(ts // 60) * 60`
unfoldable pub minute_of : ℕ → ℕ
minute_of ts = ts / 60_000 * 60_000

module _ {Num Ip : Type 0} where
  -- `_vals`: the values of the samples that have one.
  unfoldable pub vals : (Snapshot Num Ip → Option Num) → List (Snapshot Num Ip) → List Num
  vals key [] = []
  vals key (s ∷ ss) = elim (key s) [ none ↦ vals key ss | some v ↦ v ∷ vals key ss ]

  unfoldable pub get_aggregate_window : Minutes Num Ip → ℤ → List (Entry Num Ip)
  unfolding last_n
  get_aggregate_window m (negsuc n) = []
  get_aggregate_window m (pos zero) = []
  get_aggregate_window m (pos (suc n)) = last_n (min (suc n) aggregate_window_max) m.aggregates

module _ {Num Ip : Type 0} (host : Host Num Ip) where
  -- `x or 0.0`
  unfoldable pub or_nought : Option Num → Num
  or_nought none = host.nought
  or_nought (some v) = v

  -- `f(vals) if vals else 0.0`
  unfoldable pub if_any : (List Num → Num) → List Num → Num
  if_any f [] = host.nought
  if_any f (v ∷ vs) = f (v ∷ vs)

  -- `statistics.stdev(vals) if len(vals) >= 2 else 0.0`
  unfoldable pub spread : List Num → Num
  spread [] = host.nought
  spread (v ∷ []) = host.nought
  spread (v ∷ w ∷ vs) = host.stdev (v ∷ w ∷ vs)

  -- `_agg`
  unfoldable pub agg : List Num → Summary Num
  unfolding if_any spread
  agg vs = record { mean = if_any host.mean vs; std = spread vs; max = if_any host.largest vs }

  unfoldable pub disk_io : Snapshot Num Ip → Num
  unfolding or_nought
  disk_io s = host.plus (or_nought s.disk_read_mb) (or_nought s.disk_write_mb)

  unfoldable pub endpoints : List Ip → List (Snapshot Num Ip) → List Ip
  endpoints seen [] = seen
  endpoints seen (s ∷ ss) = endpoints (foldl host.add_endpoint seen s.external_endpoints) ss

  -- The entry that `_flush_minute_buffer` makes.
  unfoldable pub entry_of : ℕ → List (Snapshot Num Ip) → Entry Num Ip
  unfolding vals agg if_any disk_io endpoints
  entry_of slot_start ss = record {
    ts = slot_start;
    cpu = agg (vals (λ s. s.cpu_percent) ss);
    gpu = agg (vals (λ s. s.gpu_percent) ss);
    gpu_power_w = agg (vals (λ s. s.gpu_power_w) ss);
    outbound_mb = agg (vals (λ s. s.outbound_mb) ss);
    inbound_mb_mean = (agg (vals (λ s. s.inbound_mb) ss)).mean;
    vram_used_mb_mean = (agg (vals (λ s. s.gpu_vram_mb) ss)).mean;
    mem_used_gb_mean = if_any host.mean (vals (λ s. s.memory_used_gb) ss);
    disk_io_mb_mean = if_any host.mean (map disk_io ss);
    user_idle_ms_max = if_any host.largest (vals (λ s. s.user_idle_ms) ss);
    external_endpoints = endpoints [] ss;
    samples = length ss;
  }

  -- `_flush_minute_buffer`: without samples nothing is added.
  unfoldable pub flush_minute_buffer :
      List (Entry Num Ip) → ℕ → List (Snapshot Num Ip) → List (Entry Num Ip)
  unfolding entry_of push
  flush_minute_buffer es slot_start [] = es
  flush_minute_buffer es slot_start (s ∷ ss) =
      push aggregate_window_max es (entry_of slot_start (s ∷ ss))

  -- `append_snapshot_for_aggregate`, of the sample with its optional fields filled in.
  unfoldable pub append_snapshot : Minutes Num Ip → Snapshot Num Ip → Minutes Num Ip
  unfolding minute_of flush_minute_buffer
  append_snapshot m s =
      let minute = minute_of s.timestamp in
      elim m.buffer [
        | none ↦ record m { buffer = some (record { slot_start = minute; samples = s ∷ [] }) }
        | some b ↦
            if b.slot_start == minute
            then record m { buffer = some (record b { samples = b.samples ++ s ∷ [] }) }
            else record {
              aggregates = flush_minute_buffer m.aggregates b.slot_start b.samples;
              buffer = some (record { slot_start = minute; samples = s ∷ [] });
            }
      ]

  unfoldable pub force_flush : Minutes Num Ip → Minutes Num Ip
  unfolding flush_minute_buffer
  force_flush m = elim m.buffer [
    | none ↦ m
    | some b ↦ record {
      aggregates = flush_minute_buffer m.aggregates b.slot_start b.samples;
      buffer = some (record b { samples = [] });
    }
  ]

  -- What `analyze` of analyze_router.py does to the row on each request.
  unfoldable pub on_request : Minutes Num Ip → Snapshot Num Ip → Minutes Num Ip
  unfolding append_snapshot force_flush
  on_request m s = force_flush (append_snapshot m s)
