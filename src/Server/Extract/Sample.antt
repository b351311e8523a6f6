-- ===== src/Server/Extract/Sample.antt =====
-- What ml_server/scorer/signal_extractor.py reads: the request, the snapshots of the history, the
-- lists of ml_server/config.py and of the policy. Numbers that are floats in the source are counted
-- in thousandths and are not negative. Texts and Python's operations on them are a parameter.
use inha_rada.Common.{ℕ, Bool, Option, none, some, List, ◌++◌, map, any}

pub record Texts (Text : Type 0) : Type 0 where
  pub same : Text → Text → Bool
  pub lower : Text → Text
  -- `needle in text`
  pub contains : Text → Text → Bool
  pub starts_with : Text → Text → Bool
  pub is_empty : Text → Bool
  -- "\\appdata\\" and "\\appdata\\local\\temp\\"
  pub appdata : Text
  pub appdata_temp : Text

pub data Slot : Type 0 where
  class free : Slot

-- An item of `top_processes`; a missing text is empty.
pub record Process (Text : Type 0) : Type 0 where
  pub name : Text
  pub path : Text
  pub cpu_percent : ℕ
  pub pid : Option ℕ

-- An item of `external_connections`.
pub record Connection (Text : Type 0) : Type 0 where
  pub ip : Text
  pub proc_path : Text
  pub proc_name : Text

-- The fields of `GpuMetrics` that are read.
pub record Gpu : Type 0 where
  pub load_percent : ℕ
  pub memory_used_mb : ℕ
  pub memory_total_mb : ℕ
  pub tensor_core_active : Option ℕ
  pub sm_utilization : Option ℕ
  pub has_partial_failure : Bool

-- The keys of `derived_features` that are read; `has_…` says that a reason is given.
pub record Derived : Type 0 where
  pub unique_remote_ip_count : ℕ
  pub duplicate_connection_count : ℕ
  pub single_core_max_percent : ℕ
  -- The length of `per_core_cpu_percent`, if that is a list; an absent one is an empty list.
  pub per_core_length : Option ℕ
  pub has_network_missing : Bool
  pub has_process_missing : Bool
  pub has_derived_missing : Bool

pub record Metrics (Text : Type 0) : Type 0 where
  pub cpu_percent : ℕ
  pub cpu_core_count : ℕ
  pub memory_percent : ℕ
  pub disk_write_mb : ℕ
  pub inbound_mb : ℕ
  pub outbound_mb : ℕ
  pub external_packet_count : ℕ
  pub external_connections : List (Connection Text)
  pub top_processes : List (Process Text)
  pub gpu : Option Gpu
  pub derived : Derived

-- A snapshot of the history.
pub record Past (Text : Type 0) : Type 0 where
  pub cpu_percent : ℕ
  pub gpu_percent : Option ℕ
  pub gpu_vram_mb : Option ℕ
  pub gpu_power_w : Option ℕ
  pub inbound_mb : ℕ
  pub outbound_mb : ℕ
  pub external_packet_count : ℕ
  pub top_processes : List (Process Text)

-- The lists of config.py.
pub record Lists (Text : Type 0) : Type 0 where
  pub game_render_processes : List Text
  pub compile_encode_processes : List Text
  pub mining_processes : List Text
  pub mining_pool_ips : List Text
  pub suspicious_paths : List Text
  pub whitelist_processes : List Text

-- The lists of allowlist.yaml that are read here.
pub record Allow (Text : Type 0) : Type 0 where
  pub whitelist_processes : List Text
  pub agent_processes : List Text
  pub infra_ips : List Text

-- `dos_detection` of the policy; the floor in thousandths.
pub record DosDetection : Type 0 where
  pub min_inbound_mb_per_5s : ℕ
  pub min_sustained_count : ℕ

module _ {Text : Type 0} (tx : Texts Text) where
  -- `x in set`
  unfoldable pub member : Text → List Text → Bool
  member x xs = any (tx.same x) xs

  -- `_effective_whitelist`; `none` where reading the policy raises.
  unfoldable pub effective_whitelist : Lists Text → Option (Allow Text) → List Text
  effective_whitelist ls none = map tx.lower ls.whitelist_processes
  effective_whitelist ls (some al) =
      map tx.lower ls.whitelist_processes
      ++ (map tx.lower al.whitelist_processes ++ map tx.lower al.agent_processes)
