-- ===== src/Client/Config/Settings.antt =====
-- The record `ClientConfig` of client_core/config/loader.py with the defaults of defaults.py. Ratios
-- are counted in thousandths.
use Prim.Native.String.{String}
use text.Mathlib.Text.{◌==◌ as str_eq}
use inha_rada.Common.{Bool, false, ◌||◌, Option, none, List, [], ◌∷◌, if◌then◌else◌, ℤ, pos}
use inha_rada.Server.Policy.Yaml.{Fields, out_of_range, Result, raised, ok}
use inha_rada.Server.Policy.Sections.{Floated, finite}

pub record ClientConfig : Type 0 where
  pub interval : ℤ
  pub ml_server_url : String
  pub spring_boot_url : String
  pub mode : String
  pub api_key : Option String
  pub pc_id : Option String
  pub local_window_size : ℤ
  pub hw_baseline_window : ℤ
  pub normal_ports : List ℤ
  -- The tables that the file may replace whole; `none` is the default.
  pub thresholds : Option Fields
  pub absolute_thresholds : Option Fields
  pub hw_degradation_ratio : Floated
  pub local_queue_path : Option String
  pub local_queue_max_size : ℤ
  pub local_queue_max_bytes : ℤ
  pub local_queue_fsync : Bool

abbrev pub default_ports : List ℤ
default_ports =
    pos 80
    ∷ pos 443
    ∷ pos 53
    ∷ pos 123
    ∷ pos 8443
    ∷ pos 5228
    ∷ pos 5229
    ∷ pos 5230
    ∷ pos 1935
    ∷ pos 3478
    ∷ pos 3479
    ∷ pos 5349
    ∷ []

-- `ClientConfig()`
abbrev pub default_config : ClientConfig
default_config = record {
  interval = pos 5;
  ml_server_url = "http://localhost:8000/analyze";
  spring_boot_url = "http://localhost:8080/api/metrics";
  mode = "springboot";
  api_key = none;
  pc_id = none;
  local_window_size = pos 36;
  hw_baseline_window = pos 360;
  normal_ports = default_ports;
  thresholds = none;
  absolute_thresholds = none;
  hw_degradation_ratio = finite (pos 2000);
  local_queue_path = none;
  local_queue_max_size = pos 200;
  local_queue_max_bytes = pos 10_485_760;
  local_queue_fsync = false;
}

-- `mode in VALID_MODES`
unfoldable pub is_valid_mode : String → Bool
is_valid_mode m = str_eq m "mlserver" || str_eq m "springboot"

-- `__post_init__`
unfoldable pub checked : ClientConfig → Result ClientConfig
unfolding is_valid_mode
checked c = if is_valid_mode c.mode then ok c else raised (out_of_range "mode")

unfoldable pub target_url : ClientConfig → String
target_url c = if str_eq c.mode "springboot" then c.spring_boot_url else c.ml_server_url
