-- ===== src/Client/Config/Reading.antt =====
-- `_from_dict` of client_core/config/loader.py. The conversions of texts are a parameter.
use Prim.Native.String.{String}
use text.Mathlib.Text.{◌==◌ as str_eq}
use inha_rada.Common.{
  Bool, true, false, not, ◌||◌, Option, none, some, List, [], ◌∷◌, if◌then◌else◌, any, ℤ, pos,
}
use inha_rada.Server.Policy.Yaml.{
  Value, null, str, sequence, mapping, Fields, end, field, Items, nil, item, bad_conversion, Result,
  raised, ok, ◌>>=◌, get, as_mapping, is_false,
}
use inha_rada.Client.Config.Settings.{ClientConfig, default_ports, default_config, checked}
use inha_rada.Server.Policy.Sections.{Texts, Floated, finite, other, failed, to_float, to_int}

-- `if k in data: kwargs[k] = convert(data[k])`
unfoldable pub field_or {ℓ} : {A : Type ℓ} → Fields → String → A → (Value → Result A) → Result A
unfolding get
field_or d k a convert = elim (get k d) [ none ↦ ok a | some v ↦ convert v ]

module _ (tx : Texts) where
  -- `int(x)` and `float(x)`, where no handler catches what they raise
  unfoldable pub int_value : String → Value → Result ℤ
  unfolding to_int
  int_value k v =
      to_int tx v >>= λ (o : Option ℤ). elim o [ none ↦ raised (bad_conversion k) | some n ↦ ok n ]

  unfoldable pub float_value : String → Value → Result Floated
  unfolding to_float
  float_value k v = elim (to_float tx v) [
    | failed ↦ raised (bad_conversion k)
    | finite n ↦ ok (finite n)
    | other x ↦ ok (other x)
  ]

  -- `None if v is None else str(v)`
  unfoldable pub optional_text : Value → Result (Option String)
  optional_text null = ok none
  optional_text v = ok (some (tx.str_of v))

  -- `set(int(p) for p in v)`, as a list; a text or a mapping is not taken apart.
  unfoldable pub port_items : Items → Result (List ℤ)
  unfolding int_value
  port_items nil = ok []
  port_items (item v vs) =
      let rest = port_items vs in
      int_value "normal_ports" v >>= λ (p : ℤ). rest >>= λ (ps : List ℤ). ok (p ∷ ps)

  unfoldable pub ports : Value → Result (List ℤ)
  unfolding port_items
  ports (sequence vs) = port_items vs
  ports _ = raised (bad_conversion "normal_ports")

  -- `dict(v)`
  unfoldable pub table : String → Value → Result (Option Fields)
  table k (mapping fs) = ok (some fs)
  table k _ = raised (bad_conversion k)

  -- `{k: dict(v) for k, v in v.items()}`
  unfoldable pub all_tables : Fields → Bool
  all_tables end = true
  all_tables (field k v fs) = elim (as_mapping v) [ none ↦ false | some _ ↦ all_tables fs ]

  unfoldable pub tables : Value → Result (Option Fields)
  unfolding all_tables
  tables (mapping fs) = if all_tables fs then ok (some fs) else raised (bad_conversion "thresholds")
  tables _ = raised (bad_conversion "thresholds")

  -- The arguments that `_from_dict` makes of a mapping, over the defaults.
  unfoldable pub kwargs_of : Fields → Result ClientConfig
  unfolding field_or int_value float_value optional_text ports table tables is_false
  kwargs_of d = do
    interval ← field_or d "interval" (pos 5) (int_value "interval")
    ml_url ← field_or d "ml_server_url" default_config.ml_server_url (λ v. ok (tx.str_of v))
    sb_url ← field_or d "spring_boot_url" default_config.spring_boot_url (λ v. ok (tx.str_of v))
    mode ← field_or d "mode" "springboot" (λ v. ok (tx.str_of v))
    api_key ← field_or d "api_key" none optional_text
    pc_id ← field_or d "pc_id" none optional_text
    local_window ← field_or d "local_window_size" (pos 36) (int_value "local_window_size")
    baseline ← field_or d "hw_baseline_window" (pos 360) (int_value "hw_baseline_window")
    open_ports ← field_or d "normal_ports" default_ports ports
    thresholds ← field_or d "thresholds" none tables
    absolute ← field_or d "absolute_thresholds" none (table "absolute_thresholds")
    ratio ←
        field_or d "hw_degradation_ratio" (finite (pos 2000)) (float_value "hw_degradation_ratio")
    path ← field_or d "local_queue_path" none optional_text
    max_size ← field_or d "local_queue_max_size" (pos 200) (int_value "local_queue_max_size")
    max_bytes ←
        field_or d "local_queue_max_bytes" (pos 10_485_760) (int_value "local_queue_max_bytes")
    fsync ← field_or d "local_queue_fsync" false (λ v. ok (not (is_false v)))
    ok (record {
      interval = interval;
      ml_server_url = ml_url;
      spring_boot_url = sb_url;
      mode = mode;
      api_key = api_key;
      pc_id = pc_id;
      local_window_size = local_window;
      hw_baseline_window = baseline;
      normal_ports = open_ports;
      thresholds = thresholds;
      absolute_thresholds = absolute;
      hw_degradation_ratio = ratio;
      local_queue_path = path;
      local_queue_max_size = max_size;
      local_queue_max_bytes = max_bytes;
      local_queue_fsync = fsync;
    })

  -- `_from_dict` of a mapping
  unfoldable pub from_dict : Fields → Result ClientConfig
  unfolding kwargs_of checked
  from_dict d = kwargs_of d >>= checked

-- The keys that `_from_dict` looks for.
abbrev pub keys : List String
keys =
    "interval" ∷ "ml_server_url" ∷ "spring_boot_url" ∷ "mode" ∷ "api_key" ∷ "pc_id"
    ∷ "local_window_size" ∷ "hw_baseline_window" ∷ "normal_ports" ∷ "thresholds"
    ∷ "absolute_thresholds" ∷ "hw_degradation_ratio" ∷ "local_queue_path" ∷ "local_queue_max_size"
    ∷ "local_queue_max_bytes" ∷ "local_queue_fsync" ∷ []

-- `k in data` of a list
unfoldable pub holds_text : String → Items → Bool
holds_text k nil = false
holds_text k (item (str s) xs) = str_eq s k || holds_text k xs
holds_text k (item _ xs) = holds_text k xs

-- `_from_dict` of what is no mapping: in a list or a text no key may occur, since `data[k]` is an
-- error there, and in a number nothing can be looked for.
unfoldable pub from_other : Texts → Value → Result ClientConfig
unfolding holds_text
from_other tx (sequence xs) =
    if any (λ k. holds_text k xs) keys then raised (bad_conversion "config") else ok default_config
from_other tx (str s) =
    if any (λ k. tx.occurs_in k s) keys then raised (bad_conversion "config") else ok default_config
from_other tx _ = raised (bad_conversion "config")
