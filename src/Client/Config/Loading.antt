-- ===== src/Client/Config/Loading.antt =====
-- `load_config` of client_core/config/loader.py and the overrides of the environment. The file
-- system and the environment are parameters.
use Prim.Native.String.{String}
use text.Mathlib.Text.{◌==◌ as str_eq}
use inha_rada.Common.{Bool, ◌&&◌, Option, none, some, List, [], ◌∷◌, if◌then◌else◌}
use inha_rada.Server.Policy.Yaml.{
  Value, out_of_range, Result, raised, ok, ◌>>=◌, as_mapping, is_false,
}
use inha_rada.Client.Config.Settings.{ClientConfig, default_config, is_valid_mode}
use inha_rada.Client.Config.Reading.{from_dict, from_other}
use inha_rada.Server.Policy.Sections.{Texts}

-- The variables of the environment.
pub record Environment : Type 0 where
  pub rada_mode : Option String
  pub rada_ml_server_url : Option String
  pub rada_spring_boot_url : Option String
  pub rada_api_key : Option String
  pub rada_local_queue_path : Option String
  pub rada_pc_id : Option String
  pub rada_config : Option String
  pub appdata : Option String

unfoldable pub override : Option String → String → String
override none s = s
override (some t) s = t

-- `x or None`
unfoldable pub non_empty : String → Option String
non_empty s = if str_eq s "" then none else some s

unfoldable pub override_mode : Option String → ClientConfig → Result ClientConfig
unfolding is_valid_mode
override_mode none c = ok c
override_mode (some m) c =
    if is_valid_mode m then ok (record c { mode = m }) else raised (out_of_range "RADA_MODE")

-- `_apply_env_overrides`
unfoldable pub apply_env_overrides : Environment → ClientConfig → Result ClientConfig
unfolding override override_mode non_empty
apply_env_overrides env cfg = do
  c ← override_mode env.rada_mode cfg
  ok (record c {
    ml_server_url = override env.rada_ml_server_url c.ml_server_url;
    spring_boot_url = override env.rada_spring_boot_url c.spring_boot_url;
    api_key = elim env.rada_api_key [ none ↦ c.api_key | some k ↦ some k ];
    local_queue_path = elim env.rada_local_queue_path [
      | none ↦ c.local_queue_path
      | some p ↦ non_empty p
    ];
    pc_id = elim env.rada_pc_id [
      | none ↦ c.pc_id
      | some p ↦ if str_eq p "" then c.pc_id else some p
    ];
  })

-- The file system: which paths exist, and what YAML reads there; and whether PyYAML is installed.
pub record Disk : Type 0 where
  pub exists : String → Bool
  pub contents : String → Value
  pub has_yaml : Bool
  -- `Path.cwd() / "config.yaml"`, and `Path(appdata) / "rada" / "config.yaml"`
  pub cwd_path : String
  pub appdata_path : String → String

-- The first of the paths that exists.
unfoldable pub first_existing : Disk → List (Option String) → Option String
first_existing disk [] = none
first_existing disk (none ∷ ps) = first_existing disk ps
first_existing disk (some p ∷ ps) =
    let rest = first_existing disk ps in if disk.exists p then some p else rest

-- `_discover_config_path`
unfoldable pub discover_config_path : Environment → Disk → Option String
unfolding first_existing non_empty
discover_config_path env disk = first_existing disk (
    (elim env.rada_config [ none ↦ none | some p ↦ non_empty p ])
    ∷ some disk.cwd_path
    ∷ (elim env.appdata [
      | none ↦ none
      | some a ↦ if str_eq a "" then none else some (disk.appdata_path a)
    ])
    ∷ [])

-- The configuration of the file, if one is chosen, is there and PyYAML is installed.
unfoldable pub config_of : Texts → Disk → Option String → Result ClientConfig
unfolding from_dict from_other is_false
config_of tx disk none = ok default_config
config_of tx disk (some p) =
    if disk.exists p && disk.has_yaml
    then (if is_false (disk.contents p)
        then ok default_config
        else elim (as_mapping (disk.contents p)) [
          | none ↦ from_other tx (disk.contents p)
          | some fs ↦ from_dict tx fs
        ])
    else ok default_config

-- `load_config`
unfoldable pub load_config : Texts → Environment → Disk → Option String → Bool → Result ClientConfig
unfolding discover_config_path apply_env_overrides config_of non_empty
load_config tx env disk path autodiscover =
    let given : Option String = elim path [ none ↦ none | some p ↦ non_empty p ] in
    let chosen : Option String = elim given [
      | some p ↦ some p
      | none ↦ if autodiscover then discover_config_path env disk else none
    ] in
    config_of tx disk chosen >>= apply_env_overrides env
