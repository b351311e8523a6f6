-- ===== src/Client/Config/Modes.antt =====
-- What client_core/config/loader.py guarantees of a configuration that it loads.
use Prim.Native.String.{String}
use text.Mathlib.Text.{◌==◌ as str_eq}
use text.Mathlib.TextEquality.{eq_iff}
use inha_rada.Common.{
  ◌≡◌, refl, ap, ◌∙◌, subst, ◌⊎◌, inl, inr, Bool, true, false, ◌&&◌, ◌||◌, Option, none, some,
  Bool-cases, Option-cases, any,
}
use inha_rada.Server.Policy.Yaml.{
  Value, null, flag, num, not_finite, str, sequence, mapping, Fields, ok, as_mapping, is_false,
  bind_ok, ok_injective,
}
use inha_rada.Server.Policy.Sections.{Texts}
use inha_rada.Client.Config.Settings.{
  ClientConfig, default_config, is_valid_mode, checked, target_url,
}
use inha_rada.Client.Config.Reading.{kwargs_of, from_dict, keys, holds_text, from_other}
use inha_rada.Client.Config.Loading.{
  Environment, override, override_mode, apply_env_overrides, Disk, config_of, load_config,
}

abbrev pub HasMode : ClientConfig → Type 0
HasMode c = (c.mode ≡ "mlserver") ⊎ (c.mode ≡ "springboot")

valid-HasMode : (c : ClientConfig) → is_valid_mode c.mode ≡ true → HasMode c
unfolding is_valid_mode
valid-HasMode c h = elim (Bool-cases (str_eq c.mode "mlserver")) [
  | inl y ↦ inl ((eq_iff c.mode "mlserver").0 y)
  | inr n ↦ inr (
      (eq_iff c.mode "springboot").0
        (let h' : (false || str_eq c.mode "springboot") ≡ true = rw n at h in h'))
]

checked_ok : (c d : ClientConfig) → checked c ≡ ok d → HasMode d
unfolding checked
checked_ok c d h = elim (Bool-cases (is_valid_mode c.mode)) [
  | inl y ↦
      let h' : ok c ≡ ok d = rw (checked, y) at h in
      subst HasMode (ok_injective h') (valid-HasMode c y)
  | inr n ↦ cc (rw (checked, n) at h)
]

from_dict_ok : (tx : Texts) (d : Fields) (c : ClientConfig) → from_dict tx d ≡ ok c → HasMode c
unfolding from_dict
from_dict_ok tx d c h = let (a, _, r) = bind_ok (kwargs_of tx d) checked h in checked_ok a c r

from_other_ok : (tx : Texts) (v : Value) (c : ClientConfig) → from_other tx v ≡ ok c → HasMode c
unfolding from_other
from_other_ok tx (sequence xs) c h = elim (Bool-cases (any (λ k. holds_text k xs) keys)) [
  | inl y ↦ cc (rw y at h)
  | inr n ↦
      let h' : ok default_config ≡ ok c = rw n at h in subst HasMode (ok_injective h') (inr refl)
]
from_other_ok tx (str s) c h = elim (Bool-cases (any (λ k. tx.occurs_in k s) keys)) [
  | inl y ↦ cc (rw y at h)
  | inr n ↦
      let h' : ok default_config ≡ ok c = rw n at h in subst HasMode (ok_injective h') (inr refl)
]
from_other_ok tx null c h = cc
from_other_ok tx (flag b) c h = cc
from_other_ok tx (num n) c h = cc
from_other_ok tx (not_finite k) c h = cc
from_other_ok tx (mapping fs) c h = cc

config_of_ok :
    (tx : Texts) (disk : Disk) (path : Option String) (c : ClientConfig)
    → config_of tx disk path ≡ ok c
    → HasMode c
unfolding config_of
config_of_ok tx disk none c h = subst HasMode (ok_injective h) (inr refl)
config_of_ok tx disk (some p) c h = elim (Bool-cases (disk.exists p && disk.has_yaml)) [
  | inr absent ↦
      let h' : ok default_config ≡ ok c = rw (config_of, absent) at h in
      subst HasMode (ok_injective h') (inr refl)
  | inl there ↦ elim (Bool-cases (is_false (disk.contents p))) [
    | inl blank ↦
        let h' : ok default_config ≡ ok c = rw (config_of, there, blank) at h in
        subst HasMode (ok_injective h') (inr refl)
    | inr full ↦ elim (Option-cases (as_mapping (disk.contents p))) [
      | inl odd ↦ from_other_ok tx (disk.contents p) c (rw (config_of, there, full, odd) at h)
      | inr (fs, m) ↦ from_dict_ok tx fs c (rw (config_of, there, full, m) at h)
    ]
  ]
]

-- What an override of the mode gives.
record IsOverridden (env : Environment) (before after : ClientConfig) : Type 0 where
  has_mode : HasMode before → HasMode after
  mode_is : (env.rada_mode ≡ none) ⊎ (env.rada_mode ≡ some after.mode)

override_mode_ok :
    (env : Environment) (c d : ClientConfig)
    → override_mode env.rada_mode c ≡ ok d
    → IsOverridden env c d
unfolding override_mode
override_mode_ok env c d h = elim (Option-cases env.rada_mode) [
  | inl none_set ↦
      let h' : ok c ≡ ok d = rw (override_mode, none_set) at h in
      let e = ok_injective h' in
      record { has_mode = λ k. subst HasMode e k; mode_is = inl none_set }
  | inr (m, is_set) ↦ elim (Bool-cases (is_valid_mode m)) [
    | inr bad ↦ cc (rw (override_mode, is_set, bad) at h)
    | inl good ↦
        let h' : ok (record c { mode = m }) ≡ ok d = rw (override_mode, is_set, good) at h in
        let e = ok_injective h' in
        record {
          has_mode = λ k. subst HasMode e (valid-HasMode (record c { mode = m }) good);
          mode_is = inr (is_set ∙ ap (λ (x : ClientConfig). some x.mode) e);
        }
  ]
]

-- A configuration that was loaded.
pub record IsLoaded (env : Environment) (c : ClientConfig) : Type 0 where
  pub has_mode : HasMode c
  pub mode_is : (env.rada_mode ≡ none) ⊎ (env.rada_mode ≡ some c.mode)
  pub url_is :
      (env.rada_spring_boot_url ≡ none) ⊎ (env.rada_spring_boot_url ≡ some c.spring_boot_url)
  pub sent_to :
      (target_url c ≡ c.spring_boot_url)
      ⊎ ((c.mode ≡ "mlserver") × (target_url c ≡ c.ml_server_url))

override_is : (o : Option String) (s : String) → (o ≡ none) ⊎ (o ≡ some (override o s))
unfolding override
override_is none s = inl refl
override_is (some t) s = inr refl

target_url_lem :
    (c : ClientConfig)
    → HasMode c
    → (target_url c ≡ c.spring_boot_url)
      ⊎ ((c.mode ≡ "mlserver") × (target_url c ≡ c.ml_server_url))
unfolding target_url
target_url_lem c h = elim (Bool-cases (str_eq c.mode "springboot")) [
  | inl y ↦ inl (rw (target_url, y) refl)
  | inr n ↦ elim h [
    | inl ml ↦ inr (ml, rw (target_url, n) refl)
    | inr sb ↦ cc ((eq_iff c.mode "springboot").1 sb)
  ]
]

-- Loading either raises or gives a configuration of one of the two modes, whatever path, file and
-- environment there are; a mode and an address of the Spring server that the environment sets are
-- those of the configuration; and payloads go to that server's address, or, in the mode
-- `mlserver` alone, to the ML server's.
pub load_config-IsLoaded :
    (tx : Texts) (env : Environment) (disk : Disk) (path : Option String) (autodiscover : Bool)
    (c : ClientConfig)
    → load_config tx env disk path autodiscover ≡ ok c
    → IsLoaded env c
unfolding load_config apply_env_overrides override
load_config-IsLoaded tx env disk path autodiscover c h =
    let (a, from_file, h1) = bind_ok _ (apply_env_overrides env) h in
    let (b, overridden, h2) = bind_ok (override_mode env.rada_mode a) _ h1 in
    let o = override_mode_ok env a b overridden in
    let e = ok_injective h2 in
    subst (IsLoaded env) e (record {
      has_mode = o.has_mode (config_of_ok tx disk _ a from_file);
      mode_is = o.mode_is;
      url_is = override_is env.rada_spring_boot_url b.spring_boot_url;
      sent_to = target_url_lem _ (o.has_mode (config_of_ok tx disk _ a from_file));
    })
