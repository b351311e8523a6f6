-- ===== src/Server/Features.antt =====
-- ml_server/feature/feature_builder.py: the ten features of a sample. The floating-point numbers
-- are a parameter.
use inha_rada.Common.{
  ◌≡◌, ap, inl, inr, Bool, true, false, Option, none, some, List, [], ◌∷◌, ◌++◌, if◌then◌else◌,
  Bool-cases, Option-cases,
}

-- Python's arithmetic on floats; `div` is `none` where it raises ZeroDivisionError.
pub record Floats (Num : Type 0) : Type 0 where
  pub nought : Num
  -- 0.001, 1 and 8192
  pub thousandth : Num
  pub one : Num
  pub default_total : Num
  pub plus : Num → Num → Num
  pub minus : Num → Num → Num
  pub times : Num → Num → Num
  pub div : Num → Num → Option Num
  pub is_positive : Num → Bool
  pub is_nought : Num → Bool

-- The fields of a snapshot that the features are made of; `none` is a missing key or `None`.
pub record Snapshot (Num : Type 0) : Type 0 where
  pub cpu_percent : Num
  pub memory_percent : Num
  pub gpu_percent : Option Num
  pub gpu_vram_mb : Option Num
  pub gpu_total_mb : Option Num
  pub disk_read_mb : Num
  pub disk_write_mb : Num
  pub gpu_power_w : Option Num

-- The fields of `GpuMetrics` and `MetricsRequest` that they are made of.
pub record GpuReading (Num : Type 0) : Type 0 where
  pub load_percent : Num
  pub memory_used_mb : Num
  pub memory_total_mb : Num
  pub power_draw_w : Option Num

pub record Reading (Num : Type 0) : Type 0 where
  pub cpu_percent : Num
  pub memory_percent : Num
  pub disk_read_mb : Num
  pub disk_write_mb : Num
  pub gpu : Option (GpuReading Num)

module _ {Num : Type 0} (fl : Floats Num) where
  -- `x or d`
  unfoldable pub or_default : Num → Option Num → Num
  or_default d none = d
  or_default d (some x) = if fl.is_nought x then d else x

  -- The three derived features; a quotient by 0 raises.
  unfoldable pub derived : Num → Num → Num → Num → Option (List Num)
  derived cpu gpu vram total = elim (fl.div cpu (fl.plus gpu fl.thousandth)) [
    | none ↦ none
    | some per_gpu ↦ elim (fl.div vram total) [
      | none ↦ none
      | some ratio ↦ some (per_gpu ∷ fl.minus gpu cpu ∷ fl.times gpu (fl.minus fl.one ratio) ∷ [])
    ]
  ]

  -- `gpu_total_safe`
  unfoldable pub safe_total : Num → Num
  safe_total t = if fl.is_positive t then t else fl.default_total

  unfoldable pub build_features : Num → Num → Num → Num → Num → Num → Num → Num → Option (List Num)
  unfolding derived safe_total
  build_features cpu memory gpu_pct vram_mb gpu_total_mb disk_r disk_w power =
      elim (derived cpu gpu_pct vram_mb (safe_total gpu_total_mb)) [
        | none ↦ none
        | some ds ↦ some ((cpu ∷ memory ∷ gpu_pct ∷ vram_mb ∷ disk_r ∷ disk_w ∷ power ∷ []) ++ ds)
      ]

  unfoldable pub extract_features_from_snapshot : Snapshot Num → Option (List Num)
  unfolding build_features or_default
  extract_features_from_snapshot s =
      build_features s.cpu_percent s.memory_percent (or_default fl.nought s.gpu_percent)
        (or_default fl.nought s.gpu_vram_mb) (or_default fl.default_total s.gpu_total_mb)
        s.disk_read_mb s.disk_write_mb (or_default fl.nought s.gpu_power_w)

  -- With no GPU its fields are 0, and the total is the default.
  unfoldable pub extract_features_from_metrics : Reading Num → Option (List Num)
  unfolding build_features or_default
  extract_features_from_metrics r = elim r.gpu [
    | none ↦
        build_features r.cpu_percent r.memory_percent fl.nought fl.nought fl.default_total
          r.disk_read_mb r.disk_write_mb fl.nought
    | some g ↦
        build_features r.cpu_percent r.memory_percent g.load_percent g.memory_used_mb
          g.memory_total_mb r.disk_read_mb r.disk_write_mb (or_default fl.nought g.power_draw_w)
  ]

  unfoldable pub make_snapshot : Reading Num → Snapshot Num
  make_snapshot r = record {
    cpu_percent = r.cpu_percent;
    memory_percent = r.memory_percent;
    gpu_percent = elim r.gpu [ none ↦ none | some g ↦ some g.load_percent ];
    gpu_vram_mb = elim r.gpu [ none ↦ none | some g ↦ some g.memory_used_mb ];
    gpu_total_mb = elim r.gpu [ none ↦ some fl.default_total | some g ↦ some g.memory_total_mb ];
    disk_read_mb = r.disk_read_mb;
    disk_write_mb = r.disk_write_mb;
    gpu_power_w = elim r.gpu [ none ↦ none | some g ↦ g.power_draw_w ];
  }

-- What the floats must satisfy: only 0 counts as false, and the default total is positive.
pub record IsArithmetic {Num : Type 0} (fl : Floats Num) : Type 0 where
  pub is_nought_only : (x : Num) → fl.is_nought x ≡ true → x ≡ fl.nought
  pub nought_not_positive : fl.is_positive fl.nought ≡ false
  pub default_positive : fl.is_positive fl.default_total ≡ true

module _ {Num : Type 0} (fl : Floats Num) (a : IsArithmetic fl) where
  or_nought : (x : Num) → or_default fl fl.nought (some x) ≡ x
  unfolding or_default
  or_nought x = elim (Bool-cases (fl.is_nought x)) [
    | inl z ↦ rw (z, a.is_nought_only x z)
    | inr nz ↦ rw nz
  ]

  safe_total-or_default :
      (x : Num) → safe_total fl (or_default fl fl.default_total (some x)) ≡ safe_total fl x
  unfolding safe_total or_default
  safe_total-or_default x = elim (Bool-cases (fl.is_nought x)) [
    | inl z ↦ rw (z, a.is_nought_only x z, a.nought_not_positive, a.default_positive)
    | inr nz ↦ rw nz
  ]

  build_features-total :
      (c m g v t u r w p : Num)
      → safe_total fl t ≡ safe_total fl u
      → build_features fl c m g v t r w p ≡ build_features fl c m g v u r w p
  unfolding build_features
  build_features-total c m g v t u r w p e =
      ap
        (λ s. elim (derived fl c g v s) [
          | none ↦ none
          | some ds ↦ some ((c ∷ m ∷ g ∷ v ∷ r ∷ w ∷ p ∷ []) ++ ds)
        ])
        e

  with_gpu :
      (c m r w : Num) (g : GpuReading Num)
      → build_features fl c m
          (or_default fl fl.nought (some g.load_percent))
          (or_default fl fl.nought (some g.memory_used_mb))
          (or_default fl fl.default_total (some g.memory_total_mb))
          r
          w
          (or_default fl fl.nought g.power_draw_w)
        ≡ build_features fl c m g.load_percent g.memory_used_mb g.memory_total_mb r w
            (or_default fl fl.nought g.power_draw_w)
  with_gpu c m r w g =
      rw (or_nought g.load_percent, or_nought g.memory_used_mb)
        (build_features-total c m g.load_percent g.memory_used_mb _ g.memory_total_mb r w _
          (safe_total-or_default g.memory_total_mb))

  without_gpu :
      (c m r w : Num)
      → build_features fl c m
          (or_default fl fl.nought none)
          (or_default fl fl.nought none)
          (or_default fl fl.default_total (some fl.default_total))
          r
          w
          (or_default fl fl.nought none)
        ≡ build_features fl c m fl.nought fl.nought fl.default_total r w fl.nought
  unfolding or_default
  without_gpu c m r w =
      build_features-total c m fl.nought fl.nought _ fl.default_total r w fl.nought
        (safe_total-or_default fl.default_total)

  -- The model is asked with the features it was trained on: those of a request are those of the
  -- snapshot that is stored of it, also where a value is 0 or missing.
  pub extract_features-make_snapshot :
      (r : Reading Num)
      → extract_features_from_snapshot fl (make_snapshot fl r) ≡ extract_features_from_metrics fl r
  unfolding extract_features_from_snapshot make_snapshot extract_features_from_metrics
  extract_features-make_snapshot r = elim (Option-cases r.gpu) [
    | inl e ↦ rw e (without_gpu r.cpu_percent r.memory_percent r.disk_read_mb r.disk_write_mb)
    | inr (g, e) ↦ rw e (with_gpu r.cpu_percent r.memory_percent r.disk_read_mb r.disk_write_mb g)
  ]
