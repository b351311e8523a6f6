-- ===== src/Server/Policy/Sections.antt =====
-- The builders of ml_server/policy/loader.py for the sections that may be missing.
use Prim.Native.String.{String}
use inha_rada.Common.{
  ℕ, ◌≤◌, ◌<◌, max, ◌≡◌, ap, inl, inr, Bool, Option, none, some, arith, if◌then◌else◌, pts,
  Option-cases, ℤ, pos, negsuc, pos_part,
}
use inha_rada.Server.Policy.Yaml.{
  NonFinite, nan, infinity, neg_infinity, Value, flag, num, not_finite, str, Fields, overflow,
  Result, raised, ok, ◌>>=◌, get, as_mapping, is_false, truncated, bind_ok, ok_injective,
}

-- What the loader calls on texts and values: `float` and `int` of a text, in thousandths and
-- whole, and `str`.
pub record Texts : Type 0 where
  pub is_blank : String → Bool
  pub float_of : String → Option ℤ
  pub int_of : String → Option ℤ
  pub str_of : Value → String
  -- whether the first text occurs in the second
  pub occurs_in : String → String → Bool

-- `float(x)`; `failed` is a TypeError or a ValueError.
pub data Floated : Type 0 where
  finite : ℤ → Floated
  other : NonFinite → Floated
  failed : Floated

unfoldable pub to_float : Texts → Value → Floated
to_float tx (num n) = finite n
to_float tx (flag b) = finite (pos (pts b 1000))
to_float tx (not_finite x) = other x
to_float tx (str s) = elim (tx.float_of s) [ none ↦ failed | some n ↦ finite n ]
to_float tx _ = failed

-- `int(x)`; `none` is a TypeError or a ValueError. An infinity raises an OverflowError.
unfoldable pub to_int : Texts → Value → Result (Option ℤ)
unfolding truncated
to_int tx (num n) = ok (some (truncated n))
to_int tx (flag b) = ok (some (pos (pts b 1)))
to_int tx (not_finite nan) = ok none
to_int tx (not_finite infinity) = raised overflow
to_int tx (not_finite neg_infinity) = raised overflow
to_int tx (str s) = ok (tx.int_of s)
to_int tx _ = ok none

-- `raw.get(k, d) or e`
unfoldable pub get_or : Fields → String → Value → Value → Value
unfolding get is_false
get_or fs k d e =
    let v : Value = elim (get k fs) [ none ↦ d | some w ↦ w ] in if is_false v then e else v

-- `int(raw.get(k, d) or e)` in a handler that falls back to `f`, and not below `least`.
unfoldable pub bounded_int : Texts → Fields → String → Value → Value → ℤ → ℕ → Result ℕ
unfolding to_int get_or
bounded_int tx fs k d e f least = do
  n ← to_int tx (get_or fs k d e)
  ok (max least (pos_part (elim n [ none ↦ f | some m ↦ m ])))

-- `min_inbound_mb_per_5s`: NaN and infinity are kept, and no comparison with NaN holds.
pub record DosDetection : Type 0 where
  pub min_inbound_mb_per_5s : Floated
  pub min_sustained_count : ℕ

unfoldable pub floor_of : Floated → Floated
floor_of failed = finite (pos 0)
floor_of (finite (pos n)) = finite (pos n)
floor_of (finite (negsuc n)) = finite (pos 0)
floor_of (other nan) = other nan
floor_of (other infinity) = other infinity
floor_of (other neg_infinity) = finite (pos 0)

-- `_build_dos_detection`
unfoldable pub build_dos_detection : Texts → Option Value → Result DosDetection
unfolding as_mapping to_float get_or floor_of bounded_int
build_dos_detection tx none =
    ok (record { min_inbound_mb_per_5s = finite (pos 0); min_sustained_count = 1 })
build_dos_detection tx (some raw) = elim (as_mapping raw) [
  | none ↦ ok (record { min_inbound_mb_per_5s = finite (pos 0); min_sustained_count = 1 })
  | some fs ↦ do
    sustained ← bounded_int tx fs "min_sustained_count" (num (pos 1000)) (num (pos 1000)) (pos 1) 1
    ok (record {
      min_inbound_mb_per_5s =
          floor_of (to_float tx (get_or fs "min_inbound_mb_per_5s" (num (pos 0)) (num (pos 0))));
      min_sustained_count = sustained;
    })
]

pub record EpisodeDedupe : Type 0 where
  pub episode_decay_after_normal_count : ℕ
  pub alert_cooldown_seconds : ℕ
  pub ai_call_cooldown_seconds : ℕ

abbrev pub default_dedupe : EpisodeDedupe
default_dedupe = record {
  episode_decay_after_normal_count = 0;
  alert_cooldown_seconds = 0;
  ai_call_cooldown_seconds = 600;
}

-- `_build_episode_dedupe`
unfoldable pub build_episode_dedupe : Texts → Option Value → Result EpisodeDedupe
unfolding as_mapping bounded_int
build_episode_dedupe tx none = ok default_dedupe
build_episode_dedupe tx (some raw) = elim (as_mapping raw) [
  | none ↦ ok default_dedupe
  | some fs ↦ do
    decay ←
        bounded_int tx fs "episode_decay_after_normal_count" (num (pos 0)) (num (pos 0)) (pos 0) 0
    cooldown ← bounded_int tx fs "alert_cooldown_seconds" (num (pos 0)) (num (pos 0)) (pos 0) 0
    ai ← bounded_int tx fs "ai_call_cooldown_seconds" (num (pos 600_000)) (num (pos 0)) (pos 600) 0
    ok (record {
      episode_decay_after_normal_count = decay;
      alert_cooldown_seconds = cooldown;
      ai_call_cooldown_seconds = ai;
    })
]

module _ (tx : Texts) where
  bounded_int-ge :
      (fs : Fields) (k : String) (d e : Value) (f : ℤ) (least n : ℕ)
      → bounded_int tx fs k d e f least ≡ ok n
      → least ≤ n
  unfolding bounded_int
  bounded_int-ge fs k d e f least n h =
      let (m, _, h') = bind_ok (to_int tx (get_or fs k d e)) _ h in
      let same : max least (pos_part (elim m [ none ↦ f | some x ↦ x ])) ≡ n = ok_injective h' in
      omega (arith, same)

  -- The policy never asks for a streak of no samples.
  pub build_dos_detection-pos :
      (raw : Option Value) (d : DosDetection)
      → build_dos_detection tx raw ≡ ok d
      → 0 < d.min_sustained_count
  unfolding build_dos_detection
  build_dos_detection-pos none d h = omega (arith, ap (λ x. x.min_sustained_count) (ok_injective h))
  build_dos_detection-pos (some raw) d h = elim (Option-cases (as_mapping raw)) [
    | inl e ↦
        let h' : ok (record { min_inbound_mb_per_5s = finite (pos 0); min_sustained_count = 1 })
            ≡ ok d =
          rw (build_dos_detection, e) at h in
        omega (arith, ap (λ (x : DosDetection). x.min_sustained_count) (ok_injective h'))
    | inr (fs, e) ↦
        let (n, is_n, h') =
          bind_ok
            (bounded_int tx fs "min_sustained_count" (num (pos 1000)) (num (pos 1000)) (pos 1) 1) _
            (rw (build_dos_detection, e) at h) in
        let least =
          bounded_int-ge fs "min_sustained_count" (num (pos 1000)) (num (pos 1000)) (pos 1) 1 n
            is_n in
        omega (arith, least, ap (λ (x : DosDetection). x.min_sustained_count) (ok_injective h'))
  ]
