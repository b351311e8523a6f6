-- ===== src/Server/Context.antt =====
-- ml_server/scorer/context_multiplier.py. Scores and factors are counted in tenths. Which words the
-- type of an alert contains is given by flags.
pub mod Limits
use Prim.Native.String.{String}
use text.Mathlib.Text.{◌==◌ as str_eq}
use inha_rada.Common.{
  ℕ, suc, ◌+◌, ◌*◌, Bool, true, false, ◌&&◌, ◌||◌, List, [], ◌∷◌, ◌++◌, if◌then◌else◌, any, ℤ, pos,
  negsuc, sub_ℕ, ◌+ℤ◌, ltb_ℤ,
}
use inha_rada.Server.Signals.{Signals}
use inha_rada.Server.Indicators.{Indicators}

-- The labels that the code names, and any other key of the policy's map.
pub data Label : Type 0 where
  startup security_scan maintenance_update lab_agent class_or_free : Label
  other_key : String → Label

unfoldable pub same_label : Label → Label → Bool
same_label startup startup = true
same_label security_scan security_scan = true
same_label maintenance_update maintenance_update = true
same_label lab_agent lab_agent = true
same_label class_or_free class_or_free = true
same_label (other_key s) (other_key t) = str_eq s t
same_label _ _ = false

-- Which words `(la.get("type") or "").lower()` contains.
pub record AlertWords : Type 0 where
  pub has_startup : Bool
  pub has_boot : Bool
  pub has_scan : Bool
  pub has_antivirus : Bool
  pub has_defender : Bool
  pub has_update : Bool
  pub has_maintenance : Bool
  pub has_patch : Bool
  pub has_lab_agent : Bool

-- The hints of one local alert.
unfoldable pub alert_hints : AlertWords → List Label
alert_hints t =
    if t.has_startup || t.has_boot
    then startup ∷ []
    else if t.has_scan || t.has_antivirus || t.has_defender
    then security_scan ∷ []
    else if t.has_update || t.has_maintenance || t.has_patch
    then maintenance_update ∷ []
    else if t.has_lab_agent
    then lab_agent ∷ []
    else []

unfoldable pub local_hints : List AlertWords → List Label
unfolding alert_hints
local_hints [] = []
local_hints (t ∷ ts) = alert_hints t ++ local_hints ts

-- The policy's part: the discounts, and the two limits.
pub record ContextPolicy : Type 0 where
  pub context_discounts : Label → ℤ
  pub max_context_discount : ℤ
  pub danger_override : ℤ

-- The loop over the hints: each label counts once.
unfoldable pub sum_discounts : (Label → ℤ) → List Label → ℤ → List Label → ℤ
unfolding same_label
sum_discounts ctx seen acc [] = acc
sum_discounts ctx seen acc (h ∷ hs) =
    if any (same_label h) seen
    then sum_discounts ctx seen acc hs
    else sum_discounts ctx (h ∷ seen) (acc +ℤ ctx h) hs

abbrev is_empty : List Label → Bool
is_empty [] = true
is_empty (h ∷ hs) = false

-- `_compute_context_discount`, where `teaching` says that the slot is `class` or `free`.
unfoldable pub compute_context_discount : ContextPolicy → List Label → Bool → ℤ
unfolding sum_discounts
compute_context_discount p hints teaching =
    let total = sum_discounts p.context_discounts [] (pos 0) hints in
    let discount =
      if teaching && is_empty hints then total +ℤ p.context_discounts class_or_free else total in
    if ltb_ℤ discount p.max_context_discount then p.max_context_discount else discount

-- `_danger_override`
unfoldable pub is_danger : Signals → Bool
is_danger s =
    s.unknown_process_active && s.net_out_sustained
    || (s.temp_exec || s.appdata_exec) && (s.cpu_high || s.gpu_high)
    || s.disk_write_net_out_sustained
    || s.mining_process_or_pool

abbrev max_ℤ : ℤ → ℤ → ℤ
max_ℤ a b = if ltb_ℤ a b then b else a

-- The factor on all points but the process points.
unfoldable pub multiplier : Bool → Bool → ℕ
multiplier false false = 10
multiplier true false = 4
multiplier false true = 5
multiplier true true = 2

abbrev scale : ℕ → ℤ → ℤ
scale k (pos n) = pos (k * n)
scale k (negsuc n) = sub_ℕ 0 (k * suc n)

-- `raw_score - process_score`
unfoldable pub other_score : Indicators → ℤ
other_score i =
    i.gpu_mining +ℤ i.cpu_mining +ℤ i.stealth +ℤ pos (i.exfil + i.dos + i.backdoor + i.mem + i.ml)

-- The results, and the two attributes that the function sets on itself.
pub record Adjusted : Type 0 where
  pub raw_score : ℤ
  pub adjusted : ℤ
  pub multiplier : ℕ
  pub last_discount : ℤ
  pub last_clamped : Bool

unfoldable pub apply_context_multiplier :
    ContextPolicy → Indicators → Bool → Bool → Signals → List Label → Bool → Adjusted
unfolding other_score multiplier compute_context_discount is_danger
apply_context_multiplier p i is_gaming is_compiling s hints teaching =
    let k = multiplier is_gaming is_compiling in
    let discount = compute_context_discount p hints teaching in
    let override = max_ℤ discount p.danger_override in
    record {
      raw_score = other_score i +ℤ pos i.process;
      adjusted = pos (10 * i.process) +ℤ scale k (other_score i);
      multiplier = k;
      last_discount = if is_danger s then override else discount;
      last_clamped = is_danger s && ltb_ℤ discount p.danger_override;
    }
