-- ===== src/Server/Gating.antt =====
-- ml_server/scorer/category_gating.py. A time is a whole number of milliseconds since the epoch.
pub mod Sustained
pub mod Confirmed
use inha_rada.Common.{
  ℕ, zero, suc, ◌+◌, ◌-◌, ◌/◌, Bool, true, false, ◌&&◌, Option, none, some, ltb, leb, if◌then◌else◌,
  pts, ℤ, pos, sub_ℕ, leb_ℤ,
}

abbrev pub minute_ms : ℕ
minute_ms = 60_000

-- `_GAP_RESET_SEC`
abbrev pub gap_reset_ms : ℕ
gap_reset_ms = 120_000

-- `_SUSTAINED_CAP_MIN`
abbrev pub sustained_cap_min : ℕ
sustained_cap_min = 720

pub record CategoryState : Type 0 where
  pub all_three_since : Option ℕ
  pub any_two_since : Option ℕ
  pub any_one_since : Option ℕ
  pub last_cats_count : ℕ
  pub last_ts : Option ℕ

-- The state that `get_category_state` of pc_history_store.py starts with.
unfoldable pub fresh_state : CategoryState
fresh_state = record {
  all_three_since = none;
  any_two_since = none;
  any_one_since = none;
  last_cats_count = 0;
  last_ts = some 0;
}

-- `state.get(key)` as a truth value: `None` and 0 are false.
unfoldable pub is_set : Option ℕ → Bool
is_set none = false
is_set (some zero) = false
is_set (some (suc t)) = true

-- `if not state.get(key): state[key] = now`
unfoldable pub anchor : Option ℕ → ℕ → Option ℕ
unfolding is_set
anchor since now = if is_set since then since else some now

unfoldable pub gap_exceeded : Option ℕ → ℕ → ℕ → Bool
gap_exceeded none gap now = false
gap_exceeded (some prev) gap now = ltb (prev + gap) now

-- A gap between two observations resets the anchors.
unfoldable pub reset_on_gap : ℕ → ℕ → CategoryState → CategoryState
unfolding gap_exceeded
reset_on_gap gap now s =
    if gap_exceeded s.last_ts gap now
    then record s { all_three_since = none; any_two_since = none; any_one_since = none }
    else s

unfoldable pub set_anchors : ℕ → ℕ → CategoryState → CategoryState
unfolding anchor
set_anchors cats now s =
    if leb 3 cats
    then record s {
      all_three_since = anchor s.all_three_since now;
      any_two_since = anchor s.any_two_since now;
      any_one_since = anchor s.any_one_since now;
    }
    else if leb 2 cats
    then record s {
      all_three_since = none;
      any_two_since = anchor s.any_two_since now;
      any_one_since = anchor s.any_one_since now;
    }
    else if leb 1 cats
    then record s {
      all_three_since = none;
      any_two_since = none;
      any_one_since = anchor s.any_one_since now;
    }
    else record s { all_three_since = none; any_two_since = none; any_one_since = none }

-- `int((now - since) / 60)`, which truncates towards 0.
unfoldable pub minutes_between : ℕ → ℕ → ℤ
minutes_between since now =
    if leb since now then pos ((now - since) / minute_ms) else sub_ℕ 0 ((since - now) / minute_ms)

-- `min(…, cap_minutes)`
unfoldable pub capped : ℕ → ℤ → ℤ
capped cap m = if leb_ℤ m (pos cap) then m else pos cap

unfoldable pub since_minutes : ℕ → Option ℕ → ℕ → ℤ
unfolding minutes_between capped
since_minutes cap none now = pos 0
since_minutes cap (some since) now = capped cap (minutes_between since now)

-- The `return`s: the anchor of the level that `cats` has reached.
unfoldable pub sustained_minutes : ℕ → ℕ → ℕ → CategoryState → ℤ
unfolding since_minutes is_set
sustained_minutes cap cats now s =
    if leb 3 cats && is_set s.all_three_since
    then since_minutes cap s.all_three_since now
    else if leb 2 cats && is_set s.any_two_since
    then since_minutes cap s.any_two_since now
    else if leb 1 cats && is_set s.any_one_since
    then since_minutes cap s.any_one_since now
    else pos 0

-- The state that `update_sustained_state` leaves.
unfoldable pub updated_state : ℕ → ℕ → ℕ → CategoryState → CategoryState
unfolding reset_on_gap set_anchors
updated_state gap cats now s = record (set_anchors cats now (reset_on_gap gap now s)) {
  last_cats_count = cats;
  last_ts = some now;
}

unfoldable pub update_sustained_state : CategoryState → ℕ → ℕ → ℕ → ℕ → CategoryState × ℤ
unfolding updated_state sustained_minutes
update_sustained_state s cats now gap cap =
    let s' = updated_state gap cats now s in (s', sustained_minutes cap cats now s')

pub data Verdict : Type 0 where
  high_risk suspicious observe normal : Verdict

-- One section of `gating:`.
pub record Tier : Type 0 where
  pub categories_required : ℕ
  pub sustained_minutes : ℤ

pub record GatingConfig : Type 0 where
  pub mining_confirmed : Tier
  pub suspicious_tier : Tier
  pub observe_tier : Tier

-- The values that `evaluate` uses where the policy gives none.
unfoldable pub default_config : GatingConfig
default_config = record {
  mining_confirmed = record { categories_required = 3; sustained_minutes = pos 180 };
  suspicious_tier = record { categories_required = 2; sustained_minutes = pos 30 };
  observe_tier = record { categories_required = 1; sustained_minutes = pos 5 };
}

pub record GatingResult : Type 0 where
  pub verdict : Verdict
  pub cats_count : ℕ
  pub sustained : ℤ
  -- `detail["alert_type"] == "MINING_CONFIRMED_BY_BEHAVIOR"`
  pub mining_confirmed : Bool

abbrev meets : Tier → ℕ → ℤ → Bool
meets t cats sustained = leb t.categories_required cats && leb_ℤ t.sustained_minutes sustained

unfoldable pub tier_verdict : GatingConfig → ℕ → ℤ → Verdict
tier_verdict cfg cats sustained =
    if meets cfg.mining_confirmed cats sustained
    then high_risk
    else if meets cfg.suspicious_tier cats sustained
    then suspicious
    else if meets cfg.observe_tier cats sustained
    then observe
    else normal

-- `evaluate`, of the three flags `abnormal`.
unfoldable pub evaluate :
    Bool → Bool → Bool → CategoryState → GatingConfig → ℕ → CategoryState × GatingResult
unfolding update_sustained_state tier_verdict
evaluate resource network system s cfg now =
    let cats = pts resource 1 + pts network 1 + pts system 1 in
    let (s', sustained) = update_sustained_state s cats now gap_reset_ms sustained_cap_min in
    (
      s',
      record {
        verdict = tier_verdict cfg cats sustained;
        cats_count = cats;
        sustained = sustained;
        mining_confirmed = meets cfg.mining_confirmed cats sustained;
      },
    )
