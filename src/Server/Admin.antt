-- ===== src/Server/Admin.antt =====
-- ml_server/api/admin_auth.py, clear_router.py and the switch of admin_router.py. The rows of one
-- PC stand in a record; a missing row is `none`.
use inha_rada.Common.{
  ℕ, zero, suc, ◌≡◌, refl, ap, ◌≢◌, ◌⊎◌, inl, inr, Bool, true, false, not, ◌&&◌, ◌||◌, Option, none,
  some, List, arith, ltb, ◌==◌, if◌then◌else◌, Bool-cases,
}
use inha_rada.Server.Agent.{Runner, set_ai_enabled, is_ai_enabled}
use inha_rada.Server.Gating.{CategoryState}

-- What the program keeps of one PC. `Row` stands for the contents of the rows that are only
-- dropped; the segments are counted.
pub record Tables (Row : Type 0) : Type 0 where
  pub pc_history : Option Row
  pub pc_train_history : Option Row
  pub all_pc_latest : Option Row
  pub ml_scores_class : Option Row
  pub ml_scores_free : Option Row
  pub rule_scores_class : Option Row
  pub rule_scores_free : Option Row
  pub pc_models : Option Row
  pub segments : ℕ
  -- `_rule_zero_streak` of both slots, `pc_minute_aggregates`, `_pc_minute_buffer`,
  -- `pc_category_state`, `dos_spike_streak` and `ai_call_last`
  pub zero_streak_class : ℕ
  pub zero_streak_free : ℕ
  pub minute_aggregates : List Row
  pub minute_buffer : Option Row
  pub category_state : Option CategoryState
  pub dos_spike_streak : ℕ
  pub ai_call_last : Option Row

pub data Response : Type 0 where
  unauthorized : Response
  cleared : Response
  absent : Response

-- `require_admin_token`; texts are numbered, 0 is the empty one. The token is what the environment
-- holds, without the blanks around it.
unfoldable pub require_admin_token : ℕ → Option ℕ → Bool
require_admin_token expected given =
    if expected == 0
    then true
    else elim given [ none ↦ false | some t ↦ not (t == 0) && (t == expected) ]

module _ {Row : Type 0} where
  unfoldable pub is_there : Option Row → Bool
  is_there none = false
  is_there (some r) = true

  -- `found`
  unfoldable pub found : Tables Row → Bool
  unfolding is_there
  found t =
      is_there t.pc_history
      || is_there t.pc_train_history
      || is_there t.all_pc_latest
      || is_there t.ml_scores_class
      || is_there t.rule_scores_class
      || is_there t.ml_scores_free
      || is_there t.rule_scores_free
      || is_there t.pc_models
      || ltb 0 t.segments

  -- `clear_history`
  unfoldable pub clear_history : Tables Row → Tables Row × Response
  unfolding found
  clear_history t = (
    record t {
      pc_history = none;
      pc_train_history = none;
      all_pc_latest = none;
      ml_scores_class = none;
      ml_scores_free = none;
      rule_scores_class = none;
      rule_scores_free = none;
      pc_models = none;
      segments = 0;
    },
    (if found t then cleared else absent),
  )

  -- `DELETE /history/{pc_id}`
  unfoldable pub delete_history : ℕ → Option ℕ → Tables Row → Tables Row × Response
  unfolding require_admin_token clear_history
  delete_history expected given t =
      if require_admin_token expected given then clear_history t else (t, unauthorized)

-- `POST /admin/agent-enabled`: the switch, and the value that is answered.
unfoldable pub set_agent_enabled : ℕ → Option ℕ → Bool → Runner → Runner × Option Bool
unfolding require_admin_token set_ai_enabled is_ai_enabled
set_agent_enabled expected given enabled r =
    if require_admin_token expected given
    then (let r' = set_ai_enabled enabled r in (r', some (is_ai_enabled r')))
    else (r, none)

-- No token is set, or the request carries the one that is.
abbrev pub MayPass : ℕ → Option ℕ → Type 0
MayPass expected given = (expected ≡ 0) ⊎ (given ≡ some expected)

require_admin_token-cases :
    (expected : ℕ) (given : Option ℕ)
    → ((require_admin_token expected given ≡ true) × MayPass expected given)
      ⊎ ((require_admin_token expected given ≡ false) × (expected ≢ 0) × (given ≢ some expected))
unfolding require_admin_token
require_admin_token-cases zero given = inl (ground arith, inl refl)
require_admin_token-cases (suc n) none = inr (ground arith, (λ h. cc), (λ h. cc))
require_admin_token-cases (suc n) (some zero) = inr (ground arith, (λ h. cc), (λ h. cc))
require_admin_token-cases (suc n) (some (suc t)) = elim (Bool-cases (suc t == suc n)) [
  | inl y ↦ inl (ground arith, inr (ap some (ground arith)))
  | inr differs ↦ inr (ground arith, (λ h. cc), (λ h. ground arith))
]

module _ {Row : Type 0} where
  clear_history-again :
      (t : Tables Row) → clear_history (clear_history t).0 ≡ ((clear_history t).0, absent)
  unfolding clear_history found is_there
  clear_history-again t = refl

  -- With a token set, a request without it or with another is refused and changes nothing; with
  -- the right one, or with none set, the rows are dropped, so that a second request finds
  -- nothing; and the state of the gate, the minutes, the streaks and the last AI call stay.
  pub delete_history-guarded :
      (expected : ℕ) (given : Option ℕ) (t : Tables Row)
      → ((expected ≢ 0)
          × (given ≢ some expected)
          × (delete_history expected given t ≡ (t, unauthorized)))
        ⊎ (MayPass expected given
            × (delete_history expected given (delete_history expected given t).0
                ≡ ((delete_history expected given t).0, absent))
            × ((delete_history expected given t).0.category_state ≡ t.category_state)
            × ((delete_history expected given t).0.minute_aggregates ≡ t.minute_aggregates)
            × ((delete_history expected given t).0.dos_spike_streak ≡ t.dos_spike_streak)
            × ((delete_history expected given t).0.ai_call_last ≡ t.ai_call_last))
  unfolding delete_history
  delete_history-guarded expected given t = elim (require_admin_token-cases expected given) [
    | inl (y, may) ↦ inr (
      may,
      rw (delete_history, y) (clear_history-again t),
      rw (delete_history, y) refl,
      rw (delete_history, y) refl,
      rw (delete_history, y) refl,
      rw (delete_history, y) refl,
    )
    | inr (n, set, differs) ↦ inl (set, differs, rw (delete_history, n) refl)
  ]
