-- ===== src/Server/Verdict/Promotion.antt =====
-- `apply_promotion_gating` of ml_server/scorer/verdict_classifier.py.
use inha_rada.Common.{
  ℕ, ◌≤◌, ◌<◌, min, ◌≡◌, refl, sym, subst, ◌↔◌, Bool, true, false, ◌&&◌, none, some, arith, leb,
  if◌then◌else◌, if-intro,
}
use inha_rada.Server.Gating.{Verdict, high_risk, suspicious, observe, normal}
use inha_rada.Server.Verdict.{
  verdict_rank, Reason, gating_disabled, gating_passed, gating_not_applicable, fast_path,
  blocked_high, blocked_high_medium, blocked_medium, EvidenceMeta,
}

-- The policy's section, as loader.py reads it.
pub record PromotionGating : Type 0 where
  pub enabled : Bool
  pub medium_min_signal_count : ℕ
  pub medium_min_category_count : ℕ
  pub high_min_signal_count : ℕ
  pub high_min_category_count : ℕ

-- What scoring_policy.yaml sets.
abbrev pub policy_gating : PromotionGating
policy_gating = record {
  enabled = true;
  medium_min_signal_count = 3;
  medium_min_category_count = 2;
  high_min_signal_count = 4;
  high_min_category_count = 2;
}

abbrev pub enough_high : PromotionGating → EvidenceMeta → Bool
enough_high pg m =
    leb pg.high_min_signal_count m.active_signal_count
    && leb pg.high_min_category_count m.category_count

abbrev pub enough_medium : PromotionGating → EvidenceMeta → Bool
enough_medium pg m =
    leb pg.medium_min_signal_count m.active_signal_count
    && leb pg.medium_min_category_count m.category_count

abbrev gated : Bool → Reason → EvidenceMeta → EvidenceMeta
gated b r m = record m { promotion_gated = b; promotion_reason = r }

unfoldable pub gate_verdict : PromotionGating → Verdict → EvidenceMeta → Verdict × EvidenceMeta
gate_verdict pg high_risk m =
    if enough_high pg m
    then (high_risk, gated false gating_passed m)
    else if enough_medium pg m
    then (suspicious, gated true blocked_high m)
    else (observe, gated true blocked_high_medium m)
gate_verdict pg suspicious m =
    if enough_medium pg m
    then (suspicious, gated false gating_passed m)
    else (observe, gated true blocked_medium m)
gate_verdict pg v m = (v, record m { promotion_reason = gating_not_applicable })

-- The whole function: a fast path goes past the gate.
unfoldable pub apply_promotion_gating :
    PromotionGating → Verdict → EvidenceMeta → Verdict × EvidenceMeta
unfolding gate_verdict
apply_promotion_gating pg v m =
    if pg.enabled
    then elim m.fast_path_match [
      | some f ↦ (v, gated false (fast_path f) m)
      | none ↦ gate_verdict pg v m
    ]
    else (v, record m { promotion_reason = gating_disabled })

-- `r` is a result that the gate may give for the verdict `v` and the evidence `m`.
abbrev pub Guarded : PromotionGating → Verdict → EvidenceMeta → Verdict × EvidenceMeta → Type 0
Guarded pg v m r =
    (verdict_rank r.0 ≤ verdict_rank v)
    × (min 1 (verdict_rank v) ≤ verdict_rank r.0)
    × (r.0 ≡ high_risk → enough_high pg m ≡ true)
    × (r.0 ≡ suspicious → enough_medium pg m ≡ true)
    × ((r.1.promotion_gated ≡ true) ↔ (verdict_rank r.0 < verdict_rank v))
    × (r.1.active_signal_count ≡ m.active_signal_count)
    × (r.1.category_count ≡ m.category_count)

gate_verdict-Guarded :
    (pg : PromotionGating) (v : Verdict) (m : EvidenceMeta)
    → m.promotion_gated ≡ false
    → Guarded pg v m (gate_verdict pg v m)
unfolding gate_verdict verdict_rank
gate_verdict-Guarded pg high_risk m unmarked =
    if-intro (Guarded pg high_risk m) (enough_high pg m)
      (λ h. (
        omega arith,
        omega arith,
        λ e. h,
        λ e. absurd (cc (e)),
        (λ e. absurd (cc (e)), λ l. absurd (omega arith)),
        refl,
        refl,
      ))
      (λ _.
        if-intro (Guarded pg high_risk m) (enough_medium pg m)
          (λ h. (
            omega arith,
            omega arith,
            λ e. absurd (cc (e)),
            λ e. h,
            (λ e. omega arith, λ l. refl),
            refl,
            refl,
          ))
          (λ _. (
            omega arith,
            omega arith,
            λ e. absurd (cc (e)),
            λ e. absurd (cc (e)),
            (λ e. omega arith, λ l. refl),
            refl,
            refl,
          )))
gate_verdict-Guarded pg suspicious m unmarked =
    if-intro (Guarded pg suspicious m) (enough_medium pg m)
      (λ h. (
        omega arith,
        omega arith,
        λ e. absurd (cc (e)),
        λ e. h,
        (λ e. absurd (cc (e)), λ l. absurd (omega arith)),
        refl,
        refl,
      ))
      (λ _. (
        omega arith,
        omega arith,
        λ e. absurd (cc (e)),
        λ e. absurd (cc (e)),
        (λ e. omega arith, λ l. refl),
        refl,
        refl,
      ))
gate_verdict-Guarded pg observe m unmarked = (
  omega arith,
  omega arith,
  λ e. absurd (cc (e)),
  λ e. absurd (cc (e)),
  (λ e. absurd (cc (e, unmarked)), λ l. absurd (omega arith)),
  refl,
  refl,
)
gate_verdict-Guarded pg normal m unmarked = (
  omega arith,
  omega arith,
  λ e. absurd (cc (e)),
  λ e. absurd (cc (e)),
  (λ e. absurd (cc (e, unmarked)), λ l. absurd (omega arith)),
  refl,
  refl,
)

apply_promotion_gating-none :
    (pg : PromotionGating) (v : Verdict) (m : EvidenceMeta)
    → pg.enabled ≡ true
    → m.fast_path_match ≡ none
    → apply_promotion_gating pg v m ≡ gate_verdict pg v m
unfolding apply_promotion_gating
apply_promotion_gating-none pg v m on no_path = ground arith

-- Without a fast path, the enabled gate never raises a verdict, never lowers it below OBSERVE, lets
-- HIGH_RISK out only with the counts for it and SUSPICIOUS only with the counts for that, marks the
-- evidence exactly if it lowered the verdict, and leaves the counts.
pub apply_promotion_gating-Guarded :
    (pg : PromotionGating) (v : Verdict) (m : EvidenceMeta)
    → pg.enabled ≡ true
    → m.fast_path_match ≡ none
    → m.promotion_gated ≡ false
    → Guarded pg v m (apply_promotion_gating pg v m)
apply_promotion_gating-Guarded pg v m on no_path unmarked =
    subst (Guarded pg v m) (sym (apply_promotion_gating-none pg v m on no_path))
      (gate_verdict-Guarded pg v m unmarked)
