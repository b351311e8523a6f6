-- ===== src/Server/Gating/Confirmed.antt =====
-- HIGH_RISK of `evaluate` in ml_server/scorer/category_gating.py.
use inha_rada.Common.{
  ℕ, ◌+◌, ◌*◌, ◌≤◌, ◌<◌, min, ◌≡◌, ap, ◌∙◌, subst, Bool, true, false, some, List, [], ◌∷◌, arith,
  pts, le→leb, ℤ, pos, ◌≤ℤ◌,
}
use inha_rada.Server.Gating.{
  minute_ms, gap_reset_ms, sustained_cap_min, CategoryState, fresh_state, is_set, anchor,
  gap_exceeded, reset_on_gap, set_anchors, minutes_between, capped, since_minutes,
  sustained_minutes, updated_state, update_sustained_state, high_risk, default_config, tier_verdict,
  evaluate,
}
use inha_rada.Server.Gating.Sustained.{Seen, Covers, state_after, minutes_three, sustained-Covers}

tier_high_risk :
    (cats : ℕ) (m : ℤ)
    → tier_verdict default_config cats m ≡ high_risk
    → (3 ≤ cats) × (pos 180 ≤ℤ m)
unfolding tier_verdict default_config
tier_high_risk cats m h = ground arith

three_flags :
    (r n s : Bool)
    → 3 ≤ pts r 1 + pts n 1 + pts s 1
    → (r ≡ true) × (n ≡ true) × (s ≡ true) × (pts r 1 + pts n 1 + pts s 1 ≡ 3)
three_flags r n s h = ground arith

-- With the default tiers, after any observations and at a time above 0, HIGH_RISK is given only if all three categories
-- are abnormal now and were at every observation of the last 180 minutes at least, with no gap of
-- more than two minutes between two of them.
pub evaluate-Covers :
    (r n s : Bool) (os : List Seen) (now : ℕ)
    → 0 < now
    → (evaluate r n s (state_after gap_reset_ms os) default_config now).1.verdict ≡ high_risk
    → (r ≡ true)
      × (n ≡ true)
      × (s ≡ true)
      × ((t : ℕ) × Covers gap_reset_ms 3 t (record { cats = 3; at = now } ∷ os)
          × (t + 180 * minute_ms ≤ now))
unfolding evaluate
evaluate-Covers r n s os now positive h =
    let o : Seen = record { cats = pts r 1 + pts n 1 + pts s 1; at = now } in
    let (enough, long) = tier_high_risk o.cats _ h in
    let (er, en, es, three) = three_flags r n s enough in
    let (t, covers, span) =
      sustained-Covers gap_reset_ms sustained_cap_min 180 o os (omega arith) positive long in
    (
      er,
      en,
      es,
      (
        t,
        subst (λ c. Covers gap_reset_ms (min 3 c) t (record { cats = c; at = now } ∷ os)) three
            covers,
        span,
      ),
    )

-- All three categories were abnormal at every observation, the first at `start`, with no gap.
abbrev pub Unbroken : ℕ → ℕ → List Seen → Type 0
Unbroken gap start [] = ⊥
Unbroken gap start (o ∷ []) = (3 ≤ o.cats) × (o.at ≡ start)
Unbroken gap start (o ∷ o' ∷ older) =
    (3 ≤ o.cats) × (o.at ≤ o'.at + gap) × Unbroken gap start (o' ∷ older)

next_three :
    (gap start : ℕ) (o : Seen) (s : CategoryState)
    → 3 ≤ o.cats
    → gap_exceeded s.last_ts gap o.at ≡ false
    → 0 < start
    → s.all_three_since ≡ some start
    → (updated_state gap o.cats o.at s).all_three_since ≡ some start
unfolding updated_state set_anchors reset_on_gap anchor is_set
next_three gap start o s h near positive e = ground arith

first_three :
    (gap : ℕ) (o : Seen) → 3 ≤ o.cats → (state_after gap (o ∷ [])).all_three_since ≡ some o.at
unfolding state_after fresh_state updated_state set_anchors reset_on_gap anchor is_set
first_three gap o h = ground arith

near_last :
    (gap : ℕ) (o o' : Seen) (os : List Seen)
    → o.at ≤ o'.at + gap
    → gap_exceeded (state_after gap (o' ∷ os)).last_ts gap o.at ≡ false
unfolding gap_exceeded state_after updated_state
near_last gap o o' os h = ground arith

pub Unbroken-anchor :
    (gap start : ℕ) (os : List Seen)
    → 0 < start
    → Unbroken gap start os
    → (state_after gap os).all_three_since ≡ some start
unfolding state_after
Unbroken-anchor gap start [] positive u = absurd u
Unbroken-anchor gap start (o ∷ []) positive u = first_three gap o u.0 ∙ ap some u.1
Unbroken-anchor gap start (o ∷ o' ∷ os) positive u =
    next_three gap start o (state_after gap (o' ∷ os)) u.0 (near_last gap o o' os u.1) positive
      (Unbroken-anchor gap start (o' ∷ os) positive u.2)

minutes_enough :
    (cap n start now : ℕ)
    → n ≤ cap
    → start + n * minute_ms ≤ now
    → pos n ≤ℤ since_minutes cap (some start) now
unfolding since_minutes minutes_between capped
minutes_enough cap n start now h span = ground arith

counted_three :
    (start now : ℕ) (s : CategoryState)
    → 0 < start
    → s.all_three_since ≡ some start
    → start + 180 * minute_ms ≤ now
    → pos 180 ≤ℤ sustained_minutes sustained_cap_min 3 now s
unfolding is_set
counted_three start now s positive since span =
    let set : is_set s.all_three_since ≡ true = rw since (ground arith) in
    rw (minutes_three sustained_cap_min 3 now s (omega arith) set, since)
      (minutes_enough sustained_cap_min 180 start now (omega arith) span)

tier_confirmed : (m : ℤ) → pos 180 ≤ℤ m → tier_verdict default_config 3 m ≡ high_risk
unfolding tier_verdict default_config
tier_confirmed m h = ground arith

-- Where all three categories were abnormal at every observation since `start`, a time above 0,
-- without a gap of more than two minutes, and the tiers are the default ones, mining is confirmed from the observation on that is 180 minutes later.
pub Unbroken-evaluate :
    (start : ℕ) (os : List Seen) (now : ℕ)
    → 0 < start
    → Unbroken gap_reset_ms start (record { cats = 3; at = now } ∷ os)
    → start + 180 * minute_ms ≤ now
    → ((evaluate true true true (state_after gap_reset_ms os) default_config now).1.verdict
        ≡ high_risk)
      × ((evaluate true true true
            (state_after gap_reset_ms os)
            default_config
            now).1.mining_confirmed
          ≡ true)
unfolding evaluate update_sustained_state state_after default_config
Unbroken-evaluate start os now positive u span =
    let o : Seen = record { cats = 3; at = now } in
    let s = state_after gap_reset_ms (o ∷ os) in
    let since = Unbroken-anchor gap_reset_ms start (o ∷ os) positive u in
    let counted = counted_three start now s positive since span in
    (tier_confirmed _ counted, le→leb _ _ counted)
