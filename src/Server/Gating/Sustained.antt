-- ===== src/Server/Gating/Sustained.antt =====
-- `update_sustained_state` of ml_server/scorer/category_gating.py over any observations.
use inha_rada.Common.{
  ℕ, zero, suc, ◌+◌, ◌*◌, ◌≤◌, ◌<◌, min, ◌≡◌, refl, sym, ap, ◌∙◌, subst, ◌⊎◌, inl, inr, true, false,
  Option, none, some, List, [], ◌∷◌, arith, leb, if◌then◌else◌, Bool-cases, leb→le, le→leb, ℤ, pos,
  ◌≤ℤ◌,
}
use inha_rada.Server.Gating.{
  minute_ms, CategoryState, fresh_state, is_set, anchor, gap_exceeded, reset_on_gap, set_anchors,
  minutes_between, capped, since_minutes, sustained_minutes, updated_state, update_sustained_state,
}

-- An observation: how many categories were abnormal, and when. The newest stands first.
pub record Seen : Type 0 where
  pub cats : ℕ
  pub at : ℕ

-- From the newest observation back to one at `start`, every one had at least `k` abnormal
-- categories, and none came more than `gap` after the one before it.
abbrev pub Covers : ℕ → ℕ → ℕ → List Seen → Type 0
Covers gap k start [] = ⊥
Covers gap k start (o ∷ []) = (k ≤ o.cats) × (o.at ≡ start)
Covers gap k start (o ∷ o' ∷ older) =
    (k ≤ o.cats) × ((o.at ≡ start) ⊎ ((o.at ≤ o'.at + gap) × Covers gap k start (o' ∷ older)))

-- The state after the observations.
unfoldable pub state_after : ℕ → List Seen → CategoryState
state_after gap [] = fresh_state
state_after gap (o ∷ older) = updated_state gap o.cats o.at (state_after gap older)

abbrev Anchors : ℕ → ℕ → Option ℕ → List Seen → Type 0
Anchors gap k since os = (t : ℕ) → since ≡ some t → Covers gap k t os

record Anchored (gap : ℕ) (os : List Seen) (s : CategoryState) : Type 0 where
  three : Anchors gap 3 s.all_three_since os
  two : Anchors gap 2 s.any_two_since os
  one : Anchors gap 1 s.any_one_since os

Covers-first :
    (gap k start : ℕ) (o : Seen) (os : List Seen)
    → k ≤ o.cats
    → o.at ≡ start
    → Covers gap k start (o ∷ os)
Covers-first gap k start o [] h e = (h, e)
Covers-first gap k start o (o' ∷ os) h e = (h, inl e)

Covers-more :
    (gap k start : ℕ) (o : Seen) (os : List Seen)
    → k ≤ o.cats
    → gap_exceeded (state_after gap os).last_ts gap o.at ≡ false
    → Covers gap k start os
    → Covers gap k start (o ∷ os)
unfolding gap_exceeded state_after updated_state
Covers-more gap k start o (o' ∷ os) h near c = (h, inr (ground arith, c))
Covers-more gap k start o [] h near c = absurd c

-- What an update does to the anchor of level `k`.
abbrev next_anchor : ℕ → ℕ → Seen → CategoryState → Option ℕ → Option ℕ
next_anchor gap k o s since =
    if leb k o.cats
    then anchor (if gap_exceeded s.last_ts gap o.at then none else since) o.at
    else none

pub three_updated :
    (gap : ℕ) (o : Seen) (s : CategoryState)
    → (updated_state gap o.cats o.at s).all_three_since ≡ next_anchor gap 3 o s s.all_three_since
unfolding updated_state set_anchors reset_on_gap
three_updated gap o s = ground arith

two_updated :
    (gap : ℕ) (o : Seen) (s : CategoryState)
    → (updated_state gap o.cats o.at s).any_two_since ≡ next_anchor gap 2 o s s.any_two_since
unfolding updated_state set_anchors reset_on_gap
two_updated gap o s = ground arith

one_updated :
    (gap : ℕ) (o : Seen) (s : CategoryState)
    → (updated_state gap o.cats o.at s).any_one_since ≡ next_anchor gap 1 o s s.any_one_since
unfolding updated_state set_anchors reset_on_gap
one_updated gap o s = ground arith

anchor-none : (now : ℕ) → anchor none now ≡ some now
unfolding anchor is_set
anchor-none now = refl

anchor-set : (since : Option ℕ) (now : ℕ) → is_set since ≡ true → anchor since now ≡ since
unfolding anchor
anchor-set since now h = rw h

anchor-unset : (since : Option ℕ) (now : ℕ) → is_set since ≡ false → anchor since now ≡ some now
unfolding anchor
anchor-unset since now h = rw h

next_anchor-Anchors :
    (gap k : ℕ) (since : Option ℕ) (o : Seen) (os : List Seen)
    → Anchors gap k since os
    → Anchors gap k (next_anchor gap k o (state_after gap os) since) (o ∷ os)
next_anchor-Anchors gap k since o os a t e = elim (Bool-cases (leb k o.cats)) [
  | inr low ↦ absurd (cc (rw low at e))
  | inl high ↦
      let h = leb→le k o.cats high in
      elim (Bool-cases (gap_exceeded (state_after gap os).last_ts gap o.at)) [
        | inl far ↦
            let e' : some o.at ≡ some t = sym (anchor-none o.at) ∙ (rw (high, far) at e) in
            Covers-first gap k t o os h (cc (e'))
        | inr near ↦
            let e' : anchor since o.at ≡ some t = rw (high, near) at e in
            elim (Bool-cases (is_set since)) [
              | inl set ↦
                  Covers-more gap k t o os h near (a t (sym (anchor-set since o.at set) ∙ e'))
              | inr unset ↦
                  let fresh : some o.at ≡ some t = sym (anchor-unset since o.at unset) ∙ e' in
                  Covers-first gap k t o os h (cc (fresh))
            ]
      ]
]

after-Anchored : (gap : ℕ) (os : List Seen) → Anchored gap os (state_after gap os)
unfolding state_after fresh_state
after-Anchored gap [] = record { three = λ t e. cc (e); two = λ t e. cc (e); one = λ t e. cc (e) }
after-Anchored gap (o ∷ os) =
    let s = state_after gap os in
    let a = after-Anchored gap os in
    record {
      three = rw (three_updated gap o s) (next_anchor-Anchors gap 3 s.all_three_since o os a.three);
      two = rw (two_updated gap o s) (next_anchor-Anchors gap 2 s.any_two_since o os a.two);
      one = rw (one_updated gap o s) (next_anchor-Anchors gap 1 s.any_one_since o os a.one);
    }

pub is_set-next_anchor :
    (gap k : ℕ) (o : Seen) (s : CategoryState) (since : Option ℕ)
    → k ≤ o.cats
    → 0 < o.at
    → is_set (next_anchor gap k o s since) ≡ true
unfolding anchor is_set
is_set-next_anchor gap k o s since h positive = ground arith

-- Minutes that are counted lie between the anchor and now.
since_minutes_sound :
    (cap n now : ℕ) (since : Option ℕ)
    → 0 < n
    → pos n ≤ℤ since_minutes cap since now
    → (t : ℕ) × (since ≡ some t) × (t + n * minute_ms ≤ now)
unfolding since_minutes minutes_between capped
since_minutes_sound cap n now none h le = absurd (omega arith)
since_minutes_sound cap n now (some t) h le = (t, refl, ground arith)

pub minutes_three :
    (cap cats now : ℕ) (s : CategoryState)
    → 3 ≤ cats
    → is_set s.all_three_since ≡ true
    → sustained_minutes cap cats now s ≡ since_minutes cap s.all_three_since now
unfolding sustained_minutes
minutes_three cap cats now s h set = rw (le→leb 3 cats h, set)

minutes_two :
    (cap now : ℕ) (s : CategoryState)
    → is_set s.any_two_since ≡ true
    → sustained_minutes cap 2 now s ≡ since_minutes cap s.any_two_since now
unfolding sustained_minutes
minutes_two cap now s set = rw set

minutes_one :
    (cap now : ℕ) (s : CategoryState)
    → is_set s.any_one_since ≡ true
    → sustained_minutes cap 1 now s ≡ since_minutes cap s.any_one_since now
unfolding sustained_minutes
minutes_one cap now s set = rw set

-- At a time above 0, and for a positive `n`: if the update counts at least `n` minutes, then for at least `n` minutes up to now every
-- observation had at least as many abnormal categories as the newest one, where three and more are
-- one level, and no observation came more than `gap` after the one before it.
pub sustained-Covers :
    (gap cap n : ℕ) (o : Seen) (os : List Seen)
    → 0 < n
    → 0 < o.at
    → pos n ≤ℤ (update_sustained_state (state_after gap os) o.cats o.at gap cap).1
    → (t : ℕ) × Covers gap (min 3 o.cats) t (o ∷ os) × (t + n * minute_ms ≤ o.at)
unfolding update_sustained_state state_after
sustained-Covers gap cap n o os h positive le = go o.cats refl
  where
    s : CategoryState
    s = state_after gap os

    s' : CategoryState
    s' = state_after gap (o ∷ os)

    a : Anchored gap (o ∷ os) s'
    a = after-Anchored gap (o ∷ os)

    finish :
        (k : ℕ) (since : Option ℕ)
        → min 3 o.cats ≡ k
        → Anchors gap k since (o ∷ os)
        → pos n ≤ℤ since_minutes cap since o.at
        → (t : ℕ) × Covers gap (min 3 o.cats) t (o ∷ os) × (t + n * minute_ms ≤ o.at)
    finish k since level anchors counted =
        let (t, e, span) = since_minutes_sound cap n o.at since h counted in
        (t, subst (λ m. Covers gap m t (o ∷ os)) (sym level) (anchors t e), span)

    counts : (m : ℤ) → sustained_minutes cap o.cats o.at s' ≡ m → pos n ≤ℤ m
    counts m e = subst (λ x. pos n ≤ℤ x) e le

    go :
        (c : ℕ)
        → o.cats ≡ c
        → (t : ℕ) × Covers gap (min 3 o.cats) t (o ∷ os) × (t + n * minute_ms ≤ o.at)
    go zero e = absurd (omega (arith, counts (pos 0) (unfold sustained_minutes in rw e)))
    go (suc zero) e =
        let set = is_set-next_anchor gap 1 o s s.any_one_since (omega arith) positive in
        finish 1 s'.any_one_since (omega arith) a.one (
          counts (since_minutes cap s'.any_one_since o.at) (
            ap (λ c. sustained_minutes cap c o.at s') e
            ∙ minutes_one cap o.at s' (rw (one_updated gap o s) set)))
    go (suc (suc zero)) e =
        let set = is_set-next_anchor gap 2 o s s.any_two_since (omega arith) positive in
        finish 2 s'.any_two_since (omega arith) a.two (
          counts (since_minutes cap s'.any_two_since o.at) (
            ap (λ c. sustained_minutes cap c o.at s') e
            ∙ minutes_two cap o.at s' (rw (two_updated gap o s) set)))
    go (suc (suc (suc c))) e =
        let set = is_set-next_anchor gap 3 o s s.all_three_since (omega arith) positive in
        finish 3 s'.all_three_since (omega arith) a.three (
          counts (since_minutes cap s'.all_three_since o.at)
            (minutes_three cap o.cats o.at s' (omega arith) (rw (three_updated gap o s) set)))
