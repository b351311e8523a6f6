-- ===== src/Server/Context/Limits.antt =====
-- The discount of ml_server/scorer/context_multiplier.py.
use inha_rada.Common.{
  ◌≡◌, Bool, true, ◌&&◌, List, [], ◌∷◌, arith, if◌then◌else◌, if-intro, any, ℤ, pos, ◌+ℤ◌, ◌≤ℤ◌,
  ltb_ℤ, +ℤ_parts,
}
use inha_rada.Server.Signals.{Signals}
use inha_rada.Server.Indicators.{Indicators}
use inha_rada.Server.Context.{
  Label, class_or_free, same_label, ContextPolicy, sum_discounts, is_empty,
  compute_context_discount, is_danger, max_ℤ, Adjusted, apply_context_multiplier,
}

add-nonpos : (a b : ℤ) → a ≤ℤ pos 0 → b ≤ℤ pos 0 → a +ℤ b ≤ℤ pos 0
add-nonpos a b h k = omega (arith, +ℤ_parts a b)

sum_discounts-nonpos :
    (ctx : Label → ℤ) (seen : List Label) (acc : ℤ) (hs : List Label)
    → ((l : Label) → ctx l ≤ℤ pos 0)
    → acc ≤ℤ pos 0
    → sum_discounts ctx seen acc hs ≤ℤ pos 0
unfolding sum_discounts
sum_discounts-nonpos ctx seen acc [] h le = le
sum_discounts-nonpos ctx seen acc (l ∷ hs) h le =
    if-intro (λ x. x ≤ℤ pos 0) (any (same_label l) seen)
      (λ _. sum_discounts-nonpos ctx seen acc hs h le)
      (λ _.
        sum_discounts-nonpos ctx (l ∷ seen) (acc +ℤ ctx l) hs h (add-nonpos acc (ctx l) le (h l)))

limit_lem :
    (d limit : ℤ)
    → limit ≤ℤ pos 0
    → d ≤ℤ pos 0
    → let l = if ltb_ℤ d limit then limit else d in (limit ≤ℤ l) × (l ≤ℤ pos 0)
limit_lem d limit a b = (ground arith, ground arith)

compute_context_discount-between :
    (p : ContextPolicy) (hints : List Label) (teaching : Bool)
    → ((l : Label) → p.context_discounts l ≤ℤ pos 0)
    → p.max_context_discount ≤ℤ pos 0
    → (p.max_context_discount ≤ℤ compute_context_discount p hints teaching)
      × (compute_context_discount p hints teaching ≤ℤ pos 0)
unfolding compute_context_discount
compute_context_discount-between p hints teaching neg limit =
    let low = sum_discounts-nonpos p.context_discounts [] (pos 0) hints neg (omega arith) in
    let lower = add-nonpos _ (p.context_discounts class_or_free) low (neg class_or_free) in
    limit_lem _ p.max_context_discount limit
      (if-intro (λ x. x ≤ℤ pos 0) (teaching && is_empty hints) (λ _. lower) (λ _. low))

override_lem :
    (d over limit : ℤ) (danger : Bool)
    → limit ≤ℤ d
    → d ≤ℤ pos 0
    → over ≤ℤ pos 0
    → let last = if danger then max_ℤ d over else d in
      (limit ≤ℤ last)
      × (last ≤ℤ pos 0)
      × (danger ≡ true → over ≤ℤ last)
      × ((danger && ltb_ℤ d over) ≡ ltb_ℤ d last)
override_lem d over limit danger low high le =
    (ground arith, ground arith, λ e. ground arith, ground arith)

-- The limits on a discount, and what its mark says.
abbrev pub AreLimited : ContextPolicy → List Label → Bool → Signals → Adjusted → Type 0
AreLimited p hints teaching s a =
    (p.max_context_discount ≤ℤ a.last_discount)
    × (a.last_discount ≤ℤ pos 0)
    × (is_danger s ≡ true → p.danger_override ≤ℤ a.last_discount)
    × (a.last_clamped ≡ ltb_ℤ (compute_context_discount p hints teaching) a.last_discount)

-- Where the policy only lowers, the discount lies between the policy's limit and 0, and with a
-- danger signal not below the override either; the mark says whether the override raised it.
pub last_discount-between :
    (p : ContextPolicy) (i : Indicators) (gaming compiling : Bool) (s : Signals)
    (hints : List Label) (teaching : Bool)
    → ((l : Label) → p.context_discounts l ≤ℤ pos 0)
    → p.max_context_discount ≤ℤ pos 0
    → p.danger_override ≤ℤ pos 0
    → AreLimited p hints teaching s (apply_context_multiplier p i gaming compiling s hints teaching)
unfolding apply_context_multiplier
last_discount-between p i gaming compiling s hints teaching neg limit over =
    let (low, high) = compute_context_discount-between p hints teaching neg limit in
    override_lem (compute_context_discount p hints teaching) p.danger_override
      p.max_context_discount (is_danger s) low high over
