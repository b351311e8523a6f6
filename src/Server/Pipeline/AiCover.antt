-- ===== src/Server/Pipeline/AiCover.antt =====
-- Which samples the calls of the AI agent in ml_server/api/analyze_router.py leave without one.
use inha_rada.Common.{
  ℕ, ◌+◌, ◌≤◌, ◌<◌, ◌≡◌, refl, ◌⊎◌, inl, inr, true, false, ◌&&◌, Option, none, some, List, [], ◌∷◌,
  ◌++◌, arith, Bool-cases,
}
use inha_rada.Server.Verdict.{Severity, severity_rank}
use inha_rada.Server.Pipeline.{AiCall, needs_ai, may_call, ai_step}
use inha_rada.Server.Pipeline.AiCalls.{ai_run}

-- The last of the calls, or the one before them.
abbrev pub newest : Option AiCall → List AiCall → Option AiCall
newest last [] = last
newest last (c ∷ cs) = newest (some c) cs

-- A call for the sample itself, or one for no lower severity whose cooldown has not passed.
abbrev pub Covers : ℕ → ℕ → ℕ → Option AiCall → Type 0
Covers cooldown now rank none = ⊥
Covers cooldown now rank (some c) = (c ≡ (now, rank)) ⊎ ((rank ≤ c.1) × (now < c.0 + cooldown))

rank-needs_ai : (sev : Severity) → 2 ≤ severity_rank sev → needs_ai sev ≡ true
unfolding needs_ai severity_rank
rank-needs_ai sev h = ground arith

refused-Covers :
    (cooldown : ℕ) (last : Option AiCall) (now rank : ℕ)
    → 0 < cooldown
    → may_call cooldown last now rank ≡ false
    → Covers cooldown now rank last
unfolding may_call
refused-Covers cooldown none now rank h refused = cc
refused-Covers cooldown (some (l, r)) now rank h refused = inr (ground arith, ground arith)

last-Covers :
    (cooldown : ℕ) (last : Option AiCall) (now : ℕ) (sev : Severity)
    → 0 < cooldown
    → 2 ≤ severity_rank sev
    → Covers cooldown now (severity_rank sev) (newest last (ai_run cooldown last ((now, sev) ∷ [])))
unfolding ai_run ai_step
last-Covers cooldown last now sev h two =
    elim (Bool-cases (may_call cooldown last now (severity_rank sev))) [
      | inl allowed ↦ rw (rank-needs_ai sev two, allowed) (inl refl)
      | inr refused ↦
          rw (rank-needs_ai sev two, refused)
            (refused-Covers cooldown last now (severity_rank sev) h refused)
    ]

-- With a cooldown above 0, no sample of MEDIUM or HIGH is passed over for nothing: after it, the
-- newest call is the one for the sample itself, or one for no lower severity whose cooldown has not
-- passed at the sample's time.
pub ai_run-Covers :
    (cooldown : ℕ) (before : List (ℕ × Severity)) (last : Option AiCall) (now : ℕ) (sev : Severity)
    → 0 < cooldown
    → 2 ≤ severity_rank sev
    → Covers cooldown now
        (severity_rank sev)
        (newest last (ai_run cooldown last (before ++ (now, sev) ∷ [])))
unfolding ai_run ai_step
ai_run-Covers cooldown [] last now sev h two = last-Covers cooldown last now sev h two
ai_run-Covers cooldown ((t, s) ∷ more) last now sev h two =
    elim (Bool-cases (needs_ai s && may_call cooldown last t (severity_rank s))) [
      | inl called ↦
          rw called (ai_run-Covers cooldown more (some (t, severity_rank s)) now sev h two)
      | inr quiet ↦ rw quiet (ai_run-Covers cooldown more last now sev h two)
    ]
