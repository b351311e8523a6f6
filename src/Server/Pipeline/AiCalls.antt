-- ===== src/Server/Pipeline/AiCalls.antt =====
-- The calls of the AI agent in ml_server/api/analyze_router.py, over a run of samples of one PC.
use inha_rada.Common.{
  ℕ, ◌+◌, ◌≤◌, ◌<◌, ◌≡◌, refl, sym, subst, ◌⊎◌, inl, inr, Bool, true, false, ◌&&◌, ◌||◌, Option,
  none, some, List, [], ◌∷◌, arith, ltb, leb, if◌then◌else◌, Bool-cases, if-intro, leb→le,
}
use inha_rada.Server.Verdict.{Severity, severity_rank}
use inha_rada.Server.Pipeline.{AiCall, needs_ai, may_call, ai_step}

-- The calls that a run of samples (time, severity) makes, in order.
unfoldable pub ai_run : ℕ → Option AiCall → List (ℕ × Severity) → List AiCall
ai_run cooldown last [] = []
ai_run cooldown last ((now, sev) ∷ more) =
    let (called, last') = ai_step cooldown last now sev in
    let rest = ai_run cooldown last' more in
    if called then (now, severity_rank sev) ∷ rest else rest

-- A call may follow the last one.
abbrev pub Follows : ℕ → Option AiCall → AiCall → Type 0
Follows cooldown none c = Unit
Follows cooldown (some (last, rank)) (now, new_rank) =
    (cooldown ≡ 0) ⊎ (rank < new_rank) ⊎ (last + cooldown ≤ now)

abbrev pub AreSpaced : ℕ → Option AiCall → List AiCall → Type 0
AreSpaced cooldown last [] = Unit
AreSpaced cooldown last (c ∷ cs) =
    Follows cooldown last c × (2 ≤ c.1) × AreSpaced cooldown (some c) cs

both : (a b : Bool) → (a && b) ≡ true → (a ≡ true) × (b ≡ true)
both true b h = (refl, h)
both false b h = absurd (cc (h))

last_test : (a b c : Bool) → a ≡ false → b ≡ false → (a || b || c) ≡ true → c ≡ true
last_test true b c e f h = absurd (cc (e))
last_test false true c e f h = absurd (cc (f))
last_test false false c e f h = h

may_call-Follows :
    (cooldown : ℕ) (last : Option AiCall) (now rank : ℕ)
    → may_call cooldown last now rank ≡ true
    → Follows cooldown last (now, rank)
unfolding may_call
may_call-Follows cooldown none now rank h = tt
may_call-Follows cooldown (some (l, r)) now rank h = elim (Bool-cases (leb cooldown 0)) [
  | inl off ↦ inl (ground arith)
  | inr on ↦ elim (Bool-cases (ltb r rank)) [
    | inl higher ↦ inr (inl (ground arith))
    | inr equal ↦
        inr (inr (leb→le (l + cooldown) now (last_test (leb cooldown 0) (ltb r rank) _ on equal h)))
  ]
]

-- What one sample does: it calls, as it may, or it leaves the last call.
abbrev Stepped : ℕ → Option AiCall → ℕ → Severity → Bool × Option AiCall → Type 0
Stepped cooldown last now sev r =
    ((r ≡ (true, some (now, severity_rank sev)))
      × Follows cooldown last (now, severity_rank sev)
      × (2 ≤ severity_rank sev))
    ⊎ (r ≡ (false, last))

needs_ai-rank : (sev : Severity) → needs_ai sev ≡ true → 2 ≤ severity_rank sev
unfolding needs_ai severity_rank
needs_ai-rank sev h = ground arith

ai_step-Stepped :
    (cooldown : ℕ) (last : Option AiCall) (now : ℕ) (sev : Severity)
    → Stepped cooldown last now sev (ai_step cooldown last now sev)
unfolding ai_step
ai_step-Stepped cooldown last now sev =
    if-intro (Stepped cooldown last now sev)
      (needs_ai sev && may_call cooldown last now (severity_rank sev))
      (λ h.
        let (needed, allowed) = both (needs_ai sev) _ h in
        inl (
          refl,
          may_call-Follows cooldown last now (severity_rank sev) allowed,
          needs_ai-rank sev needed,
        ))
      (λ _. inr refl)

spaced_after :
    (cooldown : ℕ) (last : Option AiCall) (now : ℕ) (sev : Severity) (more : List (ℕ × Severity))
    (r : Bool × Option AiCall)
    → Stepped cooldown last now sev r
    → ((l : Option AiCall) → AreSpaced cooldown l (ai_run cooldown l more))
    → AreSpaced cooldown last (
        if r.0
        then (now, severity_rank sev) ∷ ai_run cooldown r.1 more
        else ai_run cooldown r.1 more)
spaced_after cooldown last now sev more r (inl (e, f, two)) rest =
    subst
      (λ r'. AreSpaced cooldown last (
        if r'.0
        then (now, severity_rank sev) ∷ ai_run cooldown r'.1 more
        else ai_run cooldown r'.1 more))
      (sym e) (f, two, rest (some (now, severity_rank sev)))
spaced_after cooldown last now sev more r (inr e) rest =
    subst
      (λ r'. AreSpaced cooldown last (
        if r'.0
        then (now, severity_rank sev) ∷ ai_run cooldown r'.1 more
        else ai_run cooldown r'.1 more))
      (sym e) (rest last)

-- Of the calls that any samples make, each is for MEDIUM or HIGH, and each comes the cooldown after
-- the one before it or is of a higher severity than that, unless the cooldown is 0.
pub ai_run-AreSpaced :
    (cooldown : ℕ) (last : Option AiCall) (samples : List (ℕ × Severity))
    → AreSpaced cooldown last (ai_run cooldown last samples)
unfolding ai_run
ai_run-AreSpaced cooldown last [] = tt
ai_run-AreSpaced cooldown last ((now, sev) ∷ more) =
    spaced_after cooldown last now sev more (ai_step cooldown last now sev)
      (ai_step-Stepped cooldown last now sev) (λ l. ai_run-AreSpaced cooldown l more)
