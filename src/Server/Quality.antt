-- ===== src/Server/Quality.antt =====
-- ml_server/scorer/signal_quality.py and ml_server/scorer/explanation_confidence.py.
use inha_rada.Common.{
  ℕ, ◌+◌, ◌-◌, ◌≤◌, min, ◌≡◌, refl, ◌∙◌, ◌≢◌, ◌⊎◌, inl, inr, Bool, true, false, arith, ltb, leb,
  if◌then◌else◌, pts, Bool-cases, if-intro,
}

pub data Grade : Type 0 where
  missing partial full : Grade

-- `_GRADE_RANK`
unfoldable pub grade_rank : Grade → ℕ
grade_rank missing = 0
grade_rank partial = 1
grade_rank full = 2

-- What `sig_pack` says of the collection.
pub record Collection : Type 0 where
  pub network_missing : Bool
  pub connections_truncated : Bool
  pub process_missing : Bool
  pub gpu_missing : Bool
  pub gpu_partial : Bool
  pub derived_missing : Bool

pub data Source : Type 0 where
  network process gpu derived : Source

-- `sources`
unfoldable pub source_grade : Collection → Source → Grade
source_grade k network =
    if k.network_missing then missing else if k.connections_truncated then partial else full
source_grade k process = if k.process_missing then missing else full
source_grade k gpu = if k.gpu_missing then missing else if k.gpu_partial then partial else full
source_grade k derived = if k.derived_missing then missing else full

abbrev worse : Grade → Grade → Grade
worse a b = if ltb (grade_rank b) (grade_rank a) then b else a

-- `min(sources.values(), key=…)`
unfoldable pub overall_grade : Collection → Grade
unfolding source_grade grade_rank
overall_grade k =
    worse (worse (worse (source_grade k network) (source_grade k process)) (source_grade k gpu))
      (source_grade k derived)

-- `degraded_sources`
unfoldable pub is_degraded : Collection → Source → Bool
unfolding source_grade
is_degraded k s = elim (source_grade k s) [ full ↦ false | _ ↦ true ]

-- The parts of `retrieval_evidence` that count.
pub record Retrieval : Type 0 where
  pub available : Bool
  pub similar_high_risk_count : ℕ
  pub similar_suspicious_count : ℕ
  pub similar_normal_count : ℕ
  pub peer_mismatch : Bool
  pub novelty : Bool
  pub same_slot_peer_count : ℕ

pub data Level : Type 0 where
  high_level medium_level low_level : Level

-- What is added to and taken from the two points at the start.
unfoldable pub gains : Retrieval → ℕ
gains r =
    pts (leb 2 (r.similar_high_risk_count + r.similar_suspicious_count + r.similar_normal_count)) 1
    + pts r.peer_mismatch 1
    + pts (leb 3 r.same_slot_peer_count) 1

unfoldable pub losses : Grade → Retrieval → ℕ
losses full r = if r.available then pts r.novelty 1 else 1
losses _ r = 1 + (if r.available then pts r.novelty 1 else 1)

-- `max(0, min(5, score))`; a score below 0 is 0.
unfoldable pub confidence_score : Grade → Retrieval → ℕ
unfolding gains losses
confidence_score missing r = 0
confidence_score g r = min 5 (2 + (if r.available then gains r else 0) - losses g r)

unfoldable pub compute_explanation_confidence : Grade → Retrieval → Level × ℕ
unfolding confidence_score
compute_explanation_confidence g r =
    let score = confidence_score g r in
    (if leb 4 score then high_level else if leb 2 score then medium_level else low_level, score)

lower_le : (a b : ℕ) → ltb b a ≡ true → b ≤ a
lower_le a b h = ground arith

not_lower_le : (a b : ℕ) → ltb b a ≡ false → a ≤ b
not_lower_le a b h = ground arith

le_chain : {a b c : ℕ} → a ≤ b → b ≤ c → a ≤ c
le_chain h k = omega arith

worse-le :
    (a b : Grade)
    → (grade_rank (worse a b) ≤ grade_rank a) × (grade_rank (worse a b) ≤ grade_rank b)
worse-le a b = elim (Bool-cases (ltb (grade_rank b) (grade_rank a))) [
  | inl lower ↦ rw lower (lower_le (grade_rank a) (grade_rank b) lower, omega arith)
  | inr not_lower ↦ rw not_lower (omega arith, not_lower_le (grade_rank a) (grade_rank b) not_lower)
]

worse_one : (a b : Grade) → (worse a b ≡ a) ⊎ (worse a b ≡ b)
worse_one a b =
    if-intro (λ g. (g ≡ a) ⊎ (g ≡ b)) (ltb (grade_rank b) (grade_rank a)) (λ _. inr refl)
      (λ _. inl refl)

IsOneOf : Collection → Grade → Type 0
IsOneOf k g = (s : Source) × (g ≡ source_grade k s)

worse-IsOneOf : (k : Collection) (a b : Grade) → IsOneOf k a → IsOneOf k b → IsOneOf k (worse a b)
unfolding IsOneOf
worse-IsOneOf k a b (s, e) (t, f) = elim (worse_one a b) [
  | inl first ↦ (s, first ∙ e)
  | inr second ↦ (t, second ∙ f)
]

no_grade_above :
    (k : Collection) (s : Source) → grade_rank (overall_grade k) ≤ grade_rank (source_grade k s)
unfolding overall_grade
no_grade_above k network = le_chain (worse-le _ (source_grade k derived)).0 (
    le_chain (worse-le _ (source_grade k gpu)).0
      (worse-le (source_grade k network) (source_grade k process)).0)
no_grade_above k process = le_chain (worse-le _ (source_grade k derived)).0 (
    le_chain (worse-le _ (source_grade k gpu)).0
      (worse-le (source_grade k network) (source_grade k process)).1)
no_grade_above k gpu =
    le_chain (worse-le _ (source_grade k derived)).0 (worse-le _ (source_grade k gpu)).1
no_grade_above k derived = (worse-le _ (source_grade k derived)).1

-- The overall grade is that of one of the four sources, and no source's is lower.
pub overall_grade-lowest :
    (k : Collection)
    → ((s : Source) × (overall_grade k ≡ source_grade k s))
      × ((s : Source) → grade_rank (overall_grade k) ≤ grade_rank (source_grade k s))
unfolding overall_grade IsOneOf
overall_grade-lowest k =
    let first = worse-IsOneOf k _ _ (network, refl) (process, refl) in
    let second = worse-IsOneOf k _ _ first (gpu, refl) in
    (worse-IsOneOf k _ _ second (derived, refl), no_grade_above k)

-- The confidence is above LOW only where retrieval is available and the input is not missing:
-- without retrieval it is LOW, also where the input is complete.
pub compute_explanation_confidence-available :
    (g : Grade) (r : Retrieval)
    → (compute_explanation_confidence g r).0 ≢ low_level
    → (r.available ≡ true) × (g ≢ missing)
unfolding compute_explanation_confidence confidence_score gains losses
compute_explanation_confidence-available g r h = ground arith
