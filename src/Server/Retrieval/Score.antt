-- ===== src/Server/Retrieval/Score.antt =====
-- When ml_server/retrieval/retrieval_evidence.py lowers a score.
use inha_rada.Common.{
  ℕ, zero, suc, ◌+◌, ◌/◌, ◌≤◌, max, ◌≡◌, refl, ap, ◌↔◌, Bool, true, false, ◌&&◌, Option, none, some,
  List, [], ◌∷◌, arith, ltb, leb, ◌==◌, length, count_if, pos, ◌<ℤ◌,
}
use inha_rada.Server.Gating.{high_risk, suspicious, normal}
use inha_rada.Server.Retrieval.Evidence.{
  Case, Snap, Segment, Peer, Mode, cosine, euclidean, near_threshold, is_verdict, distance_of,
  is_near_normal, last_snap, is_peer, is_spike, compare_peers, peer_compare, is_spiking, clamp,
  any_of, score_of, evidence_of, build_retrieval_evidence,
}

module _ {ℓ} {A : Type ℓ} where
  count_if-le : (p : A → Bool) (xs : List A) → count_if p xs ≤ length xs
  unfolding count_if
  count_if-le p [] = omega arith
  count_if-le p (x ∷ xs) = ground (arith, count_if-le p xs)

  count_if_same :
      (p q : A → Bool) (xs : List A) → ((x : A) → p x ≡ q x) → count_if p xs ≡ count_if q xs
  unfolding count_if
  count_if_same p q [] h = refl
  count_if_same p q (x ∷ xs) h = ground (arith, h x, count_if_same p q xs h)

-- A case is near if its distance is known, is not 0 and is below the threshold.
abbrev pub within : ℕ → Option ℕ → Bool
within th none = false
within th (some d) = ltb 0 d && ltb d th

-- How many of the cases are normal and near.
abbrev pub near_normals : Mode → List Case → ℕ
near_normals mode cases =
    count_if (λ c. is_verdict normal c && within (near_threshold mode) c.distance) cases

within_lem :
    (mode : Mode) (d : Option ℕ)
    → ltb (distance_of d) (near_threshold mode) ≡ within (near_threshold mode) d
unfolding distance_of near_threshold
within_lem cosine none = refl
within_lem euclidean none = refl
within_lem cosine (some zero) = refl
within_lem euclidean (some zero) = refl
within_lem cosine (some (suc n)) = ground arith
within_lem euclidean (some (suc n)) = ground arith

near_normals_lem :
    (mode : Mode) (cases : List Case)
    → count_if (is_near_normal (near_threshold mode)) cases ≡ near_normals mode cases
unfolding is_near_normal
near_normals_lem mode cases =
    count_if_same _ _ cases
      (λ (c : Case). ap (λ b. is_verdict normal c && b) (within_lem mode c.distance))

middle : (a b c : Bool) → (a && b && c) ≡ true → b ≡ true
middle a true c h = refl
middle true false c h = h
middle false false c h = cc

compare_peers-spiking :
    (g : Segment) (snaps : List Snap) (ps : List Peer)
    → (compare_peers g snaps ps).2 ≡ true
    → is_spiking (last_snap snaps) ≡ true
unfolding compare_peers is_spiking
compare_peers-spiking g [] [] h = cc
compare_peers-spiking g (s ∷ ss) [] h = cc
compare_peers-spiking g [] (p ∷ ps) h = cc
compare_peers-spiking g (s ∷ ss) (p ∷ ps) h =
    let busy =
      middle (leb 3 (count_if (is_peer g) (p ∷ ps))) (leb 70_000 (last_snap (s ∷ ss)).cpu_percent)
        (count_if (is_spike g) (p ∷ ps) == 0) h in
    rw busy refl

-- A score is negative: both ways, the tests being given.
score_of-negative :
    (total near : ℕ) (spiking high susp mismatch : Bool)
    → near ≤ total
    → (mismatch ≡ true → spiking ≡ true)
    → (score_of total near spiking high susp mismatch <ℤ pos 0)
      ↔ ((max 2 ((total + 1) / 2) ≤ near) × (spiking ≡ false) × (high ≡ false) × (susp ≡ false))
unfolding score_of clamp
score_of-negative total near spiking true susp mismatch h k = (λ s. ground arith, λ s. cc)
score_of-negative total near spiking false true mismatch h k = (λ s. ground arith, λ s. cc)
score_of-negative total near true false false mismatch h k = (λ s. ground arith, λ s. cc)
score_of-negative total near false false false true h k = absurd (cc (k refl))
score_of-negative total near false false false false h k =
    (λ s. ground arith, λ s. ground (arith, s.0))

-- The score of a segment is negative exactly if it is not spiking itself, no case is HIGH_RISK or
-- SUSPICIOUS, and of the cases at least two, and at least half, are NORMAL and at a distance
-- below the threshold that is not 0: a case at distance 0 never counts as near.
pub build_retrieval_evidence-negative :
    (mode : Mode) (g : Segment) (cases : List Case) (peers : List Peer)
    → ((build_retrieval_evidence mode (some g) cases peers).retrieval_score <ℤ pos 0) ↔ (
        (max 2 ((length cases + 1) / 2) ≤ near_normals mode cases)
        × (is_spiking (last_snap g.snapshots) ≡ false)
        × (any_of high_risk cases ≡ false)
        × (any_of suspicious cases ≡ false))
unfolding build_retrieval_evidence evidence_of
build_retrieval_evidence-negative mode g cases peers = rw (near_normals_lem mode cases) (
    score_of-negative (length cases) (near_normals mode cases) (is_spiking (last_snap g.snapshots))
      (any_of high_risk cases) (any_of suspicious cases) (peer_compare g peers).2
      (count_if-le _ cases) (compare_peers-spiking g g.snapshots peers))
