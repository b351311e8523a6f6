-- ===== src/Server/Retrieval/Evidence.antt =====
-- ml_server/retrieval/retrieval_evidence.py. Distances are counted in ten-thousandths, to which the
-- store rounds them, and loads in thousandths.
use inha_rada.Common.{
  ℕ, zero, suc, ◌+◌, ◌/◌, max, Bool, true, false, not, ◌&&◌, ◌||◌, Option, none, some, List, [],
  ◌∷◌, ltb, leb, ◌==◌, if◌then◌else◌, pts, length, count_if, ℤ, pos, negsuc, sub_ℕ, ltb_ℤ,
}
use inha_rada.Server.Gating.{Verdict, high_risk, suspicious, observe, normal}

-- A retrieved case; a missing key, or a verdict that is none of the four, is `none`.
pub record Case : Type 0 where
  pub verdict : Option Verdict
  pub distance : Option ℕ

pub record Snap : Type 0 where
  pub cpu_percent : ℕ
  pub gpu_percent : Option ℕ

-- PCs and slots are numbered; 0 is the empty slot.
pub record Segment : Type 0 where
  pub pc_id : ℕ
  pub slot : ℕ
  pub snapshots : List Snap

pub record Peer : Type 0 where
  pub pc_id : ℕ
  pub slot : ℕ
  pub cpu_percent : ℕ

pub data Mode : Type 0 where
  cosine euclidean : Mode

pub record Evidence : Type 0 where
  pub available : Bool
  pub retrieval_score : ℤ
  pub similar_normal_count : ℕ
  pub similar_observe_count : ℕ
  pub similar_suspicious_count : ℕ
  pub similar_high_risk_count : ℕ
  pub novelty : Bool
  pub peer_mismatch : Bool
  pub same_slot_peer_count : ℕ
  pub similar_peer_spike_count : ℕ
  pub top_k : List Case

-- `_near_threshold`, with the defaults 0.05 and 50.0
unfoldable pub near_threshold : Mode → ℕ
near_threshold cosine = 500
near_threshold euclidean = 500_000

abbrev pub empty_evidence : Evidence
empty_evidence = record {
  available = false;
  retrieval_score = pos 0;
  similar_normal_count = 0;
  similar_observe_count = 0;
  similar_suspicious_count = 0;
  similar_high_risk_count = 0;
  novelty = false;
  peer_mismatch = false;
  same_slot_peer_count = 0;
  similar_peer_spike_count = 0;
  top_k = [];
}

unfoldable pub same : Verdict → Verdict → Bool
same normal normal = true
same observe observe = true
same suspicious suspicious = true
same high_risk high_risk = true
same _ _ = false

unfoldable pub is_verdict : Verdict → Case → Bool
unfolding same
is_verdict v c = elim c.verdict [ none ↦ false | some w ↦ same v w ]

-- `float(c.get("distance", 1e9) or 1e9)`
unfoldable pub distance_of : Option ℕ → ℕ
distance_of none = 10_000_000_000_000
distance_of (some zero) = 10_000_000_000_000
distance_of (some (suc n)) = suc n

unfoldable pub is_near_normal : ℕ → Case → Bool
unfolding is_verdict distance_of
is_near_normal near_th c = is_verdict normal c && ltb (distance_of c.distance) near_th

-- The last snapshot; without one, loads of 0.
unfoldable pub last_snap : List Snap → Snap
last_snap [] = record { cpu_percent = 0; gpu_percent = none }
last_snap (s ∷ []) = s
last_snap (s ∷ t ∷ ts) = last_snap (t ∷ ts)

-- The other PCs of the slot, and those of them that are busy.
unfoldable pub is_peer : Segment → Peer → Bool
is_peer g p = not (p.pc_id == g.pc_id) && (p.slot == 0 || (p.slot == g.slot))

unfoldable pub is_spike : Segment → Peer → Bool
unfolding is_peer
is_spike g p = is_peer g p && leb 70_000 p.cpu_percent

-- `_peer_compare`, with the segment's snapshots as an argument of its own.
unfoldable pub compare_peers : Segment → List Snap → List Peer → ℕ × ℕ × Bool
unfolding last_snap is_peer is_spike count_if
compare_peers g snaps [] = (0, 0, false)
compare_peers g [] (p ∷ ps) = (0, 0, false)
compare_peers g (s ∷ ss) (p ∷ ps) =
    let same_slot = count_if (is_peer g) (p ∷ ps) in
    let spikes = count_if (is_spike g) (p ∷ ps) in
    (
      same_slot,
      spikes,
      leb 3 same_slot && leb 70_000 (last_snap (s ∷ ss)).cpu_percent && (spikes == 0),
    )

unfoldable pub peer_compare : Segment → List Peer → ℕ × ℕ × Bool
unfolding compare_peers
peer_compare g ps = compare_peers g g.snapshots ps

-- `_is_spiking`
unfoldable pub is_spiking : Snap → Bool
is_spiking s =
    leb 70_000 s.cpu_percent || elim s.gpu_percent [ none ↦ false | some g ↦ leb 70_000 g ]

-- The clamp to -2 and 5.
unfoldable pub clamp : ℤ → ℤ
clamp n = if ltb_ℤ n (negsuc 1) then negsuc 1 else if ltb_ℤ (pos 5) n then pos 5 else n

unfoldable pub any_of : Verdict → List Case → Bool
unfolding is_verdict count_if
any_of v cases = ltb 0 (count_if (is_verdict v) cases)

-- The points for `total` cases, of which `near_normal` are near and normal.
unfoldable pub score_of : ℕ → ℕ → Bool → Bool → Bool → Bool → ℤ
unfolding clamp
score_of total near_normal spiking high susp mismatch = clamp (
    sub_ℕ (pts high 3 + pts susp 2 + pts (total == 0) 1 + pts mismatch 2)
      (pts (ltb 0 total && leb (max 2 ((total + 1) / 2)) near_normal && not spiking) 2))

-- `_build_retrieval_evidence_inner` of a segment that is there.
unfoldable pub evidence_of : Mode → Segment → List Case → List Peer → Evidence
unfolding near_threshold is_near_normal peer_compare is_spiking last_snap any_of score_of count_if
evidence_of mode g cases peers =
    let (same_slot, spikes, mismatch) = peer_compare g peers in
    record {
      available = true;
      retrieval_score =
          score_of (length cases) (count_if (is_near_normal (near_threshold mode)) cases)
            (is_spiking (last_snap g.snapshots)) (any_of high_risk cases) (any_of suspicious cases)
            mismatch;
      similar_normal_count = count_if (is_verdict normal) cases;
      similar_observe_count = count_if (is_verdict observe) cases;
      similar_suspicious_count = count_if (is_verdict suspicious) cases;
      similar_high_risk_count = count_if (is_verdict high_risk) cases;
      novelty = length cases == 0;
      peer_mismatch = mismatch;
      same_slot_peer_count = same_slot;
      similar_peer_spike_count = spikes;
      top_k = cases;
    }

-- `build_retrieval_evidence`; on these types nothing raises.
unfoldable pub build_retrieval_evidence : Mode → Option Segment → List Case → List Peer → Evidence
unfolding evidence_of
build_retrieval_evidence mode none cases peers = empty_evidence
build_retrieval_evidence mode (some g) cases peers = evidence_of mode g cases peers
