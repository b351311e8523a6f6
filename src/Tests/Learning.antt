-- ===== src/Tests/Learning.antt =====
-- The theorems on features, training, retrieval and the detectors at concrete inputs.
use mathlib.Core.List.{Perm}
use inha_rada.Common.{
  ℕ, zero, suc, ◌+◌, ◌-◌, ◌*◌, ◌/◌, ◌≤◌, min, max, ◌≡◌, refl, ◌↔◌, true, false, Option, none, some,
  List, [], ◌∷◌, ◌++◌, map, arith, ltb, ◌==◌, length, replicate, All, pos, ◌<ℤ◌,
}
use inha_rada.Deque.{last_n}
use inha_rada.Server.Counters.{no_failures}
use inha_rada.Server.Gating.{normal, suspicious, high_risk}
use inha_rada.Server.Features.{
  Floats, Reading, IsArithmetic, make_snapshot, extract_features_from_snapshot,
  extract_features_from_metrics, extract_features-make_snapshot,
}
use inha_rada.Server.Retraining.{get_sample_count, trained}
use inha_rada.Server.Retraining.Schedule.{
  untrained, HasFeatures, trained-sample_count, trained-model_stays,
}
use inha_rada.Server.Retrieval.Evidence.{
  Case, Segment, cosine, build_retrieval_evidence, is_spiking, last_snap, any_of,
}
use inha_rada.Server.Retrieval.Score.{near_normals, build_retrieval_evidence-negative}
use inha_rada.Server.Retrieval.Store.{
  Space, StoredSegment, Item, Store, maxlen, slot_of, reset_store, scored, found_of, search_similar,
}
use inha_rada.Server.Retrieval.Nearest.{Ascending, search_similar-nearest}
use inha_rada.Server.Retrieval.Evictions.{Add, stored, added, added-last_n}

-- A sample is its own feature, and fitting counts the rows.
abbrev own : ℕ → Option ℕ
own n = some n

abbrev counting : List ℕ → List ℕ → Option ℕ
counting xs ys = some (length xs)

always : (xs ys : List ℕ) → (f : ℕ) × (counting xs ys ≡ some f)
always xs ys = (length xs, refl)

usable : (n : ℕ) → All (HasFeatures own counting) (replicate n 1)
usable zero = tt
usable (suc n) = ((1, refl), usable n)

trained-sample_count_example :
    get_sample_count (trained own counting untrained no_failures (replicate 130 1)).0.model
    ≡ min 130 720 / 60 * 60
trained-sample_count_example =
    trained-sample_count own counting no_failures (replicate 130 1) always (usable 130)

trained-model_stays_example :
    (trained own counting untrained no_failures (replicate 720 1 ++ 7 ∷ 8 ∷ [])).0.model
    ≡ (trained own counting untrained no_failures (replicate 720 1)).0.model
trained-model_stays_example =
    trained-model_stays own counting no_failures (replicate 720 1) (7 ∷ 8 ∷ []) always (usable 720)
      (omega arith)

-- Whole numbers in the place of floats.
abbrev quotient : ℕ → ℕ → Option ℕ
quotient a zero = none
quotient a (suc b) = some (a / suc b)

abbrev whole : Floats ℕ
whole = record {
  nought = 0;
  thousandth = 1;
  one = 1;
  default_total = 8192;
  plus = λ a b. a + b;
  minus = λ a b. a - b;
  times = λ a b. a * b;
  div = quotient;
  is_positive = λ a. ltb 0 a;
  is_nought = λ a. a == 0;
}

whole-only : (x : ℕ) → (x == 0) ≡ true → x ≡ 0
whole-only x h = ground arith

whole-IsArithmetic : IsArithmetic whole
whole-IsArithmetic = record {
  is_nought_only = whole-only;
  nought_not_positive = refl;
  default_positive = refl;
}

abbrev reading : Reading ℕ
reading = record {
  cpu_percent = 40;
  memory_percent = 50;
  disk_read_mb = 1;
  disk_write_mb = 2;
  gpu =
      some
        (record { load_percent = 0; memory_used_mb = 0; memory_total_mb = 0; power_draw_w = none });
}

extract_features-make_snapshot_example :
    extract_features_from_snapshot whole (make_snapshot whole reading)
    ≡ extract_features_from_metrics whole reading
extract_features-make_snapshot_example =
    extract_features-make_snapshot whole whole-IsArithmetic reading

-- Three NORMAL cases, of which one is the segment's twin.
abbrev idle : Segment
idle = record {
  pc_id = 1;
  slot = 1;
  snapshots = record { cpu_percent = 20_000; gpu_percent = none } ∷ [];
}

abbrev near_case : ℕ → Case
near_case d = record { verdict = some normal; distance = some d }

abbrev three_cases : List Case
three_cases = near_case 0 ∷ near_case 10 ∷ near_case 20 ∷ []

build_retrieval_evidence-negative_example :
    ((build_retrieval_evidence cosine (some idle) three_cases []).retrieval_score <ℤ pos 0) ↔ (
      (max 2 2 ≤ near_normals cosine three_cases)
      × (is_spiking (last_snap idle.snapshots) ≡ false)
      × (any_of high_risk three_cases ≡ false)
      × (any_of suspicious three_cases ≡ false))
build_retrieval_evidence-negative_example =
    build_retrieval_evidence-negative cosine idle three_cases []

-- Embeddings are numbers above 0, at the distance of their difference.
abbrev line : Space ℕ
line = record { is_empty = λ e. e == 0; distance = λ a b. (a - b) + (b - a); rounded = λ d. d }

abbrev segment : ℕ → StoredSegment
segment n = record { segment_id = n; pc_id = 1; slot = 1; start_ts = n; end_ts = n }

abbrev two_adds : List (Add ℕ)
two_adds =
    record { segment = segment 1; embedding = 5; verdict = normal; score = some 0 }
    ∷ record { segment = segment 2; embedding = 9; verdict = normal; score = none }
    ∷ []

added-last_n_example :
    ((added line reset_store no_failures two_adds).0 1 ≡ last_n maxlen (map (stored line) two_adds))
    × ((added line reset_store no_failures two_adds).1.retrieval_store_eviction_count ≡ 2 - maxlen)
unfolding slot_of
added-last_n_example = added-last_n line 1 two_adds ((refl, refl), ((refl, refl), tt))

abbrev two_items : Store ℕ
two_items = (added line reset_store no_failures two_adds).0

search_similar-nearest_example :
    (near : List (ℕ × Item ℕ)) × ((far : List (ℕ × Item ℕ)) × (search_similar line two_items
          (segment 3)
          8
          1
        ≡ map (found_of line) near)
      × Perm (near ++ far) (scored line (segment 3) 8 (two_items (slot_of (segment 3))))
      × Ascending line (near ++ far)
      × (length near ≡ min 1 (length (near ++ far))))
search_similar-nearest_example = search_similar-nearest line two_items (segment 3) 8 1 refl
