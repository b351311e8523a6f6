-- ===== src/Tests/Patterns.antt =====
-- The theorems of the aggregates and of the patterns at concrete inputs.
use inha_rada.Common.{
  ℕ, ◌/◌, ◌≡◌, refl, ◌↔◌, true, ◌&&◌, some, List, [], ◌∷◌, map, foldl, arith, ltb, leb, ◌==◌,
  if◌then◌else◌, length, all, pos,
}
use inha_rada.Deque.{last_n}
use inha_rada.Tests.Samples.{host, sample, samples}
use inha_rada.Server.Aggregates.{
  Entry, empty_minutes, get_aggregate_window, on_request, entry_of, minute_of,
}
use inha_rada.Server.Aggregates.Requests.{get_aggregate_window-requests}
use inha_rada.Server.Patterns.{Compare, Load, r1, holds_r1, fire}
use inha_rada.Server.Patterns.Requests.{fire-requests}

get_aggregate_window-requests_example :
    get_aggregate_window (foldl (on_request host) empty_minutes samples) (pos 180)
    ≡ last_n 180 (map (λ s. entry_of host (minute_of s.timestamp) (s ∷ [])) samples)
get_aggregate_window-requests_example = get_aggregate_window-requests host 179 samples

abbrev compare_ℕ : Compare ℕ ℕ
compare_ℕ = record {
  zero_num = 0;
  ge = λ x y. leb y x;
  lt = λ x y. ltb x y;
  divide = λ x y. x / y;
  same = λ x y. x == y;
}

-- A load of 90, a deviation below 5, over three entries.
abbrev flat_load : Load ℕ
flat_load = record { high = 90; bound = 5; window = 3 }

fire-requests_example :
    fire r1
      (some flat_load)
      (holds_r1 compare_ℕ)
      (get_aggregate_window (foldl (on_request host) empty_minutes samples) (pos 180))
    ≡ (if leb 3 (length samples)
          && all
              (λ s. leb 90 (entry_of host (minute_of s.timestamp) (s ∷ [])).cpu.mean)
              (last_n 3 samples)
        then r1 ∷ []
        else [])
fire-requests_example = fire-requests host compare_ℕ flat_load 2 samples refl (omega arith) refl

same-equal : (a b : ℕ) → (compare_ℕ.same a b ≡ true) ↔ (a ≡ b)
same-equal a b = ground arith

abbrev two_entries : List (Entry ℕ ℕ)
two_entries = entry_of host 0 (sample 5 ∷ []) ∷ entry_of host 60_000 (sample 60_000 ∷ []) ∷ []
