-- ===== src/Server/Extract/Steady.antt =====
-- What ml_server/scorer/signal_extractor.py says of a load that never changes.
use native.Mathlib.Nat.{mul-pos}
use inha_rada.Common.{
  ℕ, suc, ◌+◌, ◌-◌, ◌*◌, ◌≤◌, ◌<◌, ◌≡◌, refl, ap, Bool, true, false, Option, some, List, [], ◌∷◌,
  map, arith, leb, le→leb, lt→ltb, length, All,
}
use inha_rada.Server.Signals.{Signals, mask_network, mask_process, mask_missing}
use inha_rada.Server.Extract.Sample.{Gpu, Metrics, Past}
use inha_rada.Server.Extract.Statistics.{sum, sum_squares, stdev_under, values}
use inha_rada.Server.Extract.Extraction.{
  twelve, steady, has_history, recent, gpu_signals, Surroundings, raw_signals, extract_signals,
}

sum_same : (v : ℕ) (xs : List ℕ) → All (λ x. x ≡ v) xs → sum xs ≡ length xs * v
unfolding sum
sum_same v [] a = omega arith
sum_same v (x ∷ xs) a = grind (arith, sum_same v xs a.1)

sum_squares_same :
    (v : ℕ) (xs : List ℕ) → All (λ x. x ≡ v) xs → sum_squares xs ≡ length xs * (v * v)
unfolding sum_squares
sum_squares_same v [] a = omega arith
sum_squares_same v (x ∷ xs) a = rw a.0 (grind (arith, sum_squares_same v xs a.1))

squares : (n v : ℕ) → n * (n * (v * v)) ≡ n * v * (n * v)
squares n v = grind arith

spread_room :
    (n v d : ℕ) → 2 ≤ n → 0 < d → n * (n * (v * v)) < n * v * (n * v) + d * d * n * (n - 1)
spread_room n v d h k =
    let some_n : 0 < n = omega arith in
    let more : 0 < n - 1 = omega arith in
    let p = mul-pos (mul-pos (mul-pos k k) some_n) more in omega (arith, squares n v, p)

stdev_under_same :
    (v d : ℕ) (xs : List ℕ) → 2 ≤ length xs → 0 < d → All (λ x. x ≡ v) xs → stdev_under xs d ≡ true
unfolding stdev_under
stdev_under_same v d xs h k a =
    rw (sum_same v xs a, sum_squares_same v xs a) (lt→ltb _ _ (spread_room (length xs) v d h k))

masked :
    (n p : Bool) (s : Signals)
    → s.gpu_flat ≡ true
    → s.cpu_flat ≡ true
    → ((mask_missing n p s).gpu_flat ≡ true) × ((mask_missing n p s).cpu_flat ≡ true)
unfolding mask_missing mask_network mask_process
masked true true s g c = (g, c)
masked true false s g c = (g, c)
masked false true s g c = (g, c)
masked false false s g c = (g, c)

module _ {Text : Type 0} where
  All-map :
      (key : Past Text → ℕ) (v : ℕ) (hs : List (Past Text))
      → All (λ h. key h ≡ v) hs
      → All (λ x. x ≡ v) (map key hs) × (length (map key hs) ≡ length hs)
  All-map key v [] a = (tt, refl)
  All-map key v (h ∷ hs) a = let (ih, l) = All-map key v hs a.1 in ((a.0, ih), ap suc l)

  All-values :
      (key : Past Text → Option ℕ) (v : ℕ) (hs : List (Past Text))
      → All (λ h. key h ≡ some v) hs
      → All (λ x. x ≡ v) (values key hs) × (length (values key hs) ≡ length hs)
  unfolding values
  All-values key v [] a = (tt, refl)
  All-values key v (h ∷ hs) a =
      let (ih, l) = All-values key v hs a.1 in rw (values, a.0) ((refl, ih), ap suc l)

  recent-steady :
      (key : Past Text → Option ℕ) (v d : ℕ) (hs : List (Past Text))
      → 12 ≤ length hs
      → 0 < d
      → All (λ h. key h ≡ some v) hs
      → steady (recent key hs) d ≡ true
  unfolding recent has_history twelve steady
  recent-steady key v d hs long k a =
      let (same, l) = All-values key v hs a in
      let enough = le→leb 12 (length hs) long in
      let enough' : leb 12 (length (values key hs)) ≡ true = rw l enough in
      rw (enough, enough') (stdev_under_same v d (values key hs) (omega (arith, l)) k same)

  -- A CPU and a GPU whose loads stayed the same over a history of twelve snapshots or more are
  -- both flat, where the CPU's load is 60% or more now and the GPU's 30% or more, whatever was
  -- not collected.
  pub extract_signals-steady :
      (e : Surroundings Text) (m : Metrics Text) (g : Gpu) (hs : List (Past Text)) (v w : ℕ)
      → m.gpu ≡ some g
      → 30_000 ≤ g.load_percent
      → 60_000 ≤ m.cpu_percent
      → 12 ≤ length hs
      → All (λ h. h.cpu_percent ≡ v) hs
      → All (λ h. h.gpu_percent ≡ some w) hs
      → ((extract_signals e m hs).0.gpu_flat ≡ true) × ((extract_signals e m hs).0.cpu_flat ≡ true)
  unfolding extract_signals raw_signals gpu_signals has_history
  extract_signals-steady e m g hs v w is_g load cpu long a b =
      let (same, l) = All-map (λ h. h.cpu_percent) v hs a in
      let flat = stdev_under_same v 5000 _ (omega (arith, l)) (omega arith) same in
      masked m.derived.has_network_missing m.derived.has_process_missing _
        (rw (is_g, recent-steady (λ h. h.gpu_percent) w 5000 hs long (omega arith) b)
          (le→leb 30_000 g.load_percent load))
        (rw (le→leb 12 (length hs) long, flat) (le→leb 60_000 m.cpu_percent cpu))
