-- ===== src/Server/Extract/Streak.antt =====
-- The streak of inbound spikes of ml_server/scorer/signal_extractor.py, over the requests of a PC.
use inha_rada.Common.{
  ℕ, zero, suc, ◌+◌, ◌*◌, ◌≤◌, ◌<◌, ◌≡◌, refl, sym, ap, ◌∙◌, subst, ◌↔◌, inl, inr, Bool, true,
  false, ◌&&◌, List, [], ◌∷◌, map, arith, leb, if◌then◌else◌, Bool-cases, leb→le, le→leb, length,
  take, All,
}
use inha_rada.Server.Signals.{Signals, mask_network, mask_process, mask_missing}
use inha_rada.Server.Extract.Sample.{Slot, Metrics, Past, DosDetection}
use inha_rada.Server.Extract.Statistics.{sum, Mean, mean, above, exceeds}
use inha_rada.Server.Extract.Network.{dos_ratio, dos_hit, dos_streak, dos_spike}
use inha_rada.Server.Extract.Extraction.{
  has_history, mean_of, Surroundings, raw_signals, extract_signals,
}

-- A request: the sample, the history it meets, and the slot.
pub record Request (Text : Type 0) : Type 0 where
  pub metrics : Metrics Text
  pub history : List (Past Text)
  pub slot : Slot

module _ {Text : Type 0} (e : Surroundings Text) where
  abbrev pub given : Request Text → ℕ → Surroundings Text
  given r n = record e { slot = r.slot; streak = n }

  -- The streak that is stored after requests, the newest first.
  abbrev pub streak_of : List (Request Text) → ℕ
  streak_of [] = 0
  streak_of (r ∷ rs) = (extract_signals (given r (streak_of rs)) r.metrics r.history).1

  abbrev pub inbound_sum : Request Text → ℕ
  inbound_sum r = sum (map (λ h. h.inbound_mb) r.history)

  -- The sample's inbound traffic is above the slot's multiple of the history's mean, which is not
  -- 0, and reaches the floor.
  pub record IsHit (r : Request Text) : Type 0 where
    pub long : 12 ≤ length r.history
    pub some_inbound : 0 < inbound_sum r
    pub above_ratio : inbound_sum r * dos_ratio r.slot < r.metrics.inbound_mb * length r.history
    pub above_floor : e.dos_detection.min_inbound_mb_per_5s ≤ r.metrics.inbound_mb

  hit : Request Text → Bool
  hit r =
      dos_hit e.dos_detection (mean_of (λ h. h.inbound_mb) r.history) r.slot r.metrics.inbound_mb

  length-map : (f : Past Text → ℕ) (hs : List (Past Text)) → length (map f hs) ≡ length hs
  length-map f [] = refl
  length-map f (h ∷ hs) = ap suc (length-map f hs)

  hit_of_IsHit : (r : Request Text) → IsHit r → hit r ≡ true
  unfolding hit dos_hit above exceeds mean_of has_history mean
  hit_of_IsHit r h = rw (le→leb 12 (length r.history) h.long) (
      ground (
        arith,
        h.some_inbound,
        h.above_ratio,
        h.above_floor,
        length-map (λ h. h.inbound_mb) r.history,
      ))

  met :
      (dd : DosDetection) (m : Mean) (slot : Slot) (x : ℕ)
      → dos_hit dd m slot x ≡ true
      → (0 < m.total) × (m.total * dos_ratio slot < x * m.count) × (dd.min_inbound_mb_per_5s ≤ x)
  unfolding dos_hit above exceeds
  met dd m slot x h = ground arith

  long_of_hit : (r : Request Text) → hit r ≡ true → leb 12 (length r.history) ≡ true
  unfolding hit dos_hit above mean_of has_history
  long_of_hit r h = ground arith

  hit-IsHit : (r : Request Text) → hit r ≡ true → IsHit r
  unfolding hit mean_of has_history mean
  hit-IsHit r h =
      let l = long_of_hit r h in
      let avg = mean (map (λ p. p.inbound_mb) r.history) in
      let h' : dos_hit e.dos_detection avg r.slot r.metrics.inbound_mb ≡ true = rw l at h in
      let (some_in, ratio, floor) = met e.dos_detection avg r.slot r.metrics.inbound_mb h' in
      record {
        long = leb→le 12 (length r.history) l;
        some_inbound = some_in;
        above_ratio =
            subst (λ n. inbound_sum r * dos_ratio r.slot < r.metrics.inbound_mb * n)
              (length-map (λ p. p.inbound_mb) r.history) ratio;
        above_floor = floor;
      }

  streak_step :
      (r : Request Text) (rs : List (Request Text))
      → streak_of (r ∷ rs) ≡ (if hit r then streak_of rs + 1 else 0)
  unfolding extract_signals dos_streak hit
  streak_step r rs = refl

  -- The streak reaches `n` exactly if the newest `n` requests are there and all hit.
  streak_sound :
      (n : ℕ) (rs : List (Request Text))
      → n ≤ streak_of rs
      → (n ≤ length rs) × All IsHit (take n rs)
  streak_sound zero rs h = (omega arith, tt)
  streak_sound (suc n) [] h = absurd (omega arith)
  streak_sound (suc n) (r ∷ rs) h = elim (Bool-cases (hit r)) [
    | inl y ↦
        let g : streak_of (r ∷ rs) ≡ streak_of rs + 1 = streak_step r rs ∙ rw y refl in
        let (l, a) = streak_sound n rs (omega arith) in (omega arith, (hit-IsHit r y, a))
    | inr no_hit ↦
        let g : streak_of (r ∷ rs) ≡ 0 = streak_step r rs ∙ rw no_hit refl in absurd (omega arith)
  ]

  streak_complete :
      (n : ℕ) (rs : List (Request Text)) → n ≤ length rs → All IsHit (take n rs) → n ≤ streak_of rs
  streak_complete zero rs h a = omega arith
  streak_complete (suc n) [] h a = absurd (omega arith)
  streak_complete (suc n) (r ∷ rs) h a =
      let y = hit_of_IsHit r a.0 in
      let g : streak_of (r ∷ rs) ≡ streak_of rs + 1 = streak_step r rs ∙ rw y refl in
      let ih = streak_complete n rs (omega arith) a.1 in omega arith

  masked :
      (n p : Bool) (s : Signals)
      → (mask_missing n p s).dos_spike ≡ (if n then false else s.dos_spike)
  unfolding mask_missing mask_network mask_process
  masked true true s = refl
  masked true false s = refl
  masked false true s = refl
  masked false false s = refl

  fires : Request Text → List (Request Text) → Bool
  fires r rs = (extract_signals (given r (streak_of rs)) r.metrics r.history).0.dos_spike

  fires_lem :
      (r : Request Text) (rs : List (Request Text))
      → fires r rs ≡ (
          if r.metrics.derived.has_network_missing
          then false
          else hit r && leb e.dos_detection.min_sustained_count (streak_of (r ∷ rs)))
  unfolding fires extract_signals raw_signals dos_spike hit
  fires_lem r rs = masked r.metrics.derived.has_network_missing _ _

  all_three :
      (n a b : Bool) → (if n then false else a && b) ≡ true → (n ≡ false) × (a ≡ true) × (b ≡ true)
  all_three true a b h = cc
  all_three false true true h = (refl, refl, refl)
  all_three false true false h = cc
  all_three false false b h = cc

  of_three : (n a b : Bool) → n ≡ false → a ≡ true → b ≡ true → (if n then false else a && b) ≡ true
  of_three true a b f g h = cc
  of_three false true true f g h = refl
  of_three false true false f g h = cc
  of_three false false b f g h = cc

  -- After any requests the newest sample shows a spike exactly if its network was collected and
  -- the newest samples, as many as the policy wants and at least one, all exceed the slot's
  -- multiple of the mean of their histories, of twelve snapshots or more, and reach the floor.
  pub extract_signals-dos_spike :
      (k : ℕ) (r : Request Text) (rs : List (Request Text))
      → e.dos_detection.min_sustained_count ≡ suc k
      → ((extract_signals (given r (streak_of rs)) r.metrics r.history).0.dos_spike ≡ true) ↔ (
          (r.metrics.derived.has_network_missing ≡ false)
          × (suc k ≤ length (r ∷ rs))
          × All IsHit (take (suc k) (r ∷ rs)))
  unfolding fires
  extract_signals-dos_spike k r rs h =
      let streak = streak_of (r ∷ rs) in
      (
        λ f.
            let (collected, _, reached) =
              all_three r.metrics.derived.has_network_missing (hit r)
                (leb e.dos_detection.min_sustained_count streak) (sym (fires_lem r rs) ∙ f) in
            let enough = leb→le e.dos_detection.min_sustained_count streak reached in
            let (l, a) = streak_sound (suc k) (r ∷ rs) (omega (arith, h)) in (collected, l, a),
        λ f.
            let enough = streak_complete (suc k) (r ∷ rs) f.1 f.2 in
            let reached : leb e.dos_detection.min_sustained_count streak ≡ true =
              le→leb e.dos_detection.min_sustained_count streak (omega (arith, h)) in
            fires_lem r rs
            ∙ of_three r.metrics.derived.has_network_missing _ _ f.0 (hit_of_IsHit r f.2.0) reached,
      )
