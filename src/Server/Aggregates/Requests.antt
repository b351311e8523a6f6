-- ===== src/Server/Aggregates/Requests.antt =====
-- The windows that the requests of `analyze` leave in ml_server/storage/pc_history_store.py.
use inha_rada.Common.{
  ℕ, suc, min, ◌≡◌, refl, sym, ap, ◌∙◌, subst, inl, inr, Option, none, some, List, [], ◌∷◌, ◌++◌,
  map, foldl, append-nil, append_assoc, arith, ◌==◌, Bool-cases, Option-cases, All, pos,
}
use inha_rada.Deque.{push, last_n, last_n-last_n, push-last_n, All-last_n}
use inha_rada.Server.Aggregates.{
  Host, Snapshot, Entry, Buffer, Minutes, aggregate_window_max, empty_minutes, minute_of, vals,
  get_aggregate_window, spread, agg, entry_of, flush_minute_buffer, append_snapshot, force_flush,
  on_request,
}

module _ {Num Ip : Type 0} (host : Host Num Ip) where
  -- The entry of one sample.
  abbrev single : Snapshot Num Ip → Entry Num Ip
  single s = entry_of host (minute_of s.timestamp) (s ∷ [])

  -- No sample waits in the buffer.
  IsFlushed : Option (Buffer Num Ip) → Type 0
  IsFlushed none = Unit
  IsFlushed (some b) = b.samples ≡ []

  -- What a request leaves where nothing waited.
  abbrev served : List (Entry Num Ip) → Snapshot Num Ip → Minutes Num Ip
  served es s = record {
    aggregates = push aggregate_window_max es (single s);
    buffer = some (record { slot_start = minute_of s.timestamp; samples = [] });
  }

  on_request-empty :
      (es : List (Entry Num Ip)) (s : Snapshot Num Ip)
      → on_request host (record { aggregates = es; buffer = none }) s ≡ served es s
  unfolding on_request append_snapshot force_flush flush_minute_buffer
  on_request-empty es s = refl

  on_request-waiting :
      (es : List (Entry Num Ip)) (slot : ℕ) (s : Snapshot Num Ip)
      → on_request host
          (record { aggregates = es; buffer = some (record { slot_start = slot; samples = [] }) })
          s
        ≡ served es s
  unfolding on_request append_snapshot force_flush flush_minute_buffer
  on_request-waiting es slot s = elim (Bool-cases (slot == minute_of s.timestamp)) [
    | inl same ↦ rw same (
        ap
          (λ k. record {
            aggregates = push aggregate_window_max es (entry_of host k (s ∷ []));
            buffer = some (record { slot_start = k; samples = [] });
          })
          {x = slot} (ground arith))
    | inr other ↦ rw other refl
  ]

  on_request-served :
      (m : Minutes Num Ip) (s : Snapshot Num Ip)
      → IsFlushed m.buffer
      → on_request host m s ≡ served m.aggregates s
  unfolding IsFlushed
  on_request-served m s q = go m.buffer refl q
    where
      go :
          (o : Option (Buffer Num Ip))
          → m.buffer ≡ o
          → IsFlushed o
          → on_request host m s ≡ served m.aggregates s
      go none e q =
          ap (λ o. on_request host (record { aggregates = m.aggregates; buffer = o }) s) e
          ∙ on_request-empty m.aggregates s
      go (some b) e q =
          ap (λ o. on_request host (record { aggregates = m.aggregates; buffer = o }) s)
            (e ∙ ap (λ ss. some (record { slot_start = b.slot_start; samples = ss })) q)
          ∙ on_request-waiting m.aggregates b.slot_start s

  served-IsFlushed :
      (es : List (Entry Num Ip)) (s : Snapshot Num Ip) → IsFlushed (served es s).buffer
  unfolding IsFlushed
  served-IsFlushed es s = refl

  requests-last_n :
      (h : List (Entry Num Ip)) (m : Minutes Num Ip) (ss : List (Snapshot Num Ip))
      → m.aggregates ≡ last_n aggregate_window_max h
      → IsFlushed m.buffer
      → (foldl (on_request host) m ss).aggregates ≡ last_n aggregate_window_max (h ++ map single ss)
  requests-last_n h m [] e q = rw append-nil e
  requests-last_n h m (s ∷ ss) e q =
      ap (λ m'. (foldl (on_request host) m' ss).aggregates) (on_request-served m s q)
      ∙ requests-last_n (h ++ single s ∷ []) (served m.aggregates s) ss
          (ap (λ es. push aggregate_window_max es (single s)) e
            ∙ push-last_n aggregate_window_max h (single s))
          (served-IsFlushed m.aggregates s)
      ∙ ap (last_n aggregate_window_max) (append_assoc h (single s ∷ []) (map single ss))

  -- After any requests, the window of `n` minutes holds one entry for each of the last `n` requests
  -- (of the last 180 for a greater `n`), the newest at the end, each made of the sample of its
  -- request alone.
  pub get_aggregate_window-requests :
      (n : ℕ) (ss : List (Snapshot Num Ip))
      → get_aggregate_window (foldl (on_request host) empty_minutes ss) (pos (suc n))
        ≡ last_n (min (suc n) aggregate_window_max) (map single ss)
  unfolding get_aggregate_window last_n IsFlushed
  get_aggregate_window-requests n ss =
      ap (last_n (min (suc n) aggregate_window_max)) (requests-last_n [] empty_minutes ss refl tt)
      ∙ last_n-last_n (min (suc n) aggregate_window_max) aggregate_window_max (map single ss)
          (omega arith)

  -- A spread that no sample has.
  abbrev pub IsFlat : Entry Num Ip → Type 0
  IsFlat e =
      (e.samples ≡ 1)
      × (e.cpu.std ≡ host.nought)
      × (e.gpu.std ≡ host.nought)
      × (e.gpu_power_w.std ≡ host.nought)
      × (e.outbound_mb.std ≡ host.nought)

  pub spread-single :
      (key : Snapshot Num Ip → Option Num) (s : Snapshot Num Ip)
      → spread host (vals key (s ∷ [])) ≡ host.nought
  unfolding spread vals
  spread-single key s = elim (Option-cases (key s)) [
    | inl e ↦ rw (spread, vals, e) refl
    | inr (v, e) ↦ rw (spread, vals, e) refl
  ]

  single-IsFlat : (s : Snapshot Num Ip) → IsFlat (single s)
  unfolding entry_of agg
  single-IsFlat s = (
    refl,
    spread-single (λ s. s.cpu_percent) s,
    spread-single (λ s. s.gpu_percent) s,
    spread-single (λ s. s.gpu_power_w) s,
    spread-single (λ s. s.outbound_mb) s,
  )

  singles-IsFlat : (ss : List (Snapshot Num Ip)) → All IsFlat (map single ss)
  singles-IsFlat [] = tt
  singles-IsFlat (s ∷ ss) = (single-IsFlat s, singles-IsFlat ss)

  -- After any requests, every entry of the window of `n` minutes is of one sample, and its standard
  -- deviations are 0.
  pub get_aggregate_window-IsFlat :
      (n : ℕ) (ss : List (Snapshot Num Ip))
      → All IsFlat (get_aggregate_window (foldl (on_request host) empty_minutes ss) (pos (suc n)))
  get_aggregate_window-IsFlat n ss =
      subst (All IsFlat) (sym (get_aggregate_window-requests n ss))
        (All-last_n IsFlat (min (suc n) aggregate_window_max) (map single ss) (singles-IsFlat ss))
