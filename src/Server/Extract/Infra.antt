-- ===== src/Server/Extract/Infra.antt =====
-- Connections to known infrastructure only, through ml_server/scorer/signal_extractor.py and
-- indicator_calculator.py.
use inha_rada.Common.{
  ℕ, ◌≤◌, ◌≡◌, refl, ap, ◌∙◌, Bool, true, false, not, ◌&&◌, ◌||◌, some, List, [], ◌∷◌, arith, leb,
  all, any, All,
}
use inha_rada.Server.Signals.{Signals, mask_network, mask_process, mask_missing}
use inha_rada.Server.Indicators.{
  Pack, Weights, network_points, episode_points, calculate_indicators,
}
use inha_rada.Server.Extract.Sample.{Texts, Connection, Metrics, Past, Allow}
use inha_rada.Server.Extract.Network.{
  is_infra, with_ip, all_in, all_external_to_infra, net_out_sustained,
}
use inha_rada.Server.Extract.Extraction.{mean_of, Surroundings, raw_signals, extract_signals}

module _ {Text : Type 0} (tx : Texts Text) where
  -- The connection has an address, which is one of the list or begins with one.
  abbrev pub GoesTo : List Text → Connection Text → Type 0
  GoesTo infra c =
      (tx.is_empty c.ip ≡ false) × (any (λ x. tx.same c.ip x || tx.starts_with x c.ip) infra ≡ true)

  with_ip-All :
      (infra : List Text) (cs : List (Connection Text)) → All (GoesTo infra) cs → with_ip tx cs ≡ cs
  unfolding with_ip
  with_ip-All infra [] a = refl
  with_ip-All infra (c ∷ cs) a = rw (a.0.0, with_ip-All infra cs a.1) refl

  all_infra :
      (infra : List Text) (cs : List (Connection Text))
      → All (GoesTo infra) cs
      → all (is_infra tx infra) cs ≡ true
  unfolding is_infra
  all_infra infra [] a = refl
  all_infra infra (c ∷ cs) a = rw a.0.1 (all_infra infra cs a.1)

  all_external_to_infra_lem :
      (al : Allow Text) (x : Text) (xs : List Text) (c : Connection Text)
      (cs : List (Connection Text))
      → al.infra_ips ≡ x ∷ xs
      → All (GoesTo (x ∷ xs)) (c ∷ cs)
      → all_external_to_infra tx (some al) (c ∷ cs) ≡ true
  unfolding all_external_to_infra all_in
  all_external_to_infra_lem al x xs c cs e a =
      rw (e, with_ip-All (x ∷ xs) (c ∷ cs) a) (all_infra (x ∷ xs) (c ∷ cs) a)

-- The signals of a sample whose traffic is to the infrastructure.
record IsQuiet (s : Signals) : Type 0 where
  external : s.net_external_high ≡ false
  outbound : s.outbound_spike ≡ false
  sustained : s.net_out_sustained ≡ false
  writes : s.disk_write_net_out_sustained ≡ false
  burst : s.spike_count_1m ≡ false
  persistent : s.persistent_ext ≡ false

mask_missing-IsQuiet : (n p : Bool) (s : Signals) → IsQuiet s → IsQuiet (mask_missing n p s)
unfolding mask_missing mask_network mask_process
mask_missing-IsQuiet true true s q = ground arith
mask_missing-IsQuiet true false s q = ground arith
mask_missing-IsQuiet false true s q = ground arith
mask_missing-IsQuiet false false s q = q

off : (a b : Bool) → b ≡ true → (a && not b) ≡ false
off true true h = refl
off true false h = cc
off false b h = refl

off_two : (a b c : Bool) → c ≡ true → (a && b && not c) ≡ false
off_two a b true h = ground arith
off_two a b false h = cc

raw_signals-IsQuiet :
    {Text : Type 0} (e : Surroundings Text) (m : Metrics Text) (hs : List (Past Text))
    → all_external_to_infra e.texts e.allow m.external_connections ≡ true
    → IsQuiet (raw_signals e m hs)
unfolding raw_signals
raw_signals-IsQuiet e m hs h = record {
  external = off _ _ h;
  outbound = off _ _ h;
  sustained = off _ _ h;
  writes =
      off_two (leb 1000 m.disk_write_mb)
        (net_out_sustained (mean_of (λ p. p.outbound_mb) hs) m.outbound_mb) _ h;
  burst = off _ _ h;
  persistent = off _ _ h;
}

quiet_scores :
    (cap : ℕ) (w : Weights) (s : Signals) (p : Pack)
    → IsQuiet s
    → ((calculate_indicators cap w s p).exfil ≡ 0)
      × ((calculate_indicators cap w s p).breakdown_network ≤ 3)
      × ((calculate_indicators cap w s p).breakdown_episode ≤ 5)
unfolding calculate_indicators network_points episode_points
quiet_scores cap w s p q =
    ground (arith, q.external, q.outbound, q.sustained, q.burst, q.persistent)

-- Where every connection of a sample has an address and goes to the infrastructure of the
-- allowlist, and there is one, then nothing is scored for exfiltration, the network scores at most
-- the 3 points of many remote addresses, and the episode at most the 5 of an inbound spike.
pub extract_signals-infra :
    {Text : Type 0} (e : Surroundings Text) (m : Metrics Text) (hs : List (Past Text))
    (al : Allow Text) (x : Text) (xs : List Text) (c : Connection Text)
    (cs : List (Connection Text)) (cap : ℕ) (w : Weights) (p : Pack)
    → e.allow ≡ some al
    → al.infra_ips ≡ x ∷ xs
    → m.external_connections ≡ c ∷ cs
    → All (GoesTo e.texts (x ∷ xs)) (c ∷ cs)
    → ((calculate_indicators cap w (extract_signals e m hs).0 p).exfil ≡ 0)
      × ((calculate_indicators cap w (extract_signals e m hs).0 p).breakdown_network ≤ 3)
      × ((calculate_indicators cap w (extract_signals e m hs).0 p).breakdown_episode ≤ 5)
unfolding extract_signals
extract_signals-infra e m hs al x xs c cs cap w p is_al is_infra_ips is_cs a =
    let i : all_external_to_infra e.texts e.allow m.external_connections ≡ true =
      ap (λ o. all_external_to_infra e.texts o m.external_connections) is_al
      ∙ ap (all_external_to_infra e.texts (some al)) is_cs
      ∙ all_external_to_infra_lem e.texts al x xs c cs is_infra_ips a in
    quiet_scores cap w _ p (
      mask_missing-IsQuiet m.derived.has_network_missing m.derived.has_process_missing _
        (raw_signals-IsQuiet e m hs i))
