-- ===== src/Server/Extract/Network.antt =====
-- The network signals of ml_server/scorer/signal_extractor.py.
use inha_rada.Common.{
  ℕ, ◌+◌, ◌*◌, Bool, true, false, not, ◌&&◌, ◌||◌, Option, none, some, List, [], ◌∷◌, ltb, leb,
  if◌then◌else◌, all, any,
}
use inha_rada.Server.Extract.Sample.{
  Texts, Slot, class, free, Connection, Lists, Allow, DosDetection, member,
}
use inha_rada.Server.Extract.Statistics.{Mean, above, exceeds}
use inha_rada.Server.Extract.Processes.{suspicious_owner_path}

module _ {Text : Type 0} (tx : Texts Text) where
  -- `ip == x or ip.startswith(x)` for one of the infrastructure's addresses
  unfoldable pub is_infra : List Text → Connection Text → Bool
  is_infra infra c = any (λ x. tx.same c.ip x || tx.starts_with x c.ip) infra

  -- The connections with an address.
  unfoldable pub with_ip : List (Connection Text) → List (Connection Text)
  with_ip [] = []
  with_ip (c ∷ cs) = let rest = with_ip cs in if tx.is_empty c.ip then rest else c ∷ rest

  unfoldable pub all_in : List Text → List (Connection Text) → Bool
  unfolding is_infra
  all_in infra [] = false
  all_in infra (c ∷ cs) = all (is_infra infra) (c ∷ cs)

  -- `_all_external_to_infra`
  unfoldable pub all_external_to_infra : Option (Allow Text) → List (Connection Text) → Bool
  unfolding with_ip all_in
  all_external_to_infra none cs = false
  all_external_to_infra (some al) cs = elim al.infra_ips [
    | [] ↦ false
    | i ∷ is ↦ all_in (i ∷ is) (with_ip cs)
  ]

  unfoldable pub is_pool : Lists Text → Connection Text → Bool
  is_pool ls c = any (λ prefix. tx.starts_with prefix c.ip) ls.mining_pool_ips

  unfoldable pub suspicious_owner : Lists Text → List Text → Connection Text → Bool
  unfolding suspicious_owner_path member
  suspicious_owner ls whitelist c =
      suspicious_owner_path tx ls whitelist c.proc_path
      && not (member tx (tx.lower c.proc_name) whitelist)

unfoldable pub dos_ratio : Slot → ℕ
dos_ratio class = 30
dos_ratio free = 15

-- Whether one sample meets both conditions, and the streak and the signal after it.
unfoldable pub dos_hit : DosDetection → Mean → Slot → ℕ → Bool
unfolding above exceeds dos_ratio
dos_hit dd avg slot inbound =
    above avg 0
    && exceeds inbound avg (dos_ratio slot)
    && (if ltb 0 dd.min_inbound_mb_per_5s then leb dd.min_inbound_mb_per_5s inbound else true)

unfoldable pub dos_streak : DosDetection → Mean → Slot → ℕ → ℕ → ℕ
unfolding dos_hit
dos_streak dd avg slot inbound streak = if dos_hit dd avg slot inbound then streak + 1 else 0

unfoldable pub dos_spike : DosDetection → Mean → Slot → ℕ → ℕ → Bool
unfolding dos_hit dos_streak
dos_spike dd avg slot inbound streak =
    dos_hit dd avg slot inbound
    && leb dd.min_sustained_count (dos_streak dd avg slot inbound streak)

unfoldable pub outbound_spike : Mean → ℕ → Bool
unfolding above exceeds
outbound_spike avg outbound = above avg 10 && exceeds outbound avg 5 && ltb 1000 outbound

-- `outbound >= max(avg * 1.5, 0.5)`
unfoldable pub net_out_sustained : Mean → ℕ → Bool
unfolding above
net_out_sustained avg outbound =
    above avg 5 && leb (3 * avg.total) (2 * outbound * avg.count) && leb 500 outbound
