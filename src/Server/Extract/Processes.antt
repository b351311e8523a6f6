-- ===== src/Server/Extract/Processes.antt =====
-- The process signals of ml_server/scorer/signal_extractor.py.
use inha_rada.Common.{
  Bool, true, false, not, ◌&&◌, List, [], ◌∷◌, map, leb, if◌then◌else◌, any, count_if,
}
use inha_rada.Server.Extract.Sample.{Texts, Process, Past, Lists, member}

module _ {Text : Type 0} (tx : Texts Text) (ls : Lists Text) (whitelist : List Text) where
  unfoldable pub is_miner : Process Text → Bool
  unfolding member
  is_miner p = member tx (tx.lower p.name) ls.mining_processes

  unfoldable pub is_whitelisted : Process Text → Bool
  unfolding member
  is_whitelisted p = member tx (tx.lower p.name) whitelist

  -- `running_procs & {g.lower() for g in names}`
  unfoldable pub runs_any : List Text → List (Process Text) → Bool
  unfolding member
  runs_any names ps = any (λ p. member tx (tx.lower p.name) (map tx.lower names)) ps

  unfoldable pub known_miners : List (Process Text) → List (Process Text)
  unfolding is_miner
  known_miners [] = []
  known_miners (p ∷ ps) = let rest = known_miners ps in if is_miner p then p ∷ rest else rest

  unfoldable pub under_suspicious : Text → Bool
  under_suspicious path = any (λ sp. tx.contains sp path) ls.suspicious_paths

  unfoldable pub is_temp_exec : Process Text → Bool
  unfolding under_suspicious is_whitelisted
  is_temp_exec p = under_suspicious (tx.lower p.path) && not (is_whitelisted p)

  unfoldable pub is_appdata_exec : Process Text → Bool
  unfolding is_whitelisted
  is_appdata_exec p =
      tx.contains tx.appdata (tx.lower p.path)
      && not (tx.contains tx.appdata_temp (tx.lower p.path))
      && not (is_whitelisted p)

  unfoldable pub is_unknown_active : Process Text → Bool
  unfolding is_whitelisted is_miner
  is_unknown_active p = not (is_whitelisted p) && not (is_miner p) && leb 80_000 p.cpu_percent

  -- How many snapshots show a process of that name.
  unfoldable pub seen_in : Process Text → Past Text → Bool
  seen_in m h = any (λ p. tx.same (tx.lower p.name) (tx.lower m.name)) h.top_processes

  unfoldable pub persistent_miner : Bool → List (Process Text) → List (Past Text) → Bool
  unfolding known_miners seen_in count_if
  persistent_miner has_history ps hs =
      has_history && any (λ m. leb 6 (count_if (seen_in m) hs)) (known_miners ps)

  -- `_suspicious_owner_path`
  unfoldable pub suspicious_owner_path : Text → Bool
  unfolding under_suspicious
  suspicious_owner_path path =
      let pl = tx.lower path in
      if tx.is_empty pl
      then false
      else if tx.contains tx.appdata pl
      then true
      else under_suspicious pl
