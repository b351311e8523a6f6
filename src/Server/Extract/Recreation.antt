-- ===== src/Server/Extract/Recreation.antt =====
-- `_detect_process_recreation` of ml_server/scorer/signal_extractor.py. The dictionaries over
-- (name, path) are association lists in the order of insertion.
use inha_rada.Common.{
  ℕ, ◌+◌, ◌/◌, max, Bool, false, ◌&&◌, ◌||◌, none, some, List, [], ◌∷◌, ◌++◌, foldl, ltb, leb, ◌==◌,
  if◌then◌else◌, length, any,
}
use inha_rada.Server.Extract.Sample.{Texts, Process, member}

pub record Identity (Text : Type 0) : Type 0 where
  pub name : Text
  pub path : Text

-- One key of `concurrent_max`, `pids_over_time` and `presence`.
pub record Row (Text : Type 0) : Type 0 where
  pub ident : Identity Text
  pub concurrent_max : ℕ
  pub pids : List ℕ
  pub presence : ℕ

-- `set.add` and `|=`
unfoldable pub add_pid : List ℕ → ℕ → List ℕ
add_pid ps p = if any (λ q. p == q) ps then ps else ps ++ p ∷ []

unfoldable pub add_pids : List ℕ → List ℕ → List ℕ
unfolding add_pid
add_pids ps qs = foldl add_pid ps qs

module _ {Text : Type 0} (tx : Texts Text) (whitelist : List Text) where
  unfoldable pub same_identity : Identity Text → Identity Text → Bool
  same_identity a b = tx.same a.name b.name && tx.same a.path b.path

  -- `per_snap[ident].add(pid)`
  unfoldable pub add_seen :
      Identity Text → ℕ → List (Identity Text × List ℕ) → List (Identity Text × List ℕ)
  unfolding same_identity add_pid
  add_seen i pid [] = (i, pid ∷ []) ∷ []
  add_seen i pid ((j, ps) ∷ rest) =
      let later = add_seen i pid rest in
      if same_identity i j then (j, add_pid ps pid) ∷ rest else (j, ps) ∷ later

  -- A process without a name, whitelisted or without a PID is left out.
  unfoldable pub per_snap :
      List (Process Text) → List (Identity Text × List ℕ) → List (Identity Text × List ℕ)
  unfolding add_seen member
  per_snap [] seen = seen
  per_snap (p ∷ ps) seen =
      let name = tx.lower p.name in
      per_snap ps (
        if tx.is_empty name || member tx name whitelist then seen else elim p.pid [
          | none ↦ seen
          | some pid ↦ add_seen (record { name = name; path = tx.lower p.path }) pid seen
        ])

  unfoldable pub new_row : Identity Text → List ℕ → Row Text
  unfolding add_pids
  new_row i ps = record {
    ident = i;
    concurrent_max = length ps;
    pids = add_pids [] ps;
    presence = 1;
  }

  unfoldable pub grown : Row Text → List ℕ → Row Text
  unfolding add_pids
  grown r ps = record r {
    concurrent_max = max r.concurrent_max (length ps);
    pids = add_pids r.pids ps;
    presence = r.presence + 1;
  }

  unfoldable pub add_row : List (Row Text) → Identity Text × List ℕ → List (Row Text)
  unfolding same_identity new_row grown
  add_row [] (i, ps) = new_row i ps ∷ []
  add_row (r ∷ rs) (i, ps) =
      let later = add_row rs (i, ps) in
      if same_identity i r.ident then grown r ps ∷ rs else r ∷ later

  -- The table after the snapshots.
  unfoldable pub rows_of : List (Row Text) → List (List (Process Text)) → List (Row Text)
  unfolding per_snap add_row
  rows_of rs [] = rs
  rows_of rs (s ∷ ss) = rows_of (foldl add_row rs (per_snap s [])) ss

  unfoldable pub is_recreated : ℕ → Row Text → Bool
  is_recreated n r =
      leb r.concurrent_max 2 && leb 3 (length r.pids) && leb (max 3 (n / 2)) r.presence

  unfoldable pub detect_process_recreation : List (List (Process Text)) → Bool
  unfolding rows_of is_recreated
  detect_process_recreation snaps =
      if ltb (length snaps) 6 then false else any (is_recreated (length snaps)) (rows_of [] snaps)
