-- ===== src/Client/Queue/Synced.antt =====
-- The calls of client_core/sender/local_queue.py on a file system that works.
use inha_rada.Common.{
  ℕ, ◌+◌, ◌≤◌, ◌≡◌, refl, ap, subst, ◌⊎◌, inl, inr, true, Option, none, some, List, [], ◌∷◌, ◌++◌,
  map, arith, ltb, leb, Bool-cases, if-intro, leb→le, length,
}
use mathlib.Core.List.{map-append}
use inha_rada.Client.Queue.Contents.{drop_oldest-buf}
use inha_rada.Client.Queue.Keeps.{put_disk-Keeps}
use inha_rada.Deque.{length-push-le, push_room}
use inha_rada.Client.Queue.{
  Codec, LocalQueue, next_outcome, later_outcomes, lines_of, after_stat, will_overflow, put_buf,
  file_bytes, append_outcome, append_line, compact_outcome, compact_disk, stat_outcome, file_size,
  drop_oldest, shed, enforce_size, enforce_limit, enforce_max_bytes, put_disk, put, save, pop,
  drain,
}

-- The calls that change a queue.
pub data Call {ℓ} (P : Type ℓ) : Type ℓ where
  call_put : P → Call P
  call_pop : Call P
  call_drain : Call P

module _ {ℓ} {P L : Type ℓ} (codec : Codec P L) where
  open codec use {dumps, loads, is_blank}

  unfoldable pub step : LocalQueue P L → Call P → LocalQueue P L
  step q (call_put p) = put codec q p
  step q call_pop = (pop codec q).0
  step q call_drain = (drain codec q).0

  pub record IsSynced (q : LocalQueue P L) : Type ℓ where
    pub path : q.has_path ≡ true
    pub works : q.outcomes ≡ []
    pub synced : q.file ≡ some (map dumps q.buf)
    pub fits : length q.buf ≤ q.max_size

  pub compact_disk-IsSynced :
      (q : LocalQueue P L)
      → q.has_path ≡ true
      → q.outcomes ≡ []
      → length q.buf ≤ q.max_size
      → IsSynced (compact_disk codec q)
  unfolding compact_disk compact_outcome next_outcome later_outcomes
  compact_disk-IsSynced q path works fits =
      rw works (record { path = path; works = refl; synced = refl; fits = fits })

  pub save-IsSynced :
      (q : LocalQueue P L)
      → q.has_path ≡ true
      → q.outcomes ≡ []
      → length q.buf ≤ q.max_size
      → IsSynced (save codec q)
  unfolding save
  save-IsSynced q path works fits =
      if-intro IsSynced q.has_path (λ _. compact_disk-IsSynced q path works fits)
        (λ memory. absurd (cc))

  append_line-IsSynced :
      (q : LocalQueue P L) (p : P) (before : List P)
      → q.has_path ≡ true
      → q.outcomes ≡ []
      → q.file ≡ some (map dumps before)
      → q.buf ≡ before ++ p ∷ []
      → length q.buf ≤ q.max_size
      → IsSynced (append_line codec q p)
  unfolding append_line append_outcome next_outcome later_outcomes lines_of
  append_line-IsSynced q p before path works synced added fits =
      rw works
        (record { path = path; works = refl; synced = rw (synced, added, map-append); fits = fits })

  after_stat-IsSynced : (q : LocalQueue P L) → IsSynced q → IsSynced (after_stat q)
  unfolding after_stat later_outcomes
  after_stat-IsSynced q s = record {
    path = s.path;
    works = rw s.works;
    synced = s.synced;
    fits = s.fits;
  }

  -- The file is within the limit on bytes, or the queue has nothing left to drop.
  abbrev pub IsWithin : Option ℕ → LocalQueue P L → Type ℓ
  IsWithin none q = Unit
  IsWithin (some limit) q = (file_bytes codec (map dumps q.buf) ≤ limit) ⊎ (q.buf ≡ [])

  drop_oldest-IsSynced :
      (p : P) (rest : List P) (q : LocalQueue P L)
      → q.buf ≡ p ∷ rest
      → IsSynced q
      → IsSynced (drop_oldest codec rest q)
  unfolding drop_oldest
  drop_oldest-IsSynced p rest q e s =
      compact_disk-IsSynced (record q { buf = rest; dropped_count = q.dropped_count + 1 }) s.path
        s.works (omega (arith, ap length e, s.fits))

  file_size-IsSynced :
      (q : LocalQueue P L)
      → IsSynced q
      → file_size codec q ≡ some (file_bytes codec (map dumps q.buf))
  unfolding file_size stat_outcome next_outcome
  file_size-IsSynced q s = rw (s.works, s.synced)

  shed-IsSynced :
      (limit : ℕ) (buf : List P) (size : ℕ) (q : LocalQueue P L)
      → q.buf ≡ buf
      → size ≡ file_bytes codec (map dumps buf)
      → IsSynced q
      → IsSynced (shed codec limit buf size q) × IsWithin (some limit) (shed codec limit buf size q)
  unfolding shed after_stat
  shed-IsSynced limit [] size q e measured s = (s, inr e)
  shed-IsSynced limit (p ∷ rest) size q e measured s = elim (Bool-cases (ltb limit size)) [
    | inr small ↦ rw (small, shed) (s, inl (rw (e, ← measured) (ground arith)))
    | inl big ↦
        let q' = drop_oldest codec rest q in
        let s' = drop_oldest-IsSynced p rest q e s in
        let kept : q'.buf ≡ rest = drop_oldest-buf codec rest q in
        let size' = file_bytes codec (map dumps q'.buf) in
        let measured' : size' ≡ file_bytes codec (map dumps rest) =
          ap (λ b. file_bytes codec (map dumps b)) kept in
        rw (big, shed)
          (rw (file_size-IsSynced q' s') (
            shed-IsSynced limit rest size' (after_stat q') kept measured'
              (after_stat-IsSynced q' s')))
  ]

  enforce_size-IsSynced :
      (limit : ℕ) (q : LocalQueue P L)
      → IsSynced q
      → let r = enforce_size codec limit (file_size codec q) (after_stat q) in
        IsSynced r × IsWithin (some limit) r
  unfolding enforce_size after_stat
  enforce_size-IsSynced limit q s =
      let size = file_bytes codec (map dumps q.buf) in
      rw (file_size-IsSynced q s) (
        if-intro (λ r. IsSynced r × IsWithin (some limit) r) (leb size limit)
          (λ small. (after_stat-IsSynced q s, inl (leb→le size limit small)))
          (λ big.
            shed-IsSynced limit q.buf size (after_stat q) refl refl (after_stat-IsSynced q s)))

  enforce_limit-IsSynced :
      (limit : Option ℕ) (q : LocalQueue P L)
      → IsSynced q
      → IsSynced (enforce_limit codec limit q) × IsWithin limit (enforce_limit codec limit q)
  unfolding enforce_limit
  enforce_limit-IsSynced none q s = (s, tt)
  enforce_limit-IsSynced (some limit) q s =
      if-intro (λ r. IsSynced r × IsWithin (some limit) r) q.has_path
        (λ _. enforce_size-IsSynced limit q s) (λ memory. absurd (cc (s.path)))

  put_disk-IsSynced :
      (q : LocalQueue P L) (p : P)
      → IsSynced q
      → IsSynced (put_disk codec (will_overflow q) (put_buf q p) p)
  unfolding put_disk put_buf will_overflow
  put_disk-IsSynced q p s =
      let fits = length-push-le q.max_size q.buf p s.fits in
      if-intro IsSynced (leb q.max_size (length q.buf))
        (λ full. compact_disk-IsSynced (put_buf q p) s.path s.works fits)
        (λ room.
          append_line-IsSynced (put_buf q p) p q.buf s.path s.works s.synced
            (push_room q.max_size q.buf p room) fits)

  -- On a working disk a put keeps the file equal to the queue, line by line and in order, and keeps
  -- the queue within its size; afterwards the file is within the limit on bytes, where there is one,
  -- or the queue is empty.
  pub put-IsSynced :
      (q : LocalQueue P L) (p : P)
      → IsSynced q
      → IsSynced (put codec q p) × IsWithin q.max_bytes (put codec q p)
  unfolding put enforce_max_bytes
  put-IsSynced q p s =
      let q' = put_disk codec (will_overflow q) (put_buf q p) p in
      let limit : q'.max_bytes ≡ q.max_bytes =
        (put_disk-Keeps codec (will_overflow q) (put_buf q p) p).limited in
      if-intro (λ r. IsSynced r × IsWithin q.max_bytes r) q.has_path
        (λ _.
          subst
            (λ l. IsSynced (enforce_max_bytes codec q') × IsWithin l (enforce_max_bytes codec q'))
            limit (enforce_limit-IsSynced q'.max_bytes q' (put_disk-IsSynced q p s)))
        (λ memory. absurd (cc (s.path)))
