-- ===== src/Client/Queue.antt =====
-- `LocalQueue` of client_core/sender/local_queue.py: a bounded queue of payloads that is kept in
-- memory and, if it has a path, in a JSONL file. The lock makes each method one step.
-- The file system answers each operation by the next `Outcome`; after the last one all succeed.
pub mod Keeps
pub mod Contents
pub mod Synced
pub mod Restart
pub mod Started
pub mod Overfull
use inha_rada.Common.{
  ℕ, ◌+◌, ◌≡◌, Bool, true, false, ◌||◌, Option, none, some, List, [], ◌∷◌, ◌++◌, map, foldl, ltb,
  leb, if◌then◌else◌, pts, length,
}
use inha_rada.Deque.{push}

-- `json.dumps`, `json.loads` (`none` is `JSONDecodeError`), the test for a blank line, and the
-- bytes of a line without its newline.
pub record Codec {ℓ} (P L : Type ℓ) : Type ℓ where
  pub dumps : P → L
  pub loads : L → Option P
  pub is_blank : L → Bool
  pub bytes : L → ℕ

-- What the queue relies on: a payload that was written is read back.
pub record IsFaithful {ℓ} {P L : Type ℓ} (codec : Codec P L) : Type ℓ where
  pub loads-dumps : (p : P) → codec.loads (codec.dumps p) ≡ some p
  pub dumps_solid : (p : P) → codec.is_blank (codec.dumps p) ≡ false

-- How the file system answers. `failed` is an `OSError`: after an append the file holds the given
-- lines, a read yields the given lines first. An append that succeeds where an earlier one left a
-- line without its newline is `joined`: that line runs on, and the file holds the given lines.
pub data Outcome {ℓ} (L : Type ℓ) : Type ℓ where
  done : Outcome L
  joined : List L → Outcome L
  fsync_failed : Outcome L
  failed : List L → Outcome L

pub record LocalQueue {ℓ} (P L : Type ℓ) : Type ℓ where
  pub max_size : ℕ
  pub max_bytes : Option ℕ
  pub fsync : Bool
  pub has_path : Bool
  pub buf : List P
  pub dropped_count : ℕ
  pub corrupt_skipped_count : ℕ
  pub disk_write_failed_count : ℕ
  pub file : Option (List L)
  pub outcomes : List (Outcome L)

module _ {ℓ} {L : Type ℓ} where
  pub next_outcome : List (Outcome L) → Outcome L
  next_outcome [] = done
  next_outcome (o ∷ os) = o

  pub later_outcomes : List (Outcome L) → List (Outcome L)
  later_outcomes [] = []
  later_outcomes (o ∷ os) = os

  pub lines_of : Option (List L) → List L
  lines_of none = []
  lines_of (some lines) = lines

module _ {ℓ} {P L : Type ℓ} where
  unfoldable pub after_stat : LocalQueue P L → LocalQueue P L
  unfolding later_outcomes
  after_stat q = record q { outcomes = later_outcomes q.outcomes }

  unfoldable pub will_overflow : LocalQueue P L → Bool
  will_overflow q = leb q.max_size (length q.buf)

  -- The part of `put` that works in memory.
  unfoldable pub put_buf : LocalQueue P L → P → LocalQueue P L
  unfolding will_overflow
  put_buf q p = record q {
    buf = push q.max_size q.buf p;
    dropped_count = q.dropped_count + pts (will_overflow q) 1;
  }

module _ {ℓ} {P L : Type ℓ} (codec : Codec P L) where
  open codec use {dumps, loads, is_blank, bytes}

  unfoldable pub file_bytes : List L → ℕ
  file_bytes [] = 0
  file_bytes (line ∷ lines) = bytes line + 1 + file_bytes lines

  -- `_append_line_locked`
  append_outcome : P → LocalQueue P L → Outcome L → LocalQueue P L
  unfolding lines_of
  append_outcome p q done = record q { file = some (lines_of q.file ++ dumps p ∷ []) }
  append_outcome p q (joined lines) = record q { file = some lines }
  append_outcome p q fsync_failed = record q {
    file = some (lines_of q.file ++ dumps p ∷ []);
    disk_write_failed_count = q.disk_write_failed_count + pts q.fsync 1;
  }
  append_outcome p q (failed left) = record q {
    file = some left;
    disk_write_failed_count = q.disk_write_failed_count + 1;
  }

  unfoldable pub append_line : LocalQueue P L → P → LocalQueue P L
  unfolding append_outcome next_outcome later_outcomes
  append_line q p =
      append_outcome p (record q { outcomes = later_outcomes q.outcomes }) (next_outcome q.outcomes)

  -- `_compact_disk_locked`: a failure before `os.replace` leaves the file as it was.
  compact_outcome : LocalQueue P L → Outcome L → LocalQueue P L
  compact_outcome q done = record q { file = some (map dumps q.buf) }
  compact_outcome q (joined _) = record q { file = some (map dumps q.buf) }
  compact_outcome q fsync_failed = record q {
    file = some (map dumps q.buf);
    disk_write_failed_count = q.disk_write_failed_count + pts q.fsync 1;
  }
  compact_outcome q (failed _) = record q {
    disk_write_failed_count = q.disk_write_failed_count + 1;
  }

  unfoldable pub compact_disk : LocalQueue P L → LocalQueue P L
  unfolding compact_outcome next_outcome later_outcomes
  compact_disk q =
      compact_outcome (record q { outcomes = later_outcomes q.outcomes }) (next_outcome q.outcomes)

  -- `stat().st_size`; `none` is an `OSError`, also of a file that is not there.
  stat_outcome : Option (List L) → Outcome L → Option ℕ
  unfolding file_bytes
  stat_outcome file (failed _) = none
  stat_outcome none _ = none
  stat_outcome (some lines) _ = some (file_bytes lines)

  unfoldable pub file_size : LocalQueue P L → Option ℕ
  unfolding stat_outcome next_outcome
  file_size q = stat_outcome q.file (next_outcome q.outcomes)

  -- One round of the `while` of `_enforce_max_bytes_locked`, whose queue holds `buf` next.
  unfoldable pub drop_oldest : List P → LocalQueue P L → LocalQueue P L
  drop_oldest buf q = compact_disk (record q { buf = buf; dropped_count = q.dropped_count + 1 })

  -- That `while`, over the items of the queue.
  unfoldable pub shed : ℕ → List P → ℕ → LocalQueue P L → LocalQueue P L
  shed max_bytes [] size q = q
  shed max_bytes (p ∷ rest) size q = elim (ltb max_bytes size) [
    | false ↦ q
    | true ↦
        let q' = drop_oldest rest q in
        elim (file_size q') [
          | none ↦ after_stat q'
          | some size' ↦ shed max_bytes rest size' (after_stat q')
        ]
  ]

  enforce_size : ℕ → Option ℕ → LocalQueue P L → LocalQueue P L
  unfolding shed
  enforce_size max_bytes none q = q
  enforce_size max_bytes (some size) q =
      if leb size max_bytes then q else shed max_bytes q.buf size q

  enforce_limit : Option ℕ → LocalQueue P L → LocalQueue P L
  unfolding enforce_size file_size after_stat
  enforce_limit none q = q
  enforce_limit (some max_bytes) q =
      if q.has_path then enforce_size max_bytes (file_size q) (after_stat q) else q

  unfoldable pub enforce_max_bytes : LocalQueue P L → LocalQueue P L
  unfolding enforce_limit
  enforce_max_bytes q = enforce_limit q.max_bytes q

  -- The part of `put` that writes, before the limit on bytes is enforced.
  unfoldable pub put_disk : Bool → LocalQueue P L → P → LocalQueue P L
  put_disk overflow q p = if overflow then compact_disk q else append_line q p

  unfoldable pub put : LocalQueue P L → P → LocalQueue P L
  unfolding put_buf put_disk will_overflow
  put q p =
      if q.has_path
      then enforce_max_bytes (put_disk (will_overflow q) (put_buf q p) p)
      else put_buf q p

  unfoldable pub save : LocalQueue P L → LocalQueue P L
  save q = if q.has_path then compact_disk q else q

  pop_item : List P → LocalQueue P L → LocalQueue P L × Option P
  unfolding save
  pop_item [] q = (q, none)
  pop_item (p ∷ rest) q = (save (record q { buf = rest }), some p)

  unfoldable pub pop : LocalQueue P L → LocalQueue P L × Option P
  unfolding pop_item
  pop q = pop_item q.buf q

  unfoldable pub drain : LocalQueue P L → LocalQueue P L × List P
  unfolding save
  drain q = (save (record q { buf = [] }), q.buf)

  -- One line of the file in `_load_from_disk`.
  load_object : LocalQueue P L → Option P → LocalQueue P L
  unfolding put_buf
  load_object q none = record q { corrupt_skipped_count = q.corrupt_skipped_count + 1 }
  load_object q (some p) = put_buf q p

  unfoldable pub load_line : LocalQueue P L → L → LocalQueue P L
  unfolding load_object
  load_line q line = if is_blank line then q else load_object q (loads line)

  load_lines : List L → Outcome L → LocalQueue P L → LocalQueue P L
  unfolding load_line
  load_lines lines (failed left) q = foldl load_line q left
  load_lines lines _ q = compact_disk (foldl load_line q lines)

  -- `_load_from_disk`: nothing to do without a file; after a failed read nothing is compacted.
  load_file : Option (List L) → LocalQueue P L → LocalQueue P L
  unfolding load_lines next_outcome later_outcomes
  load_file none q = q
  load_file (some lines) q =
      load_lines lines (next_outcome q.outcomes) (record q { outcomes = later_outcomes q.outcomes })

  unfoldable pub load_from_disk : LocalQueue P L → LocalQueue P L
  unfolding load_file
  load_from_disk q = load_file q.file q

  -- `max_bytes is not None and max_bytes <= 0`
  pub bad_limit : Option ℕ → Bool
  bad_limit none = false
  bad_limit (some max_bytes) = leb max_bytes 0

  -- The queue of `__init__` before it reads the disk, which holds `file` and answers by `outcomes`.
  unfoldable pub fresh :
      ℕ → Bool → Option ℕ → Bool → Option (List L) → List (Outcome L) → LocalQueue P L
  fresh max_size has_path max_bytes fsync file outcomes = record {
    max_size = max_size;
    max_bytes = max_bytes;
    fsync = fsync;
    has_path = has_path;
    buf = [];
    dropped_count = 0;
    corrupt_skipped_count = 0;
    disk_write_failed_count = 0;
    file = file;
    outcomes = outcomes;
  }

  -- `__init__`; `none` is a `ValueError`.
  unfoldable pub init :
      (max_size : ℕ) (has_path : Bool) (max_bytes : Option ℕ) (fsync : Bool)
      (file : Option (List L)) (outcomes : List (Outcome L))
      → Option (LocalQueue P L)
  unfolding bad_limit load_from_disk fresh
  init max_size has_path max_bytes fsync file outcomes =
      let q = fresh max_size has_path max_bytes fsync file outcomes in
      if leb max_size 0 || bad_limit max_bytes
      then none
      else some (if has_path then load_from_disk q else q)
