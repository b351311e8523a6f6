-- ===== src/Client/Queue/Keeps.antt =====
-- The calls on the disk of client_core/sender/local_queue.py and the items of the queue.
use inha_rada.Common.{◌≡◌, refl, Bool, true, false}
use inha_rada.Client.Queue.{
  Codec, Outcome, done, joined, fsync_failed, failed, LocalQueue, next_outcome, after_stat,
  append_outcome, append_line, compact_outcome, compact_disk, put_disk,
}

-- The calls on the disk leave the items and what was dropped alone.
pub record Keeps {ℓ} {P L : Type ℓ} (q q' : LocalQueue P L) : Type ℓ where
  pub buf : q'.buf ≡ q.buf
  pub dropped : q'.dropped_count ≡ q.dropped_count
  pub sized : q'.max_size ≡ q.max_size
  pub limited : q'.max_bytes ≡ q.max_bytes
  pub skipped : q'.corrupt_skipped_count ≡ q.corrupt_skipped_count

module _ {ℓ} {P L : Type ℓ} (codec : Codec P L) where
  compact_outcome-Keeps : (q : LocalQueue P L) (o : Outcome L) → Keeps q (compact_outcome codec q o)
  unfolding compact_outcome
  compact_outcome-Keeps q done = record {
    buf = refl;
    dropped = refl;
    sized = refl;
    limited = refl;
    skipped = refl;
  }
  compact_outcome-Keeps q (joined l) = record {
    buf = refl;
    dropped = refl;
    sized = refl;
    limited = refl;
    skipped = refl;
  }
  compact_outcome-Keeps q fsync_failed = record {
    buf = refl;
    dropped = refl;
    sized = refl;
    limited = refl;
    skipped = refl;
  }
  compact_outcome-Keeps q (failed l) = record {
    buf = refl;
    dropped = refl;
    sized = refl;
    limited = refl;
    skipped = refl;
  }

  pub compact_disk-Keeps : (q : LocalQueue P L) → Keeps q (compact_disk codec q)
  unfolding compact_disk after_stat
  compact_disk-Keeps q =
      let k = compact_outcome-Keeps (after_stat q) (next_outcome q.outcomes) in
      record {
        buf = k.buf;
        dropped = k.dropped;
        sized = k.sized;
        limited = k.limited;
        skipped = k.skipped;
      }

  append_outcome-Keeps :
      (p : P) (q : LocalQueue P L) (o : Outcome L) → Keeps q (append_outcome codec p q o)
  unfolding append_outcome
  append_outcome-Keeps p q done = record {
    buf = refl;
    dropped = refl;
    sized = refl;
    limited = refl;
    skipped = refl;
  }
  append_outcome-Keeps p q (joined l) = record {
    buf = refl;
    dropped = refl;
    sized = refl;
    limited = refl;
    skipped = refl;
  }
  append_outcome-Keeps p q fsync_failed = record {
    buf = refl;
    dropped = refl;
    sized = refl;
    limited = refl;
    skipped = refl;
  }
  append_outcome-Keeps p q (failed l) = record {
    buf = refl;
    dropped = refl;
    sized = refl;
    limited = refl;
    skipped = refl;
  }

  pub append_line-Keeps : (q : LocalQueue P L) (p : P) → Keeps q (append_line codec q p)
  unfolding append_line after_stat
  append_line-Keeps q p =
      let k = append_outcome-Keeps p (after_stat q) (next_outcome q.outcomes) in
      record {
        buf = k.buf;
        dropped = k.dropped;
        sized = k.sized;
        limited = k.limited;
        skipped = k.skipped;
      }

  pub after_stat-Keeps : (q : LocalQueue P L) → Keeps q (after_stat q)
  unfolding after_stat
  after_stat-Keeps q = record {
    buf = refl;
    dropped = refl;
    sized = refl;
    limited = refl;
    skipped = refl;
  }

  pub put_disk-Keeps :
      (full : Bool) (q : LocalQueue P L) (p : P) → Keeps q (put_disk codec full q p)
  unfolding put_disk
  put_disk-Keeps true q p = compact_disk-Keeps q
  put_disk-Keeps false q p = append_line-Keeps q p
