-- ===== src/Client/Queue/Overfull.antt =====
-- `_enforce_max_bytes_locked` of client_core/sender/local_queue.py on a full disk.
use inha_rada.Common.{
  ℕ, zero, suc, ◌+◌, ◌<◌, ◌≡◌, refl, sym, ap, ◌∙◌, true, some, List, [], ◌∷◌, ◌++◌, arith,
  lt→leb_false, lt→ltb, length, length-append,
}
use inha_rada.Deque.{push_room}
use inha_rada.Client.Queue.{
  Codec, Outcome, done, failed, LocalQueue, next_outcome, later_outcomes, after_stat, will_overflow,
  put_buf, file_bytes, append_outcome, append_line, compact_outcome, compact_disk, stat_outcome,
  file_size, drop_oldest, shed, enforce_size, enforce_limit, enforce_max_bytes, put_disk, put,
}

-- `n` rounds in which the rewriting of the file fails and its size can be read.
pub full_rounds {ℓ} : {L : Type ℓ} → ℕ → List (Outcome L)
full_rounds zero = []
full_rounds (suc n) = failed [] ∷ done ∷ full_rounds n

module _ {ℓ} {P L : Type ℓ} (codec : Codec P L) (limit : ℕ) (left : List L)
    (over : limit < file_bytes codec left) where
  abbrev failed_round : List P → List (Outcome L) → LocalQueue P L → LocalQueue P L
  failed_round rest os q = record q {
    buf = rest;
    dropped_count = q.dropped_count + 1;
    disk_write_failed_count = q.disk_write_failed_count + 1;
    outcomes = os;
  }

  drop_oldest_full :
      (rest : List P) (os : List (Outcome L)) (q : LocalQueue P L)
      → q.outcomes ≡ failed [] ∷ done ∷ os
      → after_stat (drop_oldest codec rest q) ≡ failed_round rest os q
  unfolding after_stat drop_oldest compact_disk compact_outcome next_outcome later_outcomes
  drop_oldest_full rest os q e =
      ap (λ o. after_stat (drop_oldest codec rest (record q { outcomes = o }))) e

  file_size_full :
      (rest : List P) (os : List (Outcome L)) (q : LocalQueue P L)
      → q.outcomes ≡ failed [] ∷ done ∷ os
      → q.file ≡ some left
      → file_size codec (drop_oldest codec rest q) ≡ some (file_bytes codec left)
  unfolding file_size stat_outcome drop_oldest compact_disk compact_outcome next_outcome
      later_outcomes
  file_size_full rest os q e held =
      ap (λ o. file_size codec (drop_oldest codec rest (record q { outcomes = o }))) e
      ∙ ap (λ f. stat_outcome codec f done) held

  shed_full_disk :
      (buf : List P) (size : ℕ) (q : LocalQueue P L)
      → q.buf ≡ buf
      → q.file ≡ some left
      → q.outcomes ≡ full_rounds (length buf)
      → limit < size
      → ((shed codec limit buf size q).buf ≡ [])
        × ((shed codec limit buf size q).dropped_count ≡ q.dropped_count + length buf)
  unfolding shed full_rounds
  shed_full_disk [] size q e held full big = (e, omega arith)
  shed_full_disk (p ∷ rest) size q e held full big =
      let os = full_rounds (length rest) in
      let (none_left, counted) =
        shed_full_disk rest (file_bytes codec left) (failed_round rest os q) refl held refl over in
      rw
        (
          lt→ltb limit size big,
          shed,
          file_size_full rest os q full held,
          drop_oldest_full rest os q full,
        )
        (none_left, omega (arith, counted))

  -- The queue of `put` when the shedding begins.
  abbrev overfull : LocalQueue P L → P → LocalQueue P L
  overfull q p = record q {
    has_path = true;
    max_bytes = some limit;
    buf = q.buf ++ p ∷ [];
    dropped_count = q.dropped_count + 0;
    disk_write_failed_count = q.disk_write_failed_count + 1;
    file = some left;
    outcomes = full_rounds (length q.buf + 1);
  }

  put-overfull :
      (q : LocalQueue P L) (p : P)
      → length q.buf < q.max_size
      → put codec
          (record q {
            has_path = true;
            max_bytes = some limit;
            outcomes = failed left ∷ done ∷ full_rounds (length q.buf + 1);
          })
          p
        ≡ shed codec limit (q.buf ++ p ∷ []) (file_bytes codec left) (overfull q p)
  unfolding put put_disk put_buf will_overflow append_line append_outcome enforce_max_bytes
      enforce_limit enforce_size file_size stat_outcome after_stat next_outcome later_outcomes
  put-overfull q p room = rw (
    lt→leb_false q.max_size (length q.buf) room,
    push_room q.max_size q.buf p (lt→leb_false _ _ room),
    lt→leb_false (file_bytes codec left) limit over,
  )

  -- In a queue with a file and a limit on its bytes, and with room for the payload, an append that
  -- fails and leaves the file over the limit, followed by rewrites that all fail, empties the queue:
  -- `put` loses the payload that it was given and all that were waiting, and counts them as dropped.
  pub put_full_disk :
      (q : LocalQueue P L) (p : P)
      → q.has_path ≡ true
      → q.max_bytes ≡ some limit
      → length q.buf < q.max_size
      → q.outcomes ≡ failed left ∷ done ∷ full_rounds (length q.buf + 1)
      → ((put codec q p).buf ≡ [])
        × ((put codec q p).dropped_count ≡ q.dropped_count + length q.buf + 1)
  put_full_disk q p path limited room full =
      let grown = length-append q.buf (p ∷ []) in
      let shape : put codec q p
          ≡ shed codec limit (q.buf ++ p ∷ []) (file_bytes codec left) (overfull q p) =
        (λ i.
          put codec (record q { has_path = path i; max_bytes = limited i; outcomes = full i }) p)
        ∙ put-overfull q p room in
      let (emptied, counted) =
        shed_full_disk (q.buf ++ p ∷ []) (file_bytes codec left) (overfull q p) refl refl
          (ap full_rounds (sym grown)) over in
      (
        ap (λ r. r.buf) shape ∙ emptied,
        ap (λ r. r.dropped_count) shape ∙ omega (arith, counted, grown),
      )
