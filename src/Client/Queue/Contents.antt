-- ===== src/Client/Queue/Contents.antt =====
-- The contents of the queue of client_core/sender/local_queue.py on any file system.
use inha_rada.Common.{
  ℕ, suc, ◌+◌, ◌≤◌, ◌<◌, ◌≡◌, refl, sym, ap, ◌∙◌, inl, inr, Option, none, some, List, [], ◌∷◌, ◌++◌,
  arith, ltb, leb, Bool-cases, if-intro, Option-cases, length, drop, length-append, length-drop,
  drop-drop_one,
}
use inha_rada.Deque.{push}
use inha_rada.Client.Queue.{
  Codec, LocalQueue, after_stat, will_overflow, put_buf, file_size, drop_oldest, shed, enforce_size,
  enforce_limit, enforce_max_bytes, put_disk, put, save, pop_item, pop,
}
use inha_rada.Client.Queue.Keeps.{Keeps, compact_disk-Keeps, after_stat-Keeps, put_disk-Keeps}

-- The queue holds the items without the oldest `count`, and has counted these as dropped.
pub record Trims {ℓ} {P L : Type ℓ} (items : List P) (dropped size : ℕ) (q : LocalQueue P L)
    : Type ℓ where
  pub count : ℕ
  pub count_le : count ≤ length items
  pub contents : q.buf ≡ drop count items
  pub counted : q.dropped_count ≡ dropped + count
  pub sized : q.max_size ≡ size

module _ {ℓ} {P L : Type ℓ} where
  Keeps-Trims :
      {items : List P} {d m : ℕ} {q q' : LocalQueue P L}
      → Keeps q q'
      → Trims items d m q
      → Trims items d m q'
  Keeps-Trims k t = record {
    count = t.count;
    count_le = t.count_le;
    contents = k.buf ∙ t.contents;
    counted = k.dropped ∙ t.counted;
    sized = k.sized ∙ t.sized;
  }

  Trims-all : (q : LocalQueue P L) → Trims q.buf q.dropped_count q.max_size q
  Trims-all q = record {
    count = 0;
    count_le = omega arith;
    contents = refl;
    counted = omega arith;
    sized = refl;
  }

module _ {ℓ} {P L : Type ℓ} (codec : Codec P L) where
  -- To drop the oldest item of what is left drops one more of the whole.
  drop_oldest-Trims :
      {items : List P} {d m : ℕ} (p : P) (rest : List P) (q : LocalQueue P L)
      → q.buf ≡ p ∷ rest
      → Trims items d m q
      → Trims items d m (drop_oldest codec rest q)
  unfolding drop_oldest
  drop_oldest-Trims {items} {d} {m} p rest q e t =
      let left : drop t.count items ≡ p ∷ rest = sym t.contents ∙ e in
      let fewer = ap length left in
      Keeps-Trims
        (compact_disk-Keeps codec (record q { buf = rest; dropped_count = q.dropped_count + 1 }))
        (record {
          count = suc t.count;
          count_le = omega (arith, length-drop t.count items, t.count_le);
          contents = sym (ap (drop 1) left) ∙ drop-drop_one t.count items;
          counted = omega (arith, t.counted);
          sized = t.sized;
        })

  pub drop_oldest-buf :
      (rest : List P) (q : LocalQueue P L) → (after_stat (drop_oldest codec rest q)).buf ≡ rest
  unfolding drop_oldest after_stat
  drop_oldest-buf rest q =
      (compact_disk-Keeps codec (record q { buf = rest; dropped_count = q.dropped_count + 1 })).buf

  shed-Trims :
      {items : List P} {d m : ℕ} (limit : ℕ) (buf : List P) (size : ℕ) (q : LocalQueue P L)
      → q.buf ≡ buf
      → Trims items d m q
      → Trims items d m (shed codec limit buf size q)
  unfolding shed
  shed-Trims limit [] size q e t = t
  shed-Trims {items} {d} {m} limit (p ∷ rest) size q e t = elim (Bool-cases (ltb limit size)) [
    | inr small ↦ rw (small, shed) t
    | inl big ↦
        let q' = drop_oldest codec rest q in
        let t' : Trims items d m (after_stat q') =
          Keeps-Trims (after_stat-Keeps codec q') (drop_oldest-Trims p rest q e t) in
        rw (big, shed)
          (elim (Option-cases (file_size codec q')) [
            | inl gone ↦ rw gone t'
            | inr (size', read) ↦
                rw read (shed-Trims limit rest size' (after_stat q') (drop_oldest-buf rest q) t')
          ])
  ]

  enforce_size-Trims :
      {items : List P} {d m : ℕ} (limit : ℕ) (size : Option ℕ) (q : LocalQueue P L)
      → Trims items d m q
      → Trims items d m (enforce_size codec limit size q)
  unfolding enforce_size
  enforce_size-Trims limit none q t = t
  enforce_size-Trims {items} {d} {m} limit (some size) q t =
      if-intro (Trims items d m) (leb size limit) (λ small. t)
        (λ big. shed-Trims limit q.buf size q refl t)

  enforce_limit-Trims :
      {items : List P} {d m : ℕ} (limit : Option ℕ) (q : LocalQueue P L)
      → Trims items d m q
      → Trims items d m (enforce_limit codec limit q)
  unfolding enforce_limit
  enforce_limit-Trims none q t = t
  enforce_limit-Trims {items} {d} {m} (some limit) q t =
      if-intro (Trims items d m) q.has_path
        (λ path.
          enforce_size-Trims limit (file_size codec q) (after_stat q)
            (Keeps-Trims (after_stat-Keeps codec q) t))
        (λ memory. t)

  put_buf-Trims :
      (q : LocalQueue P L) (p : P)
      → 0 < q.max_size
      → Trims (q.buf ++ p ∷ []) q.dropped_count q.max_size (put_buf q p)
  unfolding put_buf will_overflow push
  put_buf-Trims q p h = elim (Bool-cases (leb q.max_size (length q.buf))) [
    | inl full ↦ record {
      count = 1;
      count_le = omega (arith, length-append q.buf (p ∷ []));
      contents = rw full;
      counted = rw full;
      sized = refl;
    }
    | inr room ↦ record {
      count = 0;
      count_le = omega arith;
      contents = rw room;
      counted = rw room;
      sized = refl;
    }
  ]

  -- A put to a queue of positive size adds the payload at the end and may drop items from the
  -- front, each of which it counts; it loses nothing else and keeps the order and the size, whatever
  -- the disk answers and whatever the limit on bytes is.
  pub put-Trims :
      (q : LocalQueue P L) (p : P)
      → 0 < q.max_size
      → Trims (q.buf ++ p ∷ []) q.dropped_count q.max_size (put codec q p)
  unfolding put enforce_max_bytes
  put-Trims q p h =
      let full = will_overflow q in
      let q' = put_disk codec full (put_buf q p) p in
      let t = put_buf-Trims q p h in
      if-intro (Trims (q.buf ++ p ∷ []) q.dropped_count q.max_size) q.has_path
        (λ path.
          enforce_limit-Trims q'.max_bytes q'
            (Keeps-Trims (put_disk-Keeps codec full (put_buf q p) p) t))
        (λ memory. t)

  save-Keeps : (q : LocalQueue P L) → Keeps q (save codec q)
  unfolding save
  save-Keeps q =
      if-intro (Keeps q) q.has_path (λ _. compact_disk-Keeps codec q)
        (λ _. record { buf = refl; dropped = refl; sized = refl; limited = refl; skipped = refl })

  pub pop_empty : (q : LocalQueue P L) → q.buf ≡ [] → pop codec q ≡ (q, none)
  unfolding pop pop_item
  pop_empty q e = ap (λ items. pop_item codec items q) e

  -- A pop takes the oldest item and leaves the others, whatever the disk answers.
  pub pop_cons :
      (q : LocalQueue P L) (p : P) (rest : List P)
      → q.buf ≡ p ∷ rest
      → (q' : LocalQueue P L) × (pop codec q ≡ (q', some p)) × Keeps (record q { buf = rest }) q'
  unfolding pop pop_item
  pop_cons q p rest e = (
    save codec (record q { buf = rest }),
    ap (λ items. pop_item codec items q) e,
    save-Keeps (record q { buf = rest }),
  )
