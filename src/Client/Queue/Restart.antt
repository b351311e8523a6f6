-- ===== src/Client/Queue/Restart.antt =====
-- `__init__` of client_core/sender/local_queue.py on the file of an earlier queue.
use inha_rada.Common.{
  ℕ, ◌+◌, ◌≤◌, ◌<◌, ◌≡◌, refl, ap, ◌∙◌, Bool, true, false, Option, none, some, List, [], ◌∷◌, ◌++◌,
  map, foldl, append-nil, append_assoc, arith, if-intro, lt→leb_false, length, length-append,
}
use native.Mathlib.Nat.{add-zero}
use inha_rada.Deque.{push_room}
use inha_rada.Client.Queue.Synced.{
  Call, call_put, call_pop, call_drain, step, IsSynced, save-IsSynced, put-IsSynced,
}
use inha_rada.Client.Queue.Contents.{put-Trims}
use inha_rada.Client.Queue.Keeps.{compact_disk-Keeps}
use inha_rada.Client.Queue.{
  Codec, IsFaithful, LocalQueue, next_outcome, later_outcomes, will_overflow, put_buf, compact_disk,
  save, pop_item, pop, drain, load_object, load_line, load_lines, load_file, load_from_disk,
  bad_limit, fresh, init,
}

-- A limit that `__init__` takes.
abbrev pub IsPositive : Option ℕ → Type 0
IsPositive none = Unit
IsPositive (some n) = 0 < n

module _ {ℓ} {P L : Type ℓ} (codec : Codec P L) where
  open codec use {dumps, loads, is_blank}

  pop_item-IsSynced :
      (items : List P) (q : LocalQueue P L)
      → q.buf ≡ items
      → IsSynced codec q
      → IsSynced codec (pop_item codec items q).0
  unfolding pop_item
  pop_item-IsSynced [] q e s = s
  pop_item-IsSynced (p ∷ rest) q e s =
      save-IsSynced codec (record q { buf = rest }) s.path s.works
        (omega (arith, ap length e, s.fits))

  pub step-IsSynced :
      (q : LocalQueue P L) (c : Call P) → IsSynced codec q → IsSynced codec (step codec q c)
  unfolding step pop drain
  step-IsSynced q (call_put p) s = (put-IsSynced codec q p s).0
  step-IsSynced q call_pop s = pop_item-IsSynced q.buf q refl s
  step-IsSynced q call_drain s =
      save-IsSynced codec (record q { buf = [] }) s.path s.works (omega arith)

  run-IsSynced :
      (cs : List (Call P)) (q : LocalQueue P L)
      → IsSynced codec q
      → IsSynced codec (foldl (step codec) q cs)
  run-IsSynced [] q s = s
  run-IsSynced (c ∷ cs) q s = run-IsSynced cs (step codec q c) (step-IsSynced q c s)

  save-max_size : (q : LocalQueue P L) → (save codec q).max_size ≡ q.max_size
  unfolding save
  save-max_size q =
      if-intro {A = LocalQueue P L} (λ q'. q'.max_size ≡ q.max_size) q.has_path
        (λ _. (compact_disk-Keeps codec q).sized) (λ _. refl)

  pop_item-max_size :
      (items : List P) (q : LocalQueue P L) → (pop_item codec items q).0.max_size ≡ q.max_size
  unfolding pop_item
  pop_item-max_size [] q = refl
  pop_item-max_size (p ∷ rest) q = save-max_size (record q { buf = rest })

  pub step-max_size :
      (q : LocalQueue P L) (c : Call P) → 0 < q.max_size → (step codec q c).max_size ≡ q.max_size
  unfolding step pop drain
  step-max_size q (call_put p) h = (put-Trims codec q p h).sized
  step-max_size q call_pop h = pop_item-max_size q.buf q
  step-max_size q call_drain h = save-max_size (record q { buf = [] })

  run_positive :
      (cs : List (Call P)) (q : LocalQueue P L)
      → 0 < q.max_size
      → 0 < (foldl (step codec) q cs).max_size
  run_positive [] q h = h
  run_positive (c ∷ cs) q h = run_positive cs (step codec q c) (omega (arith, step-max_size q c h))

  pub bad_limit-IsPositive : (limit : Option ℕ) → IsPositive limit → bad_limit codec limit ≡ false
  unfolding bad_limit
  bad_limit-IsPositive none h = refl
  bad_limit-IsPositive (some n) h = lt→leb_false n 0 h

  module _ (faithful : IsFaithful codec) where
    load_line-dumps :
        (q : LocalQueue P L) (p : P)
        → length q.buf < q.max_size
        → load_line codec q (dumps p) ≡ record q { buf = q.buf ++ p ∷ [] }
    unfolding load_line load_object put_buf will_overflow
    load_line-dumps q p h = rw (
      faithful.dumps_solid p,
      faithful.loads-dumps p,
      push_room q.max_size q.buf p (lt→leb_false _ _ h),
      lt→leb_false q.max_size (length q.buf) h,
      add-zero,
    )

    load_lines-dumps :
        (items : List P) (q : LocalQueue P L)
        → length q.buf + length items ≤ q.max_size
        → foldl (load_line codec) q (map dumps items) ≡ record q { buf = q.buf ++ items }
    load_lines-dumps [] q h = rw append-nil
    load_lines-dumps (p ∷ items) q h =
        ap (λ r. foldl (load_line codec) r (map dumps items)) (load_line-dumps q p (omega arith))
        ∙ load_lines-dumps items (record q { buf = q.buf ++ p ∷ [] })
            (omega (arith, length-append q.buf (p ∷ [])))
        ∙ ap (λ b. record q { buf = b }) (append_assoc q.buf (p ∷ []) items)

    pub init-dumps :
        (items : List P) (m : ℕ) (limit : Option ℕ) (sync : Bool)
        → length items ≤ m
        → 0 < m
        → IsPositive limit
        → (r : LocalQueue P L) × (init codec m true limit sync (some (map dumps items)) [] ≡ some r)
          × (r.buf ≡ items)
          × (r.dropped_count ≡ 0)
          × (r.corrupt_skipped_count ≡ 0)
    unfolding init load_from_disk load_file load_lines next_outcome later_outcomes fresh
    init-dumps items m limit sync fits positive allowed =
        let q = fresh codec m true limit sync (some (map dumps items)) [] in
        let read = foldl (load_line codec) q (map dumps items) in
        let k = compact_disk-Keeps codec read in
        let loaded : read ≡ record q { buf = items } = load_lines-dumps items q (omega arith) in
        (
          compact_disk codec read,
          rw (lt→leb_false m 0 positive, bad_limit-IsPositive limit allowed) refl,
          k.buf ∙ ap (λ x. x.buf) loaded,
          k.dropped ∙ ap (λ x. x.dropped_count) loaded,
          k.skipped ∙ ap (λ x. x.corrupt_skipped_count) loaded,
        )
