-- ===== src/Client/Queue/Started.antt =====
-- `__init__` of client_core/sender/local_queue.py on a working disk, the calls after it, and a restart.
use inha_rada.Common.{
  ℕ, ◌≤◌, ◌<◌, ◌≡◌, refl, sym, ap, ◌∙◌, subst, ◌⊎◌, inl, inr, Bool, true, Option, none, some, List,
  [], ◌∷◌, map, foldl, arith, leb, Bool-cases, Option-cases, lt→leb_false, length,
}
use inha_rada.Deque.{length-push-le}
use inha_rada.Client.Queue.Keeps.{compact_disk-Keeps}
use inha_rada.Client.Queue.Synced.{
  Call, call_put, call_pop, call_drain, step, IsSynced, compact_disk-IsSynced, save-IsSynced,
  put-IsSynced,
}
use inha_rada.Client.Queue.Contents.{pop_empty}
use inha_rada.Client.Queue.Restart.{
  IsPositive, step-IsSynced, step-max_size, bad_limit-IsPositive, init-dumps,
}
use inha_rada.Client.Queue.{
  Codec, IsFaithful, LocalQueue, next_outcome, later_outcomes, lines_of, will_overflow, put_buf,
  append_outcome, append_line, put_disk, put, pop_item, pop, drain, load_object, load_line,
  load_lines, load_file, load_from_disk, bad_limit, fresh, init,
}

-- A queue whose file does not exist yet: nothing was put so far.
pub record IsUntouched {ℓ} {P L : Type ℓ} (q : LocalQueue P L) : Type ℓ where
  pub path : q.has_path ≡ true
  pub works : q.outcomes ≡ []
  pub absent : q.file ≡ none
  pub empty : q.buf ≡ []

module _ {ℓ} {P L : Type ℓ} (codec : Codec P L) where
  open codec use {dumps, loads, is_blank}

  -- The file holds the items, or there is neither.
  abbrev pub Mirrors : LocalQueue P L → Type ℓ
  Mirrors q = IsSynced codec q ⊎ IsUntouched q

  -- A put to a file that does not exist is one to an empty file.
  put_untouched :
      (q : LocalQueue P L) (p : P)
      → 0 < q.max_size
      → IsUntouched q
      → put codec q p ≡ put codec (record q { file = some [] }) p
  unfolding put put_disk put_buf will_overflow append_line append_outcome lines_of next_outcome
      later_outcomes
  put_untouched q p h u = rw (u.path, u.absent, u.works, u.empty, lt→leb_false q.max_size 0 h) refl

  step-Mirrors :
      (q : LocalQueue P L) (c : Call P) → 0 < q.max_size → Mirrors q → Mirrors (step codec q c)
  unfolding step pop drain pop_item
  step-Mirrors q c h (inl s) = inl (step-IsSynced codec q c s)
  step-Mirrors q (call_put p) h (inr u) = rw (put_untouched q p h u) (
      inl
        (put-IsSynced codec (record q { file = some [] }) p
          (record {
            path = u.path;
            works = u.works;
            synced = ap (λ b. some (map dumps b)) (sym u.empty);
            fits = omega (arith, ap length u.empty);
          })).0)
  step-Mirrors q call_pop h (inr u) =
      subst Mirrors (sym (ap (λ (r : LocalQueue P L × Option P). r.0) (pop_empty codec q u.empty)))
        (inr u)
  step-Mirrors q call_drain h (inr u) =
      inl (save-IsSynced codec (record q { buf = [] }) u.path u.works (omega arith))

  run-Mirrors :
      (cs : List (Call P)) (q : LocalQueue P L)
      → 0 < q.max_size
      → Mirrors q
      → Mirrors (foldl (step codec) q cs) × (0 < (foldl (step codec) q cs).max_size)
  run-Mirrors [] q h m = (m, h)
  run-Mirrors (c ∷ cs) q h m =
      run-Mirrors cs (step codec q c) (omega (arith, step-max_size codec q c h))
        (step-Mirrors q c h m)

  -- What reading a line leaves as it is.
  record IsReading (m : ℕ) (q : LocalQueue P L) : Type ℓ where
    path : q.has_path ≡ true
    works : q.outcomes ≡ []
    sized : q.max_size ≡ m
    fits : length q.buf ≤ m

  load_line-IsReading :
      (m : ℕ) (q : LocalQueue P L) (line : L) → IsReading m q → IsReading m (load_line codec q line)
  unfolding load_line load_object put_buf
  load_line-IsReading m q line r = elim (Bool-cases (is_blank line)) [
    | inl blank ↦ rw (blank) r
    | inr full ↦ elim (Option-cases (loads line)) [
      | inl corrupt ↦
          rw (full, corrupt)
            (record { path = r.path; works = r.works; sized = r.sized; fits = r.fits })
      | inr (p, read) ↦
          rw (full, read)
            (record {
              path = r.path;
              works = r.works;
              sized = r.sized;
              fits = omega (
                arith,
                length-push-le q.max_size q.buf p (omega (arith, r.fits, r.sized)),
                r.sized,
              );
            })
    ]
  ]

  load_lines-IsReading :
      (m : ℕ) (lines : List L) (q : LocalQueue P L)
      → IsReading m q
      → IsReading m (foldl (load_line codec) q lines)
  load_lines-IsReading m [] q r = r
  load_lines-IsReading m (line ∷ lines) q r =
      load_lines-IsReading m lines (load_line codec q line) (load_line-IsReading m q line r)

  load-Mirrors :
      (m : ℕ) (limit : Option ℕ) (sync : Bool) (file : Option (List L))
      → let q = load_from_disk codec (fresh codec m true limit sync file []) in
        Mirrors q × (q.max_size ≡ m)
  unfolding load_from_disk load_file load_lines fresh next_outcome later_outcomes
  load-Mirrors m limit sync none =
      (inr (record { path = refl; works = refl; absent = refl; empty = refl }), refl)
  load-Mirrors m limit sync (some lines) =
      let q = fresh codec m true limit sync (some lines) [] in
      let read = foldl (load_line codec) q lines in
      let r =
        load_lines-IsReading m lines q
          (record { path = refl; works = refl; sized = refl; fits = omega arith }) in
      (
        inl (compact_disk-IsSynced codec read r.path r.works (omega (arith, r.fits, r.sized))),
        (compact_disk-Keeps codec read).sized ∙ r.sized,
      )

  init-Mirrors :
      (m : ℕ) (limit : Option ℕ) (sync : Bool) (file : Option (List L)) (q : LocalQueue P L)
      → init codec m true limit sync file [] ≡ some q
      → Mirrors q × (0 < q.max_size)
  unfolding init
  init-Mirrors m limit sync file q h =
      let (mirrors, sized) = load-Mirrors m limit sync file in
      elim (Bool-cases (leb m 0)) [
        | inl zero_size ↦ absurd (cc (rw (init, zero_size) at h))
        | inr positive ↦ elim (Bool-cases (bad_limit codec limit)) [
          | inl bad ↦ absurd (cc (rw (init, positive, bad) at h))
          | inr good ↦
              let h' : some (load_from_disk codec (fresh codec m true limit sync file []))
                  ≡ some q =
                rw (init, positive, good) at h in
              let e : load_from_disk codec (fresh codec m true limit sync file []) ≡ q = cc in
              subst (λ x. Mirrors x × (0 < x.max_size)) e (mirrors, ground (arith, sized))
        ]
      ]

  module _ (faithful : IsFaithful codec) where
    restart-Mirrors :
        (q : LocalQueue P L) (limit : Option ℕ) (sync : Bool)
        → Mirrors q
        → 0 < q.max_size
        → IsPositive limit
        → (r : LocalQueue P L) × (init codec q.max_size true limit sync q.file [] ≡ some r)
          × (r.buf ≡ q.buf)
          × (r.dropped_count ≡ 0)
          × (r.corrupt_skipped_count ≡ 0)
    unfolding init load_from_disk load_file fresh
    restart-Mirrors q limit sync (inl s) positive allowed =
        rw (s.synced)
          (init-dumps codec faithful q.buf q.max_size limit sync s.fits positive allowed)
    restart-Mirrors q limit sync (inr u) positive allowed =
        rw (u.absent, u.empty)
          (
            fresh codec q.max_size true limit sync none [],
            rw (lt→leb_false q.max_size 0 positive, bad_limit-IsPositive codec limit allowed) refl,
            refl,
            refl,
            refl,
          )

    -- With a faithful codec and on a working disk: take any queue that `__init__` makes with a path,
    -- from whatever file there is or none, and any calls after it. Its size is positive, and a
    -- second `__init__` with that size, any allowed limit and the file as it then is succeeds: the
    -- new queue has the same items, has dropped none and has skipped no line.
    pub run-restart :
        (m : ℕ) (limit : Option ℕ) (sync : Bool) (file : Option (List L)) (q : LocalQueue P L)
        → (cs : List (Call P)) (new_limit : Option ℕ) (new_sync : Bool)
        → init codec m true limit sync file [] ≡ some q
        → IsPositive new_limit
        → let q' = foldl (step codec) q cs in
          (0 < q'.max_size)
          × ((r : LocalQueue P L) × (init codec q'.max_size true new_limit new_sync q'.file []
                ≡ some r)
              × (r.buf ≡ q'.buf)
              × (r.dropped_count ≡ 0)
              × (r.corrupt_skipped_count ≡ 0))
    run-restart m limit sync file q cs new_limit new_sync made allowed =
        let (mirrors, positive) = init-Mirrors m limit sync file q made in
        let (mirrors', positive') = run-Mirrors cs q positive mirrors in
        (positive', restart-Mirrors _ new_limit new_sync mirrors' positive' allowed)
