-- ===== src/Server/Retrieval/Evictions.antt =====
-- What ml_server/retrieval/retrieval_store.py keeps, and what it counts as evicted.
use inha_rada.Common.{
  ℕ, suc, ◌+◌, ◌-◌, ◌≡◌, refl, sym, ap, ◌∙◌, subst, true, false, Option, List, [], ◌∷◌, ◌++◌, map,
  append-nil, append_assoc, arith, leb, ◌==◌, pts, length, length-append, All,
}
use inha_rada.Deque.{push, last_n, length-last_n, push-last_n}
use inha_rada.Server.Counters.{Counters, increment, no_failures}
use inha_rada.Server.Gating.{Verdict}
use inha_rada.Server.Retrieval.Store.{
  Space, StoredSegment, Item, Store, maxlen, slot_of, reset_store, set_slot, item_of, add_segment,
}

-- The arguments of a call of `add_segment`.
pub record Add (Embedding : Type 0) : Type 0 where
  pub segment : StoredSegment
  pub embedding : Embedding
  pub verdict : Verdict
  pub score : Option ℕ

eq_self : (n : ℕ) → (n == n) ≡ true
eq_self n = ground arith

module _ {Embedding : Type 0} (sp : Space Embedding) where
  abbrev pub stored : Add Embedding → Item Embedding
  stored a = item_of a.segment a.embedding a.verdict a.score

  -- The store and the counters after calls.
  abbrev pub added : Store Embedding → Counters → List (Add Embedding) → Store Embedding × Counters
  added st c [] = (st, c)
  added st c (a ∷ as') =
      let r = add_segment sp st c a.segment a.embedding a.verdict a.score in added r.0 r.1 as'

  -- The call has an embedding and is for that slot.
  abbrev pub IsFor : ℕ → Add Embedding → Type 0
  IsFor slot a = (sp.is_empty a.embedding ≡ false) × (slot_of a.segment ≡ slot)

  -- What holds when the items of `h` have been added to the slot.
  record Holds (slot : ℕ) (h : List (Item Embedding)) (st : Store Embedding) (c : Counters)
      : Type 0 where
    row : st slot ≡ last_n maxlen h
    counted : c.retrieval_store_eviction_count ≡ length h - maxlen

  add_segment_row :
      (st : Store Embedding) (c : Counters) (a : Add Embedding)
      → sp.is_empty a.embedding ≡ false
      → (add_segment sp st c a.segment a.embedding a.verdict a.score).0 (slot_of a.segment)
        ≡ push maxlen (st (slot_of a.segment)) (stored a)
  unfolding add_segment set_slot
  add_segment_row st c a full = rw (full, eq_self (slot_of a.segment)) refl

  add_segment_count :
      (st : Store Embedding) (c : Counters) (a : Add Embedding)
      → sp.is_empty a.embedding ≡ false
      → (add_segment sp st c a.segment a.embedding a.verdict
          a.score).1.retrieval_store_eviction_count
        ≡ c.retrieval_store_eviction_count + pts (leb maxlen (length (st (slot_of a.segment)))) 1
  unfolding add_segment increment
  add_segment_count st c a full = rw full (ground arith)

  add_segment-Holds_own :
      (h : List (Item Embedding)) (st : Store Embedding) (c : Counters) (a : Add Embedding)
      → sp.is_empty a.embedding ≡ false
      → Holds (slot_of a.segment) h st c
      → Holds
          (slot_of a.segment)
          (h ++ stored a ∷ [])
          (add_segment sp st c a.segment a.embedding a.verdict a.score).0
          (add_segment sp st c a.segment a.embedding a.verdict a.score).1
  add_segment-Holds_own h st c a full i = record {
    row =
        add_segment_row st c a full
        ∙ ap (λ q. push maxlen q (stored a)) i.row
        ∙ push-last_n maxlen h (stored a);
    counted =
        let l = ap length i.row in
        ground (
          arith,
          add_segment_count st c a full,
          i.counted,
          l,
          length-last_n maxlen h,
          length-append h (stored a ∷ []),
        );
  }

  add_segment-Holds :
      (slot : ℕ) (h : List (Item Embedding)) (st : Store Embedding) (c : Counters)
      (a : Add Embedding)
      → IsFor slot a
      → Holds slot h st c
      → Holds slot
          (h ++ stored a ∷ [])
          (add_segment sp st c a.segment a.embedding a.verdict a.score).0
          (add_segment sp st c a.segment a.embedding a.verdict a.score).1
  add_segment-Holds slot h st c a (full, e) =
      subst
        (λ s.
          Holds s h st c
          → Holds s (h ++ stored a ∷ [])
              (add_segment sp st c a.segment a.embedding a.verdict a.score).0
              (add_segment sp st c a.segment a.embedding a.verdict a.score).1)
        e (add_segment-Holds_own h st c a full)

  length-stored : (as' : List (Add Embedding)) → length (map stored as') ≡ length as'
  length-stored [] = refl
  length-stored (a ∷ as') = ap suc (length-stored as')

  added-Holds :
      (slot : ℕ) (h : List (Item Embedding)) (st : Store Embedding) (c : Counters)
      (as' : List (Add Embedding))
      → All (IsFor slot) as'
      → Holds slot h st c
      → Holds slot (h ++ map stored as') (added st c as').0 (added st c as').1
  added-Holds slot h st c [] all_for i = subst (λ l. Holds slot l st c) (sym (append-nil h)) i
  added-Holds slot h st c (a ∷ as') all_for i =
      let r = add_segment sp st c a.segment a.embedding a.verdict a.score in
      subst (λ l. Holds slot l (added r.0 r.1 as').0 (added r.0 r.1 as').1)
        (append_assoc h (stored a ∷ []) (map stored as'))
        (added-Holds slot (h ++ stored a ∷ []) r.0 r.1 as' all_for.1
          (add_segment-Holds slot h st c a all_for.0 i))

  -- After additions to one slot of an empty store, each with an embedding, the slot holds the last
  -- 20000 of them in order, and the counter says how many more there were.
  pub added-last_n :
      (slot : ℕ) (as' : List (Add Embedding))
      → All (IsFor slot) as'
      → ((added reset_store no_failures as').0 slot ≡ last_n maxlen (map stored as'))
        × ((added reset_store no_failures as').1.retrieval_store_eviction_count
            ≡ length as' - maxlen)
  unfolding reset_store last_n
  added-last_n slot as' all_for =
      let i =
        added-Holds slot [] reset_store no_failures as' all_for
          (record { row = refl; counted = omega arith }) in
      (i.row, rw (← length-stored as') i.counted)
