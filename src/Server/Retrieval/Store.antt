-- ===== src/Server/Retrieval/Store.antt =====
-- ml_server/retrieval/retrieval_store.py. The deques by slot are a function from the slot's number;
-- 0 is an empty slot, 1 is `free`. The embeddings, their distance and `round` are a parameter.
use inha_rada.Common.{
  ℕ, Bool, ◌&&◌, Option, none, some, List, [], ◌∷◌, map, leb, ◌==◌, if◌then◌else◌, length, take,
  any,
}
use inha_rada.Deque.{push}
use inha_rada.Server.Counters.{Counters, retrieval_store_eviction, increment}
use inha_rada.Server.Gating.{Verdict}

-- What the store calls on embeddings.
pub record Space (Embedding : Type 0) : Type 0 where
  pub is_empty : Embedding → Bool
  -- `_distance`, in any unit, and `round(dist, 4)`
  pub distance : Embedding → Embedding → ℕ
  pub rounded : ℕ → ℕ

-- The keys of a segment that the store reads.
pub record StoredSegment : Type 0 where
  pub segment_id : ℕ
  pub pc_id : ℕ
  pub slot : ℕ
  pub start_ts : ℕ
  pub end_ts : ℕ

pub record Item (Embedding : Type 0) : Type 0 where
  pub segment_id : ℕ
  pub pc_id : ℕ
  pub slot : ℕ
  pub embedding : Embedding
  pub verdict : Verdict
  pub score : ℕ
  pub start_ts : ℕ
  pub end_ts : ℕ

-- An entry of the answer of `search_similar`.
pub record Found : Type 0 where
  pub segment_id : ℕ
  pub pc_id : ℕ
  pub distance : ℕ
  pub verdict : Verdict
  pub score : ℕ
  pub start_ts : ℕ
  pub end_ts : ℕ

-- `segment_history_by_slot`
abbrev pub Store : Type 0 → Type 0
Store Embedding = ℕ → List (Item Embedding)

-- `_MAXLEN`
abbrev pub maxlen : ℕ
maxlen = 20_000

-- `segment.get("slot") or "free"`
unfoldable pub slot_of : StoredSegment → ℕ
slot_of s = if s.slot == 0 then 1 else s.slot

unfoldable pub reset_store : {Embedding : Type 0} → Store Embedding
reset_store slot = []

module _ {Embedding : Type 0} where
  unfoldable pub set_slot : ℕ → List (Item Embedding) → Store Embedding → Store Embedding
  set_slot slot items st s = if s == slot then items else st s

  unfoldable pub item_of : StoredSegment → Embedding → Verdict → Option ℕ → Item Embedding
  unfolding slot_of
  item_of g e v score = record {
    segment_id = g.segment_id;
    pc_id = g.pc_id;
    slot = slot_of g;
    embedding = e;
    verdict = v;
    score = elim score [ none ↦ 0 | some n ↦ n ];
    start_ts = g.start_ts;
    end_ts = g.end_ts;
  }

  unfoldable pub is_of_pc : ℕ → Item Embedding → Bool
  is_of_pc pc i = i.pc_id == pc

  unfoldable pub without_pc : ℕ → List (Item Embedding) → List (Item Embedding)
  unfolding is_of_pc
  without_pc pc [] = []
  without_pc pc (i ∷ is) = let rest = without_pc pc is in if is_of_pc pc i then rest else i ∷ rest

  -- `clear_pc`, and whether the slots that are listed held an item of the PC.
  unfoldable pub clear_pc : ℕ → List ℕ → Store Embedding → Store Embedding × Bool
  unfolding without_pc is_of_pc
  clear_pc pc slots st = (λ s. without_pc pc (st s), any (λ s. any (is_of_pc pc) (st s)) slots)

module _ {Embedding : Type 0} (sp : Space Embedding) where
  -- `add_segment`, with the counter of evictions.
  unfoldable pub add_segment :
      Store Embedding
      → Counters
      → StoredSegment
      → Embedding
      → Verdict
      → Option ℕ
      → Store Embedding × Counters
  unfolding slot_of set_slot item_of push increment
  add_segment st c g e v score =
      let q = st (slot_of g) in
      if sp.is_empty e then (st, c) else (
        set_slot (slot_of g) (push maxlen q (item_of g e v score)) st,
        (if leb maxlen (length q) then increment c retrieval_store_eviction 1 else c),
      )

  unfoldable pub is_self : StoredSegment → Item Embedding → Bool
  is_self g i = (i.segment_id == g.segment_id) && (i.end_ts == g.end_ts)

  -- The list `scored`.
  unfoldable pub scored :
      StoredSegment → Embedding → List (Item Embedding) → List (ℕ × Item Embedding)
  unfolding is_self
  scored g e [] = []
  scored g e (i ∷ is) =
      let rest = scored g e is in
      if is_self g i then rest else (sp.distance e i.embedding, i) ∷ rest

  -- `list.sort(key=…)`, which keeps the order of equal keys.
  unfoldable pub insert_by :
      ℕ × Item Embedding → List (ℕ × Item Embedding) → List (ℕ × Item Embedding)
  insert_by x [] = x ∷ []
  insert_by x (y ∷ ys) = let later = insert_by x ys in if leb x.0 y.0 then x ∷ y ∷ ys else y ∷ later

  unfoldable pub sort_by : List (ℕ × Item Embedding) → List (ℕ × Item Embedding)
  unfolding insert_by
  sort_by [] = []
  sort_by (x ∷ xs) = insert_by x (sort_by xs)

  unfoldable pub found_of : ℕ × Item Embedding → Found
  found_of (d, i) = record {
    segment_id = i.segment_id;
    pc_id = i.pc_id;
    distance = sp.rounded d;
    verdict = i.verdict;
    score = i.score;
    start_ts = i.start_ts;
    end_ts = i.end_ts;
  }

  unfoldable pub search_similar : Store Embedding → StoredSegment → Embedding → ℕ → List Found
  unfolding slot_of scored sort_by found_of
  search_similar st g e top_k =
      if sp.is_empty e
      then []
      else map found_of (take top_k (sort_by (scored g e (st (slot_of g)))))
