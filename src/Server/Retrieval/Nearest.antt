-- ===== src/Server/Retrieval/Nearest.antt =====
-- What ml_server/retrieval/retrieval_store.py finds.
use mathlib.Core.List.{Perm}
use mathlib.Core.List.Perm
use inha_rada.Common.{
  ℕ, zero, suc, ◌≤◌, min, ◌≡◌, refl, ap, false, List, [], ◌∷◌, ◌++◌, map, arith, leb, if-intro,
  leb→le, length, take, drop, length-take, All,
}
use inha_rada.Server.Retrieval.Store.{
  Space, StoredSegment, Item, Store, slot_of, scored, insert_by, sort_by, found_of, search_similar,
}

module _ {Embedding : Type 0} (sp : Space Embedding) where
  abbrev Scored : Type 0
  Scored = ℕ × Item Embedding

  -- Every distance is at most those behind it.
  abbrev pub Ascending : List (ℕ × Item Embedding) → Type 0
  Ascending [] = Unit
  Ascending (x ∷ xs) = All (λ y. x.0 ≤ y.0) xs × Ascending xs

  All-insert_by :
      (n : ℕ) (x : Scored) (ys : List Scored)
      → n ≤ x.0
      → All (λ y. n ≤ y.0) ys
      → All (λ y. n ≤ y.0) (insert_by sp x ys)
  unfolding insert_by
  All-insert_by n x [] h a = (h, tt)
  All-insert_by n x (y ∷ ys) h a =
      if-intro (All (λ z. n ≤ z.0)) (leb x.0 y.0) (λ _. (h, a))
        (λ _. (a.0, All-insert_by n x ys h a.1))

  All-le : (m n : ℕ) (ys : List Scored) → m ≤ n → All (λ y. n ≤ y.0) ys → All (λ y. m ≤ y.0) ys
  All-le m n [] h a = tt
  All-le m n (y ∷ ys) h a = (omega (arith, a.0), All-le m n ys h a.1)

  insert_by-Ascending :
      (x : Scored) (ys : List Scored) → Ascending ys → Ascending (insert_by sp x ys)
  unfolding insert_by
  insert_by-Ascending x [] a = (tt, tt)
  insert_by-Ascending x (y ∷ ys) a =
      if-intro Ascending (leb x.0 y.0)
        (λ le. ((leb→le x.0 y.0 le, All-le x.0 y.0 ys (leb→le x.0 y.0 le) a.0), a))
        (λ gt. (All-insert_by y.0 x ys (ground arith) a.0, insert_by-Ascending x ys a.1))

  sort_by-Ascending : (xs : List Scored) → Ascending (sort_by sp xs)
  unfolding sort_by
  sort_by-Ascending [] = tt
  sort_by-Ascending (x ∷ xs) = insert_by-Ascending x (sort_by sp xs) (sort_by-Ascending xs)

  insert_by-perm : (x : Scored) (ys : List Scored) → Perm (insert_by sp x ys) (x ∷ ys)
  unfolding insert_by
  insert_by-perm x [] = Perm.refl (x ∷ [])
  insert_by-perm x (y ∷ ys) =
      if-intro (λ l. Perm l (x ∷ y ∷ ys)) (leb x.0 y.0) (λ _. Perm.refl (x ∷ y ∷ ys))
        (λ _. Perm.trans (Perm.cons y (insert_by-perm x ys)) (Perm.swap x y ys))

  sort_by-perm : (xs : List Scored) → Perm (sort_by sp xs) xs
  unfolding sort_by
  sort_by-perm [] = Perm.refl []
  sort_by-perm (x ∷ xs) =
      Perm.trans (insert_by-perm x (sort_by sp xs)) (Perm.cons x (sort_by-perm xs))

  take-drop : (n : ℕ) (xs : List Scored) → take n xs ++ drop n xs ≡ xs
  take-drop zero xs = refl
  take-drop (suc n) [] = refl
  take-drop (suc n) (x ∷ xs) = ap (λ l. x ∷ l) (take-drop n xs)

  -- A search with an embedding splits the slot's items, but the segment itself, into those that
  -- it returns, `top_k` of them if there are so many, and the others: what it returns ascends in
  -- distance, and nothing among the others is nearer.
  pub search_similar-nearest :
      (st : Store Embedding) (g : StoredSegment) (e : Embedding) (top_k : ℕ)
      → sp.is_empty e ≡ false
      → (near : List (ℕ × Item Embedding)) × ((far : List (ℕ × Item Embedding)) × (search_similar sp
              st g e top_k
            ≡ map (found_of sp) near)
          × Perm (near ++ far) (scored sp g e (st (slot_of g)))
          × Ascending (near ++ far)
          × (length near ≡ min top_k (length (near ++ far))))
  unfolding search_similar
  search_similar-nearest st g e top_k h =
      let s = sort_by sp (scored sp g e (st (slot_of g))) in
      let back = take-drop top_k s in
      (
        take top_k s,
        (
          drop top_k s,
          rw h refl,
          rw back (sort_by-perm (scored sp g e (st (slot_of g)))),
          rw back (sort_by-Ascending (scored sp g e (st (slot_of g)))),
          rw back (length-take top_k s),
        ),
      )
