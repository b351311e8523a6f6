-- ===== src/Deque.antt =====
-- `collections.deque(maxlen=m)`, as a list with the oldest item first. Used by
-- client_core/window/sliding.py, client_core/sender/local_queue.py and ml_server/storage.
use inha_rada.Common.{
  ℕ, zero, suc, ◌+◌, ◌-◌, ◌≤◌, min, ◌≡◌, ap, ◌∙◌, inl, inr, false, List, [], ◌∷◌, ◌++◌, foldl,
  append-nil, append_assoc, arith, leb, if◌then◌else◌, Bool-cases, if-intro, le→leb, length, drop,
  length-append, length-drop, drop-append, drop_all, drop-drop, drop-drop_one, All,
}

sub_of_le : (a b : ℕ) → a ≤ b → a - b ≡ 0
sub_of_le a b h = omega arith

sub_right : (a b : ℕ) → a + b - b ≡ a
sub_right a b = omega arith

module _ {ℓ} {A : Type ℓ} where
  -- `append`: on a full deque the oldest item falls out.
  unfoldable pub push : ℕ → List A → A → List A
  push m xs x = if leb m (length xs) then drop 1 (xs ++ x ∷ []) else xs ++ x ∷ []

  -- `extend`
  unfoldable pub extend : ℕ → List A → List A → List A
  extend m xs ys = foldl (push m) xs ys

  -- The last `m` items of a history.
  unfoldable pub last_n : ℕ → List A → List A
  last_n m h = drop (length h - m) h

  pub length-push-le : (m : ℕ) (xs : List A) (x : A) → length xs ≤ m → length (push m xs x) ≤ m
  unfolding push
  length-push-le m xs x h = ground (arith, length-append xs (x ∷ []), length-drop 1 (xs ++ x ∷ []))

  pub push_room :
      (m : ℕ) (xs : List A) (x : A) → leb m (length xs) ≡ false → push m xs x ≡ xs ++ x ∷ []
  unfolding push
  push_room m xs x h = rw h

  pub length-push :
      (m : ℕ) (xs : List A) (x : A)
      → length (push m xs x) ≡ (if leb m (length xs) then length xs else length xs + 1)
  unfolding push
  length-push m xs x = ground (arith, length-append xs (x ∷ []), length-drop 1 (xs ++ x ∷ []))

  pub last_n_short : (m : ℕ) (h : List A) → length h ≤ m → last_n m h ≡ h
  unfolding last_n
  last_n_short m h le = rw (sub_of_le (length h) m le)

  pub length-last_n-le : (m : ℕ) (h : List A) → length (last_n m h) ≤ m
  unfolding last_n
  length-last_n-le m h = omega (arith, length-drop (length h - m) h)

  pub length-last_n : (m : ℕ) (h : List A) → length (last_n m h) ≡ min m (length h)
  unfolding last_n
  length-last_n m h = omega (arith, length-drop (length h - m) h)

  pub last_n-last_n : (k m : ℕ) (h : List A) → k ≤ m → last_n k (last_n m h) ≡ last_n k h
  unfolding last_n
  last_n-last_n k m h le =
      drop-drop (length h - m) (length (drop (length h - m) h) - k) h
      ∙ ap (λ i. drop i h) {y = length h - k} (omega (arith, length-drop (length h - m) h))

  pub push-last_n : (m : ℕ) (h : List A) (x : A) → push m (last_n m h) x ≡ last_n m (h ++ x ∷ [])
  unfolding push last_n
  push-last_n m h x = elim (Bool-cases (leb m (length h))) [
    | inl full ↦
        rw
          (
            length-drop,
            le→leb m (length h - (length h - m)) (ground arith),
            ← drop-append (length h - m) h (x ∷ []) (omega arith),
            drop-drop_one,
            length-append,
          )
          (ap (λ k. drop k (h ++ x ∷ [])) {x = suc (length h - m)} (ground arith))
    | inr part ↦ rw (
      last_n_short m h (ground arith),
      part,
      last_n_short m (h ++ x ∷ []) (ground (arith, length-append h (x ∷ []))),
    )
  ]

  -- A deque that was extended by any history holds its last `m` items.
  pub extend-last_n : (m : ℕ) (h xs : List A) → extend m (last_n m h) xs ≡ last_n m (h ++ xs)
  unfolding extend
  extend-last_n m h [] = rw append-nil
  extend-last_n m h (x ∷ xs) =
      rw (push-last_n m h x, extend-last_n m (h ++ x ∷ []) xs, append_assoc)

  last_n-append : (h ys : List A) → last_n (length ys) (h ++ ys) ≡ ys
  unfolding last_n
  last_n-append h ys =
      rw
        (
          length-append h ys,
          sub_right (length h) (length ys),
          drop-append (length h) h ys (omega arith),
        )
        (rw (drop_all (length h) h (omega arith)))

  -- A deque of any past into which as many items went as it holds.
  pub window_full :
      (w : ℕ) (h ys : List A) (y : A)
      → length ys + 1 ≡ w
      → push w (last_n w (h ++ ys)) y ≡ ys ++ y ∷ []
  window_full w h ys y full = rw (
    push-last_n w (h ++ ys) y,
    append_assoc h ys (y ∷ []),
    ← full,
    ← length-append ys (y ∷ []),
    last_n-append h (ys ++ y ∷ []),
  )

  pub length-extend-le : (m : ℕ) (xs ys : List A) → length xs ≤ m → length (extend m xs ys) ≤ m
  unfolding extend
  length-extend-le m xs [] h = h
  length-extend-le m xs (y ∷ ys) h = length-extend-le m (push m xs y) ys (length-push-le m xs y h)

  All-drop {κ} : (P : A → Type κ) (n : ℕ) (xs : List A) → All P xs → All P (drop n xs)
  All-drop P zero xs a = a
  All-drop P (suc n) [] a = a
  All-drop P (suc n) (x ∷ xs) a = All-drop P n xs a.1

  pub All-last_n {κ} : (P : A → Type κ) (m : ℕ) (h : List A) → All P h → All P (last_n m h)
  unfolding last_n
  All-last_n P m h a = All-drop P (length h - m) h a

  pub All-append_one {κ} :
      (P : A → Type κ) (xs : List A) (x : A) → All P xs → P x → All P (xs ++ x ∷ [])
  All-append_one P [] x a p = (p, tt)
  All-append_one P (y ∷ ys) x a p = (a.0, All-append_one P ys x a.1 p)

  pub All-push {κ} :
      (P : A → Type κ) (m : ℕ) (xs : List A) (x : A) → All P xs → P x → All P (push m xs x)
  unfolding push
  All-push P m xs x a p =
      let both = All-append_one P xs x a p in
      if-intro (All P) (leb m (length xs)) (λ _. All-drop P 1 (xs ++ x ∷ []) both) (λ _. both)
