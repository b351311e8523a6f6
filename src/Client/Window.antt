-- ===== src/Client/Window.antt =====
-- `SlidingWindow` of client_core/window/sliding.py: a deque of at most `max_size` snapshots.
use inha_rada.Common.{
  ℕ, ◌≤◌, ◌≡◌, refl, sym, ◌∙◌, Bool, Option, none, some, List, [], ◌∷◌, ◌++◌, foldl, arith, leb,
  if◌then◌else◌, length,
}
use inha_rada.Deque.{
  push, extend, last_n, last_n_short, length-last_n-le, push-last_n, extend-last_n,
}

pub record SlidingWindow {ℓ} (A : Type ℓ) : Type ℓ where
  pub max_size : ℕ
  pub buf : List A

module _ {ℓ} {A : Type ℓ} where
  -- `__init__`: `none` is the `ValueError` of a size that is not positive.
  unfoldable pub init : ℕ → Option (SlidingWindow A)
  init max_size = if leb max_size 0 then none else some (record { max_size = max_size; buf = [] })

  unfoldable pub append : SlidingWindow A → A → SlidingWindow A
  append w item = record w { buf = push w.max_size w.buf item }

  unfoldable pub extend_with : SlidingWindow A → List A → SlidingWindow A
  extend_with w items = record w { buf = extend w.max_size w.buf items }

  unfoldable pub clear : SlidingWindow A → SlidingWindow A
  clear w = record w { buf = [] }

  unfoldable pub is_full : SlidingWindow A → Bool
  is_full w = leb w.max_size (length w.buf)

  unfoldable pub to_list : SlidingWindow A → List A
  to_list w = w.buf

-- The calls that change a window.
pub data Call {ℓ} (A : Type ℓ) : Type ℓ where
  call_append : A → Call A
  call_extend : List A → Call A
  call_clear : Call A

module _ {ℓ} {A : Type ℓ} where
  unfoldable pub step : SlidingWindow A → Call A → SlidingWindow A
  unfolding append extend_with clear
  step w (call_append item) = append w item
  step w (call_extend items) = extend_with w items
  step w call_clear = clear w

  -- The specification forgets nothing but what `clear` drops.
  pub note : List A → Call A → List A
  note h (call_append item) = h ++ item ∷ []
  note h (call_extend items) = h ++ items
  note h call_clear = []

  step-last_n :
      (m : ℕ) (w : SlidingWindow A) (h : List A) (c : Call A)
      → w.max_size ≡ m
      → w.buf ≡ last_n m h
      → (step w c).buf ≡ last_n m (note h c)
  unfolding step note
  step-last_n m w h (call_append item) size e = rw (size, e, push-last_n)
  step-last_n m w h (call_extend items) size e = rw (size, e, extend-last_n)
  step-last_n m w h call_clear size e = sym (last_n_short m [] (omega arith))

  step-max_size : (w : SlidingWindow A) (c : Call A) → (step w c).max_size ≡ w.max_size
  unfolding step
  step-max_size w (call_append item) = refl
  step-max_size w (call_extend items) = refl
  step-max_size w call_clear = refl

  run_last_n :
      (m : ℕ) (w : SlidingWindow A) (h : List A) (cs : List (Call A))
      → w.max_size ≡ m
      → w.buf ≡ last_n m h
      → (foldl step w cs).buf ≡ last_n m (foldl note h cs)
  run_last_n m w h [] size e = e
  run_last_n m w h (c ∷ cs) size e =
      run_last_n m (step w c) (note h c) cs (step-max_size w c ∙ size) (step-last_n m w h c size e)

  -- A window that was made with a positive size holds, after any calls, exactly the last
  -- `max_size` items that were added since the last `clear`, in order, so never more than that.
  pub init-step_window :
      (max_size : ℕ) (cs : List (Call A)) {w : SlidingWindow A}
      → init max_size ≡ some w
      → ((foldl step w cs).buf ≡ last_n max_size (foldl note [] cs))
        × (length (foldl step w cs).buf ≤ max_size)
  unfolding init
  init-step_window max_size cs {w} h =
      let size : w.max_size ≡ max_size = ground arith in
      let empty : w.buf ≡ [] = ground arith in
      let held =
        run_last_n max_size w [] cs size (empty ∙ sym (last_n_short max_size [] (omega arith))) in
      (held, rw held (length-last_n-le max_size (foldl note [] cs)))
