-- ===== src/Client/Detectors/Windows.antt =====
-- What client_core/detector/hw_degradation.py reads, over the samples of client_core/runtime/loop.py.
use inha_rada.Common.{
  ℕ, ◌/◌, min, max, ◌≡◌, refl, sym, ap, ◌∙◌, ◌||◌, some, List, [], ◌∷◌, ◌++◌, map, foldl,
  append-nil, append_assoc, arith, ltb, if◌then◌else◌, length,
}
use inha_rada.Deque.{last_n, last_n_short, length-last_n, push-last_n}
use inha_rada.Client.Window.{SlidingWindow, init, to_list}
use inha_rada.Client.Detectors.{
  Reading, Load, Floats, HwDetector, risen_alerts, detect_degradation, load_of, update_windows,
}

-- A pair of windows that hold the last loads of a history.
record HaveLast (lw hb : ℕ) (h : List Load) (ws : SlidingWindow Load × SlidingWindow Load)
    : Type 0 where
  recent_size : ws.0.max_size ≡ lw
  baseline_size : ws.1.max_size ≡ hb
  recent : ws.0.buf ≡ last_n lw h
  baseline : ws.1.buf ≡ last_n hb h

update_windows-HaveLast :
    (lw hb : ℕ) (h : List Load) (ws : SlidingWindow Load × SlidingWindow Load) (m : Reading)
    → HaveLast lw hb h ws
    → HaveLast lw hb (h ++ load_of m ∷ []) (update_windows ws m)
unfolding update_windows
update_windows-HaveLast lw hb h (r, b) m w = record {
  recent_size = w.recent_size;
  baseline_size = w.baseline_size;
  recent = rw (w.recent_size, w.recent, push-last_n) refl;
  baseline = rw (w.baseline_size, w.baseline, push-last_n) refl;
}

run-HaveLast :
    (lw hb : ℕ) (h : List Load) (ms : List Reading) (ws : SlidingWindow Load × SlidingWindow Load)
    → HaveLast lw hb h ws
    → HaveLast lw hb (h ++ map load_of ms) (foldl update_windows ws ms)
run-HaveLast lw hb h [] ws w = rw append-nil w
run-HaveLast lw hb h (m ∷ ms) ws w = rw (← append_assoc h (load_of m ∷ []) (map load_of ms)) (
    run-HaveLast lw hb (h ++ load_of m ∷ []) ms (update_windows ws m)
      (update_windows-HaveLast lw hb h ws m w))

init-HaveLast :
    (lw hb : ℕ) (r b : SlidingWindow Load)
    → init lw ≡ some r
    → init hb ≡ some b
    → HaveLast lw hb [] (r, b)
unfolding init
init-HaveLast lw hb r b hr hbase = record {
  recent_size = ground arith;
  baseline_size = ground arith;
  recent = let e : r.buf ≡ [] = ground arith in e ∙ sym (last_n_short lw [] (omega arith));
  baseline = let e : b.buf ≡ [] = ground arith in e ∙ sym (last_n_short hb [] (omega arith));
}

length-map {ℓ κ} :
    {A : Type ℓ} {B : Type κ} (f : A → B) (xs : List A) → length (map f xs) ≡ length xs
length-map f [] = refl
length-map f (x ∷ xs) = omega (arith, length-map f xs)

length-window : (m : ℕ) (ms : List Reading) → length (last_n m (map load_of ms)) ≡ min m (length ms)
length-window m ms = length-last_n m (map load_of ms) ∙ ap (min m) (length-map load_of ms)

too_short :
    (n lw hb : ℕ)
    → (ltb (min hb n) (hb / 2) || ltb (min lw n) (lw / 2)) ≡ ltb n (max (hb / 2) (lw / 2))
too_short n lw hb = ground arith

-- After any samples, with windows made of the detector's two sizes: the detector raises nothing
-- before it has had half as many samples as the longer window holds, and from then on it judges
-- exactly the last samples, as many as the one and the other window hold, in order.
pub detect_degradation-last_n :
    {Num : Type 0} (fl : Floats Num) (d : HwDetector Num) (r b : SlidingWindow Load)
    → (ms : List Reading) → init d.local_window_size ≡ some r
    → init d.hw_baseline_window ≡ some b
    → let ws = foldl update_windows (r, b) ms in
      let loads = map load_of ms in
      detect_degradation fl d (to_list ws.0) (to_list ws.1) ≡ (
        if ltb (length ms) (max (d.hw_baseline_window / 2) (d.local_window_size / 2))
        then []
        else risen_alerts fl d
            (last_n d.local_window_size loads)
            (last_n d.hw_baseline_window loads))
unfolding detect_degradation to_list
detect_degradation-last_n fl d r b ms hr hb =
    let w =
      run-HaveLast d.local_window_size d.hw_baseline_window [] ms (r, b)
        (init-HaveLast d.local_window_size d.hw_baseline_window r b hr hb) in
    rw
      (
        w.recent,
        w.baseline,
        length-window d.hw_baseline_window ms,
        length-window d.local_window_size ms,
        too_short (length ms) d.local_window_size d.hw_baseline_window,
      )
      refl
