-- ===== src/Server/Patterns/Requests.antt =====
-- The patterns of ml_server/scorer/pattern_categories.py after any requests.
use inha_rada.Common.{
  ℕ, zero, suc, ◌-◌, ◌≤◌, ◌<◌, ◌≡◌, refl, ap, ◌∙◌, inl, inr, Bool, true, false, ◌&&◌, some, List,
  [], ◌∷◌, map, foldl, arith, ltb, leb, if◌then◌else◌, Bool-cases, le→leb, lt→leb_false, ltb→lt,
  length, drop, all, pos,
}
use inha_rada.Deque.{last_n, length-last_n, last_n-last_n}
use inha_rada.Server.Aggregates.{
  Host, Snapshot, Entry, aggregate_window_max, empty_minutes, minute_of, get_aggregate_window, agg,
  entry_of, on_request,
}
use inha_rada.Server.Aggregates.Requests.{get_aggregate_window-requests, spread-single}
use inha_rada.Server.Patterns.{Compare, window_minutes_satisfied, Load, r1, fire, holds_r1}

module _ {ℓ κ} {A : Type ℓ} {B : Type κ} where
  all-map : (p : B → Bool) (f : A → B) (xs : List A) → all p (map f xs) ≡ all (λ x. p (f x)) xs
  all-map p f [] = refl
  all-map p f (x ∷ xs) = ap (λ b. p (f x) && b) (all-map p f xs)

  drop-map : (n : ℕ) (f : A → B) (xs : List A) → drop n (map f xs) ≡ map f (drop n xs)
  drop-map zero f xs = refl
  drop-map (suc n) f [] = refl
  drop-map (suc n) f (x ∷ xs) = drop-map n f xs

  length-map : (f : A → B) (xs : List A) → length (map f xs) ≡ length xs
  length-map f [] = refl
  length-map f (x ∷ xs) = ap suc (length-map f xs)

  last_n-map : (n : ℕ) (f : A → B) (xs : List A) → last_n n (map f xs) ≡ map f (last_n n xs)
  unfolding last_n
  last_n-map n f xs =
      ap (λ k. drop (k - n) (map f xs)) (length-map f xs) ∙ drop-map (length xs - n) f xs

all_cong {ℓ} :
    {A : Type ℓ} (p q : A → Bool) (xs : List A) → ((x : A) → p x ≡ q x) → all p xs ≡ all q xs
all_cong p q [] h = refl
all_cong p q (x ∷ xs) h = ap (λ b. b && all p xs) (h x) ∙ ap (λ b. q x && b) (all_cong p q xs h)

test_and :
    (have len n : ℕ) (b : Bool)
    → have ≤ len
    → (have < n → len < n)
    → (if ltb have n then false else b) ≡ (leb n len && b)
test_and have len n b le few = elim (Bool-cases (ltb have n)) [
  | inl short ↦ rw (short, lt→leb_false n len (few (ltb→lt have n short))) refl
  | inr enough ↦ rw (enough, le→leb n len (ground arith)) refl
]

and_true : (a b : Bool) → b ≡ true → (a && b) ≡ a
and_true true b h = h
and_true false b h = refl

module _ {Num Ip : Type 0} where
  satisfied_by_last :
      (p : Entry Num Ip → Bool) (n : ℕ) (es : List (Entry Num Ip))
      → suc n ≤ aggregate_window_max
      → window_minutes_satisfied (last_n aggregate_window_max es) p (suc n)
        ≡ (leb (suc n) (length es) && all p (last_n (suc n) es))
  unfolding window_minutes_satisfied
  satisfied_by_last p n es le =
      ap (λ l. if ltb (length (last_n aggregate_window_max es)) (suc n) then false else all p l)
        (last_n-last_n (suc n) aggregate_window_max es le)
      ∙ test_and (length (last_n aggregate_window_max es)) (length es) (suc n)
          (all p (last_n (suc n) es)) (omega (arith, length-last_n aggregate_window_max es))
          (λ few. omega (arith, length-last_n aggregate_window_max es))

  -- After any requests, a test over a window of 1 to 180 entries is satisfied exactly if at least
  -- so many requests came, and the sample of each of the last ones satisfies it as an entry of its
  -- own.
  pub window_minutes_satisfied-requests :
      (host : Host Num Ip) (p : Entry Num Ip → Bool) (n : ℕ) (ss : List (Snapshot Num Ip))
      → suc n ≤ aggregate_window_max
      → window_minutes_satisfied
          (get_aggregate_window (foldl (on_request host) empty_minutes ss) (pos 180))
          p
          (suc n)
        ≡ (leb (suc n) (length ss)
            && all (λ s. p (entry_of host (minute_of s.timestamp) (s ∷ []))) (last_n (suc n) ss))
  window_minutes_satisfied-requests host p n ss le =
      let single = λ (s : Snapshot Num Ip). entry_of host (minute_of s.timestamp) (s ∷ []) in
      ap (λ w. window_minutes_satisfied w p (suc n)) (get_aggregate_window-requests host 179 ss)
      ∙ satisfied_by_last p n (map single ss) le
      ∙ ap (λ k. leb (suc n) k && all p (last_n (suc n) (map single ss))) (length-map single ss)
      ∙ ap (λ l. leb (suc n) (length ss) && all p l) (last_n-map (suc n) single ss)
      ∙ ap (λ b. leb (suc n) (length ss) && b) (all-map p single (last_n (suc n) ss))

  cpu_std-single :
      (host : Host Num Ip) (t : ℕ) (s : Snapshot Num Ip)
      → (entry_of host t (s ∷ [])).cpu.std ≡ host.nought
  unfolding entry_of agg
  cpu_std-single host t s = spread-single host (λ s'. s'.cpu_percent) s

  -- After any requests, the pattern R1 with a window of 1 to 180 and a positive bound on the
  -- deviation fires exactly if so many requests came and the load of each of the last ones is high:
  -- that the load be flat is never tested.
  pub fire-requests :
      (host : Host Num Ip) (c : Compare Num Ip) (t : Load Num) (n : ℕ) (ss : List (Snapshot Num Ip))
      → t.window ≡ suc n
      → suc n ≤ aggregate_window_max
      → c.lt host.nought t.bound ≡ true
      → fire r1
          (some t)
          (holds_r1 c)
          (get_aggregate_window (foldl (on_request host) empty_minutes ss) (pos 180))
        ≡ (if leb (suc n) (length ss)
              && all
                  (λ s. c.ge (entry_of host (minute_of s.timestamp) (s ∷ [])).cpu.mean t.high)
                  (last_n (suc n) ss)
            then r1 ∷ []
            else [])
  unfolding fire holds_r1
  fire-requests host c t n ss e le positive =
      let w = get_aggregate_window (foldl (on_request host) empty_minutes ss) (pos 180) in
      let fired = λ (b : Bool). if b then r1 ∷ [] else [] in
      ap (λ k. fired (window_minutes_satisfied w (holds_r1 c t) k)) e
      ∙ ap fired (
          window_minutes_satisfied-requests host (holds_r1 c t) n ss le
          ∙ ap (λ b. leb (suc n) (length ss) && b)
              (all_cong _ _ (last_n (suc n) ss) (λ s.
                ap
                  (λ v.
                    c.ge (entry_of host (minute_of s.timestamp) (s ∷ [])).cpu.mean t.high
                    && c.lt v t.bound)
                  (cpu_std-single host (minute_of s.timestamp) s)
                ∙ and_true _ _ positive)))
