-- ===== src/Server/Patterns/Endpoints.antt =====
-- The pattern N2 of ml_server/scorer/pattern_categories.py.
use inha_rada.Common.{
  ℕ, suc, ◌≤◌, ◌≡◌, refl, sym, ap, ◌∙◌, ◌↔◌, inl, inr, Bool, true, false, ◌&&◌, ◌||◌, List, [], ◌∷◌,
  arith, leb, Bool-cases, leb→le, le→leb, length, all, any, All,
}
use inha_rada.Deque.{last_n, length-last_n}
use inha_rada.Server.Aggregates.{Entry}
use inha_rada.Server.Patterns.{Compare, tail_of, has_endpoint, has_common, same_endpoint}

or_true : (a b : Bool) → b ≡ true → (a || b) ≡ true
or_true true b h = refl
or_true false b h = h

and_both : (a b : Bool) → (a && b) ≡ true → (a ≡ true) × (b ≡ true)
and_both true b h = (refl, h)
and_both false b h = absurd (cc (h))

module _ {ℓ} {A : Type ℓ} where
  -- Some item has the property, and is in the list.
  any-witness :
      (r : A → A → Bool) (same : (x : A) → r x x ≡ true) (p : A → Bool) (xs : List A)
      → any p xs ≡ true
      → (x : A) × (p x ≡ true) × (any (r x) xs ≡ true)
  any-witness r same p [] h = absurd (cc (h))
  any-witness r same p (x ∷ xs) h = elim (Bool-cases (p x)) [
    | inl here ↦ (x, here, ap (λ b. b || any (r x) xs) (same x))
    | inr not_here ↦
        let rest : any p xs ≡ true = ap (λ b. b || any p xs) (sym not_here) ∙ h in
        let (y, py, found) = any-witness r same p xs rest in
        (y, py, or_true (r y x) (any (r y) xs) found)
  ]

  any_found :
      (r : A → A → Bool) (y : A) (equal : (x : A) → r y x ≡ true → y ≡ x) (p : A → Bool)
      (xs : List A)
      → any (r y) xs ≡ true
      → p y ≡ true
      → any p xs ≡ true
  any_found r y equal p [] h py = absurd (cc (h))
  any_found r y equal p (x ∷ xs) h py = elim (Bool-cases (r y x)) [
    | inl here ↦ ap (λ z. p z || any p xs) (sym (equal x here)) ∙ ap (λ b. b || any p xs) py
    | inr not_here ↦
        let rest : any (r y) xs ≡ true = ap (λ b. b || any (r y) xs) (sym not_here) ∙ h in
        or_true (p x) (any p xs) (any_found r y equal p xs rest py)
  ]

  all-All : (p : A → Bool) (xs : List A) → all p xs ≡ true → All (λ x. p x ≡ true) xs
  all-All p [] h = tt
  all-All p (x ∷ xs) h = let (a, b) = and_both (p x) (all p xs) h in (a, all-All p xs b)

  All-all : (p : A → Bool) (xs : List A) → All (λ x. p x ≡ true) xs → all p xs ≡ true
  All-all p [] a = refl
  All-all p (x ∷ xs) (h, a) = ap (λ b. b && all p xs) h ∙ All-all p xs a

module _ {Num Ip : Type 0} (c : Compare Num Ip) where
  -- One endpoint is among those of every entry.
  abbrev pub AreShared : List (Entry Num Ip) → Type 0
  AreShared es = (ip : Ip) × All (λ e. has_endpoint c ip e ≡ true) es

  module _ (equal : (a b : Ip) → (c.same a b ≡ true) ↔ (a ≡ b)) where
    common-shared : (w : List (Entry Num Ip)) → has_common c w ≡ true → AreShared w
    unfolding has_common has_endpoint
    common-shared [] h = absurd (cc (h))
    common-shared (e ∷ es) h =
        let (ip, others, here) =
          any-witness c.same (λ x. (equal x x).1 refl) (λ ip. all (has_endpoint c ip) es)
            e.external_endpoints h in
        (ip, (here, all-All (has_endpoint c ip) es others))

    shared-common : (w : List (Entry Num Ip)) → 1 ≤ length w → AreShared w → has_common c w ≡ true
    unfolding has_common has_endpoint
    shared-common [] h s = absurd (omega arith)
    shared-common (e ∷ es) h (ip, (here, others)) =
        any_found c.same ip (λ x. (equal ip x).0) (λ ip. all (has_endpoint c ip) es)
          e.external_endpoints here (All-all (has_endpoint c ip) es others)

    -- Where the test on endpoints decides their equality, and over a window of one entry or more, N2
    -- fires exactly if the history is as long as the window
    -- and one endpoint is among those of each of its last entries.
    pub same_endpoint-AreShared :
        (n : ℕ) (w : List (Entry Num Ip))
        → (same_endpoint c (suc n) w ≡ true) ↔ ((suc n ≤ length w) × AreShared (last_n (suc n) w))
    unfolding same_endpoint tail_of
    same_endpoint-AreShared n w = (
      λ h.
          let (enough, common) = and_both (leb (suc n) (length w)) _ h in
          (leb→le (suc n) (length w) enough, common-shared (last_n (suc n) w) common),
      λ s.
          let (enough, shared) = s in
          ap (λ b. b && has_common c (last_n (suc n) w)) (le→leb (suc n) (length w) enough)
          ∙ shared-common (last_n (suc n) w) (omega (arith, length-last_n (suc n) w)) shared,
    )
