-- ===== src/Server/Policy/Answers.antt =====
-- What an answer of the checks of ml_server/policy/validation.py says of the value checked.
use Prim.Native.String.{String}
use inha_rada.Common.{
  ◌≡◌, refl, ap, ◌∙◌, inl, inr, Bool, true, false, not, ◌&&◌, none, some, arith, Option-cases,
  ltb→lt, ℤ, ◌≤ℤ◌, ◌<ℤ◌, ltb_ℤ,
}
use inha_rada.Server.Policy.Yaml.{
  Value, null, flag, num, not_finite, str, sequence, mapping, Fields, Problem, missing,
  not_a_number, raised, ok, guard, get, as_mapping, as_number, bind_ok,
}
use inha_rada.Server.Policy.Validation.{require, require_mapping, require_number}

-- Inversion of a guard.
pub guard_ok : (b : Bool) (e : Problem) {u : Unit {0}} → guard b e ≡ ok u → b ≡ true
guard_ok true e h = refl
guard_ok false e h = cc

pub as_number_ok : (v : Value) (n : ℤ) → as_number v ≡ some n → v ≡ num n
unfolding as_number
as_number_ok (num m) n h = cc
as_number_ok null n h = cc
as_number_ok (flag b) n h = cc
as_number_ok (not_finite k) n h = cc
as_number_ok (str s) n h = cc
as_number_ok (sequence xs) n h = cc
as_number_ok (mapping fs) n h = cc

pub as_mapping_ok : (v : Value) (fs : Fields) → as_mapping v ≡ some fs → v ≡ mapping fs
unfolding as_mapping
as_mapping_ok (mapping m) n h = cc
as_mapping_ok (num m) n h = cc
as_mapping_ok null n h = cc
as_mapping_ok (flag b) n h = cc
as_mapping_ok (not_finite k) n h = cc
as_mapping_ok (str s) n h = cc
as_mapping_ok (sequence xs) n h = cc

pub require_ok :
    (k : String) (fs : Fields) (e : Problem) (v : Value) → require k fs e ≡ ok v → get k fs ≡ some v
unfolding require
require_ok k fs e v h = elim (Option-cases (get k fs)) [
  | inl n ↦ cc (rw (require, n) at h)
  | inr (w, s) ↦ let h' : ok w ≡ ok v = rw (require, s) at h in cc
]

pub require_mapping_ok :
    (k : String) (v : Value) (fs : Fields) → require_mapping k v ≡ ok fs → v ≡ mapping fs
unfolding require_mapping
require_mapping_ok k v fs h = elim (Option-cases (as_mapping v)) [
  | inl n ↦ cc (rw (require_mapping, n) at h)
  | inr (w, s) ↦
      let h' : ok w ≡ ok fs = rw (require_mapping, s) at h in
      let e : w ≡ fs = cc in as_mapping_ok v fs (s ∙ ap some e)
]

pub number_ok :
    (k : String) (v : Value) (n : ℤ)
    → (elim (as_number v) [ none ↦ raised (not_a_number k) | some m ↦ ok m ]) ≡ ok n
    → v ≡ num n
number_ok k v n h = elim (Option-cases (as_number v)) [
  | inl e ↦ cc (rw e at h)
  | inr (w, s) ↦
      let h' : ok w ≡ ok n = rw s at h in let e : w ≡ n = cc in as_number_ok v n (s ∙ ap some e)
]

pub require_number_ok :
    (fs : Fields) (k : String) (n : ℤ) → require_number fs k ≡ ok n → get k fs ≡ some (num n)
unfolding require_number
require_number_ok fs k n h =
    let (v, at_key, rest) = bind_ok (require k fs (missing k)) _ h in
    require_ok k fs (missing k) v at_key ∙ ap some (number_ok k v n rest)

pub below_of : (a b : ℤ) → ltb_ℤ a b ≡ true → a <ℤ b
below_of a b h = ltb→lt _ _ h

pub both : (a b : Bool) → (a && b) ≡ true → (a ≡ true) × (b ≡ true)
both true b h = (refl, h)
both false b h = cc

pub not_below : (a b : ℤ) → not (ltb_ℤ a b) ≡ true → b ≤ℤ a
not_below a b h = ground arith
