-- ===== src/Server/Policy/Yaml.antt =====
-- What `yaml.safe_load` returns, for ml_server/policy, and the errors of that package. Numbers are
-- counted in thousandths.
use Prim.Native.String.{String}
use text.Mathlib.Text.{◌==◌ as str_eq}
use inha_rada.Common.{
  zero, ◌+◌, ◌/◌, ◌≡◌, refl, Bool, true, false, not, Option, none, some, if◌then◌else◌, ℤ, pos,
  negsuc, sub_ℕ,
}

-- The floats that `_is_finite_number` refuses.
pub data NonFinite : Type 0 where
  nan infinity neg_infinity : NonFinite

mutual
  pub data Value : Type 0 where
    null : Value
    flag : Bool → Value
    num : ℤ → Value
    not_finite : NonFinite → Value
    str : String → Value
    sequence : Items → Value
    mapping : Fields → Value

  -- an entry and the ones after it
  pub data Fields : Type 0 where
    end : Fields
    field : String → Value → Fields → Fields

  pub data Items : Type 0 where
    nil : Items
    item : Value → Items → Items

-- The exceptions; each check of the validation has its own.
pub data Problem : Type 0 where
  not_found : Problem
  not_mapping : Problem
  missing_key : String → Problem
  bad_version : Problem
  not_a_mapping : String → Problem
  missing : String → Problem
  not_a_number : String → Problem
  not_ascending : Problem
  out_of_range : String → Problem
  not_a_list : String → Problem
  -- `int` of an infinity, which no handler of the loader catches
  overflow : Problem
  -- a conversion that fails outside of a handler
  bad_conversion : String → Problem

-- What a call leaves: an exception, or the value it returns.
pub data Result {κ} (Out : Type κ) : Type κ where
  raised : Problem → Result Out
  ok : Out → Result Out

infixl 5 ◌>>=◌ ◌>>◌
abbrev pub ◌>>=◌ {κ ℓ} :
    {Out : Type κ} {Next : Type ℓ} → Result Out → (Out → Result Next) → Result Next
raised problem >>= next = raised problem
ok out >>= next = next out

-- A statement that only checks, before the rest of a block.
abbrev pub ◌>>◌ {κ} : {Next : Type κ} → Result (Unit {0}) → Result Next → Result Next
check >> rest = check >>= λ _. rest

-- `if not holds: raise problem`
abbrev pub guard : Bool → Problem → Result (Unit {0})
guard holds problem = if holds then ok tt else raised problem

-- `data.get(key)`, with a missing key as `none`
unfoldable pub get : String → Fields → Option Value
get k end = none
get k (field j v fs) = let rest = get k fs in if str_eq j k then some v else rest

unfoldable pub as_mapping : Value → Option Fields
as_mapping (mapping fs) = some fs
as_mapping _ = none

-- The number of a value for which `_is_finite_number` holds: a Boolean is none.
unfoldable pub as_number : Value → Option ℤ
as_number (num n) = some n
as_number _ = none

-- Python's truth of a value: only an empty or zero one is false.
unfoldable pub is_false : Value → Bool
is_false null = true
is_false (flag b) = not b
is_false (num (pos zero)) = true
is_false (str s) = str_eq s ""
is_false (sequence nil) = true
is_false (mapping end) = true
is_false _ = false

-- `int(x)` of thousandths: towards 0.
unfoldable pub truncated : ℤ → ℤ
truncated (pos n) = pos (n / 1000)
truncated (negsuc n) = sub_ℕ 0 ((n + 1) / 1000)

-- A block that returns has returned from its first call, and then from the rest.
pub bind_ok {κ ℓ} :
    {Out : Type κ} {Next : Type ℓ} (call : Result Out) (next : Out → Result Next) {last : Next}
    → (call >>= next) ≡ ok last
    → (out : Out) × (call ≡ ok out) × (next out ≡ ok last)
bind_ok (raised problem) next returned = cc
bind_ok (ok out) next returned = (out, refl, returned)

pub ok_injective {ℓ} : {A : Type ℓ} {a b : A} → ok a ≡ ok b → a ≡ b
ok_injective h = cc
