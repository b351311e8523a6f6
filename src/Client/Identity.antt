-- ===== src/Client/Identity.antt =====
-- client_core/identity/pc_id.py. A text is the list of its code points. The hardware address and
-- the host's name are inputs; `uuid.getnode` answers with a number of 48 bits.
use inha_rada.Common.{
  ℕ, zero, suc, ◌+◌, ◌-◌, ◌*◌, ◌/◌, ◌<◌, ◌≡◌, refl, Bool, false, Option, none, some, List, [], ◌∷◌,
  ◌++◌, map, foldl, arith, ltb, ◌==◌, if◌then◌else◌, length, take, length-append,
}
use Prim.Native.Nat.{◌%◌}

unfoldable pub hex_digit : ℕ → ℕ
hex_digit d = if ltb d 10 then 48 + d else 87 + d

-- The last `width` digits of a number to the base 16.
unfoldable pub hex_digits : ℕ → ℕ → List ℕ
unfolding hex_digit
hex_digits zero n = []
hex_digits (suc width) n = hex_digits width (n / 16) ++ hex_digit (n % 16) ∷ []

-- `(mac >> 40) & 1`: the address was made up.
unfoldable pub is_random : ℕ → Bool
is_random mac = mac / 1099511627776 % 2 == 1

unfoldable pub underscored : ℕ → ℕ
underscored c = if c == 32 then 95 else c

unfoldable pub host_id : List ℕ → List ℕ
unfolding underscored
host_id host = map underscored (take 16 host)

-- `get_fixed_pc_id`; without an address `getnode` has raised.
unfoldable pub get_fixed_pc_id : Option ℕ → List ℕ → List ℕ
unfolding hex_digits is_random host_id
get_fixed_pc_id none host = host_id host
get_fixed_pc_id (some mac) host = if is_random mac then host_id host else hex_digits 12 mac

-- The number that a text of digits to the base 16 stands for.
unfoldable pub digit_value : ℕ → ℕ
digit_value c = if ltb c 58 then c - 48 else c - 87

unfoldable pub hex_value : List ℕ → ℕ
unfolding digit_value
hex_value cs = foldl (λ n c. n * 16 + digit_value c) 0 cs

digit_value-hex_digit : (d : ℕ) → d < 16 → digit_value (hex_digit d) ≡ d
unfolding digit_value hex_digit
digit_value-hex_digit d h = ground arith

folded_last :
    (n : ℕ) (cs : List ℕ) (c : ℕ)
    → foldl (λ m x. m * 16 + digit_value x) n (cs ++ c ∷ [])
      ≡ foldl (λ m x. m * 16 + digit_value x) n cs * 16 + digit_value c
folded_last n [] c = refl
folded_last n (x ∷ cs) c = folded_last (n * 16 + digit_value x) cs c

abbrev sixteens : ℕ → ℕ
sixteens zero = 1
sixteens (suc width) = 16 * sixteens width

hex_value-hex_digits : (width n : ℕ) → n < sixteens width → hex_value (hex_digits width n) ≡ n
unfolding hex_value hex_digits
hex_value-hex_digits zero n h = omega arith
hex_value-hex_digits (suc width) n h =
    rw
      (
        folded_last 0 (hex_digits width (n / 16)) (hex_digit (n % 16)),
        digit_value-hex_digit (n % 16) (omega arith),
        hex_value-hex_digits width (n / 16) (omega arith),
      )
      (omega arith)

length-hex_digits : (width n : ℕ) → length (hex_digits width n) ≡ width
unfolding hex_digits
length-hex_digits zero n = refl
length-hex_digits (suc width) n = omega (
  arith,
  length-append (hex_digits width (n / 16)) (hex_digit (n % 16) ∷ []),
  length-hex_digits width (n / 16),
)

-- The identifier of a PC whose address of 48 bits is real has 12 characters, and they are the
-- address in digits to the base 16: the address can be read back, so no two addresses share one.
pub hex_value-get_fixed_pc_id :
    (mac : ℕ) (host : List ℕ)
    → mac < 281474976710656
    → is_random mac ≡ false
    → (length (get_fixed_pc_id (some mac) host) ≡ 12)
      × (hex_value (get_fixed_pc_id (some mac) host) ≡ mac)
unfolding get_fixed_pc_id
hex_value-get_fixed_pc_id mac host bits real =
    rw real (length-hex_digits 12 mac, hex_value-hex_digits 12 mac bits)
