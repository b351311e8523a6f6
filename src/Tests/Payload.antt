-- ===== src/Tests/Payload.antt =====
-- The theorems on what the client sends of values and of its identity, at concrete inputs.
use inha_rada.Common.{ℕ, ◌≡◌, ◌↔◌, refl, [], ◌∷◌, true, false, pos, arith, length, some}
use inha_rada.Client.Identity.{is_random, get_fixed_pc_id, hex_value, hex_value-get_fixed_pc_id}
use inha_rada.Client.Sanitizer.{
  Object, bool, int, dict, sequence, tuple, np_scalar, ndarray, np_bool, np_integer, nil, element,
  end, entry, cell, held, rows, no_rows, row, sanitize_for_json,
}
use inha_rada.Client.Sanitizer.Plain.{IsPlain, IsConvertible, sanitize_for_json-IsPlain}

-- A dictionary with a tuple, a number of numpy and an array of one row.
abbrev measured : Object ℕ ℕ
measured = dict (
    entry "load" (tuple (element (np_scalar (np_integer (pos 7))) nil))
      (entry "flags" (ndarray (rows (row (cell (np_bool true)) no_rows))) end))

abbrev plain : Object ℕ ℕ
plain = dict (
    entry "load" (sequence (element (int (pos 7)) nil))
      (entry "flags" (sequence (element (bool true) nil)) end))

sanitized_plainly : sanitize_for_json measured ≡ plain
unfolding sanitize_for_json
sanitized_plainly = refl

measured-IsConvertible : IsConvertible measured
unfolding IsConvertible
measured-IsConvertible = ((tt, tt), ((tt, tt), tt))

plain-IsPlain : IsPlain plain
unfolding IsPlain
plain-IsPlain = ((tt, tt), ((tt, tt), tt))

sanitize_for_json-IsPlain_example :
    (IsPlain (sanitize_for_json measured) ↔ IsConvertible measured)
    × (sanitize_for_json plain ≡ plain)
sanitize_for_json-IsPlain_example = sanitize_for_json-IsPlain measured plain plain-IsPlain

-- An object array that holds a tuple.
held_tuple : IsPlain (sanitize_for_json {Float = ℕ} {Other = ℕ} (ndarray (held (tuple nil)))) → ⊥
unfolding sanitize_for_json IsPlain
held_tuple h = h

-- The address 00:1a:2b:3c:4d:5e.
is_real : is_random 112394521950 ≡ false
unfolding is_random
is_real = refl

hex_value-get_fixed_pc_id_example :
    (length (get_fixed_pc_id (some 112394521950) (104 ∷ [])) ≡ 12)
    × (hex_value (get_fixed_pc_id (some 112394521950) (104 ∷ [])) ≡ 112394521950)
hex_value-get_fixed_pc_id_example =
    hex_value-get_fixed_pc_id 112394521950 (104 ∷ []) (omega arith) is_real
