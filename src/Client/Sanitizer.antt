-- ===== src/Client/Sanitizer.antt =====
-- client_core/sender/sanitizer.py: from values with numpy's types to Python's own.
-- Floating-point numbers and the objects of any other type are parameters.
pub mod Plain
use Prim.Native.String.{String}
use inha_rada.Common.{Bool, ℤ}

mutual
  -- A Python object; the dictionary of a payload has texts for keys.
  pub data Object (Float Other : Type 0) : Type 0 where
    none_value : Object Float Other
    bool : Bool → Object Float Other
    int : ℤ → Object Float Other
    float : Float → Object Float Other
    str : String → Object Float Other
    dict : Entries Float Other → Object Float Other
    sequence : Elements Float Other → Object Float Other
    tuple : Elements Float Other → Object Float Other
    np_scalar : Scalar Float Other → Object Float Other
    ndarray : Cells Float Other → Object Float Other
    other : Other → Object Float Other

  -- `np.bool_`, `np.integer` and `np.floating`
  pub data Scalar (Float Other : Type 0) : Type 0 where
    np_bool : Bool → Scalar Float Other
    np_integer : ℤ → Scalar Float Other
    np_floating : Float → Scalar Float Other

  pub data Elements (Float Other : Type 0) : Type 0 where
    nil : Elements Float Other
    element : Object Float Other → Elements Float Other → Elements Float Other

  pub data Entries (Float Other : Type 0) : Type 0 where
    end : Entries Float Other
    entry : String → Object Float Other → Entries Float Other → Entries Float Other

  -- An array of no dimension, of one object per cell, or of one array per row.
  pub data Cells (Float Other : Type 0) : Type 0 where
    cell : Scalar Float Other → Cells Float Other
    held : Object Float Other → Cells Float Other
    rows : Rows Float Other → Cells Float Other

  pub data Rows (Float Other : Type 0) : Type 0 where
    no_rows : Rows Float Other
    row : Cells Float Other → Rows Float Other → Rows Float Other

module _ {Float Other : Type 0} where
  unfoldable pub item_of : Scalar Float Other → Object Float Other
  item_of (np_bool b) = bool b
  item_of (np_integer n) = int n
  item_of (np_floating x) = float x

  -- `tolist`, which leaves an object in a cell as it is.
  unfoldable mutual
    unfolding item_of

    pub to_list : Cells Float Other → Object Float Other
    to_list (cell s) = item_of s
    to_list (held v) = v
    to_list (rows rs) = sequence (row_lists rs)

    pub row_lists : Rows Float Other → Elements Float Other
    row_lists no_rows = nil
    row_lists (row r rs) = element (to_list r) (row_lists rs)

  unfoldable mutual
    unfolding item_of to_list

    pub sanitize_for_json : Object Float Other → Object Float Other
    sanitize_for_json none_value = none_value
    sanitize_for_json (bool b) = bool b
    sanitize_for_json (int n) = int n
    sanitize_for_json (float x) = float x
    sanitize_for_json (str s) = str s
    sanitize_for_json (dict es) = dict (sanitize_entries es)
    sanitize_for_json (sequence xs) = sequence (sanitize_elements xs)
    sanitize_for_json (tuple xs) = sequence (sanitize_elements xs)
    sanitize_for_json (np_scalar s) = item_of s
    sanitize_for_json (ndarray c) = to_list c
    sanitize_for_json (other o) = other o

    pub sanitize_elements : Elements Float Other → Elements Float Other
    sanitize_elements nil = nil
    sanitize_elements (element v vs) = element (sanitize_for_json v) (sanitize_elements vs)

    pub sanitize_entries : Entries Float Other → Entries Float Other
    sanitize_entries end = end
    sanitize_entries (entry k v es) = entry k (sanitize_for_json v) (sanitize_entries es)
