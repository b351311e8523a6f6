-- ===== src/Client/Sanitizer/Plain.antt =====
-- What client_core/sender/sanitizer.py makes of a payload.
use inha_rada.Common.{◌≡◌, refl, ap, ◌↔◌}
use inha_rada.Client.Sanitizer.{
  Object, none_value, bool, int, float, str, dict, sequence, tuple, np_scalar, ndarray, other,
  Scalar, np_bool, np_integer, np_floating, Elements, nil, element, Entries, end, entry, Cells,
  cell, held, rows, Rows, no_rows, row, item_of, to_list, row_lists, sanitize_for_json,
  sanitize_elements, sanitize_entries,
}

module _ {Float Other : Type 0} where
  -- Built of Python's own dictionaries, lists, texts, numbers, Booleans and None: no tuple, nothing of
  -- numpy, no other object. A float may be a NaN or an infinity.
  unfoldable mutual
    pub IsPlain : Object Float Other → Type 0
    IsPlain none_value = Unit
    IsPlain (bool b) = Unit
    IsPlain (int n) = Unit
    IsPlain (float x) = Unit
    IsPlain (str s) = Unit
    IsPlain (dict es) = ArePlainEntries es
    IsPlain (sequence xs) = ArePlain xs
    IsPlain (tuple xs) = ⊥
    IsPlain (np_scalar s) = ⊥
    IsPlain (ndarray c) = ⊥
    IsPlain (other o) = ⊥

    pub ArePlain : Elements Float Other → Type 0
    ArePlain nil = Unit
    ArePlain (element v vs) = IsPlain v × ArePlain vs

    pub ArePlainEntries : Entries Float Other → Type 0
    ArePlainEntries end = Unit
    ArePlainEntries (entry k v es) = IsPlain v × ArePlainEntries es

  -- An array of numbers, or of objects that are plain already.
  unfoldable mutual
    unfolding IsPlain

    pub HasPlainCells : Cells Float Other → Type 0
    HasPlainCells (cell s) = Unit
    HasPlainCells (held v) = IsPlain v
    HasPlainCells (rows rs) = HavePlainCells rs

    pub HavePlainCells : Rows Float Other → Type 0
    HavePlainCells no_rows = Unit
    HavePlainCells (row r rs) = HasPlainCells r × HavePlainCells rs

  -- Without an object of another type, and with plain objects in the cells of object arrays.
  unfoldable mutual
    unfolding HasPlainCells

    pub IsConvertible : Object Float Other → Type 0
    IsConvertible (dict es) = AreConvertibleEntries es
    IsConvertible (sequence xs) = AreConvertible xs
    IsConvertible (tuple xs) = AreConvertible xs
    IsConvertible (ndarray c) = HasPlainCells c
    IsConvertible (other o) = ⊥
    IsConvertible _ = Unit

    pub AreConvertible : Elements Float Other → Type 0
    AreConvertible nil = Unit
    AreConvertible (element v vs) = IsConvertible v × AreConvertible vs

    pub AreConvertibleEntries : Entries Float Other → Type 0
    AreConvertibleEntries end = Unit
    AreConvertibleEntries (entry k v es) = IsConvertible v × AreConvertibleEntries es

  item_of-IsPlain : (s : Scalar Float Other) → IsPlain (item_of s)
  unfolding item_of IsPlain
  item_of-IsPlain (np_bool b) = tt
  item_of-IsPlain (np_integer n) = tt
  item_of-IsPlain (np_floating x) = tt

  mutual
    unfolding to_list HasPlainCells IsPlain

    to_list-IsPlain : (c : Cells Float Other) → HasPlainCells c → IsPlain (to_list c)
    to_list-IsPlain (cell s) h = item_of-IsPlain s
    to_list-IsPlain (held v) h = h
    to_list-IsPlain (rows rs) h = row_lists-ArePlain rs h

    row_lists-ArePlain : (rs : Rows Float Other) → HavePlainCells rs → ArePlain (row_lists rs)
    row_lists-ArePlain no_rows h = tt
    row_lists-ArePlain (row r rs) h = (to_list-IsPlain r h.0, row_lists-ArePlain rs h.1)

  mutual
    unfolding sanitize_for_json IsConvertible IsPlain

    sanitized-IsPlain : (v : Object Float Other) → IsConvertible v → IsPlain (sanitize_for_json v)
    sanitized-IsPlain none_value h = tt
    sanitized-IsPlain (bool b) h = tt
    sanitized-IsPlain (int n) h = tt
    sanitized-IsPlain (float x) h = tt
    sanitized-IsPlain (str s) h = tt
    sanitized-IsPlain (dict es) h = sanitized-ArePlainEntries es h
    sanitized-IsPlain (sequence xs) h = sanitized-ArePlain xs h
    sanitized-IsPlain (tuple xs) h = sanitized-ArePlain xs h
    sanitized-IsPlain (np_scalar s) h = item_of-IsPlain s
    sanitized-IsPlain (ndarray c) h = to_list-IsPlain c h
    sanitized-IsPlain (other _) h = elim h [ ]

    sanitized-ArePlain :
        (vs : Elements Float Other) → AreConvertible vs → ArePlain (sanitize_elements vs)
    sanitized-ArePlain nil h = tt
    sanitized-ArePlain (element v vs) h = (sanitized-IsPlain v h.0, sanitized-ArePlain vs h.1)

    sanitized-ArePlainEntries :
        (es : Entries Float Other)
        → AreConvertibleEntries es
        → ArePlainEntries (sanitize_entries es)
    sanitized-ArePlainEntries end h = tt
    sanitized-ArePlainEntries (entry k v es) h =
        (sanitized-IsPlain v h.0, sanitized-ArePlainEntries es h.1)

  mutual
    unfolding sanitize_for_json IsPlain

    fixed : (v : Object Float Other) → IsPlain v → sanitize_for_json v ≡ v
    fixed none_value h = refl
    fixed (bool b) h = refl
    fixed (int n) h = refl
    fixed (float x) h = refl
    fixed (str s) h = refl
    fixed (dict es) h = ap dict (fixed_entries es h)
    fixed (sequence xs) h = ap sequence (fixed_elements xs h)
    fixed (tuple _) h = elim h [ ]
    fixed (np_scalar _) h = elim h [ ]
    fixed (ndarray _) h = elim h [ ]
    fixed (other _) h = elim h [ ]

    fixed_elements : (vs : Elements Float Other) → ArePlain vs → sanitize_elements vs ≡ vs
    fixed_elements nil h = refl
    fixed_elements (element v vs) h = rw (fixed v h.0, fixed_elements vs h.1)

    fixed_entries : (es : Entries Float Other) → ArePlainEntries es → sanitize_entries es ≡ es
    fixed_entries end h = refl
    fixed_entries (entry k v es) h = rw (fixed v h.0, fixed_entries es h.1)

  mutual
    unfolding to_list HasPlainCells IsPlain

    cells_of_plain : (c : Cells Float Other) → IsPlain (to_list c) → HasPlainCells c
    cells_of_plain (cell s) h = tt
    cells_of_plain (held v) h = h
    cells_of_plain (rows rs) h = rows_of_plain rs h

    rows_of_plain : (rs : Rows Float Other) → ArePlain (row_lists rs) → HavePlainCells rs
    rows_of_plain no_rows h = tt
    rows_of_plain (row r rs) h = (cells_of_plain r h.0, rows_of_plain rs h.1)

  mutual
    unfolding sanitize_for_json IsConvertible IsPlain

    of_plain : (v : Object Float Other) → IsPlain (sanitize_for_json v) → IsConvertible v
    of_plain none_value h = tt
    of_plain (bool b) h = tt
    of_plain (int n) h = tt
    of_plain (float x) h = tt
    of_plain (str s) h = tt
    of_plain (dict es) h = entries_of_plain es h
    of_plain (sequence xs) h = elements_of_plain xs h
    of_plain (tuple xs) h = elements_of_plain xs h
    of_plain (np_scalar s) h = tt
    of_plain (ndarray c) h = cells_of_plain c h
    of_plain (other o) h = elim h [ ]

    elements_of_plain :
        (vs : Elements Float Other) → ArePlain (sanitize_elements vs) → AreConvertible vs
    elements_of_plain nil h = tt
    elements_of_plain (element v vs) h = (of_plain v h.0, elements_of_plain vs h.1)

    entries_of_plain :
        (es : Entries Float Other)
        → ArePlainEntries (sanitize_entries es)
        → AreConvertibleEntries es
    entries_of_plain end h = tt
    entries_of_plain (entry k v es) h = (of_plain v h.0, entries_of_plain es h.1)

  -- A payload whose dictionaries have texts for keys becomes plain, that is built of Python's own
  -- dictionaries, lists, texts, numbers, Booleans and None, exactly if no object of another type
  -- occurs in it and its object arrays hold plain objects in their cells, which are not looked into:
  -- a tuple or a number of numpy there stays. A plain payload is left alone.
  pub sanitize_for_json-IsPlain :
      (v w : Object Float Other)
      → IsPlain w
      → (IsPlain (sanitize_for_json v) ↔ IsConvertible v) × (sanitize_for_json w ≡ w)
  sanitize_for_json-IsPlain v w plain = ((of_plain v, sanitized-IsPlain v), fixed w plain)
