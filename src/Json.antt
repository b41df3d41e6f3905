-- ===== src/Json.antt =====
-- Frozen JSON values (src/alice_brain_hermes/core/events.py, FrozenJsonDict and _freeze_json).
-- A float is the bit pattern of a finite IEEE double; the code modelled here compares floats and
-- passes them on, and computes none. An integer is held by its sign and its size.
pub mod Equality
use alice_brain_hermes.Prelude.{
  ℕ, String, Bool, true, false, not, ◌&&◌, ◌||◌, Option, none, some, List, [], ◌∷◌, str_eq, leb,
  ◌==◌, if◌then◌else◌,
}

pub data Number : Type 0 where
  non_negative : ℕ → Number
  negative : ℕ → Number  -- -(n + 1)
  double : ℕ → Number

mutual
  pub data Json : Type 0 where
    null : Json
    bool : Bool → Json
    num : Number → Json
    str : String → Json
    arr : Items → Json
    obj : Fields → Json

  pub data Items : Type 0 where
    nil : Items
    cons : Json → Items → Items

  pub data Fields : Type 0 where
    end : Fields
    field : String → Json → Fields → Fields

-- `mapping[key]`, where a missing key is a KeyError
unfoldable pub get_elem? : Fields → String → Option Json
get_elem? end key = none
get_elem? (field k v rest) key = if str_eq k key then some v else get_elem? rest key

-- `mapping.get(key)`: a missing key reads as None, which is also what JSON null is
unfoldable pub get : Fields → String → Json
unfolding get_elem?
get fields key = elim (get_elem? fields key) [ none ↦ null | some v ↦ v ]

-- `mapping.get(key, default)`
unfoldable pub get_or : Fields → String → Json → Json
unfolding get_elem?
get_or fields key default = elim (get_elem? fields key) [ none ↦ default | some v ↦ v ]

abbrev pub to_list : Items → List Json
to_list nil = []
to_list (cons x xs) = x ∷ to_list xs

-- `isinstance(value, str)`, with the text
abbrev pub as_str : Json → Option String
as_str (str s) = some s
as_str _ = none

-- `isinstance(value, Mapping)`
abbrev pub as_obj : Json → Option Fields
as_obj (obj fields) = some fields
as_obj _ = none

-- `isinstance(value, (list, tuple))`
abbrev pub as_arr : Json → Option (List Json)
as_arr (arr items) = some (to_list items)
as_arr _ = none

abbrev pub as_bool : Json → Option Bool
as_bool (bool b) = some b
as_bool _ = none

characters : String → List Json
characters String.[] = []
characters (String.◌∷◌ c rest) = str (String.◌∷◌ c String.[]) ∷ characters rest

keys_of : Fields → List Json
keys_of end = []
keys_of (field k v rest) = str k ∷ keys_of rest

-- `tuple(value)`: a text gives its characters, an object its keys
unfoldable pub tuple_of : Json → Option (List Json)
unfolding characters keys_of
tuple_of (arr items) = some (to_list items)
tuple_of (str s) = some (characters s)
tuple_of (obj fields) = some (keys_of fields)
tuple_of _ = none

-- A pydantic field `tuple[str, ...]`: an element that is no text is refused.
unfoldable pub as_texts : List Json → Option (List String)
as_texts [] = some []
as_texts (x ∷ xs) = elim (as_str x) [
  | none ↦ none
  | some s ↦ elim (as_texts xs) [ none ↦ none | some rest ↦ some (s ∷ rest) ]
]

-- `value is None`
abbrev pub is_null : Json → Bool
is_null null = true
is_null _ = false

-- `value == text`
abbrev pub is_str : Json → String → Bool
is_str (str s) t = str_eq s t
is_str _ t = false

-- `value == text`, where the text may be None
abbrev pub is_opt_str : Json → Option String → Bool
is_opt_str value none = is_null value
is_opt_str value (some t) = is_str value t

abbrev pub of_opt_str : Option String → Json
of_opt_str none = null
of_opt_str (some s) = str s

-- A pydantic field of type `str | None`: other values are refused.
abbrev pub opt_str : Json → Option (Option String)
opt_str null = some none
opt_str (str s) = some (some s)
opt_str _ = none

-- `0.0 <= x <= 1.0` of the float that a strict pydantic field `float` makes of a number. On bit patterns of
-- doubles from 0.0 on, the order is that of the numbers; 2 ^ 63 is -0.0.
abbrev pub in_unit_interval : Number → Bool
in_unit_interval (non_negative n) = leb n 1
in_unit_interval (negative n) = false
in_unit_interval (double bits) = leb bits 4607182418800017408 || bits == 9223372036854775808

abbrev pub num_eq : Number → Number → Bool
num_eq (non_negative a) (non_negative b) = a == b
num_eq (negative a) (negative b) = a == b
num_eq (double a) (double b) = a == b
num_eq _ _ = false

abbrev pub bool_eq : Bool → Bool → Bool
bool_eq true b = b
bool_eq false b = not b

-- Equality of canonical JSON texts, which keeps the types apart.
unfoldable mutual
  pub json_eq : Json → Json → Bool
  json_eq null null = true
  json_eq (bool a) (bool b) = bool_eq a b
  json_eq (num a) (num b) = num_eq a b
  json_eq (str a) (str b) = str_eq a b
  json_eq (arr a) (arr b) = items_eq a b
  json_eq (obj a) (obj b) = fields_eq a b
  json_eq _ _ = false

  pub items_eq : Items → Items → Bool
  items_eq nil nil = true
  items_eq (cons a as') (cons b bs) = json_eq a b && items_eq as' bs
  items_eq _ _ = false

  pub fields_eq : Fields → Fields → Bool
  fields_eq end end = true
  fields_eq (field j a as') (field k b bs) = str_eq j k && json_eq a b && fields_eq as' bs
  fields_eq _ _ = false
