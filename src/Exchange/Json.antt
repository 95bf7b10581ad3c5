-- ===== src/Exchange/Json.antt =====
-- Decoded JSON, which the exchange and the configuration file are read as, and Python's access to it.
use cryptobot_v.Prelude.{ℕ, Bool, true, false, not, Option, none, some, List, [], ◌∷◌}
use cryptobot_v.Prelude.Text.{Text, text_eq}
use cryptobot_v.Prelude.Result.{Result, ok, raised, type_error, lookup_error, ◌>>=◌}

-- A number is kept as it is written.
mutual
  pub data Json : Type 0 where
    null : Json
    bool : Bool → Json
    num : Text → Json
    str : Text → Json
    arr : Items → Json
    obj : Fields → Json

  pub data Items : Type 0 where
    no_items : Items
    item : Json → Items → Items

  pub data Fields : Type 0 where
    no_fields : Fields
    field : Text → Json → Fields → Fields

abbrev pub item_list : Items → List Json
item_list no_items = []
item_list (item x xs) = x ∷ item_list xs

abbrev pub field_list : Fields → List (Text × Json)
field_list no_fields = []
field_list (field k x xs) = (k, x) ∷ field_list xs

abbrev pub items_of : List Json → Items
items_of [] = no_items
items_of (x ∷ xs) = item x (items_of xs)

abbrev pub fields_of : List (Text × Json) → Fields
fields_of [] = no_fields
fields_of ((k, x) ∷ xs) = field k x (fields_of xs)

-- Python's conversions of a decoded value: `int(x)` of times and counts, which are not negative,
-- `float(x)`, `Decimal(str(x))` and `str(x)`. They are the interpreter's.
pub record Decoder (F D : Type 0) : Type 0 where
  pub int_of : Json → Result ℕ
  pub float_of : Json → Result F
  pub decimal_of : Json → Result D
  pub text_of : Json → Text
  -- whether a number that is written so is 0
  pub is_zero : Text → Bool

-- `d.get(k)` on the fields; the last of two equal keys is the one that a decoded object has
unfoldable pub find : Text → Fields → Option Json
find k no_fields = none
find k (field j x xs) = elim (find k xs) [
  | some y ↦ some y
  | none ↦ elim (text_eq j k) [ true ↦ some x | false ↦ none ]
]

-- `x.get(k)`
unfoldable pub get : Text → Json → Result (Option Json)
get k (obj fields) = ok (find k fields)
get k _ = raised type_error

-- `x.get(k, default)`
unfoldable pub get_or : Text → Json → Json → Result Json
unfolding get
get_or k x default = do found ← get k x; elim found [ none ↦ ok default | some y ↦ ok y ]

-- `x[k]`
unfoldable pub get_key : Text → Json → Result Json
unfolding get
get_key k x = do found ← get k x; elim found [ none ↦ raised lookup_error | some y ↦ ok y ]

-- `for y in x`, of a list
unfoldable pub elements : Json → Result (List Json)
elements (arr xs) = ok (item_list xs)
elements _ = raised type_error

-- A list of results, in order: the first exception ends it.
unfoldable pub each {ℓ κ} : {A : Type ℓ} {B : Type κ} → (A → Result B) → List A → Result (List B)
each f [] = ok []
each f (x ∷ xs) = do y ← f x; ys ← each f xs; ok (y ∷ ys)

-- `x.get(k)`, as the key of a dictionary: only a text equals a text
unfoldable pub text_key : Text → Json → Result (Option Text)
unfolding get
text_key k x = do found ← get k x; elim found [ some (str t) ↦ ok (some t) | _ ↦ ok none ]

-- The entry of a key in a dictionary that is built from pairs: the last one stays.
unfoldable pub last_of {ℓ} : {A : Type ℓ} → Text → List (Option Text × A) → Option A
last_of name [] = none
last_of name ((key, x) ∷ xs) = elim (last_of name xs) [
  | some y ↦ some y
  | none ↦ elim key [
    | none ↦ none
    | some t ↦ elim (text_eq t name) [ true ↦ some x | false ↦ none ]
  ]
]

module _ {F D : Type 0} (dec : Decoder F D) where
  -- `bool(x)`
  unfoldable pub truthy : Json → Bool
  truthy null = false
  truthy (bool b) = b
  truthy (num t) = not (dec.is_zero t)
  truthy (str []) = false
  truthy (str (c ∷ s)) = true
  truthy (arr no_items) = false
  truthy (arr (item x xs)) = true
  truthy (obj no_fields) = false
  truthy (obj (field k x xs)) = true
