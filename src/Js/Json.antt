-- ===== src/Js/Json.antt =====
-- JSON values as `JSON.parse` makes them (integers only), and reading, setting and printing them.
use x402guard.Base.{
  ℕ, suc, ◌+◌, Bool, true, false, Option, none, some, List, [], ◌∷◌, ◌++◌, if◌then◌else◌,
}
use x402guard.Js.Text.{Text, text, text_eq}
use x402guard.Js.Number.{ℤ, pos, negsuc, decimal}

mutual
  pub data Json : Type 0 where
    null : Json
    bool : Bool → Json
    num : ℤ → Json
    str : Text → Json
    arr : Items → Json
    obj : Fields → Json

  pub data Items : Type 0 where
    nil : Items
    cons : Json → Items → Items

  pub data Fields : Type 0 where
    end : Fields
    field : Text → Json → Fields → Fields

-- The property of an object, `none` where it is `undefined`.
unfoldable pub get_field : Text → Fields → Option Json
get_field k end = none
get_field k (field j v fs) = if text_eq j k then some v else get_field k fs

-- `{ ...fs, k: v }`
unfoldable pub set_field : Text → Json → Fields → Fields
set_field k v end = field k v end
set_field k v (field j w fs) = if text_eq j k then field j v fs else field j w (set_field k v fs)

-- An object literal; a property whose value is `undefined` is left out by `JSON.stringify`.
unfoldable pub fields_of : List (Text × Option Json) → Fields
fields_of [] = end
fields_of ((k, none) ∷ r) = fields_of r
fields_of ((k, some v) ∷ r) = field k v (fields_of r)

abbrev pub object : List (Text × Option Json) → Json
object r = obj (fields_of r)

unfoldable pub items_of : List Text → Items
items_of [] = nil
items_of (s ∷ r) = cons (str s) (items_of r)

abbrev pub count_items : Items → ℕ
count_items nil = 0
count_items (cons v vs) = suc (count_items vs)

-- An integer of less than 22 digits.
unfoldable pub integer_text : ℤ → Text
integer_text (pos n) = decimal n
integer_text (negsuc n) = b'-' ∷ decimal (n + 1)

abbrev bool_text : Bool → Text
bool_text true = text "true"
bool_text false = text "false"

-- `String(v)`; `null` and `undefined` inside an array print as nothing.
unfoldable mutual
  pub to_text : Json → Text
  to_text null = text "null"
  to_text (bool b) = bool_text b
  to_text (num n) = integer_text n
  to_text (str s) = s
  to_text (arr vs) = items_text vs
  to_text (obj fs) = text "[object Object]"

  pub items_text : Items → Text
  items_text nil = []
  items_text (cons v nil) = item_text v
  items_text (cons v (cons w vs)) = item_text v ++ b',' ∷ items_text (cons w vs)

  pub item_text : Json → Text
  item_text null = []
  item_text (bool b) = bool_text b
  item_text (num n) = integer_text n
  item_text (str s) = s
  item_text (arr vs) = items_text vs
  item_text (obj fs) = text "[object Object]"
