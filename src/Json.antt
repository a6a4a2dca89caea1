-- ===== src/Json.antt =====
-- JSON values as encoding/json decodes them into `interface{}`, and the accesses that the program
-- makes to them: reads with a type assertion, and writes to a field.
pub mod Laws
use pangolin_kube_controller.Prelude.{
  ℕ, Bool, true, false, Option, none, some, List, [], ◌∷◌, if◌then◌else◌, or_else, zero, suc, ℤ,
  pos, negsuc,
}
use pangolin_kube_controller.Text.{Text, text_eq}
use pangolin_kube_controller.Result.{Result, ok, err, unmarshal, marshal}

-- A number in decimal: the digits over a power of ten, with a sign. The rounding of float64 is
-- not modelled.
pub record Number : Type 0 where
  pub negative : Bool
  pub digits : ℕ
  pub scale : ℕ

mutual
  pub data Value : Type 0 where
    null : Value
    bool : Bool → Value
    num : Number → Value
    str : Text → Value
    arr : Items → Value
    obj : Fields → Value

  pub data Items : Type 0 where
    nil : Items
    cons : Value → Items → Items

  -- A map[string]interface{}.
  pub data Fields : Type 0 where
    end : Fields
    field : Text → Value → Fields → Fields

-- encoding/json, which the standard library supplies.
pub record Codec : Type 0 where
  pub decode : Text → Option Value
  pub encode : Value → Option Text

unfoldable pub get : Text → Fields → Option Value
get k end = none
get k (field j v fs) = if text_eq j k then some v else get k fs

-- m[k] = v
unfoldable pub put : Text → Value → Fields → Fields
put k v end = field k v end
put k v (field j w fs) = if text_eq j k then field j v fs else field j w (put k v fs)

-- delete(m, k)
unfoldable pub remove : Text → Fields → Fields
remove k end = end
remove k (field j v fs) = let rest = remove k fs in if text_eq j k then rest else field j v rest

-- len(m)
unfoldable pub size : Fields → ℕ
size end = 0
size (field k v fs) = suc (size fs)

-- m[k] = f(m[k]), where m has the key k
unfoldable pub update : Text → (Value → Value) → Fields → Fields
update k f end = end
update k f (field j v fs) = if text_eq j k then field j (f v) fs else field j v (update k f fs)

-- The type assertions v.(string), v.([]interface{}) and v.(map[string]interface{}).
abbrev pub as_str : Option Value → Option Text
as_str (some (str s)) = some s
as_str _ = none

abbrev pub as_arr : Option Value → Option Items
as_arr (some (arr xs)) = some xs
as_arr _ = none

abbrev pub as_obj : Option Value → Option Fields
as_obj (some (obj fs)) = some fs
as_obj _ = none

abbrev pub as_num : Option Value → Option Number
as_num (some (num n)) = some n
as_num _ = none

-- The text at a key of a section of an object.
abbrev pub text_in : Text → Text → Fields → Option Text
text_in section key o = as_str (get key (or_else (as_obj (get section o)) end))

-- A rewrite under a type assertion: a value of another type is left as it is.
abbrev pub on_str : (Text → Text) → Value → Value
on_str f (str s) = str (f s)
on_str f v = v

abbrev pub on_arr : (Items → Items) → Value → Value
on_arr f (arr xs) = arr (f xs)
on_arr f v = v

abbrev pub on_obj : (Fields → Fields) → Value → Value
on_obj f (obj fs) = obj (f fs)
on_obj f v = v

unfoldable pub map_items : (Value → Value) → Items → Items
map_items f nil = nil
map_items f (cons v vs) = cons (f v) (map_items f vs)

unfoldable pub values : Items → List Value
values nil = []
values (cons v vs) = v ∷ values vs

unfoldable pub items : List Value → Items
items [] = nil
items (v ∷ vs) = cons v (items vs)

-- A map literal.
abbrev pub literal : List (Text × Value) → Fields
literal [] = end
literal ((k, v) ∷ l) = field k v (literal l)

-- float64(n), and int values
abbrev pub number : ℕ → Value
number n = num (record { negative = false; digits = n; scale = 0 })

abbrev pub int_number : ℤ → Value
int_number (pos n) = number n
int_number (negsuc n) = num (record { negative = true; digits = suc n; scale = 0 })

-- The strings of a list; `v.(string)` is asserted of every item.
unfoldable pub strings : Items → List Text
strings nil = []
strings (cons (str s) vs) = s ∷ strings vs
strings (cons _ vs) = strings vs

unfoldable pub str_items : List Text → Items
str_items [] = nil
str_items (s ∷ ss) = cons (str s) (str_items ss)

-- The target of `json.Unmarshal` is a map: `null` leaves it nil, and any other value that is no
-- object is an error.
abbrev pub map_value : Option Value → Result Value
map_value (some null) = ok null
map_value (some (obj fs)) = ok (obj fs)
map_value _ = err unmarshal

-- Reads of a nil map find nothing.
abbrev pub fields_of : Value → Fields
fields_of (obj fs) = fs
fields_of _ = end

abbrev or_marshal_error : Option Text → Result Text
or_marshal_error none = err marshal
or_marshal_error (some b) = ok b

module _ (codec : Codec) where
  abbrev pub unmarshal_map : Text → Result Value
  unmarshal_map raw = map_value (codec.decode raw)

  abbrev pub marshal_value : Value → Result Text
  marshal_value v = or_marshal_error (codec.encode v)
