-- ===== src/Base/Json.antt =====
-- `serde_json::Value`, with what the program asks of it.
-- An integer is exact; a number with a fraction is kept as its text and never computed with.
-- A key is met once in an object (`Map` of serde_json); the order of `Fields` is that of the map.
pub mod Laws
use Prim.Native.Nat.{ℕ, ◌^◌}
use Prim.Native.String.{String}
use text.Mathlib.Text.{◌==◌}
use mathlib.Core.Bool.{Bool, true, false}
use mathlib.Core.List.{List, [], ◌∷◌}
use mathlib.Core.Option.{Option, none, some}
use nextapi.Base.Tests.{if◌then◌else◌, ltb}
use nextapi.Base.Int.{ℤ, pos, pos_part}

mutual
  pub data Value : Type 0 where
    null : Value
    bool : Bool → Value
    int : ℤ → Value
    float : String → Value
    str : String → Value
    arr : Items → Value
    obj : Fields → Value

  pub data Items : Type 0 where
    no_items : Items
    item : Value → Items → Items

  pub data Fields : Type 0 where
    no_fields : Fields
    field : String → Value → Fields → Fields

abbrev pub as_bool : Value → Option Bool
as_bool (bool b) = some b
as_bool _ = none

abbrev pub as_str : Value → Option String
as_str (str s) = some s
as_str _ = none

abbrev pub as_u64 : Value → Option ℕ
as_u64 (int (pos n)) = some n
as_u64 _ = none

-- An integer of a parsed text is at least -2^63 and below 2^64, so that only `as_i64` has a bound to test.
abbrev pub fits_i64 : ℤ → Bool
fits_i64 z = ltb (pos_part z) (2 ^ 63)

abbrev pub as_i64 : Value → Option ℤ
as_i64 (int z) = if fits_i64 z then some z else none
as_i64 _ = none

abbrev pub items : Items → List Value
items no_items = []
items (item v r) = v ∷ items r

abbrev pub as_array : Value → Option (List Value)
as_array (arr xs) = some (items xs)
as_array _ = none

-- `obj.get(key)`.
unfoldable pub get_field : String → Fields → Option Value
get_field k no_fields = none
get_field k (field j v r) = if j == k then some v else get_field k r

-- `value.get(key)`: `none` for what is no object.
unfoldable pub get : String → Value → Option Value
unfolding get_field
get k (obj fs) = get_field k fs
get k _ = none

-- `value[key]`: null where nothing is there.
unfoldable pub index : Value → String → Value
unfolding get
index v k = elim (get k v) [ none ↦ null | some w ↦ w ]

-- `map.insert(key, value)`: replaces the value of a key, or adds the key.
unfoldable pub put_field : String → Value → Fields → Fields
put_field k v no_fields = field k v no_fields
put_field k v (field j w r) =
    let rest = put_field k v r in if j == k then field k v r else field j w rest

-- With a value only if there is one.
abbrev pub put_some : String → Option Value → Fields → Fields
put_some k none fs = fs
put_some k (some v) fs = put_field k v fs

-- A sequence of insertions, the first one first; one without a value does nothing.
unfoldable pub put_all : List (String × Option Value) → Fields → Fields
put_all [] fs = fs
put_all ((k, o) ∷ l) fs = put_all l (put_some k o fs)

-- The entries whose key passes a test.
unfoldable pub keep_fields : (String → Bool) → Fields → Fields
keep_fields p no_fields = no_fields
keep_fields p (field k v r) = let rest = keep_fields p r in if p k then field k v rest else rest

-- An object of the `json!` macro.
abbrev pub fields_of : List (String × Value) → Fields
fields_of [] = no_fields
fields_of ((k, v) ∷ r) = field k v (fields_of r)

abbrev pub json : List (String × Value) → Value
json l = obj (fields_of l)

abbrev pub to_items : List Value → Items
to_items [] = no_items
to_items (v ∷ vs) = item v (to_items vs)

abbrev pub array : List Value → Value
array vs = arr (to_items vs)

abbrev pub is_object : Value → Bool
is_object (obj _) = true
is_object _ = false

abbrev pub is_null : Value → Bool
is_null null = true
is_null _ = false

-- What `serde_json` and `to_string` do beyond this model: text of a value, value of a text and what is wrong with a text that has none, the float that an
-- integer is read as, the text of an integer.
pub record Serde : Type 0 where
  pub print : Value → String
  pub read : String → Option Value
  pub read_error : String → String
  pub float_of_int : ℤ → String
  pub int_text : ℤ → String

abbrev pub as_f64 : Serde → Value → Option String
as_f64 serde (int z) = some (serde.float_of_int z)
as_f64 serde (float s) = some s
as_f64 serde _ = none
